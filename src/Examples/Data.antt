-- ===== src/Examples/Data.antt =====
-- A small space with two ranges of times and two partitions for each.
use vearch.Prelude.{ℕ, ◌+◌, String, [], ◌∷◌, none, some, if◌then◌else◌, str_eq}
use vearch.Space.Model.{Partition, PartitionRule, Range, pa_unknow}
use vearch.Space.Ranges.{Cast}
use vearch.Router.Split.{Document, RouterRequest}

-- A cast that knows three numbers.
abbrev pub digit_cast : Cast
digit_cast = record {
  to_int64 = λ s.
      if str_eq s "1"
      then some 1
      else if str_eq s "2"
      then some 2
      else if str_eq s "3"
      then some 3
      else none;
  to_time = λ _. none;
}

abbrev pub early : Range
early = record { name = "early"; value = "1" }

abbrev pub middle : Range
middle = record { name = "middle"; value = "2" }

abbrev pub late : Range
late = record { name = "late"; value = "3" }

abbrev pub two_ranges : PartitionRule
two_ranges = record { type = "RANGE"; field = "day"; partitions = 2; ranges = early ∷ late ∷ [] }

abbrev pub ids_from_10 : ℕ → ℕ
ids_from_10 i = i + 10

-- A partition with an id and a slot.
abbrev pub partition : ℕ → ℕ → String → Partition
partition id slot name = record {
  id = id;
  name = name;
  space_id = 1;
  db_id = 1;
  slot = slot;
  leader_id = 0;
  replicas = [];
  status = pa_unknow;
}

abbrev pub doc_a : Document
doc_a = record { pkey = "a"; fields = [] }

abbrev pub doc_b : Document
doc_b = record { pkey = "b"; fields = [] }

abbrev pub two_docs : RouterRequest
two_docs = record {
  space = record {
    partitions = partition 10 0 "" ∷ partition 11 2000000000 "" ∷ [];
    partition_num = 2;
    replica_num = 1;
    partition_rule = none;
  };
  docs = doc_a ∷ doc_b ∷ [];
  send_map = [];
  err = none;
}

-- A hash that tells the two documents apart.
abbrev pub two_hash : String → ℕ
two_hash s = if str_eq s "a" then 5 else 4000000000
