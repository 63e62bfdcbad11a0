-- ===== src/Index/Change.antt =====
-- Adding and removing an index of a space: AddIndexes and RemoveIndex of
-- internal/master/services/space_service.go, with the metadata of the space in the store and the state
-- of the engine of each partition.
pub mod Fresh
pub mod Fanout
pub mod Add
pub mod Remove
pub mod Prepared
pub mod New
use vearch.Prelude.{
  ℕ, zero, suc, ◌+◌, ◌-◌, ◌*◌, ◌/◌, ◌%◌, ◌^◌, ◌≤◌, ◌<◌, String, List, [], ◌∷◌, ◌++◌, map, Bool,
  true, false, ◌&&◌, ◌||◌, not, Bool-cases, inl, inr, ◌⊎◌, ◌↔◌, Option, none, some, Option-cases,
  Result, ok, err, ErrorEnum, ◌>>=◌, ◌>>◌, fail_if, bind-ok, fail_if_iff, >>-iff, Result-cases,
  Outcome, done, failed, panic, out_of_fuel, and_then, lift, lift-done, and_then-done,
  if◌then◌else◌, has_str, has_num, filter_by, str_eq, eq_iff, eq_refl, ltb, leb, ◌==◌, ==_iff,
  get_elem?, get_elem?-lt, length, length-append, take, drop, All, key64, lt64, le64, mul64, sub64,
  add64, arith, ◌≡◌, ◌≢◌, refl, sym, ap, ◌∙◌,
}
use vearch.Prelude.Assoc.{lookup, insert, erase, lookup-insert, lookup-erase}
use mathlib.Core.Path.{subst}
use mathlib.Core.List.{append_assoc, append-nil}
use Prim.Native.String.{◌++◌ as text_append}
use vearch.Space.Model.{Partition, PartitionRule}
use vearch.Index.{
  Index, FieldOption, no_option, SpaceProperties, Props, composite_index_type, is_composite,
  validate_indexes,
}
use vearch.Index.Fields.{Field, unmarshal_property_json}

-- entity.Space of internal/entity/space.go; `fields` is the JSON text of the declared fields.
pub record SpaceMeta : Type 0 where
  pub name : String
  pub version : ℕ  -- uint64
  pub db_id : ℕ  -- int64
  pub enabled : Option Bool
  pub partitions : List Partition
  pub partition_num : ℕ  -- int
  pub replica_num : ℕ  -- uint8
  pub fields : String
  pub indexes : List Index
  pub partition_rule : Option PartitionRule
  pub space_properties : Option Props
  pub partition_name : Option String
  pub operator_type : Option String

-- vearchpb.IndexChange, with the JSON text of the indexes to add
pub data IndexChange : Type 0 where
  add_index : String → IndexChange
  remove_index : String → IndexChange

-- What is not of this service. Rounds count the times an operation calls all partitions. The last five are the
-- answers for a partition: its leader, the leader's address, whether it lives, whether its call is late, and
-- whether the partition applied the change and what it answered.
pub record Env : Type 0 where
  pub lock : Result (Unit {0})
  pub db_id : String → Result ℕ
  pub get : Result (Unit {0})
  pub put : SpaceMeta → Result (Unit {0})  -- json.Marshal and the write
  pub decode : String → Result (List Field)
  pub encode : List Field → Result String
  pub encode_indexes : List Index → Result String
  pub query_partition : ℕ → ℕ → Result ℕ
  pub query_server : ℕ → ℕ → Result String
  pub is_live : ℕ → String → Bool
  pub is_late : ℕ → ℕ → Bool  -- whether the call of a round for a partition outlasts an error of another
  pub index_change : ℕ → String → ℕ → IndexChange → Bool × Result (Unit {0})

-- The space as the store holds it, and the state of the engine of each partition.
pub record Cluster {ℓ} (Engine : Type ℓ) : Type ℓ where
  pub stored : Option SpaceMeta
  pub engines : ℕ → Engine

-- UpdateSpaceData changes the space before it writes it.
unfoldable pub to_store : SpaceMeta → SpaceMeta
to_store space = record space {
  version = (space.version + 1) % 2 ^ 64;
  partition_num = elim space.partition_rule [
    | none ↦ length space.partitions
    | some rule ↦ space.partition_num
  ];
  partition_name = none;
  operator_type = none;
}

-- An error of the reads of the metadata is wrapped.
unfoldable pub as_read_error {ℓ} : {A : Type ℓ} → Result A → Result A
as_read_error (err e) = err ErrorEnum.param_error
as_read_error (ok a) = ok a

-- After the lock: the space that the store holds under the names.
unfoldable pub load_locked_space : Env → String → Option SpaceMeta → Result SpaceMeta
unfolding as_read_error
load_locked_space env db_name stored =
    env.lock
    >> (as_read_error (env.db_id db_name) >>= λ id.
        as_read_error env.get
        >> elim stored [ none ↦ err ErrorEnum.space_not_exist | some space ↦ ok space ])

-- The keys of the maps existing, indexedFields and compositeFields of AddIndexes
pub record Seen : Type 0 where
  pub names : List String
  pub fields : List String
  pub composites : List String

-- strings.Join(fieldNames, "\x00")
unfoldable pub composite_field_key : List String → String
composite_field_key [] = ""
composite_field_key (name ∷ []) = name
composite_field_key (name ∷ next ∷ names) =
    text_append name (text_append "\0" (composite_field_key (next ∷ names)))

unfoldable pub see : Index → Seen → Seen
see idx seen =
    if is_composite idx
    then record seen {
      names = idx.name ∷ seen.names;
      composites = composite_field_key idx.field_names ∷ seen.composites;
    }
    else record seen { names = idx.name ∷ seen.names; fields = idx.field_name ∷ seen.fields }

unfoldable pub see_all : List Index → Seen → Seen
see_all [] seen = seen
see_all (idx ∷ indexes) seen = see_all indexes (see idx seen)

-- The name goes into the set, the fields if there are any.
unfoldable pub see_fields : Index → Seen → Result Seen
see_fields idx seen =
    if is_composite idx
    then (if ltb 0 (length idx.field_names)
        then fail_if (has_str (composite_field_key idx.field_names) seen.composites)
            ErrorEnum.param_error
          >> ok (record seen { composites = composite_field_key idx.field_names ∷ seen.composites })
        else ok seen)
    else (if not (str_eq idx.field_name "")
        then fail_if (has_str idx.field_name seen.fields) ErrorEnum.param_error
          >> ok (record seen { fields = idx.field_name ∷ seen.fields })
        else ok seen)

unfoldable pub check_new_index : Option Index → Seen → Result (Index × Seen)
check_new_index none seen = err ErrorEnum.param_error
check_new_index (some idx) seen =
    fail_if (str_eq idx.name "") ErrorEnum.param_error
    >> fail_if (has_str idx.name seen.names) ErrorEnum.param_error
    >> (see_fields idx (record seen { names = idx.name ∷ seen.names }) >>= λ later. ok (idx, later))

-- The loop of AddIndexes over the request; no entry of it is nil if the loop ends well.
unfoldable pub check_new_indexes : List (Option Index) → Seen → Result (List Index)
check_new_indexes [] seen = ok []
check_new_indexes (entry ∷ entries) seen = check_new_index entry seen >>= λ found.
    check_new_indexes entries found.1 >>= λ indexes. ok (found.0 ∷ indexes)

-- entity.UnmarshalPropertyJSON, with the decoding
unfoldable pub properties_of_json : Env → String → Outcome Props
properties_of_json env fields = and_then (lift (env.decode fields)) unmarshal_property_json

-- Everything that AddIndexes does before the first partition is called: the old and the new indexes, and
-- the instruction.
unfoldable pub prepare_add :
    Env → SpaceMeta → List (Option Index) → Outcome (List Index × IndexChange)
prepare_add env space entries =
    and_then
      (lift (
        check_new_indexes entries
          (see_all space.indexes (record { names = []; fields = []; composites = [] }))))
      λ new_indexes. and_then (properties_of_json env space.fields) λ props.
        and_then (lift (validate_indexes (space.indexes ++ new_indexes) props)) λ _.
          and_then (lift (env.encode_indexes new_indexes))
            λ text. done (new_indexes, add_index text)

-- An error of the partitions or of the write is compensated; otherwise the space is stored.
unfoldable pub settle {ℓ} :
    {Engine : Type ℓ}
    → Cluster Engine
    → SpaceMeta
    → (ℕ → Engine)
    → ((ℕ → Engine) → ℕ → Engine)
    → Result (Unit {0})
    → Cluster Engine × Outcome SpaceMeta
settle cluster space engines compensate (err e) =
    (record cluster { engines = compensate engines }, failed e)
settle cluster space engines compensate (ok _) =
    (record { stored = some space; engines = engines }, done space)

-- What the engine of a partition makes of a change
module _ {ℓ} {Engine : Type ℓ} (apply_change : IndexChange → Engine → Engine) where
  unfoldable pub put_engine : ℕ → IndexChange → Bool → (ℕ → Engine) → ℕ → Engine
  put_engine id change applied engines other =
      if applied && (id == other) then apply_change change (engines other) else engines other

  -- The body of the goroutine for one partition, with the address of its leader
  unfoldable pub notify_leader :
      Env → ℕ → IndexChange → ℕ → (ℕ → Engine) → Result String → (ℕ → Engine) × Result (Unit {0})
  unfolding put_engine
  notify_leader env round change id engines (err e) = (engines, err e)
  notify_leader env round change id engines (ok addr) =
      if env.is_live round addr
      then (let answer = env.index_change round addr id change in
          (put_engine id change answer.0 engines, answer.1))
      else (engines, err ErrorEnum.partition_is_closed)

  unfoldable pub notify_partition :
      Env → ℕ → IndexChange → Partition → (ℕ → Engine) → (ℕ → Engine) × Result (Unit {0})
  unfolding notify_leader
  notify_partition env round change partition engines =
      notify_leader env round change partition.id engines
        (env.query_partition round partition.id >>= λ leader. env.query_server round leader)

  -- The calls of all partitions, one goroutine each, and an error if one of them answers with one. Go answers the
  -- error that comes first; the model, that of the first partition.
  unfoldable pub call_partitions :
      Env → ℕ → IndexChange → List Partition → (ℕ → Engine) → (ℕ → Engine) × Result (Unit {0})
  call_partitions env round change [] engines = (engines, ok tt)
  call_partitions env round change (partition ∷ partitions) engines =
      let here = notify_partition env round change partition engines in
      let rest = call_partitions env round change partitions here.0 in (rest.0, here.1 >> rest.1)

  -- The engines when the function returns: on the first error, some goroutines still run.
  unfoldable pub without_late :
      Env → ℕ → Result (Unit {0}) → (ℕ → Engine) → (ℕ → Engine) → ℕ → Engine
  without_late env round (ok _) engines called id = called id
  without_late env round (err e) engines called id =
      if env.is_late round id then engines id else called id

  unfoldable pub notify_partitions_index_change :
      Env → ℕ → IndexChange → List Partition → (ℕ → Engine) → (ℕ → Engine) × Result (Unit {0})
  unfolding call_partitions without_late
  notify_partitions_index_change env round change partitions engines =
      let called = call_partitions env round change partitions engines in
      (without_late env round called.1 engines called.0, called.1)

  -- The calls of a round that were late act once the operation has returned.
  unfoldable pub land_late :
      Env → ℕ → IndexChange → List Partition → Result (Unit {0}) → (ℕ → Engine) → ℕ → Engine
  land_late env round change partitions (ok _) engines id = engines id
  land_late env round change partitions (err e) engines id =
      if env.is_late round id
      then (call_partitions env round change partitions engines).0 id
      else engines id

  -- compensateAdd: a round for each of the new indexes, whose answers are only logged.
  unfoldable pub compensate_add : Env → ℕ → List Index → List Partition → (ℕ → Engine) → ℕ → Engine
  unfolding notify_partitions_index_change land_late
  compensate_add env round [] partitions engines = engines
  compensate_add env round (idx ∷ indexes) partitions engines =
      let change = remove_index idx.name in
      let notified = notify_partitions_index_change env round change partitions engines in
      land_late env round change partitions notified.1
        (compensate_add env (round + 1) indexes partitions notified.0)

  unfoldable pub add_to :
      Env
      → SpaceMeta
      → Cluster Engine
      → Outcome (List Index × IndexChange)
      → Cluster Engine × Outcome SpaceMeta
  unfolding notify_partitions_index_change settle compensate_add land_late to_store
  add_to env space cluster (failed e) = (cluster, failed e)
  add_to env space cluster panic = (cluster, panic)
  add_to env space cluster out_of_fuel = (cluster, out_of_fuel)
  add_to env space cluster (done (new_indexes, change)) =
      let notified = notify_partitions_index_change env 0 change space.partitions cluster.engines in
      let space' = to_store (record space { indexes = space.indexes ++ new_indexes }) in
      settle cluster space' notified.0
        (λ engines.
          land_late env 0 change space.partitions notified.1
            (compensate_add env 1 new_indexes space.partitions engines))
        (notified.1 >> env.put space')

  unfoldable pub add_loaded :
      Env
      → List (Option Index)
      → Cluster Engine
      → Result SpaceMeta
      → Cluster Engine × Outcome SpaceMeta
  unfolding add_to
  add_loaded env entries cluster (err e) = (cluster, failed e)
  add_loaded env entries cluster (ok space) =
      add_to env space cluster (prepare_add env space entries)

  unfoldable pub add_indexes :
      Env → String → List (Option Index) → Cluster Engine → Cluster Engine × Outcome SpaceMeta
  unfolding add_loaded
  add_indexes env db_name entries cluster = add_loaded env entries cluster (
      fail_if (length entries == 0) ErrorEnum.param_error
      >> load_locked_space env db_name cluster.stored)
