-- ===== src/Space/Model.antt =====
-- The data of internal/entity/partition.go and internal/entity/space.go. Fields that the modelled
-- code neither reads nor writes are left out.
use vearch.Prelude.{ℕ, String, List, Option}

-- type PartitionStatus uint8
pub data PartitionStatus : Type 0 where
  pa_unknow pa_invalid pa_closed pa_readonly pa_readwrite : PartitionStatus

pub record Partition : Type 0 where
  pub id : ℕ  -- uint32
  pub name : String
  pub space_id : ℕ  -- int64
  pub db_id : ℕ  -- int64
  pub slot : ℕ  -- uint32, the lower limit of the slot range
  pub leader_id : ℕ  -- uint64
  pub replicas : List ℕ  -- uint64
  pub status : PartitionStatus

pub record Range : Type 0 where
  pub name : String
  pub value : String

pub record PartitionRule : Type 0 where
  pub type : String
  pub field : String
  pub partitions : ℕ
  pub ranges : List Range

-- vearchpb.FieldType
pub data FieldType : Type 0 where
  int long float double string vector bool date string_array : FieldType

pub record Space : Type 0 where
  pub partitions : List Partition
  pub partition_num : ℕ
  pub replica_num : ℕ  -- uint8
  pub partition_rule : Option PartitionRule
