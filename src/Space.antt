-- ===== src/Space.antt =====
-- The space and its partitions: internal/entity/space.go, internal/entity/partition.go and the slot
-- assignment of internal/master/services/space_service.go.
pub mod Model
pub mod Lookup
pub mod Slots
pub mod Ranges
pub mod ByRange
pub mod Placement
pub mod Expand
pub mod Delete
pub mod Rule
