-- ===== src/Router.antt =====
-- The router's side of a request, internal/client/client.go: documents are split over partitions,
-- requests go to a replica of each, and the answers are merged.
pub mod Split
pub mod Merge
pub mod Replica
