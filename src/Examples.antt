-- ===== src/Examples.antt =====
-- Runs of the modelled code on small inputs, and each theorem with hypotheses at such an input.
mod Data
mod Space
mod Router
mod Merge
mod Replica
mod Auth
mod Backup
mod Placement
mod Alias
mod Index
mod Change
mod Update
mod Raft
mod Number
mod Rule
mod Delete
