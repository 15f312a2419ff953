-- ===== src/Cluster.antt =====
-- crates/save-storage/src/cluster: what a storage node knows of the others, whether they form a
-- quorum, and the manager that keeps this up to date.
pub mod State
pub mod Manager
mod Examples
