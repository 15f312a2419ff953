-- ===== src/Cluster/State.antt =====
-- crates/save-storage/src/cluster/state.rs. An `Instant` is a number of milliseconds and each
-- operation that reads the clock takes the time it reads. A `HashMap` is an association list.
pub mod Quorum
use save.Prelude.{
  ℕ, ◌+◌, ◌-◌, ◌/◌, ◌%◌, ◌^◌, Bytes, List, [], ◌∷◌, Option, none, some, Bool, true, false, not,
  ◌==◌, ltb, ◌&&◌, ◌||◌, if◌then◌else◌, length, filter, any,
}

abbrev pub Instant : Type 0
Instant = ℕ

pub data NodeHealth : Type 0 where
  healthy degraded unreachable unknown : NodeHealth

pub data PartitionStatus : Type 0 where
  connected possible_minority minority unknown : PartitionStatus

unfoldable pub is_available : NodeHealth → Bool
is_available healthy = true
is_available degraded = true
is_available unreachable = false
is_available unknown = false

-- The derived equality.
abbrev pub same_health : NodeHealth → NodeHealth → Bool
same_health healthy healthy = true
same_health degraded degraded = true
same_health unreachable unreachable = true
same_health unknown unknown = true
same_health _ _ = false

abbrev pub same_status : PartitionStatus → PartitionStatus → Bool
same_status connected connected = true
same_status possible_minority possible_minority = true
same_status minority minority = true
same_status unknown unknown = true
same_status _ _ = false

pub record NodeState : Type 0 where
  pub node_id : ℕ
  pub address : Bytes
  pub health : NodeHealth
  pub last_seen : Option Instant
  pub last_check : Option Instant
  pub consecutive_failures : ℕ
  pub latency_ms : Option ℕ

unfoldable pub new_node : ℕ → Bytes → NodeState
new_node node_id address = record {
  node_id = node_id;
  address = address;
  health = unknown;
  last_seen = none;
  last_check = none;
  consecutive_failures = 0;
  latency_ms = none;
}

unfoldable pub mark_healthy : Instant → ℕ → NodeState → NodeState
mark_healthy now latency n = record n {
  health = healthy;
  last_seen = some now;
  last_check = some now;
  consecutive_failures = 0;
  latency_ms = some latency;
}

unfoldable pub mark_degraded : Instant → ℕ → NodeState → NodeState
mark_degraded now latency n = record n {
  health = degraded;
  last_seen = some now;
  last_check = some now;
  consecutive_failures = 0;
  latency_ms = some latency;
}

-- The failures are counted in a `u32`.
unfoldable pub mark_unreachable : Instant → NodeState → NodeState
mark_unreachable now n = record n {
  health = unreachable;
  last_check = some now;
  consecutive_failures = (n.consecutive_failures + 1) % 2 ^ 32;
  latency_ms = none;
}

pub record ClusterState : Type 0 where
  pub local_node_id : ℕ
  pub nodes : List (ℕ × NodeState)
  pub leader_id : Option ℕ
  pub has_quorum : Bool
  pub partition_status : PartitionStatus
  pub last_updated : Instant

unfoldable pub new_state : Instant → ℕ → ClusterState
new_state now local_node_id = record {
  local_node_id = local_node_id;
  nodes = [];
  leader_id = none;
  has_quorum = false;
  partition_status = unknown;
  last_updated = now;
}

-- `nodes.values().filter(|n| test(n.health))`: the ids of these nodes.
abbrev pub nodes_that : (NodeHealth → Bool) → List (ℕ × NodeState) → List ℕ
nodes_that test [] = []
nodes_that test ((k, n) ∷ m) =
    if test n.health then n.node_id ∷ nodes_that test m else nodes_that test m

unfoldable pub available_node_count : ClusterState → ℕ
available_node_count s = length (nodes_that is_available s.nodes)

unfoldable pub total_node_count : ClusterState → ℕ
total_node_count s = length s.nodes + 1

unfoldable pub check_quorum : ClusterState → Bool
unfolding total_node_count available_node_count
check_quorum s = ltb (total_node_count s / 2) (available_node_count s + 1)

unfoldable pub healthy_nodes : ClusterState → List ℕ
healthy_nodes s = nodes_that (λ h. same_health h healthy) s.nodes

unfoldable pub available_nodes : ClusterState → List ℕ
unfolding is_available
available_nodes s = nodes_that is_available s.nodes

unfoldable pub unreachable_nodes : ClusterState → List ℕ
unreachable_nodes s = nodes_that (λ h. same_health h unreachable) s.nodes

unfoldable pub detect_partition : ClusterState → PartitionStatus
unfolding total_node_count check_quorum
detect_partition s =
    if length (nodes_that (λ h. not (is_available h)) s.nodes) == 0
    then connected
    else if check_quorum s
    then connected
    else if ltb 1 (total_node_count s)
    then minority
    else unknown

-- `duration_since` is 0 for a time that lies ahead.
unfoldable pub is_stale : Instant → ℕ → Option Instant → Bool
is_stale now threshold none = false
is_stale now threshold (some t) = ltb threshold (now - t)

unfoldable pub is_possibly_partitioned : Instant → ℕ → ClusterState → Bool
unfolding is_stale
is_possibly_partitioned now stale_threshold s =
    any (λ e. same_health e.1.health unreachable && is_stale now stale_threshold e.1.last_seen)
      s.nodes

unfoldable pub should_accept_writes : ClusterState → Bool
should_accept_writes s = s.has_quorum && not (same_status s.partition_status minority)

unfoldable pub is_leader : ClusterState → Bool
is_leader s = elim s.leader_id [ none ↦ false | some leader ↦ leader == s.local_node_id ]
