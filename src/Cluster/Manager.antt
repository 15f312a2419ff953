-- ===== src/Cluster/Manager.antt =====
-- crates/save-storage/src/cluster/manager.rs. Each operation gives the manager afterwards and the
-- events that it sends, in order. The lock on the state is given up between the nodes that a
-- heartbeat checks, so a heartbeat is one step for each node, and other operations run in between.
pub mod Invariant
pub mod Adding
pub mod Heartbeats
pub mod Writes
pub mod Sequences
pub mod Removal
use save.Prelude.{
  ℕ, ◌+◌, ◌-◌, ◌/◌, Bytes, List, [], ◌∷◌, ◌++◌, Option, none, some, Bool, true, false, not, ◌==◌,
  ltb, leb, ◌&&◌, if◌then◌else◌, length,
}
use save.Prelude.Result.{Result, ok, err}
use save.Replication
use save.Replication.{Coordinator, Nodes, find, insert, remove}
use save.Replication.Membership
use save.Cluster.State.{
  Instant, NodeHealth, PartitionStatus, NodeState, ClusterState, degraded, new_node, mark_healthy,
  mark_degraded, mark_unreachable, same_health, same_status, is_available, nodes_that, check_quorum,
  detect_partition, total_node_count, available_node_count, healthy_nodes, unreachable_nodes,
  should_accept_writes,
}

-- The fields that the operations read; the others are durations given to timers.
pub record ClusterManagerConfig : Type 0 where
  pub failure_threshold : ℕ
  pub degraded_latency_threshold_ms : ℕ

pub record ClusterTopology : Type 0 where
  pub local_node_id : ℕ
  pub total_nodes : ℕ
  pub healthy_nodes : ℕ
  pub degraded_nodes : ℕ
  pub unreachable_nodes : ℕ
  pub has_quorum : Bool
  pub partition_status : PartitionStatus
  pub leader_id : Option ℕ

pub data ClusterEvent : Type 0 where
  node_health_changed : ℕ → NodeHealth → ClusterEvent
  leader_changed : Option ℕ → ClusterEvent
  quorum_changed : Bool → ClusterEvent
  partition_changed : PartitionStatus → ClusterEvent
  node_added node_removed : ℕ → ClusterEvent

pub record ClusterManager : Type 0 where
  pub local_node_id : ℕ
  pub coordinator : Coordinator
  pub state : ClusterState
  pub config : ClusterManagerConfig

pub data ManagerError (E : Type 0) : Type 0 where
  cannot_add_self : ManagerError E
  storage : E → ManagerError E

-- `tokio::time::timeout(.., coordinator.health_check(node_id))`: what the node answered and after
-- how many milliseconds, that it is no client, or that the time was up.
pub data HealthCheck : Type 0 where
  answered : Bool → ℕ → HealthCheck
  failed timed_out : HealthCheck

abbrev pub quorum_event : Bool → Bool → List ClusterEvent
quorum_event old_quorum new_quorum =
    if same old_quorum new_quorum then [] else quorum_changed new_quorum ∷ []
  where
    same : Bool → Bool → Bool
    same true b = b
    same false b = not b

unfoldable pub remove_node : Instant → ℕ → ClusterManager → ClusterManager × List ClusterEvent
unfolding Membership.remove_node check_quorum detect_partition remove
remove_node now node_id m =
    let state = record m.state { nodes = remove node_id m.state.nodes } in
    let has_quorum = check_quorum state in
    (
      record m {
        coordinator = Membership.remove_node node_id m.coordinator;
        state = record state {
          has_quorum = has_quorum;
          partition_status = detect_partition state;
          last_updated = now;
        };
      },
      node_removed node_id ∷ quorum_event m.state.has_quorum has_quorum,
    )

-- A subtraction on ℕ stops at 0; here both counts are at least 1 where it is reached.
unfoldable pub can_remove_node : ℕ → ClusterManager → Bool
unfolding find is_available total_node_count available_node_count
can_remove_node node_id m = elim (find node_id m.state.nodes) [
  | none ↦ true
  | some node ↦
      if not (is_available node.health)
      then true
      else let total_after = total_node_count m.state - 1 in
        let available_after = available_node_count m.state - 1 + 1 in
        ltb (total_after / 2) available_after
]

unfoldable pub topology : ClusterManager → ClusterTopology
unfolding total_node_count healthy_nodes unreachable_nodes
topology m = record {
  local_node_id = m.state.local_node_id;
  total_nodes = total_node_count m.state;
  healthy_nodes = length (healthy_nodes m.state) + 1;
  degraded_nodes = length (nodes_that (λ h. same_health h degraded) m.state.nodes);
  unreachable_nodes = length (unreachable_nodes m.state);
  has_quorum = m.state.has_quorum;
  partition_status = m.state.partition_status;
  leader_id = m.state.leader_id;
}

abbrev pub same_leader : Option ℕ → Option ℕ → Bool
same_leader none none = true
same_leader none (some j) = false
same_leader (some k) none = false
same_leader (some k) (some j) = k == j

unfoldable pub update_leader :
    Instant → Option ℕ → ClusterManager → ClusterManager × List ClusterEvent
update_leader now leader_id m = if same_leader m.state.leader_id leader_id then (m, []) else (
  record m { state = record m.state { leader_id = leader_id; last_updated = now } },
  leader_changed leader_id ∷ [],
)

unfoldable pub can_write : ClusterManager → Bool
unfolding should_accept_writes
can_write m = should_accept_writes m.state

-- `check_node_health`, by the result of the health check.
abbrev pub latency_of : HealthCheck → Option ℕ
latency_of (answered is_healthy ms) = if is_healthy then some ms else none
latency_of failed = none
latency_of timed_out = none

abbrev pub mark_by_latency : ClusterManagerConfig → Instant → ℕ → NodeState → NodeState
mark_by_latency config now ms n =
    if ltb config.degraded_latency_threshold_ms ms
    then mark_degraded now ms n
    else mark_healthy now ms n

-- The state of a node that is being added, after its initial health check.
unfoldable pub first_check : ClusterManagerConfig → Instant → ℕ → Bytes → Option ℕ → NodeState
unfolding mark_healthy mark_degraded mark_unreachable new_node
first_check config now node_id address none = mark_unreachable now (new_node node_id address)
first_check config now node_id address (some ms) =
    mark_by_latency config now ms (new_node node_id address)

-- The node of a heartbeat after its health check.
unfoldable pub mark_checked : ClusterManagerConfig → Instant → HealthCheck → NodeState → NodeState
unfolding mark_healthy mark_degraded mark_unreachable
mark_checked config now (answered is_healthy ms) node =
    if is_healthy then mark_by_latency config now ms node else mark_degraded now ms node
mark_checked config now failed node = mark_unreachable now node
mark_checked config now timed_out node = mark_unreachable now node

abbrev pub is_failed : HealthCheck → Bool
is_failed failed = true
is_failed _ = false

-- The end of the loop's body: quorum and partition status anew, and the events.
unfoldable pub refresh :
    Instant → ℕ → NodeHealth → NodeHealth → ClusterManager → ClusterManager × List ClusterEvent
unfolding check_quorum detect_partition
refresh now node_id old_health new_health m =
    let has_quorum = check_quorum m.state in
    let partition_status = detect_partition m.state in
    (
      record m {
        state = record m.state {
          has_quorum = has_quorum;
          partition_status = partition_status;
          last_updated = now;
        };
      },
      (if same_health old_health new_health
            then []
            else node_health_changed node_id new_health ∷ [])
          ++ quorum_event m.state.has_quorum has_quorum
          ++ (if same_status m.state.partition_status partition_status
              then []
              else partition_changed partition_status ∷ []),
    )

-- The end of `discover_peers`, after its loop.
unfoldable pub end_discovery : Instant → ClusterManager → ClusterManager × List ClusterEvent
unfolding check_quorum
end_discovery now m =
    let has_quorum = check_quorum m.state in
    (
      record m { state = record m.state { has_quorum = has_quorum; last_updated = now } },
      quorum_event m.state.has_quorum has_quorum,
    )

-- A peer that could not be added is kept as unknown.
unfoldable pub put_down : ℕ → Bytes → ClusterManager → ClusterManager
unfolding new_node insert
put_down node_id address m = record m {
  state = record m.state { nodes = insert node_id (new_node node_id address) m.state.nodes };
}

-- `latency` tells how long a node takes to answer a health check, in milliseconds, or that it does
-- not answer in time.
module _ {E : Type 0} (nodes : Nodes E) (latency : ℕ → Option ℕ) where
  unfoldable pub health_check : ℕ → Coordinator → HealthCheck
  unfolding Membership.health_check
  health_check node_id c = elim (latency node_id) [
    | none ↦ timed_out
    | some ms ↦ elim (Membership.health_check nodes node_id c) [
      | none ↦ failed
      | some is_healthy ↦ answered is_healthy ms
    ]
  ]

  unfoldable pub check_node_health : ℕ → Coordinator → Option ℕ
  unfolding health_check
  check_node_health node_id c = latency_of (health_check node_id c)

  -- What `add_node` does once the coordinator has its client.
  unfoldable pub add_connected :
      Instant → ℕ → Bytes → ClusterManager → ClusterManager × List ClusterEvent
  unfolding check_node_health first_check check_quorum insert
  add_connected now node_id address m =
      let node =
        first_check m.config now node_id address (check_node_health node_id m.coordinator) in
      let state = record m.state { nodes = insert node_id node m.state.nodes } in
      let has_quorum = check_quorum state in
      (
        record m { state = record state { has_quorum = has_quorum; last_updated = now } },
        node_added node_id
            ∷ node_health_changed node_id node.health
            ∷ quorum_event m.state.has_quorum has_quorum,
      )

  unfoldable pub add_node :
      Instant
      → ℕ
      → Bytes
      → ClusterManager
      → Result (ManagerError E) (Unit {0}) × ClusterManager × List ClusterEvent
  unfolding add_connected Membership.add_node
  add_node now node_id address m =
      if node_id == m.local_node_id
      then (err cannot_add_self, m, [])
      else let (r, c) = Membership.add_node nodes node_id address m.coordinator in
        let m' = record m { coordinator = c } in
        elim r [
          | ok u ↦ let (m'', events) = add_connected now node_id address m' in (ok tt, m'', events)
          | err e ↦ (err (storage e), m', [])
        ]

  -- What the loop of `discover_peers` does with the result of `add_node`.
  unfoldable pub peer_added :
      ℕ
      → Bytes
      → Result (ManagerError E) (Unit {0}) × ClusterManager × List ClusterEvent
      → ClusterManager × List ClusterEvent
  unfolding put_down
  peer_added node_id address (ok u, m, events) = (m, events)
  peer_added node_id address (err e, m, events) = (put_down node_id address m, events)

  unfoldable pub connect_peer :
      Instant → ℕ → Bytes → ClusterManager → ClusterManager × List ClusterEvent
  unfolding add_node peer_added
  connect_peer now node_id address m =
      if node_id == m.local_node_id
      then (m, [])
      else peer_added node_id address (add_node now node_id address m)

  unfoldable pub connect_peers :
      Instant → List (ℕ × Bytes) → ClusterManager → ClusterManager × List ClusterEvent
  unfolding connect_peer
  connect_peers now [] m = (m, [])
  connect_peers now ((node_id, address) ∷ peers) m =
      let (m', events) = connect_peer now node_id address m in
      let (m'', more) = connect_peers now peers m' in (m'', events ++ more)

  -- `discover_peers`, given the peers that its strings stand for; without any it does nothing. The
  -- lock on the state is given up between the peers: Writes has the parts as steps of their own.
  unfoldable pub discover_peers :
      Instant → List (ℕ × Bytes) → ClusterManager → ClusterManager × List ClusterEvent
  unfolding connect_peers end_discovery
  discover_peers now [] m = (m, [])
  discover_peers now (peer ∷ peers) m =
      let (m', events) = connect_peers now (peer ∷ peers) m in
      let (m'', more) = end_discovery now m' in (m'', events ++ more)

  -- The body of `heartbeat_loop` for a node that is known, by the result of its health check: after
  -- enough failed checks the node is connected to anew, and the rest of the body is skipped.
  unfoldable pub beat :
      Instant
      → ℕ
      → Bytes
      → HealthCheck
      → NodeState
      → ClusterManager
      → ClusterManager × List ClusterEvent
  unfolding mark_checked refresh insert Membership.add_node
  beat now node_id address result old m =
      let node = mark_checked m.config now result old in
      let m' = record m { state = record m.state { nodes = insert node_id node m.state.nodes } } in
      let reconnected = record m' {
        coordinator = (Membership.add_node nodes node_id address m.coordinator).1;
      } in
      if is_failed result && leb m.config.failure_threshold node.consecutive_failures
      then (reconnected, [])
      else refresh now node_id old.health node.health m'

  -- The body of `heartbeat_loop` for one node; a node removed in the meantime is passed over.
  unfoldable pub heartbeat :
      Instant → ℕ → Bytes → ClusterManager → ClusterManager × List ClusterEvent
  unfolding health_check find beat
  heartbeat now node_id address m =
      let result = health_check node_id m.coordinator in
      elim (find node_id m.state.nodes) [
        | none ↦ (m, [])
        | some old ↦ beat now node_id address result old m
      ]
