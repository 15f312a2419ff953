-- ===== src/Cluster/Examples.antt =====
-- The theorems on the cluster at concrete states.
use save.Prelude.{
  ℕ, bytes, [], ◌∷◌, Option, none, some, true, false, ◌≡◌, ◌<◌, ◌+◌, ◌*◌, refl, arith,
  if◌then◌else◌,
}
use save.Prelude.Result.{ok, err}
use save.Replication.{Nodes, with_replication_factor, find, insert}
use save.Replication.Membership
use save.Cluster.State.{
  NodeState, ClusterState, new_node, new_state, mark_healthy, mark_unreachable, mark_degraded,
  is_available, check_quorum, detect_partition, total_node_count, available_node_count, connected,
  minority, should_accept_writes,
}
use save.Cluster.State.Quorum.{detect_partition_lem}
use save.Cluster.Manager.{
  ClusterManager, can_remove_node, remove_node, can_write, discover_peers, connect_peers,
  connect_peer, peer_added, add_node, add_connected, first_check, check_node_health, health_check,
  put_down, end_discovery, beat, mark_checked, refresh, timed_out,
}
use save.Cluster.Manager.Writes.{Steps, start, step, beating, can_write_majority}
use save.Cluster.Manager.Sequences.{discover_peers-Reached}
use save.Cluster.Manager.Removal.{can_remove_node_keeps_quorum}

-- Every node answers, in three milliseconds.
abbrev peers : Nodes ℕ
peers = record {
  is_healthy = λ n. true;
  prepare = λ n key body checksum id. none;
  commit = λ n key temp_id id. none;
  delete = λ n key id. none;
  read = λ n key. err 500;
  connect = λ n addr. ok tt;
}

abbrev at_once : ℕ → Option ℕ
at_once n = some 3

abbrev up : NodeState
up = mark_healthy 5 3 (new_node 2 (bytes "b"))

abbrev down : NodeState
down = mark_unreachable 5 (new_node 3 (bytes "c"))

abbrev half : ClusterState
half = record (new_state 5 1) { nodes = (3, down) ∷ []; has_quorum = false }

abbrev most : ClusterState
most = record (new_state 5 1) { nodes = (2, up) ∷ (3, down) ∷ []; has_quorum = true }

detect_partition_lem_example :
    detect_partition half ≡ (if check_quorum half then connected else minority)
detect_partition_lem_example = detect_partition_lem half

abbrev fresh : ClusterManager
fresh = record {
  local_node_id = 1;
  coordinator = record {
    local_node_id = 1;
    config = with_replication_factor 3;
    clients = [];
    request_counter = 1;
  };
  state = new_state 0 1;
  config = record { failure_threshold = 3; degraded_latency_threshold_ms = 500 };
}

abbrev discovered : ClusterManager
discovered = (discover_peers peers at_once 5 ((2, bytes "b") ∷ (3, bytes "c") ∷ []) fresh).0

found_3 : find 3 discovered.state.nodes ≡ some (mark_healthy 5 3 (new_node 3 (bytes "c")))
unfolding discover_peers connect_peers connect_peer peer_added add_node add_connected first_check
    check_node_health health_check Membership.health_check Membership.add_node find insert
    end_discovery new_state new_node mark_healthy mark_degraded
found_3 = refl

-- Node 3 answers when it is discovered, and no more at the next heartbeat.
abbrev lost : ClusterManager
lost =
    (beat peers (λ n. none) 6 3 (bytes "c") timed_out (mark_healthy 5 3 (new_node 3 (bytes "c")))
      discovered).0

lost_3 : Steps ℕ fresh false lost
lost_3 =
    step false false discovered lost
      (discover_peers-Reached peers at_once fresh 5 (2, bytes "b") ((3, bytes "c") ∷ []) fresh
        (false, start))
      (beating peers (λ n. none) 6 3 (bytes "c") timed_out
        (mark_healthy 5 3 (new_node 3 (bytes "c"))) found_3)

writes : can_write lost ≡ true
unfolding can_write should_accept_writes beat mark_checked refresh discover_peers connect_peers
    connect_peer peer_added add_node add_connected first_check check_node_health health_check
    Membership.health_check Membership.add_node find insert end_discovery check_quorum
    detect_partition total_node_count available_node_count is_available new_state new_node
    mark_healthy mark_degraded mark_unreachable
writes = refl

can_write_majority_example : total_node_count lost.state < 2 * (available_node_count lost.state + 1)
can_write_majority_example = can_write_majority fresh lost 0 refl (omega arith) lost_3 writes

-- While a discovery runs that has put down three peers, half of the nodes are available, and writes
-- are accepted.
abbrev waiting : ClusterManager
waiting = put_down 4 (bytes "d") (put_down 5 (bytes "e") (put_down 6 (bytes "f") discovered))

stale_quorum : (can_write waiting ≡ true) × (check_quorum waiting.state ≡ false)
unfolding put_down can_write should_accept_writes discover_peers connect_peers connect_peer
    peer_added add_node add_connected first_check check_node_health health_check
    Membership.health_check Membership.add_node find insert end_discovery check_quorum
    total_node_count available_node_count is_available new_state new_node mark_healthy mark_degraded
stale_quorum = (refl, refl)

abbrev of_three : ClusterManager
of_three = record fresh { state = most }

node_2_is_up : is_available up.health ≡ true
unfolding is_available mark_healthy
node_2_is_up = refl

node_2_found : find 2 of_three.state.nodes ≡ some up
unfolding find
node_2_found = refl

node_3_removable : can_remove_node 3 of_three ≡ true
unfolding can_remove_node find is_available mark_unreachable
node_3_removable = refl

quorum_of_three : check_quorum of_three.state ≡ true
unfolding check_quorum total_node_count available_node_count is_available mark_unreachable
    mark_healthy
quorum_of_three = refl

can_remove_node_keeps_quorum_example : (remove_node 6 3 of_three).0.state.has_quorum ≡ true
can_remove_node_keeps_quorum_example =
    can_remove_node_keeps_quorum 6 3 of_three refl node_3_removable quorum_of_three
