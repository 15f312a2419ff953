-- ===== src/Cluster/State/Quorum.antt =====
-- `check_quorum` and `detect_partition`.
use save.Prelude.{
  ℕ, ◌+◌, ◌*◌, ◌<◌, ◌≡◌, ◌↔◌, List, [], ◌∷◌, true, not, refl, arith, length, if◌then◌else◌,
}
use save.Cluster.State.{
  NodeState, ClusterState, is_available, nodes_that, check_quorum, detect_partition,
  total_node_count, available_node_count, connected, minority,
}

available-unavailable :
    (m : List (ℕ × NodeState))
    → length (nodes_that is_available m) + length (nodes_that (λ h. not (is_available h)) m)
      ≡ length m
available-unavailable [] = refl
available-unavailable ((k, n) ∷ m) = ground (arith, available-unavailable m)

-- There is a quorum exactly if the available nodes, the local one included, are more than half of
-- all known nodes.
pub check_quorum_iff :
    (s : ClusterState)
    → (check_quorum s ≡ true) ↔ (total_node_count s < 2 * (available_node_count s + 1))
unfolding check_quorum
check_quorum_iff s = (λ h. ground arith, λ h. ground arith)

-- Of the four statuses only two are ever found: the node is in a minority exactly if it has no
-- quorum, and connected otherwise.
pub detect_partition_lem :
    (s : ClusterState) → detect_partition s ≡ (if check_quorum s then connected else minority)
unfolding detect_partition total_node_count check_quorum available_node_count
detect_partition_lem s = ground (arith, available-unavailable s.nodes)
