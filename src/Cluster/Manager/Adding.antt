-- ===== src/Cluster/Manager/Adding.antt =====
-- The operations that add nodes and the invariant.
use save.Prelude.{ℕ, ◌≤◌, ◌≡◌, Bytes, Option, none, some, true, refl, arith}
use save.Replication.{Nodes}
use save.Cluster.State.{
  Instant, new_node, check_quorum, mark_unreachable, total_node_count, available_node_count,
}
use save.Cluster.Manager.{
  ClusterManager, ClusterManagerConfig, add_connected, first_check, put_down, end_discovery,
}
use save.Cluster.Manager.Invariant.{
  WellFormed, sound, all_sound, all_sound-insert, mark_by_latency-sound,
}

first_check-sound :
    (config : ClusterManagerConfig) (now : Instant) (id : ℕ) (addr : Bytes) (l : Option ℕ)
    → sound (first_check config now id addr l) ≡ true
unfolding first_check mark_unreachable
first_check-sound config now id addr none = ground arith
first_check-sound config now id addr (some ms) =
    mark_by_latency-sound config now ms (new_node id addr)

-- What holds of the nodes also while peers are being connected, when `has_quorum` may be out of date.
unfoldable pub NodesSound : ClusterManager → Type 0
NodesSound m = (all_sound m.state.nodes ≡ true) × (2 ≤ m.config.failure_threshold)

pub nodes_sound : (m : ClusterManager) → WellFormed m → NodesSound m
unfolding WellFormed NodesSound
nodes_sound m (q, s, t) = (s, t)

pub put_down-NodesSound :
    (id : ℕ) (addr : Bytes) (m : ClusterManager) → NodesSound m → NodesSound (put_down id addr m)
unfolding NodesSound new_node put_down
put_down-NodesSound id addr m (s, t) =
    (all_sound-insert id (new_node id addr) m.state.nodes s refl, t)

pub end_discovery-WellFormed :
    (now : Instant) (m : ClusterManager) → NodesSound m → WellFormed (end_discovery now m).0
unfolding WellFormed NodesSound end_discovery check_quorum total_node_count available_node_count
end_discovery-WellFormed now m (s, t) = (λ h. h, s, t)

module _ {E : Type 0} (nodes : Nodes E) (latency : ℕ → Option ℕ) where
  pub add_connected-WellFormed :
      (now : Instant) (id : ℕ) (addr : Bytes) (m : ClusterManager)
      → NodesSound m
      → WellFormed (add_connected nodes latency now id addr m).0
  unfolding WellFormed NodesSound add_connected check_quorum total_node_count available_node_count
  add_connected-WellFormed now id addr m (s, t) =
      (λ h. h, all_sound-insert id _ m.state.nodes s (first_check-sound m.config now id addr _), t)
