-- ===== src/Cluster/Manager/Heartbeats.antt =====
-- A heartbeat keeps the invariant.
use save.Prelude.{ℕ, ◌≤◌, ◌≡◌, Bytes, Option, some, true, leb, ◌&&◌, arith, Bool-cases, inl, inr}
use save.Replication.{Coordinator, Nodes, find, insert}
use save.Replication.Membership
use save.Cluster.State.{
  Instant, NodeHealth, NodeState, is_available, check_quorum, mark_unreachable, total_node_count,
  available_node_count,
}
use save.Cluster.Manager.{
  ClusterManager, ClusterManagerConfig, HealthCheck, beat, mark_checked, refresh, answered, failed,
  timed_out, is_failed,
}
use save.Cluster.Manager.Invariant.{
  WellFormed, sound, all_sound, all_sound-insert, sound-find, counts-insert, mark_checked-sound,
}
use save.Cluster.Manager.Adding.{NodesSound, nodes_sound}

refresh-WellFormed :
    (now : Instant) (id : ℕ) (old new : NodeHealth) (m : ClusterManager)
    → all_sound m.state.nodes ≡ true
    → 2 ≤ m.config.failure_threshold
    → WellFormed (refresh now id old new m).0
unfolding WellFormed refresh check_quorum total_node_count available_node_count
refresh-WellFormed now id old new m s t = (λ h. h, s, t)

failed_again :
    (now : Instant) (config : ClusterManagerConfig) (old : NodeState)
    → leb config.failure_threshold (mark_unreachable now old).consecutive_failures ≡ true
    → 2 ≤ config.failure_threshold
    → sound old ≡ true
    → is_available old.health ≡ is_available (mark_unreachable now old).health
unfolding mark_unreachable is_available
failed_again now config old l t was = ground arith

-- The node had failed before, since it takes two failures or more to get here: so it was unreachable
-- already, and the quorum is what it was.
reconnect-WellFormed :
    (now : Instant) (id : ℕ) (result : HealthCheck) (old : NodeState) (c : Coordinator)
    (m : ClusterManager)
    → WellFormed m
    → find id m.state.nodes ≡ some old
    → (is_failed result
        && leb m.config.failure_threshold
            (mark_checked m.config now result old).consecutive_failures)
      ≡ true
    → WellFormed (record m {
      coordinator = c;
      state = record m.state {
        nodes = insert id (mark_checked m.config now result old) m.state.nodes;
      };
    })
unfolding WellFormed check_quorum total_node_count available_node_count mark_unreachable
    mark_checked
reconnect-WellFormed now id (answered b ms) old c m w f l = absurd (ground (arith, l))
reconnect-WellFormed now id timed_out old c m w f l = absurd (ground (arith, l))
reconnect-WellFormed now id failed old c m (q, s, t) f l =
    let was : sound old ≡ true = sound-find id old m.state.nodes s f in
    let (size, available) =
      counts-insert id old (mark_unreachable now old) m.state.nodes f
        (failed_again now m.config old l t was) in
    (
      rw (size, available) q,
      all_sound-insert id (mark_unreachable now old) m.state.nodes s
          (mark_checked-sound m.config now failed old),
      t,
    )

module _ {E : Type 0} (nodes : Nodes E) (latency : ℕ → Option ℕ) where
  pub beat-WellFormed :
      (now : Instant) (id : ℕ) (addr : Bytes) (result : HealthCheck) (old : NodeState)
      (m : ClusterManager)
      → WellFormed m
      → find id m.state.nodes ≡ some old
      → WellFormed (beat nodes latency now id addr result old m).0
  unfolding beat
  beat-WellFormed now id addr result old m w f =
      let node = mark_checked m.config now result old in
      let sound_there : all_sound m.state.nodes ≡ true = unfold NodesSound in (nodes_sound m w).0 in
      let threshold : 2 ≤ m.config.failure_threshold = unfold NodesSound in (nodes_sound m w).1 in
      elim (Bool-cases
        (is_failed result && leb m.config.failure_threshold node.consecutive_failures)) [
          | inl e ↦
              rw (beat, e)
                (reconnect-WellFormed now id result old
                  (Membership.add_node nodes id addr m.coordinator).1 m w f e)
          | inr e ↦
              rw (beat, e)
                (refresh-WellFormed now id old.health node.health
                  (record m { state = record m.state { nodes = insert id node m.state.nodes } })
                  (all_sound-insert id node m.state.nodes sound_there
                    (mark_checked-sound m.config now result old))
                  threshold)
        ]

  -- Also where `has_quorum` may be out of date.
  pub beat-NodesSound :
      (now : Instant) (id : ℕ) (addr : Bytes) (result : HealthCheck) (old : NodeState)
      (m : ClusterManager)
      → NodesSound m
      → NodesSound (beat nodes latency now id addr result old m).0
  unfolding beat NodesSound refresh
  beat-NodesSound now id addr result old m (s, t) =
      let node = mark_checked m.config now result old in
      let kept =
        all_sound-insert id node m.state.nodes s (mark_checked-sound m.config now result old) in
      elim (Bool-cases
        (is_failed result && leb m.config.failure_threshold node.consecutive_failures)) [
          | inl e ↦ rw e (kept, t)
          | inr e ↦ rw e (kept, t)
        ]
