-- ===== src/Cluster/Manager/Invariant.antt =====
-- What holds of the manager's state between any two steps.
use save.Prelude.{
  ℕ, ◌≤◌, ◌≡◌, List, [], ◌∷◌, some, Bool, true, false, ◌==◌, ◌||◌, arith, length, all,
}
use save.Replication.{find, insert, remove}
use save.Cluster.State.{
  Instant, NodeState, mark_healthy, mark_degraded, mark_unreachable, same_health, is_available,
  nodes_that, check_quorum, unreachable,
}
use save.Cluster.Manager.{
  ClusterManager, ClusterManagerConfig, HealthCheck, mark_checked, answered, failed, timed_out,
  mark_by_latency,
}

-- A node with failed checks is unreachable.
abbrev pub sound : NodeState → Bool
sound n = n.consecutive_failures == 0 || same_health n.health unreachable

abbrev pub all_sound : List (ℕ × NodeState) → Bool
all_sound m = all (λ e. sound e.1) m

-- `has_quorum` is not out of date where it is true, and each node is sound. A heartbeat that
-- reconnects skips the update, which is harmless if it takes two failures or more.
unfoldable pub WellFormed : ClusterManager → Type 0
WellFormed m =
    (m.state.has_quorum ≡ true → check_quorum m.state ≡ true)
    × (all_sound m.state.nodes ≡ true)
    × (2 ≤ m.config.failure_threshold)

pub all_sound-insert :
    (k : ℕ) (n : NodeState) (m : List (ℕ × NodeState))
    → all_sound m ≡ true
    → sound n ≡ true
    → all_sound (insert k n m) ≡ true
unfolding insert
all_sound-insert k n [] h s = ground arith
all_sound-insert k n ((j, o) ∷ m) h s = ground (arith, all_sound-insert k n m)

pub all_sound-remove :
    (k : ℕ) (m : List (ℕ × NodeState)) → all_sound m ≡ true → all_sound (remove k m) ≡ true
unfolding remove
all_sound-remove k [] h = h
all_sound-remove k ((j, o) ∷ m) h = ground (arith, all_sound-remove k m)

pub sound-find :
    (k : ℕ) (n : NodeState) (m : List (ℕ × NodeState))
    → all_sound m ≡ true
    → find k m ≡ some n
    → sound n ≡ true
unfolding find
sound-find k n [] h f = absurd (ground arith)
sound-find k n ((j, o) ∷ m) h f = ground (arith, sound-find k n m)

-- A node whose availability stays the same leaves the counts as they are.
pub counts-insert :
    (k : ℕ) (old n : NodeState) (m : List (ℕ × NodeState))
    → find k m ≡ some old
    → is_available old.health ≡ is_available n.health
    → (length (insert k n m) ≡ length m)
      × (length (nodes_that is_available (insert k n m)) ≡ length (nodes_that is_available m))
unfolding find insert
counts-insert k old n [] f a = absurd (ground arith)
counts-insert k old n ((j, o) ∷ m) f a = ground (arith, counts-insert k old n m)

pub mark_by_latency-sound :
    (config : ClusterManagerConfig) (now ms : ℕ) (n : NodeState)
    → sound (mark_by_latency config now ms n) ≡ true
unfolding mark_healthy mark_degraded
mark_by_latency-sound config now ms n = ground arith

pub mark_checked-sound :
    (config : ClusterManagerConfig) (now : Instant) (result : HealthCheck) (n : NodeState)
    → sound (mark_checked config now result n) ≡ true
unfolding mark_checked mark_degraded mark_unreachable
mark_checked-sound config now (answered true ms) n = mark_by_latency-sound config now ms n
mark_checked-sound config now (answered false ms) n = ground arith
mark_checked-sound config now failed n = ground arith
mark_checked-sound config now timed_out n = ground arith
