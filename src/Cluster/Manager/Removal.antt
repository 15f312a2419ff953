-- ===== src/Cluster/Manager/Removal.antt =====
-- `can_remove_node` foretells what `remove_node` does to the quorum.
use save.Prelude.{
  ℕ, ◌+◌, ◌≡◌, List, [], ◌∷◌, none, some, Bool, true, false, not, ◌==◌, ◌&&◌, refl, arith, length,
  any, if◌then◌else◌, Option-cases, inl, inr,
}
use save.Replication.{find, remove}
use save.Cluster.State.{
  Instant, NodeState, is_available, nodes_that, check_quorum, total_node_count,
  available_node_count,
}
use save.Cluster.Manager.{ClusterManager, can_remove_node, remove_node}

abbrev known : ℕ → List (ℕ × NodeState) → Bool
known k m = any (λ e. e.0 == k) m

-- The keys of a map are distinct.
abbrev pub distinct : List (ℕ × NodeState) → Bool
distinct [] = true
distinct ((k, n) ∷ m) = not (known k m) && distinct m

remove-unknown : (k : ℕ) (m : List (ℕ × NodeState)) → known k m ≡ false → remove k m ≡ m
unfolding remove
remove-unknown k [] h = refl
remove-unknown k ((j, n) ∷ m) h = ground (arith, remove-unknown k m)

find-unknown : (k : ℕ) (m : List (ℕ × NodeState)) → find k m ≡ none → known k m ≡ false
unfolding find
find-unknown k [] h = refl
find-unknown k ((j, n) ∷ m) h = ground (arith, find-unknown k m)

known-same : (j k : ℕ) (m : List (ℕ × NodeState)) → (j == k) ≡ true → known j m ≡ known k m
known-same j k m e = let same : j ≡ k = ground arith in rw same refl

-- How the counts change when a node is removed.
counts-remove :
    (k : ℕ) (n : NodeState) (m : List (ℕ × NodeState))
    → distinct m ≡ true
    → find k m ≡ some n
    → (length (remove k m) + 1 ≡ length m)
      × (length (nodes_that is_available (remove k m)) + (if is_available n.health then 1 else 0)
          ≡ length (nodes_that is_available m))
unfolding find remove
counts-remove k n [] d f = absurd (ground arith)
counts-remove k n ((j, o) ∷ m) d f =
    ground (arith, counts-remove k n m, remove-unknown k m, known-same j k m)

-- For an available node `can_remove_node` is exactly whether there is a quorum once it is removed.
pub can_remove_node_lem :
    (now : Instant) (k : ℕ) (n : NodeState) (m : ClusterManager)
    → distinct m.state.nodes ≡ true
    → find k m.state.nodes ≡ some n
    → is_available n.health ≡ true
    → can_remove_node k m ≡ (remove_node now k m).0.state.has_quorum
unfolding can_remove_node remove_node check_quorum total_node_count available_node_count
can_remove_node_lem now k n m d f a = ground (arith, counts-remove k n m.state.nodes d f)

-- Whatever the node, a quorum outlasts its removal if `can_remove_node` allows it.
pub can_remove_node_keeps_quorum :
    (now : Instant) (k : ℕ) (m : ClusterManager)
    → distinct m.state.nodes ≡ true
    → can_remove_node k m ≡ true
    → check_quorum m.state ≡ true
    → (remove_node now k m).0.state.has_quorum ≡ true
unfolding can_remove_node remove_node check_quorum total_node_count available_node_count
can_remove_node_keeps_quorum now k m d c q = elim (Option-cases (find k m.state.nodes)) [
  | inl f ↦ rw (remove-unknown k m.state.nodes (find-unknown k m.state.nodes f)) q
  | inr (n, f) ↦ ground (arith, counts-remove k n m.state.nodes d f)
]
