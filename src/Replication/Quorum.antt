-- ===== src/Replication/Quorum.antt =====
-- `QuorumConfig::with_replication_factor`: majorities.
use save.Prelude.{
  ℕ, ◌+◌, ◌*◌, ◌≤◌, ◌<◌, ◌≡◌, Bool, true, false, ◌&&◌, List, [], ◌∷◌, length, any, arith,
  if◌then◌else◌,
}
use save.Replication.{with_replication_factor}

-- How many of the nodes satisfy a test.
abbrev pub count : (ℕ → Bool) → List ℕ → ℕ
count p [] = 0
count p (x ∷ xs) = (if p x then 1 else 0) + count p xs

count-both :
    (p q : ℕ → Bool) (xs : List ℕ)
    → any (λ x. p x && q x) xs ≡ false
    → count p xs + count q xs ≤ length xs
count-both p q [] h = omega arith
count-both p q (x ∷ xs) h = ground (arith, count-both p q xs)

-- The write quorum for n replicas is a majority of them, and no more than there are.
pub write_quorum_majority :
    (n : ℕ)
    → 0 < n
    → (n < 2 * (with_replication_factor n).write_quorum)
      × ((with_replication_factor n).write_quorum ≤ n)
unfolding with_replication_factor
write_quorum_majority n h = omega arith

-- Any two sets of nodes that are both write quorums share a node, whatever the nodes are, as long as
-- they are no more than the replication factor.
pub write_quorums_intersect :
    (p q : ℕ → Bool) (nodes : List ℕ) (n : ℕ)
    → length nodes ≤ n
    → (with_replication_factor n).write_quorum ≤ count p nodes
    → (with_replication_factor n).write_quorum ≤ count q nodes
    → any (λ x. p x && q x) nodes ≡ true
unfolding with_replication_factor
write_quorums_intersect p q nodes n few hp hq = ground (arith, count-both p q nodes)
