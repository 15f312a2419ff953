-- ===== src/Replication/Membership/Sync.antt =====
-- What `sync_nodes` achieves: the clients afterwards.
use save.Prelude.{
  ℕ, Bytes, List, [], ◌∷◌, Bool, true, false, not, ◌≡◌, refl, arith, ◌==◌, ◌&&◌, ◌||◌, any,
}
use save.Prelude.Result.{ok}
use save.Replication.{Coordinator, Nodes, insert, remove, keys}
use save.Replication.Membership.{remove_node, remove_missing, add_node, add_new, sync_nodes}

-- Whether a node is listed.
abbrev pub listed : ℕ → List ℕ → Bool
listed n ids = any (λ k. k == n) ids

module _ {ℓ} {V : Type ℓ} where
  listed-remove :
      (n j : ℕ) (m : List (ℕ × V))
      → listed n (keys (remove j m)) ≡ (listed n (keys m) && not (j == n))
  unfolding remove
  listed-remove n j [] = refl
  listed-remove n j ((k, v) ∷ m) = ground (arith, listed-remove n j m)

  listed-insert :
      (n j : ℕ) (v : V) (m : List (ℕ × V))
      → listed n (keys (insert j v m)) ≡ (listed n (keys m) || (j == n))
  unfolding insert
  listed-insert n j v [] = ground arith
  listed-insert n j v ((k, w) ∷ m) = ground (arith, listed-insert n j v m)

listed-same : (j n : ℕ) (ids : List ℕ) → (j == n) ≡ true → listed j ids ≡ listed n ids
listed-same j n ids e = let same : j ≡ n = ground arith in rw same refl

remove_missing_lem :
    (n : ℕ) (wanted current : List ℕ) (c : Coordinator)
    → (listed n (keys (remove_missing wanted current c).clients)
        ≡ (listed n (keys c.clients) && not (listed n current && not (listed n wanted))))
      × ((remove_missing wanted current c).local_node_id ≡ c.local_node_id)
unfolding remove_missing remove_node
remove_missing_lem n wanted [] c = (ground arith, refl)
remove_missing_lem n wanted (j ∷ current) c = ground (
  arith,
  remove_missing_lem n wanted current c,
  remove_missing_lem n wanted current (remove_node j c),
  listed-remove n j c.clients,
  listed-same j n wanted,
)

module _ {E : Type 0} (nodes : Nodes E) (n : ℕ) where
  add_new_lem :
      (current : List ℕ) (wanted : List (ℕ × Bytes)) (c c' : Coordinator)
      → add_new nodes current wanted c ≡ (ok tt, c')
      → listed n (keys c'.clients) ≡ (
          listed n (keys c.clients)
          || (listed n (keys wanted) && (not (listed n current) && not (n == c.local_node_id))))
  unfolding add_new add_node
  add_new_lem current [] c c' h = ground arith
  add_new_lem current ((j, a) ∷ wanted) c c' h = ground (
    arith,
    add_new_lem current wanted c c',
    add_new_lem current wanted (record c { clients = insert j a c.clients }) c',
    listed-insert n j a c.clients,
    listed-same j n current,
  )

  -- If `sync_nodes` succeeds the clients are exactly the nodes it was given without the local one,
  -- as long as the local node was no client before.
  pub sync_nodes_lem :
      (wanted : List (ℕ × Bytes)) (c c' : Coordinator)
      → listed c.local_node_id (keys c.clients) ≡ false
      → sync_nodes nodes wanted c ≡ (ok tt, c')
      → listed n (keys c'.clients) ≡ (listed n (keys wanted) && not (n == c.local_node_id))
  unfolding sync_nodes
  sync_nodes_lem wanted c c' h e =
      let current = keys c.clients in
      ground (
        arith,
        remove_missing_lem n (keys wanted) current c,
        add_new_lem current wanted (remove_missing (keys wanted) current c) c' e,
        listed-same n c.local_node_id current,
      )
