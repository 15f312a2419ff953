-- ===== src/Replication/Reads.antt =====
-- `read_from_replica`: clients in the order of the map, the unhealthy ones skipped.
use save.Prelude.{
  ℕ, zero, suc, ◌+◌, ◌-◌, ◌≡◌, refl, arith, Bytes, List, [], ◌∷◌, Option, none, some, leb,
  if◌then◌else◌,
}
use save.Prelude.Result.{ok, err}
use save.Replication.{Coordinator, Nodes}

unfoldable pub get_elem? {ℓ} : {A : Type ℓ} → List A → ℕ → Option A
get_elem? [] n = none
get_elem? (x ∷ xs) zero = some x
get_elem? (x ∷ xs) (suc n) = get_elem? xs n

module _ {E : Type 0} (nodes : Nodes E) where
  -- The loop over the clients, with its counter of successful reads.
  unfoldable pub read_loop : ℕ → Bytes → ℕ → List (ℕ × Bytes) → Option Bytes
  read_loop required key attempts [] = none
  read_loop required key attempts ((node_id, addr) ∷ clients) =
      let skipped = read_loop required key attempts clients in
      let counted = read_loop required key (attempts + 1) clients in
      if nodes.is_healthy node_id
      then elim (nodes.read node_id key) [
        | ok reader ↦ if leb required (attempts + 1) then some reader else counted
        | err e ↦ skipped
      ]
      else skipped

  unfoldable pub read_from_replica : Bytes → Coordinator → Option Bytes
  unfolding read_loop
  read_from_replica key c = read_loop c.config.read_quorum key 0 c.clients

  -- What the healthy clients give that can be read from.
  abbrev pub readable : Bytes → List (ℕ × Bytes) → List Bytes
  readable key [] = []
  readable key ((n, a) ∷ clients) =
      if nodes.is_healthy n
      then elim (nodes.read n key) [
        | ok reader ↦ reader ∷ readable key clients
        | err e ↦ readable key clients
      ]
      else readable key clients

  read_loop_lem :
      (required : ℕ) (key : Bytes) (more attempts : ℕ) (clients : List (ℕ × Bytes))
      → more ≡ required - (attempts + 1)
      → read_loop required key attempts clients ≡ get_elem? (readable key clients) more
  unfolding read_loop get_elem?
  read_loop_lem required key more attempts [] h = refl
  read_loop_lem required key zero attempts ((n, a) ∷ clients) h =
      ground (arith, read_loop_lem required key zero attempts clients)
  read_loop_lem required key (suc more) attempts ((n, a) ∷ clients) h = ground (
    arith,
    read_loop_lem required key (suc more) attempts clients,
    read_loop_lem required key more (attempts + 1) clients,
  )

  -- The read succeeds with the answer that completes the read quorum: the first of the readable
  -- answers where the quorum is 1, and none if fewer clients than the quorum can be read from.
  pub read_from_replica_lem :
      (key : Bytes) (c : Coordinator)
      → read_from_replica key c ≡ get_elem? (readable key c.clients) (c.config.read_quorum - 1)
  unfolding read_from_replica
  read_from_replica_lem key c =
      read_loop_lem c.config.read_quorum key (c.config.read_quorum - 1) 0 c.clients (omega arith)
