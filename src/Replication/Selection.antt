-- ===== src/Replication/Selection.antt =====
-- `select_replica_nodes`.
use save.Prelude.{
  ℕ, zero, suc, ◌+◌, ◌-◌, Bytes, List, [], ◌∷◌, ◌++◌, ◌≡◌, arith, filter, take, length,
  length-append,
}
use mathlib.Core.List.{append_assoc, append-nil}
use save.Replication.{Nodes, Coordinator, select_loop, select_replica_nodes, keys}

module _ {E : Type 0} (nodes : Nodes E) where
  select_loop_lem :
      (room : ℕ) (clients : List (ℕ × Bytes)) (chosen : List ℕ) (needed : ℕ)
      → needed ≡ length chosen + room
      → select_loop nodes needed clients chosen
        ≡ chosen ++ take room (filter nodes.is_healthy (keys clients))
  unfolding select_loop
  select_loop_lem zero [] chosen needed h = rw append-nil
  select_loop_lem (suc room) [] chosen needed h = rw append-nil
  select_loop_lem zero ((n, a) ∷ clients) chosen needed h = ground (arith, append-nil chosen)
  select_loop_lem (suc room) ((n, a) ∷ clients) chosen needed h = ground (
    arith,
    append_assoc chosen (n ∷ []) (take room (filter nodes.is_healthy (keys clients))),
    length-append chosen (n ∷ []),
    select_loop_lem room clients (chosen ++ n ∷ []) needed,
    select_loop_lem (suc room) clients chosen needed,
  )

  -- Chosen are the first healthy clients, in the order of the map, one fewer than asked for since
  -- the local node counts as one.
  pub select_replica_nodes_lem :
      (c : Coordinator) (count : ℕ)
      → select_replica_nodes nodes c count
        ≡ take (count - 1) (filter nodes.is_healthy (keys c.clients))
  unfolding select_replica_nodes
  select_replica_nodes_lem c zero = ground arith
  select_replica_nodes_lem c (suc zero) = ground arith
  select_replica_nodes_lem c (suc (suc n)) =
      ground (arith, select_loop_lem (suc n) c.clients [] (suc n))
