-- ===== src/Replication/Membership.antt =====
-- The clients that the coordinator keeps: `add_node`, `remove_node`, `sync_nodes`,
-- `connected_nodes` and `health_check`.
pub mod Sync
use save.Prelude.{
  ℕ, ◌+◌, Bytes, List, [], ◌∷◌, ◌++◌, Option, none, some, Bool, true, false, not, ◌==◌, leb, any,
  if◌then◌else◌, length,
}
use save.Prelude.Result.{Result, ok, err, ok_or}
use save.Replication.{
  Coordinator, Nodes, Message, ReplicationResult, local_delete, delete, find, insert, remove, keys,
  is_some, count_request,
}

unfoldable pub connected_nodes : Coordinator → List ℕ
connected_nodes c = keys c.clients

unfoldable pub remove_node : ℕ → Coordinator → Coordinator
unfolding remove
remove_node node_id c = record c { clients = remove node_id c.clients }

-- `for node_id in current_nodes.difference(&new_nodes)`
unfoldable pub remove_missing : List ℕ → List ℕ → Coordinator → Coordinator
unfolding remove_node
remove_missing new_nodes [] c = c
remove_missing new_nodes (j ∷ current) c =
    remove_missing new_nodes current (if any (λ k. k == j) new_nodes then c else remove_node j c)

module _ {E : Type 0} (nodes : Nodes E) where
  unfoldable pub add_node : ℕ → Bytes → Coordinator → Result E (Unit {0}) × Coordinator
  unfolding insert
  add_node node_id addr c =
      if node_id == c.local_node_id then (ok tt, c) else elim (nodes.connect node_id addr) [
        | ok u ↦ (ok tt, record c { clients = insert node_id addr c.clients })
        | err e ↦ (err e, c)
      ]

  -- `for (node_id, addr) in nodes`, given the nodes that were connected at the start.
  unfoldable pub add_new :
      List ℕ → List (ℕ × Bytes) → Coordinator → Result E (Unit {0}) × Coordinator
  unfolding add_node
  add_new current [] c = (ok tt, c)
  add_new current ((node_id, addr) ∷ wanted) c =
      if any (λ k. k == node_id) current
      then add_new current wanted c
      else let (r, c') = add_node node_id addr c in
        let rest = add_new current wanted c' in elim r [ ok u ↦ rest | err e ↦ (err e, c') ]

  unfoldable pub sync_nodes : List (ℕ × Bytes) → Coordinator → Result E (Unit {0}) × Coordinator
  unfolding remove_missing add_new
  sync_nodes wanted c =
      let current = keys c.clients in
      add_new current wanted (remove_missing (keys wanted) current c)

  -- `health_check`: none if the node is not known.
  unfoldable pub health_check : ℕ → Coordinator → Option Bool
  unfolding find
  health_check node_id c =
      if is_some (find node_id c.clients) then some (nodes.is_healthy node_id) else none
