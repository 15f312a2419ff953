-- ===== src/Replication/Deletion.antt =====
-- `replicate_delete`: first the local deletion, then one on every client at best effort.
use save.Prelude.{
  ℕ, ◌+◌, Bytes, List, [], ◌∷◌, ◌++◌, Option, none, some, leb, length, ◌≡◌, refl, arith,
  length-append, ◌∙◌, ap,
}
use mathlib.Core.List.{append_assoc, append-nil}
use save.Prelude.Result.{Result, ok, err}
use save.Replication.{
  Coordinator, Nodes, Message, ReplicationResult, local_delete, delete, count_request,
}

-- The mutable variables of the loop over the tasks.
pub record Deletions (E : Type 0) : Type 0 where
  pub success_count : ℕ
  pub successful_nodes : List ℕ
  pub failed_nodes : List (ℕ × E)

module _ {E : Type 0} where
  -- The body of the loop; a task that did not end normally is passed over.
  unfoldable delete_step : Deletions E → ℕ → Option (Result E (Unit {0})) → Deletions E
  delete_step acc node_id none = acc
  delete_step acc node_id (some (ok u)) = record acc {
    success_count = acc.success_count + 1;
    successful_nodes = acc.successful_nodes ++ node_id ∷ [];
  }
  delete_step acc node_id (some (err e)) = record acc {
    failed_nodes = acc.failed_nodes ++ (node_id, e) ∷ [];
  }

-- The requests sent to the clients.
abbrev pub delete_messages : Bytes → ℕ → List (ℕ × Bytes) → List Message
delete_messages key request_id [] = []
delete_messages key request_id ((node_id, addr) ∷ clients) =
    delete node_id key request_id ∷ delete_messages key request_id clients

module _ {E : Type 0} (nodes : Nodes E) where
  -- The loop over the tasks.
  unfoldable pub delete_loop : Bytes → ℕ → List (ℕ × Bytes) → Deletions E → Deletions E
  unfolding delete_step
  delete_loop key request_id [] acc = acc
  delete_loop key request_id ((node_id, addr) ∷ clients) acc =
      delete_loop key request_id clients
        (delete_step acc node_id (nodes.delete node_id key request_id))

  -- The result of `replicate_delete` from what the loop collected.
  abbrev pub deletion_result : Coordinator → Deletions E → ReplicationResult E
  deletion_result c d = record {
    success_count = d.success_count;
    failure_count = length d.failed_nodes;
    quorum_achieved = leb c.config.write_quorum d.success_count;
    successful_nodes = d.successful_nodes;
    failed_nodes = d.failed_nodes;
  }

  -- The second argument is what the local deletion gives.
  unfoldable pub replicate_delete :
      Bytes
      → Result E (Unit {0})
      → Coordinator
      → Coordinator × Result E (ReplicationResult E) × List Message
  unfolding delete_loop
  replicate_delete key (err e) c = (count_request c, err e, local_delete key ∷ [])
  replicate_delete key (ok u) c =
      let d = delete_loop key c.request_counter c.clients (record {
        success_count = 1;
        successful_nodes = c.local_node_id ∷ [];
        failed_nodes = [];
      }) in
      (
        count_request c,
        ok (deletion_result c d),
        local_delete key ∷ delete_messages key c.request_counter c.clients,
      )

  -- The node if it deleted the object, and the node with its error if it answered with one.
  abbrev if_deleted : ℕ → Option (Result E (Unit {0})) → List ℕ
  if_deleted n none = []
  if_deleted n (some (ok u)) = n ∷ []
  if_deleted n (some (err e)) = []

  abbrev if_failed : ℕ → Option (Result E (Unit {0})) → List (ℕ × E)
  if_failed n none = []
  if_failed n (some (ok u)) = []
  if_failed n (some (err e)) = (n, e) ∷ []

  delete_step_lem :
      (acc : Deletions E) (n : ℕ) (answer : Option (Result E (Unit {0})))
      → ((delete_step acc n answer).success_count
          ≡ acc.success_count + length (if_deleted n answer))
        × ((delete_step acc n answer).successful_nodes
            ≡ acc.successful_nodes ++ if_deleted n answer)
        × ((delete_step acc n answer).failed_nodes ≡ acc.failed_nodes ++ if_failed n answer)
  unfolding delete_step
  delete_step_lem acc n none = (omega arith, rw append-nil, rw append-nil)
  delete_step_lem acc n (some (ok u)) = (refl, refl, rw append-nil)
  delete_step_lem acc n (some (err e)) = (omega arith, rw append-nil, refl)

  module _ (key : Bytes) (request_id : ℕ) where
    -- The clients that deleted the object, and those that answered with an error.
    abbrev pub deleted_on : List (ℕ × Bytes) → List ℕ
    deleted_on [] = []
    deleted_on ((n, a) ∷ clients) =
        if_deleted n (nodes.delete n key request_id) ++ deleted_on clients

    abbrev pub failed_on : List (ℕ × Bytes) → List (ℕ × E)
    failed_on [] = []
    failed_on ((n, a) ∷ clients) = if_failed n (nodes.delete n key request_id) ++ failed_on clients

    delete_loop_lem :
        (clients : List (ℕ × Bytes)) (acc : Deletions E)
        → ((delete_loop key request_id clients acc).success_count
            ≡ acc.success_count + length (deleted_on clients))
          × ((delete_loop key request_id clients acc).successful_nodes
              ≡ acc.successful_nodes ++ deleted_on clients)
          × ((delete_loop key request_id clients acc).failed_nodes
              ≡ acc.failed_nodes ++ failed_on clients)
    unfolding delete_loop
    delete_loop_lem [] acc = (omega arith, rw append-nil, rw append-nil)
    delete_loop_lem ((n, a) ∷ clients) acc =
        let answer = nodes.delete n key request_id in
        let (count, succeeded, failed) = delete_loop_lem clients (delete_step acc n answer) in
        let (count', succeeded', failed') = delete_step_lem acc n answer in
        (
          omega (arith, count, count', length-append (if_deleted n answer) (deleted_on clients)),
          succeeded
              ∙ ap (λ l. l ++ deleted_on clients) succeeded'
              ∙ append_assoc acc.successful_nodes (if_deleted n answer) _,
          failed
              ∙ ap (λ l. l ++ failed_on clients) failed'
              ∙ append_assoc acc.failed_nodes (if_failed n answer) _,
        )

  -- If the local deletion fails its error is the result, and no other node is asked. Otherwise every
  -- client is asked once; the result lists the local node and each client that deleted the object,
  -- counts these, and says that the quorum is reached exactly if they are at least a write quorum.
  pub replicate_delete_lem :
      (key : Bytes) (c : Coordinator)
      → ((e : E)
          → ((replicate_delete key (err e) c).1 ≡ err e)
            × ((replicate_delete key (err e) c).2 ≡ local_delete key ∷ []))
        × (res : ReplicationResult E) × ((replicate_delete key (ok tt) c).1 ≡ ok res)
        × ((replicate_delete key (ok tt) c).2
            ≡ local_delete key ∷ delete_messages key c.request_counter c.clients)
        × (res.successful_nodes ≡ c.local_node_id ∷ deleted_on key c.request_counter c.clients)
        × (res.failed_nodes ≡ failed_on key c.request_counter c.clients)
        × (res.success_count ≡ length res.successful_nodes)
        × (res.quorum_achieved ≡ leb c.config.write_quorum (length res.successful_nodes))
  unfolding replicate_delete
  replicate_delete_lem key c =
      let start : Deletions E = record {
        success_count = 1;
        successful_nodes = c.local_node_id ∷ [];
        failed_nodes = [];
      } in
      let (count, succeeded, failed) = delete_loop_lem key c.request_counter c.clients start in
      let counted : (delete_loop key c.request_counter c.clients start).success_count
          ≡ length (delete_loop key c.request_counter c.clients start).successful_nodes =
        omega (arith, count, ap length succeeded) in
      (
        λ e. (refl, refl),
        deletion_result c (delete_loop key c.request_counter c.clients start),
        refl,
        refl,
        succeeded,
        failed,
        counted,
        ap (leb c.config.write_quorum) counted,
      )
