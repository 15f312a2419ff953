-- ===== src/Replication.antt =====
-- crates/save-storage/src/replication/coordinator.rs: writes and deletions replicated over the
-- nodes of a cluster, and health.rs. What the nodes answer is an interface; each operation gives
-- its result together with the messages that it sends, in order. A `HashMap` is an association
-- list in its iteration order.
pub mod Quorum
pub mod Health
pub mod TwoPhase
pub mod Guarantees
pub mod Selection
pub mod Membership
pub mod Retry
pub mod Deletion
pub mod Reads
mod Examples
use save.Prelude.{
  ℕ, ◌+◌, ◌-◌, ◌/◌, ◌%◌, ◌^◌, Bytes, List, [], ◌∷◌, ◌++◌, Option, none, some, Bool, true, false,
  not, ◌==◌, ltb, leb, if◌then◌else◌, length, filter, any,
}
use save.Prelude.Result.{Result, ok, err}

pub record QuorumConfig : Type 0 where
  pub replication_factor : ℕ
  pub write_quorum : ℕ
  pub read_quorum : ℕ

unfoldable pub with_replication_factor : ℕ → QuorumConfig
with_replication_factor n = record {
  replication_factor = n;
  write_quorum = n / 2 + 1;
  read_quorum = 1;
}

pub record ReplicationResult (E : Type 0) : Type 0 where
  pub success_count : ℕ
  pub failure_count : ℕ
  pub quorum_achieved : Bool
  pub successful_nodes : List ℕ
  pub failed_nodes : List (ℕ × E)

pub record PreparedWrite : Type 0 where
  pub key : Bytes
  pub checksum : Bytes
  pub request_id : ℕ
  pub temp_ids : List (ℕ × Bytes)

pub record PreparePhaseResult (E : Type 0) : Type 0 where
  pub prepared : PreparedWrite
  pub success_count : ℕ
  pub successful_nodes : List ℕ
  pub failed_nodes : List (ℕ × E)

-- The clients are nodes with their addresses.
pub record Coordinator : Type 0 where
  pub local_node_id : ℕ
  pub config : QuorumConfig
  pub clients : List (ℕ × Bytes)
  pub request_counter : ℕ

-- `request_counter.fetch_add(1)` on a 64-bit counter: the coordinator afterwards.
abbrev pub count_request : Coordinator → Coordinator
count_request c = record c { request_counter = (c.request_counter + 1) % 2 ^ 64 }

-- The other nodes, seen through `ReplicationClient` and `HealthChecker`. A call made in a task of
-- its own gives `none` if the task does not end normally.
pub record Nodes (E : Type 0) : Type 0 where
  pub is_healthy : ℕ → Bool
  -- `prepare_object` or `stream_prepare_object`: node, key, body, checksum, request. The body is the
  -- data, or what the file at the path has when it is streamed; none if there is no such file.
  pub prepare : ℕ → Bytes → Option Bytes → Bytes → ℕ → Option (Result E Bytes)
  -- `commit_object`: node, key, temporary id, request.
  pub commit : ℕ → Bytes → Bytes → ℕ → Option (Result E (Unit {0}))
  -- `delete_object`: node, key, request.
  pub delete : ℕ → Bytes → ℕ → Option (Result E (Unit {0}))
  -- `read_object_stream`: node, key; the contents of the stream.
  pub read : ℕ → Bytes → Result E Bytes
  -- `client.with_tls(tls)?`, which can fail where TLS is configured.
  pub connect : ℕ → Bytes → Result E (Unit {0})

pub data Message : Type 0 where
  prepare : ℕ → Bytes → Option Bytes → Bytes → ℕ → Message
  local_write : Bytes → Message
  commit abort : ℕ → Bytes → Bytes → ℕ → Message
  local_delete : Bytes → Message
  delete : ℕ → Bytes → ℕ → Message

module _ {ℓ} {V : Type ℓ} where
  -- `HashMap::get`, `insert` and `remove`.
  unfoldable pub find : ℕ → List (ℕ × V) → Option V
  find k [] = none
  find k ((j, v) ∷ m) = if j == k then some v else find k m

  unfoldable pub insert : ℕ → V → List (ℕ × V) → List (ℕ × V)
  insert k v [] = (k, v) ∷ []
  insert k v ((j, w) ∷ m) = if j == k then (k, v) ∷ m else (j, w) ∷ insert k v m

  unfoldable pub remove : ℕ → List (ℕ × V) → List (ℕ × V)
  remove k [] = []
  remove k ((j, w) ∷ m) = let rest = remove k m in if j == k then rest else (j, w) ∷ rest

  abbrev pub keys : List (ℕ × V) → List ℕ
  keys [] = []
  keys ((j, v) ∷ m) = j ∷ keys m

abbrev pub is_some {ℓ} : {A : Type ℓ} → Option A → Bool
is_some none = false
is_some (some a) = true

module _ {E : Type 0} (nodes : Nodes E) where
  -- The loop of `select_replica_nodes`: leave once enough nodes are chosen.
  unfoldable pub select_loop : ℕ → List (ℕ × Bytes) → List ℕ → List ℕ
  select_loop needed [] healthy_nodes = healthy_nodes
  select_loop needed ((node_id, addr) ∷ clients) healthy_nodes =
      let rest =
        select_loop needed clients
          (if nodes.is_healthy node_id then healthy_nodes ++ node_id ∷ [] else healthy_nodes) in
      if leb needed (length healthy_nodes) then healthy_nodes else rest

  -- `-` on ℕ is `saturating_sub`.
  unfoldable pub select_replica_nodes : Coordinator → ℕ → List ℕ
  unfolding select_loop
  select_replica_nodes c count = if count - 1 == 0 then [] else select_loop (count - 1) c.clients []

  -- `prepare_all` and `stream_prepare_all`: the nodes that have a client are asked, and what they
  -- answer is collected in the order of asking, without the tasks that did not end normally.
  unfoldable pub prepare_all :
      Coordinator
      → List ℕ
      → Bytes
      → Option Bytes
      → Bytes
      → ℕ
      → List (ℕ × Result E Bytes) × List Message
  prepare_all c [] key body checksum request_id = ([], [])
  prepare_all c (node_id ∷ ids) key body checksum request_id =
      let (results, sent) = prepare_all c ids key body checksum request_id in
      let message = prepare node_id key body checksum request_id in
      if is_some (find node_id c.clients)
      then elim (nodes.prepare node_id key body checksum request_id) [
        | none ↦ (results, message ∷ sent)
        | some r ↦ ((node_id, r) ∷ results, message ∷ sent)
      ]
      else (results, sent)

  unfoldable pub commit_all :
      Coordinator → Bytes → ℕ → List (ℕ × Bytes) → List (ℕ × Result E (Unit {0})) × List Message
  commit_all c key request_id [] = ([], [])
  commit_all c key request_id ((node_id, temp_id) ∷ temp_ids) =
      let (results, sent) = commit_all c key request_id temp_ids in
      if is_some (find node_id c.clients)
      then elim (nodes.commit node_id key temp_id request_id) [
        | none ↦ (results, commit node_id key temp_id request_id ∷ sent)
        | some r ↦ ((node_id, r) ∷ results, commit node_id key temp_id request_id ∷ sent)
      ]
      else (results, sent)

-- The answers to an abort are only logged.
unfoldable pub abort_all : Coordinator → Bytes → ℕ → List (ℕ × Bytes) → List Message
abort_all c key request_id [] = []
abort_all c key request_id ((node_id, temp_id) ∷ temp_ids) =
    let sent = abort_all c key request_id temp_ids in
    if is_some (find node_id c.clients) then abort node_id key temp_id request_id ∷ sent else sent

module _ {E : Type 0} where
  -- The two branches of the loop of `process_prepare_results`, over its mutable variables.
  abbrev pub prepared_ok : PreparePhaseResult E → ℕ → Bytes → PreparePhaseResult E
  prepared_ok acc node_id temp_id = record acc {
    prepared = record acc.prepared { temp_ids = insert node_id temp_id acc.prepared.temp_ids };
    successful_nodes = acc.successful_nodes ++ node_id ∷ [];
    success_count = acc.success_count + 1;
  }

  abbrev pub prepared_err : PreparePhaseResult E → ℕ → E → PreparePhaseResult E
  prepared_err acc node_id e = record acc { failed_nodes = acc.failed_nodes ++ (node_id, e) ∷ [] }

  unfoldable pub process_loop :
      PreparePhaseResult E → List (ℕ × Result E Bytes) → PreparePhaseResult E
  process_loop acc [] = acc
  process_loop acc ((node_id, ok temp_id) ∷ results) =
      process_loop (prepared_ok acc node_id temp_id) results
  process_loop acc ((node_id, err e) ∷ results) = process_loop (prepared_err acc node_id e) results

  -- The local node always takes part.
  unfoldable pub process_prepare_results :
      Coordinator → Bytes → Bytes → ℕ → List (ℕ × Result E Bytes) → PreparePhaseResult E
  unfolding process_loop
  process_prepare_results c key checksum request_id = process_loop (record {
    prepared = record { key = key; checksum = checksum; request_id = request_id; temp_ids = [] };
    success_count = 1;
    successful_nodes = c.local_node_id ∷ [];
    failed_nodes = [];
  })

  abbrev pub replication_result : PreparePhaseResult E → Bool → ReplicationResult E
  replication_result p achieved = record {
    success_count = p.success_count;
    failure_count = length p.failed_nodes;
    quorum_achieved = achieved;
    successful_nodes = p.successful_nodes;
    failed_nodes = p.failed_nodes;
  }

module _ {E : Type 0} (nodes : Nodes E) where
  -- What is left to do once the local write has ended with `r`.
  unfoldable pub after_local_write :
      Coordinator
      → PreparePhaseResult E
      → Result E (Unit {0})
      → Result E (ReplicationResult E) × List Message
  after_local_write c p (err e) =
      (err e, abort_all c p.prepared.key p.prepared.request_id p.prepared.temp_ids)
  after_local_write c p (ok u) = (
    ok (replication_result p true),
    (commit_all nodes c p.prepared.key p.prepared.request_id p.prepared.temp_ids).1,
  )

  -- `r` is what the local write gives if it is run.
  unfoldable pub complete_2pc_write :
      Coordinator
      → PreparePhaseResult E
      → Result E (Unit {0})
      → Result E (ReplicationResult E) × List Message
  unfolding after_local_write
  complete_2pc_write c p r =
      if ltb p.success_count c.config.write_quorum
      then (
        ok (replication_result p false),
        abort_all c p.prepared.key p.prepared.request_id p.prepared.temp_ids,
      )
      else let (result, sent) = after_local_write c p r in
        (result, local_write p.prepared.key ∷ sent)

  -- `replicate_write` and `replicate_write_streaming`, given the checksum; `body` is the data, or what
  -- the file to be streamed has.
  unfoldable pub replicate_write :
      Coordinator
      → Bytes
      → Option Bytes
      → Bytes
      → Result E (Unit {0})
      → Coordinator × Result E (ReplicationResult E) × List Message
  replicate_write c key body checksum r =
      let ids = select_replica_nodes nodes c c.config.replication_factor in
      let (results, prepares) = prepare_all nodes c ids key body checksum c.request_counter in
      let p = process_prepare_results c key checksum c.request_counter results in
      let (result, sent) = complete_2pc_write c p r in (count_request c, result, prepares ++ sent)
