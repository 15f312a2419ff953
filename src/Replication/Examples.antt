-- ===== src/Replication/Examples.antt =====
-- The theorems on replication at a coordinator of three clients.
use save.Prelude.{
  ℕ, Bytes, bytes, List, [], ◌∷◌, Option, none, some, true, false, ◌≡◌, ◌↔◌, ◌≤◌, ◌<◌, ◌*◌, ◌-◌,
  ◌&&◌, ◌==◌, refl, arith, any, not, if◌then◌else◌, ltb, leb, length,
}
use save.Prelude.Result.{Result, ok, err}
use save.Replication.{
  Coordinator, Nodes, ReplicationResult, with_replication_factor, local_delete, keys,
  process_prepare_results, replicate_write, select_replica_nodes, select_loop, prepare_all,
  commit_all, process_loop, complete_2pc_write, after_local_write, find, insert, remove,
}
use save.Replication.Quorum.{write_quorum_majority, write_quorums_intersect}
use save.Replication.TwoPhase.{is_commit, is_abort, is_local_write, ok_nodes}
use save.Replication.Guarantees.{
  answers, outcome, sent, prepared_count, commit_requires_quorum, quorum_achieved_iff,
  refused_without_quorum,
}
use save.Replication.Membership.{sync_nodes, add_new, add_node, remove_missing, remove_node}
use save.Replication.Membership.Sync.{listed, sync_nodes_lem}
use save.Replication.Deletion.{
  replicate_delete, delete_messages, deleted_on, failed_on, replicate_delete_lem,
}
use save.Replication.Reads.{read_from_replica, readable, get_elem?, read_from_replica_lem}

abbrev done : Result ℕ (Unit {0})
done = ok tt

-- Node 4 is down; node 3 can be asked but refuses. An error is a number.
abbrev peers : Nodes ℕ
peers = record {
  is_healthy = λ n. not (n == 4);
  prepare = λ n key body checksum id. if_up n (bytes "tmp");
  commit = λ n key temp_id id. if_up n tt;
  delete = λ n key id. if_up n tt;
  read = λ n key. if n == 2 then ok (bytes "meow") else err 500;
  connect = λ n addr. ok tt;
}
  where
    if_up : {A : Type 0} → ℕ → A → Option (Result ℕ A)
    if_up n a = if n == 4 then none else some (if n == 3 then err 500 else ok a)

abbrev three : Coordinator
three = record {
  local_node_id = 1;
  config = with_replication_factor 3;
  clients = (4, bytes "d") ∷ (2, bytes "b") ∷ (3, bytes "c") ∷ [];
  request_counter = 9;
}

abbrev cat : Bytes
cat = bytes "cat"

abbrev body : Bytes
body = bytes "meow"

abbrev sum : Bytes
sum = bytes "sum"

write_quorum_majority_example :
    (5 < 2 * (with_replication_factor 5).write_quorum)
    × ((with_replication_factor 5).write_quorum ≤ 5)
write_quorum_majority_example = write_quorum_majority 5 (omega arith)

write_quorums_intersect_example : any (λ x. ltb x 3 && ltb 1 x) (1 ∷ 2 ∷ 3 ∷ []) ≡ true
unfolding with_replication_factor
write_quorums_intersect_example =
    write_quorums_intersect (λ x. ltb x 3) (λ x. ltb 1 x) (1 ∷ 2 ∷ 3 ∷ []) 3 (omega arith)
      (omega arith) (omega arith)

commits : any is_commit (sent peers three (ok tt) cat (some body) sum) ≡ true
unfolding replicate_write select_replica_nodes select_loop prepare_all commit_all
    process_prepare_results process_loop complete_2pc_write after_local_write find insert
    with_replication_factor
commits = refl

commit_requires_quorum_example :
    (three.config.write_quorum ≤ prepared_count peers three (ok tt) cat (some body) sum)
    × (done ≡ ok tt)
    × (any is_local_write (sent peers three (ok tt) cat (some body) sum) ≡ true)
    × (any is_abort (sent peers three (ok tt) cat (some body) sum) ≡ false)
commit_requires_quorum_example =
    commit_requires_quorum peers three (ok tt) cat (some body) sum commits

quorum_achieved_iff_example :
    ((res : ReplicationResult ℕ) × (outcome peers three (ok tt) cat (some body) sum ≡ ok res)
      × (res.quorum_achieved ≡ true))
    ↔ ((three.config.write_quorum ≤ prepared_count peers three (ok tt) cat (some body) sum)
        × (done ≡ ok tt))
quorum_achieved_iff_example = quorum_achieved_iff peers three (ok tt) cat (some body) sum

-- No client: a write quorum of two is out of reach.
abbrev alone : Coordinator
alone = record three { clients = [] }

too_few : prepared_count peers alone (ok tt) cat (some body) sum < alone.config.write_quorum
unfolding select_replica_nodes select_loop prepare_all with_replication_factor
too_few = omega arith

refused_without_quorum_example :
    (any is_local_write (sent peers alone (ok tt) cat (some body) sum) ≡ false)
    × (any is_commit (sent peers alone (ok tt) cat (some body) sum) ≡ false)
    × (res : ReplicationResult ℕ) × (outcome peers alone (ok tt) cat (some body) sum ≡ ok res)
    × (res.quorum_achieved ≡ false)
    × (res.successful_nodes
        ≡ alone.local_node_id ∷ ok_nodes (answers peers alone (ok tt) cat (some body) sum))
refused_without_quorum_example =
    refused_without_quorum peers alone (ok tt) cat (some body) sum too_few

-- The third call succeeds.
abbrev flaky : ℕ → Result ℕ ℕ
flaky n = if ltb n 2 then err n else ok 7

abbrev wanted : List (ℕ × Bytes)
wanted = (1, bytes "a") ∷ (2, bytes "b") ∷ (5, bytes "e") ∷ []

abbrev synced : Coordinator
synced = record three { clients = (2, bytes "b") ∷ (5, bytes "e") ∷ [] }

syncs : sync_nodes peers wanted three ≡ (ok tt, synced)
unfolding sync_nodes add_new add_node remove_missing remove_node insert remove
syncs = refl

sync_nodes_lem_example :
    listed 5 (keys synced.clients) ≡ (listed 5 (keys wanted) && not (5 == three.local_node_id))
sync_nodes_lem_example = sync_nodes_lem peers 5 wanted three synced refl syncs

replicate_delete_lem_example :
    ((e : ℕ)
      → ((replicate_delete peers cat (err e) three).1 ≡ err e)
        × ((replicate_delete peers cat (err e) three).2 ≡ local_delete cat ∷ []))
    × (res : ReplicationResult ℕ) × ((replicate_delete peers cat (ok tt) three).1 ≡ ok res)
    × ((replicate_delete peers cat (ok tt) three).2
        ≡ local_delete cat ∷ delete_messages cat three.request_counter three.clients)
    × (res.successful_nodes
        ≡ three.local_node_id ∷ deleted_on peers cat three.request_counter three.clients)
    × (res.failed_nodes ≡ failed_on peers cat three.request_counter three.clients)
    × (res.success_count ≡ length res.successful_nodes)
    × (res.quorum_achieved ≡ leb three.config.write_quorum (length res.successful_nodes))
replicate_delete_lem_example = replicate_delete_lem peers cat three

read_from_replica_lem_example :
    read_from_replica peers cat three
    ≡ get_elem? (readable peers cat three.clients) (three.config.read_quorum - 1)
read_from_replica_lem_example = read_from_replica_lem peers cat three
