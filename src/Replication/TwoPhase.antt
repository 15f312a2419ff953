-- ===== src/Replication/TwoPhase.antt =====
-- What the two phases of a replicated write guarantee.
use save.Prelude.{
  Option, ℕ, ◌+◌, Bytes, List, [], ◌∷◌, ◌++◌, Bool, true, false, ◌≡◌, refl, arith, length, any, ap,
  ◌∙◌,
}
use mathlib.Core.List.{append_assoc, append-nil}
use save.Prelude.Result.{Result, ok, err}
use save.Replication.{
  Coordinator, Nodes, Message, PreparePhaseResult, prepare, local_write, commit, abort,
  process_loop, prepared_ok, prepared_err, process_prepare_results, prepare_all, commit_all,
  abort_all,
}

abbrev pub is_prepare : Message → Bool
is_prepare (prepare n k b s q) = true
is_prepare _ = false

abbrev pub is_local_write : Message → Bool
is_local_write (local_write k) = true
is_local_write _ = false

abbrev pub is_commit : Message → Bool
is_commit (commit n k t q) = true
is_commit _ = false

abbrev pub is_abort : Message → Bool
is_abort (abort n k t q) = true
is_abort _ = false

module _ {E : Type 0} where
  -- The nodes that prepared the write, and those that failed to.
  abbrev pub ok_nodes : List (ℕ × Result E Bytes) → List ℕ
  ok_nodes [] = []
  ok_nodes ((n, ok t) ∷ rs) = n ∷ ok_nodes rs
  ok_nodes ((n, err e) ∷ rs) = ok_nodes rs

  abbrev pub err_nodes : List (ℕ × Result E Bytes) → List (ℕ × E)
  err_nodes [] = []
  err_nodes ((n, ok t) ∷ rs) = err_nodes rs
  err_nodes ((n, err e) ∷ rs) = (n, e) ∷ err_nodes rs

  process_loop-count :
      (acc : PreparePhaseResult E) (rs : List (ℕ × Result E Bytes))
      → (process_loop acc rs).success_count ≡ acc.success_count + length (ok_nodes rs)
  unfolding process_loop
  process_loop-count acc [] = omega arith
  process_loop-count acc ((n, ok t) ∷ rs) =
      omega (arith, process_loop-count (prepared_ok acc n t) rs)
  process_loop-count acc ((n, err e) ∷ rs) = process_loop-count (prepared_err acc n e) rs

  process_loop-nodes :
      (acc : PreparePhaseResult E) (rs : List (ℕ × Result E Bytes))
      → (process_loop acc rs).successful_nodes ≡ acc.successful_nodes ++ ok_nodes rs
  unfolding process_loop
  process_loop-nodes acc [] = rw append-nil
  process_loop-nodes acc ((n, ok t) ∷ rs) =
      process_loop-nodes (prepared_ok acc n t) rs ∙ append_assoc acc.successful_nodes (n ∷ []) _
  process_loop-nodes acc ((n, err e) ∷ rs) = process_loop-nodes (prepared_err acc n e) rs

  process_loop-failed :
      (acc : PreparePhaseResult E) (rs : List (ℕ × Result E Bytes))
      → (process_loop acc rs).failed_nodes ≡ acc.failed_nodes ++ err_nodes rs
  unfolding process_loop
  process_loop-failed acc [] = rw append-nil
  process_loop-failed acc ((n, ok t) ∷ rs) = process_loop-failed (prepared_ok acc n t) rs
  process_loop-failed acc ((n, err e) ∷ rs) =
      process_loop-failed (prepared_err acc n e) rs ∙ append_assoc acc.failed_nodes ((n, e) ∷ []) _

  length-answers :
      (rs : List (ℕ × Result E Bytes)) → length (ok_nodes rs) + length (err_nodes rs) ≡ length rs
  length-answers [] = omega arith
  length-answers ((n, ok t) ∷ rs) = omega (arith, length-answers rs)
  length-answers ((n, err e) ∷ rs) = omega (arith, length-answers rs)

  -- The prepare phase counts the local node and each node that prepared, lists exactly those in the
  -- order of their answers, and lists every other answer as failed.
  pub process_prepare_results_lem :
      (c : Coordinator) (key checksum : Bytes) (id : ℕ) (rs : List (ℕ × Result E Bytes))
      → let p = process_prepare_results c key checksum id rs in
        (p.success_count ≡ 1 + length (ok_nodes rs))
        × (p.successful_nodes ≡ c.local_node_id ∷ ok_nodes rs)
        × (p.failed_nodes ≡ err_nodes rs)
        × (p.success_count + length p.failed_nodes ≡ 1 + length rs)
  unfolding process_prepare_results
  process_prepare_results_lem c key checksum id rs =
      let start : PreparePhaseResult E = record {
        prepared = record { key = key; checksum = checksum; request_id = id; temp_ids = [] };
        success_count = 1;
        successful_nodes = c.local_node_id ∷ [];
        failed_nodes = [];
      } in
      (
        process_loop-count start rs,
        process_loop-nodes start rs,
        process_loop-failed start rs,
        omega (
          arith,
          process_loop-count start rs,
          ap length (process_loop-failed start rs),
          length-answers rs,
        ),
      )

module _ {E : Type 0} (nodes : Nodes E) (c : Coordinator) (key : Bytes) (id : ℕ) where
  pub commit_all-only :
      (ts : List (ℕ × Bytes))
      → (any is_abort (commit_all nodes c key id ts).1 ≡ false)
        × (any is_local_write (commit_all nodes c key id ts).1 ≡ false)
  unfolding commit_all
  commit_all-only [] = (refl, refl)
  commit_all-only ((n, t) ∷ ts) = ground (arith, commit_all-only ts)

  pub abort_all-only :
      (ts : List (ℕ × Bytes))
      → (any is_commit (abort_all c key id ts) ≡ false)
        × (any is_local_write (abort_all c key id ts) ≡ false)
  unfolding abort_all
  abort_all-only [] = (refl, refl)
  abort_all-only ((n, t) ∷ ts) = ground (arith, abort_all-only ts)

  pub prepare_all-only :
      (body : Option Bytes) (checksum : Bytes) (ids : List ℕ)
      → (any is_commit (prepare_all nodes c ids key body checksum id).1 ≡ false)
        × (any is_abort (prepare_all nodes c ids key body checksum id).1 ≡ false)
        × (any is_local_write (prepare_all nodes c ids key body checksum id).1 ≡ false)
  unfolding prepare_all
  prepare_all-only body checksum [] = (refl, refl, refl)
  prepare_all-only body checksum (n ∷ ids) = ground (arith, prepare_all-only body checksum ids)
