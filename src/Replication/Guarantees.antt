-- ===== src/Replication/Guarantees.antt =====
-- The guarantees of `replicate_write` as a whole: selection, prepare phase, local write, second
-- phase. `r` is what the local write gives if it is run.
use save.Prelude.{
  Option, ℕ, ◌+◌, ◌≤◌, ◌<◌, Bytes, List, ◌∷◌, Bool, true, false, ◌≡◌, ◌↔◌, refl, arith, length, any,
  ltb, any-append, Bool-cases, inl, inr, ◌⊎◌, ◌∙◌,
}
use save.Prelude.Result.{Result, ok, err, Result-cases}
use save.Replication.{
  Coordinator, Nodes, Message, PreparePhaseResult, ReplicationResult, process_prepare_results,
  prepare_all, complete_2pc_write, replicate_write, select_replica_nodes, replication_result,
}
use save.Replication.TwoPhase.{
  is_local_write, is_commit, is_abort, ok_nodes, process_prepare_results_lem, commit_all-only,
  abort_all-only, prepare_all-only,
}

module _ {E : Type 0} (nodes : Nodes E) (c : Coordinator) (r : Result E (Unit {0})) where
  -- The three ways in which the second phase can go.
  data Outcome (p : PreparePhaseResult E) (result : Result E (ReplicationResult E))
      (sent : List Message) : Type 0 where
    refused :
        p.success_count < c.config.write_quorum
        → result ≡ ok (replication_result p false)
        → any is_commit sent ≡ false
        → any is_local_write sent ≡ false
        → Outcome p result sent
    not_written :
        (e : E)
        → c.config.write_quorum ≤ p.success_count
        → r ≡ err e
        → result ≡ err e
        → any is_commit sent ≡ false
        → any is_local_write sent ≡ true
        → Outcome p result sent
    written :
        c.config.write_quorum ≤ p.success_count
        → r ≡ ok tt
        → result ≡ ok (replication_result p true)
        → any is_abort sent ≡ false
        → any is_local_write sent ≡ true
        → Outcome p result sent

  complete-Outcome :
      (p : PreparePhaseResult E)
      → Outcome p (complete_2pc_write nodes c p r).0 (complete_2pc_write nodes c p r).1
  unfolding complete_2pc_write
  complete-Outcome p = elim (Bool-cases (ltb p.success_count c.config.write_quorum)) [
    | inl few ↦
        let aborts =
          abort_all-only nodes c p.prepared.key p.prepared.request_id p.prepared.temp_ids in
        refused (ground arith) (rw few) (rw few aborts.0) (rw few aborts.1)
    | inr enough ↦ elim (Result-cases r) [
      | inl (u, e) ↦
          written (ground arith) e (rw (enough, e))
            (rw (enough, e)
              (commit_all-only nodes c p.prepared.key p.prepared.request_id p.prepared.temp_ids).0)
            (rw enough)
      | inr (x, e) ↦
          not_written x (ground arith) e (rw (enough, e))
            (rw (enough, e)
              (abort_all-only nodes c p.prepared.key p.prepared.request_id p.prepared.temp_ids).0)
            (rw enough)
    ]
  ]

  module _ (key : Bytes) (body : Option Bytes) (checksum : Bytes) where
    -- What the selected nodes answered to the prepare phase of this write.
    abbrev pub answers : List (ℕ × Result E Bytes)
    answers =
        (prepare_all nodes c (select_replica_nodes nodes c c.config.replication_factor) key body
          checksum c.request_counter).0

    abbrev pub outcome : Result E (ReplicationResult E)
    outcome = (replicate_write nodes c key body checksum r).1

    abbrev pub sent : List Message
    sent = (replicate_write nodes c key body checksum r).2

    -- The nodes known to have the object prepared, the local one included.
    abbrev pub prepared_count : ℕ
    prepared_count = 1 + length (ok_nodes answers)

    phase_one : PreparePhaseResult E
    phase_one = process_prepare_results c key checksum c.request_counter answers

    phase_one-count : phase_one.success_count ≡ prepared_count
    unfolding phase_one
    phase_one-count = (process_prepare_results_lem c key checksum c.request_counter answers).0

    sent_test :
        (test : Message → Bool)
        → any test
            (prepare_all nodes c
              (select_replica_nodes nodes c c.config.replication_factor)
              key
              body
              checksum
              c.request_counter).1
          ≡ false
        → any test sent ≡ any test (complete_2pc_write nodes c phase_one r).1
    unfolding replicate_write phase_one
    sent_test test none_there = ground (
      arith,
      any-append test
          (prepare_all nodes c (select_replica_nodes nodes c c.config.replication_factor) key body
            checksum c.request_counter).1
          (complete_2pc_write nodes c phase_one r).1,
    )

    replicate-Outcome : Outcome phase_one outcome (complete_2pc_write nodes c phase_one r).1
    unfolding replicate_write phase_one
    replicate-Outcome = complete-Outcome phase_one

    only_prepares :
        (any is_commit sent ≡ any is_commit (complete_2pc_write nodes c phase_one r).1)
        × (any is_abort sent ≡ any is_abort (complete_2pc_write nodes c phase_one r).1)
        × (any is_local_write sent ≡ any is_local_write (complete_2pc_write nodes c phase_one r).1)
    only_prepares =
        let (nc, no_abort, no_write) =
          prepare_all-only nodes c key c.request_counter body checksum
            (select_replica_nodes nodes c c.config.replication_factor) in
        (sent_test is_commit nc, sent_test is_abort no_abort, sent_test is_local_write no_write)

    -- A commit message goes out only if a write quorum of nodes has the object prepared and the
    -- local write has succeeded; then no abort message goes out.
    pub commit_requires_quorum :
        any is_commit sent ≡ true
        → (c.config.write_quorum ≤ prepared_count)
          × (r ≡ ok tt)
          × (any is_local_write sent ≡ true)
          × (any is_abort sent ≡ false)
    commit_requires_quorum h = go replicate-Outcome
      where
        go :
            Outcome phase_one outcome (complete_2pc_write nodes c phase_one r).1
            → (c.config.write_quorum ≤ prepared_count)
              × (r ≡ ok tt)
              × (any is_local_write sent ≡ true)
              × (any is_abort sent ≡ false)
        go (refused few e nc nw) = absurd (ground (arith, only_prepares))
        go (not_written x enough f e nc w) = absurd (ground (arith, only_prepares))
        go (written enough f e na w) = ground (arith, only_prepares, phase_one-count)

    -- The write is reported as having reached its quorum exactly if a write quorum of nodes has
    -- the object prepared and the local write has succeeded.
    pub quorum_achieved_iff :
        ((res : ReplicationResult E) × (outcome ≡ ok res) × (res.quorum_achieved ≡ true))
        ↔ ((c.config.write_quorum ≤ prepared_count) × (r ≡ ok tt))
    quorum_achieved_iff = (to, from)
      where
        go_to :
            Outcome phase_one outcome (complete_2pc_write nodes c phase_one r).1
            → (res : ReplicationResult E) → outcome ≡ ok res
            → res.quorum_achieved ≡ true
            → (c.config.write_quorum ≤ prepared_count) × (r ≡ ok tt)
        go_to (refused few e nc nw) res f t = absurd (ground arith)
        go_to (not_written x enough g e nc w) res f t = absurd (ground arith)
        go_to (written enough g e na w) res f t = ground (arith, phase_one-count)

        to :
            ((res : ReplicationResult E) × (outcome ≡ ok res) × (res.quorum_achieved ≡ true))
            → (c.config.write_quorum ≤ prepared_count) × (r ≡ ok tt)
        to (res, f, t) = go_to replicate-Outcome res f t

        go_from :
            Outcome phase_one outcome (complete_2pc_write nodes c phase_one r).1
            → c.config.write_quorum ≤ prepared_count
            → r ≡ ok tt
            → (res : ReplicationResult E) × (outcome ≡ ok res) × (res.quorum_achieved ≡ true)
        go_from (refused few e nc nw) q g = absurd (omega (arith, phase_one-count))
        go_from (not_written x enough f e nc w) q g = absurd (ground arith)
        go_from (written enough f e na w) q g = (replication_result phase_one true, e, refl)

        from :
            ((c.config.write_quorum ≤ prepared_count) × (r ≡ ok tt))
            → (res : ReplicationResult E) × (outcome ≡ ok res) × (res.quorum_achieved ≡ true)
        from (q, g) = go_from replicate-Outcome q g

    -- Without a write quorum of prepared nodes nothing is written locally and nothing committed,
    -- and the result says that the quorum was missed, and which nodes prepared.
    pub refused_without_quorum :
        prepared_count < c.config.write_quorum
        → (any is_local_write sent ≡ false)
          × (any is_commit sent ≡ false)
          × (res : ReplicationResult E) × (outcome ≡ ok res)
          × (res.quorum_achieved ≡ false)
          × (res.successful_nodes ≡ c.local_node_id ∷ ok_nodes answers)
    refused_without_quorum few = go replicate-Outcome
      where
        go :
            Outcome phase_one outcome (complete_2pc_write nodes c phase_one r).1
            → (any is_local_write sent ≡ false)
              × (any is_commit sent ≡ false)
              × (res : ReplicationResult E) × (outcome ≡ ok res)
              × (res.quorum_achieved ≡ false)
              × (res.successful_nodes ≡ c.local_node_id ∷ ok_nodes answers)
        go (refused f e nc nw) = (
          ground (arith, only_prepares),
          ground (arith, only_prepares),
          replication_result phase_one false,
          e,
          refl,
          unfold phase_one in
              (process_prepare_results_lem c key checksum c.request_counter answers).1,
        )
        go (not_written x enough g e nc w) = absurd (omega (arith, phase_one-count))
        go (written enough g e na w) = absurd (omega (arith, phase_one-count))

    -- The ways in which `replicate_write` can end: too few nodes have prepared and nothing is written
    -- locally, the local write was run and failed, or it was run and succeeded.
    abbrev pub Ending : Type 0
    Ending =
        ((prepared_count < c.config.write_quorum)
          × (any is_local_write sent ≡ false)
          × (res : ReplicationResult E) × (outcome ≡ ok res)
          × (res.quorum_achieved ≡ false))
        ⊎ (((any is_local_write sent ≡ true) × (e : E) × (r ≡ err e) × (outcome ≡ err e))
            ⊎ ((c.config.write_quorum ≤ prepared_count)
                × (any is_local_write sent ≡ true)
                × (r ≡ ok tt)
                × (res : ReplicationResult E) × (outcome ≡ ok res)
                × (res.quorum_achieved ≡ true)))

    ending : Outcome phase_one outcome (complete_2pc_write nodes c phase_one r).1 → Ending
    ending (refused few e nc nw) = inl (
      omega (arith, phase_one-count),
      only_prepares.2 ∙ nw,
      replication_result phase_one false,
      e,
      refl,
    )
    ending (not_written x enough g e nc w) = inr (inl (only_prepares.2 ∙ w, x, g, e))
    ending (written enough f e na w) = inr (
        inr (
          omega (arith, phase_one-count),
          only_prepares.2 ∙ w,
          f,
          replication_result phase_one true,
          e,
          refl,
        ))

    pub replicate_write-Ending : Ending
    replicate_write-Ending = ending replicate-Outcome
