-- ===== src/Raft/Storage/Votes.antt =====
-- The vote that a node stores.
use save.Prelude.{
  bytes, some, true, ◌≡◌, ◌⊎◌, inl, inr, arith, ap, ◌∙◌, sym, Option-cases, Bool-cases, beq_self,
}
use save.Prelude.Result.{ok, err, Result-cases}
use save.Rocksdb.{raft_state}
use save.Rocksdb.SortedMap.{lookup, lookup-insert}
use save.Metadata.{Env, Db}
use save.Metadata.StateMachine.{read_error, rocksdb_error}
use save.Raft.{RaftTypes}
use save.Raft.Storage.{save_vote, read_vote, decode_vote}

module _ ⦃env : Env⦄ ⦃raft : RaftTypes⦄ where
  -- A vote that was saved is read back, unless the read of the database fails.
  pub read_vote-save_vote :
      (vote : raft.Vote) (d d' : Db)
      → save_vote vote d ≡ (ok tt, d')
      → (read_vote d' ≡ (ok (some vote), d'))
        ⊎ ((e : env.rocksdb.Error) × (read_vote d' ≡ (err (read_error (rocksdb_error e)), d')))
  unfolding save_vote read_vote decode_vote
  read_vote-save_vote vote d d' h =
      let k = bytes "vote" in
      elim (Bool-cases (env.rocksdb.has_cf d raft_state)) [
        | inl c ↦ elim (Option-cases (raft.vote_codec.encode vote)) [
          | inl enc ↦ absurd (ground arith)
          | inr (b, enc) ↦
              let d₁ = (env.rocksdb.put d raft_state k b).1 in
              elim (Result-cases (env.rocksdb.put d raft_state k b).0) [
                | inl (t, p) ↦
                    let after : d₁ ≡ d' = ground arith in
                    let there : env.rocksdb.has_cf d' raft_state ≡ true =
                      ap (λ x. env.rocksdb.has_cf x raft_state) (sym after)
                      ∙ ap (λ f. f raft_state) (env.rocksdb.put_has_cf d raft_state k b)
                      ∙ c in
                    let held : lookup k (env.rocksdb.entries d' raft_state) ≡ some b =
                      ap (λ x. lookup k (env.rocksdb.entries x raft_state)) (sym after)
                      ∙ ap (lookup k) (env.rocksdb.put_ok d raft_state k b p)
                      ∙ lookup-insert k k b _
                      ∙ ground (arith, beq_self k) in
                    elim (Result-cases (env.rocksdb.get d' raft_state k)) [
                      | inl (o, g) ↦ inl (
                          ground (
                            arith,
                            env.rocksdb.get_ok d' raft_state k o g,
                            raft.vote_codec.decode-encode vote b enc,
                          ))
                      | inr (x, g) ↦ inr (x, ground arith)
                    ]
                | inr (x, p) ↦ absurd (ground arith)
              ]
        ]
        | inr c ↦ absurd (ground arith)
      ]
