-- ===== src/Raft/Storage/Truncation.antt =====
-- What is left of the log after `delete_conflict_logs_since` and `purge_logs_upto`.
use save.Prelude.{
  ℕ, ◌-◌, ◌^◌, ◌<◌, ◌≡◌, bytes, Option, none, some, leb, ltb, ◌&&◌, if◌then◌else◌, arith, ap, ◌∙◌,
  sym, Bool-cases, inl, inr,
}
use save.Prelude.Result.{ok, Result-cases}
use save.Rocksdb.{raft_state}
use save.Metadata.{Env, Db}
use save.Raft.{RaftTypes}
use save.Raft.Log.{RaftLogId, delete_key, get_log_state, delete_range}
use save.Raft.Log.Laws.{
  entry_at, state_at, write_log_id_lem, delete_range_lem, entry_at-delete_state,
}
use save.Raft.Log.Reading.{decoded, get_log_state_lem}
use save.Raft.Storage.{
  delete_conflict_logs_since, truncate_from, set_last, purge_logs_upto, purge_start,
}

module _ ⦃env : Env⦄ ⦃raft : RaftTypes⦄ where
  set_last-kept :
      (id : RaftLogId) (d d' : Db)
      → set_last id d ≡ (ok tt, d')
      → (i : ℕ) → entry_at i d' ≡ entry_at i d
  unfolding set_last delete_key
  set_last-kept id d d' h i = elim (Bool-cases (ltb 0 id.index)) [
    | inl e ↦
        (write_log_id_lem (bytes "last_log_id")
            (record { leader_id = id.leader_id; index = id.index - 1 }) d d' (rw e at h)).1
          i
    | inr e ↦ elim (Bool-cases (env.rocksdb.has_cf d raft_state)) [
      | inl c ↦
          let after : (env.rocksdb.delete d raft_state (bytes "last_log_id")).1 ≡ d' =
            ground arith in
          ap (entry_at i) (sym after) ∙ entry_at-delete_state i (bytes "last_log_id") d
      | inr c ↦ absurd (ground arith)
    ]
  ]

  -- Where the stored last log id is `last`, a successful truncation from `log_id` on empties the
  -- log from there up to `last` and leaves every other index.
  pub delete_conflict_logs_since_lem :
      (log_id last : RaftLogId) (d d' : Db)
      → log_id.index < 2 ^ 64
      → last.index < 2 ^ 64
      → decoded (state_at (bytes "last_log_id") d) ≡ some last
      → delete_conflict_logs_since log_id d ≡ (ok tt, d')
      → (i : ℕ) → i < 2 ^ 64
      → entry_at i d' ≡ (if leb log_id.index i && leb i last.index then none else entry_at i d)
  unfolding delete_conflict_logs_since truncate_from
  delete_conflict_logs_since_lem log_id last d d' a b was h i l =
      elim (Result-cases (get_log_state d).0) [
        | inl (s, e) ↦
            let d₁ = (get_log_state d).1 in
            let (same, _, read) = get_log_state_lem s d d₁ (ground arith) in
            let found : s.last_log_id ≡ some last = read ∙ was in
            let d₂ = (delete_range log_id.index last.index d₁).1 in
            elim (Result-cases (delete_range log_id.index last.index d₁).0) [
              | inl (t, f) ↦
                  set_last-kept log_id d₂ d' (ground arith) i
                  ∙ delete_range_lem log_id.index last.index d₁ d₂ a b (ground arith) i l
                  ∙ ap (λ x. if leb log_id.index i && leb i last.index then none else entry_at i x)
                      (sym same)
              | inr (x, f) ↦ absurd (ground arith)
            ]
        | inr (x, e) ↦ absurd (ground arith)
      ]

  -- A successful purge empties the log from where the last purge ended up to `log_id`, leaves every
  -- other index, and stores `log_id` as the last one purged.
  pub purge_logs_upto_lem :
      (log_id : RaftLogId) (d d' : Db)
      → log_id.index < 2 ^ 64
      → purge_logs_upto log_id d ≡ (ok tt, d')
      → (state_at (bytes "last_purged_log_id") d' ≡ raft.log_id_codec.encode log_id)
        × ((i : ℕ)
            → i < 2 ^ 64
            → entry_at i d' ≡ (
                if leb (purge_start (decoded (state_at (bytes "last_purged_log_id") d))) i
                  && leb i log_id.index
                then none
                else entry_at i d))
  unfolding purge_logs_upto
  purge_logs_upto_lem log_id d d' a h = elim (Result-cases (get_log_state d).0) [
    | inl (s, e) ↦
        let d₁ = (get_log_state d).1 in
        let (same, read, _) = get_log_state_lem s d d₁ (ground arith) in
        let start = purge_start s.last_purged_log_id in
        let d₂ = (delete_range start log_id.index d₁).1 in
        elim (Result-cases (delete_range start log_id.index d₁).0) [
          | inl (t, f) ↦
              let (stored, kept) =
                write_log_id_lem (bytes "last_purged_log_id") log_id d₂ d' (ground arith) in
              (
                stored,
                λ i l.
                    kept i
                    ∙ delete_range_lem start log_id.index d₁ d₂
                        (purge_start-small s.last_purged_log_id) a (ground arith) i l
                    ∙ ap (λ x. if leb start i && leb i log_id.index then none else entry_at i x)
                        (sym same)
                    ∙ ap
                        (λ p.
                          if leb (purge_start p) i && leb i log_id.index
                          then none
                          else entry_at i d)
                        read,
              )
          | inr (x, f) ↦ absurd (ground arith)
        ]
    | inr (x, e) ↦ absurd (ground arith)
  ]
    where
      purge_start-small : (o : Option RaftLogId) → purge_start o < 2 ^ 64
      purge_start-small none = omega arith
      purge_start-small (some id) = omega arith
