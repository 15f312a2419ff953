-- ===== src/Raft/Log/Reading.antt =====
-- `read_log_id` and `get_log_state` read the Raft state and change nothing.
use save.Prelude.{Bytes, bytes, Option, none, some, ◌≡◌, arith, ap, ◌∙◌, sym, Bool-cases, inl, inr}
use save.Prelude.Result.{ok, Result-cases}
use save.Rocksdb.{raft_state}
use save.Metadata.{Env, Db}
use save.Raft.{RaftTypes}
use save.Raft.Log.{RaftLogId, LogState, decode_log_id, read_log_id, get_log_state}
use save.Raft.Log.Laws.{state_at}

module _ ⦃env : Env⦄ ⦃raft : RaftTypes⦄ where
  -- The log id that is stored under a key of the Raft state, if any.
  abbrev pub decoded : Option Bytes → Option RaftLogId
  decoded none = none
  decoded (some b) = raft.log_id_codec.decode b

  decode_log_id_lem :
      (v : Option Bytes) (o : Option RaftLogId) (d d' : Db)
      → decode_log_id v d ≡ (ok o, d')
      → (d ≡ d') × (o ≡ decoded v)
  unfolding decode_log_id
  decode_log_id_lem none o d d' h = (ground arith, ground arith)
  decode_log_id_lem (some b) o d d' h = (ground arith, ground arith)

  read_log_id_lem :
      (k : Bytes) (o : Option RaftLogId) (d d' : Db)
      → read_log_id k d ≡ (ok o, d')
      → (d ≡ d') × (o ≡ decoded (state_at k d))
  unfolding read_log_id
  read_log_id_lem k o d d' h = elim (Bool-cases (env.rocksdb.has_cf d raft_state)) [
    | inl c ↦ elim (Result-cases (env.rocksdb.get d raft_state k)) [
      | inl (v, g) ↦
          let (same, read) = decode_log_id_lem v o d d' (ground arith) in
          (same, read ∙ ap decoded (env.rocksdb.get_ok d raft_state k v g))
      | inr (x, g) ↦ absurd (ground arith)
    ]
    | inr c ↦ absurd (ground arith)
  ]

  pub get_log_state_lem :
      (s : LogState raft.LeaderId) (d d' : Db)
      → get_log_state d ≡ (ok s, d')
      → (d ≡ d')
        × (s.last_purged_log_id ≡ decoded (state_at (bytes "last_purged_log_id") d))
        × (s.last_log_id ≡ decoded (state_at (bytes "last_log_id") d))
  unfolding get_log_state
  get_log_state_lem s d d' h =
      let k = bytes "last_purged_log_id" in
      let j = bytes "last_log_id" in
      let d₁ = (read_log_id k d).1 in
      elim (Result-cases (read_log_id k d).0) [
        | inl (p, e) ↦
            let (same, read) = read_log_id_lem k p d d₁ (ground arith) in
            elim (Result-cases (read_log_id j d₁).0) [
              | inl (l, f) ↦
                  let (same', read') = read_log_id_lem j l d₁ (read_log_id j d₁).1 (ground arith) in
                  (
                    same ∙ same' ∙ ground arith,
                    ground arith,
                    ground arith ∙ read' ∙ ap (λ x. decoded (state_at j x)) (sym same),
                  )
              | inr (x, f) ↦ absurd (ground arith)
            ]
        | inr (x, e) ↦ absurd (ground arith)
      ]
