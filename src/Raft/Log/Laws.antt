-- ===== src/Raft/Log/Laws.antt =====
-- What the log holds after `append` and `delete_range`.
use save.Prelude.{
  ℕ, zero, suc, ◌+◌, ◌-◌, ◌^◌, ◌≤◌, ◌<◌, ◌≡◌, ◌≢◌, Bytes, bytes, List, [], ◌∷◌, Option, none, some,
  Bool, ◌==◌, leb, ◌&&◌, if◌then◌else◌, arith, ap, ◌∙◌, sym, beq_self, Option-cases, Bool-cases,
  inl, inr, ltb,
}
use save.Prelude.Result.{ok, Result-cases}
use save.Rocksdb.{raft_log, raft_state}
use save.Rocksdb.SortedMap.{lookup, lookup-insert, lookup-remove}
use save.Metadata.{Env, Db}
use save.Raft.{RaftTypes}
use save.Raft.Log.{
  RaftLogId, RaftEntry, index_to_key, append_loop, append, record_last, write_log_id,
  delete_entries, delete_range,
}
use save.Raft.Log.Keys.{beq-index_to_key}

module _ ⦃env : Env⦄ where
  -- The bytes stored for a log index.
  abbrev pub entry_at : ℕ → Db → Option Bytes
  entry_at i d = lookup (index_to_key i) (env.rocksdb.entries d raft_log)

  entry_at-put :
      (i n : ℕ) (v : Bytes) (d : Db)
      → i < 2 ^ 64
      → n < 2 ^ 64
      → (env.rocksdb.put d raft_log (index_to_key n) v).0 ≡ ok tt
      → entry_at i (env.rocksdb.put d raft_log (index_to_key n) v).1
        ≡ (if n == i then some v else entry_at i d)
  entry_at-put i n v d hi hn p =
      ap (lookup (index_to_key i)) (env.rocksdb.put_ok d raft_log (index_to_key n) v p)
      ∙ lookup-insert (index_to_key n) (index_to_key i) v _
      ∙ ap (λ b. if b then some v else entry_at i d) (beq-index_to_key n i hn hi)

  entry_at-delete :
      (i n : ℕ) (d : Db)
      → i < 2 ^ 64
      → n < 2 ^ 64
      → (env.rocksdb.delete d raft_log (index_to_key n)).0 ≡ ok tt
      → entry_at i (env.rocksdb.delete d raft_log (index_to_key n)).1
        ≡ (if n == i then none else entry_at i d)
  entry_at-delete i n d hi hn p =
      ap (lookup (index_to_key i)) (env.rocksdb.delete_ok d raft_log (index_to_key n) p)
      ∙ lookup-remove (index_to_key n) (index_to_key i) _
      ∙ ap (λ b. if b then none else entry_at i d) (beq-index_to_key n i hn hi)

  other_cf : raft_state ≢ raft_log
  other_cf e = ground arith

  -- Writes to the Raft state leave the log alone.
  pub entry_at-put_state :
      (i : ℕ) (k v : Bytes) (d : Db)
      → entry_at i (env.rocksdb.put d raft_state k v).1 ≡ entry_at i d
  entry_at-put_state i k v d =
      ap (lookup (index_to_key i)) (env.rocksdb.put_other d raft_state raft_log k v other_cf)

  pub entry_at-delete_state :
      (i : ℕ) (k : Bytes) (d : Db) → entry_at i (env.rocksdb.delete d raft_state k).1 ≡ entry_at i d
  entry_at-delete_state i k d =
      ap (lookup (index_to_key i)) (env.rocksdb.delete_other d raft_state raft_log k other_cf)

module _ ⦃env : Env⦄ ⦃raft : RaftTypes⦄ where
  -- The value of an index after the entries are written one after the other.
  abbrev pub written : ℕ → List RaftEntry → Option Bytes → Option Bytes
  written i [] o = o
  written i (e ∷ entries) o =
      written i entries (if e.log_id.index == i then raft.entry_codec.encode e else o)

  abbrev pub last_of : Option RaftLogId → List RaftEntry → Option RaftLogId
  last_of last [] = last
  last_of last (e ∷ entries) = last_of (some e.log_id) entries

  -- Indices are of type `u64`.
  abbrev pub AllU64 : List RaftEntry → Type 0
  AllU64 [] = Unit
  AllU64 (e ∷ entries) = (e.log_id.index < 2 ^ 64) × AllU64 entries

  append_loop_lem :
      (entries : List RaftEntry) (last r : Option RaftLogId) (d d' : Db)
      → AllU64 entries
      → append_loop entries last d ≡ (ok r, d')
      → (r ≡ last_of last entries)
        × ((i : ℕ) → i < 2 ^ 64 → entry_at i d' ≡ written i entries (entry_at i d))
  unfolding append_loop
  append_loop_lem [] last r d d' u h = (ground arith, λ i l. ap (entry_at i) (ground arith))
  append_loop_lem (e ∷ entries) last r d d' (l, u) h =
      elim (Option-cases (raft.entry_codec.encode e)) [
        | inl enc ↦ absurd (ground arith)
        | inr (b, enc) ↦
            let key = index_to_key e.log_id.index in
            let d₁ = (env.rocksdb.put d raft_log key b).1 in
            elim (Result-cases (env.rocksdb.put d raft_log key b).0) [
              | inl (t, p) ↦
                  let (same, at_i) =
                    append_loop_lem entries (some e.log_id) r d₁ d' u (ground arith) in
                  (
                    same,
                    λ i li.
                        at_i i li
                        ∙ ap (written i entries) (
                            entry_at-put i e.log_id.index b d li l p
                            ∙ ap (λ o. if e.log_id.index == i then o else entry_at i d) (sym enc)),
                  )
              | inr (x, p) ↦ absurd (ground arith)
            ]
      ]

  -- The bytes stored under a key of the Raft state.
  abbrev pub state_at : Bytes → Db → Option Bytes
  state_at k d = lookup k (env.rocksdb.entries d raft_state)

  pub write_log_id_lem :
      (k : Bytes) (id : RaftLogId) (d d' : Db)
      → write_log_id k id d ≡ (ok tt, d')
      → (state_at k d' ≡ raft.log_id_codec.encode id) × ((i : ℕ) → entry_at i d' ≡ entry_at i d)
  unfolding write_log_id
  write_log_id_lem k id d d' h = elim (Bool-cases (env.rocksdb.has_cf d raft_state)) [
    | inl c ↦ elim (Option-cases (raft.log_id_codec.encode id)) [
      | inl enc ↦ absurd (ground arith)
      | inr (b, enc) ↦ elim (Result-cases (env.rocksdb.put d raft_state k b).0) [
        | inl (t, p) ↦
            let after : (env.rocksdb.put d raft_state k b).1 ≡ d' = ground arith in
            (
              ap (state_at k) (sym after)
                  ∙ ap (lookup k) (env.rocksdb.put_ok d raft_state k b p)
                  ∙ lookup-insert k k b _
                  ∙ ground (arith, beq_self k),
              λ i. ap (entry_at i) (sym after) ∙ entry_at-put_state i k b d,
            )
        | inr (x, p) ↦ absurd (ground arith)
      ]
    ]
    | inr c ↦ absurd (ground arith)
  ]

  record_last_lem :
      (last r : Option RaftLogId) (d d' : Db)
      → record_last last d ≡ (ok r, d')
      → (r ≡ last)
        × ((id : RaftLogId)
            → last ≡ some id
            → state_at (bytes "last_log_id") d' ≡ raft.log_id_codec.encode id)
        × ((i : ℕ) → entry_at i d' ≡ entry_at i d)
  unfolding record_last
  record_last_lem none r d d' h =
      (ground arith, λ id e. absurd (ground arith), λ i. ap (entry_at i) (ground arith))
  record_last_lem (some last) r d d' h =
      let k = bytes "last_log_id" in
      let d₁ = (write_log_id k last d).1 in
      elim (Result-cases (write_log_id k last d).0) [
        | inl (t, w) ↦
            let after : d₁ ≡ d' = ground arith in
            let (stored, kept) = write_log_id_lem k last d d₁ (ground arith) in
            (
              ground arith,
              λ id e.
                  ap (state_at k) (sym after) ∙ stored ∙ ap raft.log_id_codec.encode (ground arith),
              λ i. ap (entry_at i) (sym after) ∙ kept i,
            )
        | inr (x, w) ↦ absurd (ground arith)
      ]

  -- A successful `append` returns the id of its last entry and stores it as the last log id. Of each
  -- index the log then holds the last entry given for it, and what it held before if there is none.
  pub append_lem :
      (entries : List RaftEntry) (r : Option RaftLogId) (d d' : Db)
      → AllU64 entries
      → append entries d ≡ (ok r, d')
      → (r ≡ last_of none entries)
        × ((id : RaftLogId)
            → r ≡ some id
            → state_at (bytes "last_log_id") d' ≡ raft.log_id_codec.encode id)
        × ((i : ℕ) → i < 2 ^ 64 → entry_at i d' ≡ written i entries (entry_at i d))
  unfolding append
  append_lem entries r d d' u h = elim (Bool-cases (env.rocksdb.has_cf d raft_log)) [
    | inl c ↦ elim (Result-cases (append_loop entries none d).0) [
      | inl (last, e) ↦
          let d₁ = (append_loop entries none d).1 in
          let (same, at_i) = append_loop_lem entries none last d d₁ u (ground arith) in
          let (result, stored, kept) = record_last_lem last r d₁ d' (ground arith) in
          (result ∙ same, λ id f. stored id (sym result ∙ f), λ i l. kept i ∙ at_i i l)
      | inr (x, e) ↦ absurd (ground arith)
    ]
    | inr c ↦ absurd (ground arith)
  ]

  -- Whether an index is one of `left` indices from `start` on.
  abbrev in_range : ℕ → ℕ → ℕ → Bool
  in_range start left i = leb start i && ltb i (start + left)

  delete_entries_lem :
      (left start : ℕ) (d d' : Db)
      → start + left ≤ 2 ^ 64
      → delete_entries left start d ≡ (ok tt, d')
      → (i : ℕ) → i < 2 ^ 64
      → entry_at i d' ≡ (if in_range start left i then none else entry_at i d)
  unfolding delete_entries
  delete_entries_lem zero start d d' b h i l =
      let same : d ≡ d' = ground arith in ground (arith, ap (entry_at i) same)
  delete_entries_lem (suc left) start d d' b h i l =
      let key = index_to_key start in
      let d₁ = (env.rocksdb.delete d raft_log key).1 in
      elim (Result-cases (env.rocksdb.delete d raft_log key).0) [
        | inl (t, p) ↦ ground (
          arith,
          delete_entries_lem left (start + 1) d₁ d' (omega arith) (ground arith) i l,
          entry_at-delete i start d l (omega arith) p,
        )
        | inr (x, p) ↦ absurd (ground arith)
      ]

  -- A successful `delete_range` empties the indices from `start` to `end`, both included, and leaves
  -- the others.
  pub delete_range_lem :
      (start end : ℕ) (d d' : Db)
      → start < 2 ^ 64
      → end < 2 ^ 64
      → delete_range start end d ≡ (ok tt, d')
      → (i : ℕ) → i < 2 ^ 64
      → entry_at i d' ≡ (if leb start i && leb i end then none else entry_at i d)
  unfolding delete_range
  delete_range_lem start end d d' a b h i l = elim (Bool-cases (env.rocksdb.has_cf d raft_log)) [
    | inl c ↦
        ground
          (arith, delete_entries_lem (end + 1 - start) start d d' (omega arith) (ground arith) i l)
    | inr c ↦ absurd (ground arith)
  ]
