-- ===== src/Raft/Snapshot/Restore.antt =====
-- What installing a snapshot does to the data of a node.
use save.Prelude.{
  Bytes, List, [], ◌∷◌, Option, none, some, Bool, true, false, ◌≡◌, refl, sym, ap, ◌∙◌, arith,
  beq_iff, blt, any, if◌then◌else◌, starts_with, inl, inr, Bool-cases,
}
use save.Prelude.Result.{ok, err, Result-cases}
use save.Rocksdb.{default_cf, Iterates}
use save.Rocksdb.SortedMap.{Entries, IsSorted, Above, lookup, seek}
use save.Rocksdb.Scan.{with_prefix, StartsAt, past_empty, Above-StartsAt, below_no_prefix}
use save.Metadata.{Env, Db, stored}
use save.Metadata.Database.{stored-delete, stored-put}
use save.Metadata.Multipart.Abort.{keys_of, among, lookup-with_prefix}
use save.Metadata.Lock.{lock_key}
use save.Raft.Snapshot.{
  Items, data_prefixes, delete_loop, delete_prefixes, copy_loop, copy_prefixes, restore_default_cf,
}

-- From the first key on that is not below the prefix, seeking loses no key with the prefix.
with_prefix-seek : (p : Bytes) (es : Entries) → with_prefix p (seek p es) ≡ with_prefix p es
unfolding with_prefix seek
with_prefix-seek p [] = refl
with_prefix-seek p ((k, v) ∷ es) = ground (arith, with_prefix-seek p es, below_no_prefix k p)

seek-StartsAt : (p : Bytes) (es : Entries) → StartsAt p (seek p es)
unfolding seek
seek-StartsAt p [] = tt
seek-StartsAt p ((k, v) ∷ es) = elim (Bool-cases (blt k p)) [
  | inl below ↦ rw below (seek-StartsAt p es)
  | inr from ↦ rw from from
]

seek-IsSorted : (p : Bytes) (es : Entries) → IsSorted es → IsSorted (seek p es)
unfolding seek
seek-IsSorted p [] s = tt
seek-IsSorted p ((k, v) ∷ es) s = elim (Bool-cases (blt k p)) [
  | inl below ↦ rw below (seek-IsSorted p es s.1)
  | inr from ↦ rw from s
]

-- The value of the first map that has one.
abbrev or_value : Option Bytes → Option Bytes → Option Bytes
or_value (some v) o = some v
or_value none o = o

blt_self : (k : Bytes) → blt k k ≡ false
unfolding blt
blt_self [] = refl
blt_self (x ∷ k) = ground (arith, blt_self k)

Above-lookup : (k : Bytes) (es : Entries) → Above k es → lookup k es ≡ none
unfolding lookup
Above-lookup k [] h = refl
Above-lookup k ((j, w) ∷ es) (h, hs) = ground (arith, Above-lookup k es hs, beq_iff j k, blt_self k)

Above-with_prefix : (k p : Bytes) (es : Entries) → Above k es → Above k (with_prefix p es)
unfolding with_prefix
Above-with_prefix k p [] h = tt
Above-with_prefix k p ((j, w) ∷ es) (h, hs) = ground (arith, Above-with_prefix k p es hs)

lookup_prefixed :
    (p j : Bytes) (es : Entries)
    → lookup j (with_prefix p es) ≡ (if starts_with j p then lookup j es else none)
unfolding lookup with_prefix
lookup_prefixed p j [] = ground arith
lookup_prefixed p j ((k, v) ∷ es) = ground (arith, lookup_prefixed p j es, beq_iff k j)

-- A value that was deleted and then copied, or was neither.
copy_restored :
    (b : Bool) (source old mid new : Option Bytes)
    → mid ≡ (if b then none else old)
    → new ≡ or_value (if b then source else none) mid
    → new ≡ (if b then source else old)
copy_restored true none old mid new h k = k ∙ h
copy_restored true (some v) old mid new h k = k
copy_restored false source old mid new h k = k ∙ h

module _ ⦃env : Env⦄ where
  -- A loop that succeeds has deleted every key with the prefix that the iterator ran over.
  delete_loop_lem :
      (p : Bytes) (items : Items) (es : Entries) (d : Db)
      → Iterates items es
      → StartsAt p es
      → IsSorted es
      → (delete_loop p items d).0 ≡ ok tt
      → (j : Bytes)
      → stored (delete_loop p items d).1 j
        ≡ (if among j (keys_of (with_prefix p es)) then none else stored d j)
  unfolding delete_loop with_prefix
  delete_loop_lem p [] [] d i b s h j = refl
  delete_loop_lem p [] (e ∷ es) d i b s h j = absurd i
  delete_loop_lem p (err x ∷ items) es d i b s h j = cc
  delete_loop_lem p (ok x ∷ items) [] d i b s h j = absurd i
  delete_loop_lem p (ok (k, v) ∷ items) ((k', w) ∷ es) d i b s h j =
      let same = ap (λ (x : Bytes × Bytes). x.0) i.0 in
      let d' = (env.rocksdb.delete d default_cf k).1 in
      elim (Bool-cases (starts_with k p)) [
        | inr past ↦
            let past' : starts_with k' p ≡ false =
              ap (λ (x : Bytes). starts_with x p) (sym same) ∙ past in
            rw (past, past', past_empty k' p es b past' s.0) refl
        | inl with_p ↦
            let with_p' : starts_with k' p ≡ true =
              ap (λ (x : Bytes). starts_with x p) (sym same) ∙ with_p in
            elim (Result-cases (env.rocksdb.delete d default_cf k).0) [
              | inr (e, f) ↦ absurd (ground arith)
              | inl (u, f) ↦
                  let rest =
                    delete_loop_lem p items es d' i.1 (Above-StartsAt k' p es b s.0) s.1
                      (ground arith) j in
                  ground (arith, rest, same, stored-delete d k j f)
            ]
      ]

  delete_prefix_lem :
      (p : Bytes) (d : Db)
      → (delete_loop p (env.rocksdb.prefix_iterator d p) d).0 ≡ ok tt
      → (j : Bytes)
      → stored (delete_loop p (env.rocksdb.prefix_iterator d p) d).1 j
        ≡ (if starts_with j p then none else stored d j)
  delete_prefix_lem p d h j =
      let es = env.rocksdb.entries d default_cf in
      delete_loop_lem p (env.rocksdb.prefix_iterator d p) (seek p es) d
        (env.rocksdb.iterator_iterates d p) (seek-StartsAt p es)
        (seek-IsSorted p es (env.rocksdb.entries_sorted d default_cf)) h j
      ∙ ap (λ (es : Entries). if among j (keys_of es) then none else stored d j)
          (with_prefix-seek p es)
      ∙ lookup-with_prefix p j es

  delete_prefixes_lem :
      (ps : List Bytes) (d : Db)
      → (delete_prefixes ps d).0 ≡ ok tt
      → (j : Bytes)
      → stored (delete_prefixes ps d).1 j ≡ (if any (starts_with j) ps then none else stored d j)
  unfolding delete_prefixes
  delete_prefixes_lem [] d h j = refl
  delete_prefixes_lem (p ∷ ps) d h j =
      let m = delete_loop p (env.rocksdb.prefix_iterator d p) d in
      elim (Result-cases m.0) [
        | inr (e, f) ↦ absurd (ground arith)
        | inl (u, f) ↦
            ground (arith, delete_prefixes_lem ps m.1 (ground arith) j, delete_prefix_lem p d f j)
      ]

  copy_loop_lem :
      (p : Bytes) (items : Items) (es : Entries) (d : Db)
      → Iterates items es
      → StartsAt p es
      → IsSorted es
      → (copy_loop p items d).0 ≡ ok tt
      → (j : Bytes)
      → stored (copy_loop p items d).1 j ≡ or_value (lookup j (with_prefix p es)) (stored d j)
  unfolding copy_loop with_prefix lookup
  copy_loop_lem p [] [] d i b s h j = refl
  copy_loop_lem p [] (e ∷ es) d i b s h j = absurd i
  copy_loop_lem p (err x ∷ items) es d i b s h j = cc
  copy_loop_lem p (ok x ∷ items) [] d i b s h j = absurd i
  copy_loop_lem p (ok (k, v) ∷ items) ((k', w) ∷ es) d i b s h j =
      let same = ap (λ (x : Bytes × Bytes). x.0) i.0 in
      let value = ap (λ (x : Bytes × Bytes). x.1) i.0 in
      let d' = (env.rocksdb.put d default_cf k v).1 in
      elim (Bool-cases (starts_with k p)) [
        | inr past ↦
            let past' : starts_with k' p ≡ false =
              ap (λ (x : Bytes). starts_with x p) (sym same) ∙ past in
            rw (past, past', past_empty k' p es b past' s.0) refl
        | inl with_p ↦
            let with_p' : starts_with k' p ≡ true =
              ap (λ (x : Bytes). starts_with x p) (sym same) ∙ with_p in
            elim (Result-cases (env.rocksdb.put d default_cf k v).0) [
              | inr (e, f) ↦ absurd (ground arith)
              | inl (u, f) ↦
                  let rest =
                    copy_loop_lem p items es d' i.1 (Above-StartsAt k' p es b s.0) s.1
                      (ground arith) j in
                  let once = Above-lookup k' (with_prefix p es) (Above-with_prefix k' p es s.0) in
                  ground (arith, rest, same, value, once, stored-put d k v j f, beq_iff k j)
            ]
      ]

  copy_prefix_lem :
      (p : Bytes) (source d : Db)
      → (copy_loop p (env.rocksdb.prefix_iterator source p) d).0 ≡ ok tt
      → (j : Bytes)
      → stored (copy_loop p (env.rocksdb.prefix_iterator source p) d).1 j
        ≡ or_value (if starts_with j p then stored source j else none) (stored d j)
  copy_prefix_lem p source d h j =
      let es = env.rocksdb.entries source default_cf in
      copy_loop_lem p (env.rocksdb.prefix_iterator source p) (seek p es) d
        (env.rocksdb.iterator_iterates source p) (seek-StartsAt p es)
        (seek-IsSorted p es (env.rocksdb.entries_sorted source default_cf)) h j
      ∙ ap (λ (es : Entries). or_value (lookup j es) (stored d j)) (with_prefix-seek p es)
      ∙ ap (λ (o : Option Bytes). or_value o (stored d j)) (lookup_prefixed p j es)

  copy_prefixes_lem :
      (source : Db) (ps : List Bytes) (d : Db)
      → (copy_prefixes source ps d).0 ≡ ok tt
      → (j : Bytes)
      → stored (copy_prefixes source ps d).1 j
        ≡ or_value (if any (starts_with j) ps then stored source j else none) (stored d j)
  unfolding copy_prefixes
  copy_prefixes_lem source [] d h j = refl
  copy_prefixes_lem source (p ∷ ps) d h j =
      let m = copy_loop p (env.rocksdb.prefix_iterator source p) d in
      elim (Result-cases m.0) [
        | inr (e, f) ↦ absurd (ground arith)
        | inl (u, f) ↦ ground (
          arith,
          copy_prefixes_lem source ps m.1 (ground arith) j,
          copy_prefix_lem p source d f j,
        )
      ]

  -- After a restore that succeeds the node has the values of the snapshot under all keys with one of
  -- the three data prefixes, and its own values under all other keys.
  pub restore_default_cf_lem :
      (source d : Db)
      → (restore_default_cf source d).0 ≡ ok tt
      → (j : Bytes)
      → stored (restore_default_cf source d).1 j
        ≡ (if any (starts_with j) data_prefixes then stored source j else stored d j)
  unfolding restore_default_cf
  restore_default_cf_lem source d h j =
      let m = delete_prefixes data_prefixes d in
      elim (Result-cases m.0) [
        | inr (e, f) ↦ absurd (ground arith)
        | inl (u, f) ↦
            copy_restored (any (starts_with j) data_prefixes) (stored source j) (stored d j) _ _
              (delete_prefixes_lem data_prefixes d f j)
              (ap (λ (d : Db). stored d j) (ground arith)
                ∙ copy_prefixes_lem source data_prefixes m.1 (ground arith) j)
      ]

  -- So the locks of the node stay, and those of the snapshot do not come.
  pub lock_key-restore_default_cf :
      (source d : Db) (bucket key : Bytes)
      → (restore_default_cf source d).0 ≡ ok tt
      → stored (restore_default_cf source d).1 (lock_key bucket key)
        ≡ stored d (lock_key bucket key)
  lock_key-restore_default_cf source d bucket key h =
      restore_default_cf_lem source d h (lock_key bucket key)
      ∙ unfold lock_key in unfold starts_with in refl
