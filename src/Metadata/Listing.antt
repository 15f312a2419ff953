-- ===== src/Metadata/Listing.antt =====
-- The loops of `list_buckets` (bucket.rs) and `list_objects` (object.rs), which have one body:
-- decode the value and push the record.
use mathlib.Core.List.{append-nil, append_assoc}
use save.Prelude.{Bytes, ◌++◌, List, [], ◌∷◌, ◌≡◌, inl, inr, Option-cases, all, true, ap}
use save.Prelude.Result.{Result, ok, Result-cases, map_ok, ◌>>=◌}
use save.Rocksdb.{Codec, default_cf}
use save.Rocksdb.SortedMap.{Entries}
use save.Rocksdb.Scan.{for_prefix, for_prefix_lem, fold_entries, with_prefix, is_ok}
use save.Metadata.{Env, Db, Error, database, decode_from_slice}

module _ ⦃env : Env⦄ {A : Type 0} (codec : Codec A) where
  unfoldable pub push : List A → Bytes → Bytes → Result Error (List A)
  push acc key value = map_ok (λ a. acc ++ a ∷ []) (decode_from_slice codec value)

  unfoldable pub list_prefixed : Bytes → Db → Result Error (List A)
  list_prefixed prefix d = for_prefix database prefix push [] (env.rocksdb.prefix_iterator d prefix)

  -- The records that a list of entries holds, or the error of the first that cannot be decoded.
  unfoldable pub decode_all : Entries → Result Error (List A)
  decode_all [] = ok []
  decode_all ((k, v) ∷ es) =
      decode_from_slice codec v >>= λ a. map_ok (λ as'. a ∷ as') (decode_all es)

  fold-push :
      (acc : List A) (es : Entries)
      → fold_entries push acc es ≡ map_ok (λ as'. acc ++ as') (decode_all es)
  unfolding fold_entries push decode_all
  fold-push acc [] = rw append-nil
  fold-push acc ((k, v) ∷ es) = elim (Option-cases (codec.decode v)) [
    | inl e ↦ rw e
    | inr (a, e) ↦
        rw (e, fold-push (acc ++ a ∷ []) es)
          (elim (Result-cases (decode_all es)) [
            | inl (as', f) ↦ rw f (ap ok (append_assoc acc (a ∷ []) as'))
            | inr (x, f) ↦ rw f
          ])
  ]

  pub list_prefixed_lem :
      (d : Db) (p : Bytes)
      → all is_ok (env.rocksdb.prefix_iterator d p) ≡ true
      → list_prefixed p d ≡ decode_all (with_prefix p (env.rocksdb.entries d default_cf))
  unfolding list_prefixed
  list_prefixed_lem d p readable =
      let es = env.rocksdb.entries d default_cf in
      rw
        (
          for_prefix_lem database p push [] (env.rocksdb.prefix_iterator d p) es
              (env.rocksdb.iterator_iterates d p) readable
              (env.rocksdb.entries_sorted d default_cf),
          fold-push [],
        )
        (elim (Result-cases (decode_all (with_prefix p es))) [
          | inl (as', e) ↦ rw e
          | inr (x, e) ↦ rw e
        ])
