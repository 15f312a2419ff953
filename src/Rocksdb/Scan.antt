-- ===== src/Rocksdb/Scan.antt =====
-- The loop that the program writes over `prefix_iterator`: stop with the error of a failed read,
-- leave at the first key without the prefix, and otherwise run the body.
use save.Prelude.{
  Bytes, List, [], ◌∷◌, Bool, true, false, ◌≡◌, refl, arith, starts_with, filter, blt, all,
  if◌then◌else◌, Bool-cases, inl, inr, ap, subst,
}
use save.Prelude.Result.{Result, ok, err, ◌>>=◌, Result-cases}
use save.Rocksdb.{Iterates}
use save.Rocksdb.SortedMap.{Entries, IsSorted, Above, seek}

module _ {ℓ κ μ} {E : Type ℓ} {F : Type κ} {A : Type μ} where
  unfoldable pub for_prefix :
      (E → F)
      → Bytes
      → (A → Bytes → Bytes → Result F A)
      → A
      → List (Result E (Bytes × Bytes))
      → Result F A
  for_prefix wrap prefix body acc [] = ok acc
  for_prefix wrap prefix body acc (err e ∷ items) = err (wrap e)
  for_prefix wrap prefix body acc (ok (k, v) ∷ items) =
      if starts_with k prefix
      then (body acc k v >>= λ a. for_prefix wrap prefix body a items)
      else ok acc

-- The same without an iterator: the body at each of the entries.
unfoldable pub fold_entries {κ μ} :
    {F : Type κ} {A : Type μ} → (A → Bytes → Bytes → Result F A) → A → Entries → Result F A
fold_entries body acc [] = ok acc
fold_entries body acc ((k, v) ∷ es) = body acc k v >>= λ a. fold_entries body a es

unfoldable pub with_prefix : Bytes → Entries → Entries
with_prefix prefix = filter (λ e. starts_with e.0 prefix)

abbrev pub is_ok {ℓ κ} : {E : Type ℓ} {A : Type κ} → Result E A → Bool
is_ok (ok a) = true
is_ok (err e) = false

pub below_no_prefix : (k p : Bytes) → blt k p ≡ true → starts_with k p ≡ false
unfolding blt starts_with
below_no_prefix k [] h = absurd (go k h)
  where
    go : (k : Bytes) → blt k [] ≡ true → ⊥
    go [] h = cc
    go (x ∷ k) h = cc
below_no_prefix [] (c ∷ p) h = refl
below_no_prefix (x ∷ k) (c ∷ p) h = ground (arith, below_no_prefix k p)

not_below_trans : (k j p : Bytes) → blt k p ≡ false → blt k j ≡ true → blt j p ≡ false
unfolding blt
not_below_trans [] [] [] h l = refl
not_below_trans [] [] (c ∷ p) h l = cc
not_below_trans [] (y ∷ j) [] h l = refl
not_below_trans [] (y ∷ j) (c ∷ p) h l = cc
not_below_trans (x ∷ k) [] p h l = cc
not_below_trans (x ∷ k) (y ∷ j) [] h l = refl
not_below_trans (x ∷ k) (y ∷ j) (c ∷ p) h l = ground (arith, not_below_trans k j p)

past_no_prefix :
    (k j p : Bytes)
    → blt k p ≡ false
    → starts_with k p ≡ false
    → blt k j ≡ true
    → starts_with j p ≡ false
unfolding blt starts_with
past_no_prefix k j [] h n l = cc
past_no_prefix [] j (c ∷ p) h n l = cc
past_no_prefix (x ∷ k) [] (c ∷ p) h n l = refl
past_no_prefix (x ∷ k) (y ∷ j) (c ∷ p) h n l = ground (arith, past_no_prefix k j p)

pub past_empty :
    (k p : Bytes) (es : Entries)
    → blt k p ≡ false
    → starts_with k p ≡ false
    → Above k es
    → with_prefix p es ≡ []
unfolding with_prefix
past_empty k p [] h n s = refl
past_empty k p ((j, w) ∷ es) h n s = ground (arith, past_no_prefix k j p, past_empty k p es h n s.1)

abbrev pub StartsAt : Bytes → Entries → Type 0
StartsAt p [] = Unit
StartsAt p ((k, v) ∷ es) = blt k p ≡ false

pub Above-StartsAt : (k p : Bytes) (es : Entries) → blt k p ≡ false → Above k es → StartsAt p es
Above-StartsAt k p [] h s = tt
Above-StartsAt k p ((j, w) ∷ es) h s = not_below_trans k j p h s.0

module _ {ℓ κ μ} {E : Type ℓ} {F : Type κ} {A : Type μ} (wrap : E → F) (p : Bytes) where
  -- Once the keys are no longer below the prefix, those with it stand first.
  for_prefix_from :
      (body : A → Bytes → Bytes → Result F A) (acc : A) (items : List (Result E (Bytes × Bytes)))
      (es : Entries)
      → Iterates items es
      → all is_ok items ≡ true
      → StartsAt p es
      → IsSorted es
      → for_prefix wrap p body acc items ≡ fold_entries body acc (with_prefix p es)
  unfolding for_prefix fold_entries with_prefix
  for_prefix_from body acc [] [] i o b s = refl
  for_prefix_from body acc [] (e ∷ es) i o b s = absurd i
  for_prefix_from body acc (err x ∷ items) es i o b s = cc
  for_prefix_from body acc (ok x ∷ items) [] i o b s = absurd i
  for_prefix_from body acc (ok (k, v) ∷ items) ((j, w) ∷ es) i o b s =
      elim (Bool-cases (starts_with j p)) [
        | inl with_p ↦
            rw (ap (λ (e : Bytes × Bytes). e.0) i.0, ap (λ (e : Bytes × Bytes). e.1) i.0, with_p)
              (elim (Result-cases (body acc j w)) [
                | inl (a, e) ↦
                    rw e (for_prefix_from body a items es i.1 o (Above-StartsAt j p es b s.0) s.1)
                | inr (x, e) ↦ rw e
              ])
        | inr past ↦ rw (ap (λ (e : Bytes × Bytes). e.0) i.0, past, past_empty j p es b past s.0)
      ]

  -- Where no read fails, the loop runs over exactly the entries with the prefix, in key order:
  -- it begins at the first of them and leaves none behind.
  pub for_prefix_lem :
      (body : A → Bytes → Bytes → Result F A) (acc : A) (items : List (Result E (Bytes × Bytes)))
      (es : Entries)
      → Iterates items (seek p es)
      → all is_ok items ≡ true
      → IsSorted es
      → for_prefix wrap p body acc items ≡ fold_entries body acc (with_prefix p es)
  unfolding seek with_prefix
  for_prefix_lem body acc items [] i o s = for_prefix_from body acc items [] i o tt tt
  for_prefix_lem body acc items ((j, w) ∷ es) i o s = elim (Bool-cases (blt j p)) [
    | inl below ↦
        rw (below_no_prefix j p below)
          (for_prefix_lem body acc items es (subst (Iterates items) (rw below) i) o s.1)
    | inr from ↦
        for_prefix_from body acc items ((j, w) ∷ es) (subst (Iterates items) (rw from) i) o from s
  ]
