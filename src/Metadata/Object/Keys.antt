-- ===== src/Metadata/Object/Keys.antt =====
-- The database keys of objects: which bucket and key they stand for, and which of them a listing
-- reads.
use save.Prelude.{
  Bytes, ◌++◌, [], ◌∷◌, none, some, ◌≡◌, ◌↔◌, refl, arith, beq, beq_iff, beq_self, starts_with,
  Bool, true, not, ◌&&◌, all, ◌==◌, ℕ,
}
use save.Prelude.Result.{ok}
use save.Validation.{validate_bucket_name, is_name_char}
use save.Metadata.Object.{db_key, list_prefix}

abbrev no_slash : Bytes → Bool
no_slash = all λ c. not (c == b'/')

beq-slash :
    (a b k l : Bytes)
    → no_slash a ≡ true
    → no_slash b ≡ true
    → beq (a ++ b'/' ∷ k) (b ++ b'/' ∷ l) ≡ (beq a b && beq k l)
unfolding beq
beq-slash [] [] k l h g = refl
beq-slash [] (y ∷ b) k l h g = ground arith
beq-slash (x ∷ a) [] k l h g = ground arith
beq-slash (x ∷ a) (y ∷ b) k l h g = ground (arith, beq-slash a b k l)

starts_with-slash :
    (a b k p : Bytes)
    → no_slash a ≡ true
    → no_slash b ≡ true
    → starts_with (a ++ b'/' ∷ k) (b ++ b'/' ∷ p) ≡ (beq a b && starts_with k p)
unfolding beq starts_with
starts_with-slash [] [] k p h g = refl
starts_with-slash [] (y ∷ b) k p h g = ground arith
starts_with-slash (x ∷ a) [] k p h g = ground arith
starts_with-slash (x ∷ a) (y ∷ b) k p h g = ground (arith, starts_with-slash a b k p)

name_char_no_slash : (c : ℕ) → is_name_char c ≡ true → not (c == b'/') ≡ true
unfolding is_name_char
name_char_no_slash c h = ground arith

all-no_slash : (name : Bytes) → all is_name_char name ≡ true → no_slash name ≡ true
all-no_slash [] h = refl
all-no_slash (c ∷ name) h = ground (arith, name_char_no_slash c, all-no_slash name (ground arith))

valid-no_slash : (name : Bytes) → validate_bucket_name name ≡ ok tt → no_slash name ≡ true
unfolding validate_bucket_name
valid-no_slash name h = all-no_slash name (ground arith)

module _ (bucket other : Bytes) (valid : validate_bucket_name bucket ≡ ok tt)
    (other_valid : validate_bucket_name other ≡ ok tt) (key : Bytes) where
  -- Two objects of buckets with valid names share a database key only if they are the same object.
  pub db_key-injective :
      (other_key : Bytes)
      → db_key bucket key ≡ db_key other other_key
      → (bucket ≡ other) × (key ≡ other_key)
  unfolding db_key
  db_key-injective other_key e = ground (
    arith,
    beq-slash bucket other key other_key (valid-no_slash bucket valid)
        (valid-no_slash other other_valid),
    beq_iff bucket other,
    beq_iff key other_key,
    beq_self (bucket ++ b'/' ∷ key),
  )

  -- The listing of a bucket by a key prefix covers the database key of an object exactly when the
  -- object lies in that bucket and its key has the prefix.
  pub list_prefix-some_iff :
      (prefix : Bytes)
      → (starts_with (db_key bucket key) (list_prefix other (some prefix)) ≡ true)
        ↔ ((bucket ≡ other) × (starts_with key prefix ≡ true))
  unfolding db_key list_prefix starts_with
  list_prefix-some_iff prefix =
      let fact =
        starts_with-slash bucket other key prefix (valid-no_slash bucket valid)
          (valid-no_slash other other_valid) in
      (
        λ h. ground (arith, fact, beq_iff bucket other),
        λ h. ground (arith, fact, beq_iff bucket other),
      )

  -- Without a prefix it covers every object of the bucket and none of another.
  pub list_prefix-none_iff :
      (starts_with (db_key bucket key) (list_prefix other none) ≡ true) ↔ (bucket ≡ other)
  unfolding db_key list_prefix starts_with
  list_prefix-none_iff =
      let fact =
        starts_with-slash bucket other key [] (valid-no_slash bucket valid)
          (valid-no_slash other other_valid) in
      (
        λ h. ground (arith, fact, beq_iff bucket other),
        λ h. ground (arith, fact, beq_iff bucket other),
      )
