-- ===== src/Validation/BucketName.antt =====
-- What a bucket name that `validate_bucket_name` accepts looks like.
use save.Prelude.{
  ℕ, ◌≤◌, ◌≡◌, ◌↔◌, ◌⊎◌, Bytes, [], ◌∷◌, ◌++◌, all_iff, not_true, true, false, starts_with_iff,
  ends_with_iff, length, arith, starts_with, ends_with, all,
}
use save.Prelude.Result.{ok}
use save.Validation.{
  validate_bucket_name, is_name_char, min_bucket_name_length, max_bucket_name_length,
}

abbrev pub IsLetterOrDigit : ℕ → Type 0
IsLetterOrDigit c = ((b'a' ≤ c) × (c ≤ b'z')) ⊎ ((b'0' ≤ c) × (c ≤ b'9'))

abbrev pub IsNameChar : ℕ → Type 0
IsNameChar c = IsLetterOrDigit c ⊎ ((c ≡ b'-') ⊎ (c ≡ b'.'))

pub record IsBucketName (name : Bytes) : Type 0 where
  pub long : min_bucket_name_length ≤ length name
  pub short : length name ≤ max_bucket_name_length
  pub chars : (pre post : Bytes) (c : ℕ) → name ≡ pre ++ c ∷ post → IsNameChar c
  pub first : (c : ℕ) (post : Bytes) → name ≡ c ∷ post → IsLetterOrDigit c
  pub last : (pre : Bytes) (c : ℕ) → name ≡ pre ++ c ∷ [] → IsLetterOrDigit c

is_name_char_iff : (c : ℕ) → (is_name_char c ≡ true) ↔ IsNameChar c
unfolding is_name_char
is_name_char_iff c = (λ h. ground arith, λ h. ground arith)

module _ (name : Bytes) where
  accepted_chars : validate_bucket_name name ≡ ok tt → all is_name_char name ≡ true
  unfolding validate_bucket_name
  accepted_chars h = ground arith

  accepted_char :
      validate_bucket_name name ≡ ok tt
      → (pre post : Bytes) (c : ℕ) → name ≡ pre ++ c ∷ post
      → IsNameChar c
  accepted_char h pre post c e =
      (is_name_char_iff c).0 ((all_iff is_name_char name).0 (accepted_chars h) pre post c e)

  accepted_first :
      validate_bucket_name name ≡ ok tt
      → (c : ℕ) (post : Bytes) → name ≡ c ∷ post
      → IsLetterOrDigit c
  unfolding validate_bucket_name
  accepted_first h c post e =
      ground (arith, accepted_char h [] post c e, (starts_with_iff name (c ∷ [])).1 (post, e))

  accepted_last :
      validate_bucket_name name ≡ ok tt
      → (pre : Bytes) (c : ℕ) → name ≡ pre ++ c ∷ []
      → IsLetterOrDigit c
  unfolding validate_bucket_name
  accepted_last h pre c e =
      ground (arith, accepted_char h pre [] c e, (ends_with_iff name (c ∷ [])).1 (pre, e))

  accepted-IsBucketName : validate_bucket_name name ≡ ok tt → IsBucketName name
  unfolding validate_bucket_name
  accepted-IsBucketName h = record {
    long = ground arith;
    short = ground arith;
    chars = accepted_char h;
    first = accepted_first h;
    last = accepted_last h;
  }

  module _ (v : IsBucketName name) where
    no_prefix : (c : ℕ) → ¬ IsLetterOrDigit c → starts_with name (c ∷ []) ≡ false
    no_prefix c h =
        not_true (λ t. let (post, e) = (starts_with_iff name (c ∷ [])).0 t in h (v.first c post e))

    no_suffix : (c : ℕ) → ¬ IsLetterOrDigit c → ends_with name (c ∷ []) ≡ false
    no_suffix c h =
        not_true (λ t. let (pre, e) = (ends_with_iff name (c ∷ [])).0 t in h (v.last pre c e))

    valid_chars : all is_name_char name ≡ true
    valid_chars =
        (all_iff is_name_char name).1
          (λ pre post c e. (is_name_char_iff c).1 (v.chars pre post c e))

    IsBucketName-accepted : validate_bucket_name name ≡ ok tt
    unfolding validate_bucket_name
    IsBucketName-accepted =
        rw
          (
            valid_chars,
            no_prefix b'-' (λ h. ground arith),
            no_prefix b'.' (λ h. ground arith),
            no_suffix b'-' (λ h. ground arith),
            no_suffix b'.' (λ h. ground arith),
          )
          (ground (arith, v.long, v.short))

-- A name is accepted exactly when it has 3 to 63 bytes, each of them a lower-case letter, a digit,
-- a hyphen or a dot, and its first and its last byte is a letter or a digit.
pub validate_bucket_name_iff :
    (name : Bytes) → (validate_bucket_name name ≡ ok tt) ↔ IsBucketName name
validate_bucket_name_iff name = (accepted-IsBucketName name, IsBucketName-accepted name)
