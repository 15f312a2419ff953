-- ===== src/Validation/ObjectKey.antt =====
-- What an object key that `validate_object_key` accepts looks like.
use save.Prelude.{
  ◌≤◌, ◌≡◌, ◌≢◌, ◌↔◌, Bytes, bytes, [], ◌∷◌, ◌++◌, beq_iff, beq_ne, not_true, starts_with_iff,
  ends_with_iff, contains_iff, length, arith,
}
use save.Prelude.Result.{ok}
use save.Validation.{validate_object_key, max_object_key_length}

-- Described without a search: no way to cut the key shows a forbidden part.
pub record IsObjectKey (key : Bytes) : Type 0 where
  pub nonempty : key ≢ []
  pub short : length key ≤ max_object_key_length
  pub no_null : (pre post : Bytes) → key ≢ pre ++ (0 ∷ [] ++ post)
  pub no_dot_dot : (pre post : Bytes) → key ≢ pre ++ (bytes ".." ++ post)
  pub no_leading_slash : (post : Bytes) → key ≢ bytes "/" ++ post
  pub no_trailing_slash : (pre : Bytes) → key ≢ pre ++ bytes "/"

accepted-IsObjectKey : (key : Bytes) → validate_object_key key ≡ ok tt → IsObjectKey key
unfolding validate_object_key
accepted-IsObjectKey key h = record {
  nonempty = ground (arith, beq_iff key []);
  short = ground arith;
  no_null = λ pre post e. ground (arith, (contains_iff key (0 ∷ [])).1 (pre, post, e));
  no_dot_dot = λ pre post e. ground (arith, (contains_iff key (bytes "..")).1 (pre, post, e));
  no_leading_slash = λ post e. ground (arith, (starts_with_iff key (bytes "/")).1 (post, e));
  no_trailing_slash = λ pre e. ground (arith, (ends_with_iff key (bytes "/")).1 (pre, e));
}

IsObjectKey-accepted : (key : Bytes) → IsObjectKey key → validate_object_key key ≡ ok tt
unfolding validate_object_key
IsObjectKey-accepted key v =
    rw
      (
        beq_ne key [] v.nonempty,
        not_true
            (λ h. let (pre, post, e) = (contains_iff key (0 ∷ [])).0 h in v.no_null pre post e),
        not_true (λ h.
            let (pre, post, e) = (contains_iff key (bytes "..")).0 h in v.no_dot_dot pre post e),
        not_true (λ h.
            let (post, e) = (starts_with_iff key (bytes "/")).0 h in v.no_leading_slash post e),
        not_true
            (λ h. let (pre, e) = (ends_with_iff key (bytes "/")).0 h in v.no_trailing_slash pre e),
      )
      (ground (arith, v.short))

-- A key is accepted exactly when it is not empty, has at most 1024 bytes, holds no null byte and
-- no "..", and neither begins nor ends with "/".
pub validate_object_key_iff : (key : Bytes) → (validate_object_key key ≡ ok tt) ↔ IsObjectKey key
validate_object_key_iff key = (accepted-IsObjectKey key, IsObjectKey-accepted key)
