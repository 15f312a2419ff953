-- ===== src/Prelude/Lists.antt =====
-- Lists measured by native numbers, and Boolean folds over them that run in a test.
use Prim.Native.Nat.{ℕ, zero, suc, ◌+◌}
use mathlib.Core.Path.{◌≡◌, refl, ap}
use mathlib.Core.Bool.{Bool, true, false, ◌&&◌, ◌||◌}
use mathlib.Core.Logic.{◌↔◌}
use mathlib.Core.List.{List, [], ◌∷◌, ◌++◌}
use native.Mathlib.Omega.{arith}
use save.Prelude.Tests.{if◌then◌else◌}

module _ {ℓ} {A : Type ℓ} where
  abbrev pub length : List A → ℕ
  length [] = 0
  length (x ∷ xs) = suc (length xs)

  abbrev pub any : (A → Bool) → List A → Bool
  any p [] = false
  any p (x ∷ xs) = p x || any p xs

  abbrev pub all : (A → Bool) → List A → Bool
  all p [] = true
  all p (x ∷ xs) = p x && all p xs

  -- `Vec::retain` and `Iterator::filter`.
  abbrev pub filter : (A → Bool) → List A → List A
  filter p [] = []
  filter p (x ∷ xs) = let rest = filter p xs in if p x then x ∷ rest else rest

  pub length-append : (xs ys : List A) → length (xs ++ ys) ≡ length xs + length ys
  length-append [] ys = omega arith
  length-append (x ∷ xs) ys = omega (arith, length-append xs ys)

  -- `all` as a statement about every way to cut the list at an item.
  all_split :
      (p : A → Bool) (xs pre post : List A) (y : A)
      → all p xs ≡ true
      → xs ≡ pre ++ y ∷ post
      → p y ≡ true
  all_split p [] [] post y h e = cc
  all_split p [] (z ∷ pre) post y h e = cc
  all_split p (x ∷ xs) [] post y h e = ground arith
  all_split p (x ∷ xs) (z ∷ pre) post y h e =
      all_split p xs pre post y (ground arith) (ground arith)

  split_all :
      (p : A → Bool) (xs : List A)
      → ((pre post : List A) (y : A) → xs ≡ pre ++ y ∷ post → p y ≡ true)
      → all p xs ≡ true
  split_all p [] h = refl
  split_all p (x ∷ xs) h =
      ground
        (arith, h [] xs x refl, split_all p xs (λ pre post y e. h (x ∷ pre) post y (ap (◌∷◌ x) e)))

  pub all_iff :
      (p : A → Bool) (xs : List A)
      → (all p xs ≡ true) ↔ ((pre post : List A) (y : A) → xs ≡ pre ++ y ∷ post → p y ≡ true)
  all_iff p xs = (λ h pre post y e. all_split p xs pre post y h e, split_all p xs)

  pub any-append : (p : A → Bool) (xs ys : List A) → any p (xs ++ ys) ≡ (any p xs || any p ys)
  any-append p [] ys = refl
  any-append p (x ∷ xs) ys = ground (arith, any-append p xs ys)

  abbrev pub take : ℕ → List A → List A
  take zero xs = []
  take (suc n) [] = []
  take (suc n) (x ∷ xs) = x ∷ take n xs

  abbrev pub drop : ℕ → List A → List A
  drop zero xs = xs
  drop (suc n) [] = []
  drop (suc n) (x ∷ xs) = drop n xs
