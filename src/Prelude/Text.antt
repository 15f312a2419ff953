-- ===== src/Prelude/Text.antt =====
-- Byte strings: equality, the byte-wise order, prefixes and substrings.
use Prim.Native.Char.{code}
use Prim.Native.Nat.{ℕ}
use Prim.Native.String.{String}
use mathlib.Core.Path.{◌≡◌, refl, ap}
use mathlib.Core.Logic.{◌↔◌, ◌≢◌, inl, inr}
use mathlib.Core.Bool.{Bool, true, false, ◌&&◌, ◌||◌}
use mathlib.Core.List.{List, [], ◌∷◌, ◌++◌}
use native.Mathlib.Omega.{arith}
use save.Prelude.Tests.{◌==◌, ltb, Bool-cases}

abbrev pub Bytes : Type 0
Bytes = List ℕ

-- The bytes of an ASCII literal.
abbrev pub bytes : String → Bytes
bytes String.[] = []
bytes (String.◌∷◌ c s) = code c ∷ bytes s

unfoldable pub beq : Bytes → Bytes → Bool
beq [] [] = true
beq [] (y ∷ ys) = false
beq (x ∷ xs) [] = false
beq (x ∷ xs) (y ∷ ys) = x == y && beq xs ys

pub beq_iff : (a b : Bytes) → (beq a b ≡ true) ↔ (a ≡ b)
unfolding beq
beq_iff [] [] = ground arith
beq_iff [] (y ∷ ys) = ground arith
beq_iff (x ∷ xs) [] = ground arith
beq_iff (x ∷ xs) (y ∷ ys) = ground (arith, beq_iff xs ys)

pub beq_self : (a : Bytes) → beq a a ≡ true
beq_self a = (beq_iff a a).1 refl

pub beq_ne : (a b : Bytes) → a ≢ b → beq a b ≡ false
beq_ne a b h = ground (arith, beq_iff a b)

-- The order of keys: byte by byte, a proper prefix first.
unfoldable pub blt : Bytes → Bytes → Bool
blt [] [] = false
blt [] (y ∷ ys) = true
blt (x ∷ xs) [] = false
blt (x ∷ xs) (y ∷ ys) = ltb x y || (x == y && blt xs ys)

unfoldable pub starts_with : Bytes → Bytes → Bool
starts_with xs [] = true
starts_with [] (p ∷ ps) = false
starts_with (x ∷ xs) (p ∷ ps) = x == p && starts_with xs ps

unfoldable pub ends_with : Bytes → Bytes → Bool
unfolding beq
ends_with [] p = beq [] p
ends_with (x ∷ xs) p = beq (x ∷ xs) p || ends_with xs p

unfoldable pub contains : Bytes → Bytes → Bool
unfolding starts_with
contains [] p = starts_with [] p
contains (x ∷ xs) p = starts_with (x ∷ xs) p || contains xs p

pub starts_with-append : (p xs : Bytes) → starts_with (p ++ xs) p ≡ true
unfolding starts_with
starts_with-append [] xs = refl
starts_with-append (c ∷ p) xs = ground (arith, starts_with-append p xs)

starts_with_split : (xs p : Bytes) → starts_with xs p ≡ true → (post : Bytes) × (xs ≡ p ++ post)
unfolding starts_with
starts_with_split xs [] h = (xs, refl)
starts_with_split [] (c ∷ p) h = cc
starts_with_split (x ∷ xs) (c ∷ p) h =
    let (post, e) = starts_with_split xs p (ground arith) in (post, ground arith)

pub starts_with_iff :
    (xs p : Bytes) → (starts_with xs p ≡ true) ↔ ((post : Bytes) × (xs ≡ p ++ post))
starts_with_iff xs p = (starts_with_split xs p, λ (post, e). rw e (starts_with-append p post))

ends_with_split : (xs p : Bytes) → ends_with xs p ≡ true → (pre : Bytes) × (xs ≡ pre ++ p)
unfolding ends_with
ends_with_split [] p h = ([], (beq_iff [] p).0 h)
ends_with_split (x ∷ xs) p h = elim (Bool-cases (beq (x ∷ xs) p)) [
  | inl whole ↦ ([], (beq_iff (x ∷ xs) p).0 whole)
  | inr part ↦ let (pre, e) = ends_with_split xs p (ground arith) in (x ∷ pre, ap (◌∷◌ x) e)
]

ends_with-append : (pre p : Bytes) → ends_with (pre ++ p) p ≡ true
unfolding ends_with
ends_with-append [] [] = refl
ends_with-append [] (c ∷ p) = ground (arith, beq_self (c ∷ p))
ends_with-append (x ∷ pre) p = ground (arith, ends_with-append pre p)

pub ends_with_iff : (xs p : Bytes) → (ends_with xs p ≡ true) ↔ ((pre : Bytes) × (xs ≡ pre ++ p))
ends_with_iff xs p = (ends_with_split xs p, λ (pre, e). rw e (ends_with-append pre p))

contains_split :
    (xs p : Bytes) → contains xs p ≡ true → (pre post : Bytes) × (xs ≡ pre ++ (p ++ post))
unfolding contains
contains_split [] p h = let (post, e) = starts_with_split [] p h in ([], post, e)
contains_split (x ∷ xs) p h = elim (Bool-cases (starts_with (x ∷ xs) p)) [
  | inl here ↦ let (post, e) = starts_with_split (x ∷ xs) p here in ([], post, e)
  | inr later ↦
      let (pre, post, e) = contains_split xs p (ground arith) in (x ∷ pre, post, ap (◌∷◌ x) e)
]

contains-append : (pre p post : Bytes) → contains (pre ++ (p ++ post)) p ≡ true
unfolding contains
contains-append [] [] [] = refl
contains-append [] [] (x ∷ post) = refl
contains-append [] (c ∷ p) post = ground (arith, starts_with-append (c ∷ p) post)
contains-append (x ∷ pre) p post = ground (arith, contains-append pre p post)

pub contains_iff :
    (xs p : Bytes) → (contains xs p ≡ true) ↔ ((pre post : Bytes) × (xs ≡ pre ++ (p ++ post)))
contains_iff xs p = (contains_split xs p, λ (pre, post, e). rw e (contains-append pre p post))
