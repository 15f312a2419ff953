-- ===== src/Prelude/Dict.antt =====
-- A `HashMap` with texts as keys: an association list in which a key stands once.
use mathlib.Core.Path.{◌≡◌, refl}
use mathlib.Core.Logic.{◌≢◌}
use mathlib.Core.Option.{Option, none, some}
use mathlib.Core.List.{List, [], ◌∷◌}
use native.Mathlib.Omega.{arith}
use save.Prelude.Tests.{if◌then◌else◌}
use save.Prelude.Text.{Bytes, beq, beq_iff, beq_self}

abbrev pub Dict {ℓ} : Type ℓ → Type ℓ
Dict V = List (Bytes × V)

module _ {ℓ} {V : Type ℓ} where
  unfoldable pub lookup : Bytes → Dict V → Option V
  lookup k [] = none
  lookup k ((j, v) ∷ d) = if beq j k then some v else lookup k d

  unfoldable pub insert : Bytes → V → Dict V → Dict V
  insert k v [] = (k, v) ∷ []
  insert k v ((j, w) ∷ d) = if beq j k then (k, v) ∷ d else (j, w) ∷ insert k v d

  unfoldable pub remove : Bytes → Dict V → Dict V
  remove k [] = []
  remove k ((j, w) ∷ d) = let rest = remove k d in if beq j k then rest else (j, w) ∷ rest

  pub lookup-insert : (k : Bytes) (v : V) (d : Dict V) → lookup k (insert k v d) ≡ some v
  unfolding lookup insert
  lookup-insert k v [] = ground (arith, beq_self k)
  lookup-insert k v ((j, w) ∷ d) = ground (arith, beq_self k, lookup-insert k v d)

  pub lookup-insert_other :
      (j k : Bytes) (v : V) (d : Dict V) → j ≢ k → lookup j (insert k v d) ≡ lookup j d
  unfolding lookup insert
  lookup-insert_other j k v [] n = ground (arith, beq_iff k j)
  lookup-insert_other j k v ((i, w) ∷ d) n =
      ground (arith, beq_iff k j, beq_iff i j, beq_iff i k, lookup-insert_other j k v d n)

  pub lookup-remove : (k : Bytes) (d : Dict V) → lookup k (remove k d) ≡ none
  unfolding lookup remove
  lookup-remove k [] = refl
  lookup-remove k ((j, w) ∷ d) = ground (arith, lookup-remove k d)

  pub lookup-remove_other : (j k : Bytes) (d : Dict V) → j ≢ k → lookup j (remove k d) ≡ lookup j d
  unfolding lookup remove
  lookup-remove_other j k [] n = refl
  lookup-remove_other j k ((i, w) ∷ d) n =
      ground (arith, beq_iff i j, beq_iff i k, lookup-remove_other j k d n)
