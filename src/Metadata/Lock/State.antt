-- ===== src/Metadata/Lock/State.antt =====
-- A lock without a database: who holds it and how, what an attempt to take it and its release do,
-- and the invariant that makes it a lock.
use save.Prelude.{
  ◌≡◌, ◌≢◌, ◌↔◌, ◌≤◌, ◌++◌, List, [], ◌∷◌, Option, none, some, Bool, true, false, not, any, filter,
  arith, if◌then◌else◌, refl, length,
}
use save.Metadata.{LockType, write, LockHolder, LockState}
use save.Metadata.Lock.{same_holder, is_held_by, compatible}

-- The lock, its outcome for the caller, and the state that it is in afterwards.
abbrev pub LockView : Type 0
LockView = Option LockState

-- Taking a free lock; then a holder keeps what it has, a reader joins readers, and nobody else.
unfoldable pub acquired : LockView → LockType → LockHolder → LockView × Bool
acquired none t h = (some (record { lock_type = t; holders = h ∷ [] }), true)
acquired (some s) t h =
    if is_held_by s h
    then (some s, true)
    else if compatible s.lock_type t
    then (some (record s { holders = s.holders ++ h ∷ [] }), true)
    else (some s, false)

unfoldable pub of_holders : LockType → List LockHolder → LockView
of_holders t [] = none
of_holders t (h ∷ hs) = some (record { lock_type = t; holders = h ∷ hs })

unfoldable pub released : LockView → LockHolder → LockView
unfolding of_holders
released none h = none
released (some s) h = of_holders s.lock_type (filter (λ g. not (same_holder g h)) s.holders)

unfoldable pub held : LockView → LockHolder → Bool
held none h = false
held (some s) h = is_held_by s h

-- No holder is listed twice.
abbrev pub Distinct : List LockHolder → Type 0
Distinct [] = Unit
Distinct (h ∷ hs) = (any (λ g. same_holder g h) hs ≡ false) × Distinct hs

abbrev pub IsLock : LockView → Type 0
IsLock none = Unit
IsLock (some s) =
    (s.holders ≢ []) × Distinct s.holders × (s.lock_type ≡ write → length s.holders ≡ 1)

pub same_holder_iff : (h g : LockHolder) → (same_holder h g ≡ true) ↔ (h ≡ g)
unfolding same_holder
same_holder_iff h g = (λ e. ground arith, λ e. ground arith)

any-append :
    (p : LockHolder → Bool) (xs : List LockHolder) (y : LockHolder)
    → any p (xs ++ y ∷ []) ≡ (if any p xs then true else p y)
any-append p [] y = ground arith
any-append p (x ∷ xs) y = ground (arith, any-append p xs y)

Distinct-append :
    (hs : List LockHolder) (h : LockHolder)
    → Distinct hs
    → any (λ g. same_holder g h) hs ≡ false
    → Distinct (hs ++ h ∷ [])
Distinct-append [] h d n = (refl, tt)
Distinct-append (x ∷ hs) h d n = (
  ground (arith, any-append (λ g. same_holder g x) hs h, same_holder_iff h x, same_holder_iff x h),
  Distinct-append hs h d.1 (ground arith),
)

any-filter :
    (p q : LockHolder → Bool) (hs : List LockHolder)
    → any p hs ≡ false
    → any p (filter q hs) ≡ false
any-filter p q [] n = refl
any-filter p q (x ∷ hs) n = ground (arith, any-filter p q hs)

Distinct-filter :
    (q : LockHolder → Bool) (hs : List LockHolder) → Distinct hs → Distinct (filter q hs)
Distinct-filter q [] d = tt
Distinct-filter q (x ∷ hs) d =
    ground (arith, any-filter (λ g. same_holder g x) q hs d.0, Distinct-filter q hs d.1)

length-filter-le : (q : LockHolder → Bool) (hs : List LockHolder) → length (filter q hs) ≤ length hs
length-filter-le q [] = omega arith
length-filter-le q (x ∷ hs) = ground (arith, length-filter-le q hs)

nonempty_append : (hs : List LockHolder) (h : LockHolder) → hs ++ h ∷ [] ≢ []
nonempty_append [] h e = cc
nonempty_append (x ∷ hs) h e = cc

-- However a lock is asked for, it stays a lock: somebody holds it, nobody twice, and a write lock
-- has a single holder.
pub acquired-IsLock :
    (v : LockView) (t : LockType) (h : LockHolder) → IsLock v → IsLock (acquired v t h).0
unfolding acquired is_held_by compatible
acquired-IsLock none t h i = ((λ e. cc), (refl, tt), λ e. refl)
acquired-IsLock (some s) t h i =
    ground (arith, Distinct-append s.holders h i.1, nonempty_append s.holders h, i)

of_holders-IsLock :
    (t : LockType) (hs : List LockHolder)
    → Distinct hs
    → (t ≡ write → length hs ≤ 1)
    → IsLock (of_holders t hs)
unfolding of_holders
of_holders-IsLock t [] d l = tt
of_holders-IsLock t (h ∷ hs) d l = ((λ e. cc), d, λ e. omega (arith, l e))

-- So does a release.
pub released-IsLock : (v : LockView) (h : LockHolder) → IsLock v → IsLock (released v h)
unfolding released
released-IsLock none h i = tt
released-IsLock (some s) h i =
    of_holders-IsLock s.lock_type (filter (λ g. not (same_holder g h)) s.holders)
      (Distinct-filter (λ g. not (same_holder g h)) s.holders i.1)
      (λ e. omega (arith, i.2 e, length-filter-le (λ g. not (same_holder g h)) s.holders))

-- The answer says whether the caller holds the lock afterwards.
pub held-acquired :
    (v : LockView) (t : LockType) (h : LockHolder) → held (acquired v t h).0 h ≡ (acquired v t h).1
unfolding acquired held is_held_by
held-acquired none t h = ground (arith, same_holder_iff h h)
held-acquired (some s) t h =
    ground (arith, any-append (λ g. same_holder g h) s.holders h, same_holder_iff h h)
