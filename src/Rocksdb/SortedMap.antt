-- ===== src/Rocksdb/SortedMap.antt =====
-- Key-value entries in key order, as RocksDB keeps and iterates them.
use save.Prelude.{
  Bytes, List, [], ◌∷◌, Option, none, some, true, false, ◌≡◌, refl, arith, beq, beq_iff, blt,
  if◌then◌else◌,
}

abbrev pub Entries : Type 0
Entries = List (Bytes × Bytes)

unfoldable pub lookup : Bytes → Entries → Option Bytes
lookup k [] = none
lookup k ((j, v) ∷ m) = if beq j k then some v else lookup k m

unfoldable pub insert : Bytes → Bytes → Entries → Entries
insert k v [] = (k, v) ∷ []
insert k v ((j, w) ∷ m) =
    if beq k j then (k, v) ∷ m else if blt k j then (k, v) ∷ (j, w) ∷ m else (j, w) ∷ insert k v m

unfoldable pub remove : Bytes → Entries → Entries
remove k [] = []
remove k ((j, w) ∷ m) = let rest = remove k m in if beq j k then rest else (j, w) ∷ rest

unfoldable pub insert_all : Entries → Entries → Entries
unfolding insert
insert_all [] m = m
insert_all ((k, v) ∷ batch) m = insert_all batch (insert k v m)

-- The entries from the first key that is not below `p` on.
unfoldable pub seek : Bytes → Entries → Entries
seek p [] = []
seek p ((j, w) ∷ m) = if blt j p then seek p m else (j, w) ∷ m

abbrev pub Above : Bytes → Entries → Type 0
Above k [] = Unit
Above k ((j, w) ∷ m) = (blt k j ≡ true) × Above k m

abbrev pub IsSorted : Entries → Type 0
IsSorted [] = Unit
IsSorted ((j, w) ∷ m) = Above j m × IsSorted m

pub lookup-insert :
    (k j v : Bytes) (m : Entries)
    → lookup j (insert k v m) ≡ (if beq k j then some v else lookup j m)
unfolding lookup insert
lookup-insert k j v [] = refl
lookup-insert k j v ((i, w) ∷ m) =
    ground (arith, beq_iff k j, beq_iff k i, beq_iff i j, lookup-insert k j v m)

pub lookup-remove :
    (k j : Bytes) (m : Entries) → lookup j (remove k m) ≡ (if beq k j then none else lookup j m)
unfolding lookup remove
lookup-remove k j [] = ground arith
lookup-remove k j ((i, w) ∷ m) =
    ground (arith, beq_iff k j, beq_iff i k, beq_iff i j, lookup-remove k j m)

pub blt_trans : (a b c : Bytes) → blt a b ≡ true → blt b c ≡ true → blt a c ≡ true
unfolding blt
blt_trans [] [] c h k = cc
blt_trans [] (y ∷ b) [] h k = cc
blt_trans [] (y ∷ b) (z ∷ c) h k = refl
blt_trans (x ∷ a) [] c h k = cc
blt_trans (x ∷ a) (y ∷ b) [] h k = cc
blt_trans (x ∷ a) (y ∷ b) (z ∷ c) h k = ground (arith, blt_trans a b c)

-- Of two different keys that are not in order the other way round is.
pub blt_total : (a b : Bytes) → blt a b ≡ false → beq a b ≡ false → blt b a ≡ true
unfolding blt beq
blt_total [] [] h k = cc
blt_total [] (y ∷ b) h k = cc
blt_total (x ∷ a) [] h k = refl
blt_total (x ∷ a) (y ∷ b) h k = ground (arith, blt_total a b)

Above-trans : (k j : Bytes) (m : Entries) → blt k j ≡ true → Above j m → Above k m
Above-trans k j [] h s = tt
Above-trans k j ((i, w) ∷ m) h s = (blt_trans k j i h s.0, Above-trans k j m h s.1)

Above-insert : (b k v : Bytes) (m : Entries) → blt b k ≡ true → Above b m → Above b (insert k v m)
unfolding insert
Above-insert b k v [] h s = (h, tt)
Above-insert b k v ((j, w) ∷ m) h s = ground (arith, Above-insert b k v m h s.1)

pub insert-IsSorted : (k v : Bytes) (m : Entries) → IsSorted m → IsSorted (insert k v m)
unfolding insert
insert-IsSorted k v [] s = (tt, tt)
insert-IsSorted k v ((j, w) ∷ m) s = ground (
  arith,
  beq_iff k j,
  blt_total k j,
  Above-trans k j m,
  Above-insert j k v m,
  insert-IsSorted k v m s.1,
)

Above-remove : (b k : Bytes) (m : Entries) → Above b m → Above b (remove k m)
unfolding remove
Above-remove b k [] s = tt
Above-remove b k ((j, w) ∷ m) s = ground (arith, Above-remove b k m s.1)

pub remove-IsSorted : (k : Bytes) (m : Entries) → IsSorted m → IsSorted (remove k m)
unfolding remove
remove-IsSorted k [] s = tt
remove-IsSorted k ((j, w) ∷ m) s = ground (arith, Above-remove j k m s.0, remove-IsSorted k m s.1)

pub insert_all-IsSorted : (b m : Entries) → IsSorted m → IsSorted (insert_all b m)
unfolding insert_all
insert_all-IsSorted [] m s = s
insert_all-IsSorted ((k, v) ∷ b) m s =
    insert_all-IsSorted b (insert k v m) (insert-IsSorted k v m s)
