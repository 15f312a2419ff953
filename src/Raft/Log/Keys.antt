-- ===== src/Raft/Log/Keys.antt =====
-- `index_to_key`: different indices have different keys.
use save.Prelude.{
  ℕ, zero, suc, ◌*◌, ◌/◌, ◌%◌, ◌^◌, ◌<◌, ◌≡◌, Bytes, [], ◌∷◌, arith, ap, beq, beq_iff, ◌==◌,
}
use save.Raft.Log.{be_bytes, index_to_key}

-- The numbers that k bytes can hold.
abbrev limit : ℕ → ℕ
limit zero = 1
limit (suc k) = 256 * limit k

same_number : (n m : ℕ) → n / 256 ≡ m / 256 → n % 256 ≡ m % 256 → n ≡ m
same_number n m q r = omega arith

be_bytes-injective :
    (k n m : ℕ) (xs ys : Bytes)
    → n < limit k
    → m < limit k
    → be_bytes k n xs ≡ be_bytes k m ys
    → (n ≡ m) × (xs ≡ ys)
unfolding be_bytes
be_bytes-injective zero n m xs ys h j e = (omega arith, e)
be_bytes-injective (suc k) n m xs ys h j e =
    let (q, r) =
      be_bytes-injective k (n / 256) (m / 256) (n % 256 ∷ xs) (m % 256 ∷ ys) (omega arith)
        (omega arith) e in
    (ground (arith, same_number n m), ground arith)

pub index_to_key-injective :
    (n m : ℕ) → n < 2 ^ 64 → m < 2 ^ 64 → index_to_key n ≡ index_to_key m → n ≡ m
unfolding index_to_key
index_to_key-injective n m h j e = (be_bytes-injective 8 n m [] [] h j e).0

-- The test of two keys is the test of their indices.
pub beq-index_to_key :
    (n m : ℕ) → n < 2 ^ 64 → m < 2 ^ 64 → beq (index_to_key n) (index_to_key m) ≡ (n == m)
beq-index_to_key n m h j = ground (
  arith,
  beq_iff (index_to_key n) (index_to_key m),
  index_to_key-injective n m h j,
  λ (e : n ≡ m). ap index_to_key e,
)
