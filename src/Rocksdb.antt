-- ===== src/Rocksdb.antt =====
-- RocksDB, which the program calls and does not contain: an interface of operations with the
-- behaviour that the program relies on. The loop over `prefix_iterator` and the contents as a
-- sorted association list are in the children; Memory is an instance that runs.
pub mod SortedMap
pub mod Scan
pub mod Memory
mod Examples
use save.Prelude.{Bytes, List, [], ◌∷◌, Option, none, some, Bool, ◌≡◌, ◌≢◌, ◌⊎◌}
use save.Prelude.Result.{Result, ok, err}
use SortedMap.{Entries, IsSorted, lookup, insert, insert_all, remove, seek}

-- crates/save-metadata/src/lib.rs, `column_families`.
pub data Cf : Type 0 where
  default_cf raft_log raft_state raft_snapshot : Cf

-- What an iterator yields over the entries `es`: each of them in order, until a read fails.
abbrev pub Iterates {ℓ} : {E : Type ℓ} → List (Result E (Bytes × Bytes)) → Entries → Type 0
Iterates [] [] = Unit
Iterates [] (e ∷ es) = ⊥
Iterates (err x ∷ items) es = Unit
Iterates (ok i ∷ items) [] = ⊥
Iterates (ok i ∷ items) (e ∷ es) = (i ≡ e) × Iterates items es

-- Each operation may fail. `entries` is the contents of a column family and is no operation: the
-- laws say what the operations have to do with it. A write that reports an error is done or not.
pub record Rocksdb : Type 1 where
  pub Db : Type 0
  pub Error : Type 0
  pub get : Db → Cf → Bytes → Result Error (Option Bytes)
  pub put : Db → Cf → Bytes → Bytes → Result Error (Unit {0}) × Db
  pub delete : Db → Cf → Bytes → Result Error (Unit {0}) × Db
  -- `WriteBatch` of puts into the default column family, and `write_opt`.
  pub write : Db → Entries → Result Error (Unit {0}) × Db
  pub prefix_iterator : Db → Bytes → List (Result Error (Bytes × Bytes))
  pub has_cf : Db → Cf → Bool
  pub entries : Db → Cf → Entries
  pub entries_sorted : (d : Db) (cf : Cf) → IsSorted (entries d cf)
  pub get_ok :
      (d : Db) (cf : Cf) (k : Bytes) (o : Option Bytes)
      → get d cf k ≡ ok o
      → o ≡ lookup k (entries d cf)
  pub put_ok :
      (d : Db) (cf : Cf) (k v : Bytes)
      → (put d cf k v).0 ≡ ok tt
      → entries (put d cf k v).1 cf ≡ insert k v (entries d cf)
  pub put_any :
      (d : Db) (cf : Cf) (k v : Bytes)
      → (entries (put d cf k v).1 cf ≡ insert k v (entries d cf))
        ⊎ (entries (put d cf k v).1 cf ≡ entries d cf)
  pub put_other :
      (d : Db) (cf other : Cf) (k v : Bytes)
      → cf ≢ other
      → entries (put d cf k v).1 other ≡ entries d other
  pub put_has_cf : (d : Db) (cf : Cf) (k v : Bytes) → has_cf (put d cf k v).1 ≡ has_cf d
  pub delete_ok :
      (d : Db) (cf : Cf) (k : Bytes)
      → (delete d cf k).0 ≡ ok tt
      → entries (delete d cf k).1 cf ≡ remove k (entries d cf)
  pub delete_any :
      (d : Db) (cf : Cf) (k : Bytes)
      → (entries (delete d cf k).1 cf ≡ remove k (entries d cf))
        ⊎ (entries (delete d cf k).1 cf ≡ entries d cf)
  pub delete_other :
      (d : Db) (cf other : Cf) (k : Bytes)
      → cf ≢ other
      → entries (delete d cf k).1 other ≡ entries d other
  pub delete_has_cf : (d : Db) (cf : Cf) (k : Bytes) → has_cf (delete d cf k).1 ≡ has_cf d
  pub write_ok :
      (d : Db) (batch : Entries)
      → (write d batch).0 ≡ ok tt
      → entries (write d batch).1 default_cf ≡ insert_all batch (entries d default_cf)
  pub iterator_iterates :
      (d : Db) (p : Bytes) → Iterates (prefix_iterator d p) (seek p (entries d default_cf))

-- A serialisation: bincode, serde_json. `encode` may fail; what it wrote can be read back.
pub record Codec (A : Type 0) : Type 0 where
  pub encode : A → Option Bytes
  pub decode : Bytes → Option A
  pub decode-encode : (a : A) (b : Bytes) → encode a ≡ some b → decode b ≡ some a
