-- ===== src/Storage.antt =====
-- crates/save-storage/src: the storage of objects in files. This file has the errors, the file
-- system that the code runs on, which is an interface, and the way a function runs on it; the
-- children have the functions.
pub mod Layout
pub mod Objects
pub mod Memory
pub mod Tree
pub mod Service
pub mod Backend
mod Examples
use save.Prelude.{
  ℕ, ◌≤◌, Bytes, List, [], ◌∷◌, ◌++◌, Option, none, some, Bool, true, ◌≡◌, ◌≢◌, length, drop,
}
use save.Prelude.Result.{Result, ok, err, map_err}
use save.Validation.{ValidationError}

-- A path by its components.
abbrev pub FilePath : Type 0
FilePath = List Bytes

-- `std::io::Error`: its kind is `NotFound` or another one.
pub data IoError : Type 0 where
  not_found other : Bytes → IoError

-- error.rs: `missing` is its `NotFound`, of a key.
pub data StorageError : Type 0 where
  io : IoError → StorageError
  missing : Bytes → StorageError
  invalid_key : ValidationError → StorageError
  invalid_path : StorageError
  quorum_not_achieved : ℕ → ℕ → StorageError
  tls : Bytes → StorageError

-- `tokio::fs`, with what its documentation says of files. `contents` is what stands in the file at
-- a path once the writes to it are done. An open file is named by the path it was opened at. `read`
-- is given the offset and the size of the buffer.
pub record FileSystem : Type 1 where
  pub State : Type 0
  pub contents : State → FilePath → Option Bytes
  pub create_dir_all : FilePath → State → Result IoError (Unit {0}) × State
  pub create : FilePath → State → Result IoError (Unit {0}) × State
  pub write_all : FilePath → Bytes → State → Result IoError (Unit {0}) × State
  pub flush : FilePath → State → Result IoError (Unit {0}) × State
  pub sync_all : FilePath → State → Result IoError (Unit {0}) × State
  pub sync_dir : FilePath → State → Result IoError (Unit {0}) × State
  pub rename : FilePath → FilePath → State → Result IoError (Unit {0}) × State
  pub remove_file : FilePath → State → Result IoError (Unit {0}) × State
  pub open_file : FilePath → State → Result IoError (Unit {0})
  pub read : FilePath → ℕ → ℕ → State → Result IoError Bytes
  pub file_length : FilePath → State → Result IoError ℕ
  pub is_dir : FilePath → State → Result IoError Bool
  pub exists : FilePath → State → Bool
  pub create_dir_all_keeps :
      (p r : FilePath) (s : State) → contents (create_dir_all p s).1 r ≡ contents s r
  pub create_ok :
      (p : FilePath) (s : State) → (create p s).0 ≡ ok tt → contents (create p s).1 p ≡ some []
  pub create_other : (p r : FilePath) (s : State) → r ≢ p → contents (create p s).1 r ≡ contents s r
  pub write_all_ok :
      (p : FilePath) (b old : Bytes) (s : State)
      → (write_all p b s).0 ≡ ok tt
      → contents s p ≡ some old
      → contents (write_all p b s).1 p ≡ some (old ++ b)
  pub write_all_other :
      (p : FilePath) (b : Bytes) (r : FilePath) (s : State)
      → r ≢ p
      → contents (write_all p b s).1 r ≡ contents s r
  pub flush_ok :
      (p : FilePath) (s : State) → (flush p s).0 ≡ ok tt → contents (flush p s).1 p ≡ contents s p
  pub flush_other : (p r : FilePath) (s : State) → r ≢ p → contents (flush p s).1 r ≡ contents s r
  pub sync_all_keeps : (p r : FilePath) (s : State) → contents (sync_all p s).1 r ≡ contents s r
  pub sync_dir_keeps : (p r : FilePath) (s : State) → contents (sync_dir p s).1 r ≡ contents s r
  pub rename_ok :
      (p q : FilePath) (s : State)
      → (rename p q s).0 ≡ ok tt
      → contents (rename p q s).1 q ≡ contents s p
  pub rename_from :
      (p q : FilePath) (s : State)
      → (rename p q s).0 ≡ ok tt
      → p ≢ q
      → contents (rename p q s).1 p ≡ none
  pub rename_found : (p q : FilePath) (s : State) → (rename p q s).0 ≡ ok tt → contents s p ≢ none
  pub rename_other :
      (p q r : FilePath) (s : State) → r ≢ p → r ≢ q → contents (rename p q s).1 r ≡ contents s r
  pub rename_err :
      (p q r : FilePath) (e : IoError) (s : State)
      → (rename p q s).0 ≡ err e
      → contents (rename p q s).1 r ≡ contents s r
  pub remove_file_ok :
      (p : FilePath) (s : State)
      → (remove_file p s).0 ≡ ok tt
      → contents (remove_file p s).1 p ≡ none
  pub remove_file_other :
      (p r : FilePath) (s : State) → r ≢ p → contents (remove_file p s).1 r ≡ contents s r
  pub remove_file_err :
      (p : FilePath) (e : IoError) (s : State)
      → (remove_file p s).0 ≡ err e
      → contents (remove_file p s).1 p ≡ contents s p
  pub open_file_ok : (p : FilePath) (s : State) → open_file p s ≡ ok tt → contents s p ≢ none
  pub open_file_not_found :
      (p : FilePath) (m : Bytes) (s : State)
      → open_file p s ≡ err (not_found m)
      → contents s p ≡ none
  pub read_prefix :
      (p : FilePath) (n size : ℕ) (s : State) (b whole : Bytes)
      → read p n size s ≡ ok b
      → contents s p ≡ some whole
      → (rest : Bytes) × (drop n whole ≡ b ++ rest) × (length b ≤ size)
  pub read_end :
      (p : FilePath) (n size : ℕ) (s : State) (whole : Bytes)
      → 1 ≤ size
      → read p n size s ≡ ok []
      → contents s p ≡ some whole
      → drop n whole ≡ []
  pub file_length_ok :
      (p : FilePath) (n : ℕ) (s : State) (whole : Bytes)
      → file_length p s ≡ ok n
      → contents s p ≡ some whole
      → n ≡ length whole
  pub exists_found : (p : FilePath) (s : State) → exists p s ≡ true → contents s p ≢ none

module _ ⦃fs : FileSystem⦄ where
  -- A function that runs on the file system and may fail with an `E`.
  abbrev pub Io : Type 0 → Type 0 → Type 0
  Io E A = fs.State → Result E A × fs.State

module _ ⦃fs : FileSystem⦄ {E A B : Type 0} where
  abbrev pub continue : Result E A → (A → Io E B) → Io E B
  continue (ok a) f s = f a s
  continue (err e) f s = (err e, s)

  infixl 5 ◌>>=◌
  abbrev pub ◌>>=◌ : Io E A → (A → Io E B) → Io E B
  ◌>>=◌ m f s = let (r, s') = m s in continue r f s'

module _ ⦃fs : FileSystem⦄ {E B : Type 0} where
  infixl 5 ◌>>◌
  abbrev pub ◌>>◌ : Io E (Unit {0}) → Io E B → Io E B
  m >> n = m >>= λ _. n

module _ ⦃fs : FileSystem⦄ {E A : Type 0} where
  abbrev pub pure : A → Io E A
  pure a s = (ok a, s)

  abbrev pub fail : E → Io E A
  fail e s = (err e, s)

  abbrev pub lift : Result E A → Io E A
  lift r s = (r, s)

module _ ⦃fs : FileSystem⦄ {E F A : Type 0} where
  -- `.map_err(f)`
  abbrev pub or_else : (E → F) → Io E A → Io F A
  or_else f m s = let (r, s') = m s in (map_err f r, s')

module _ ⦃fs : FileSystem⦄ {A : Type 0} where
  -- `?` on a call of the file system.
  abbrev pub try_io : Io IoError A → Io StorageError A
  try_io = or_else io

  abbrev pub reading : (fs.State → Result IoError A) → Io StorageError A
  reading f s = (map_err io (f s), s)
