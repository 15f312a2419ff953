-- ===== src/Storage/Objects/Calls.antt =====
-- A file system whose calls succeed where they can, and what runs on it without an error.
use save.Prelude.{
  Bytes, bytes, List, [], ◌∷◌, ◌++◌, Option, none, some, Bool, true, false, ◌≡◌, ◌≢◌, refl, ◌∙◌,
  arith, beq, if◌then◌else◌, subst,
}
use save.Prelude.Result.{Result, ok, err}
use save.Storage.{FilePath, IoError, StorageError, FileSystem, Io, continue, ◌>>=◌, pure, try_io}
use save.Storage.Objects.{
  TempObject, Reader, parent, write_pieces, end_of_copy, copy, write_temp_file, finish, holding,
}

module _ ⦃fs : FileSystem⦄ where
  abbrev pub Here : FilePath → fs.State → Type 0
  Here p s = (b : Bytes) × (fs.contents s p ≡ some b)

  abbrev pub Dir : FilePath → fs.State → Type 0
  Dir p s = fs.is_dir p s ≡ ok true

  -- No file stands at the path or at one of those above it.
  abbrev pub Clear : FilePath → fs.State → Type 0
  Clear p s = (r rest : FilePath) → p ≡ r ++ rest → fs.contents s r ≡ none

  -- The calls that `put_object` makes succeed where their documentation lets them: directories can be
  -- made where no file is in the way, a file can be made or moved to where its directory is there and
  -- no directory has its name, and a file that is there can be written and synced. Directories come
  -- only from `create_dir_all`, at the path and above it.
  pub record Works : Type 0 where
    pub create_dir_all :
        (p : FilePath) (s : fs.State)
        → Clear p s
        → ((fs.create_dir_all p s).0 ≡ ok tt) × Dir p (fs.create_dir_all p s).1
    pub create_dir_all_dirs :
        (p r : FilePath) (s : fs.State)
        → ((rest : FilePath) → p ≢ r ++ rest)
        → ¬ Dir r s
        → ¬ Dir r (fs.create_dir_all p s).1
    pub create :
        (p dir : FilePath) (s : fs.State)
        → parent p ≡ some dir
        → Dir dir s
        → ¬ Dir p s
        → (fs.create p s).0 ≡ ok tt
    pub create_dirs :
        (p r : FilePath) (s : fs.State) → fs.is_dir r (fs.create p s).1 ≡ fs.is_dir r s
    pub write_all :
        (p : FilePath) (b : Bytes) (s : fs.State) → Here p s → (fs.write_all p b s).0 ≡ ok tt
    pub write_all_dirs :
        (p r : FilePath) (b : Bytes) (s : fs.State)
        → fs.is_dir r (fs.write_all p b s).1 ≡ fs.is_dir r s
    pub flush : (p : FilePath) (s : fs.State) → Here p s → (fs.flush p s).0 ≡ ok tt
    pub flush_dirs : (p r : FilePath) (s : fs.State) → fs.is_dir r (fs.flush p s).1 ≡ fs.is_dir r s
    pub sync_all : (p : FilePath) (s : fs.State) → Here p s → (fs.sync_all p s).0 ≡ ok tt
    pub sync_all_dirs :
        (p r : FilePath) (s : fs.State) → fs.is_dir r (fs.sync_all p s).1 ≡ fs.is_dir r s
    pub sync_dir : (p : FilePath) (s : fs.State) → Dir p s → (fs.sync_dir p s).0 ≡ ok tt
    pub rename :
        (p q dir : FilePath) (s : fs.State)
        → Here p s
        → parent q ≡ some dir
        → Dir dir s
        → ¬ Dir q s
        → (fs.rename p q s).0 ≡ ok tt
    pub rename_dirs :
        (p q r : FilePath) (s : fs.State)
        → Here p s
        → fs.is_dir r (fs.rename p q s).1 ≡ fs.is_dir r s

  -- From a state with `P`, `m` gives a value `a` and ends in a state with `Q a`.
  abbrev pub Succeeds :
      {E A : Type 0} → (fs.State → Type 0) → Io E A → (A → fs.State → Type 0) → Type 0
  Succeeds {A = A} P m Q = (s : fs.State) → P s → (a : A) × ((m s).0 ≡ ok a) × Q a (m s).1

module _ ⦃fs : FileSystem⦄ {E A B : Type 0} where
  continue_succeeds :
      (R : A → fs.State → Type 0) (Q : B → fs.State → Type 0) (r : Result E A) (k : A → Io E B)
      (s : fs.State)
      → (a : A) × (r ≡ ok a) × R a s
      → ((a : A) → Succeeds (R a) (k a) Q)
      → (b : B) × ((continue r k s).0 ≡ ok b) × Q b (continue r k s).1
  continue_succeeds R Q (ok c) k s (a, e, h) next = next c s (subst (λ x. R x s) (ground arith) h)
  continue_succeeds R Q (err f) k s (a, e, h) next = cc

  pub then_succeeds :
      {P : fs.State → Type 0} (R : A → fs.State → Type 0) (Q : B → fs.State → Type 0) (m : Io E A)
      (k : A → Io E B)
      → Succeeds P m R
      → ((a : A) → Succeeds (R a) (k a) Q)
      → Succeeds P (m >>= k) Q
  then_succeeds R Q m k first next s p = continue_succeeds R Q (m s).0 k (m s).1 (first s p) next

pub ok_ne_err {ℓ κ} : {E : Type κ} {A : Type ℓ} {a : A} {e : E} → ok a ≢ err e
ok_ne_err h = cc

pub parent_append :
    (base : FilePath) (c : Bytes) (rest dir : FilePath)
    → parent (c ∷ rest) ≡ some dir
    → parent (base ++ c ∷ rest) ≡ some (base ++ dir)
parent_append [] c rest dir h = h
parent_append (b ∷ []) c rest dir h = rw h refl
parent_append (b ∷ b' ∷ base) c rest dir h = rw (parent_append (b' ∷ base) c rest dir h) refl

module _ ⦃fs : FileSystem⦄ where
  pub try_succeeds :
      (P Q : fs.State → Type 0) (m : Io IoError (Unit {0}))
      → ((s : fs.State) → P s → ((m s).0 ≡ ok tt) × Q (m s).1)
      → Succeeds P (try_io m) (λ _. Q)
  try_succeeds P Q m h s p = let (e, q) = h s p in (tt, rw e refl, q)

  finish_succeeds :
      (t : TempObject) (Q : fs.State → Type 0) (r : Result StorageError (Unit {0})) (s : fs.State)
      → r ≡ ok tt
      → Q s
      → (a : Unit {0}) × ((finish t r s).0 ≡ ok a) × Q (finish t r s).1
  finish_succeeds t Q (ok tt) s e q = (tt, refl, q)
  finish_succeeds t Q (err f) s e q = cc

  pub holding_succeeds :
      (t : TempObject) (P Q : fs.State → Type 0) (m : Io StorageError (Unit {0}))
      → Succeeds P m (λ _. Q)
      → Succeeds P (holding t m) (λ _. Q)
  holding_succeeds t P Q m h s p = let (u, e, q) = h s p in finish_succeeds t Q (m s).0 (m s).1 e q

-- `Rest` is a property of the state that calls on the file at `p` keep.
module _ ⦃fs : FileSystem⦄ (works : Works) (p : FilePath) (Rest : fs.State → Type 0)
    (kept : (s s' : fs.State)
      → ((r : FilePath) → r ≢ p → fs.contents s' r ≡ fs.contents s r)
      → ((r : FilePath) → fs.is_dir r s' ≡ fs.is_dir r s)
      → Rest s
      → Rest s') where
  abbrev Held : fs.State → Type 0
  Held s = Here p s × Rest s

  write_pieces_succeeds : (bs : List Bytes) → Succeeds Held (write_pieces p bs) (λ _. Held)
  unfolding write_pieces
  write_pieces_succeeds [] = λ s h. (tt, refl, h)
  write_pieces_succeeds (b ∷ bs) =
      then_succeeds (λ _. Held) (λ _. Held) (fs.write_all p b) (λ _. write_pieces p bs)
        (λ s h.
          let (old, here) = h.0 in
          let e = works.write_all p b s h.0 in
          (
            tt,
            e,
            (
              (old ++ b, fs.write_all_ok p b old s e here),
              kept s _ (λ r n. fs.write_all_other p b r s n) (λ r. works.write_all_dirs p r b s)
                  h.1,
            ),
          ))
        (λ _. write_pieces_succeeds bs)

  end_of_copy_succeeds : (f : Option IoError) → f ≡ none → Succeeds Held (end_of_copy f) (λ _. Held)
  end_of_copy_succeeds none e = λ s h. (tt, refl, h)
  end_of_copy_succeeds (some f) e = cc

  copy_succeeds :
      (reader : Reader) → reader.failure ≡ none → Succeeds Held (try_io (copy reader p)) (λ _. Held)
  copy_succeeds reader whole s h =
      let (u, e, q) =
        then_succeeds (λ _. Held) (λ _. Held) (write_pieces p reader.pieces)
          (λ _. end_of_copy reader.failure) (write_pieces_succeeds reader.pieces)
          (λ _. end_of_copy_succeeds reader.failure whole) s h in
      (u, rw e refl, q)

  sync_succeeds :
      (off : Bool) → Succeeds Held (if off then pure tt else try_io (fs.sync_all p)) (λ _. Held)
  sync_succeeds true = λ s h. (tt, refl, h)
  sync_succeeds false = try_succeeds Held Held (fs.sync_all p) (λ s h.
      let (old, here) = h.0 in
      (
        works.sync_all p s h.0,
        (
          (old, fs.sync_all_keeps p p s ∙ here),
          kept s _ (λ r n. fs.sync_all_keeps p r s) (λ r. works.sync_all_dirs p r s) h.1,
        ),
      ))

  create_succeeds :
      (dir : FilePath)
      → parent p ≡ some dir
      → Succeeds (λ s. Dir dir s × (¬ Dir p s) × Rest s) (try_io (fs.create p)) (λ _. Held)
  create_succeeds dir above = try_succeeds _ Held (fs.create p) (λ s h.
      let (there, free, rest) = h in
      let e = works.create p dir s above there free in
      (
        e,
        (
          ([], fs.create_ok p s e),
          kept s _ (λ r n. fs.create_other p r s n) (λ r. works.create_dirs p r s) rest,
        ),
      ))

  flush_succeeds : Succeeds Held (try_io (fs.flush p)) (λ _. Held)
  flush_succeeds = try_succeeds Held Held (fs.flush p) (λ s h.
      let (old, here) = h.0 in
      let e = works.flush p s h.0 in
      (
        e,
        (
          (old, fs.flush_ok p s e ∙ here),
          kept s _ (λ r n. fs.flush_other p r s n) (λ r. works.flush_dirs p r s) h.1,
        ),
      ))

  pub write_temp_file_succeeds :
      (mode : Bytes) (reader : Reader) (dir : FilePath)
      → reader.failure ≡ none
      → parent p ≡ some dir
      → Succeeds (λ s. Dir dir s × (¬ Dir p s) × Rest s) (write_temp_file mode p reader) (λ _. Held)
  write_temp_file_succeeds mode reader dir whole above =
      let End = λ (_ : Unit {0}). Held in
      then_succeeds End End (try_io (fs.create p)) _ (create_succeeds dir above) (λ _.
        then_succeeds End End (try_io (copy reader p)) _ (copy_succeeds reader whole) (λ _.
          then_succeeds End End (try_io (fs.flush p)) _ flush_succeeds
            (λ _. sync_succeeds (beq mode (bytes "none")))))
