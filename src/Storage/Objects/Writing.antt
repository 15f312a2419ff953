-- ===== src/Storage/Objects/Writing.antt =====
-- How the functions that write leave the file system: what a run that succeeds ensures, and which
-- files a run may change.
use save.Prelude.{
  Bytes, bytes, List, [], ◌∷◌, ◌++◌, Option, none, some, Bool, true, false, ◌≡◌, ◌≢◌, refl, sym,
  ◌∙◌, arith, beq, if◌then◌else◌, inl, inr, Option-cases, Bool-cases, not, ◌&&◌, subst,
}
use save.Prelude.Result.{Result, ok, err, map_err_ok}
use save.Storage.{FilePath, IoError, StorageError, FileSystem, Io, continue, ◌>>=◌, pure, try_io}
use save.Storage.Objects.{
  Reader, write_pieces, end_of_copy, copy, write_temp_file, drop, TempObject, finish, holding,
}

abbrev pub concat : List Bytes → Bytes
concat [] = []
concat (b ∷ bs) = b ++ concat bs

pub append_assoc : (a b c : Bytes) → a ++ (b ++ c) ≡ (a ++ b) ++ c
append_assoc [] b c = refl
append_assoc (x ∷ a) b c = rw (append_assoc a b c) refl

pub append_nil : (a : Bytes) → a ++ [] ≡ a
append_nil [] = refl
append_nil (x ∷ a) = rw (append_nil a) refl

none_ne_some {ℓ} : {A : Type ℓ} {a : A} → none ≢ some a
none_ne_some h = cc

module _ ⦃fs : FileSystem⦄ where
  -- A run of `m` from a state with `P` that gives `a` ends in a state with `Q a`.
  abbrev pub Ensures :
      {E A : Type 0} → (fs.State → Type 0) → Io E A → (A → fs.State → Type 0) → Type 0
  Ensures {A = A} P m Q = (s : fs.State) → P s → (a : A) → (m s).0 ≡ ok a → Q a (m s).1

  -- A run of `m`, whatever it gives, changes no file but the one at `p`.
  abbrev pub ChangesOnly : {E A : Type 0} → FilePath → Io E A → Type 0
  ChangesOnly p m = (s : fs.State) (r : FilePath) → r ≢ p → fs.contents (m s).1 r ≡ fs.contents s r

module _ ⦃fs : FileSystem⦄ {E A B : Type 0} where
  continue-Ensures :
      (R : A → fs.State → Type 0) (Q : B → fs.State → Type 0) (r : Result E A) (k : A → Io E B)
      (s : fs.State)
      → ((a : A) → r ≡ ok a → R a s)
      → ((a : A) → Ensures (R a) (k a) Q)
      → (b : B) → (continue r k s).0 ≡ ok b
      → Q b (continue r k s).1
  continue-Ensures R Q (ok a) k s first next b h = next a s (first a refl) b h
  continue-Ensures R Q (err e) k s first next b h = cc

  pub then-Ensures :
      {P : fs.State → Type 0} (R : A → fs.State → Type 0) (Q : B → fs.State → Type 0) (m : Io E A)
      (k : A → Io E B)
      → Ensures P m R
      → ((a : A) → Ensures (R a) (k a) Q)
      → Ensures P (m >>= k) Q
  then-Ensures R Q m k first next s p = continue-Ensures R Q (m s).0 k (m s).1 (first s p) next

  continue_keeps :
      (p : FilePath) (r : Result E A) (k : A → Io E B) (s : fs.State)
      → ((a : A) → r ≡ ok a → fs.contents (k a s).1 p ≡ fs.contents s p)
      → fs.contents (continue r k s).1 p ≡ fs.contents s p
  continue_keeps p (ok a) k s next = next a refl
  continue_keeps p (err e) k s next = refl

  -- A file is kept if each of the two functions that run keeps it.
  pub then_keeps :
      (p : FilePath) (m : Io E A) (k : A → Io E B) (s : fs.State)
      → fs.contents (m s).1 p ≡ fs.contents s p
      → ((a : A) → (m s).0 ≡ ok a → fs.contents (k a (m s).1).1 p ≡ fs.contents (m s).1 p)
      → fs.contents ((m >>= k) s).1 p ≡ fs.contents s p
  then_keeps p m k s first next = continue_keeps p (m s).0 k (m s).1 next ∙ first

  pub then-ChangesOnly :
      (p : FilePath) (m : Io E A) (k : A → Io E B)
      → ChangesOnly p m
      → ((a : A) → ChangesOnly p (k a))
      → ChangesOnly p (m >>= k)
  then-ChangesOnly p m k first next s q h =
      then_keeps q m k s (first s q h) (λ a _. next a (m s).1 q h)

module _ ⦃fs : FileSystem⦄ {A : Type 0} where
  pub try_io-Ensures :
      {P : fs.State → Type 0} (Q : A → fs.State → Type 0) (m : Io IoError A)
      → Ensures P m Q
      → Ensures P (try_io m) Q
  try_io-Ensures Q m h s p a e = h s p a (map_err_ok _ (m s).0 a e)

module _ ⦃fs : FileSystem⦄ where
  -- The file at `p` has the bytes `b`.
  abbrev pub Has : FilePath → Bytes → fs.State → Type 0
  Has p b s = fs.contents s p ≡ some b

  write_pieces-Ensures :
      (p : FilePath) (bs : List Bytes) (old : Bytes)
      → Ensures (Has p old) (write_pieces p bs) (λ _. Has p (old ++ concat bs))
  unfolding write_pieces
  write_pieces-Ensures p [] old s has a h = rw (append_nil old) has
  write_pieces-Ensures p (b ∷ bs) old s has a h = rw (append_assoc old b (concat bs)) (
      then-Ensures (λ _. Has p (old ++ b)) (λ _. Has p ((old ++ b) ++ concat bs)) (fs.write_all p b)
        (λ _. write_pieces p bs) (λ s has a h. fs.write_all_ok p b old s h has)
        (λ _. write_pieces-Ensures p bs (old ++ b)) s has a h)

  write_pieces-ChangesOnly : (p : FilePath) (bs : List Bytes) → ChangesOnly p (write_pieces p bs)
  unfolding write_pieces
  write_pieces-ChangesOnly p [] = λ s r h. refl
  write_pieces-ChangesOnly p (b ∷ bs) =
      then-ChangesOnly p (fs.write_all p b) (λ _. write_pieces p bs)
        (λ s r h. fs.write_all_other p b r s h) (λ _. write_pieces-ChangesOnly p bs)

  copy_end-Ensures :
      (P : fs.State → Type 0) (failure : Option IoError)
      → Ensures P (end_of_copy failure) (λ _ s. P s × (failure ≡ none))
  copy_end-Ensures P none s p a h = (p, refl)
  copy_end-Ensures P (some e) s p a h = cc

  copy_end-ChangesOnly :
      (p : FilePath) (failure : Option IoError) → ChangesOnly p (end_of_copy failure)
  copy_end-ChangesOnly p none = λ s r h. refl
  copy_end-ChangesOnly p (some e) = λ s r h. refl

  sync-Ensures :
      (b : Bool) (p : FilePath) (c : Bytes)
      → Ensures
          (Has p c)
          (if b then pure {E = StorageError} tt else try_io (fs.sync_all p))
          (λ _. Has p c)
  sync-Ensures true p c s has a h = has
  sync-Ensures false p c s has a h = fs.sync_all_keeps p p s ∙ has

  sync-ChangesOnly :
      (b : Bool) (p : FilePath)
      → ChangesOnly p (if b then pure {E = StorageError} tt else try_io (fs.sync_all p))
  sync-ChangesOnly true p s r h = refl
  sync-ChangesOnly false p s r h = fs.sync_all_keeps p r s

  pub write_temp_file-Ensures :
      (fsync_mode : Bytes) (p : FilePath) (reader : Reader)
      → Ensures
          (λ _. Unit {0})
          (write_temp_file fsync_mode p reader)
          (λ _ s. Has p (concat reader.pieces) s × (reader.failure ≡ none))
  write_temp_file-Ensures fsync_mode p reader =
      let whole = Has p (concat reader.pieces) in
      let End = λ (_ : Unit {0}) (s : fs.State). whole s × (reader.failure ≡ none) in
      then-Ensures (λ _. Has p []) End _ _
        (try_io-Ensures (λ _. Has p []) (fs.create p) (λ s _ a h. fs.create_ok p s h))
        (λ _.
          then-Ensures End End _ _
            (try_io-Ensures End (copy reader p) (
              then-Ensures (λ _. whole) End (write_pieces p reader.pieces) _
                (write_pieces-Ensures p reader.pieces [])
                (λ _. copy_end-Ensures whole reader.failure)))
            (λ _.
              then-Ensures End End _ _
                (try_io-Ensures End (fs.flush p)
                  (λ s (has, ended) a h. (fs.flush_ok p s h ∙ has, ended)))
                (λ _ s (has, ended) a h.
                  (sync-Ensures (beq fsync_mode (bytes "none")) p _ s has a h, ended))))

  pub write_temp_file-ChangesOnly :
      (fsync_mode : Bytes) (p : FilePath) (reader : Reader)
      → ChangesOnly p (write_temp_file fsync_mode p reader)
  write_temp_file-ChangesOnly fsync_mode p reader =
      then-ChangesOnly p (try_io (fs.create p)) _ (λ s r h. fs.create_other p r s h)
        (λ _.
          then-ChangesOnly p (try_io (copy reader p)) _
            (then-ChangesOnly p (write_pieces p reader.pieces) _
              (write_pieces-ChangesOnly p reader.pieces)
              (λ _. copy_end-ChangesOnly p reader.failure))
            (λ _.
              then-ChangesOnly p (try_io (fs.flush p)) _ (λ s r h. fs.flush_other p r s h)
                (λ _. sync-ChangesOnly (beq fsync_mode (bytes "none")) p)))

  pub drop-ChangesOnly :
      (t : TempObject) (s : fs.State) (r : FilePath)
      → r ≢ t.temp_path
      → fs.contents (drop t s) r ≡ fs.contents s r
  unfolding drop
  drop-ChangesOnly t s r h = elim (Bool-cases (not t.committed && fs.exists t.temp_path s)) [
    | inl e ↦ rw e (fs.remove_file_other t.temp_path r s h)
    | inr e ↦ rw e refl
  ]

  -- A dropped object that was not committed leaves nothing at its temporary path, or what was there.
  pub drop_lem :
      (t : TempObject) (s : fs.State)
      → t.committed ≡ false
      → (exists_all : fs.contents s t.temp_path ≢ none → fs.exists t.temp_path s ≡ true)
      → (removes : fs.contents s t.temp_path ≢ none → (fs.remove_file t.temp_path s).0 ≡ ok tt)
      → fs.contents (drop t s) t.temp_path ≡ none
  unfolding drop
  drop_lem t s fresh exists_all removes = elim (Option-cases (fs.contents s t.temp_path)) [
    | inl e ↦ elim (Bool-cases (fs.exists t.temp_path s)) [
      | inl f ↦ absurd (fs.exists_found t.temp_path s f e)
      | inr f ↦ rw (fresh, f) e
    ]
    | inr (b, e) ↦
        let found = λ (n : fs.contents s t.temp_path ≡ none). none_ne_some (sym n ∙ e) in
        rw (fresh, exists_all found) (fs.remove_file_ok t.temp_path s (removes found))
  ]

module _ ⦃fs : FileSystem⦄ {E A : Type 0} where
  finish-ok :
      (t : TempObject) (r : Result E A) (s : fs.State) (a : A)
      → (finish t r s).0 ≡ ok a
      → (r ≡ ok a) × ((finish t r s).1 ≡ s)
  finish-ok t (ok b) s a h = (h, refl)
  finish-ok t (err e) s a h = cc

  finish-ChangesOnly :
      (t : TempObject) (r : Result E A) (s : fs.State) (q : FilePath)
      → q ≢ t.temp_path
      → fs.contents (finish t r s).1 q ≡ fs.contents s q
  finish-ChangesOnly t (ok a) s q h = refl
  finish-ChangesOnly t (err e) s q h = drop-ChangesOnly t s q h

  pub holding-Ensures :
      {P : fs.State → Type 0} (Q : A → fs.State → Type 0) (t : TempObject) (m : Io E A)
      → Ensures P m Q
      → Ensures P (holding t m) Q
  holding-Ensures Q t m h s p a e =
      let (good, same) = finish-ok t (m s).0 (m s).1 a e in subst (Q a) (sym same) (h s p a good)

  pub holding-ChangesOnly :
      (t : TempObject) (m : Io E A)
      → ChangesOnly t.temp_path m
      → ChangesOnly t.temp_path (holding t m)
  holding-ChangesOnly t m h s q n = finish-ChangesOnly t (m s).0 (m s).1 q n ∙ h s q n

module _ ⦃fs : FileSystem⦄ where
  -- Dropping an object whose temporary file is gone brings no file back.
  pub drop_gone :
      (t : TempObject) (s : fs.State)
      → fs.contents s t.temp_path ≡ none
      → fs.contents (drop t s) t.temp_path ≡ none
  unfolding drop
  drop_gone t s h = elim (Bool-cases (not t.committed && fs.exists t.temp_path s)) [
    | inl e ↦ absurd (fs.exists_found t.temp_path s (ground arith) h)
    | inr e ↦ rw e h
  ]
