-- ===== src/Storage/Objects/Reading.antt =====
-- What the functions that read a file to its end return, and objects that are deleted.
use save.Prelude.{
  ℕ, zero, suc, ◌≤◌, ◌<◌, Bytes, [], ◌∷◌, ◌++◌, Option, none, some, ◌≡◌, ◌≢◌, ◌⊎◌, refl, sym, ap,
  ◌∙◌, arith, inl, inr, length, drop, length-append,
}
use save.Prelude.Result.{Result, ok, err, Result-cases, ok_unique, map_err_ok}
use save.Storage.{FilePath, IoError, StorageError, io, or_else, FileSystem}
use save.Storage.Layout.{object_id, object_path, object_path_from_id}
use save.Storage.Objects.{
  ObjectStorage, buffer_size, read_to_end, object_info, info_of_read, opened, open_object,
  object_error, get_object, delete_object,
}
use save.Storage.Objects.Writing.{append_assoc, append_nil}

pub drop-append : (a b : Bytes) → drop (length a) (a ++ b) ≡ b
drop-append [] b = refl
drop-append (x ∷ a) b = drop-append a b

err_unique : {E A : Type 0} {r : Result E A} {e f : E} → r ≡ err e → r ≡ err f → e ≡ f
err_unique {r = ok a} h h' = cc
err_unique {r = err x} h h' = cc

module _ ⦃fs : FileSystem⦄ (p : FilePath) (s : fs.State) (whole : Bytes)
    (here : fs.contents s p ≡ some whole) where
  -- A read at the end of `got` gives what comes next, and nothing only at the end of the file.
  pub read_next :
      (got rest b : Bytes)
      → whole ≡ got ++ rest
      → fs.read p (length got) buffer_size s ≡ ok b
      → (later : Bytes) × (rest ≡ b ++ later) × (b ≡ [] → rest ≡ [])
  read_next got rest b e h =
      let dropped = ap (drop (length got)) e ∙ drop-append got rest in
      let (later, next, short) = fs.read_prefix p (length got) buffer_size s b whole h here in
      (
        later,
        sym dropped ∙ next,
        λ n.
            sym dropped
            ∙ fs.read_end p (length got) buffer_size s whole (omega arith) (h ∙ ap ok n) here,
      )

  -- A read within the file failed with `e`.
  abbrev pub ReadFails : IoError → Type 0
  ReadFails e = (n : ℕ) × (n ≤ length whole) × (fs.read p n buffer_size s ≡ err e)

  -- With more fuel than there are bytes left the loop ends, and what it read is the whole file, or a
  -- read failed.
  pub read_to_end_lem :
      (fuel : ℕ) (got rest : Bytes)
      → whole ≡ got ++ rest
      → length rest < fuel
      → (r : Result IoError Bytes) × (read_to_end fuel p got s ≡ some r)
        × ((b : Bytes) → r ≡ ok b → b ≡ whole)
        × ((e : IoError) → r ≡ err e → ReadFails e)
  unfolding read_to_end
  read_to_end_lem zero got rest e room = absurd (omega arith)
  read_to_end_lem (suc fuel) got rest e room =
      elim (Result-cases (fs.read p (length got) buffer_size s)) [
        | inr (f, h) ↦ (
          err f,
          rw (h, read_to_end) refl,
          λ b n. cc,
          λ x n. (
            length got,
            omega (arith, ap length e, length-append got rest),
            h ∙ ap err (err_unique refl n),
          ),
        )
        | inl ([], h) ↦
            let (later, next, end) = read_next got rest [] e h in
            (
              ok got,
              rw (h, read_to_end) refl,
              λ b n.
                  ok_unique n refl
                  ∙ sym (append_nil got)
                  ∙ ap (λ (x : Bytes). got ++ x) (sym (end refl))
                  ∙ sym e,
              λ x n. cc,
            )
        | inl (c ∷ b, h) ↦
            let (later, next, end) = read_next got rest (c ∷ b) e h in
            let (r, run, right, failed) =
              read_to_end_lem fuel (got ++ c ∷ b) later
                (e ∙ ap (λ (x : Bytes). got ++ x) next ∙ append_assoc got (c ∷ b) later)
                (omega (arith, ap length next, length-append b later)) in
            (r, rw (h, read_to_end) run, right, failed)
      ]

module _ ⦃fs : FileSystem⦄ (o : ObjectStorage) (key id : Bytes) (s : fs.State) where
  path_known :
      object_id o.layout key ≡ ok id
      → object_path o.layout key ≡ ok (object_path_from_id o.layout id)
  unfolding object_path
  path_known h = rw h refl

  -- How `object_info` fails: the length or the opening of the file at `path` fails, or a read of it.
  abbrev pub InfoFails : FilePath → Bytes → Option (Result StorageError (ℕ × Bytes)) → Type 0
  InfoFails path whole m =
      (x : IoError) × (((m ≡ some (err (object_error key x))) × (fs.file_length path s ≡ err x))
        ⊎ ((m ≡ some (err (io x)))
            × ((fs.open_file path s ≡ err x)
                ⊎ ((n : ℕ) × (n ≤ length whole) × (fs.read path n buffer_size s ≡ err x)))))

  info_of_whole :
      (size : ℕ) (whole : Bytes) (r : Result IoError Bytes) (path : FilePath)
      → size ≡ length whole
      → ((b : Bytes) → r ≡ ok b → b ≡ whole)
      → ((e : IoError)
          → r ≡ err e
          → (n : ℕ) × (n ≤ length whole) × (fs.read path n buffer_size s ≡ err e))
      → {m : Option (Result StorageError (ℕ × Bytes))} → m ≡ info_of_read o.layout size (some r)
      → (m ≡ some (ok (length whole, o.layout.sha256 whole))) ⊎ InfoFails path whole m
  info_of_whole size whole (err e) path exact right failed h = inr (e, inr (h, inr (failed e refl)))
  info_of_whole size whole (ok b) path exact right failed h = inl (
      rw (h, exact)
        (ap (λ (x : Bytes). some (ok (length whole, o.layout.sha256 x))) (right b refl)))

  -- With more fuel than the object has bytes `object_info` ends: with the size of the object and the
  -- hash of the whole of it, or with the error of a call of the file system on the object that failed.
  pub object_info_lem :
      (fuel : ℕ) (whole : Bytes)
      → object_id o.layout key ≡ ok id
      → fs.contents s (object_path_from_id o.layout id) ≡ some whole
      → length whole < fuel
      → (object_info o fuel key s ≡ some (ok (length whole, o.layout.sha256 whole)))
        ⊎ InfoFails (object_path_from_id o.layout id) whole (object_info o fuel key s)
  unfolding object_info
  object_info_lem fuel whole known here room =
      let path = object_path_from_id o.layout id in
      elim (Result-cases (fs.file_length path s)) [
        | inr (e, h) ↦ inr (e, inl (rw (object_info, path_known known, h) refl, h))
        | inl (size, h) ↦ elim (Result-cases (fs.open_file path s)) [
          | inr (e, f) ↦ inr (e, inr (rw (object_info, path_known known, h, f) refl, inl f))
          | inl (u, f) ↦
              let (r, run, right, failed) =
                read_to_end_lem path s whole here fuel [] whole refl room in
              info_of_whole size whole r path (fs.file_length_ok path size s whole h here) right
                failed
                (rw (object_info, path_known known, h, f) (ap (info_of_read o.layout size) run))
        ]
      ]

  opened_lem :
      (r : Result IoError (Unit {0})) (path : FilePath)
      → r ≡ fs.open_file (object_path_from_id o.layout id) s
      → opened key (object_path_from_id o.layout id) r ≡ ok path
      → (path ≡ object_path_from_id o.layout id) × (fs.contents s path ≢ none)
  opened_lem (err e) path given h = cc
  opened_lem (ok u) path given h =
      let same = ok_unique h refl in
      (
        same,
        λ n.
            fs.open_file_ok (object_path_from_id o.layout id) s (sym given)
              (ap (fs.contents s) (sym same) ∙ n),
      )

  -- An object that `get_object` opens is there, at its own path.
  pub get_object_lem :
      (path : FilePath)
      → object_id o.layout key ≡ ok id
      → get_object o key s ≡ ok path
      → (path ≡ object_path_from_id o.layout id) × (fs.contents s path ≢ none)
  unfolding get_object
  get_object_lem path known h =
      let at : opened key (object_path_from_id o.layout id)
            (fs.open_file (object_path_from_id o.layout id) s)
          ≡ ok path =
        ap (open_object key s) (sym (path_known known)) ∙ h in
      opened_lem (fs.open_file (object_path_from_id o.layout id) s) path refl at

  abbrev delete_file : Result StorageError (Unit {0}) × fs.State
  delete_file = or_else (object_error key) (fs.remove_file (object_path_from_id o.layout id)) s

  deleted : object_id o.layout key ≡ ok id → delete_object o key s ≡ delete_file
  unfolding delete_object
  deleted known = rw (path_known known) refl

  pub delete_object_lem :
      object_id o.layout key ≡ ok id
      → (delete_object o key s).0 ≡ ok tt
      → fs.contents (delete_object o key s).1 (object_path_from_id o.layout id) ≡ none
  delete_object_lem known h =
      let same = deleted known in
      ap
        (λ (m : Result StorageError (Unit {0}) × fs.State).
          fs.contents m.1 (object_path_from_id o.layout id))
        same
      ∙ fs.remove_file_ok (object_path_from_id o.layout id) s (
          map_err_ok (object_error key) _ tt
            (ap (λ (m : Result StorageError (Unit {0}) × fs.State). m.0) (sym same) ∙ h))

module _ ⦃fs : FileSystem⦄ (o : ObjectStorage) (key id : Bytes) (s : fs.State)
    (path : FilePath) where
  -- After a deletion that succeeds the object cannot be opened.
  pub get_object-delete_object :
      object_id o.layout key ≡ ok id
      → (delete_object o key s).0 ≡ ok tt
      → get_object o key (delete_object o key s).1 ≢ ok path
  get_object-delete_object known h opens =
      let (same, there) = get_object_lem o key id (delete_object o key s).1 path known opens in
      there (ap (fs.contents (delete_object o key s).1) same ∙ delete_object_lem o key id s known h)
