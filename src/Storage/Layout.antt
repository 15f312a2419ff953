-- ===== src/Storage/Layout.antt =====
-- crates/save-storage/src/layout.rs. The hex form of the SHA-256 of a text is an argument.
use save.Prelude.{Bytes, bytes, List, [], ◌∷◌, ◌++◌, ◌≡◌, ◌≢◌, take, arith}
use save.Prelude.Result.{Result, ok, map_err, map_ok, ◌>>=◌}
use save.Validation.{validate_object_key}
use save.Storage.{FilePath, StorageError, invalid_key}

pub record StorageLayout : Type 0 where
  pub base_path : FilePath
  pub sha256 : Bytes → Bytes

unfoldable pub object_id : StorageLayout → Bytes → Result StorageError Bytes
object_id layout key = map_err invalid_key (validate_object_key key) >>= λ _. ok (layout.sha256 key)

unfoldable pub object_path_from_id : StorageLayout → Bytes → FilePath
object_path_from_id layout id = layout.base_path ++ bytes "objects" ∷ take 2 id ∷ id ∷ []

unfoldable pub object_path : StorageLayout → Bytes → Result StorageError FilePath
unfolding object_id object_path_from_id
object_path layout key = map_ok (object_path_from_id layout) (object_id layout key)

unfoldable pub temp_path_from_id : StorageLayout → Bytes → FilePath
temp_path_from_id layout id = layout.base_path ++ bytes "temp" ∷ (id ++ bytes ".tmp") ∷ []

abbrev pub objects_dir : StorageLayout → FilePath
objects_dir layout = layout.base_path ++ bytes "objects" ∷ []

abbrev pub temp_dir : StorageLayout → FilePath
temp_dir layout = layout.base_path ++ bytes "temp" ∷ []

append_cancel {ℓ} : {A : Type ℓ} (xs ys zs : List A) → xs ++ ys ≡ xs ++ zs → ys ≡ zs
append_cancel [] ys zs h = h
append_cancel (x ∷ xs) ys zs h = append_cancel xs ys zs (ground arith)

under_base : (base xs ys rest : FilePath) → base ++ xs ≡ (base ++ ys) ++ rest → xs ≡ ys ++ rest
under_base [] xs ys rest h = h
under_base (b ∷ base) xs ys rest h = under_base base xs ys rest (ground arith)

abbrev pub object_dir : StorageLayout → Bytes → FilePath
object_dir layout id = layout.base_path ++ bytes "objects" ∷ take 2 id ∷ []

-- No directory that a put makes is, or lies under, one of its two files.
module _ (layout : StorageLayout) (id : Bytes) (rest : FilePath) where
  pub temp_dir_ne-temp_path : temp_dir layout ≢ temp_path_from_id layout id ++ rest
  unfolding temp_path_from_id
  temp_dir_ne-temp_path h = let e = under_base layout.base_path _ _ rest h in ground arith

  pub temp_dir_ne-object_path : temp_dir layout ≢ object_path_from_id layout id ++ rest
  unfolding object_path_from_id
  temp_dir_ne-object_path h = let e = under_base layout.base_path _ _ rest h in ground arith

  pub object_dir_ne-temp_path : object_dir layout id ≢ temp_path_from_id layout id ++ rest
  unfolding temp_path_from_id
  object_dir_ne-temp_path h = let e = under_base layout.base_path _ _ rest h in ground arith

  pub object_dir_ne-object_path : object_dir layout id ≢ object_path_from_id layout id ++ rest
  unfolding object_path_from_id
  object_dir_ne-object_path h = let e = under_base layout.base_path _ _ rest h in ground arith

module _ (layout : StorageLayout) where
  -- The objects of two keys have one path if the hash takes the keys to one value, and only then.
  pub object_path_from_id-injective :
      (a b : Bytes) → object_path_from_id layout a ≡ object_path_from_id layout b → a ≡ b
  unfolding object_path_from_id
  object_path_from_id-injective a b h = let e = append_cancel layout.base_path _ _ h in ground arith

  -- No file of an object is a temporary file.
  pub temp_path_ne-object_path :
      (a b : Bytes) → temp_path_from_id layout a ≢ object_path_from_id layout b
  unfolding object_path_from_id temp_path_from_id
  temp_path_ne-object_path a b h = let e = append_cancel layout.base_path _ _ h in ground arith
