-- ===== src/Storage/Tree.antt =====
-- Files and directories in memory: a file system on which a file can be made or moved only to where a
-- directory is. Its files are those of Memory.
use save.Prelude.{
  Bytes, bytes, [], ◌∷◌, ◌++◌, Option, none, some, Bool, true, false, not, ◌&&◌, ◌||◌, ◌≡◌, ◌≢◌,
  refl, ap, arith, beq, beq_iff, inl, inr, Bool-cases,
}
use save.Prelude.Result.{Result, ok, err}
use save.Storage.{FilePath, IoError, other, FileSystem}
use save.Storage.Memory.{Files, memory_files}
use save.Storage.Objects.{parent}
use save.Storage.Objects.Calls.{Dir, Works}

pub record Tree : Type 0 where
  pub files : Files
  pub dirs : FilePath → Bool

unfoldable pub is_prefix : FilePath → FilePath → Bool
is_prefix [] p = true
is_prefix (c ∷ r) [] = false
is_prefix (c ∷ r) (d ∷ p) = beq c d && is_prefix r p

prefix_self : (p : FilePath) → is_prefix p p ≡ true
unfolding is_prefix
prefix_self [] = refl
prefix_self (c ∷ p) = ground (arith, beq_iff c c, prefix_self p)

prefix_rest : (r p : FilePath) → is_prefix r p ≡ true → (rest : FilePath) × (p ≡ r ++ rest)
unfolding is_prefix
prefix_rest [] p h = (p, refl)
prefix_rest (c ∷ r) [] h = absurd (ground arith)
prefix_rest (c ∷ r) (d ∷ p) h =
    let (rest, e) = prefix_rest r p (ground arith) in (rest, ground (arith, beq_iff c d, e))

-- A call that is refused where the guard is false.
abbrev guarded : Bool → Result IoError (Unit {0}) × Files → Tree → Result IoError (Unit {0}) × Tree
guarded false m t = (err (other (bytes "Not a directory")), t)
guarded true (r, f) t = (r, record t { files = f })

pub guarded_ok :
    (P : Files → Type 0) (g : Bool) (m : Result IoError (Unit {0}) × Files) (t : Tree)
    → (m.0 ≡ ok tt → P m.1)
    → (guarded g m t).0 ≡ ok tt
    → P (guarded g m t).1.files
guarded_ok P false m t p h = cc
guarded_ok P true m t p h = p h

pub guarded_any :
    (P : Files → Type 0) (g : Bool) (m : Result IoError (Unit {0}) × Files) (t : Tree)
    → P t.files
    → P m.1
    → P (guarded g m t).1.files
guarded_any P false m t p q = p
guarded_any P true m t p q = q

pub guarded_err :
    (P : Files → Type 0) (g : Bool) (m : Result IoError (Unit {0}) × Files) (t : Tree) (e : IoError)
    → P t.files
    → (m.0 ≡ err e → P m.1)
    → (guarded g m t).0 ≡ err e
    → P (guarded g m t).1.files
guarded_err P false m t e p q h = p
guarded_err P true m t e p q h = q h

pub guarded_found :
    (P : Type 0) (g : Bool) (m : Result IoError (Unit {0}) × Files) (t : Tree)
    → (m.0 ≡ ok tt → P)
    → (guarded g m t).0 ≡ ok tt
    → P
guarded_found P false m t p h = cc
guarded_found P true m t p h = p h

guarded_dirs :
    (g : Bool) (m : Result IoError (Unit {0}) × Files) (t : Tree) → (guarded g m t).1.dirs ≡ t.dirs
guarded_dirs false m t = refl
guarded_dirs true m t = refl

-- A file can be made at `p`: its directory is there, and `p` is none.
abbrev free_in : Option FilePath → FilePath → Tree → Bool
free_in none p t = false
free_in (some dir) p t = t.dirs dir && not (t.dirs p)

abbrev free : FilePath → Tree → Bool
free p t = free_in (parent p) p t

abbrev on_files :
    (Files → Result IoError (Unit {0}) × Files) → Tree → Result IoError (Unit {0}) × Tree
on_files f t = let (r, s) = f t.files in (r, record t { files = s })

abbrev pub tree_files : FileSystem
tree_files = record {
  State = Tree;
  contents = λ t p. t.files p;
  create_dir_all = λ p t. (ok tt, record t { dirs = λ r. is_prefix r p || t.dirs r });
  create = λ p t. guarded (free p t) (memory_files.create p t.files) t;
  write_all = λ p b. on_files (memory_files.write_all p b);
  flush = λ p. on_files (memory_files.flush p);
  sync_all = λ p. on_files (memory_files.sync_all p);
  sync_dir = λ p t. guarded (t.dirs p) (memory_files.sync_dir p t.files) t;
  rename = λ p q t. guarded (free q t) (memory_files.rename p q t.files) t;
  remove_file = λ p. on_files (memory_files.remove_file p);
  open_file = λ p t. memory_files.open_file p t.files;
  read = λ p n size t. memory_files.read p n size t.files;
  file_length = λ p t. memory_files.file_length p t.files;
  is_dir = λ p t. ok (t.dirs p);
  exists = λ p t. memory_files.exists p t.files;
  create_dir_all_keeps = λ p r t. refl;
  create_ok = λ p t h.
      guarded_ok (λ s. s p ≡ some []) (free p t) (memory_files.create p t.files) t
        (memory_files.create_ok p t.files) h;
  create_other = λ p r t n.
      guarded_any (λ s. s r ≡ t.files r) (free p t) (memory_files.create p t.files) t refl
        (memory_files.create_other p r t.files n);
  write_all_ok = λ p b old t h e. memory_files.write_all_ok p b old t.files h e;
  write_all_other = λ p b r t n. memory_files.write_all_other p b r t.files n;
  flush_ok = λ p t h. refl;
  flush_other = λ p r t n. refl;
  sync_all_keeps = λ p r t. refl;
  sync_dir_keeps = λ p r t.
      guarded_any (λ s. s r ≡ t.files r) (t.dirs p) (memory_files.sync_dir p t.files) t refl refl;
  rename_ok = λ p q t h.
      guarded_ok (λ s. s q ≡ t.files p) (free q t) (memory_files.rename p q t.files) t
        (memory_files.rename_ok p q t.files) h;
  rename_from = λ p q t h n.
      guarded_ok (λ s. s p ≡ none) (free q t) (memory_files.rename p q t.files) t
        (λ e. memory_files.rename_from p q t.files e n) h;
  rename_found = λ p q t h.
      guarded_found (t.files p ≢ none) (free q t) (memory_files.rename p q t.files) t
        (memory_files.rename_found p q t.files) h;
  rename_other = λ p q r t a b.
      guarded_any (λ s. s r ≡ t.files r) (free q t) (memory_files.rename p q t.files) t refl
        (memory_files.rename_other p q r t.files a b);
  rename_err = λ p q r e t h.
      guarded_err (λ s. s r ≡ t.files r) (free q t) (memory_files.rename p q t.files) t e refl
        (memory_files.rename_err p q r e t.files) h;
  remove_file_ok = λ p t h. memory_files.remove_file_ok p t.files h;
  remove_file_other = λ p r t n. memory_files.remove_file_other p r t.files n;
  remove_file_err = λ p e t h. memory_files.remove_file_err p e t.files h;
  open_file_ok = λ p t h. memory_files.open_file_ok p t.files h;
  open_file_not_found = λ p m t h. memory_files.open_file_not_found p m t.files h;
  read_prefix = λ p n size t b whole h e. memory_files.read_prefix p n size t.files b whole h e;
  read_end =
      λ p n size t whole positive h e. memory_files.read_end p n size t.files whole positive h e;
  file_length_ok = λ p n t whole h e. memory_files.file_length_ok p n t.files whole h e;
  exists_found = λ p t h. memory_files.exists_found p t.files h;
}

free_there :
    (p dir : FilePath) (t : Tree)
    → parent p ≡ some dir
    → Dir ⦃fs = tree_files⦄ dir t
    → ¬ Dir ⦃fs = tree_files⦄ p t
    → free p t ≡ true
free_there p dir t e there none_there = elim (Bool-cases (t.dirs p)) [
  | inl d ↦ absurd (none_there (ap ok d))
  | inr d ↦ rw e (ground (arith, there, d))
]

moved :
    (p q : FilePath) (s : Files) (b : Bytes) → s p ≡ some b → (memory_files.rename p q s).0 ≡ ok tt
moved p q s b h = rw h refl

pub tree_works : Works ⦃fs = tree_files⦄
tree_works = record {
  create_dir_all = λ p t clear. (refl, ground (arith, prefix_self p));
  create_dir_all_dirs = λ p r t apart bare d. elim (Bool-cases (is_prefix r p)) [
    | inl e ↦ let (rest, g) = prefix_rest r p e in apart rest g
    | inr e ↦ bare (ground (arith, e, d))
  ];
  create = λ p dir t e there bare. rw (free_there p dir t e there bare) refl;
  create_dirs = λ p r t. ap (λ (d : FilePath → Bool). ok (d r)) (guarded_dirs (free p t) _ t);
  write_all = λ p b t h. rw h.1 refl;
  write_all_dirs = λ p r b t. refl;
  flush = λ p t h. refl;
  flush_dirs = λ p r t. refl;
  sync_all = λ p t h. refl;
  sync_all_dirs = λ p r t. refl;
  sync_dir = λ p t h. ground (arith, h);
  rename =
      λ p q dir t h e there bare. rw (free_there q dir t e there bare) (moved p q t.files h.0 h.1);
  rename_dirs = λ p q r t h. ap (λ (d : FilePath → Bool). ok (d r)) (guarded_dirs (free q t) _ t);
}
