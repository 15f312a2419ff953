-- ===== src/Storage/Memory.antt =====
-- Files in memory: a file system that meets the interface, on which the operations run.
use save.Prelude.{
  ℕ, zero, suc, ◌≤◌, Bytes, bytes, [], ◌∷◌, ◌++◌, Option, none, some, Bool, true, false, ◌≡◌, ◌≢◌,
  ◌↔◌, refl, sym, ap, ◌∙◌, subst, arith, beq, beq_iff, ◌&&◌, if◌then◌else◌, inl, inr, Bool-cases,
  Option-cases, length, take, drop,
}
use save.Prelude.Result.{Result, ok, err}
use save.Storage.{FilePath, IoError, not_found, FileSystem}

unfoldable pub path_beq : FilePath → FilePath → Bool
unfolding beq
path_beq [] [] = true
path_beq [] (d ∷ q) = false
path_beq (c ∷ p) [] = false
path_beq (c ∷ p) (d ∷ q) = beq c d && path_beq p q

pub path_beq_iff : (p q : FilePath) → (path_beq p q ≡ true) ↔ (p ≡ q)
unfolding path_beq
path_beq_iff [] [] = ground arith
path_beq_iff [] (d ∷ q) = ground arith
path_beq_iff (c ∷ p) [] = ground arith
path_beq_iff (c ∷ p) (d ∷ q) = ground (arith, beq_iff c d, path_beq_iff p q)

abbrev pub Files : Type 0
Files = FilePath → Option Bytes

abbrev pub put : FilePath → Option Bytes → Files → Files
put p b s r = if path_beq r p then b else s r

pub put_here : (p : FilePath) (b : Option Bytes) (s : Files) → put p b s p ≡ b
put_here p b s = rw ((path_beq_iff p p).1 refl) refl

pub put_other : (p r : FilePath) (b : Option Bytes) (s : Files) → r ≢ p → put p b s r ≡ s r
put_other p r b s n = elim (Bool-cases (path_beq r p)) [
  | inl e ↦ absurd (n ((path_beq_iff r p).0 e))
  | inr e ↦ rw e refl
]

abbrev no_file : IoError
no_file = not_found (bytes "No such file or directory")

-- An operation on a file that must be there.
abbrev with_file {ℓ} : {A : Type ℓ} → Option Bytes → (Bytes → A) → Result IoError A
with_file none f = err no_file
with_file (some b) f = ok (f b)

abbrev update :
    (Bytes → Option Bytes) → FilePath → Option Bytes → Files → Result IoError (Unit {0}) × Files
update f p none s = (err no_file, s)
update f p (some b) s = (ok tt, put p (f b) s)

abbrev move : FilePath → FilePath → Option Bytes → Files → Result IoError (Unit {0}) × Files
move p q none s = (err no_file, s)
move p q (some b) s = (ok tt, put q (some b) (put p none s))

abbrev unchanged : Files → Result IoError (Unit {0}) × Files
unchanged s = (ok tt, s)

pub update_ok :
    (f : Bytes → Option Bytes) (p : FilePath) (o : Option Bytes) (s : Files) (b : Bytes)
    → o ≡ some b
    → (update f p o s).1 p ≡ f b
update_ok f p none s b h = cc
update_ok f p (some c) s b h = put_here p (f c) s ∙ ap f (ground arith)

pub update_other :
    (f : Bytes → Option Bytes) (p r : FilePath) (o : Option Bytes) (s : Files)
    → r ≢ p
    → (update f p o s).1 r ≡ s r
update_other f p r none s n = refl
update_other f p r (some b) s n = put_other p r (f b) s n

update_found :
    (f : Bytes → Option Bytes) (p : FilePath) (o : Option Bytes) (s : Files)
    → (update f p o s).0 ≡ ok tt
    → o ≢ none
update_found f p none s h n = cc
update_found f p (some b) s h n = cc

pub update_err :
    (f : Bytes → Option Bytes) (p r : FilePath) (o : Option Bytes) (e : IoError) (s : Files)
    → (update f p o s).0 ≡ err e
    → (update f p o s).1 r ≡ s r
update_err f p r none e s h = refl
update_err f p r (some b) e s h = cc

pub remove_ok :
    (p : FilePath) (o : Option Bytes) (s : Files)
    → (update (λ _. none) p o s).0 ≡ ok tt
    → (update (λ _. none) p o s).1 p ≡ none
remove_ok p none s h = cc
remove_ok p (some b) s h = put_here p none s

pub move_ok :
    (p q : FilePath) (o : Option Bytes) (s : Files)
    → (move p q o s).0 ≡ ok tt
    → (move p q o s).1 q ≡ o
move_ok p q none s h = cc
move_ok p q (some b) s h = put_here q (some b) (put p none s)

pub move_from :
    (p q : FilePath) (o : Option Bytes) (s : Files)
    → (move p q o s).0 ≡ ok tt
    → p ≢ q
    → (move p q o s).1 p ≡ none
move_from p q none s h n = cc
move_from p q (some b) s h n = put_other q p (some b) (put p none s) n ∙ put_here p none s

pub move_found :
    (p q : FilePath) (o : Option Bytes) (s : Files) → (move p q o s).0 ≡ ok tt → o ≢ none
move_found p q none s h n = cc
move_found p q (some b) s h n = cc

pub move_other :
    (p q r : FilePath) (o : Option Bytes) (s : Files) → r ≢ p → r ≢ q → (move p q o s).1 r ≡ s r
move_other p q r none s a b = refl
move_other p q r (some c) s a b = put_other q r (some c) (put p none s) b ∙ put_other p r none s a

pub move_err :
    (p q r : FilePath) (o : Option Bytes) (e : IoError) (s : Files)
    → (move p q o s).0 ≡ err e
    → (move p q o s).1 r ≡ s r
move_err p q r none e s h = refl
move_err p q r (some b) e s h = cc

pub with_file_found {ℓ} :
    {A : Type ℓ} (o : Option Bytes) (f : Bytes → A) (a : A) → with_file o f ≡ ok a → o ≢ none
with_file_found none f a h n = cc
with_file_found (some b) f a h n = cc

pub with_file_missing {ℓ} :
    {A : Type ℓ} (o : Option Bytes) (f : Bytes → A) (e : IoError) → with_file o f ≡ err e → o ≡ none
with_file_missing none f e h = refl
with_file_missing (some b) f e h = cc

pub with_file_ok {ℓ} :
    {A : Type ℓ} (o : Option Bytes) (f : Bytes → A) (a : A) (b : Bytes)
    → with_file o f ≡ ok a
    → o ≡ some b
    → a ≡ f b
with_file_ok none f a b h e = cc
with_file_ok (some c) f a b h e = ground arith

abbrev exists_of : Option Bytes → Bool
exists_of none = false
exists_of (some b) = true

pub exists_of_found : (o : Option Bytes) → exists_of o ≡ true → o ≢ none
exists_of_found none h n = cc
exists_of_found (some b) h n = cc

pub take-drop : (n : ℕ) (b : Bytes) → b ≡ take n b ++ drop n b
take-drop zero b = refl
take-drop (suc n) [] = refl
take-drop (suc n) (x ∷ b) = ap (◌∷◌ x) (take-drop n b)

pub length-take : (n : ℕ) (b : Bytes) → length (take n b) ≤ n
length-take zero b = omega arith
length-take (suc n) [] = omega arith
length-take (suc n) (x ∷ b) = omega (arith, length-take n b)

pub take_none : (n : ℕ) (b : Bytes) → 1 ≤ n → take n b ≡ [] → b ≡ []
take_none n [] _ h = refl
take_none zero (x ∷ b) p h = absurd (omega arith)
take_none (suc n) (x ∷ b) p h = cc

instance abbrev pub memory_files : FileSystem
memory_files = record {
  State = Files;
  contents = λ s p. s p;
  create_dir_all = λ p s. unchanged s;
  create = λ p s. (ok tt, put p (some []) s);
  write_all = λ p b s. update (λ old. some (old ++ b)) p (s p) s;
  flush = λ p s. unchanged s;
  sync_all = λ p s. unchanged s;
  sync_dir = λ p s. unchanged s;
  rename = λ p q s. move p q (s p) s;
  remove_file = λ p s. update (λ _. none) p (s p) s;
  open_file = λ p s. with_file (s p) (λ _. tt);
  read = λ p n size s. with_file (s p) (λ b. take size (drop n b));
  file_length = λ p s. with_file (s p) length;
  is_dir = λ p s. ok true;
  exists = λ p s. exists_of (s p);
  create_dir_all_keeps = λ p r s. refl;
  create_ok = λ p s h. put_here p (some []) s;
  create_other = λ p r s n. put_other p r (some []) s n;
  write_all_ok = λ p b old s h e. update_ok (λ old. some (old ++ b)) p (s p) s old e;
  write_all_other = λ p b r s n. update_other (λ old. some (old ++ b)) p r (s p) s n;
  flush_ok = λ p s h. refl;
  flush_other = λ p r s n. refl;
  sync_all_keeps = λ p r s. refl;
  sync_dir_keeps = λ p r s. refl;
  rename_ok = λ p q s h. move_ok p q (s p) s h;
  rename_from = λ p q s h n. move_from p q (s p) s h n;
  rename_found = λ p q s h. move_found p q (s p) s h;
  rename_other = λ p q r s a b. move_other p q r (s p) s a b;
  rename_err = λ p q r e s h. move_err p q r (s p) e s h;
  remove_file_ok = λ p s h. remove_ok p (s p) s h;
  remove_file_other = λ p r s n. update_other (λ _. none) p r (s p) s n;
  remove_file_err = λ p e s h. update_err (λ _. none) p p (s p) e s h;
  open_file_ok = λ p s h. with_file_found (s p) (λ _. tt) tt h;
  open_file_not_found = λ p m s h. with_file_missing (s p) (λ _. tt) (not_found m) h;
  read_prefix = λ p n size s b whole h e.
      let here = with_file_ok (s p) (λ w. take size (drop n w)) b whole h e in
      (
        drop size (drop n whole),
        take-drop size (drop n whole)
            ∙ ap (λ (x : Bytes). x ++ drop size (drop n whole)) (sym here),
        subst (λ (x : Bytes). length x ≤ size) (sym here) (length-take size (drop n whole)),
      );
  read_end = λ p n size s whole positive h e.
      take_none size (drop n whole) positive
        (sym (with_file_ok (s p) (λ w. take size (drop n w)) [] whole h e));
  file_length_ok = λ p n s whole h e. with_file_ok (s p) length n whole h e;
  exists_found = λ p s h. exists_of_found (s p) h;
}

-- What holds of files in memory and not of every file system: a call on a file that is there
-- succeeds.
pub memory_exists : (p : FilePath) (s : Files) → s p ≢ none → memory_files.exists p s ≡ true
memory_exists p s h = elim (Option-cases (s p)) [ inl e ↦ absurd (h e) | inr (b, e) ↦ rw e refl ]

pub memory_removes :
    (p : FilePath) (s : Files) → s p ≢ none → (memory_files.remove_file p s).0 ≡ ok tt
memory_removes p s h = elim (Option-cases (s p)) [ inl e ↦ absurd (h e) | inr (b, e) ↦ rw e refl ]
