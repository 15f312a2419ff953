-- ===== src/Storage/Service/Streams.antt =====
-- Bodies that come and go in chunks.
use save.Prelude.{
  ℕ, zero, suc, ◌<◌, Bytes, List, [], ◌∷◌, ◌++◌, some, ◌≡◌, ◌⊎◌, refl, sym, ap, ◌∙◌, arith, inl,
  inr, length, length-append, if◌then◌else◌,
}
use save.Prelude.Result.{ok, err, Result-cases}
use save.Storage.{FilePath, IoError, FileSystem}
use save.Storage.Objects.{ObjectStorage, buffer_size, get_object}
use save.Storage.Objects.Writing.{append_assoc, append_nil}
use save.Storage.Objects.Reading.{read_next}
use save.Storage.Service.{
  ReadObjectResponse, is_empty, next_chunk, last_chunk, set_total, mark_last, read_loop,
  read_object,
}

-- The bytes of a response.
abbrev pub body_of : List ReadObjectResponse → Bytes
body_of [] = []
body_of (c ∷ chunks) = c.chunk ++ body_of chunks

body_of-append : (xs ys : List ReadObjectResponse) → body_of (xs ++ ys) ≡ body_of xs ++ body_of ys
body_of-append [] ys = refl
body_of-append (c ∷ xs) ys =
    ap (λ (b : Bytes). c.chunk ++ b) (body_of-append xs ys)
    ∙ append_assoc c.chunk (body_of xs) (body_of ys)

body_of-set_total : (n : ℕ) (xs : List ReadObjectResponse) → body_of (set_total n xs) ≡ body_of xs
unfolding set_total
body_of-set_total n [] = refl
body_of-set_total n (c ∷ xs) = refl

body_of-mark_last : (xs : List ReadObjectResponse) → body_of (mark_last xs) ≡ body_of xs
unfolding mark_last
body_of-mark_last [] = refl
body_of-mark_last (c ∷ []) = refl
body_of-mark_last (c ∷ d ∷ xs) = ap (λ (b : Bytes). c.chunk ++ b) (body_of-mark_last (d ∷ xs))

-- The loop pushes an empty chunk where there is none.
ended : List ReadObjectResponse → List ReadObjectResponse
ended chunks = if is_empty chunks then last_chunk [] ∷ [] else chunks

body_of-ended : (xs : List ReadObjectResponse) → body_of (ended xs) ≡ body_of xs
unfolding ended
body_of-ended [] = refl
body_of-ended (c ∷ xs) = refl

module _ ⦃fs : FileSystem⦄ (p : FilePath) (s : fs.State) (whole : Bytes)
    (here : fs.contents s p ≡ some whole) where
  -- With more fuel than there are bytes left the loop ends. What it read starts the file, and is all
  -- of it unless a read failed.
  read_loop_lem :
      (fuel : ℕ) (rest : Bytes) (chunks : List ReadObjectResponse)
      → whole ≡ body_of chunks ++ rest
      → length rest < fuel
      → (got : List ReadObjectResponse) × (left : Bytes) × (read_loop fuel p
            (length (body_of chunks))
            chunks
            s
          ≡ some (got, length (body_of got)))
        × (whole ≡ body_of got ++ left)
        × ((left ≡ []) ⊎ ((n : ℕ) × (e : IoError) × (fs.read p n buffer_size s ≡ err e)))
  unfolding read_loop ended
  read_loop_lem zero rest chunks e room = absurd (omega arith)
  read_loop_lem (suc fuel) rest chunks e room =
      elim (Result-cases (fs.read p (length (body_of chunks)) buffer_size s)) [
        | inr (f, h) ↦
            (chunks, rest, rw (h, read_loop) refl, e, inr (length (body_of chunks), f, h))
        | inl ([], h) ↦
            let (later, next, end) = read_next p s whole here (body_of chunks) rest [] e h in
            let same = body_of-ended chunks in
            (
              ended chunks,
              rest,
              rw (h, read_loop) (ap (λ (b : Bytes). some (ended chunks, length b)) (sym same)),
              e ∙ ap (λ (b : Bytes). b ++ rest) (sym same),
              inl (end refl),
            )
        | inl (c ∷ b, h) ↦
            let (later, next, end) = read_next p s whole here (body_of chunks) rest (c ∷ b) e h in
            let more =
              body_of-append chunks (next_chunk (c ∷ b) ∷ [])
              ∙ ap (λ (x : Bytes). body_of chunks ++ x) (append_nil (c ∷ b)) in
            let (got, left, run, split, all) =
              read_loop_lem fuel later (chunks ++ next_chunk (c ∷ b) ∷ [])
                (e
                  ∙ ap (λ (x : Bytes). body_of chunks ++ x) next
                  ∙ append_assoc (body_of chunks) (c ∷ b) later
                  ∙ ap (λ (x : Bytes). x ++ later) (sym more))
                (omega (arith, ap length next, length-append b later)) in
            (
              got,
              left,
              rw (h, read_loop)
                  (ap (λ (n : ℕ). read_loop fuel p n (chunks ++ next_chunk (c ∷ b) ∷ []) s)
                      (sym (ap length more ∙ length-append (body_of chunks) (c ∷ b)))
                    ∙ run),
              split,
              all,
            )
      ]

-- The total that a response states: it stands in the first chunk.
abbrev pub total_of : List ReadObjectResponse → ℕ
total_of [] = 0
total_of (c ∷ chunks) = c.total_size

total_of-mark_last : (xs : List ReadObjectResponse) → total_of (mark_last xs) ≡ total_of xs
unfolding mark_last
total_of-mark_last [] = refl
total_of-mark_last (c ∷ []) = refl
total_of-mark_last (c ∷ d ∷ xs) = refl

total_of-set_total :
    (xs : List ReadObjectResponse)
    → total_of (set_total (length (body_of xs)) xs) ≡ length (body_of xs)
unfolding set_total
total_of-set_total [] = refl
total_of-set_total (c ∷ xs) = refl

module _ ⦃fs : FileSystem⦄ (o : ObjectStorage) (key : Bytes) (s : fs.State) (path : FilePath)
    (whole : Bytes) where
  -- An object that opens is answered, with more fuel than it has bytes. The chunks start the object
  -- and their sizes make up the total. They are the whole object, or a read failed.
  pub read_object_lem :
      (fuel : ℕ)
      → get_object o key s ≡ ok path
      → fs.contents s path ≡ some whole
      → length whole < fuel
      → (chunks : List ReadObjectResponse) × (left : Bytes) × (read_object o fuel key s
          ≡ some (ok chunks))
        × (whole ≡ body_of chunks ++ left)
        × (total_of chunks ≡ length (body_of chunks))
        × ((left ≡ []) ⊎ ((n : ℕ) × (e : IoError) × (fs.read path n buffer_size s ≡ err e)))
  unfolding read_object mark_last
  read_object_lem fuel opens here room =
      let (got, left, run, split, all) = read_loop_lem path s whole here fuel whole [] refl room in
      let same =
        body_of-mark_last (set_total (length (body_of got)) got)
        ∙ body_of-set_total (length (body_of got)) got in
      (
        mark_last (set_total (length (body_of got)) got),
        left,
        rw (read_object, opens, run) refl,
        split ∙ ap (λ (b : Bytes). b ++ left) (sym same),
        total_of-mark_last (set_total (length (body_of got)) got)
            ∙ total_of-set_total got
            ∙ ap length (sym same),
        all,
      )
