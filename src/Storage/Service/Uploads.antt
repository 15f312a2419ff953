-- ===== src/Storage/Service/Uploads.antt =====
-- What a streamed prepare leaves behind.
use save.Prelude.{
  ℕ, Bytes, List, [], ◌∷◌, ◌++◌, Option, none, some, Bool, true, false, ◌≡◌, refl, sym, ap, ◌∙◌,
  beq, if◌then◌else◌,
}
use save.Prelude.Result.{Result, ok, err, ok_unique, map_err_ok}
use save.Prelude.Dict
use save.Prelude.Dict.{lookup-insert}
use save.Storage.{StorageError, FileSystem, Io, or_else, pure, lift}
use save.Storage.Layout.{object_id, temp_path_from_id}
use save.Storage.Objects.{TempObject, ObjectStorage, temp_of, create_temp_object, holding}
use save.Storage.Objects.Writing.{
  Ensures, Has, append_assoc, append_nil, then-Ensures, holding-Ensures,
}
use save.Storage.Objects.Laws.{IsTempOf, create_temp_object-Ensures}
use save.Storage.Service.{
  PendingPrepare, Pending, ServiceError, missing_key, temp_file_failed, write_failed, flush_failed,
  PrepareChunkRequest, temp_id, verify_checksum, write_chunk, write_chunks, fill_temp_object,
  fill_or_fail, answer_stream, drop_displaced, insert_pending, stream_prepare_object,
}

-- The bytes of the chunks of a request, in order.
abbrev pub body_of : List PrepareChunkRequest → Bytes
body_of [] = []
body_of (c ∷ chunks) = c.chunk ++ body_of chunks

module _ ⦃fs : FileSystem⦄ where
  or_else-Ensures :
      {E F A : Type 0} {P : fs.State → Type 0} (Q : A → fs.State → Type 0) (f : E → F) (m : Io E A)
      → Ensures P m Q
      → Ensures P (or_else f m) Q
  or_else-Ensures Q f m h s p a e = h s p a (map_err_ok f (m s).0 a e)

  write_chunk-Ensures :
      (t : TempObject) (b old : Bytes)
      → Ensures (Has t.temp_path old) (write_chunk t b) (λ _. Has t.temp_path (old ++ b))
  write_chunk-Ensures t [] old = λ s has u h. has ∙ ap some (sym (append_nil old))
  write_chunk-Ensures t (c ∷ b) old =
      or_else-Ensures (λ _. Has t.temp_path (old ++ c ∷ b)) write_failed
        (fs.write_all t.temp_path (c ∷ b))
        (λ s has u h. fs.write_all_ok t.temp_path (c ∷ b) old s h has)

  write_chunks-Ensures :
      (t : TempObject) (chunks : List PrepareChunkRequest) (old expected : Bytes)
      → Ensures
          (Has t.temp_path old)
          (write_chunks t chunks old expected)
          (λ r s. Has t.temp_path (old ++ body_of chunks) s × (r.0 ≡ old ++ body_of chunks))
  unfolding write_chunks
  write_chunks-Ensures t [] old expected = λ s has r h.
      let same = ap (λ (x : Bytes × Bytes). x.0) (ok_unique h refl) in
      (has ∙ ap some (sym (append_nil old)), same ∙ sym (append_nil old))
  write_chunks-Ensures t (c ∷ chunks) old expected =
      let whole = append_assoc old c.chunk (body_of chunks) in
      let End = λ (r : Bytes × Bytes) (s : fs.State).
        Has t.temp_path (old ++ body_of (c ∷ chunks)) s × (r.0 ≡ old ++ body_of (c ∷ chunks)) in
      then-Ensures (λ _. Has t.temp_path (old ++ c.chunk)) End (write_chunk t c.chunk) _
        (write_chunk-Ensures t c.chunk old)
        (λ _ s has r h.
          let (filled, hashed) = write_chunks-Ensures t chunks (old ++ c.chunk) _ s has r h in
          (filled ∙ ap some (sym whole), hashed ∙ sym whole))

  -- A temporary file that is filled has all the chunks, with the checksum that was expected of them.
  fill_temp_object-Ensures :
      (o : ObjectStorage) (t : TempObject) (chunks : List PrepareChunkRequest)
      → Ensures
          (λ _. Unit {0})
          (fill_temp_object o t chunks)
          (λ expected s.
            Has t.temp_path (body_of chunks) s
            × (verify_checksum o.layout.sha256 expected (body_of chunks) ≡ ok tt))
  fill_temp_object-Ensures o t chunks =
      let End = λ (expected : Bytes) (s : fs.State).
        Has t.temp_path (body_of chunks) s
        × (verify_checksum o.layout.sha256 expected (body_of chunks) ≡ ok tt) in
      let Got = λ (r : Bytes × Bytes) (s : fs.State).
        Has t.temp_path (body_of chunks) s × (r.0 ≡ body_of chunks) in
      then-Ensures (λ _. Has t.temp_path []) End (or_else temp_file_failed (fs.create t.temp_path))
        _
        (or_else-Ensures (λ _. Has t.temp_path []) temp_file_failed (fs.create t.temp_path)
          (λ s _ u h. fs.create_ok t.temp_path s h))
        (λ _.
          then-Ensures Got End (write_chunks t chunks [] []) _ (write_chunks-Ensures t chunks [] [])
            (λ r.
              then-Ensures (λ _. Got r) End (or_else flush_failed (fs.flush t.temp_path)) _
                (or_else-Ensures (λ _. Got r) flush_failed (fs.flush t.temp_path)
                  (λ s (has, same) u h. (fs.flush_ok t.temp_path s h ∙ has, same)))
                (λ _.
                  then-Ensures (λ _ s. Got r s × (verify_checksum o.layout.sha256 r.1 r.0 ≡ ok tt))
                    End (lift (verify_checksum o.layout.sha256 r.1 r.0)) (λ _. pure r.1)
                    (λ s got u h. (got, h))
                    (λ _ s ((has, same), good) e h. (
                      has,
                      ap (λ (x : Bytes). verify_checksum o.layout.sha256 x (body_of chunks))
                            (ok_unique h refl)
                          ∙ ap (verify_checksum o.layout.sha256 r.1) (sym same)
                          ∙ good,
                    )))))

module _ ⦃fs : FileSystem⦄ (o : ObjectStorage) (now : ℕ) (c : PrepareChunkRequest)
    (chunks : List PrepareChunkRequest) (pending : Pending) (id : Bytes) where
  -- What a streamed prepare that gives `given` has made.
  abbrev Uploaded : Bytes → Pending × fs.State → Type 0
  Uploaded given end =
      (given ≡ temp_id c.request_id c.key)
      × ((expected : Bytes) × (verify_checksum o.layout.sha256 expected (body_of (c ∷ chunks))
            ≡ ok tt)
          × (fs.contents end.1 (temp_path_from_id o.layout id) ≡ some (body_of (c ∷ chunks)))
          × (Dict.lookup given end.0
              ≡ some (record {
                temp_object = temp_of o.layout id;
                checksum = expected;
                created_at = now;
              })))

  filled :
      (t : TempObject) (r : Result ServiceError Bytes) (s : fs.State) (given : Bytes)
      → t ≡ temp_of o.layout id
      → Dict.lookup (temp_id c.request_id c.key) pending ≡ none
      → ((expected : Bytes)
          → r ≡ ok expected
          → Has t.temp_path (body_of (c ∷ chunks)) s
            × (verify_checksum o.layout.sha256 expected (body_of (c ∷ chunks)) ≡ ok tt))
      → (answer_stream (temp_id c.request_id c.key) now t r pending s).0 ≡ ok given
      → let end = answer_stream (temp_id c.request_id c.key) now t r pending s in
        Uploaded given (end.1, end.2)
  unfolding insert_pending
  filled t (err e) s given named new good h = cc
  filled t (ok expected) s given named new good h =
      let (has, right) = good expected refl in
      let same = ok_unique h refl in
      let path = ap (λ (t : TempObject). t.temp_path) named in
      let here = temp_id c.request_id c.key in
      let made : TempObject → PendingPrepare =
        λ t. record { temp_object = t; checksum = expected; created_at = now } in
      (
        same,
        (
          expected,
          right,
          ap
                (λ (d : Option PendingPrepare).
                  fs.contents (drop_displaced d s) (temp_path_from_id o.layout id))
                new
              ∙ ap (fs.contents s) (sym path)
              ∙ has,
          ap (λ (k : Bytes). Dict.lookup k (Dict.insert here (made t) pending)) same
              ∙ lookup-insert here (made t) pending
              ∙ ap (λ (t : TempObject). some (made t)) named,
        ),
      )

  uploaded :
      (r : Result StorageError TempObject) (s : fs.State) (given : Bytes)
      → ((t : TempObject) → r ≡ ok t → t ≡ temp_of o.layout id)
      → Dict.lookup (temp_id c.request_id c.key) pending ≡ none
      → (fill_or_fail o now c chunks r pending s).0 ≡ ok given
      → let end = fill_or_fail o now c chunks r pending s in Uploaded given (end.1, end.2)
  uploaded (err e) s given named new h = cc
  uploaded (ok t) s given named new h =
      let fill = fill_temp_object o t (c ∷ chunks) in
      let End = λ (expected : Bytes) (s : fs.State).
        Has t.temp_path (body_of (c ∷ chunks)) s
        × (verify_checksum o.layout.sha256 expected (body_of (c ∷ chunks)) ≡ ok tt) in
      filled t (holding t fill s).0 (holding t fill s).1 given (named t refl) new
        (λ expected e.
          holding-Ensures End t fill (fill_temp_object-Ensures o t (c ∷ chunks)) s tt expected e)
        h

  chosen :
      (given : Bytes) (b : Bool) (x y : Result ServiceError Bytes × Pending × fs.State)
      → (x.0 ≡ ok given → ⊥)
      → (y.0 ≡ ok given → Uploaded given (y.1, y.2))
      → (if b then x else y).0 ≡ ok given
      → Uploaded given ((if b then x else y).1, (if b then x else y).2)
  chosen given true x y never next h = absurd (never h)
  chosen given false x y never next h = next h

  -- A streamed prepare that succeeds, under a temporary id that has no entry yet, leaves the chunks
  -- in order in the temporary file of the key and an entry for it. They had the checksum expected.
  pub stream_prepare_object_lem :
      (s : fs.State) (given : Bytes)
      → object_id o.layout c.key ≡ ok id
      → Dict.lookup (temp_id c.request_id c.key) pending ≡ none
      → (stream_prepare_object o now (c ∷ chunks) pending s).0 ≡ ok given
      → let end = stream_prepare_object o now (c ∷ chunks) pending s in
        Uploaded given (end.1, end.2)
  unfolding stream_prepare_object IsTempOf
  stream_prepare_object_lem s given known new h =
      let (r, s') = create_temp_object o c.key s in
      chosen given (beq c.key []) (err missing_key, pending, s)
        (fill_or_fail o now c chunks r pending s') (λ h. cc)
        (uploaded r s' given
          (λ t e.
            let (id', known', named) = create_temp_object-Ensures o c.key s tt t e in
            named ∙ ap (temp_of o.layout) (ok_unique known' known))
          new)
        h
