-- ===== src/Storage/Service/Conflicts.antt =====
-- Two-phase writes on one node: a write by itself, two writes of one key at a time, and a prepare
-- that is sent again. All writes of one key share one temporary file.
use save.Prelude.{
  ℕ, Bytes, bytes, Option, none, some, true, ◌≡◌, ◌≢◌, ◌⊎◌, refl, sym, ap, ◌∙◌, beq, inl, inr,
}
use save.Prelude.Result.{Result, ok, err}
use save.Prelude.Dict
use save.Prelude.Dict.{lookup-insert, lookup-insert_other, lookup-remove_other}
use save.Storage.{FilePath, FileSystem}
use save.Storage.Layout.{
  object_id, object_path_from_id, temp_path_from_id, temp_path_ne-object_path,
}
use save.Storage.Objects.{TempObject, ObjectStorage, temp_of, slice}
use save.Storage.Objects.Writing.{drop_lem}
use save.Storage.Objects.Laws.{Moved, Unmoved, write_temp_object-ChangesOnly}
use save.Storage.Service.{
  PendingPrepare, Pending, ServiceError, PrepareObjectRequest, temp_id, drop_displaced,
  prepare_object, commit_prepared,
}
use save.Storage.Service.Commits.{entry, written, prepare_object_lem, commit_prepared_lem}

some_ne_none {ℓ} : {A : Type ℓ} {a : A} → some a ≢ none
some_ne_none h = cc

module _ ⦃fs : FileSystem⦄ (o : ObjectStorage) (id : Bytes) where
  abbrev temp_file : FilePath
  temp_file = temp_path_from_id o.layout id

  abbrev pub object_file : FilePath
  object_file = object_path_from_id o.layout id

  apart : temp_file ≢ object_file
  apart = temp_path_ne-object_path o.layout id id

  abbrev pub temp_of_request : PrepareObjectRequest → Bytes
  temp_of_request req = temp_id req.request_id req.key

  module _ (now : ℕ) (req : PrepareObjectRequest) (pending : Pending) (s : fs.State) (given : Bytes)
      (known : object_id o.layout req.key ≡ ok id)
      (new : Dict.lookup (temp_of_request req) pending ≡ none)
      (done : (prepare_object o now req pending s).0 ≡ ok given) where
    prepared_file : fs.contents (prepare_object o now req pending s).2 temp_file ≡ some req.body
    prepared_file =
        let (same, checked, filled, entries, files) =
          prepare_object_lem o now req pending s id given known done in
        ap (λ (s : fs.State). fs.contents s temp_file)
          (files ∙ ap (λ d. drop_displaced d (written o now req pending s id)) new)
        ∙ filled

    prepared_object :
        fs.contents (prepare_object o now req pending s).2 object_file ≡ fs.contents s object_file
    prepared_object =
        let (same, checked, filled, entries, files) =
          prepare_object_lem o now req pending s id given known done in
        ap (λ (s : fs.State). fs.contents s object_file)
          (files ∙ ap (λ d. drop_displaced d (written o now req pending s id)) new)
        ∙ write_temp_object-ChangesOnly o req.key (slice req.body) id known s object_file
            (λ e. apart (sym e))

    prepared_entry :
        Dict.lookup (temp_of_request req) (prepare_object o now req pending s).1
        ≡ some (entry o now req id)
    prepared_entry =
        let (same, checked, filled, entries, files) =
          prepare_object_lem o now req pending s id given known done in
        ap (Dict.lookup (temp_of_request req)) entries
        ∙ lookup-insert (temp_of_request req) (entry o now req id) pending

    -- A prepare that succeeds keeps the object. The commit of it makes the body the object, or keeps
    -- the object and returns an error.
    pub commit_prepared-prepare_object :
        let first = prepare_object o now req pending s in
        let second = commit_prepared o given first.1 first.2 in
        (fs.contents first.2 object_file ≡ fs.contents s object_file)
        × (((fs.contents second.2 object_file ≡ some req.body)
              × ((second.0 ≡ ok tt) ⊎ (beq o.fsync_mode (bytes "full") ≡ true)))
            ⊎ ((fs.contents second.2 object_file ≡ fs.contents s object_file)
                × (e : ServiceError) × (second.0 ≡ err e)))
    unfolding Moved Unmoved
    commit_prepared-prepare_object =
        let (same, checked, filled, entries, files) =
          prepare_object_lem o now req pending s id given known done in
        let first = prepare_object o now req pending s in
        let found = ap (λ (t : Bytes). Dict.lookup t first.1) same ∙ prepared_entry in
        let (gone, outcome) =
          commit_prepared_lem o given first.1 first.2 (entry o now req id) apart found in
        (
          prepared_object,
          elim outcome [
            | inl (unmoved, e, h) ↦
                inr (unmoved object_file (λ e. apart (sym e)) ∙ prepared_object, e, h)
            | inr ((there, here, left, others), why) ↦ inl (here ∙ prepared_file, why)
          ],
        )

  commit_prepared_keeps :
      (ta tb : Bytes) (pending : Pending) (s : fs.State)
      → tb ≢ ta
      → Dict.lookup tb (commit_prepared o ta pending s).1 ≡ Dict.lookup tb pending
  unfolding commit_prepared
  commit_prepared_keeps ta tb pending s n = lookup-remove_other tb ta pending n

  -- Of two entries for one object, a commit of the first that succeeds takes the temporary file, and
  -- the commit of the second fails.
  shared_temp :
      (ta tb : Bytes) (pa pb : PendingPrepare) (pending : Pending) (s : fs.State)
      → ta ≢ tb
      → Dict.lookup ta pending ≡ some pa
      → Dict.lookup tb pending ≡ some pb
      → pa.temp_object ≡ temp_of o.layout id
      → pb.temp_object ≡ temp_of o.layout id
      → (commit_prepared o ta pending s).0 ≡ ok tt
      → (fs.contents (commit_prepared o ta pending s).2 object_file ≡ fs.contents s temp_file)
        × ((e : ServiceError) × ((commit_prepared o tb
                (commit_prepared o ta pending s).1
                (commit_prepared o ta pending s).2).0
              ≡ err e))
  unfolding Moved Unmoved
  shared_temp ta tb pa pb pending s differ found_a found_b na nb done =
      let temp_a = ap (λ (t : TempObject). t.temp_path) na in
      let temp_b = ap (λ (t : TempObject). t.temp_path) nb in
      let final_a = ap (λ (t : TempObject). t.final_path) na in
      let final_b = ap (λ (t : TempObject). t.final_path) nb in
      let (gone_a, outcome_a) =
        commit_prepared_lem o ta pending s pa (λ e. apart (sym temp_a ∙ e ∙ final_a)) found_a in
      let third = commit_prepared o ta pending s in
      let still = commit_prepared_keeps ta tb pending s (λ e. differ (sym e)) ∙ found_b in
      let (gone_b, outcome_b) =
        commit_prepared_lem o tb third.1 third.2 pb (λ e. apart (sym temp_b ∙ e ∙ final_b)) still in
      elim outcome_a [
        | inl (unmoved, e, h) ↦ absurd (cc (h, done))
        | inr ((there, here, left, others), why) ↦ (
          ap (fs.contents third.2) (sym final_a) ∙ here ∙ ap (fs.contents s) temp_a,
          elim outcome_b [
            | inl (unmoved, e, h) ↦ (e, h)
            | inr ((there_b, here_b, left_b, others_b), why_b) ↦
                absurd (there_b (ap (fs.contents third.2) (temp_b ∙ sym temp_a) ∙ left))
          ],
        )
      ]

  module _ (now : ℕ) (a b : PrepareObjectRequest) (pending : Pending) (s : fs.State) where
    -- Both requests, one after the other.
    abbrev pub prepare_both : Result ServiceError Bytes × Pending × fs.State
    prepare_both =
        let first = prepare_object o now a pending s in prepare_object o now b first.1 first.2

    -- The commit of `ta` after both, and the commit of `tb` after that.
    abbrev pub commit_first : Bytes → Result ServiceError (Unit {0}) × Pending × fs.State
    commit_first ta = commit_prepared o ta prepare_both.1 prepare_both.2

    abbrev pub commit_second : Bytes → Bytes → Result ServiceError (Unit {0}) × Pending × fs.State
    commit_second ta tb = commit_prepared o tb (commit_first ta).1 (commit_first ta).2

    -- Two requests for one key are prepared, each under a temporary id that has no entry yet. If the
    -- commit of the first succeeds, the object is the body of the second, and the commit of the
    -- second returns an error.
    pub commit_first_swapped :
        (ta tb : Bytes)
        → object_id o.layout a.key ≡ ok id
        → object_id o.layout b.key ≡ ok id
        → (prepare_object o now a pending s).0 ≡ ok ta
        → prepare_both.0 ≡ ok tb
        → Dict.lookup (temp_of_request a) pending ≡ none
        → Dict.lookup (temp_of_request b) (prepare_object o now a pending s).1 ≡ none
        → (commit_first ta).0 ≡ ok tt
        → (fs.contents (commit_first ta).2 object_file ≡ some b.body)
          × ((e : ServiceError) × ((commit_second ta tb).0 ≡ err e))
    commit_first_swapped ta tb ka kb done_a done_b new_a new_b done =
        let first = prepare_object o now a pending s in
        let (same_a, _, _, _, _) = prepare_object_lem o now a pending s id ta ka done_a in
        let (same_b, _, _, entries, _) =
          prepare_object_lem o now b first.1 first.2 id tb kb done_b in
        let at : Pending → Bytes → Option PendingPrepare = λ d t. Dict.lookup t d in
        let found = ap (at first.1) same_a ∙ prepared_entry now a pending s ta ka new_a done_a in
        let differ : temp_of_request a ≢ temp_of_request b =
          λ e. some_ne_none (sym found ∙ ap (at first.1) (same_a ∙ e) ∙ new_b) in
        let found_a =
          ap (at prepare_both.1) same_a
          ∙ ap (λ d. at d (temp_of_request a)) entries
          ∙ lookup-insert_other (temp_of_request a) (temp_of_request b) (entry o now b id) first.1
              differ
          ∙ ap (at first.1) (sym same_a)
          ∙ found in
        let found_b =
          ap (at prepare_both.1) same_b ∙ prepared_entry now b first.1 first.2 tb kb new_b done_b in
        let (object, failed) =
          shared_temp ta tb (entry o now a id) (entry o now b id) prepare_both.1 prepare_both.2
            (λ e. differ (sym same_a ∙ e ∙ same_b)) found_a found_b refl refl done in
        (object ∙ prepared_file now b first.1 first.2 tb kb new_b done_b, failed)

    -- A request is prepared again under the temporary id of the entry that it made before, and the
    -- file system checks and removes the files that are there. Then the commit fails: the new file
    -- went away with the old entry.
    pub commit_first_repeated :
        (ta tb : Bytes)
        → object_id o.layout a.key ≡ ok id
        → object_id o.layout b.key ≡ ok id
        → (prepare_object o now a pending s).0 ≡ ok ta
        → prepare_both.0 ≡ ok tb
        → Dict.lookup (temp_of_request a) pending ≡ none
        → temp_of_request b ≡ temp_of_request a
        → ((p : FilePath) (s : fs.State) → fs.contents s p ≢ none → fs.exists p s ≡ true)
        → ((p : FilePath) (s : fs.State) → fs.contents s p ≢ none → (fs.remove_file p s).0 ≡ ok tt)
        → (e : ServiceError) × ((commit_first tb).0 ≡ err e)
    unfolding Moved Unmoved
    commit_first_repeated ta tb ka kb done_a done_b new_a again exists_all removes =
        let first = prepare_object o now a pending s in
        let (same_b, _, _, entries, files) =
          prepare_object_lem o now b first.1 first.2 id tb kb done_b in
        let at : Pending → Bytes → Option PendingPrepare = λ d t. Dict.lookup t d in
        let old = ap (at first.1) again ∙ prepared_entry now a pending s ta ka new_a done_a in
        let state = files ∙ ap (λ d. drop_displaced d (written o now b first.1 first.2 id)) old in
        let gone =
          ap (λ (s : fs.State). fs.contents s temp_file) state
          ∙ drop_lem (temp_of o.layout id) (written o now b first.1 first.2 id) refl
              (exists_all temp_file _) (removes temp_file _) in
        let found =
          ap (at prepare_both.1) same_b
          ∙ ap (λ d. at d (temp_of_request b)) entries
          ∙ lookup-insert (temp_of_request b) (entry o now b id) first.1 in
        let (left, outcome) =
          commit_prepared_lem o tb prepare_both.1 prepare_both.2 (entry o now b id) apart found in
        elim outcome [
          | inl (unmoved, e, h) ↦ (e, h)
          | inr ((there, here, away, others), why) ↦ absurd (there gone)
        ]
