-- ===== src/Rocksdb/Memory.antt =====
-- An instance of the interface that runs, for tests and witnesses: the database is its history of
-- writes, the newest first. A key for which `fails` holds can be neither read nor written.
use save.Prelude.{
  Bytes, List, [], ◌∷◌, Bool, true, false, ◌≡◌, refl, ◌≢◌, ◌⊎◌, inl, inr, arith, map, any,
  if◌then◌else◌, Bool-cases, Option,
}
use save.Prelude.Result.{Result, ok, err}
use save.Rocksdb.{Rocksdb, Cf, default_cf, raft_log, raft_state, raft_snapshot, Iterates}
use save.Rocksdb.SortedMap.{
  Entries, IsSorted, lookup, insert, insert_all, remove, seek, insert-IsSorted, remove-IsSorted,
}

pub data Write : Type 0 where
  put_w : Cf → Bytes → Bytes → Write
  delete_w : Cf → Bytes → Write

unfoldable pub same_cf : Cf → Cf → Bool
same_cf default_cf default_cf = true
same_cf raft_log raft_log = true
same_cf raft_state raft_state = true
same_cf raft_snapshot raft_snapshot = true
same_cf _ _ = false

same_cf_self : (c : Cf) → same_cf c c ≡ true
unfolding same_cf
same_cf_self default_cf = refl
same_cf_self raft_log = refl
same_cf_self raft_state = refl
same_cf_self raft_snapshot = refl

same_cf_ne : (b c : Cf) → b ≢ c → same_cf b c ≡ false
unfolding same_cf
same_cf_ne b c h = ground arith

unfoldable pub contents : List Write → Cf → Entries
unfolding same_cf insert remove lookup
contents [] c = []
contents (put_w b k v ∷ d) c =
    let rest = contents d c in if same_cf b c then insert k v rest else rest
contents (delete_w b k ∷ d) c =
    let rest = contents d c in if same_cf b c then remove k rest else rest

pub contents-IsSorted : (d : List Write) (c : Cf) → IsSorted (contents d c)
unfolding contents
contents-IsSorted [] c = tt
contents-IsSorted (put_w b k v ∷ d) c =
    ground (arith, insert-IsSorted k v (contents d c), contents-IsSorted d c)
contents-IsSorted (delete_w b k ∷ d) c =
    ground (arith, remove-IsSorted k (contents d c), contents-IsSorted d c)

unfoldable pub batch_writes : Entries → List Write → List Write
batch_writes [] d = d
batch_writes ((k, v) ∷ b) d = batch_writes b (put_w default_cf k v ∷ d)

contents-batch :
    (b : Entries) (d : List Write)
    → contents (batch_writes b d) default_cf ≡ insert_all b (contents d default_cf)
unfolding contents batch_writes insert_all
contents-batch [] d = refl
contents-batch ((k, v) ∷ b) d = contents-batch b (put_w default_cf k v ∷ d)

Iterates-map : (es : Entries) → Iterates {E = Unit {0}} (map ok es) es
Iterates-map [] = tt
Iterates-map (e ∷ es) = (refl, Iterates-map es)

module _ (fails : Bytes → Bool) where
  unfoldable pub mem_get : List Write → Cf → Bytes → Result (Unit {0}) (Option Bytes)
  unfolding contents
  mem_get d c k = if fails k then err tt else ok (lookup k (contents d c))

  unfoldable pub mem_put :
      List Write → Cf → Bytes → Bytes → Result (Unit {0}) (Unit {0}) × List Write
  mem_put d c k v = if fails k then (err tt, d) else (ok tt, put_w c k v ∷ d)

  unfoldable pub mem_delete : List Write → Cf → Bytes → Result (Unit {0}) (Unit {0}) × List Write
  mem_delete d c k = if fails k then (err tt, d) else (ok tt, delete_w c k ∷ d)

  unfoldable pub mem_write : List Write → Entries → Result (Unit {0}) (Unit {0}) × List Write
  unfolding batch_writes
  mem_write d b = if any (λ e. fails e.0) b then (err tt, d) else (ok tt, batch_writes b d)

  unfoldable pub mem_iterator : List Write → Bytes → List (Result (Unit {0}) (Bytes × Bytes))
  unfolding contents seek
  mem_iterator d p = map ok (seek p (contents d default_cf))

  pub get_law :
      (d : List Write) (c : Cf) (k : Bytes) (o : Option Bytes)
      → mem_get d c k ≡ ok o
      → o ≡ lookup k (contents d c)
  unfolding mem_get
  get_law d c k o h = ground arith

  pub put_law :
      (d : List Write) (c : Cf) (k v : Bytes)
      → (mem_put d c k v).0 ≡ ok tt
      → contents (mem_put d c k v).1 c ≡ insert k v (contents d c)
  unfolding mem_put
  put_law d c k v h = unfold contents in ground (arith, same_cf_self c)

  pub put_any_law :
      (d : List Write) (c : Cf) (k v : Bytes)
      → (contents (mem_put d c k v).1 c ≡ insert k v (contents d c))
        ⊎ (contents (mem_put d c k v).1 c ≡ contents d c)
  unfolding mem_put contents
  put_any_law d c k v = elim (Bool-cases (fails k)) [
    | inl f ↦ inr (rw f)
    | inr f ↦ inl (rw (f, same_cf_self c))
  ]

  pub put_other_law :
      (d : List Write) (c o : Cf) (k v : Bytes)
      → c ≢ o
      → contents (mem_put d c k v).1 o ≡ contents d o
  unfolding mem_put contents
  put_other_law d c o k v h = ground (arith, same_cf_ne c o h)

  pub delete_law :
      (d : List Write) (c : Cf) (k : Bytes)
      → (mem_delete d c k).0 ≡ ok tt
      → contents (mem_delete d c k).1 c ≡ remove k (contents d c)
  unfolding mem_delete contents
  delete_law d c k h = ground (arith, same_cf_self c)

  pub delete_any_law :
      (d : List Write) (c : Cf) (k : Bytes)
      → (contents (mem_delete d c k).1 c ≡ remove k (contents d c))
        ⊎ (contents (mem_delete d c k).1 c ≡ contents d c)
  unfolding mem_delete contents
  delete_any_law d c k = elim (Bool-cases (fails k)) [
    | inl f ↦ inr (rw f)
    | inr f ↦ inl (rw (f, same_cf_self c))
  ]

  pub delete_other_law :
      (d : List Write) (c o : Cf) (k : Bytes)
      → c ≢ o
      → contents (mem_delete d c k).1 o ≡ contents d o
  unfolding mem_delete contents
  delete_other_law d c o k h = ground (arith, same_cf_ne c o h)

  pub write_law :
      (d : List Write) (b : Entries)
      → (mem_write d b).0 ≡ ok tt
      → contents (mem_write d b).1 default_cf ≡ insert_all b (contents d default_cf)
  unfolding mem_write
  write_law d b h = ground (arith, contents-batch b d)

  pub iterator_law :
      (d : List Write) (p : Bytes) → Iterates (mem_iterator d p) (seek p (contents d default_cf))
  unfolding mem_iterator
  iterator_law d p = Iterates-map (seek p (contents d default_cf))

  abbrev pub memory : Rocksdb
  memory = record {
    Db = List Write;
    Error = Unit {0};
    get = mem_get;
    put = mem_put;
    delete = mem_delete;
    write = mem_write;
    prefix_iterator = mem_iterator;
    has_cf = λ d c. true;
    entries = contents;
    entries_sorted = contents-IsSorted;
    get_ok = get_law;
    put_ok = put_law;
    put_any = put_any_law;
    put_other = put_other_law;
    put_has_cf = λ d c k v. refl;
    delete_ok = delete_law;
    delete_any = delete_any_law;
    delete_other = delete_other_law;
    delete_has_cf = λ d c k. refl;
    write_ok = write_law;
    iterator_iterates = iterator_law;
  }
