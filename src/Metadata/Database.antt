-- ===== src/Metadata/Database.antt =====
-- What the operations of the database do to the values stored under the default column family.
use save.Prelude.{
  Bytes, [], ◌∷◌, Option, none, some, ◌≡◌, sym, ◌∙◌, beq, if◌then◌else◌, ap, ◌⊎◌, inl, inr,
}
use save.Prelude.Result.{ok}
use save.Rocksdb.{default_cf}
use save.Rocksdb.SortedMap.{insert_all, lookup, lookup-insert, lookup-remove}
use save.Metadata.{Env, Db, stored}

module _ ⦃env : Env⦄ (d : Db) (k : Bytes) where
  pub get-stored : (o : Option Bytes) → env.rocksdb.get d default_cf k ≡ ok o → stored d k ≡ o
  get-stored o h = sym (env.rocksdb.get_ok d default_cf k o h)

  pub stored-put :
      (v j : Bytes)
      → (env.rocksdb.put d default_cf k v).0 ≡ ok tt
      → stored (env.rocksdb.put d default_cf k v).1 j ≡ (if beq k j then some v else stored d j)
  stored-put v j h = ap (lookup j) (env.rocksdb.put_ok d default_cf k v h) ∙ lookup-insert k j v _

  pub stored-delete :
      (j : Bytes)
      → (env.rocksdb.delete d default_cf k).0 ≡ ok tt
      → stored (env.rocksdb.delete d default_cf k).1 j ≡ (if beq k j then none else stored d j)
  stored-delete j h = ap (lookup j) (env.rocksdb.delete_ok d default_cf k h) ∙ lookup-remove k j _

  pub stored-write :
      (v j : Bytes)
      → (env.rocksdb.write d ((k, v) ∷ [])).0 ≡ ok tt
      → stored (env.rocksdb.write d ((k, v) ∷ [])).1 j ≡ (if beq k j then some v else stored d j)
  unfolding insert_all
  stored-write v j h =
      ap (lookup j) (env.rocksdb.write_ok d ((k, v) ∷ []) h) ∙ lookup-insert k j v _

  pub stored-put_any :
      (v j : Bytes)
      → (stored (env.rocksdb.put d default_cf k v).1 j ≡ (if beq k j then some v else stored d j))
        ⊎ (stored (env.rocksdb.put d default_cf k v).1 j ≡ stored d j)
  stored-put_any v j = elim (env.rocksdb.put_any d default_cf k v) [
    | inl e ↦ inl (ap (lookup j) e ∙ lookup-insert k j v _)
    | inr e ↦ inr (ap (lookup j) e)
  ]

  pub stored-delete_any :
      (j : Bytes)
      → (stored (env.rocksdb.delete d default_cf k).1 j ≡ (if beq k j then none else stored d j))
        ⊎ (stored (env.rocksdb.delete d default_cf k).1 j ≡ stored d j)
  stored-delete_any j = elim (env.rocksdb.delete_any d default_cf k) [
    | inl e ↦ inl (ap (lookup j) e ∙ lookup-remove k j _)
    | inr e ↦ inr (ap (lookup j) e)
  ]
