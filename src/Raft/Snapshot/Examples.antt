-- ===== src/Raft/Snapshot/Examples.antt =====
-- A snapshot restored over a node that holds a lock.
use save.Prelude.{◌≡◌, bytes, [], ◌∷◌, refl, beq, blt, starts_with, any, if◌then◌else◌}
use save.Prelude.Result.{ok}
use save.Rocksdb.{default_cf}
use save.Rocksdb.SortedMap.{insert, remove, seek}
use save.Rocksdb.Memory.{put_w, mem_put, mem_delete, mem_iterator, contents, same_cf}
use save.Metadata.{Db, stored}
use save.Metadata.Fixture.{env}
use save.Raft.Snapshot.{
  data_prefixes, delete_loop, delete_prefixes, copy_loop, copy_prefixes, restore_default_cf,
}
use save.Raft.Snapshot.Restore.{restore_default_cf_lem}

abbrev node : Db
node =
    put_w default_cf (bytes "lock:b/k") (1 ∷ [])
    ∷ put_w default_cf (bytes "obj:b/old") (2 ∷ [])
    ∷ []

abbrev source : Db
source =
    put_w default_cf (bytes "lock:b/other") (3 ∷ [])
    ∷ put_w default_cf (bytes "obj:b/new") (4 ∷ [])
    ∷ []

restored : (restore_default_cf source node).0 ≡ ok tt
unfolding restore_default_cf delete_prefixes delete_loop copy_prefixes copy_loop mem_put mem_delete
    mem_iterator contents same_cf starts_with seek insert remove beq blt
restored = refl

restore_default_cf_lem_example : stored (restore_default_cf source node).1 (bytes "obj:b/new") ≡ (
    if any (starts_with (bytes "obj:b/new")) data_prefixes
    then stored source (bytes "obj:b/new")
    else stored node (bytes "obj:b/new"))
restore_default_cf_lem_example = restore_default_cf_lem source node restored (bytes "obj:b/new")
