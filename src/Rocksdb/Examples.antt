-- ===== src/Rocksdb/Examples.antt =====
-- The theorem on the loop over an iterator at concrete entries.
use save.Prelude.{Bytes, bytes, List, [], ◌∷◌, ◌++◌}
use save.Prelude.Result.{Result, ok}
use save.Rocksdb.SortedMap.{Entries}

abbrev three_entries : Entries
three_entries = (bytes "a:1", bytes "x") ∷ (bytes "b:1", bytes "y") ∷ (bytes "c:1", bytes "z") ∷ []

abbrev from_b : List (Result (Unit {0}) (Bytes × Bytes))
from_b = ok (bytes "b:1", bytes "y") ∷ ok (bytes "c:1", bytes "z") ∷ []

abbrev collect : Bytes → Bytes → Bytes → Result (Unit {0}) Bytes
collect acc k v = ok (acc ++ v)
