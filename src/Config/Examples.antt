-- ===== src/Config/Examples.antt =====
-- The theorems on configurations at concrete ones, and tests.
use save.Prelude.{Bytes, bytes, List, [], ◌∷◌, ◌≡◌, ◌↔◌, refl, false, beq}
use save.Prelude.Result.{Result, ok, err}
use save.Prelude.Decimal.{parse}
use save.Peers.{invalid_format, parse_peer, split}
use save.Config.{SaveConfig, seed_node, check_seeds, validate, validate_cluster, load, is_enabled}
use save.Config.Defaults.{default_config}
use save.Config.Usable.{IsUsable, load_iff}

abbrev seeded : List Bytes → SaveConfig
seeded seeds = record default_config {
  cluster = record default_config.cluster { seed_nodes = seeds };
}

abbrev read_seeded : Bytes → Result Bytes Bytes
read_seeded path = ok (bytes "toml")

abbrev seeded_toml : Bytes → Result Bytes SaveConfig
seeded_toml contents = ok (seeded (bytes "2:10.0.0.2:9001:9000:9002" ∷ []))

load_iff_example :
    (load read_seeded seeded_toml (bytes "save.toml")
      ≡ ok (seeded (bytes "2:10.0.0.2:9001:9000:9002" ∷ [])))
    ↔ ((contents : Bytes) × (read_seeded (bytes "save.toml") ≡ ok contents)
        × (seeded_toml contents ≡ ok (seeded (bytes "2:10.0.0.2:9001:9000:9002" ∷ [])))
        × IsUsable (seeded (bytes "2:10.0.0.2:9001:9000:9002" ∷ [])))
load_iff_example =
    load_iff read_seeded seeded_toml (bytes "save.toml")
      (seeded (bytes "2:10.0.0.2:9001:9000:9002" ∷ []))

seeded_loads :
    load read_seeded seeded_toml (bytes "save.toml")
    ≡ ok (seeded (bytes "2:10.0.0.2:9001:9000:9002" ∷ []))
unfolding load validate validate_cluster check_seeds parse_peer split parse beq
seeded_loads = refl

default_valid : validate default_config ≡ ok tt
unfolding validate validate_cluster check_seeds beq
default_valid = refl

-- The documented form of a seed node, "node_id:host:raft_port:http_port".
four_parts_refused :
    validate (seeded (bytes "2:10.0.0.2:9001:9000" ∷ [])) ≡ err (seed_node invalid_format)
unfolding validate validate_cluster check_seeds parse_peer split beq
four_parts_refused = refl

default_not_replicated : is_enabled default_config.cluster.replication ≡ false
unfolding is_enabled
default_not_replicated = refl
