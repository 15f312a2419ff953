-- ===== src/Config.antt =====
-- crates/save-common/src/config.rs: the configuration of a node and the checks that
-- `SaveConfig::load` makes. Texts are UTF-8 bytes. Left out are fields that nothing here reads and
-- that are not natural numbers: `MetadataConfig`, the tuning of the database with its `i32`s, and
-- the floating-point `jitter` of `RetrySettings`.
mod Defaults
pub mod Usable
mod Examples
use save.Prelude.{ℕ, Bool, Bytes, bytes, List, [], ◌∷◌, Option, ◌++◌, beq, ◌==◌, ltb, if◌then◌else◌}
use save.Prelude.Result.{Result, ok, err, map_err, map_ok, ◌>>=◌, ◌>>◌}
use save.Peers.{PeerError, parse_peer}

pub record ServerConfig : Type 0 where
  pub bind_address : Bytes
  pub max_body_size : ℕ
  pub worker_threads : ℕ
  pub max_blocking_threads : ℕ
  pub bucket_cache_ttl_secs : ℕ
  pub metrics_interval_secs : ℕ

pub record StorageConfig : Type 0 where
  pub data_path : Bytes
  pub metadata_path : Bytes
  pub max_object_size : Option ℕ
  pub gc_interval_secs : ℕ
  pub gc_temp_file_max_age_secs : ℕ
  pub fsync_mode : Bytes

pub record CredentialsConfig : Type 0 where
  pub access_key : Bytes
  pub secret_key : Bytes

pub record LimitsConfig : Type 0 where
  pub max_concurrent_requests : ℕ
  pub requests_per_second : ℕ
  pub request_timeout_secs : ℕ

pub record ShutdownConfig : Type 0 where
  pub drain_timeout_secs : ℕ

pub data ConsistencyMode : Type 0 where
  strong eventual : ConsistencyMode

pub record TlsConfig : Type 0 where
  pub cert_path : Bytes
  pub key_path : Bytes
  pub ca_cert_path : Bytes

pub record RetrySettings : Type 0 where
  pub max_attempts : ℕ
  pub initial_delay_ms : ℕ
  pub max_delay_ms : ℕ

pub record ReplicationConfig : Type 0 where
  pub replication_factor : ℕ
  pub bind_addr : Bytes
  pub tls : Option TlsConfig
  pub retry : RetrySettings
  pub stale_prepare_cleanup_interval_secs : ℕ
  pub stale_prepare_max_age_secs : ℕ

pub record InternalApiConfig : Type 0 where
  pub bind_addr : Bytes
  pub tls : Option TlsConfig
  pub require_auth : Bool

pub record ClusterConfig : Type 0 where
  pub node_id : ℕ
  pub raft_bind_addr : Bytes
  pub seed_nodes : List Bytes
  pub consistency_mode : ConsistencyMode
  pub connect_timeout_secs : ℕ
  pub rpc_timeout_secs : ℕ
  pub heartbeat_interval_ms : ℕ
  pub election_timeout_min_ms : ℕ
  pub election_timeout_max_ms : ℕ
  pub join_timeout_secs : ℕ
  pub leave_timeout_secs : ℕ
  pub learner_catchup_delay_ms : ℕ
  pub join_max_retries : ℕ
  pub replication : ReplicationConfig
  pub internal_api : InternalApiConfig

pub record SaveConfig : Type 0 where
  pub server : ServerConfig
  pub storage : StorageConfig
  pub credentials : CredentialsConfig
  pub limits : LimitsConfig
  pub shutdown : ShutdownConfig
  pub cluster : ClusterConfig

unfoldable pub is_enabled : ReplicationConfig → Bool
is_enabled r = ltb 1 r.replication_factor

-- `ReplicationConfig::replication_addr`
unfoldable pub bind_url : ReplicationConfig → Bytes
bind_url r = bytes "http://" ++ r.bind_addr

-- Which check failed; `Error::config` and the error of the TOML parser keep their texts.
pub data ConfigError : Type 0 where
  unread not_toml : Bytes → ConfigError
  bind_address_empty data_path_empty metadata_path_empty : ConfigError
  access_key_empty secret_key_empty : ConfigError
  no_concurrent_requests no_requests_per_second no_request_timeout no_drain_timeout : ConfigError
  no_node_id raft_bind_addr_empty replication_bind_addr_empty : ConfigError
  seed_node : PeerError → ConfigError

unfoldable pub check_seeds : List Bytes → Result ConfigError (Unit {0})
check_seeds [] = ok tt
check_seeds (peer ∷ peers) = do _ ← map_err seed_node (parse_peer peer); check_seeds peers

unfoldable pub validate_cluster : ClusterConfig → Result ConfigError (Unit {0})
validate_cluster c =
    if c.node_id == 0
    then err no_node_id
    else if beq c.raft_bind_addr []
    then err raft_bind_addr_empty
    else (check_seeds c.seed_nodes
        >> (if beq c.replication.bind_addr [] then err replication_bind_addr_empty else ok tt))

unfoldable pub validate : SaveConfig → Result ConfigError (Unit {0})
validate c =
    if beq c.server.bind_address []
    then err bind_address_empty
    else if beq c.storage.data_path []
    then err data_path_empty
    else if beq c.storage.metadata_path []
    then err metadata_path_empty
    else if beq c.credentials.access_key []
    then err access_key_empty
    else if beq c.credentials.secret_key []
    then err secret_key_empty
    else if c.limits.max_concurrent_requests == 0
    then err no_concurrent_requests
    else if c.limits.requests_per_second == 0
    then err no_requests_per_second
    else if c.limits.request_timeout_secs == 0
    then err no_request_timeout
    else if c.shutdown.drain_timeout_secs == 0
    then err no_drain_timeout
    else validate_cluster c.cluster

-- The file system (`fs::read_to_string`) and the TOML parser are parameters.
unfoldable pub load :
    (Bytes → Result Bytes Bytes)
    → (Bytes → Result Bytes SaveConfig)
    → Bytes
    → Result ConfigError SaveConfig
load read_to_string from_toml path = do
  contents ← map_err unread (read_to_string path)
  config ← map_err not_toml (from_toml contents)
  _ ← validate config
  ok config
