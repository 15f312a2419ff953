-- ===== src/Config/Defaults.antt =====
-- The `Default` implementations of crates/save-common/src/config.rs.
use save.Prelude.{◌*◌, true, bytes, [], none, some}
use save.Config.{
  LimitsConfig, ShutdownConfig, strong, RetrySettings, ReplicationConfig, InternalApiConfig,
  ClusterConfig, SaveConfig,
}

abbrev default_limits : LimitsConfig
default_limits = record {
  max_concurrent_requests = 1000;
  requests_per_second = 100;
  request_timeout_secs = 300;
}

abbrev default_shutdown : ShutdownConfig
default_shutdown = record { drain_timeout_secs = 30 }

abbrev default_retry : RetrySettings
default_retry = record { max_attempts = 3; initial_delay_ms = 100; max_delay_ms = 5000 }

abbrev default_replication : ReplicationConfig
default_replication = record {
  replication_factor = 1;
  bind_addr = bytes "0.0.0.0:9002";
  tls = none;
  retry = default_retry;
  stale_prepare_cleanup_interval_secs = 5 * 60;
  stale_prepare_max_age_secs = 60 * 60;
}

abbrev default_internal_api : InternalApiConfig
default_internal_api = record { bind_addr = []; tls = none; require_auth = true }

abbrev default_cluster : ClusterConfig
default_cluster = record {
  node_id = 1;
  raft_bind_addr = bytes "0.0.0.0:9001";
  seed_nodes = [];
  consistency_mode = strong;
  connect_timeout_secs = 5;
  rpc_timeout_secs = 30;
  heartbeat_interval_ms = 50;
  election_timeout_min_ms = 150;
  election_timeout_max_ms = 300;
  join_timeout_secs = 30;
  leave_timeout_secs = 30;
  learner_catchup_delay_ms = 200;
  join_max_retries = 3;
  replication = default_replication;
  internal_api = default_internal_api;
}

abbrev pub default_config : SaveConfig
default_config = record {
  server = record {
    bind_address = bytes "0.0.0.0:9000";
    max_body_size = 100 * 1024 * 1024;
    worker_threads = 4;
    max_blocking_threads = 512;
    bucket_cache_ttl_secs = 60;
    metrics_interval_secs = 60;
  };
  storage = record {
    data_path = bytes "/tmp/save/data";
    metadata_path = bytes "/tmp/save/metadata";
    max_object_size = some (5 * 1024 * 1024 * 1024);
    gc_interval_secs = 10 * 60;
    gc_temp_file_max_age_secs = 60 * 60;
    fsync_mode = bytes "data";
  };
  credentials = record {
    access_key = bytes "test-access-key";
    secret_key = bytes "test-secret-key";
  };
  limits = default_limits;
  shutdown = default_shutdown;
  cluster = default_cluster;
}
