-- ===== src/Config/Usable.antt =====
-- What `SaveConfig::load` accepts.
use save.Prelude.{
  ◌<◌, ◌≡◌, ◌≢◌, ◌↔◌, Bytes, List, [], ◌∷◌, beq_iff, inl, inr, refl, not_true, subst, arith,
}
use save.Prelude.Result.{Result, ok, ok_unique, Result-cases}
use save.Peers.{PeerInfo, parse_peer, parse_peers}
use save.Config.{SaveConfig, ClusterConfig, check_seeds, validate_cluster, validate, load}

pub record IsUsableCluster (c : ClusterConfig) : Type 0 where
  pub node_id : 0 < c.node_id
  pub raft_bind_addr : c.raft_bind_addr ≢ []
  pub seeds : (peers : List PeerInfo) × (parse_peers c.seed_nodes ≡ ok peers)
  pub replication_bind_addr : c.replication.bind_addr ≢ []

pub record IsUsable (c : SaveConfig) : Type 0 where
  pub bind_address : c.server.bind_address ≢ []
  pub data_path : c.storage.data_path ≢ []
  pub metadata_path : c.storage.metadata_path ≢ []
  pub access_key : c.credentials.access_key ≢ []
  pub secret_key : c.credentials.secret_key ≢ []
  pub concurrent_requests : 0 < c.limits.max_concurrent_requests
  pub requests : 0 < c.limits.requests_per_second
  pub request_timeout : 0 < c.limits.request_timeout_secs
  pub drain_timeout : 0 < c.shutdown.drain_timeout_secs
  pub cluster : IsUsableCluster c.cluster

check_seeds_parsed :
    (seeds : List Bytes)
    → check_seeds seeds ≡ ok tt
    → (peers : List PeerInfo) × (parse_peers seeds ≡ ok peers)
unfolding check_seeds parse_peers
check_seeds_parsed [] h = ([], refl)
check_seeds_parsed (seed ∷ seeds) h = elim (Result-cases (parse_peer seed)) [
  | inl (p, e) ↦
      let (peers, r) = check_seeds_parsed seeds (ground (arith, e)) in
      (p ∷ peers, ground (arith, e, r))
  | inr (e, r) ↦ ground (arith, r)
]

parsed-check_seeds :
    (seeds : List Bytes) (peers : List PeerInfo)
    → parse_peers seeds ≡ ok peers
    → check_seeds seeds ≡ ok tt
unfolding check_seeds parse_peers
parsed-check_seeds [] peers h = refl
parsed-check_seeds (seed ∷ seeds) peers h = elim (Result-cases (parse_peer seed)) [
  | inl (p, e) ↦ elim (Result-cases (parse_peers seeds)) [
    | inl (ps, r) ↦ ground (arith, e, r, parsed-check_seeds seeds ps r)
    | inr (f, r) ↦ ground (arith, e, r)
  ]
  | inr (f, r) ↦ ground (arith, r)
]

module _ (c : ClusterConfig) where
  validate_cluster-IsUsableCluster : validate_cluster c ≡ ok tt → IsUsableCluster c
  unfolding validate_cluster
  validate_cluster-IsUsableCluster h = record {
    node_id = ground arith;
    raft_bind_addr = λ e. ground (arith, (beq_iff c.raft_bind_addr []).1 e);
    seeds = check_seeds_parsed c.seed_nodes (ground arith);
    replication_bind_addr = λ e. ground (arith, (beq_iff c.replication.bind_addr []).1 e);
  }

  IsUsableCluster-validate_cluster : IsUsableCluster c → validate_cluster c ≡ ok tt
  unfolding validate_cluster
  IsUsableCluster-validate_cluster u = ground (
    arith,
    u.node_id,
    parsed-check_seeds c.seed_nodes u.seeds.0 u.seeds.1,
    not_true (λ e. u.raft_bind_addr ((beq_iff c.raft_bind_addr []).0 e)),
    not_true (λ e. u.replication_bind_addr ((beq_iff c.replication.bind_addr []).0 e)),
  )

module _ (c : SaveConfig) where
  validate-IsUsable : validate c ≡ ok tt → IsUsable c
  unfolding validate
  validate-IsUsable h = record {
    bind_address = λ e. ground (arith, (beq_iff c.server.bind_address []).1 e);
    data_path = λ e. ground (arith, (beq_iff c.storage.data_path []).1 e);
    metadata_path = λ e. ground (arith, (beq_iff c.storage.metadata_path []).1 e);
    access_key = λ e. ground (arith, (beq_iff c.credentials.access_key []).1 e);
    secret_key = λ e. ground (arith, (beq_iff c.credentials.secret_key []).1 e);
    concurrent_requests = ground arith;
    requests = ground arith;
    request_timeout = ground arith;
    drain_timeout = ground arith;
    cluster = validate_cluster-IsUsableCluster c.cluster (ground arith);
  }

  IsUsable-validate : IsUsable c → validate c ≡ ok tt
  unfolding validate
  IsUsable-validate u = ground (
    arith,
    not_true (λ e. u.bind_address ((beq_iff c.server.bind_address []).0 e)),
    not_true (λ e. u.data_path ((beq_iff c.storage.data_path []).0 e)),
    not_true (λ e. u.metadata_path ((beq_iff c.storage.metadata_path []).0 e)),
    not_true (λ e. u.access_key ((beq_iff c.credentials.access_key []).0 e)),
    not_true (λ e. u.secret_key ((beq_iff c.credentials.secret_key []).0 e)),
    u.concurrent_requests,
    u.requests,
    u.request_timeout,
    u.drain_timeout,
    IsUsableCluster-validate_cluster c.cluster u.cluster,
  )

module _ (read_to_string : Bytes → Result Bytes Bytes) (from_toml : Bytes → Result Bytes SaveConfig)
    (path : Bytes) where
  load_usable :
      (contents : Bytes) (c : SaveConfig)
      → read_to_string path ≡ ok contents
      → from_toml contents ≡ ok c
      → validate c ≡ ok tt
      → load read_to_string from_toml path ≡ ok c
  unfolding load
  load_usable contents c e r u = ground (arith, e, r, u)

  load_cases :
      (c : SaveConfig)
      → load read_to_string from_toml path ≡ ok c
      → (contents : Bytes) × (d : SaveConfig) × (read_to_string path ≡ ok contents)
        × (from_toml contents ≡ ok d)
        × (validate d ≡ ok tt)
  unfolding load
  load_cases c h = elim (Result-cases (read_to_string path)) [
    | inl (contents, e) ↦ elim (Result-cases (from_toml contents)) [
      | inl (d, r) ↦ elim (Result-cases (validate d)) [
        | inl (v, u) ↦ (contents, d, e, r, u)
        | inr (f, u) ↦ ground (arith, e, r, u)
      ]
      | inr (f, r) ↦ ground (arith, e, r)
    ]
    | inr (f, e) ↦ ground (arith, e)
  ]

  -- A configuration is loaded exactly if the file is read, its text is one of that configuration in
  -- TOML, the server, Raft and replication bind addresses, the data and metadata paths and both keys
  -- are not empty, `max_concurrent_requests`, `requests_per_second`, `request_timeout_secs`,
  -- `drain_timeout_secs` and `node_id` are not 0, and `parse_peers` reads the seed nodes as addresses.
  pub load_iff :
      (c : SaveConfig)
      → (load read_to_string from_toml path ≡ ok c) ↔ (
          (contents : Bytes) × (read_to_string path ≡ ok contents)
          × (from_toml contents ≡ ok c)
          × IsUsable c)
  load_iff c = (
    λ h.
        let (contents, d, e, r, u) = load_cases c h in
        let same = ok_unique (load_usable contents d e r u) h in
        (
          contents,
          e,
          subst (λ x. from_toml contents ≡ ok x) same r,
          subst IsUsable same (validate-IsUsable d u),
        ),
    λ (contents, e, r, u). load_usable contents c e r (IsUsable-validate c u),
  )
