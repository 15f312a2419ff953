-- ===== src/Peers.antt =====
-- crates/save-common/src/cluster.rs: the addresses of the nodes of a cluster, and the text by which
-- a node gives its own address to the leader (`join_via_leader` in crates/save-api/src/scaling.rs).
-- The text of an error keeps which part was wrong.
pub mod RoundTrip
mod Examples
use save.Prelude.{ℕ, Bytes, bytes, List, [], ◌∷◌, ◌++◌, Option, none, some, ◌==◌, if◌then◌else◌}
use save.Prelude.Result.{Result, ok, err, ok_or, ◌>>=◌}
use save.Prelude.Decimal.{display, parse, max_u64, max_u16}

pub record PeerInfo : Type 0 where
  pub node_id : ℕ
  pub host : Bytes
  pub raft_port : ℕ
  pub http_port : ℕ
  pub replication_port : ℕ

pub data PeerError : Type 0 where
  invalid_bind_address invalid_bind_port : PeerError
  invalid_format invalid_node_id invalid_raft_port invalid_http_port : PeerError
  invalid_replication_port : PeerError

abbrev http : Bytes → ℕ → Bytes
http host port = bytes "http://" ++ host ++ b':' ∷ display port

unfoldable pub raft_addr : PeerInfo → Bytes
raft_addr p = http p.host p.raft_port

unfoldable pub http_addr : PeerInfo → Bytes
http_addr p = http p.host p.http_port

unfoldable pub replication_addr : PeerInfo → Bytes
replication_addr p = http p.host p.replication_port

unfoldable pub to_tuple : PeerInfo → ℕ × Bytes × Bytes × Bytes
to_tuple p = (p.node_id, raft_addr p, http_addr p, replication_addr p)

-- `str::rsplit_once`: cut at the last separator.
unfoldable pub rsplit_once : ℕ → Bytes → Option (Bytes × Bytes)
rsplit_once sep [] = none
rsplit_once sep (c ∷ s) = elim (rsplit_once sep s) [
  | some (before, after) ↦ some (c ∷ before, after)
  | none ↦ if c == sep then some ([], s) else none
]

unfoldable pub parse_bind_addr : Bytes → Result PeerError (Bytes × ℕ)
parse_bind_addr addr = do
  parts ← ok_or (rsplit_once b':' addr) invalid_bind_address
  port ← ok_or (parse max_u16 parts.1) invalid_bind_port
  ok (parts.0, port)

unfoldable pub from_bind_addrs : ℕ → Bytes → Bytes → Bytes → Result PeerError PeerInfo
from_bind_addrs node_id raft_bind http_bind replication_bind = do
  raft ← parse_bind_addr raft_bind
  http ← parse_bind_addr http_bind
  replication ← parse_bind_addr replication_bind
  ok (record {
    node_id = node_id;
    host = raft.0;
    raft_port = raft.1;
    http_port = http.1;
    replication_port = replication.1;
  })

abbrev add_head : ℕ → List Bytes → List Bytes
add_head c [] = (c ∷ []) ∷ []
add_head c (p ∷ parts) = (c ∷ p) ∷ parts

-- `str::split`
unfoldable pub split : ℕ → Bytes → List Bytes
split sep [] = [] ∷ []
split sep (c ∷ s) = let rest = split sep s in if c == sep then [] ∷ rest else add_head c rest

abbrev pub parse_parts : Bytes → Bytes → Bytes → Bytes → Bytes → Result PeerError PeerInfo
parse_parts id host raft http replication = do
  node_id ← ok_or (parse max_u64 id) invalid_node_id
  raft_port ← ok_or (parse max_u16 raft) invalid_raft_port
  http_port ← ok_or (parse max_u16 http) invalid_http_port
  replication_port ← ok_or (parse max_u16 replication) invalid_replication_port
  ok (record {
    node_id = node_id;
    host = host;
    raft_port = raft_port;
    http_port = http_port;
    replication_port = replication_port;
  })

abbrev pub parse_five : List Bytes → Result PeerError PeerInfo
parse_five (id ∷ host ∷ raft ∷ http ∷ replication ∷ []) = parse_parts id host raft http replication
parse_five _ = err invalid_format

unfoldable pub parse_peer : Bytes → Result PeerError PeerInfo
unfolding split
parse_peer peer = parse_five (split b':' peer)

unfoldable pub parse_peers : List Bytes → Result PeerError (List PeerInfo)
parse_peers [] = ok []
parse_peers (peer ∷ peers) = do p ← parse_peer peer; ps ← parse_peers peers; ok (p ∷ ps)

-- The `format!` of `node_spec`.
unfoldable pub node_spec : PeerInfo → Bytes
node_spec p =
    display p.node_id
    ++ b':'
      ∷ (p.host
          ++ b':'
            ∷ (display p.raft_port
                ++ b':' ∷ (display p.http_port ++ b':' ∷ display p.replication_port)))
