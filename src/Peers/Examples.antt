-- ===== src/Peers/Examples.antt =====
-- The theorems on addresses at concrete nodes, and tests.
use save.Prelude.{bytes, ◌≡◌, ◌⊎◌, refl, arith}
use save.Prelude.Result.{ok, err}
use save.Prelude.Decimal.{display, parse}
use save.Peers.{
  PeerInfo, invalid_format, invalid_raft_port, split, rsplit_once, parse_peer, parse_bind_addr,
  node_spec, raft_addr,
}
use save.Peers.RoundTrip.{Lacks, Fits, parse_peer-node_spec}

abbrev node : PeerInfo
node = record {
  node_id = 1;
  host = bytes "10.0.0.1";
  raft_port = 9001;
  http_port = 9000;
  replication_port = 9002;
}

node-Fits : Fits node
node-Fits = (omega arith, omega arith, omega arith, omega arith)

parse_peer-node_spec_example :
    (Lacks b':' (bytes "10.0.0.1") × (parse_peer (node_spec node) ≡ ok node))
    ⊎ (¬ Lacks b':' (bytes "10.0.0.1") × (parse_peer (node_spec node) ≡ err invalid_format))
parse_peer-node_spec_example = parse_peer-node_spec node node-Fits

-- Node 0 and port 0 are accepted, and a sign.
zero_accepted :
    parse_peer (bytes "0:h:0:+0:00")
    ≡ ok (record {
      node_id = 0;
      host = bytes "h";
      raft_port = 0;
      http_port = 0;
      replication_port = 0;
    })
unfolding parse_peer split parse
zero_accepted = refl

too_large : parse_peer (bytes "1:h:65536:1:1") ≡ err invalid_raft_port
unfolding parse_peer split parse
too_large = refl

-- The host of an IPv6 address keeps its brackets and colons.
ipv6 : parse_bind_addr (bytes "[::1]:9001") ≡ ok (bytes "[::1]", 9001)
unfolding parse_bind_addr rsplit_once parse
ipv6 = refl

address : raft_addr node ≡ bytes "http://10.0.0.1:9001"
unfolding raft_addr display
address = refl
