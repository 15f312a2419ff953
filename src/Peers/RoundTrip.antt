-- ===== src/Peers/RoundTrip.antt =====
-- Which addresses a leader reads back from the text of a joining node.
use save.Prelude.{
  ℕ, zero, suc, ◌+◌, ◌≤◌, ◌/◌, ◌%◌, Bytes, List, [], ◌∷◌, ◌++◌, some, none, ◌≡◌, ◌≢◌, ◌⊎◌, inl, inr,
  refl, ap, ◌∙◌, arith, length,
}
use save.Prelude.Result.{ok, err}
use save.Prelude.Decimal.{display, display_onto, parse-display, max_u64, max_u16}
use save.Peers.{
  PeerInfo, invalid_format, split, parse_five, parse_parts, parse_peer, node_spec, rsplit_once,
  parse_bind_addr, from_bind_addrs,
}

abbrev pub Lacks : ℕ → Bytes → Type 0
Lacks sep [] = Unit
Lacks sep (c ∷ s) = (c ≢ sep) × Lacks sep s

module _ (sep : ℕ) where
  split-append : (p rest : Bytes) → Lacks sep p → split sep (p ++ sep ∷ rest) ≡ p ∷ split sep rest
  unfolding split
  split-append [] rest h = ground arith
  split-append (c ∷ p) rest (hc, hp) = ground (arith, split-append p rest hp)

  split-Lacks : (p : Bytes) → Lacks sep p → split sep p ≡ p ∷ []
  unfolding split
  split-Lacks [] h = refl
  split-Lacks (c ∷ p) (hc, hp) = ground (arith, split-Lacks p hp)

  split_nonempty : (p : Bytes) → 1 ≤ length (split sep p)
  unfolding split
  split_nonempty [] = omega arith
  split_nonempty (c ∷ p) = ground (arith, split_nonempty p)

  length-split-append :
      (p rest : Bytes)
      → length (split sep (p ++ sep ∷ rest)) ≡ length (split sep p) + length (split sep rest)
  unfolding split
  length-split-append [] rest = ground arith
  length-split-append (c ∷ p) rest =
      ground (arith, length-split-append p rest, split_nonempty p, split_nonempty (p ++ sep ∷ rest))

  Lacks-cases : (p : Bytes) → Lacks sep p ⊎ 2 ≤ length (split sep p)
  unfolding split
  Lacks-cases [] = inl tt
  Lacks-cases (c ∷ p) = ground (arith, Lacks-cases p, split_nonempty p)

digits_lack : (fuel n : ℕ) (out : Bytes) → Lacks b':' out → Lacks b':' (display_onto fuel n out)
unfolding display_onto
digits_lack zero n out h = h
digits_lack (suc fuel) n out h = ground (arith, digits_lack fuel (n / 10) ((b'0' + n % 10) ∷ out))

display-Lacks : (n : ℕ) → Lacks b':' (display n)
unfolding display
display-Lacks n = digits_lack 20 n [] tt

-- The ranges of the fields: `u64` and `u16`.
abbrev pub Fits : PeerInfo → Type 0
Fits p =
    (p.node_id ≤ max_u64)
    × (p.raft_port ≤ max_u16)
    × (p.http_port ≤ max_u16)
    × (p.replication_port ≤ max_u16)

parse_parts-display :
    (p : PeerInfo)
    → Fits p
    → parse_parts
        (display p.node_id)
        p.host
        (display p.raft_port)
        (display p.http_port)
        (display p.replication_port)
      ≡ ok p
parse_parts-display p (id, raft, http, replication) =
    rw
      (
        parse-display max_u64 p.node_id id (omega arith),
        parse-display max_u16 p.raft_port raft (omega arith),
        parse-display max_u16 p.http_port http (omega arith),
        parse-display max_u16 p.replication_port replication (omega arith),
      )
      refl

-- Everything behind the host.
abbrev ports : PeerInfo → Bytes
ports p = display p.raft_port ++ b':' ∷ (display p.http_port ++ b':' ∷ display p.replication_port)

split-ports :
    (p : PeerInfo)
    → split b':' (ports p)
      ≡ display p.raft_port ∷ display p.http_port ∷ display p.replication_port ∷ []
split-ports p =
    rw
      (
        split-append b':' (display p.raft_port)
            (display p.http_port ++ b':' ∷ display p.replication_port) (display-Lacks p.raft_port),
        split-append b':' (display p.http_port) (display p.replication_port)
            (display-Lacks p.http_port),
        split-Lacks b':' (display p.replication_port) (display-Lacks p.replication_port),
      )
      refl

too_many : (parts : List Bytes) → 6 ≤ length parts → parse_five parts ≡ err invalid_format
too_many [] h = refl
too_many (a ∷ []) h = refl
too_many (a ∷ b ∷ []) h = refl
too_many (a ∷ b ∷ c ∷ []) h = refl
too_many (a ∷ b ∷ c ∷ d ∷ []) h = refl
too_many (a ∷ b ∷ c ∷ d ∷ e ∷ []) h = absurd (omega arith)
too_many (a ∷ b ∷ c ∷ d ∷ e ∷ f ∷ parts) h = refl

host_split :
    (p : PeerInfo)
    → split b':' (node_spec p) ≡ display p.node_id ∷ split b':' (p.host ++ b':' ∷ ports p)
unfolding node_spec
host_split p =
    split-append b':' (display p.node_id) (p.host ++ b':' ∷ ports p) (display-Lacks p.node_id)

-- The leader reads the address of a joining node back if the host has no colon. It refuses the
-- address if the host has one, as an IPv6 address has.
pub parse_peer-node_spec :
    (p : PeerInfo)
    → Fits p
    → (Lacks b':' p.host × (parse_peer (node_spec p) ≡ ok p))
      ⊎ (¬ Lacks b':' p.host × (parse_peer (node_spec p) ≡ err invalid_format))
unfolding parse_peer
parse_peer-node_spec p fits = elim (Lacks-cases b':' p.host) [
  | inl h ↦ inl (
    h,
    ap parse_five (
          host_split p
          ∙ ap (λ (x : List Bytes). display p.node_id ∷ x)
              (split-append b':' p.host (ports p) h
                ∙ ap (λ (x : List Bytes). p.host ∷ x) (split-ports p)))
        ∙ parse_parts-display p fits,
  )
  | inr long ↦ inr (
    λ h. absurd (omega (arith, long, ap length (split-Lacks b':' p.host h))),
    ap parse_five (host_split p)
        ∙ too_many (display p.node_id ∷ split b':' (p.host ++ b':' ∷ ports p)) (
            omega
              (arith, long, length-split-append b':' p.host (ports p), ap length (split-ports p))),
  )
]

rsplit_once-Lacks : (t : Bytes) → Lacks b':' t → rsplit_once b':' t ≡ none
unfolding rsplit_once
rsplit_once-Lacks [] h = refl
rsplit_once-Lacks (c ∷ t) (hc, ht) = ground (arith, rsplit_once-Lacks t ht)

rsplit_once-append : (h t : Bytes) → Lacks b':' t → rsplit_once b':' (h ++ b':' ∷ t) ≡ some (h, t)
unfolding rsplit_once
rsplit_once-append [] t lacks = rw (rsplit_once-Lacks t lacks) refl
rsplit_once-append (c ∷ h) t lacks = rw (rsplit_once-append h t lacks) refl

-- A bind address gives its host and port back, whatever the host.
parse_bind_addr_lem :
    (host : Bytes) (port : ℕ)
    → port ≤ max_u16
    → parse_bind_addr (host ++ b':' ∷ display port) ≡ ok (host, port)
unfolding parse_bind_addr
parse_bind_addr_lem host port fits =
    rw
      (
        rsplit_once-append host (display port) (display-Lacks port),
        parse-display max_u16 port fits (omega arith),
      )
      refl

-- A node has the host of its Raft address and the three ports. The other two hosts are not used.
pub from_bind_addrs_lem :
    (p : PeerInfo) (h h' : Bytes)
    → Fits p
    → from_bind_addrs p.node_id
        (p.host ++ b':' ∷ display p.raft_port)
        (h ++ b':' ∷ display p.http_port)
        (h' ++ b':' ∷ display p.replication_port)
      ≡ ok p
unfolding from_bind_addrs
from_bind_addrs_lem p h h' (id, raft, http, replication) =
    rw
      (
        parse_bind_addr_lem p.host p.raft_port raft,
        parse_bind_addr_lem h p.http_port http,
        parse_bind_addr_lem h' p.replication_port replication,
      )
      refl
