-- ===== src/Cluster/Manager/Sequences.antt =====
-- The operations of the manager that give up the lock on the state are sequences of its steps.
use save.Prelude.{
  refl, ℕ, ◌≡◌, Bytes, List, [], ◌∷◌, Option, none, some, Bool, true, false, ◌==◌, Bool-cases, inl,
  inr,
}
use save.Prelude.Result.{Result-cases}
use save.Replication.{Nodes, find}
use save.Replication.Membership
use save.Cluster.State.{Instant, NodeState}
use save.Cluster.Manager.{
  ClusterManager, ClusterEvent, HealthCheck, add_node, peer_added, connect_peer, connect_peers,
  discover_peers, health_check, heartbeat, beat,
}
use save.Cluster.Manager.Writes.{
  Step, Steps, step, coordinating, adding, putting_down, discovered, beating,
}

module _ {E : Type 0} (nodes : Nodes E) (latency : ℕ → Option ℕ) (m0 : ClusterManager) where
  abbrev Reached : ClusterManager → Type 0
  Reached m = (stale : Bool) × Steps E m0 stale m

  abbrev take_step :
      (m m' : ClusterManager) (w : Reached m) (stale' : Bool) → Step E m w.0 stale' m' → Reached m'
  take_step m m' (b, ss) b' s = (b', step b b' m m' ss s)

  beat-Reached :
      (now : Instant) (id : ℕ) (addr : Bytes) (m : ClusterManager) (result : HealthCheck)
      (o : Option NodeState)
      → find id m.state.nodes ≡ o
      → Reached m
      → let r : ClusterManager × List ClusterEvent = elim o [
        | none ↦ (m, [])
        | some old ↦ beat nodes latency now id addr result old m
      ] in
        Reached r.0
  beat-Reached now id addr m result none f w = w
  beat-Reached now id addr m result (some old) f w =
      take_step m _ w w.0 (beating nodes latency now id addr result old f)

  pub heartbeat-Reached :
      (now : Instant) (id : ℕ) (addr : Bytes) (m : ClusterManager)
      → Reached m
      → Reached (heartbeat nodes latency now id addr m).0
  unfolding heartbeat
  heartbeat-Reached now id addr m =
      beat-Reached now id addr m (health_check nodes latency id m.coordinator)
        (find id m.state.nodes) refl

  connect_peer-Reached :
      (now : Instant) (id : ℕ) (addr : Bytes) (m : ClusterManager)
      → Reached m
      → Reached (connect_peer nodes latency now id addr m).0
  unfolding connect_peer add_node peer_added
  connect_peer-Reached now id addr m w =
      let c = (Membership.add_node nodes id addr m.coordinator).1 in
      let m' = record m { coordinator = c } in
      let w' = take_step m m' w w.0 (coordinating c) in
      elim (Bool-cases (id == m.local_node_id)) [
        | inl e ↦ rw e w
        | inr e ↦ elim (Result-cases (Membership.add_node nodes id addr m.coordinator).0) [
          | inl (u, f) ↦ rw (e, f) (take_step m' _ w' false (adding nodes latency now id addr))
          | inr (x, f) ↦ rw (e, f) (take_step m' _ w' true (putting_down id addr))
        ]
      ]

  connect_peers-Reached :
      (now : Instant) (peers : List (ℕ × Bytes)) (m : ClusterManager)
      → Reached m
      → Reached (connect_peers nodes latency now peers m).0
  unfolding connect_peers
  connect_peers-Reached now [] m w = w
  connect_peers-Reached now ((id, addr) ∷ peers) m w =
      connect_peers-Reached now peers (connect_peer nodes latency now id addr m).0
        (connect_peer-Reached now id addr m w)

  -- After a discovery that no other operation interrupts the quorum is up to date.
  pub discover_peers-Reached :
      (now : Instant) (peer : ℕ × Bytes) (peers : List (ℕ × Bytes)) (m : ClusterManager)
      → Reached m
      → Steps E m0 false (discover_peers nodes latency now (peer ∷ peers) m).0
  unfolding discover_peers
  discover_peers-Reached now peer peers m w =
      (take_step _ _ (connect_peers-Reached now (peer ∷ peers) m w) false (discovered now)).1
