-- ===== src/Cluster/Manager/Writes.antt =====
-- The manager as a state machine: its operations as steps, and what any sequence of steps keeps.
use save.Prelude.{
  ℕ, ◌+◌, ◌*◌, ◌≤◌, ◌<◌, ◌≡◌, Bytes, Option, some, Bool, true, false, arith, Bool-cases, inl, inr,
  ap,
}
use save.Replication.{Coordinator, Nodes, find}
use save.Cluster.State.{
  Instant, NodeState, new_state, check_quorum, should_accept_writes, total_node_count,
  available_node_count,
}
use save.Cluster.State.Quorum.{check_quorum_iff}
use save.Cluster.Manager.{
  ClusterManager, HealthCheck, remove_node, update_leader, same_leader, add_connected, put_down,
  end_discovery, beat, can_write,
}
use save.Cluster.Manager.Invariant.{WellFormed, all_sound, all_sound-remove}
use save.Cluster.Manager.Adding.{
  NodesSound, nodes_sound, add_connected-WellFormed, put_down-NodesSound, end_discovery-WellFormed,
}
use save.Cluster.Manager.Heartbeats.{beat-WellFormed, beat-NodesSound}

remove_node-WellFormed :
    (now : Instant) (id : ℕ) (m : ClusterManager)
    → NodesSound m
    → WellFormed (remove_node now id m).0
unfolding WellFormed NodesSound remove_node check_quorum total_node_count available_node_count
remove_node-WellFormed now id m (s, t) = (λ h. h, all_sound-remove id m.state.nodes s, t)

-- The invariant, of which the quorum is left out while it may be out of date.
abbrev Holds : Bool → ClusterManager → Type 0
Holds false m = WellFormed m
Holds true m = NodesSound m

Holds-NodesSound : (stale : Bool) (m : ClusterManager) → Holds stale m → NodesSound m
Holds-NodesSound false m w = nodes_sound m w
Holds-NodesSound true m w = w

Holds-keeps :
    (m m' : ClusterManager)
    → (WellFormed m → WellFormed m')
    → (NodesSound m → NodesSound m')
    → (stale : Bool) → Holds stale m
    → Holds stale m'
Holds-keeps m m' f g false w = f w
Holds-keeps m m' f g true w = g w

led-Holds :
    (stale : Bool) (now : Instant) (leader : Option ℕ) (m : ClusterManager)
    → Holds stale m
    → Holds stale (record m { state = record m.state { leader_id = leader; last_updated = now } })
unfolding WellFormed NodesSound check_quorum total_node_count available_node_count
led-Holds false now leader m w = w
led-Holds true now leader m w = w

update_leader-Holds :
    (stale : Bool) (now : Instant) (leader : Option ℕ) (m : ClusterManager)
    → Holds stale m
    → Holds stale (update_leader now leader m).0
unfolding update_leader
update_leader-Holds stale now leader m w =
    elim (Bool-cases (same_leader m.state.leader_id leader)) [
      | inl e ↦ rw e w
      | inr e ↦ rw e (led-Holds stale now leader m w)
    ]

recoordinated-Holds :
    (stale : Bool) (c : Coordinator) (m : ClusterManager)
    → Holds stale m
    → Holds stale (record m { coordinator = c })
unfolding WellFormed NodesSound
recoordinated-Holds false c m w = w
recoordinated-Holds true c m w = w

-- One step of the manager, from one giving up of the lock on the state to the next. Each step has its
-- own `nodes` and `latency`: nodes fail and come back between steps. The first flag says whether a
-- peer was put down as unknown since `has_quorum` was last computed for sure, the second whether one
-- was after the step.
pub data Step (E : Type 0) (m : ClusterManager) (stale : Bool)
    : Bool → ClusterManager → Type 0 where
  -- A client is connected or dropped, at any time and by any operation.
  coordinating : (c : Coordinator) → Step E m stale stale (record m { coordinator = c })
  -- The end of `add_node`, of its own or within `discover_peers`.
  adding :
      (nodes : Nodes E) (latency : ℕ → Option ℕ) (now : Instant) (id : ℕ) (addr : Bytes)
      → Step E m stale false (add_connected nodes latency now id addr m).0
  -- `discover_peers` after an `add_node` that failed, and at its end.
  putting_down : (id : ℕ) (addr : Bytes) → Step E m stale true (put_down id addr m)
  discovered : (now : Instant) → Step E m stale false (end_discovery now m).0
  removing : (now : Instant) (id : ℕ) → Step E m stale false (remove_node now id m).0
  leading :
      (now : Instant) (leader : Option ℕ) → Step E m stale stale (update_leader now leader m).0
  -- A heartbeat once the health check has given any result. It may skip the update of `has_quorum`.
  beating :
      (nodes : Nodes E) (latency : ℕ → Option ℕ) (now : Instant) (id : ℕ) (addr : Bytes)
      (result : HealthCheck) (old : NodeState)
      → find id m.state.nodes ≡ some old
      → Step E m stale stale (beat nodes latency now id addr result old m).0

pub data Steps (E : Type 0) (m : ClusterManager) : Bool → ClusterManager → Type 0 where
  start : Steps E m false m
  step :
      (stale stale' : Bool) (m' m'' : ClusterManager)
      → Steps E m stale m'
      → Step E m' stale stale' m''
      → Steps E m stale' m''

module _ {E : Type 0} where
  Step-Holds :
      (m m' : ClusterManager) (stale stale' : Bool)
      → Step E m stale stale' m'
      → Holds stale m
      → Holds stale' m'
  Step-Holds m _ b _ (coordinating c) w = recoordinated-Holds b c m w
  Step-Holds m _ b _ (adding nodes latency now id addr) w =
      add_connected-WellFormed nodes latency now id addr m (Holds-NodesSound b m w)
  Step-Holds m _ b _ (putting_down id addr) w =
      put_down-NodesSound id addr m (Holds-NodesSound b m w)
  Step-Holds m _ b _ (discovered now) w = end_discovery-WellFormed now m (Holds-NodesSound b m w)
  Step-Holds m _ b _ (removing now id) w = remove_node-WellFormed now id m (Holds-NodesSound b m w)
  Step-Holds m _ b _ (leading now leader) w = update_leader-Holds b now leader m w
  Step-Holds m _ b _ (beating nodes latency now id addr result old found) w =
      Holds-keeps m (beat nodes latency now id addr result old m).0
        (λ w. beat-WellFormed nodes latency now id addr result old m w found)
        (λ w. beat-NodesSound nodes latency now id addr result old m w) b w

  Steps-Holds :
      (m m' : ClusterManager) (stale : Bool) → Steps E m stale m' → WellFormed m → Holds stale m'
  Steps-Holds m _ _ start w = w
  Steps-Holds m _ _ (step b b' m' m'' ss s) w = Step-Holds m' m'' b b' s (Steps-Holds m m' b ss w)

  -- Started fresh with a failure threshold of two or more, a manager accepts writes only while more
  -- than half of the nodes it knows, itself included, are available. This holds after any sequence of
  -- steps of its operations, discoveries and heartbeats, in any order and whatever nodes answer at
  -- each, except while `discover_peers` has put a peer down as unknown and no addition, no removal and
  -- no end of a discovery has come since.
  pub can_write_majority :
      (m m' : ClusterManager) (now : Instant)
      → m.state ≡ new_state now m.local_node_id
      → 2 ≤ m.config.failure_threshold
      → Steps E m false m'
      → can_write m' ≡ true
      → total_node_count m'.state < 2 * (available_node_count m'.state + 1)
  unfolding WellFormed can_write should_accept_writes new_state
  can_write_majority m m' now fresh t ss h =
      let (q, s, t') = Steps-Holds m m' false ss (
        λ k. absurd (ground (arith, ap (λ s. s.has_quorum) fresh)),
        ap (λ s. all_sound s.nodes) fresh,
        t,
      ) in
      (check_quorum_iff m'.state).0 (q (ground arith))
