-- ===== src/Daemon/Timing.antt =====
-- The election timer, from the bounds of a configuration.
use raft_ebpf.Prelude.{
  ℕ, ◌+◌, text_eq, ◌++◌, map, is_empty, u64_mod, ◌-◌, ◌≤◌, ◌<◌, Bool, true, false, some, ok, leb,
  not, pure, map_option, ◌≡◌, refl, ap, ◌∙◌, ◌&&◌, ◌||◌, if◌then◌else◌, arith,
}
use raft_ebpf.Common.{Heapless, string_of, NodeRole, follower, candidate, leader, same_role}
use raft_ebpf.RaftLog.{current_term, voted_for}
use raft_ebpf.RaftLog.Format.{Json}
use raft_ebpf.RaftLog.Recovery.{IsDurable}
use raft_ebpf.Node.State.{RaftNode, Handler, warn_error, warned}
use raft_ebpf.Node.Elect.{start_election}
use raft_ebpf.Node.Stand.{standing, candidacy, asked, IsDurable-standing}
use raft_ebpf.Node.Minority.{start_election_lem}
use raft_ebpf.HashMap.{keys}
use raft_ebpf.Daemon.Config.{Config}
use raft_ebpf.Daemon.Start.{Rng, from_millis, election_timeout}
use raft_ebpf.Daemon.Timers.{after_draw, election_round}

not_leader_lem :
    (role : NodeRole)
    → (same_role role follower || same_role role candidate) ≡ not (same_role role leader)
not_leader_lem follower = refl
not_leader_lem candidate = refl
not_leader_lem leader = refl

if_apply :
    (b : Bool) (f g : Handler (Unit {0})) (n : RaftNode)
    → (if b then f else g) n ≡ (if b then f n else g n)
if_apply true f g n = refl
if_apply false f g n = refl

not_both : {A : Type 0} (b : Bool) (x y : A) → (if b && false then x else y) ≡ y
not_both true x y = refl
not_both false x y = refl

module _ ⦃h : Heapless⦄ ⦃j : Json⦄ where
  -- a round whose timeout is drawn
  drawn_round :
      (timeout now : ℕ) (n : RaftNode)
      → let m : RaftNode = record n { clock = now } in
        after_draw (some timeout) now n ≡ (
          if not (same_role n.role leader) && leb timeout (now - n.last_heartbeat)
          then warned start_election m
          else (ok tt, m))
  unfolding after_draw
  drawn_round timeout now n = rw (not_leader_lem n.role) (
      if_apply (not (same_role n.role leader) && leb timeout (now - n.last_heartbeat))
        (warned start_election) (pure tt) (record n { clock = now }))

module _ ⦃h : Heapless⦄ ⦃j : Json⦄ ⦃r : Rng⦄ where
  -- a round of the timer, by the timeout that it draws
  election_round_lem :
      (config : Config) (draw now : ℕ) (n : RaftNode)
      → config.timing.election_timeout_min_ms ≤ config.timing.election_timeout_max_ms
      → let m : RaftNode = record n { clock = now } in
        (timeout : ℕ) × (from_millis config.timing.election_timeout_min_ms ≤ timeout)
        × (timeout ≤ from_millis config.timing.election_timeout_max_ms)
        × (election_round config draw now n ≡ (
            if not (same_role n.role leader) && leb timeout (now - n.last_heartbeat)
            then warned start_election m
            else (ok tt, m)))
  unfolding election_round
  election_round_lem config draw now n order =
      let low = config.timing.election_timeout_min_ms in
      let high = config.timing.election_timeout_max_ms in
      let (t, drawn, lo, hi) = r.gen_range_in draw low high order in
      let timeout : election_timeout config draw ≡ some (from_millis t) =
        ap (map_option from_millis) drawn in
      (
        from_millis t,
        omega arith,
        omega arith,
        ap (λ o. after_draw o now n) timeout ∙ drawn_round (from_millis t) now n,
      )

  quiet_round :
      (draw now : ℕ) (config : Config) (n : RaftNode)
      → config.timing.election_timeout_min_ms ≤ config.timing.election_timeout_max_ms
      → now - n.last_heartbeat < from_millis config.timing.election_timeout_min_ms
      → election_round config draw now n ≡ (ok tt, record n { clock = now })
  quiet_round draw now config n order early =
      let (timeout, low, high, run) = election_round_lem config draw now n order in
      let no : leb timeout (now - n.last_heartbeat) ≡ false = ground (arith, low, early) in
      run
      ∙ rw no (
          not_both (not (same_role n.role leader))
            (warned start_election (record n { clock = now })) _)

  standing_round :
      (draw now : ℕ) (config : Config) (n : RaftNode)
      → config.timing.election_timeout_min_ms ≤ config.timing.election_timeout_max_ms
      → same_role n.role leader ≡ false
      → n.log_held ≡ false
      → current_term n.log + 1 < u64_mod
      → is_empty n.peers ≡ false
      → IsDurable n.log
      → from_millis config.timing.election_timeout_max_ms ≤ now - n.last_heartbeat
      → election_round config draw now n ≡ (
        ok tt,
        record (standing (record n { clock = now; log_held = true })) { log_held = false },
      )
  standing_round draw now config n order follows free room peers d late =
      let (timeout, low, high, run) = election_round_lem config draw now n order in
      let yes : leb timeout (now - n.last_heartbeat) ≡ true = ground (arith, high, late) in
      run
      ∙ rw (yes, follows)
          (ap warn_error (start_election_lem (record n { clock = now }) free room peers d.healthy))

  abbrev stood : ℕ → RaftNode → RaftNode
  stood now n = record (standing (record n { clock = now; log_held = true })) { log_held = false }

  -- The election timer of a node with peers that is no leader, where the configured bounds are in
  -- order, the log's mutex is free, the log is in step with its files and the term is below 2^64 - 1.
  -- A round that wakes within the lower bound after the last heartbeat that the node has noted lets
  -- the time pass and does nothing. A round that wakes when the upper bound has passed makes the node a candidate of
  -- the next term, with its vote for itself on disk, and asks each peer for its vote; and within
  -- the lower bound after that the next round does nothing, so a term is given that long.
  pub election_round-stands :
      (config : Config) (draw now next_draw later : ℕ) (n : RaftNode)
      → config.timing.election_timeout_min_ms ≤ config.timing.election_timeout_max_ms
      → same_role n.role leader ≡ false
      → n.log_held ≡ false
      → current_term n.log + 1 < u64_mod
      → is_empty n.peers ≡ false
      → IsDurable n.log
      → let low = from_millis config.timing.election_timeout_min_ms in
        let high = from_millis config.timing.election_timeout_max_ms in
        let n' = (election_round config draw now n).1 in
        (now - n.last_heartbeat < low → n' ≡ record n { clock = now })
        × (high ≤ now - n.last_heartbeat
            → (n'.role ≡ candidate)
              × (current_term n'.log ≡ current_term n.log + 1)
              × (voted_for n'.log ≡ some (string_of 64 n.node_id))
              × IsDurable n'.log
              × (n'.outgoing
                  ≡ n.outgoing
                    ++ map (asked (candidacy (current_term n.log + 1) n) n) (keys n.peers)))
        × (high ≤ now - n.last_heartbeat
            → later - now < low
            → (election_round config next_draw later n').1 ≡ record n' { clock = later })
  election_round-stands config draw now next_draw later n order follows free room peers d =
      let run = standing_round draw now config n order follows free room peers d in
      (
        (λ early. ap (λ x. x.1) (quiet_round draw now config n order early)),
        (λ late. rw (run late) (
          refl,
          refl,
          refl,
          IsDurable-standing (record n { clock = now; log_held = true }) d,
          refl,
        )),
        (λ late soon.
            rw (run late)
              (ap (λ x. x.1) (quiet_round next_draw later config (stood now n) order soon))),
      )
