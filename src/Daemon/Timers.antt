-- ===== src/Daemon/Timers.antt =====
-- The rounds of the two timer tasks of raft/src/main.rs. A round is run with the time at which its
-- sleep ends; the tasks log an error of a call and go on.
use raft_ebpf.Prelude.{
  ℕ, Option, none, some, blocked, pure, gets, modify, ◌>>=◌, ◌>>◌, ◌&&◌, ◌||◌, leb, if◌then◌else◌,
}
use raft_ebpf.Common.{Heapless, same_role, follower, candidate, leader}
use raft_ebpf.RaftLog.Format.{Json}
use raft_ebpf.Node.State.{Handler, warned}
use raft_ebpf.Node.Heartbeat.{send_heartbeats}
use raft_ebpf.Node.Elect.{start_election}
use raft_ebpf.Daemon.Config.{Config}
use raft_ebpf.Daemon.Start.{Rng, election_timeout, time_since_heartbeat}

-- the time passes
abbrev pub wake : ℕ → Handler (Unit {0})
wake now = modify (λ n. record n { clock = now })

module _ ⦃h : Heapless⦄ ⦃j : Json⦄ where
  -- the round after its timeout was drawn; the task ends where the draw panics
  unfoldable pub after_draw : Option ℕ → ℕ → Handler (Unit {0})
  unfolding start_election
  after_draw none now = λ n. (blocked, n)
  after_draw (some timeout) now = do
    wake now
    n ← gets (λ n. n)
    if (same_role n.role follower || same_role n.role candidate)
          && leb timeout (time_since_heartbeat n)
        then warned start_election
        else pure tt

  unfoldable pub election_round : ⦃r : Rng⦄ → Config → ℕ → ℕ → Handler (Unit {0})
  unfolding after_draw
  election_round config draw now = after_draw (election_timeout config draw) now

  unfoldable pub heartbeat_round : ℕ → Handler (Unit {0})
  unfolding send_heartbeats
  heartbeat_round now = do
    wake now
    n ← gets (λ n. n)
    if same_role n.role leader then warned send_heartbeats else pure tt
