-- ===== src/Daemon/Safe.antt =====
-- Handlers that keep a node sound, however they end: one rule for each way to build a handler.
use raft_ebpf.Prelude.{
  Bool, true, false, ◌≡◌, refl, Result, ok, err, blocked, Exec, pure, gets, modify, continue, ◌>>=◌,
  ◌>>◌, if◌then◌else◌, Bool-cases, inl, inr,
}
use raft_ebpf.Common.{Heapless}
use raft_ebpf.RaftLog.{RaftLog}
use raft_ebpf.RaftLog.Format.{Json}
use raft_ebpf.Node.State.{RaftNode, Handler, release, with_log, on_log}
use raft_ebpf.Daemon.Sound.{Sound, SoundAt}

module _ ⦃h : Heapless⦄ ⦃j : Json⦄ where
  pub record Safe {A : Type 0} (m : Handler A) : Type 0 where
    pub at : (n : RaftNode) → Sound n → Sound (m n).1

  -- what changes nothing that soundness speaks of
  pub Sound-same : (n : RaftNode) → Sound n → Sound n
  Sound-same n s = s

  module _ {A : Type 0} where
    pub Safe-pure : (a : A) → Safe (pure a)
    Safe-pure a = record { at = λ n s. s }

    pub Safe-gets : (f : RaftNode → A) → Safe (gets f)
    Safe-gets f = record { at = λ n s. s }

    pub Safe-if : (b : Bool) (m k : Handler A) → Safe m → Safe k → Safe (if b then m else k)
    Safe-if true m k sm sk = sm
    Safe-if false m k sm sk = sk

    Sound-release : (x : Result A × RaftNode) → Sound x.1 → Sound (release x).1
    Sound-release (ok a, n) s = s
    Sound-release (err e, n) s = s
    Sound-release (blocked, n) s = s

    pub with_log-Sound :
        (body : Handler A) (n : RaftNode)
        → Sound n
        → Sound (body (record n { log_held = true })).1
        → Sound (with_log body n).1
    with_log-Sound body n s after = elim (Bool-cases n.log_held) [
      | inl held ↦ rw held s
      | inr free ↦ rw free (Sound-release (body (record n { log_held = true })) after)
    ]

    pub Safe-with_log : (body : Handler A) → Safe body → Safe (with_log body)
    Safe-with_log body k = record {
      at = λ n s. with_log-Sound body n s (k.at (record n { log_held = true }) s);
    }

    pub Safe-on_log :
        (m : Exec RaftLog A)
        → ((n : RaftNode)
            → Sound n
            → SoundAt (m n.log).1 n.commit_index n.last_applied n.state_machine)
        → Safe (on_log m)
    Safe-on_log m keeps = record { at = λ n s. keeps n s }

  pub Safe-modify :
      (f : RaftNode → RaftNode) → ((n : RaftNode) → Sound n → Sound (f n)) → Safe (modify f)
  Safe-modify f keeps = record { at = keeps }

  module _ {A B : Type 0} where
    pub continue-Sound :
        (r : Result A) (f : A → Handler B) (n : RaftNode)
        → Sound n
        → ((a : A) → r ≡ ok a → Sound (f a n).1)
        → Sound (continue r f n).1
    continue-Sound (ok a) f n s next = next a refl
    continue-Sound (err e) f n s next = s
    continue-Sound blocked f n s next = s

    pub Safe-bind :
        (m : Handler A) (f : A → Handler B) → Safe m → ((a : A) → Safe (f a)) → Safe (m >>= f)
    Safe-bind m f km kf = record {
      at = λ n s.
          let (r, n') = m n in continue-Sound r f n' (km.at n s) (λ a e. (kf a).at n' (km.at n s));
    }

    pub Safe-then : (m : Handler A) (k : Handler B) → Safe m → Safe k → Safe (m >> k)
    Safe-then m k km kk = Safe-bind m (λ _. k) km (λ _. kk)

  pub ruleset safe_rules =
      (Safe-pure, Safe-gets, Safe-if, Safe-with_log, Safe-modify, Safe-bind, Safe-then, Sound-same)
