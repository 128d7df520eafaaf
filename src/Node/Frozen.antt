-- ===== src/Node/Frozen.antt =====
-- What handlers leave as it is where a task keeps the log's mutex for ever.
use raft_ebpf.Prelude.{
  ℕ, Bool, true, false, ◌≡◌, refl, ap, ◌∙◌, Result, ok, err, blocked, List, pure, gets, modify,
  continue, ◌>>=◌, ◌>>◌, if◌then◌else◌,
}
use raft_ebpf.Common.{NodeRole, MessageEnvelope}
use raft_ebpf.StateMachine.{StateMachine}
use raft_ebpf.RaftLog.{RaftLog}
use raft_ebpf.Node.State.{RaftNode, Handler, with_log, warn_error, warned}

-- the parts of a node that consensus is about, with the mutex and the messages that were sent
pub record Frame : Type 0 where
  pub log : RaftLog
  pub log_held : Bool
  pub role : NodeRole
  pub commit_index : ℕ
  pub last_applied : ℕ
  pub state_machine : StateMachine
  pub outgoing : List MessageEnvelope

abbrev pub frame : RaftNode → Frame
frame n = record {
  log = n.log;
  log_held = n.log_held;
  role = n.role;
  commit_index = n.commit_index;
  last_applied = n.last_applied;
  state_machine = n.state_machine;
  outgoing = n.outgoing;
}

pub record Frozen {A : Type 0} (m : Handler A) : Type 0 where
  pub at : (n : RaftNode) → n.log_held ≡ true → frame (m n).1 ≡ frame n

pub held_after : (n m : RaftNode) → frame m ≡ frame n → n.log_held ≡ true → m.log_held ≡ true
held_after n m same held = ap (λ f. f.log_held) same ∙ held

module _ {A : Type 0} where
  pub Frozen-pure : (a : A) → Frozen (pure a)
  Frozen-pure a = record { at = λ n held. refl }

  pub Frozen-gets : (f : RaftNode → A) → Frozen (gets f)
  Frozen-gets f = record { at = λ n held. refl }

  pub Frozen-if : (b : Bool) (m k : Handler A) → Frozen m → Frozen k → Frozen (if b then m else k)
  Frozen-if true m k fm fk = fm
  Frozen-if false m k fm fk = fk

  -- the lock is never granted
  pub Frozen-with_log : (body : Handler A) → Frozen (with_log body)
  Frozen-with_log body = record { at = λ n held. rw held refl }

pub Frozen-modify :
    (f : RaftNode → RaftNode) → ((n : RaftNode) → frame (f n) ≡ frame n) → Frozen (modify f)
Frozen-modify f same = record { at = λ n held. same n }

module _ {A B : Type 0} where
  -- so nothing behind the lock is reached
  pub Frozen-locked : (body : Handler A) (f : A → Handler B) → Frozen (with_log body >>= f)
  Frozen-locked body f = record { at = λ n held. rw held refl }

  continue-Frozen :
      (r : Result A) (f : A → Handler B) (n m : RaftNode)
      → frame m ≡ frame n
      → n.log_held ≡ true
      → ((a : A) → Frozen (f a))
      → frame (continue r f m).1 ≡ frame n
  continue-Frozen (ok a) f n m same held k = (k a).at m (held_after n m same held) ∙ same
  continue-Frozen (err e) f n m same held k = same
  continue-Frozen blocked f n m same held k = same

  pub Frozen-bind :
      (m : Handler A) (f : A → Handler B) → Frozen m → ((a : A) → Frozen (f a)) → Frozen (m >>= f)
  Frozen-bind m f km kf = record {
    at = λ n held. let (r, n') = m n in continue-Frozen r f n n' (km.at n held) held kf;
  }

  pub Frozen-then : (m : Handler A) (k : Handler B) → Frozen m → Frozen k → Frozen (m >> k)
  Frozen-then m k km kk = Frozen-bind m (λ _. k) km (λ _. kk)

frame-warn_error : (x : Result (Unit {0}) × RaftNode) → frame (warn_error x).1 ≡ frame x.1
frame-warn_error (ok u, n) = refl
frame-warn_error (err e, n) = refl
frame-warn_error (blocked, n) = refl

pub Frozen-warned : (call : Handler (Unit {0})) → Frozen call → Frozen (warned call)
Frozen-warned call k = record { at = λ n held. frame-warn_error (call n) ∙ k.at n held }

pub ruleset frozen_rules = (
  Frozen-pure, Frozen-gets, Frozen-if, Frozen-with_log, Frozen-modify, Frozen-locked, Frozen-bind,
  Frozen-then, Frozen-warned,
)
