-- ===== src/Node/Advance.antt =====
-- The order in which the term and the vote advance, over the ways to build a handler.
use mathlib.Core.Path.{subst}
use raft_ebpf.Prelude.{
  ℕ, ◌≤◌, ◌<◌, String, len, text_eq, eq_iff, true, ◌≡◌, refl, sym, ap, ◌∙◌, Option, none, some,
  Result, ok, err, blocked, continue, ◌>>=◌, ◌>>◌, ltb, ltb→lt, Bool-cases, inl, inr, arith,
}
use raft_ebpf.Prelude.Keeps.{Keeps, Keeps-modify, view-bind}
use raft_ebpf.Common.{Heapless, string_of, string_of_fits, PersistentState, follower}
use raft_ebpf.RaftLog.{current_term, set_current_term}
use raft_ebpf.RaftLog.Format.{Json}
use raft_ebpf.RaftLog.Persistent.{persistent-set_current_term}
use raft_ebpf.Node.State.{RaftNode, Handler, release, with_log, on_log, set_role}
use raft_ebpf.Node.Vote.{can_vote, adopt_term}
use raft_ebpf.Node.Quiet.{saved, saved-release}

-- The term does not fall, and while it stays the same a vote that was given stands. A vote is a
-- `heapless::String<64>`, so it has 64 bytes at most.
pub record Advances (p q : PersistentState) : Type 0 where
  pub term : p.current_term ≤ q.current_term
  pub vote :
      q.current_term ≡ p.current_term
      → (v : String) → p.voted_for ≡ some v
      → len v ≤ 64
      → q.voted_for ≡ some v

pub Advances-refl : (p : PersistentState) → Advances p p
Advances-refl p = record { term = omega arith; vote = λ e v voted fits. voted }

pub Advances-trans : (p q r : PersistentState) → Advances p q → Advances q r → Advances p r
Advances-trans p q r a b = record {
  term = omega (arith, a.term, b.term);
  vote = λ e v voted fits.
      b.vote (omega (arith, a.term, b.term)) v (a.vote (omega (arith, a.term, b.term)) v voted fits)
        fits;
}

pub Advances-same : (p q : PersistentState) → q ≡ p → Advances p q
Advances-same p q e = rw e (Advances-refl p)

pub Advances-newer :
    (p : PersistentState) (t : ℕ) (v : Option String)
    → p.current_term < t
    → Advances p (record { current_term = t; voted_for = v })
Advances-newer p t v newer = record {
  term = omega arith;
  vote = λ e v' voted fits. absurd (omega arith);
}

module _ {A B : Type 0} where
  pub Advances-continue :
      (p : PersistentState) (r : Result A) (f : A → Handler B) (n : RaftNode)
      → Advances p (saved n)
      → ((a : A) → r ≡ ok a → Advances (saved n) (saved (f a n).1))
      → Advances p (saved (continue r f n).1)
  Advances-continue p (ok a) f n first rest = Advances-trans p (saved n) _ first (rest a refl)
  Advances-continue p (err e) f n first rest = first
  Advances-continue p blocked f n first rest = first

pub with_log-Advances :
    {A : Type 0} (body : Handler A) (n : RaftNode)
    → Advances (saved n) (saved (body (record n { log_held = true })).1)
    → Advances (saved n) (saved (with_log body n).1)
with_log-Advances body n a = elim (Bool-cases n.log_held) [
  | inl held ↦ rw held (Advances-refl (saved n))
  | inr free ↦ rw (free, saved-release (body (record n { log_held = true }))) a
]

pub result-release : {A : Type 0} (x : Result A × RaftNode) → (release x).0 ≡ x.0
result-release (ok a, n) = refl
result-release (err e, n) = refl
result-release (blocked, n) = refl

pub with_log-ok :
    {A : Type 0} (body : Handler A) (n : RaftNode) {a : A}
    → (with_log body n).0 ≡ ok a
    → (body (record n { log_held = true })).0 ≡ ok a
with_log-ok body n e = elim (Bool-cases n.log_held) [
  | inl held ↦ absurd (ground (arith, e))
  | inr free ↦ sym (result-release (body (record n { log_held = true }))) ∙ (rw free at e)
]

module _ ⦃h : Heapless⦄ ⦃j : Json⦄ where
  pub Advances-vote :
      (p : PersistentState) (c : String)
      → can_vote p.voted_for c ≡ true
      → Advances p (record p { voted_for = some (string_of 64 c) })
  Advances-vote p c free = record {
    term = omega arith;
    vote = λ e v voted fits.
        let free_v : can_vote (some v) c ≡ true = subst (λ o. can_vote o c ≡ true) voted free in
        let same : v ≡ c = (eq_iff v c).0 free_v in
        ap some (ap (string_of 64) (sym same) ∙ string_of_fits 64 v fits);
  }

  -- a newer term is taken over, whatever the disk does and whatever quiet part follows
  pub newer_term-Advances :
      (t : ℕ) (rest : Handler (Unit {0})) (n : RaftNode)
      → current_term n.log < t
      → Keeps saved rest
      → Advances (saved n) (saved ((on_log (set_current_term t) >> rest) n).1)
  newer_term-Advances t rest n newer quiet =
      subst (Advances (saved n))
        (sym (
          view-bind (on_log (set_current_term t)) (λ _. rest) n (λ _. quiet)
          ∙ persistent-set_current_term t n.log))
        (Advances-newer (saved n) t none newer)

  pub adopt_term-Advances :
      (req_term : ℕ) (n : RaftNode)
      → Advances (saved n) (saved (adopt_term (current_term n.log) req_term n).1)
  adopt_term-Advances req_term n = elim (Bool-cases (ltb (current_term n.log) req_term)) [
    | inl newer ↦ rw newer (
        newer_term-Advances req_term (set_role follower) n
          (ltb→lt (current_term n.log) req_term newer) (search Keeps-modify))
    | inr same ↦ rw same (Advances-refl (saved n))
  ]

  pub quiet-Advances :
      {A : Type 0} (m : Handler A) (n : RaftNode)
      → Keeps saved m
      → Advances (saved n) (saved (m n).1)
  quiet-Advances m n k = Advances-same (saved n) _ (k.at n)

  pub bind-Advances :
      {A B : Type 0} (m : Handler A) (f : A → Handler B) (n : RaftNode)
      → Advances (saved n) (saved (m n).1)
      → ((a : A) (t : RaftNode)
          → (m n).0 ≡ ok a
          → t ≡ (m n).1
          → Advances (saved t) (saved (f a t).1))
      → Advances (saved n) (saved ((m >>= f) n).1)
  bind-Advances m f n first rest =
      let (r, t) = m n in Advances-continue (saved n) r f t first (λ a e. rest a t e refl)
