-- ===== src/Network/Receive.antt =====
-- `handle_connection`: handling a buffer is to receive its messages in order.
use raft_ebpf.Prelude.{
  ℕ, zero, suc, some, List, [], ◌∷◌, ◌++◌, Result, ok, err, blocked, pure, continue, ◌>>=◌, ◌>>◌,
  ◌≡◌, refl, sym, ◌∙◌,
}
use raft_ebpf.Common.{Heapless}
use raft_ebpf.RaftLog.Format.{Json}
use raft_ebpf.Node.State.{RaftNode, Handler}
use raft_ebpf.Network.Framing.{Wire}
use raft_ebpf.Network.Connection.{
  Frame, too_large, wait, complete, next_frame, receive, on_frame, process_buffer,
}
use raft_ebpf.Network.Frames.{on_next, frames}

pub continue_assoc :
    {A B C : Type 0} (r : Result A) (k : A → Handler B) (l : B → Handler C) (s : RaftNode)
    → (let (r', t) = continue r k s in continue r' l t) ≡ continue r (λ a. k a >>= l) s
continue_assoc (ok a) k l s = refl
continue_assoc (err e) k l s = refl
continue_assoc blocked k l s = refl

pub continue_same :
    {A B : Type 0} (r : Result A) (k l : A → Handler B) (s : RaftNode)
    → ((a : A) (t : RaftNode) → k a t ≡ l a t)
    → continue r k s ≡ continue r l s
continue_same (ok a) k l s same = same a s
continue_same (err e) k l s same = refl
continue_same blocked k l s same = refl

pub continue_unit : (r : Result (Unit {0})) (s : RaftNode) → continue r (λ _. pure tt) s ≡ (r, s)
continue_unit (ok a) s = refl
continue_unit (err e) s = refl
continue_unit blocked s = refl

pub waiting_frames :
    (fuel : ℕ) (buf : List ℕ) → next_frame buf ≡ wait → frames fuel buf ≡ ([], some buf)
unfolding frames
waiting_frames zero buf waiting = refl
waiting_frames (suc fuel) buf waiting = rw waiting refl

pub next_frame_nil : next_frame [] ≡ wait
unfolding next_frame
next_frame_nil = refl

module _ ⦃h : Heapless⦄ ⦃j : Json⦄ ⦃w : Wire⦄ where
  abbrev pub receive_all : List (List ℕ) → Handler (Unit {0})
  receive_all [] = pure tt
  receive_all (p ∷ ps) = receive p >> receive_all ps

  pub receive_all-append :
      (ps qs : List (List ℕ)) (n : RaftNode)
      → receive_all (ps ++ qs) n ≡ (receive_all ps >> receive_all qs) n
  receive_all-append [] qs n = refl
  receive_all-append (p ∷ ps) qs n =
      let (r, t) = receive p n in
      continue_same r (λ _. receive_all (ps ++ qs)) (λ _. receive_all ps >> receive_all qs) t
        (λ a s. receive_all-append ps qs s)
      ∙ sym (continue_assoc r (λ _. receive_all ps) (λ _. receive_all qs) t)

  -- handling a buffer is to receive its messages
  pub on_frame_lem :
      (fuel : ℕ) (f : Frame) (buf : List ℕ) (n : RaftNode)
      → ((left : List ℕ) (t : RaftNode)
          → process_buffer fuel left t
            ≡ (receive_all (frames fuel left).0 >> pure (frames fuel left).1) t)
      → on_frame f buf (process_buffer fuel) n
        ≡ (receive_all (on_next f buf (frames fuel)).0 >> pure (on_next f buf (frames fuel)).1) n
  on_frame_lem fuel too_large buf n ih = refl
  on_frame_lem fuel wait buf n ih = refl
  on_frame_lem fuel (complete p left) buf n ih =
      let (r, t) = receive p n in
      continue_same r (λ _. process_buffer fuel left)
        (λ _. receive_all (frames fuel left).0 >> pure (frames fuel left).1) t (λ a s. ih left s)
      ∙ sym (
          continue_assoc r (λ _. receive_all (frames fuel left).0) (λ _. pure (frames fuel left).1)
            t)

  pub process_buffer_lem :
      (fuel : ℕ) (buf : List ℕ) (n : RaftNode)
      → process_buffer fuel buf n ≡ (receive_all (frames fuel buf).0 >> pure (frames fuel buf).1) n
  unfolding process_buffer frames
  process_buffer_lem zero buf n = refl
  process_buffer_lem (suc fuel) buf n =
      on_frame_lem fuel (next_frame buf) buf n (λ left t. process_buffer_lem fuel left t)
