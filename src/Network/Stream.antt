-- ===== src/Network/Stream.antt =====
-- `handle_connection` over a stream: the messages arrive whole, in order, however it is cut.
use mathlib.Core.List.{append_assoc, append-nil}
use raft_ebpf.Prelude.{
  ℕ, zero, suc, ◌≤◌, ◌^◌, ◌%◌, false, Option, none, some, List, [], ◌∷◌, ◌++◌, map, Result, pure,
  continue, ◌>>=◌, ◌>>◌, ◌≡◌, refl, sym, ap, ◌∙◌, length, length-append, ltb, All, arith,
}
use raft_ebpf.Common.{Heapless, MessageEnvelope}
use raft_ebpf.RaftLog.Format.{Json}
use raft_ebpf.Node.State.{RaftNode, Handler}
use raft_ebpf.Network.Framing.{Wire, frame_of}
use raft_ebpf.Network.RoundTrip.{be_bytes_lem, take-append, drop-append}
use raft_ebpf.Network.Connection.{
  max_message_size, wait, complete, next_frame, bytes, receive_parsed, receive, on_rest,
  handle_connection,
}
use raft_ebpf.Network.Frames.{Frames, frames, glue, frames-IsLeft, frames_enough, frames-glue}
use raft_ebpf.Network.Receive.{
  continue_assoc, continue_same, continue_unit, waiting_frames, next_frame_nil, receive_all-append,
  process_buffer_lem, receive_all,
}

abbrev pub concat : List (List ℕ) → List ℕ
concat [] = []
concat (xs ∷ xss) = xs ++ concat xss

module _ ⦃h : Heapless⦄ ⦃j : Json⦄ ⦃w : Wire⦄ where
  abbrev pub Filled : List ℕ → Type 0
  Filled [] = ⊥
  Filled (b ∷ bs) = Unit

  -- the messages of the whole stream
  abbrev messages : List ℕ → List (List ℕ)
  messages stream = (frames (length stream) stream).0

  messages-glue :
      (buf more : List ℕ)
      → frames (length (buf ++ more)) (buf ++ more)
        ≡ glue (frames (length buf) buf) (λ r. frames (length (buf ++ more)) (r ++ more))
  messages-glue buf more =
      frames-glue (length (buf ++ more)) buf more (omega arith)
      ∙ ap (λ (x : Frames). glue x (λ r. frames (length (buf ++ more)) (r ++ more)))
          (frames_enough (length (buf ++ more)) buf (omega (arith, length-append buf more)))

  -- what follows one read
  after_read :
      (x : Frames) (fuel : ℕ) (more : List ℕ) (go_on : List ℕ → Handler (Unit {0})) (n : RaftNode)
      → ((r : List ℕ) (t : RaftNode)
          → x.1 ≡ some r
          → go_on r t ≡ receive_all (frames fuel (r ++ more)).0 t)
      → ((receive_all x.0 >> pure x.1) >>= λ left. on_rest left go_on) n
        ≡ receive_all (glue x (λ r. frames fuel (r ++ more))).0 n
  after_read (ps, none) fuel more go_on n rest =
      let (a, t) = receive_all ps n in
      continue_assoc a (λ _. pure none) (λ left. on_rest left go_on) t ∙ continue_unit a t
  after_read (ps, some r) fuel more go_on n rest =
      let (a, t) = receive_all ps n in
      continue_assoc a (λ _. pure (some r)) (λ left. on_rest left go_on) t
      ∙ continue_same a (λ _. go_on r) (λ _. receive_all (frames fuel (r ++ more)).0) t
          (λ u s. rest r s refl)
      ∙ sym (receive_all-append ps (frames fuel (r ++ more)).0 n)

  connection_lem :
      (chunks : List (List ℕ)) (buf : List ℕ) (n : RaftNode)
      → All Filled chunks
      → next_frame buf ≡ wait
      → handle_connection (map bytes chunks) buf n ≡ receive_all (messages (buf ++ concat chunks)) n
  unfolding handle_connection
  connection_lem [] buf n filled waiting =
      ap (λ (x : Frames). receive_all x.0 n) (sym (waiting_frames (length buf) buf waiting))
      ∙ ap (λ (l : List ℕ). receive_all (messages l) n) (sym (append-nil buf))
  connection_lem ([] ∷ cs) buf n filled waiting = absurd filled.0
  connection_lem ((b ∷ bs) ∷ cs) buf n filled waiting =
      let now = buf ++ b ∷ bs in
      let more = concat cs in
      let all = frames-IsLeft (length now) now (omega arith) in
      let go_on = λ (r : List ℕ) (t : RaftNode) (at : (frames (length now) now).1 ≡ some r).
        connection_lem cs r t filled.1 (all.waiting r at)
        ∙ ap (λ (x : Frames). receive_all x.0 t)
            (sym (
              frames_enough (length (now ++ more)) (r ++ more)
                (omega (arith, all.shorter r at, length-append r more, length-append now more)))) in
      ap
        (λ (x : Result (Option (List ℕ)) × RaftNode).
          continue x.0 (λ left. on_rest left (handle_connection (map bytes cs))) x.1)
        (process_buffer_lem (length now) now n)
      ∙ after_read (frames (length now) now) (length (now ++ more)) more
          (handle_connection (map bytes cs)) n go_on
      ∙ ap (λ (x : Frames). receive_all x.0 n) (sym (messages-glue now more))
      ∙ ap (λ (l : List ℕ). receive_all (messages l) n) (append_assoc buf (b ∷ bs) more)

  -- a payload that `handle_connection` takes
  abbrev pub Sendable : List ℕ → Type 0
  Sendable payload = length payload ≤ max_message_size

  next_frame-frame_of :
      (payload rest : List ℕ)
      → Sendable payload
      → next_frame (frame_of payload ++ rest) ≡ complete payload rest
  unfolding next_frame
  next_frame-frame_of payload rest fits =
      let size : length payload % 2 ^ 32 ≡ length payload = omega arith in
      let small : ltb max_message_size (length payload) ≡ false = ground arith in
      let enough : ltb (length (payload ++ rest)) (length payload) ≡ false =
        ground (arith, length-append payload rest) in
      rw
        (
          size,
          be_bytes_lem (length payload) (omega arith),
          small,
          enough,
          take-append payload rest,
          drop-append payload rest,
        )
        refl

  frames-frame_of :
      (payloads : List (List ℕ)) (fuel : ℕ)
      → All Sendable payloads
      → length payloads ≤ fuel
      → (frames fuel (concat (map frame_of payloads))).0 ≡ payloads
  unfolding frames
  frames-frame_of [] zero fits enough = refl
  frames-frame_of [] (suc fuel) fits enough =
      ap (λ (x : Frames). x.0) (waiting_frames (suc fuel) [] next_frame_nil)
  frames-frame_of (p ∷ ps) zero fits enough = absurd (omega arith)
  frames-frame_of (p ∷ ps) (suc fuel) fits enough =
      rw (next_frame-frame_of p (concat (map frame_of ps)) fits.0)
        (ap (λ (l : List (List ℕ)). p ∷ l) (frames-frame_of ps fuel fits.1 (omega arith)))

  length-frame_of :
      (payloads : List (List ℕ)) → length payloads ≤ length (concat (map frame_of payloads))
  length-frame_of [] = omega arith
  length-frame_of (p ∷ ps) =
      omega (arith, length-frame_of ps, length-append (frame_of p) (concat (map frame_of ps)))

  -- the messages, handled one after the other; an error of one is logged and the next is handled
  abbrev pub deliver : List MessageEnvelope → Handler (Unit {0})
  deliver [] = pure tt
  deliver (e ∷ es) = receive_parsed (some e) >> deliver es

  -- the payloads are the JSON of the envelopes
  abbrev pub Written : List MessageEnvelope → List (List ℕ) → Type 0
  Written [] [] = Unit
  Written (e ∷ es) (p ∷ ps) = (w.to_vec e ≡ some p) × Written es ps
  Written _ _ = ⊥

  receive_all-deliver :
      (es : List MessageEnvelope) (ps : List (List ℕ)) (n : RaftNode)
      → Written es ps
      → receive_all ps n ≡ deliver es n
  unfolding receive
  receive_all-deliver [] [] n written = refl
  receive_all-deliver (e ∷ es) (p ∷ ps) n written =
      let (a, t) = receive_parsed (some e) n in
      rw (w.from_slice-to_vec e written.0) (
        continue_same a (λ _. receive_all ps) (λ _. deliver es) t
          (λ u m. receive_all-deliver es ps m written.1))
  receive_all-deliver [] (p ∷ ps) n written = absurd written
  receive_all-deliver (e ∷ es) [] n written = absurd written

  -- Envelopes whose JSON has at most 2^20 bytes each are sent as frames, one after the other. In
  -- whatever pieces the stream arrives, none of them empty, the connection handles exactly these
  -- envelopes, in this order, and ends when the stream does.
  pub handle_connection-delivers :
      (es : List MessageEnvelope) (payloads chunks : List (List ℕ)) (n : RaftNode)
      → Written es payloads
      → All Sendable payloads
      → All Filled chunks
      → concat chunks ≡ concat (map frame_of payloads)
      → handle_connection (map bytes chunks) [] n ≡ deliver es n
  unfolding next_frame
  handle_connection-delivers es payloads chunks n written fits filled same =
      connection_lem chunks [] n filled refl
      ∙ ap (λ (l : List ℕ). receive_all (messages l) n) same
      ∙ ap (λ (ps : List (List ℕ)). receive_all ps n)
          (frames-frame_of payloads (length (concat (map frame_of payloads))) fits
            (length-frame_of payloads))
      ∙ receive_all-deliver es payloads n written
