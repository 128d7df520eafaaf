-- ===== src/Network/Connection.antt =====
-- `handle_connection`: the loop that reads a stream and handles each complete message.
use raft_ebpf.Prelude.{
  ℕ, zero, suc, ◌*◌, Option, none, some, List, [], ◌∷◌, ◌++◌, ok, io, pure, throw, ◌>>=◌, ◌>>◌,
  length, take, ltb, if◌then◌else◌,
}
use raft_ebpf.Common.{Heapless, MessageEnvelope}
use raft_ebpf.RaftLog.Format.{Json}
use raft_ebpf.Node.State.{warn_error, Handler}
use raft_ebpf.Node.Dispatch.{handle_message}
use raft_ebpf.Network.Framing.{Wire, from_be_bytes, drop}

-- `MAX_MESSAGE_SIZE`
abbrev pub max_message_size : ℕ
max_message_size = 1024 * 1024

-- What the start of the buffer is: a length that is too large, a message that is not complete, or
-- a payload and what follows it.
pub data Frame : Type 0 where
  too_large wait : Frame
  complete : List ℕ → List ℕ → Frame

abbrev pub frame_at : ℕ → List ℕ → Frame
frame_at size rest =
    if ltb max_message_size size
    then too_large
    else if ltb (length rest) size
    then wait
    else complete (take size rest) (drop size rest)

unfoldable pub next_frame : List ℕ → Frame
next_frame (a ∷ b ∷ c ∷ d ∷ rest) = frame_at (from_be_bytes a b c d) rest
next_frame _ = wait

-- One `read_buf`: some bytes, none at the end of the stream, or an error.
pub data Read : Type 0 where
  bytes : List ℕ → Read
  failed : Read

module _ ⦃h : Heapless⦄ ⦃j : Json⦄ where
  abbrev pub receive_parsed : Option MessageEnvelope → Handler (Unit {0})
  receive_parsed none n = (ok tt, n)
  receive_parsed (some envelope) n = warn_error (handle_message envelope n)

module _ ⦃h : Heapless⦄ ⦃j : Json⦄ ⦃w : Wire⦄ where
  -- the match on `serde_json::from_slice`
  unfoldable pub receive : List ℕ → Handler (Unit {0})
  unfolding handle_message
  receive payload = receive_parsed (w.from_slice payload)

  abbrev pub on_frame :
      Frame → List ℕ → (List ℕ → Handler (Option (List ℕ))) → Handler (Option (List ℕ))
  on_frame too_large buf rest = pure none
  on_frame wait buf rest = pure (some buf)
  on_frame (complete payload left) buf rest = do receive payload; rest left

  -- `while buf.len() >= 4`: what is left in the buffer, or nothing where the source has returned.
  -- Each round takes four bytes at least, so the length of the buffer is enough fuel.
  unfoldable pub process_buffer : ℕ → List ℕ → Handler (Option (List ℕ))
  unfolding next_frame receive
  process_buffer zero buf = pure (some buf)
  process_buffer (suc fuel) buf = on_frame (next_frame buf) buf (process_buffer fuel)

  abbrev pub on_rest : Option (List ℕ) → (List ℕ → Handler (Unit {0})) → Handler (Unit {0})
  on_rest none go_on = pure tt
  on_rest (some buf) go_on = go_on buf

  -- over the reads that the stream gives
  unfoldable pub handle_connection : List Read → List ℕ → Handler (Unit {0})
  unfolding process_buffer
  handle_connection [] buf = pure tt
  handle_connection (failed ∷ reads) buf = throw io
  handle_connection (bytes [] ∷ reads) buf = pure tt
  handle_connection (bytes (b ∷ bs) ∷ reads) buf = do
    left ← process_buffer (length (buf ++ b ∷ bs)) (buf ++ b ∷ bs)
    on_rest left (handle_connection reads)
