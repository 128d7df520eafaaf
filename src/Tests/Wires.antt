-- ===== src/Tests/Wires.antt =====
-- A function that meets the interface of serde_json on envelopes. It writes answers without names.
use mathlib.Core.Path.{subst}
use raft_ebpf.Prelude.{
  some-inj, ℕ, zero, suc, String, Bool, true, false, ◌≡◌, refl, Option, none, some, List, [], ◌∷◌,
}
use raft_ebpf.Common.{
  MessageEnvelope, RaftMessage, append_entries, append_entries_response, request_vote,
  request_vote_response, client_request, client_response,
}
use raft_ebpf.Network.Framing.{Wire}

abbrev bit : Bool → ℕ
bit false = 0
bit true = 1

abbrev unbit : ℕ → Bool
unbit zero = false
unbit (suc n) = true

abbrev named : String → List ℕ → Option (List ℕ)
named String.[] v = some v
named (String.◌∷◌ c s) v = none

abbrev write_message : RaftMessage → Option (List ℕ)
write_message (append_entries_response r) =
    named r.node_id (0 ∷ r.term ∷ bit r.success ∷ r.last_log_index ∷ [])
write_message (request_vote_response r) = named r.node_id (1 ∷ r.term ∷ bit r.vote_granted ∷ [])
write_message _ = none

abbrev write_parts : String → String → RaftMessage → Option (List ℕ)
write_parts String.[] String.[] m = write_message m
write_parts _ _ m = none

abbrev read_parts : List ℕ → Option MessageEnvelope
read_parts (zero ∷ t ∷ s ∷ l ∷ []) = some (record {
  from = "";
  to = "";
  message =
      append_entries_response
        (record { term = t; success = unbit s; last_log_index = l; node_id = "" });
})
read_parts (suc k ∷ t ∷ g ∷ []) = some (record {
  from = "";
  to = "";
  message = request_vote_response (record { term = t; vote_granted = unbit g; node_id = "" });
})
read_parts _ = none

-- the envelope without names around a message
abbrev bare : RaftMessage → MessageEnvelope
bare m = record { from = ""; to = ""; message = m }

unbit-bit : (s : Bool) → unbit (bit s) ≡ s
unbit-bit true = refl
unbit-bit false = refl

read-write_append :
    (t l : ℕ) (s : Bool) (id : String) {b : List ℕ}
    → named id (0 ∷ t ∷ bit s ∷ l ∷ []) ≡ some b
    → read_parts b
      ≡ some (
          bare (
            append_entries_response
              (record { term = t; success = s; last_log_index = l; node_id = id })))
read-write_append t l s String.[] e =
    subst
      (λ (b : List ℕ).
        read_parts b
        ≡ some (
            bare (
              append_entries_response
                (record { term = t; success = s; last_log_index = l; node_id = "" }))))
      (some-inj _ _ e) (rw (unbit-bit s) refl)
read-write_append t l s (String.◌∷◌ c id) e = absurd cc

read-write_vote :
    (t : ℕ) (g : Bool) (id : String) {b : List ℕ}
    → named id (1 ∷ t ∷ bit g ∷ []) ≡ some b
    → read_parts b
      ≡ some (bare (request_vote_response (record { term = t; vote_granted = g; node_id = id })))
read-write_vote t g String.[] e =
    subst
      (λ (b : List ℕ).
        read_parts b
        ≡ some (bare (request_vote_response (record { term = t; vote_granted = g; node_id = "" }))))
      (some-inj _ _ e) (rw (unbit-bit g) refl)
read-write_vote t g (String.◌∷◌ c id) e = absurd cc

read-write_message :
    (m : RaftMessage) {b : List ℕ} → write_message m ≡ some b → read_parts b ≡ some (bare m)
read-write_message (append_entries_response r) e =
    read-write_append r.term r.last_log_index r.success r.node_id e
read-write_message (request_vote_response r) e = read-write_vote r.term r.vote_granted r.node_id e
read-write_message (append_entries r) e = absurd cc
read-write_message (request_vote r) e = absurd cc
read-write_message (client_request r) e = absurd cc
read-write_message (client_response r) e = absurd cc

pub read-write_parts :
    (from to : String) (m : RaftMessage) {b : List ℕ}
    → write_parts from to m ≡ some b
    → read_parts b ≡ some (record { from = from; to = to; message = m })
read-write_parts String.[] String.[] m e = read-write_message m e
read-write_parts (String.◌∷◌ c s) to m e = absurd cc
read-write_parts String.[] (String.◌∷◌ c s) m e = absurd cc

instance abbrev pub answers : Wire
answers = record {
  to_vec = λ e. write_parts e.from e.to e.message;
  from_slice = read_parts;
  from_slice-to_vec = λ e written. read-write_parts e.from e.to e.message written;
}
