-- ===== src/Cli/Fresh.antt =====
-- Messages told apart by their keys: the timestamp with the text.
use raft_ebpf.Prelude.{
  String, text_eq, false, List, [], ◌∷◌, ◌++◌, map, if◌then◌else◌, ◌≡◌, refl, ap,
}
use raft_ebpf.Ipc.Requests.{Texts}
use raft_ebpf.Cli.Client.{JsonValue, Line, out}
use raft_ebpf.Cli.Messages.{contains, message_key, message_line}

module _ ⦃v : JsonValue⦄ ⦃t : Texts⦄ where
  -- no message has the key of one that was seen, or of one before it
  abbrev pub Fresh : List String → List v.Value → Type 0
  Fresh seen [] = Unit
  Fresh seen (m ∷ ms) = (contains seen (message_key m) ≡ false) × Fresh (message_key m ∷ seen) ms

  abbrev pub added : List String → List v.Value → List String
  added seen [] = seen
  added seen (m ∷ ms) = added (message_key m ∷ seen) ms

  -- the messages of a list that are to be shown
  abbrev pub unseen_of : List v.Value → List String → List v.Value
  unseen_of [] seen = []
  unseen_of (m ∷ ms) seen =
      let rest = unseen_of ms (message_key m ∷ seen) in
      let rest' = unseen_of ms seen in if contains seen (message_key m) then rest' else m ∷ rest

  pub Fresh-append :
      (seen : List String) (ms ns : List v.Value)
      → Fresh seen ms
      → Fresh (added seen ms) ns
      → Fresh seen (ms ++ ns)
  Fresh-append seen [] ns f g = g
  Fresh-append seen (m ∷ ms) ns f g = (f.0, Fresh-append (message_key m ∷ seen) ms ns f.1 g)

  pub added-append :
      (seen : List String) (ms ns : List v.Value) → added seen (ms ++ ns) ≡ added (added seen ms) ns
  added-append seen [] ns = refl
  added-append seen (m ∷ ms) ns = added-append (message_key m ∷ seen) ms ns

  abbrev pub shown : List v.Value → List Line
  shown = map (λ m. out (message_line m))

  pub shown-append : (ms ns : List v.Value) → shown (ms ++ ns) ≡ shown ms ++ shown ns
  shown-append [] ns = refl
  shown-append (m ∷ ms) ns = ap (λ (l : List Line). out (message_line m) ∷ l) (shown-append ms ns)
