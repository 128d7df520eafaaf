-- ===== src/Cli/Messages.antt =====
-- raft-cli/src/commands/mod.rs: the commands that show messages, and the time of a message.
use raft_ebpf.Prelude.{
  ℕ, zero, suc, ◌/◌, ◌%◌, String, ◌+++◌, text_eq, ◌==◌, Bool, false, Option, none, some, List, [],
  ◌∷◌, pure, ◌>>=◌, ◌>>◌, ◌||◌, ltb, unwrap_or, if◌then◌else◌,
}
use raft_ebpf.Ipc.Requests.{Texts}
use raft_ebpf.Cli.Client.{
  ask_messages, JsonValue, Socket, CliWire, Line, out, Console, println, eprintln, connect,
  send_request,
}
use raft_ebpf.Cli.Commands.{and_then, if_some, text_field, number_field}

-- `"=".repeat(50)`
abbrev pub rule : String
rule = "=================================================="

abbrev pub watching : String → String
watching local_node = "Watching for messages on " +++ local_node +++ " (Ctrl+C to stop)..."

-- the two lines at the top
abbrev pub headline : String → List Line
headline local_node = out (watching local_node) ∷ out rule ∷ []

module _ ⦃t : Texts⦄ where
  -- `{:02}`
  abbrev pub two_digits : ℕ → String
  two_digits n = if ltb n 10 then "0" +++ t.decimal n else t.decimal n

  abbrev pub hours : ℕ → ℕ
  hours unix_secs = unix_secs / 3600 % 24

  abbrev pub minutes : ℕ → ℕ
  minutes unix_secs = unix_secs / 60 % 60

  abbrev pub seconds : ℕ → ℕ
  seconds unix_secs = unix_secs % 60

  abbrev pub chrono_lite : ℕ → String
  chrono_lite unix_secs =
      two_digits (hours unix_secs)
      +++ ":"
      +++ two_digits (minutes unix_secs)
      +++ ":"
      +++ two_digits (seconds unix_secs)

module _ ⦃v : JsonValue⦄ ⦃t : Texts⦄ where
  abbrev pub time_of : v.Value → ℕ
  time_of msg = unwrap_or (number_field msg "timestamp") 0

  abbrev pub text_of : v.Value → String
  text_of msg = unwrap_or (text_field msg "message") ""

  -- `[{}] {}: {}`
  abbrev pub message_line : v.Value → String
  message_line msg =
      "["
      +++ chrono_lite (time_of msg / 1000)
      +++ "] "
      +++ unwrap_or (text_field msg "from") "?"
      +++ ": "
      +++ text_of msg

  -- the key by which `watch` knows a message again
  abbrev pub message_key : v.Value → String
  message_key msg = t.decimal (time_of msg) +++ ":" +++ text_of msg

  abbrev pub array_of : Option v.Value → Option (List v.Value)
  array_of d = and_then d (λ d. and_then (v.get d "messages") v.as_array)

-- a `HashSet` of texts, by its members
abbrev pub contains : List String → String → Bool
contains [] k = false
contains (x ∷ xs) k = x == k || contains xs k

abbrev pub reverse_onto : {A : Type 0} → List A → List A → List A
reverse_onto [] acc = acc
reverse_onto (x ∷ xs) acc = reverse_onto xs (x ∷ acc)

module _ {W : Type 0} ⦃v : JsonValue⦄ ⦃t : Texts⦄ where
  unfoldable pub print_each : List v.Value → Console W (Unit {0})
  print_each [] = pure tt
  print_each (msg ∷ rest) = do println (message_line msg); print_each rest

  abbrev pub show_messages : List v.Value → Console W (Unit {0})
  show_messages [] = println "(no messages)"
  show_messages (msg ∷ rest) = print_each (msg ∷ rest)

  -- the loop of `watch` over one answer, with what was seen before; it gives what is seen now
  unfoldable pub show_new : List v.Value → List String → Console W (List String)
  show_new [] seen = pure seen
  show_new (msg ∷ rest) seen =
      if contains seen (message_key msg)
      then show_new rest seen
      else (do println (message_line msg); show_new rest (message_key msg ∷ seen))

  abbrev pub show_array : Option (List v.Value) → List String → Console W (List String)
  show_array none seen = pure seen
  show_array (some msgs) seen = show_new (reverse_onto msgs []) seen

module _ {W : Type 0} ⦃s : Socket W⦄ ⦃v : JsonValue⦄ ⦃x : CliWire⦄ ⦃t : Texts⦄ where
  unfoldable pub messages : String → ℕ → Console W (Unit {0})
  unfolding connect send_request print_each
  messages local_node limit = do
    connect local_node
    response ← send_request (ask_messages (some limit) none)
    if response.success
        then if_some response.response_data (λ d. do
          if_some (number_field d "last_applied") (λ last_applied. do
            println ("Messages (last applied index: " +++ t.decimal last_applied +++ ")")
            println rule)
          if_some (and_then (v.get d "messages") v.as_array) show_messages)
        else eprintln ("✗ Failed to get messages: " +++ response.message)

  -- one round of the loop, without the sleep at its end
  unfoldable pub watch_round : String → List String → Console W (List String)
  unfolding connect send_request show_new
  watch_round local_node seen = do
    connect local_node
    response ← send_request (ask_messages (some 50) none)
    if response.success then show_array (array_of response.response_data) seen else pure seen

  -- as many rounds as there is time for; the source goes on until an error
  unfoldable pub watch_rounds : ℕ → String → List String → Console W (List String)
  unfolding watch_round
  watch_rounds zero local_node seen = pure seen
  watch_rounds (suc rounds) local_node seen = do
    seen' ← watch_round local_node seen
    watch_rounds rounds local_node seen'

  unfoldable pub watch : ℕ → String → Console W (List String)
  unfolding watch_rounds
  watch rounds local_node = do
    println (watching local_node)
    println rule
    watch_rounds rounds local_node []
