-- ===== src/Tests/CliRuns.antt =====
-- The theorems on the command line tool and its connection, applied to runs.
use raft_ebpf.Prelude.{
  ℕ, ◌+◌, String, len, text_eq, ◌==◌, true, false, Option, none, some, List, [], ◌∷◌, ◌++◌, map,
  ltb, if◌then◌else◌, ok, ◌≡◌, refl,
}
use raft_ebpf.Ipc.Requests.{Texts}
use raft_ebpf.Cli.Client.{JsonValue, CliResponse, Socket, CliWire, Terminal, connect, send_request}
use raft_ebpf.Cli.Messages.{reverse_onto, watch_round, watch, headline}
use raft_ebpf.Cli.Fresh.{Fresh, shown, unseen_of, added}
use raft_ebpf.Cli.Watching.{watch-shows_once, watch_round-shows}

-- numbers below 100 with as many digits as they have, all of them 7
instance abbrev sevens : Texts
sevens = record {
  as_bytes = λ s. len s ∷ [];
  decimal = λ n. if ltb n 10 then "7" else "77";
  message_json = λ node_id timestamp message. timestamp ∷ len message ∷ [];
}

-- messages, and the answer that lists them
data Shape : Type 0 where
  text : String → Shape
  number : ℕ → Shape
  message : String → ℕ → String → Shape
  listed : List (String × ℕ × String) → Shape
  answer : List (String × ℕ × String) → Shape

abbrev field : Shape → String → Option Shape
field (answer ms) name = if name == "messages" then some (listed ms) else none
field (message from time words) name =
    if name == "from"
    then some (text from)
    else if name == "timestamp"
    then some (number time)
    else if name == "message"
    then some (text words)
    else none
field _ name = none

abbrev shape_text : Shape → Option String
shape_text (text s) = some s
shape_text _ = none

abbrev shape_number : Shape → Option ℕ
shape_number (number n) = some n
shape_number _ = none

abbrev shape_list : Shape → Option (List Shape)
shape_list (listed ms) = some (map (λ m. message m.0 m.1 m.2) ms)
shape_list _ = none

instance abbrev shapes : JsonValue
shapes = record {
  Value = Shape;
  get = field;
  as_str = shape_text;
  as_u64 = shape_number;
  as_array = shape_list;
  is_null = λ v. false;
  debug = λ vs. "";
}

-- the daemon answers with two messages, the newest first
abbrev two_messages : CliResponse
two_messages = record {
  success = true;
  message = "OK";
  response_data = some (answer (("b", 2, "yes") ∷ ("a", 1, "hello") ∷ []));
}

instance abbrev one_answer : CliWire
one_answer = record { to_string = λ r. some "r"; from_str = λ s. some two_messages }

-- a socket without a daemon that answers every line
instance abbrev echo : Socket ℕ
echo = record { connect = λ path n. (true, n); exchange = λ s n. (some "line", n + 1) }

abbrev fresh_terminal : Terminal ℕ
fresh_terminal = record { world = 0; printed = [] }

watch-shows_once_example :
    (new : List Shape) × Fresh [] new
    × ((watch 2 "a" fresh_terminal).1.printed ≡ ([] ++ headline "a") ++ shown new)
watch-shows_once_example = watch-shows_once 2 "a" fresh_terminal

abbrev second : Terminal ℕ
second = record fresh_terminal { world = 1 }

watch_round-shows_example :
    let new = unseen_of (reverse_onto (message "b" 2 "yes" ∷ message "a" 1 "hello" ∷ []) []) [] in
    watch_round "a" [] fresh_terminal
    ≡ (ok (added [] new), record second { printed = second.printed ++ shown new })
unfolding connect send_request
watch_round-shows_example =
    watch_round-shows "a" [] fresh_terminal fresh_terminal second two_messages
      (message "b" 2 "yes" ∷ message "a" 1 "hello" ∷ []) refl refl refl refl
