-- ===== src/Cli/Commands.antt =====
-- raft-cli/src/commands/mod.rs: the commands but the two that show messages.
use raft_ebpf.Prelude.{
  ℕ, String, ◌+++◌, text_eq, ◌==◌, Option, none, some, bad_usage, pure, throw, ◌>>=◌, ◌>>◌,
  unwrap_or, if◌then◌else◌,
}
use raft_ebpf.Ipc.Requests.{Texts}
use raft_ebpf.Cli.Client.{
  CliRequest, ask_join, ask_leave, ask_status, ask_propose, ask_get, ask_send, JsonValue, Socket,
  CliWire, Console, println, eprintln, connect, send_request,
}

module _ {A B : Type 0} where
  abbrev pub and_then : Option A → (A → Option B) → Option B
  and_then none f = none
  and_then (some a) f = f a

module _ {W A : Type 0} where
  -- `if let Some(a) = o { … }`
  abbrev pub if_some : Option A → (A → Console W (Unit {0})) → Console W (Unit {0})
  if_some none f = pure tt
  if_some (some a) f = f a

module _ ⦃v : JsonValue⦄ where
  -- a field of the data as a text or as a number
  abbrev pub text_field : v.Value → String → Option String
  text_field d name = and_then (v.get d name) v.as_str

  abbrev pub number_field : v.Value → String → Option ℕ
  number_field d name = and_then (v.get d name) v.as_u64

-- the request of an operation; `put` wants a value, and other operations are refused
abbrev pub operation_request : String → String → Option String → Option CliRequest
operation_request operation key value =
    if operation == "put"
    then and_then value (λ value. some (ask_propose key (some value)))
    else if operation == "delete"
    then some (ask_propose key none)
    else if operation == "get"
    then some (ask_get key)
    else none

module _ {W : Type 0} ⦃s : Socket W⦄ ⦃v : JsonValue⦄ ⦃x : CliWire⦄ ⦃t : Texts⦄ where
  unfoldable pub join : String → String → String → Console W (Unit {0})
  unfolding connect send_request
  join local_node node_id address = do
    connect local_node
    response ← send_request (ask_join node_id address)
    if response.success
        then println ("✓ Successfully joined " +++ node_id +++ " at " +++ address)
        else eprintln ("✗ Failed to join: " +++ response.message)

  unfoldable pub leave : String → String → Console W (Unit {0})
  unfolding connect send_request
  leave local_node node_id = do
    connect local_node
    response ← send_request (ask_leave node_id)
    if response.success
        then println ("✓ Successfully removed " +++ node_id)
        else eprintln ("✗ Failed to remove: " +++ response.message)

  abbrev pub show_leader : v.Value → Console W (Unit {0})
  show_leader leader =
      if v.is_null leader
      then println "Leader:       (none)"
      else if_some (v.as_str leader) (λ leader_str. println ("Leader:       " +++ leader_str))

  unfoldable pub show_status : v.Value → Console W (Unit {0})
  show_status d = do
    println "RAFT Cluster Status"
    println "=================="
    if_some (text_field d "node_id") (λ node_id. println ("Node ID:      " +++ node_id))
    if_some (text_field d "role") (λ role. println ("Role:         " +++ role))
    if_some (number_field d "current_term") (λ term. println ("Current Term: " +++ t.decimal term))
    if_some (number_field d "commit_index")
        (λ commit. println ("Commit Index: " +++ t.decimal commit))
    if_some (number_field d "last_applied")
        (λ applied. println ("Last Applied: " +++ t.decimal applied))
    if_some (v.get d "leader_id") show_leader
    if_some (and_then (v.get d "peers") v.as_array)
        (λ peers. println ("Peers:        " +++ v.debug peers))

  unfoldable pub status : String → Console W (Unit {0})
  unfolding connect send_request show_status
  status local_node = do
    connect local_node
    response ← send_request ask_status
    if response.success
        then if_some response.response_data show_status
        else eprintln ("✗ Failed to get status: " +++ response.message)

  abbrev pub show_value : String → v.Value → Console W (Unit {0})
  show_value key value =
      if v.is_null value
      then println (key +++ ": (not found)")
      else if_some (v.as_str value) (λ text. println (key +++ ": " +++ text))

  unfoldable pub show_done : String → String → Option String → Option v.Value → Console W (Unit {0})
  show_done operation key value response_data =
      if operation == "put"
      then println ("✓ Set " +++ key +++ "=" +++ unwrap_or value "")
      else if operation == "delete"
      then println ("✓ Deleted " +++ key)
      else if operation == "get"
      then if_some response_data (λ d. if_some (v.get d "value") (show_value key))
      else pure tt

  -- the leader that a refusal names
  abbrev pub show_hint : String → Option v.Value → Console W (Unit {0})
  show_hint hint response_data =
      if_some response_data
        (λ d. if_some (text_field d "leader_id") (λ leader. eprintln (hint +++ leader)))

  abbrev pub or_bail : Option CliRequest → Console W CliRequest
  or_bail none = throw bad_usage
  or_bail (some request) = pure request

  unfoldable pub propose : String → String → String → Option String → Console W (Unit {0})
  unfolding connect send_request show_done
  propose local_node operation key value = do
    connect local_node
    request ← or_bail (operation_request operation key value)
    response ← send_request request
    if response.success then show_done operation key value response.response_data else (do
      eprintln ("✗ Operation failed: " +++ response.message)
      show_hint "  Hint: Try connecting to leader node: " response.response_data)

  unfoldable pub send : String → String → Console W (Unit {0})
  unfolding connect send_request
  send local_node message = do
    connect local_node
    response ← send_request (ask_send message)
    if response.success
        then (do
          println ("✓ Message sent: \"" +++ message +++ "\"")
          if_some response.response_data (λ d.
              if_some (number_field d "index")
                (λ index. println ("  Replicated at log index " +++ t.decimal index))))
        else (do
          eprintln ("✗ Failed to send: " +++ response.message)
          show_hint "  Hint: Send from leader node: " response.response_data)
