-- ===== src/Cli/Client.antt =====
-- raft-cli/src/commands/client.rs, with the request and response types of
-- raft-cli/src/commands/mod.rs. The socket, serde_json and the display of values are interfaces.
use raft_ebpf.Prelude.{
  ℕ, String, ◌+++◌, text_eq, ◌==◌, Bool, Option, List, [], ◌∷◌, ◌++◌, io, json, closed, ok, err,
  Exec, throw, or_throw, modify, ◌>>=◌, if◌then◌else◌,
}

-- the tool's own `IpcRequest`
pub data CliRequest : Type 0 where
  ask_join : String → String → CliRequest
  ask_leave : String → CliRequest
  ask_status : CliRequest
  ask_propose : String → Option String → CliRequest
  ask_get : String → CliRequest
  ask_send : String → CliRequest
  ask_messages : Option ℕ → Option ℕ → CliRequest

-- `serde_json::Value`: a field of an object, the value as a text, a number or an array, and `{:?}`
pub record JsonValue : Type 1 where
  pub Value : Type 0
  pub get : Value → String → Option Value
  pub as_str : Value → Option String
  pub as_u64 : Value → Option ℕ
  pub as_array : Value → Option (List Value)
  pub is_null : Value → Bool
  pub debug : List Value → String

module _ ⦃v : JsonValue⦄ where
  -- the tool's own `IpcResponse`
  pub record CliResponse : Type 0 where
    pub success : Bool
    pub message : String
    -- the source's field `data`
    pub response_data : Option v.Value

-- The world that the socket reaches: `connect` to a path, and a line written with the line that is
-- then read, which is empty where the server has closed.
pub record Socket (W : Type 0) : Type 0 where
  pub connect : String → W → Bool × W
  pub exchange : String → W → Option String × W

-- `serde_json::to_string` on requests and `from_str` on responses
pub record CliWire ⦃v : JsonValue⦄ : Type 0 where
  pub to_string : CliRequest → Option String
  pub from_str : String → Option CliResponse

-- a line that is printed, to the standard output or as an error
pub data Line : Type 0 where
  out : String → Line
  error : String → Line

pub record Terminal (W : Type 0) : Type 0 where
  pub world : W
  -- the oldest first
  pub printed : List Line

abbrev pub Console : Type 0 → Type 0 → Type 0
Console W A = Exec (Terminal W) A

module _ {W : Type 0} where
  abbrev pub print : Line → Console W (Unit {0})
  print l = modify (λ t. record t { printed = t.printed ++ l ∷ [] })

  abbrev pub println : String → Console W (Unit {0})
  println s = print (out s)

  abbrev pub eprintln : String → Console W (Unit {0})
  eprintln s = print (error s)

module _ {W : Type 0} ⦃s : Socket W⦄ where
  -- `IpcClient::connect`
  unfoldable pub connect : String → Console W (Unit {0})
  connect node_id t =
      let (opened, w) = s.connect ("/tmp/raft-" +++ node_id +++ ".sock") t.world in
      (if opened then ok tt else err io, record t { world = w })

  abbrev pub exchange : String → Console W (Option String)
  exchange text t = let (read, w) = s.exchange text t.world in (ok read, record t { world = w })

  module _ ⦃v : JsonValue⦄ ⦃x : CliWire⦄ where
    abbrev pub parse_answer : String → Console W CliResponse
    parse_answer line = if line == "" then throw closed else or_throw (x.from_str line) json

    -- `IpcClient::send_request`
    unfoldable pub send_request : CliRequest → Console W CliResponse
    send_request request = do
      request_str ← or_throw (x.to_string request) json
      read ← exchange (request_str +++ "\n")
      line ← or_throw read io
      parse_answer line
