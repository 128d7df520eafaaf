-- ===== src/Cli/Main.antt =====
-- raft-cli/src/main.rs: the commands, and which function runs each.
use raft_ebpf.Prelude.{ℕ, String, Option, none, some, pure, ◌>>◌}
use raft_ebpf.Ipc.Requests.{Texts}
use raft_ebpf.Cli.Client.{
  CliRequest, ask_join, ask_leave, ask_status, ask_send, ask_messages, JsonValue, Socket, CliWire,
  Console,
}
use raft_ebpf.Cli.Commands.{operation_request, join, leave, status, propose, send}
use raft_ebpf.Cli.Messages.{messages, watch}

-- `clap` has read the arguments, and has filled in the default values
pub data Commands : Type 0 where
  run_join : String → String → Commands
  run_leave : String → Commands
  run_status : Commands
  run_propose : String → String → Option String → Commands
  run_send : String → Commands
  run_messages : ℕ → Commands
  run_watch : ℕ → Commands

-- the one request that a command sends, where it sends one
abbrev pub request_for_command : Commands → Option CliRequest
request_for_command (run_join node_id address) = some (ask_join node_id address)
request_for_command (run_leave node_id) = some (ask_leave node_id)
request_for_command run_status = some ask_status
request_for_command (run_propose operation key value) = operation_request operation key value
request_for_command (run_send message) = some (ask_send message)
request_for_command (run_messages limit) = some (ask_messages (some limit) none)
request_for_command (run_watch interval) = none

module _ {W : Type 0} ⦃s : Socket W⦄ ⦃v : JsonValue⦄ ⦃x : CliWire⦄ ⦃t : Texts⦄ where
  -- the match of `main`; `watch` runs for a number of rounds, with the interval between them
  unfoldable pub run_cli : ℕ → String → Commands → Console W (Unit {0})
  unfolding join leave status propose send messages watch
  run_cli rounds node (run_join node_id address) = join node node_id address
  run_cli rounds node (run_leave node_id) = leave node node_id
  run_cli rounds node run_status = status node
  run_cli rounds node (run_propose operation key value) = propose node operation key value
  run_cli rounds node (run_send message) = send node message
  run_cli rounds node (run_messages limit) = messages node limit
  run_cli rounds node (run_watch interval) = do watch rounds node; pure tt
