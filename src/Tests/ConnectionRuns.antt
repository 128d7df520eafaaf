-- ===== src/Tests/ConnectionRuns.antt =====
-- The theorems on the connection of the tool with the daemon, applied to runs.
use raft_ebpf.Prelude.{
  ℕ, ◌+◌, String, text_eq, ◌==◌, true, Option, none, some, [], ◌∷◌, length, ok, if◌then◌else◌, ◌≡◌,
  refl,
}
use raft_ebpf.Common.{leader}
use raft_ebpf.Ipc.Requests.{timed_out, join, propose_request, IpcRequest, process_request}
use raft_ebpf.Ipc.Connection.{IpcWire, Turn, line, Session, handle_ipc_connection}
use raft_ebpf.Ipc.Skipping.{requests_of, handle_ipc_connection-answers}
use raft_ebpf.Cli.Client.{ask_propose, JsonValue, CliWire, Terminal}
use raft_ebpf.Cli.Joined.{Daemon, joined, node_of}
use raft_ebpf.Cli.Main.{run_cli, run_propose}
use raft_ebpf.Cli.Reaching.{run_cli-reaches}
use raft_ebpf.Tests.Libraries.{bounded, unary}
use raft_ebpf.Tests.Nodes.{node}
use raft_ebpf.Tests.IpcRuns.{raw, dots}

-- two lines are requests
abbrev request_of : String → Option IpcRequest
request_of s =
    if s == "join\n"
    then some (join "d" "d:1")
    else if s == "put\n"
    then some (propose_request "k" (some "v"))
    else none

instance abbrev two_lines : IpcWire
two_lines = record { from_str = request_of; to_string = λ r. some "answer" }

abbrev turn : String → Turn
turn text = record { read = line text; tx = 7; later = timed_out; now = 5; writes = true }

abbrev session : Session
session = record { node = node leader; written = [] }

handle_ipc_connection-answers_example :
    let turns = turn "noise\n" ∷ turn "join\n" ∷ [] in
    let s' = (handle_ipc_connection turns session).1 in
    let (r, u) = handle_ipc_connection (requests_of turns) session in
    (r ≡ ok tt) × (s'.node ≡ u.node) × (length s'.written ≡ length session.written + length turns)
unfolding handle_ipc_connection
handle_ipc_connection-answers_example =
    handle_ipc_connection-answers (turn "noise\n" ∷ turn "join\n" ∷ []) session refl

-- values without fields, as the tool reads them
instance abbrev bare : JsonValue
bare = record {
  Value = ℕ;
  get = λ v name. none;
  as_str = λ v. none;
  as_u64 = λ v. none;
  as_array = λ v. none;
  is_null = λ v. true;
  debug = λ vs. "";
}

instance abbrev put_line : CliWire
put_line = record {
  to_string = λ r. some "put";
  from_str = λ s. some (record { success = true; message = "OK"; response_data = none });
}

abbrev daemon : Terminal Daemon
daemon = record {
  world = record { session = session; tx = 7; later = timed_out; now = 5 };
  printed = [];
}

run_cli-reaches_example :
    node_of (run_cli 0 "a" (run_propose "put" "k" (some "v")) daemon).1
    ≡ (process_request 7 timed_out 5 (propose_request "k" (some "v")) (node leader)).1
run_cli-reaches_example =
    run_cli-reaches 0 (run_propose "put" "k" (some "v")) (ask_propose "k" (some "v")) "put" daemon
      refl refl refl
