-- ===== src/Lib.antt =====
-- Verification of raft-ebpf: the Raft daemon, a consensus node over a log on disk with a key-value
-- store as its state machine, and the eBPF program that watches its packets in the kernel.
--
-- The parts, and the files that model them:
--   raft-common/src/protocol.rs, raft-common/src/state.rs: Common (Common/Protocol, Common/State),
--     the messages, the roles and the persistent state. The crate heapless is the interface
--     Heapless of Common/Bounded: texts and vectors are their contents, and what is over the
--     capacity of a `push` is dropped, as the source drops the results of its pushes.
--   raft/src/state_machine.rs: StateMachine, the record `StateMachine` with `apply`, `get_value`
--     (get), `all_keys` (keys), `snapshot` and `restore`; StateMachine/Semantics has the abstract
--     map that it refines, StateMachine/Replay a store from a snapshot and the log, and
--     StateMachine/Messages has `get_messages`, with serde_json on values as the interface Values.
--   raft/src/log.rs: RaftLog, the record `RaftLog` with one function for each method. Its files are
--     the record `Disk` of RaftLog/Files: the text of state.json, the lines of log.jsonl and of the
--     temporary file, and the outcomes of the next calls of the file system, each of which may
--     fail. An open handle is `linked` to the name or not, since `rename` leaves an open handle at
--     the old file. RaftLog/Format has the disk form of an entry and serde_json as the interface
--     Json. `IsDurable` of RaftLog/Recovery relates memory and files, `IsContiguous` of
--     RaftLog/Contiguous says that the entries are numbered from 1 to the last index.
--   raft/src/node.rs: Node, the record `RaftNode` of Node/State and the handlers by what they
--     answer: Node/Follow (handle_append_entries), Node/Commit (try_advance_commit_index,
--     notify_pending_requests, handle_append_entries_response), Node/Vote (handle_request_vote),
--     Node/Elect (start_election, become_leader, handle_request_vote_response), Node/Heartbeat
--     (send_heartbeats), Node/Apply (apply_committed_entries), Node/Client (propose, the
--     membership and the reads) and Node/Dispatch (handle_message). Node/Locks has the locks that
--     get_status and apply_committed_entries take, in order, and tasks that take turns.
--   raft/src/network.rs: Network. Network/Framing has encode_message and decode_message, with
--     serde_json on envelopes as the interface Wire; Network/Connection has handle_connection, over
--     the reads that a stream gives; Network/Peers has the record `NetworkManager` and send_message,
--     and Network/Outgoing the loop of `run` over the messages of the channel.
--     Bytes are numbers.
--   raft/src/ipc.rs: Ipc. Ipc/Requests has `process_request`, with what arrives on the reply
--     channel of a proposal as an argument, and Ipc/Connection has `handle_ipc_connection`, over
--     the lines that a client writes, with serde_json on requests as the interface IpcWire. The
--     interface Texts has the bytes of a text, the decimal text of a number and the JSON text of a
--     message.
--   raft/src/config.rs: Daemon/Config, the structs with their defaults and `load`. The crate toml is
--     the interface Toml, which gives the keys that a file has.
--   raft/src/node.rs (RaftNode::new and the reads of the timers) and raft/src/main.rs (the start
--     and the two timer tasks): Daemon/Start has `new_node`, over the files that a data directory
--     holds, and the crate rand as the interface Rng; Daemon/Boot has the node with its network
--     manager; Daemon/Timers has one round of each timer, run with the time at which its sleep
--     ends. `Sound` of Daemon/Sound is the invariant of a node, Daemon/Safe has a rule for each
--     way to build a handler that keeps it, Daemon/Handlers, Daemon/Storing, Daemon/Committing and
--     Daemon/Requests apply them, and `Reach` of Daemon/Runs is a run: messages, timer rounds,
--     requests and restarts, one after the other. `call_each` of Daemon/Calls is a run without
--     restarts, as a function.
--   raft-ebpf/src/main.rs, raft-common/src/maps.rs: Ebpf. Ebpf/Kernel has the interfaces of the
--     kernel's hash maps and of the headers (the crates aya-ebpf and network-types), Ebpf/Classify
--     the classifier, Ebpf/Verdict what the bytes of a frame ask for, read as the protocols lay them
--     out, and Ebpf/Runs a sequence of packets.
--   raft-cli/src: Cli. Cli/Client has the client of the daemon's socket, Cli/Commands and
--     Cli/Messages the commands, and Cli/Main the match that runs them. What the socket reaches is
--     the interface Socket, serde_json is JsonValue and CliWire, and what is printed is the list of
--     lines of a `Terminal`. Cli/Joined fills Socket with the daemon's own connection.
--
-- How they interact: a handler of the node locks the log's mutex, reads and changes the log, the
-- roles and the progress of the peers, sends messages to the channel of the network, and applies
-- committed entries to the state machine. A method is a function from a state to a result and a
-- state; the result is a value, an error of `?`, or `blocked` where the task waits for ever.
--
-- Numbers are natural numbers; `+ 1` on a u64 is `next_u64`, which wraps. The loop of
-- apply_committed_entries has `commit_index - last_applied` as its fuel, the number of its rounds.
-- The loop over the indices to commit recurses on the number of indices above the commit index.
-- The loop over a buffer has the buffer's length as its fuel: each round takes four bytes at least
-- (Network/Frames).
--
-- Not modelled: what other tasks do between the awaits of a handler (each handler runs from its
-- call to its return, and a restart comes between two calls) but for the locks of Node/Locks, the
-- bounds of the channels, log output, the arguments and the spawning of tasks in
-- raft/src/main.rs, the accept loops of raft/src/network.rs and raft/src/ipc.rs, the loader
-- raft/src/ebpf.rs, which only calls the crate aya, the verifier and the helpers of the kernel,
-- the arguments of the tool (the crate clap), and the sleep of its `watch`, whose loop runs for a
-- given number of rounds.
pub mod Prelude
pub mod HashMap
pub mod Common
pub mod StateMachine
pub mod RaftLog
pub mod Node
pub mod Cli
pub mod Daemon
pub mod Ebpf
pub mod Ipc
pub mod Network
pub mod Tests
