-- ===== src/Node/Client.antt =====
-- `propose`, the changes of the membership, and the reads.
use raft_ebpf.Prelude.{
  ℕ, String, text_eq, number_eq, Option, List, pure, gets, modify, ◌>>=◌, ◌>>◌, not, next_u64,
  if◌then◌else◌,
}
use raft_ebpf.HashMap.{insert, remove, keys}
use raft_ebpf.Common.{Heapless, Command, NodeRole, same_role, leader, new_peer}
use raft_ebpf.StateMachine
use raft_ebpf.RaftLog
use raft_ebpf.RaftLog.{RaftLog, current_term}
use raft_ebpf.RaftLog.Format.{Json}
use raft_ebpf.Node.State.{Handler, not_leader, with_log, on_log, reply}
use raft_ebpf.Node.Heartbeat.{send_heartbeats}

pub record NodeStatus : Type 0 where
  pub node_id : String
  pub role : NodeRole
  pub current_term : ℕ
  pub commit_index : ℕ
  pub last_applied : ℕ
  pub leader_id : Option String
  pub peers : List String

module _ ⦃h : Heapless⦄ ⦃j : Json⦄ where
  unfoldable pub propose : Command → ℕ → Handler (Unit {0})
  unfolding RaftLog.append send_heartbeats
  propose command response_tx = do
    n ← gets (λ n. n)
    if not (same_role n.role leader) then reply response_tx (not_leader n.leader_id) else (do
      index ←
          with_log (do term ← gets (λ n. current_term n.log); on_log (RaftLog.append term command))
      modify (λ n. record n { pending_requests = insert n.pending_requests index response_tx })
      send_heartbeats)

  unfoldable pub add_peer : String → String → Handler (Unit {0})
  add_peer id address = do
    modify (λ n. record n { peers = insert n.peers id (new_peer id address) })
    role ← gets (λ n. n.role)
    if not (same_role role leader)
        then pure tt
        else with_log (
            modify (λ n. record n {
              next_index = insert n.next_index id (next_u64 n.log.last_index);
              match_index = insert n.match_index id 0;
            }))

unfoldable pub remove_peer : String → Handler (Unit {0})
remove_peer id = modify (λ n. record n {
  peers = remove n.peers id;
  next_index = remove n.next_index id;
  match_index = remove n.match_index id;
})

unfoldable pub get_status : Handler NodeStatus
get_status = with_log (
    gets (λ n. record {
      node_id = n.node_id;
      role = n.role;
      current_term = current_term n.log;
      commit_index = n.commit_index;
      last_applied = n.last_applied;
      leader_id = n.leader_id;
      peers = keys n.peers;
    }))

unfoldable pub get_value : String → Handler (Option (List ℕ))
unfolding StateMachine.get_value
get_value key = gets (λ n. StateMachine.get_value n.state_machine key)
