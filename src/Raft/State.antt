-- ===== src/Raft/State.antt =====
-- raft/raft/state.go: what a replica of the Raft example knows of its own progress. The types of the
-- roles and of the configurations are those of the Raft library: `S` and `C`.
use tendermint_testing.Base.{ℕ, Bool, false, not, ◌==◌, Key, nat_eq}

pub record NodeState (S C : Type 0) : Type 0 where
  pub snapshot_index : ℕ  -- uint64
  pub commit_index : ℕ  -- uint64
  pub conf_state : C
  pub term : ℕ  -- uint64
  pub raft_state : S
  pub running : Bool

unfoldable pub new_node_state : {S C : Type 0} → S → C → NodeState S C
new_node_state follower conf = record {
  snapshot_index = 0;
  commit_index = 0;
  conf_state = conf;
  term = 0;
  raft_state = follower;
  running = false;
}

-- The updates say whether the value is a new one.
module _ {S C : Type 0} where
  unfoldable pub update_snapshot_index : NodeState S C → ℕ → NodeState S C × Bool
  update_snapshot_index s index =
      (record s { snapshot_index = index }, not (s.snapshot_index == index))

  unfoldable pub update_commit_index : NodeState S C → ℕ → NodeState S C × Bool
  update_commit_index s index = (record s { commit_index = index }, not (s.commit_index == index))

  unfoldable pub update_conf_state : NodeState S C → C → NodeState S C
  update_conf_state s conf = record s { conf_state = conf }

  unfoldable pub update_raft_state : ⦃k : Key S⦄ → NodeState S C → S → NodeState S C × Bool
  update_raft_state s t = (record s { raft_state = t }, not (s.raft_state == t))

  unfoldable pub update_term_state : NodeState S C → ℕ → NodeState S C × Bool
  update_term_state s term = (record s { term = term }, not (s.term == term))

  unfoldable pub set_running : NodeState S C → Bool → NodeState S C
  set_running s v = record s { running = v }
