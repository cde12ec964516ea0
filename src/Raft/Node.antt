-- ===== src/Raft/Node.antt =====
-- raft/raft/node.go: a replica of the Raft example, and how its calls end.
use tendermint_testing.Base.{
  ℕ, ◌+◌, ◌-◌, ◌%◌, String, false, List, Option, none, some, if◌then◌else◌,
}
use tendermint_testing.Base.GoMap.{GoMap}
pub use tendermint_testing.Base.Int.{word}
use tendermint_testing.Raft.State.{NodeState, set_running}
use tendermint_testing.Raft.KvApp.{KvApp}
use tendermint_testing.Raft.Library.{Message}

pub record Node (R S C T W : Type 0) : Type 0 where
  pub rn : R
  pub id : ℕ
  pub state : NodeState S C
  pub storage : T
  pub disk : W
  pub kv_app : KvApp
  pub published : List (String × GoMap String String)
  pub sent : List (Message C)

-- How a call ends: it returns, it exits the process (log.Fatal), it panics, or it blocks for ever.
pub data Result {ℓ} (A : Type ℓ) : Type ℓ where
  done : A → Result A
  fatal panicked blocked : Result A

infixl 5 ◌>>=◌
abbrev pub ◌>>=◌ {ℓ κ} : {A : Type ℓ} {B : Type κ} → Result A → (A → Result B) → Result B
done a >>= f = f a
fatal >>= f = fatal
panicked >>= f = panicked
blocked >>= f = blocked

-- log.Fatalf on an error.
abbrev pub or_fatal {ℓ} : {A : Type ℓ} → Option A → Result A
or_fatal none = fatal
or_fatal (some a) = done a

-- a - b on uint64.
abbrev pub sub_word : ℕ → ℕ → ℕ
sub_word a b = (a + word - b) % word

-- Who calls Stop: the raft loop itself, or another goroutine.
pub data Caller : Type 0 where
  raft_loop other_goroutine : Caller

module _ {R S C T W : Type 0} where
  -- The channel has no buffer and only the raft loop receives from it.
  unfoldable pub stop : Caller → Node R S C T W → Result (Node R S C T W)
  unfolding set_running
  stop caller n =
      if n.state.running
      then elim caller [
        | raft_loop ↦ blocked
        | other_goroutine ↦ done (record n { state = set_running n.state false })
      ]
      else done n
