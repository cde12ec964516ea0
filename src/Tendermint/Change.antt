-- ===== src/Tendermint/Change.antt =====
-- tendermint/tests/util/messages.go and replicas.go: how votes and proposals are changed and signed
-- again, and how messages are encoded. A change is made in place: the message returned is the one given.
pub mod Signed
pub mod Encoding
use tendermint_testing.Base.{
  ℕ, String, Bool, true, false, not, List, [], Option, none, some, if◌then◌else◌, string_eq, ◌==◌,
}
use tendermint_testing.Base.GoMap.{lookup}
use tendermint_testing.Base.Int.{ℤ, pos, negsuc}
use tendermint_testing.Types.Replicas as Replicas
use tendermint_testing.Types.Replicas.{Replica, InfoValue}
use tendermint_testing.Tendermint.Messages.{
  TMessage, Sum, Vote, Proposal, vote, proposal, inner_vote, inner_proposal, is_vote,
}

pub data ChangeError : Type 0 where
  no_key no_chain_id invalid_vote bad_block_id bad_proposal cannot_sign : ChangeError

-- How a call ends.
pub data Outcome {ℓ} (A : Type ℓ) : Type ℓ where
  done : A → Outcome A
  failed : ChangeError → Outcome A
  panicked : Outcome A

infixl 5 ◌>>=◌
abbrev pub ◌>>=◌ {ℓ κ} : {A : Type ℓ} {B : Type κ} → Outcome A → (A → Outcome B) → Outcome B
done a >>= f = f a
failed e >>= f = failed e
panicked >>= f = panicked

abbrev pub or_fail {ℓ} : {A : Type ℓ} → ChangeError → Option A → Outcome A
or_fail e none = failed e
or_fail e (some a) = done a

abbrev pub or_panic {ℓ} : {A : Type ℓ} → Option A → Outcome A
or_panic none = panicked
or_panic (some a) = done a

-- What the code uses of Tendermint's types and keys. `K` is a private key, and a Vote B or a Proposal B
-- is one with its block identifier decoded. The type that a proposal carries beside these is copied.
pub record Tendermint (K I B M : Type 0) : Type 0 where
  pub parse_key : String → Option K
  pub address : K → String
  pub sign : K → List ℕ → Option (List ℕ)
  pub block_id_from_proto : I → Option B
  pub nil_block_id : B
  pub hash_string : B → String
  pub vote_to_proto : Vote B M → Vote I M
  pub vote_sign_bytes : String → Vote I M → List ℕ
  pub proposal_from_proto : Proposal I M → Option (Proposal B M)
  pub proposal_to_proto : Proposal B M → Proposal I M
  pub proposal_sign_bytes : String → Proposal I M → List ℕ
  pub add_time : M → ℤ → M
  pub marshal : Sum I M → Option (List ℕ)
  pub encode : TMessage I M → Option (List ℕ)

abbrev pub as_text : Option InfoValue → Option String
as_text (some (Replicas.text s)) = some s
as_text _ = none

-- chain_id.(string) panics on a value of another type.
abbrev pub chain_id_of : Option InfoValue → Outcome String
chain_id_of none = failed no_chain_id
chain_id_of (some (Replicas.text s)) = done s
chain_id_of (some Replicas.other) = panicked

unfoldable pub get_chain_id : Replica → Outcome String
get_chain_id r = chain_id_of (lookup "chain_id" r.info)

module _ {K I B M : Type 0} (tm : Tendermint K I B M) where
  abbrev pub parsed_key : Option String → Option K
  parsed_key none = none
  parsed_key (some s) = tm.parse_key s

  unfoldable pub get_priv_key : Replica → Option K
  get_priv_key r = parsed_key (as_text (lookup "privkey" r.info))

  unfoldable pub get_replica_address : Replica → Option String
  unfolding get_priv_key
  get_replica_address r = elim (get_priv_key r) [ none ↦ none | some k ↦ some (tm.address k) ]

  -- Whether the vote is the replica's: `none` is the panic at a message without a vote.
  unfoldable pub is_vote_from : TMessage I M → Replica → Option Bool
  unfolding get_priv_key
  is_vote_from t replica = elim (get_priv_key replica) [
    | none ↦ some false
    | some k ↦ elim (inner_vote t.content) [
      | none ↦ none
      | some v ↦ some (tm.address k == v.validator_address)
    ]
  ]

  abbrev pub with_vote : TMessage I M → Vote B M → TMessage I M
  with_vote t v = record t { content = some (vote (some (tm.vote_to_proto v))) }

  -- The signature of the new vote, and the message with it.
  abbrev pub sign_vote : K → String → TMessage I M → Vote B M → Outcome (TMessage I M)
  sign_vote key chain t v = do
    sig ← or_fail cannot_sign (tm.sign key (tm.vote_sign_bytes chain (tm.vote_to_proto v)))
    done (with_vote t (record v { signature = sig }))

  abbrev pub new_vote : Vote I M → ℤ → B → M → Vote B M
  new_vote v round block_id timestamp = record {
    type = v.type;
    height = v.height;
    round = round;
    block_id = block_id;
    timestamp = timestamp;
    validator_address = v.validator_address;
    validator_index = v.validator_index;
    signature = [];
  }

  unfoldable pub change_vote : Replica → TMessage I M → B → Outcome (TMessage I M)
  unfolding get_priv_key get_chain_id
  change_vote replica t block_id = do
    key ← or_fail no_key (get_priv_key replica)
    chain ← get_chain_id replica
    if not (is_vote t) then failed invalid_vote else (do
      v ← or_panic (inner_vote t.content)
      sign_vote key chain t (new_vote v v.round block_id v.timestamp))

  unfoldable pub change_vote_to_nil : Replica → TMessage I M → Outcome (TMessage I M)
  unfolding change_vote
  change_vote_to_nil replica t = change_vote replica t tm.nil_block_id

  -- A message of another type is returned as it is.
  unfoldable pub change_vote_round : Replica → TMessage I M → ℤ → Outcome (TMessage I M)
  unfolding get_priv_key get_chain_id
  change_vote_round replica t round = do
    key ← or_fail no_key (get_priv_key replica)
    chain ← get_chain_id replica
    if not (is_vote t) then done t else (do
      v ← or_panic (inner_vote t.content)
      b ← or_fail bad_block_id (tm.block_id_from_proto v.block_id)
      sign_vote key chain t (new_vote v round b v.timestamp))

  unfoldable pub change_vote_time : Replica → TMessage I M → ℤ → Outcome (TMessage I M)
  unfolding get_priv_key get_chain_id
  change_vote_time replica t add = do
    key ← or_fail no_key (get_priv_key replica)
    chain ← get_chain_id replica
    if not (is_vote t) then done t else (do
      v ← or_panic (inner_vote t.content)
      b ← or_fail bad_block_id (tm.block_id_from_proto v.block_id)
      sign_vote key chain t (new_vote v v.round b (tm.add_time v.timestamp add)))

  abbrev pub sign_proposal : K → String → TMessage I M → Proposal B M → Outcome (TMessage I M)
  sign_proposal key chain t p = do
    sig ← or_fail cannot_sign (tm.sign key (tm.proposal_sign_bytes chain (tm.proposal_to_proto p)))
    done (record t {
      content = some (proposal (tm.proposal_to_proto (record p { signature = sig })));
    })

  -- The proposal of the message, whatever type the message says it has.
  abbrev pub decoded_proposal : TMessage I M → Outcome (Proposal B M)
  decoded_proposal t = do
    p ← or_panic (inner_proposal t.content)
    or_fail bad_proposal (tm.proposal_from_proto p)

  unfoldable pub change_proposal_block_id_to_nil : Replica → TMessage I M → Outcome (TMessage I M)
  unfolding get_priv_key get_chain_id
  change_proposal_block_id_to_nil replica t = do
    key ← or_fail no_key (get_priv_key replica)
    chain ← get_chain_id replica
    p ← decoded_proposal t
    sign_proposal key chain t (record p { block_id = tm.nil_block_id; signature = [] })

  unfoldable pub change_proposal_locked_value : Replica → TMessage I M → Outcome (TMessage I M)
  unfolding get_priv_key get_chain_id
  change_proposal_locked_value replica t = do
    key ← or_fail no_key (get_priv_key replica)
    chain ← get_chain_id replica
    p ← decoded_proposal t
    sign_proposal key chain t (record p { pol_round = negsuc 0; signature = [] })

  abbrev pub with_bytes : TMessage I M → Option (List ℕ) → Option (TMessage I M)
  with_bytes t none = none
  with_bytes t (some bytes) = some (record t { msg_bytes = bytes })

  abbrev pub refreshed : TMessage I M → Option (Sum I M) → Option (TMessage I M)
  refreshed t none = some t
  refreshed t (some s) = with_bytes t (tm.marshal s)

  abbrev pub encoded : Option (TMessage I M) → Option (TMessage I M × List ℕ)
  encoded none = none
  encoded (some t) = elim (tm.encode t) [ none ↦ none | some bytes ↦ some (t, bytes) ]

  -- The message keeps the bytes of its content. `none` is an error.
  unfoldable pub marshal : TMessage I M → Option (TMessage I M × List ℕ)
  marshal t = encoded (refreshed t t.content)
