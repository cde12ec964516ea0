-- ===== src/Tendermint/Messages.antt =====
-- tendermint/tests/util/messages.go: the messages of Tendermint as the test cases see them. The types of
-- the protocol and their codecs are Tendermint's: `I` is the encoded block identifier and `B` the
-- decoded one, `M` a point in time. `none` is a panic, where a result is not itself an option.
pub mod Typed
use tendermint_testing.Base.{
  ℕ, suc, ◌-◌, String, Bool, true, false, not, ◌&&◌, ◌||◌, List, [], Option, none, some, ltb,
  if◌then◌else◌, ◌==◌, string_eq,
}
use tendermint_testing.Base.Fallible.{◌>>=◌}
use tendermint_testing.Base.Int.{ℤ, pos, negsuc}
use tendermint_testing.Types.Messages as Messages
use tendermint_testing.Types.Messages.{Message}
use tendermint_testing.Types.Event.{Event}
use tendermint_testing.Testlib.Context.{Context, get_message}

abbrev pub MessageType : Type 0
MessageType = String

abbrev pub new_round_step_type : MessageType
new_round_step_type = "NewRoundStep"

abbrev pub new_valid_block_type : MessageType
new_valid_block_type = "NewValidBlock"

abbrev pub proposal_type : MessageType
proposal_type = "Proposal"

abbrev pub proposal_pol_type : MessageType
proposal_pol_type = "ProposalPol"

abbrev pub block_part_type : MessageType
block_part_type = "BlockPart"

abbrev pub vote_type : MessageType
vote_type = "Vote"

abbrev pub prevote_type : MessageType
prevote_type = "Prevote"

abbrev pub precommit_type : MessageType
precommit_type = "Precommit"

abbrev pub has_vote_type : MessageType
has_vote_type = "HasVote"

abbrev pub vote_set_maj23_type : MessageType
vote_set_maj23_type = "VoteSetMaj23"

abbrev pub vote_set_bits_type : MessageType
vote_set_bits_type = "VoteSetBits"

abbrev pub none_type : MessageType
none_type = "None"

-- The type of a signed message.
pub data SignedType : Type 0 where
  prevote precommit other_signed : SignedType

pub record Vote (I M : Type 0) : Type 0 where
  pub type : SignedType
  pub height : ℤ
  pub round : ℤ
  pub block_id : I
  pub timestamp : M
  pub validator_address : String  -- bytes
  pub validator_index : ℤ
  pub signature : List ℕ

pub record Proposal (I M : Type 0) : Type 0 where
  pub height : ℤ
  pub round : ℤ
  pub pol_round : ℤ
  pub block_id : I
  pub timestamp : M
  pub signature : List ℕ

-- The Sum of a message: `vote none` is a vote without its inner vote, and `no_sum` any other. A decoder
-- makes no vote that is nil itself, for which Parse has a case.
pub data Sum (I M : Type 0) : Type 0 where
  new_round_step new_valid_block block_part vote_set_maj23 vote_set_bits : ℤ → ℤ → Sum I M
  proposal : Proposal I M → Sum I M
  proposal_pol : ℤ → Sum I M
  vote : Option (Vote I M) → Sum I M
  has_vote no_sum : Sum I M

pub record TMessage (I M : Type 0) : Type 0 where
  pub channel_id : ℕ  -- uint16
  pub msg_bytes : List ℕ
  pub from : String
  pub to : String
  pub type : MessageType
  pub content : Option (Sum I M)

abbrev pub type_of_signed : SignedType → MessageType
type_of_signed prevote = prevote_type
type_of_signed precommit = precommit_type
type_of_signed other_signed = vote_type

-- chid < 0x20 || chid > 0x23
abbrev pub is_foreign : ℕ → Bool
is_foreign chid = ltb chid 32 || ltb 35 chid

abbrev pub as_string : {B : Type 0} → (B → String) → Option B → Option String
as_string hash_string none = none
as_string hash_string (some b) = some (hash_string b)

module _ {I M : Type 0} where
  unfoldable pub clone : TMessage I M → TMessage I M
  clone t = record {
    channel_id = t.channel_id;
    msg_bytes = t.msg_bytes;
    from = t.from;
    to = t.to;
    type = t.type;
    content = t.content;
  }

  -- Data.GetVote().Vote, and the other getters with a read of the result.
  abbrev pub inner_vote : Option (Sum I M) → Option (Vote I M)
  inner_vote (some (vote v)) = v
  inner_vote _ = none

  abbrev pub inner_proposal : Option (Sum I M) → Option (Proposal I M)
  inner_proposal (some (proposal p)) = some p
  inner_proposal _ = none

  abbrev pub step_of : Option (Sum I M) → Option (ℤ × ℤ)
  step_of (some (new_round_step h r)) = some (h, r)
  step_of _ = none

  abbrev pub block_of : Option (Sum I M) → Option (ℤ × ℤ)
  block_of (some (new_valid_block h r)) = some (h, r)
  block_of _ = none

  abbrev pub part_of : Option (Sum I M) → Option (ℤ × ℤ)
  part_of (some (block_part h r)) = some (h, r)
  part_of _ = none

  abbrev pub maj23_of : Option (Sum I M) → Option (ℤ × ℤ)
  maj23_of (some (vote_set_maj23 h r)) = some (h, r)
  maj23_of _ = none

  abbrev pub bits_of : Option (Sum I M) → Option (ℤ × ℤ)
  bits_of (some (vote_set_bits h r)) = some (h, r)
  bits_of _ = none

  abbrev pub pol_of : Option (Sum I M) → Option (ℤ × ℤ)
  pol_of (some (proposal_pol h)) = some (h, negsuc 0)
  pol_of _ = none

  abbrev pub vote_of : Option (Sum I M) → Option (ℤ × ℤ)
  vote_of d = do v ← inner_vote d; some (v.height, v.round)

  abbrev pub proposal_of : Option (Sum I M) → Option (ℤ × ℤ)
  proposal_of d = do p ← inner_proposal d; some (p.height, p.round)

  unfoldable pub height_round : TMessage I M → Option (ℤ × ℤ)
  height_round t =
      if t.type == new_round_step_type
      then step_of t.content
      else if t.type == proposal_type
      then proposal_of t.content
      else if t.type == prevote_type
      then vote_of t.content
      else if t.type == precommit_type
      then vote_of t.content
      else if t.type == vote_type
      then vote_of t.content
      else if t.type == new_valid_block_type
      then block_of t.content
      else if t.type == proposal_pol_type
      then pol_of t.content
      else if t.type == vote_set_maj23_type
      then maj23_of t.content
      else if t.type == vote_set_bits_type
      then bits_of t.content
      else if t.type == block_part_type
      then part_of t.content
      else some (negsuc 0, negsuc 0)

  unfoldable pub height : TMessage I M → Option ℤ
  unfolding height_round
  height t = do hr ← height_round t; some hr.0

  unfoldable pub round : TMessage I M → Option ℤ
  unfolding height_round
  round t = do hr ← height_round t; some hr.1

  -- The switch of Parse: v.Vote.Type is read without a test of v.Vote.
  abbrev pub type_of_sum : Sum I M → Option MessageType
  type_of_sum (new_round_step h r) = some new_round_step_type
  type_of_sum (new_valid_block h r) = some new_valid_block_type
  type_of_sum (proposal p) = some proposal_type
  type_of_sum (proposal_pol h) = some proposal_pol_type
  type_of_sum (block_part h r) = some block_part_type
  type_of_sum (vote none) = none
  type_of_sum (vote (some v)) = some (type_of_signed v.type)
  type_of_sum has_vote = some has_vote_type
  type_of_sum (vote_set_maj23 h r) = some vote_set_maj23_type
  type_of_sum (vote_set_bits h r) = some vote_set_bits_type
  type_of_sum no_sum = some none_type

  abbrev pub typed_as : TMessage I M → MessageType → Option (Sum I M) → TMessage I M
  typed_as t type d = record t { type = type; content = d }

  abbrev pub parse_sum : TMessage I M → Option (Sum I M) → Option (TMessage I M)
  parse_sum t none = some (typed_as t none_type none)
  parse_sum t (some s) = do type ← type_of_sum s; some (typed_as t type (some s))

  abbrev pub parse_decoded : (List ℕ → Option (Sum I M)) → TMessage I M → Option (TMessage I M)
  parse_decoded unmarshal t =
      if is_foreign t.channel_id
      then some (typed_as t none_type t.content)
      else parse_sum t (unmarshal t.msg_bytes)

  abbrev pub parse_json :
      (List ℕ → Option (Sum I M)) → Option (TMessage I M) → Option (Option (TMessage I M))
  parse_json unmarshal none = some none
  parse_json unmarshal (some t) = do t' ← parse_decoded unmarshal t; some (some t')

  -- `decode` is encoding/json's, into a new message: it leaves the type and the data as they were made.
  -- `unmarshal` is the protocol's. An inner `none` is the error of the first.
  unfoldable pub parse :
      (List ℕ → Option (TMessage I M))
      → (List ℕ → Option (Sum I M))
      → List ℕ
      → Option (Option (TMessage I M))
  parse decode unmarshal bytes = parse_json unmarshal (decode bytes)

  abbrev pub parsed_of : Option (Message (TMessage I M)) → Option (TMessage I M)
  parsed_of none = none
  parsed_of (some m) = m.parsed

  unfoldable pub get_message_from_event : Event → Context (TMessage I M) → Option (TMessage I M)
  get_message_from_event e c = parsed_of (get_message c e)

  abbrev pub is_vote : TMessage I M → Bool
  is_vote t = t.type == prevote_type || t.type == precommit_type

  -- These have a panic around what they find. GetValidatorAddress reads a missing inner vote as one
  -- without an address; a message without a vote panics.
  abbrev pub validator_of : Option (Sum I M) → Option (Option String)
  validator_of (some (vote none)) = some (some "")
  validator_of (some (vote (some v))) = some (some v.validator_address)
  validator_of _ = none

  unfoldable pub get_vote_validator : TMessage I M → Option (Option String)
  get_vote_validator t = if is_vote t then validator_of t.content else some none

  unfoldable pub get_vote_time : TMessage I M → Option (Option M)
  get_vote_time t =
      if is_vote t then (do v ← inner_vote t.content; some (some v.timestamp)) else some none

  module _ {B : Type 0} (block_id_from_proto : I → Option B) where
    unfoldable pub get_vote_block_id : TMessage I M → Option (Option B)
    get_vote_block_id t =
        if is_vote t
        then (do v ← inner_vote t.content; some (block_id_from_proto v.block_id))
        else some none

    unfoldable pub get_proposal_block_id : TMessage I M → Option (Option B)
    get_proposal_block_id t =
        if t.type == proposal_type
        then (do p ← inner_proposal t.content; some (block_id_from_proto p.block_id))
        else some none

    unfoldable pub get_vote_block_id_s : (B → String) → TMessage I M → Option (Option String)
    unfolding get_vote_block_id
    get_vote_block_id_s hash_string t = do b ← get_vote_block_id t; some (as_string hash_string b)

    unfoldable pub get_proposal_block_id_s : (B → String) → TMessage I M → Option (Option String)
    unfolding get_proposal_block_id
    get_proposal_block_id_s hash_string t = do
      b ← get_proposal_block_id t
      some (as_string hash_string b)
