-- ===== src/Tendermint/Messages/Typed.antt =====
-- What Parse makes: messages whose type goes with their content, so that the getters
-- that ask for the type do not panic.
use tendermint_testing.Base.{
  ℕ, ◌≡◌, ◌⊎◌, inl, inr, refl, true, false, List, Option, none, some, string_eq, Bool-cases,
  is_some,
}
use tendermint_testing.Tendermint.Messages.{
  TMessage, Sum, Vote, new_round_step, new_valid_block, block_part, vote_set_maj23, vote_set_bits,
  proposal, proposal_pol, vote, has_vote, no_sum, MessageType, none_type, new_round_step_type,
  new_valid_block_type, proposal_type, proposal_pol_type, block_part_type, has_vote_type,
  vote_set_maj23_type, vote_set_bits_type, SignedType, prevote, precommit, other_signed,
  type_of_sum, type_of_signed, is_foreign, typed_as, parse_sum, parse, height_round,
  get_vote_validator, get_vote_time, get_vote_block_id, get_proposal_block_id,
}

module _ {I M : Type 0} where
  abbrev pub type_of_content : Option (Sum I M) → Option MessageType
  type_of_content none = some none_type
  type_of_content (some s) = type_of_sum s

  -- The type is the one of the content.
  abbrev pub IsTyped : TMessage I M → Type 0
  IsTyped t = type_of_content t.content ≡ some t.type

  abbrev with_both : TMessage I M → MessageType → Option (Sum I M) → TMessage I M
  with_both t ty d = record t { type = ty; content = d }

  pub parse_sum_typed :
      (t : TMessage I M) (d : Option (Sum I M)) {ty : MessageType}
      → type_of_content d ≡ some ty
      → parse_sum t d ≡ some (typed_as t ty d)
  parse_sum_typed t none {ty} h = let is : none_type ≡ ty = cc in rw is refl
  parse_sum_typed t (some s) h = rw h refl

  module _ {B : Type 0} (from_proto : I → Option B) where
    -- HeightRound, GetVoteValidator, GetVoteTime, GetVoteBlockID and GetProposalBlockID do not panic
    -- on the message.
    abbrev pub IsReadable : TMessage I M → Type 0
    IsReadable t =
        (is_some (height_round t) ≡ true)
        × (is_some (get_vote_validator t) ≡ true)
        × (is_some (get_vote_time t) ≡ true)
        × (is_some (get_vote_block_id from_proto t) ≡ true)
        × (is_some (get_proposal_block_id from_proto t) ≡ true)

    vote-IsReadable :
        (t : TMessage I M) (v : Vote I M) (type : SignedType)
        → IsReadable (with_both t (type_of_signed type) (some (vote (some v))))
    unfolding height_round get_vote_validator get_vote_time get_vote_block_id get_proposal_block_id
    vote-IsReadable t v prevote = (refl, refl, refl, refl, refl)
    vote-IsReadable t v precommit = (refl, refl, refl, refl, refl)
    vote-IsReadable t v other_signed = (refl, refl, refl, refl, refl)

    content-IsReadable :
        (t : TMessage I M) (d : Option (Sum I M)) (ty : MessageType)
        → type_of_content d ≡ some ty
        → IsReadable (with_both t ty d)
    unfolding height_round get_vote_validator get_vote_time get_vote_block_id get_proposal_block_id
    content-IsReadable t none ty e =
        let is : ty ≡ none_type = cc in rw is (refl, refl, refl, refl, refl)
    content-IsReadable t (some (new_round_step h r)) ty e =
        let is : ty ≡ new_round_step_type = cc in rw is (refl, refl, refl, refl, refl)
    content-IsReadable t (some (new_valid_block h r)) ty e =
        let is : ty ≡ new_valid_block_type = cc in rw is (refl, refl, refl, refl, refl)
    content-IsReadable t (some (block_part h r)) ty e =
        let is : ty ≡ block_part_type = cc in rw is (refl, refl, refl, refl, refl)
    content-IsReadable t (some (vote_set_maj23 h r)) ty e =
        let is : ty ≡ vote_set_maj23_type = cc in rw is (refl, refl, refl, refl, refl)
    content-IsReadable t (some (vote_set_bits h r)) ty e =
        let is : ty ≡ vote_set_bits_type = cc in rw is (refl, refl, refl, refl, refl)
    content-IsReadable t (some (proposal p)) ty e =
        let is : ty ≡ proposal_type = cc in rw is (refl, refl, refl, refl, refl)
    content-IsReadable t (some (proposal_pol h)) ty e =
        let is : ty ≡ proposal_pol_type = cc in rw is (refl, refl, refl, refl, refl)
    content-IsReadable t (some (vote none)) ty e = absurd (cc)
    content-IsReadable t (some (vote (some v))) ty e =
        let is : ty ≡ type_of_signed v.type = cc in rw is (vote-IsReadable t v v.type)
    content-IsReadable t (some has_vote) ty e =
        let is : ty ≡ has_vote_type = cc in rw is (refl, refl, refl, refl, refl)
    content-IsReadable t (some no_sum) ty e =
        let is : ty ≡ none_type = cc in rw is (refl, refl, refl, refl, refl)

    pub IsTyped-IsReadable : (t : TMessage I M) → IsTyped t → IsReadable t
    IsTyped-IsReadable t h = content-IsReadable t t.content t.type h

    typed_or_bare :
        (d : Option (Sum I M))
        → ((ty : MessageType) × (type_of_content d ≡ some ty))
          ⊎ ((type_of_content d ≡ none) × (d ≡ some (vote none)))
    typed_or_bare none = inl (none_type, refl)
    typed_or_bare (some (vote none)) = inr (refl, refl)
    typed_or_bare (some (vote (some v))) = inl (_, refl)
    typed_or_bare (some (new_round_step h r)) = inl (_, refl)
    typed_or_bare (some (new_valid_block h r)) = inl (_, refl)
    typed_or_bare (some (block_part h r)) = inl (_, refl)
    typed_or_bare (some (vote_set_maj23 h r)) = inl (_, refl)
    typed_or_bare (some (vote_set_bits h r)) = inl (_, refl)
    typed_or_bare (some (proposal p)) = inl (_, refl)
    typed_or_bare (some (proposal_pol h)) = inl (_, refl)
    typed_or_bare (some has_vote) = inl (_, refl)
    typed_or_bare (some no_sum) = inl (_, refl)

  -- What Parse makes of bytes that decode to a message, which has no content yet. Either it returns a
  -- message with the type of its content, from and to the same replicas, on which HeightRound,
  -- GetVoteValidator, GetVoteTime, GetVoteBlockID and GetProposalBlockID do not panic; or it panics
  -- itself, and then the channel is one of the consensus and the content is a vote without
  -- its inner vote. Bytes that do not decode are an error.
  pub parse_lem :
      {B : Type 0} (from_proto : I → Option B)
      → (decode : List ℕ → Option (TMessage I M)) → (unmarshal : List ℕ → Option (Sum I M))
      → (bytes : List ℕ)
      → (decode bytes ≡ none → parse decode unmarshal bytes ≡ some none)
        × ((t : TMessage I M)
            → decode bytes ≡ some t
            → t.content ≡ none
            → ((t' : TMessage I M) × (parse decode unmarshal bytes ≡ some (some t'))
                × IsTyped t'
                × IsReadable from_proto t'
                × (t'.from ≡ t.from)
                × (t'.to ≡ t.to))
              ⊎ ((parse decode unmarshal bytes ≡ none)
                  × (is_foreign t.channel_id ≡ false)
                  × (unmarshal t.msg_bytes ≡ some (vote none))))
  unfolding parse
  parse_lem from_proto decode unmarshal bytes = (
    λ h. rw h refl,
    λ t h new.
        rw (h, parse)
          (elim (Bool-cases (is_foreign t.channel_id)) [
            | inl foreign ↦ rw foreign (
                inl (
                  typed_as t none_type t.content,
                  refl,
                  rw new refl,
                  content-IsReadable from_proto t t.content none_type (rw new refl),
                  refl,
                  refl,
                ))
            | inr ours ↦ rw ours (elim (typed_or_bare from_proto (unmarshal t.msg_bytes)) [
              | inl (ty, typed) ↦ rw (parse_sum_typed t (unmarshal t.msg_bytes) typed) (
                  inl (
                    typed_as t ty (unmarshal t.msg_bytes),
                    refl,
                    typed,
                    content-IsReadable from_proto t (unmarshal t.msg_bytes) ty typed,
                    refl,
                    refl,
                  ))
              | inr (no_type, bare) ↦ rw bare (inr (refl, refl, refl))
            ])
          ]),
  )
