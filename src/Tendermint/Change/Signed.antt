-- ===== src/Tendermint/Change/Signed.antt =====
-- What a changed vote is.
use tendermint_testing.Base.{
  ℕ, ◌≡◌, refl, sym, ◌∙◌, ap, String, Bool, true, false, List, Option, none, some, ◌==◌, string_eq,
  ◌||◌, arith, Bool-cases, Option-cases, inl, inr, ◌⊎◌,
}
use text.Mathlib.TextEquality.{eq_iff}
use tendermint_testing.Types.Replicas.{Replica}
use tendermint_testing.Tendermint.Messages.{
  TMessage, Vote, vote, Sum, new_round_step, new_valid_block, block_part, vote_set_maj23,
  vote_set_bits, proposal, proposal_pol, has_vote, no_sum, vote_of, prevote_type, precommit_type,
  is_vote, inner_vote, type_of_signed, height_round, get_vote_validator, get_vote_block_id,
}
use tendermint_testing.Tendermint.Messages.Typed.{IsTyped, type_of_content}
use tendermint_testing.Tendermint.Change.{
  Tendermint, done, failed, invalid_vote, cannot_sign, with_vote, sign_vote, get_priv_key,
  get_chain_id, change_vote, new_vote,
}

-- What the code relies on of votes and keys: encoding a vote keeps what it says, the bytes to sign do not
-- depend on the signature, and a key's signature is accepted by `verify` for the key's address.
pub record IsSound {K I B M : Type 0} (tm : Tendermint K I B M)
    (verify : String → List ℕ → List ℕ → Bool) : Type 0 where
  pub type : (v : Vote B M) → (tm.vote_to_proto v).type ≡ v.type
  pub height : (v : Vote B M) → (tm.vote_to_proto v).height ≡ v.height
  pub round : (v : Vote B M) → (tm.vote_to_proto v).round ≡ v.round
  pub validator : (v : Vote B M) → (tm.vote_to_proto v).validator_address ≡ v.validator_address
  pub signature : (v : Vote B M) → (tm.vote_to_proto v).signature ≡ v.signature
  pub block_id :
      (v : Vote B M) → tm.block_id_from_proto (tm.vote_to_proto v).block_id ≡ some v.block_id
  pub unsigned :
      (chain : String) (v : Vote B M) (sig : List ℕ)
      → tm.vote_sign_bytes chain (tm.vote_to_proto (record v { signature = sig }))
        ≡ tm.vote_sign_bytes chain (tm.vote_to_proto v)
  pub verifies :
      (k : K) (bytes sig : List ℕ)
      → tm.sign k bytes ≡ some sig
      → verify (tm.address k) bytes sig ≡ true

module _ {K I B M : Type 0} (tm : Tendermint K I B M)
    (verify : String → List ℕ → List ℕ → Bool) where
  -- The message carries a vote with a signature of the key.
  abbrev pub IsSignedBy : String → String → TMessage I M → Type 0
  IsSignedBy addr chain t =
      (v : Vote I M) × (t.content ≡ some (vote (some v)))
      × (verify addr (tm.vote_sign_bytes chain v) v.signature ≡ true)

abbrev is_vote_type : String → Bool
is_vote_type ty = ty == prevote_type || ty == precommit_type

other_content :
    {ty other : String}
    → some other ≡ some ty
    → is_vote_type other ≡ false
    → is_vote_type ty ≡ true
    → ⊥
other_content {ty} {other} e no_vote is_one =
    let is : other ≡ ty = cc in
    let gone : false ≡ true = sym no_vote ∙ ap is_vote_type is ∙ is_one in cc

module _ {I M : Type 0} where
  -- A typed vote has its inner vote.
  vote_content :
      (d : Option (Sum I M)) (ty : String)
      → type_of_content d ≡ some ty
      → is_vote_type ty ≡ true
      → (v : Vote I M) × (d ≡ some (vote (some v))) × (type_of_signed v.type ≡ ty)
  vote_content none ty e h = absurd (other_content e refl h)
  vote_content (some (vote none)) ty e h = absurd (cc)
  vote_content (some (vote (some v))) ty e h = (v, refl, cc)
  vote_content (some (new_round_step x r)) ty e h = absurd (other_content e refl h)
  vote_content (some (new_valid_block x r)) ty e h = absurd (other_content e refl h)
  vote_content (some (block_part x r)) ty e h = absurd (other_content e refl h)
  vote_content (some (vote_set_maj23 x r)) ty e h = absurd (other_content e refl h)
  vote_content (some (vote_set_bits x r)) ty e h = absurd (other_content e refl h)
  vote_content (some (proposal p)) ty e h = absurd (other_content e refl h)
  vote_content (some (proposal_pol x)) ty e h = absurd (other_content e refl h)
  vote_content (some has_vote) ty e h = absurd (other_content e refl h)
  vote_content (some no_sum) ty e h = absurd (other_content e refl h)

  height_round_vote : (t : TMessage I M) → is_vote t ≡ true → height_round t ≡ vote_of t.content
  unfolding height_round
  height_round_vote t h = elim (Bool-cases (t.type == prevote_type)) [
    | inl pre ↦ let is : t.type ≡ prevote_type = (eq_iff t.type prevote_type).0 pre in rw is refl
    | inr no_pre ↦
        let later : (t.type == precommit_type) ≡ true = ground arith in
        let is : t.type ≡ precommit_type = (eq_iff t.type precommit_type).0 later in rw is refl
  ]

module _ {K I B M : Type 0} (tm : Tendermint K I B M)
    (verify : String → List ℕ → List ℕ → Bool) where
  -- What a changed vote keeps, and what it says now.
  abbrev pub IsChanged : K → String → B → TMessage I M → TMessage I M → Type 0
  IsChanged k chain b t t' =
      IsTyped t'
      × (t'.type ≡ t.type)
      × (height_round t' ≡ height_round t)
      × (get_vote_validator t' ≡ get_vote_validator t)
      × (get_vote_block_id tm.block_id_from_proto t' ≡ some (some b))
      × IsSignedBy tm verify (tm.address k) chain t'
      × (t'.from ≡ t.from)
      × (t'.to ≡ t.to)
      × (t'.channel_id ≡ t.channel_id)

  new_vote-IsChanged :
      (k : K) (chain : String) (b : B) (t : TMessage I M) (v : Vote I M) (sig : List ℕ)
      → IsSound tm verify
      → is_vote t ≡ true
      → t.content ≡ some (vote (some v))
      → type_of_signed v.type ≡ t.type
      → tm.sign k
          (tm.vote_sign_bytes chain (tm.vote_to_proto (new_vote tm v v.round b v.timestamp)))
        ≡ some sig
      → IsChanged k chain b t
          (with_vote tm t (record (new_vote tm v v.round b v.timestamp) { signature = sig }))
  unfolding get_vote_validator get_vote_block_id
  new_vote-IsChanged k chain b t v sig sound is_one at typed signed =
      let w : Vote B M = record (new_vote tm v v.round b v.timestamp) { signature = sig } in
      let bytes : List ℕ =
        tm.vote_sign_bytes chain (tm.vote_to_proto (new_vote tm v v.round b v.timestamp)) in
      let accepted = sound.verifies k bytes sig signed in
      (
        rw (sound.type w) (ap some typed),
        refl,
        height_round_vote (with_vote tm t w) is_one
            ∙ rw (sound.height w, sound.round w) (sym (height_round_vote t is_one ∙ rw at refl)),
        rw (is_one, at, sound.validator w) refl,
        rw (is_one, sound.block_id w) refl,
        (
          tm.vote_to_proto w,
          refl,
          ap (λ (x : List ℕ). verify (tm.address k) x (tm.vote_to_proto w).signature)
                (sound.unsigned chain (new_vote tm v v.round b v.timestamp) sig)
              ∙ ap (λ (x : List ℕ). verify (tm.address k) bytes x) (sound.signature w)
              ∙ accepted,
        ),
        refl,
        refl,
        refl,
      )

  change_vote-sign_vote :
      (replica : Replica) (t : TMessage I M) (b : B) (k : K) (chain : String) (v : Vote I M)
      → get_priv_key tm replica ≡ some k
      → get_chain_id replica ≡ done chain
      → is_vote t ≡ true
      → t.content ≡ some (vote (some v))
      → change_vote tm replica t b ≡ sign_vote tm k chain t (new_vote tm v v.round b v.timestamp)
  unfolding change_vote
  change_vote-sign_vote replica t b k chain v has_key has_chain is_one at =
      let inner : inner_vote t.content ≡ some v = rw at refl in
      rw (has_key, has_chain, is_one, inner) refl

  -- ChangeVote with a replica's key and chain, on a message whose type goes with its content, never
  -- panics. A message that is no vote is refused. A vote is signed anew, or the key cannot sign: the
  -- new message is a vote of the same type, height, round and validator, from and to the same
  -- replicas, for the given block, and the key's address accepts its signature.
  pub change_vote_lem :
      (replica : Replica) (t : TMessage I M) (b : B) (k : K) (chain : String)
      → IsSound tm verify
      → IsTyped t
      → get_priv_key tm replica ≡ some k
      → get_chain_id replica ≡ done chain
      → (is_vote t ≡ false → change_vote tm replica t b ≡ failed invalid_vote)
        × (is_vote t ≡ true
            → (change_vote tm replica t b ≡ failed cannot_sign)
              ⊎ ((t' : TMessage I M) × (change_vote tm replica t b ≡ done t')
                  × IsChanged k chain b t t'))
  unfolding change_vote
  change_vote_lem replica t b k chain sound typed has_key has_chain = (
    λ no. rw (has_key, has_chain, no) refl,
    λ is_one.
        let (v, at, same) = vote_content t.content t.type typed is_one in
        let bytes : List ℕ =
          tm.vote_sign_bytes chain (tm.vote_to_proto (new_vote tm v v.round b v.timestamp)) in
        rw (change_vote-sign_vote replica t b k chain v has_key has_chain is_one at)
          (elim (Option-cases (tm.sign k bytes)) [
            | inl none_made ↦ rw none_made (inl refl)
            | inr (sig, made) ↦
                rw made
                  (inr (_, refl, new_vote-IsChanged k chain b t v sig sound is_one at same made))
          ]),
  )
