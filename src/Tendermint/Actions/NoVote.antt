-- ===== src/Tendermint/Actions/NoVote.antt =====
-- ChangeVoteToProposalMessage of tendermint/tests/common/actions.go: whose validator it looks for.
use tendermint_testing.Base.{
  ℕ, ◌≡◌, ◌⊎◌, inl, inr, refl, String, true, [], Option, none, some, string_eq, ◌==◌, Bool-cases,
  is_some,
}
use text.Mathlib.TextEquality.{eq_iff}
use tendermint_testing.Types.Event.{Event}
use tendermint_testing.Types.Messages.{Message}
use tendermint_testing.Testlib.Vars as Vars
use tendermint_testing.Testlib.Vars.{Value, message, get}
use tendermint_testing.Testlib.Context.{Context, get_message}
use tendermint_testing.Tendermint.Messages.{
  TMessage, proposal_type, get_vote_validator, get_proposal_block_id,
}
use tendermint_testing.Tendermint.Messages.Typed.{IsTyped, IsTyped-IsReadable}
use tendermint_testing.Tendermint.Change.{Tendermint}
use tendermint_testing.Tendermint.Actions.{
  quiet, change_to_proposal, with_recorded, change_vote_to_proposal_message,
}

module _ {I M : Type 0} where
  get_vote_validator-proposal :
      (t : TMessage I M) → (t.type == proposal_type) ≡ true → get_vote_validator t ≡ some none
  unfolding get_vote_validator
  get_vote_validator-proposal t h =
      let is : t.type ≡ proposal_type = (eq_iff t.type proposal_type).0 h in rw is refl

  -- A message whose proposal can be read has no voter.
  proposal_has_no_voter :
      {B : Type 0} (from_proto : I → Option B) (t : TMessage I M) (found : Option (Option B))
      → get_proposal_block_id from_proto t ≡ found
      → is_some found ≡ true
      → (found ≡ some none)
        ⊎ ((b : B) × (found ≡ some (some b)) × (get_vote_validator t ≡ some none))
  unfolding get_proposal_block_id
  proposal_has_no_voter from_proto t none q readable = absurd (cc)
  proposal_has_no_voter from_proto t (some none) q readable = inl refl
  proposal_has_no_voter from_proto t (some (some b)) q readable =
      elim (Bool-cases (t.type == proposal_type)) [
        | inl same ↦ inr (b, refl, get_vote_validator-proposal t same)
        | inr other ↦ absurd (let none_found : some none ≡ some (some b) = rw other at q in cc)
      ]

module _ {K I B M : Type 0} (tm : Tendermint K I B M) (decimal : ℕ → String) where
  change_to_proposal-quiet :
      (c : Context (TMessage I M)) (recorded m : Message (TMessage I M)) (p : Option (TMessage I M))
      → recorded.parsed ≡ p
      → ((t : TMessage I M) → p ≡ some t → IsTyped t)
      → change_to_proposal tm decimal c recorded m ≡ quiet c
  change_to_proposal-quiet c recorded m none q typed = rw q refl
  change_to_proposal-quiet c recorded m (some t) q typed =
      rw q
        (elim (proposal_has_no_voter tm.block_id_from_proto t
          (get_proposal_block_id tm.block_id_from_proto t) refl
          ((IsTyped-IsReadable tm.block_id_from_proto t (typed t refl)).4)) [
            | inl unread ↦ rw unread refl
            | inr (b, read, no_voter) ↦ rw (read, no_voter) refl
          ])

  message_recorded-quiet :
      (e : Event) (c : Context (TMessage I M)) (recorded : Message (TMessage I M))
      → (found : Option (Message (TMessage I M))) → get_message c e ≡ found
      → ((t : TMessage I M) → recorded.parsed ≡ some t → IsTyped t)
      → with_recorded tm decimal e c (some (message recorded)) ≡ quiet c
  message_recorded-quiet e c recorded none q typed = rw (q, with_recorded) refl
  message_recorded-quiet e c recorded (some m) q typed =
      rw (q, with_recorded) (change_to_proposal-quiet c recorded m recorded.parsed refl typed)

  with_recorded-quiet :
      (e : Event) (c : Context (TMessage I M)) (v : Option (Value (TMessage I M)))
      → ((m : Message (TMessage I M)) (t : TMessage I M)
          → v ≡ some (message m)
          → m.parsed ≡ some t
          → IsTyped t)
      → with_recorded tm decimal e c v ≡ quiet c
  with_recorded-quiet e c (some (message recorded)) typed =
      message_recorded-quiet e c recorded (get_message c e) refl (λ t. typed recorded t refl)
  with_recorded-quiet e c none typed = refl
  with_recorded-quiet e c (some (Vars.int n)) typed = refl
  with_recorded-quiet e c (some (Vars.text s)) typed = refl
  with_recorded-quiet e c (some (Vars.bool b)) typed = refl
  with_recorded-quiet e c (some (Vars.counter n)) typed = refl
  with_recorded-quiet e c (some (Vars.message_set n)) typed = refl
  with_recorded-quiet e c (some (Vars.partition p)) typed = refl
  with_recorded-quiet e c (some (Vars.other s)) typed = refl

  -- ChangeVoteToProposalMessage sends nothing and changes nothing, and does not panic, at any event and
  -- whatever is recorded under the label, provided that a message recorded there has the type of its
  -- content, as Parse gives it.
  pub change_vote_to_proposal_message-quiet :
      (label : String) (e : Event) (c : Context (TMessage I M))
      → ((m : Message (TMessage I M)) (t : TMessage I M)
          → get c.vars label ≡ some (message m)
          → m.parsed ≡ some t
          → IsTyped t)
      → change_vote_to_proposal_message tm decimal label e c ≡ some ([], c)
  unfolding change_vote_to_proposal_message
  change_vote_to_proposal_message-quiet label e c typed =
      with_recorded-quiet e c (get c.vars label) typed
