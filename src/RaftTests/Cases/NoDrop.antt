-- ===== src/RaftTests/Cases/NoDrop.antt =====
-- DropFVotes, whose filter never finds a counter: votesByTermByReplica returns false with its label.
use tendermint_testing.Base.{
  ◌≡◌, refl, ◌∙◌, ap, Bool, false, List, [], ◌∷◌, none, Option-cases, Bool-cases, inl, inr,
}
use tendermint_testing.Types.Event as Event
use tendermint_testing.Types.Event.{Event}
use tendermint_testing.Types.Messages.{Message}
use tendermint_testing.Testlib.Context.{Context}
use tendermint_testing.Testlib.Conditions.{Condition, and, is_message_send}
use tendermint_testing.Testlib.Wrappers.{count_f, lt_f}
use tendermint_testing.Testlib.Actions.{Action, if_then, then_run, FilterFunc}
use tendermint_testing.Testlib.Filters.{handle_event, new_filter_set, add_filter, cascade}
use tendermint_testing.RaftTests.Messages.{
  RaftMessage, msg_vote_resp, f_replicas, get_message_from_event,
}
use tendermint_testing.RaftTests.Conditions.{Texts, is_message_type}
use tendermint_testing.RaftTests.Cases.{is_sent}
use tendermint_testing.RaftTests.Cases.DropVotes as DropVotes
use tendermint_testing.RaftTests.Cases.DropVotes.{votes_by_term_by_replica, votes_label, where_ok}

module _ {P : Type 0} where
  and-never :
      (cond other : Condition P) (e : Event) (c : Context P)
      → (cond e c).1 ≡ c
      → other e c ≡ (false, c)
      → and cond other e c ≡ (false, c)
  unfolding and
  and-never cond other e c same never = elim (Bool-cases (cond e c).0) [
    | inl holds ↦ rw holds (ap (other e) same ∙ never)
    | inr fails ↦ rw fails (ap (λ (x : Context P). (false, x)) same)
  ]

  pass_over :
      (h d : FilterFunc P) (e : Event) (c : Context P)
      → (h e c).0.1 ≡ false
      → (h e c).1 ≡ c
      → cascade (h ∷ []) d e c ≡ cascade [] d e c
  unfolding cascade
  pass_over h d e c pass same = rw pass (ap (cascade [] d e) same)

  -- A filter whose condition fails lets the event pass to the default.
  one_filter_passes :
      (cond : Condition P) (actions : List (Action P)) (e : Event) (c : Context P)
      → cond e c ≡ (false, c)
      → handle_event (add_filter (new_filter_set P) (if_then cond actions)) e c
        ≡ handle_event (new_filter_set P) e c
  unfolding handle_event add_filter new_filter_set if_then
  one_filter_passes cond actions e c fails =
      let fallen : if_then cond actions e c ≡ (([], false), c) = ap (then_run actions e) fails in
      pass_over (if_then cond actions) (new_filter_set P).default_filter e c
        (ap (λ (r : (List (Message P) × Bool) × Context P). r.0.1) fallen)
        (ap (λ (r : (List (Message P) × Bool) × Context P). r.1) fallen)

module _ (t : Texts) where
  is_sent_keeps : (e : Event) (c : Context RaftMessage) → (is_sent msg_vote_resp e c).1 ≡ c
  unfolding and is_message_send is_message_type
  is_sent_keeps e c = elim (Bool-cases (Event.is_message_send e)) [
    | inl sent ↦ rw sent refl
    | inr other ↦ rw other refl
  ]

  no_label : (e : Event) (c : Context RaftMessage) → votes_by_term_by_replica t e c ≡ (none, c)
  unfolding votes_by_term_by_replica
  no_label e c = elim (Option-cases (get_message_from_event e c)) [
    | inl q ↦ rw (q, votes_by_term_by_replica) refl
    | inr (m, q) ↦ rw (q, votes_by_term_by_replica) refl
  ]

  no_counter :
      (e : Event) (c : Context RaftMessage)
      → lt_f (count_f (votes_by_term_by_replica t)) f_replicas e c ≡ (false, c)
  unfolding lt_f count_f
  no_counter e c = rw (no_label e c) refl

  -- DropFVotes drops no vote: whatever the event, its filters do what a filter set without any does.
  pub drop_votes-handle_event :
      (e : Event) (c : Context RaftMessage)
      → handle_event (DropVotes.filters t) e c ≡ handle_event (new_filter_set RaftMessage) e c
  unfolding DropVotes.filters
  drop_votes-handle_event e c = one_filter_passes _ _ e c (
      and-never (is_sent msg_vote_resp) (lt_f (count_f (votes_by_term_by_replica t)) f_replicas) e c
        (is_sent_keeps e c) (no_counter e c))
