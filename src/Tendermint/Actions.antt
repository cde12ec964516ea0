-- ===== src/Tendermint/Actions.antt =====
-- tendermint/tests/common/actions.go: the actions of the Tendermint test cases. The parsed message of a
-- message is a pointer, which the pool, the variables and the message sets share: a change in place is
-- seen through all of them. `none` is a panic.
pub mod NoVote
use tendermint_testing.Base.{
  ℕ, String, Bool, true, false, not, List, [], ◌∷◌, map, Option, none, some, if◌then◌else◌, ◌==◌,
  string_eq,
}
use tendermint_testing.Base.Fallible.{◌>>=◌}
use tendermint_testing.Types.Event as Event
use tendermint_testing.Types.Event.{Event}
use tendermint_testing.Types.Messages.{Message, MessageStore}
use tendermint_testing.Types.Replicas.{Replica, iter}
use tendermint_testing.Testlib.Vars.{Value, VarSet, message, text, get, set_var}
use tendermint_testing.Testlib.Context.{Context, get_message, new_message}
use tendermint_testing.Testlib.Actions.{Action}
use tendermint_testing.Tendermint.Messages.{
  TMessage, get_message_from_event, is_vote, get_vote_validator, get_proposal_block_id,
  get_proposal_block_id_s,
}
use tendermint_testing.Tendermint.Change as Change
use tendermint_testing.Tendermint.Change.{
  Tendermint, Outcome, done, failed, panicked, get_replica_address, marshal,
}

module _ {P : Type 0} where
  abbrev pub set_parsed : String → P → Message P → Message P
  set_parsed id t m = if m.id == id then record m { parsed = some t } else m

  abbrev pub in_store : String → P → MessageStore P → MessageStore P
  in_store id t s = map (λ (e : String × Message P). (e.0, set_parsed id t e.1)) s

  abbrev pub in_value : String → P → Value P → Value P
  in_value id t (message m) = message (set_parsed id t m)
  in_value id t v = v

  -- The parsed message of the message with the identifier, changed in place.
  unfoldable pub with_parsed : Context P → String → P → Context P
  with_parsed c id t = record c {
    message_pool = in_store id t c.message_pool;
    vars = record c.vars {
      vars = map (λ (e : String × Value P). (e.0, in_value id t e.1)) c.vars.vars;
      sets = map (in_store id t) c.vars.sets;
    };
  }

  abbrev pub quiet : Context P → Option (List (Message P) × Context P)
  quiet c = some ([], c)

module _ {K I B M : Type 0} (tm : Tendermint K I B M) where
  abbrev pub keep_string :
      Context (TMessage I M)
      → String
      → Option String
      → List (Message (TMessage I M)) × Context (TMessage I M)
  keep_string c key none = ([], c)
  keep_string c key (some s) = ([], record c { vars = set_var c.vars key (text s) })

  unfoldable pub record_proposal :
      String
      → Event
      → Context (TMessage I M)
      → Option (List (Message (TMessage I M)) × Context (TMessage I M))
  unfolding get_message_from_event get_proposal_block_id_s set_var
  record_proposal key e c = elim (get_message_from_event e c) [
    | none ↦ quiet c
    | some t ↦ do
      s ← get_proposal_block_id_s tm.block_id_from_proto tm.hash_string t
      some (keep_string c key s)
  ]

  -- The first replica of the iteration with the address: one without a key is passed over.
  unfoldable pub find_replica : String → List (Option Replica) → Option (Option Replica)
  unfolding get_replica_address
  find_replica addr [] = some none
  find_replica addr (none ∷ rs) = none
  find_replica addr (some r ∷ rs) = elim (get_replica_address tm r) [
    | none ↦ find_replica addr rs
    | some a ↦ elim (a == addr) [ true ↦ some (some r) | false ↦ find_replica addr rs ]
  ]

  module _ (decimal : ℕ → String) where
    abbrev pub send_changed :
        Context (TMessage I M)
        → Message (TMessage I M)
        → Option (TMessage I M × List ℕ)
        → List (Message (TMessage I M)) × Context (TMessage I M)
    send_changed c m none = ([], c)
    send_changed c m (some (t, bytes)) =
        let (c', m') = new_message decimal (with_parsed c m.id t) m (some bytes) in (m' ∷ [], c')

    -- What becomes of a changed vote: it is kept in place, encoded, and sent as a new message.
    abbrev pub changed :
        Context (TMessage I M)
        → Message (TMessage I M)
        → String
        → Outcome (TMessage I M)
        → Option (List (Message (TMessage I M)) × Context (TMessage I M))
    changed c m id panicked = none
    changed c m id (failed error) = quiet c
    changed c m id (done t) = some (send_changed (with_parsed c id t) m (marshal tm t))

    -- A vote of message `id`, given to the replica that has its validator's key, to change it.
    abbrev pub change_with :
        Context (TMessage I M)
        → Message (TMessage I M)
        → String
        → TMessage I M
        → (Replica → Outcome (TMessage I M))
        → Option (List (Message (TMessage I M)) × Context (TMessage I M))
    change_with c m id t change = do
      found ← get_vote_validator t
      elim found [
        | none ↦ quiet c
        | some addr ↦ do
          listed ← iter c.replicas
          replica ← find_replica addr listed
          elim replica [ none ↦ quiet c | some r ↦ changed c m id (change r) ]
      ]

    unfoldable pub change_vote_to_nil :
        Event
        → Context (TMessage I M)
        → Option (List (Message (TMessage I M)) × Context (TMessage I M))
    unfolding get_message get_vote_validator find_replica Change.change_vote_to_nil marshal
        with_parsed new_message iter
    change_vote_to_nil e c =
        if not (Event.is_message_send e) then quiet c else elim (get_message c e) [
          | none ↦ quiet c
          | some m ↦ elim m.parsed [
            | none ↦ quiet c
            | some t ↦
                if not (is_vote t)
                then quiet c
                else change_with c m m.id t (λ r. Change.change_vote_to_nil tm r t)
          ]
        ]

    -- The recorded proposal is what is read, and what its validator is looked for in.
    abbrev pub change_to_proposal :
        Context (TMessage I M)
        → Message (TMessage I M)
        → Message (TMessage I M)
        → Option (List (Message (TMessage I M)) × Context (TMessage I M))
    change_to_proposal c recorded m = elim recorded.parsed [
      | none ↦ quiet c
      | some t ↦ do
        found ← get_proposal_block_id tm.block_id_from_proto t
        elim found [
          | none ↦ quiet c
          | some b ↦ change_with c m recorded.id t (λ r. Change.change_vote tm r t b)
        ]
    ]

    abbrev pub with_recorded :
        Event
        → Context (TMessage I M)
        → Option (Value (TMessage I M))
        → Option (List (Message (TMessage I M)) × Context (TMessage I M))
    with_recorded e c (some (message recorded)) = elim (get_message c e) [
      | none ↦ quiet c
      | some m ↦ change_to_proposal c recorded m
    ]
    with_recorded e c _ = quiet c

    unfoldable pub change_vote_to_proposal_message :
        String
        → Event
        → Context (TMessage I M)
        → Option (List (Message (TMessage I M)) × Context (TMessage I M))
    unfolding get get_message get_proposal_block_id get_vote_validator find_replica
        Change.change_vote marshal with_parsed new_message iter
    change_vote_to_proposal_message label e c = with_recorded e c (get c.vars label)
