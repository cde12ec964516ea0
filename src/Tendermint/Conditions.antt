-- ===== src/Tendermint/Conditions.antt =====
-- tendermint/tests/common/cond.go: the conditions of the Tendermint test cases. A read of a message that
-- panics fails the condition here: no message that Parse or a change of a vote makes has one.
use tendermint_testing.Base.{
  String, Bool, true, false, not, ◌&&◌, Option, none, some, if◌then◌else◌, ◌==◌, string_eq,
}
use tendermint_testing.Base.GoMap.{GoMap, lookup}
use tendermint_testing.Base.Int.{ℤ, pos, negsuc, leb_ℤ, int_eq, add_int, sub_int}
use tendermint_testing.Types.Event.{Event, EventType, generic}
use tendermint_testing.Testlib.Vars.{text, get, get_int, get_string, set_var, Value, other}
use tendermint_testing.Testlib.Context.{Context}
use tendermint_testing.Testlib.Conditions.{Condition, Lookup}
use tendermint_testing.Tendermint.ReplicaSets as ReplicaSets
use tendermint_testing.Tendermint.Partition.{Partition, Part, get_part}
use tendermint_testing.Tendermint.Messages.{
  TMessage, MessageType, get_message_from_event, height, round, is_vote, get_vote_validator,
  get_vote_block_id_s, get_proposal_block_id_s,
}

-- strconv.Atoi, and the partition that a variable holds: it is a pointer, whose name `other` keeps.
pub record Reads : Type 0 where
  pub atoi : String → Option ℤ
  pub partition_at : String → Option Partition

abbrev pub cur_round_key : String
cur_round_key = "_curRound"

abbrev pub commit_block_id_key : String
commit_block_id_key = "_commitBlockId"

abbrev pub commit_type : String
commit_type = "Committing block"

abbrev pub new_step_type : String
new_step_type = "newStep"

-- What a generic event of the type makes of its parameters, and `other_result` for the rest.
abbrev pub on_type {ℓ} : {A : Type ℓ} → EventType → String → A → (GoMap String String → A) → A
on_type (generic params t) wanted other_result f = if t == wanted then f params else other_result
on_type _ wanted other_result f = other_result

abbrev pub holds_for {ℓ} : {A : Type ℓ} → Option A → (A → Bool) → Bool
holds_for none test = false
holds_for (some a) test = test a

-- 2f + 1 of the variable faults.
abbrev pub two_f_plus_1 : Option ℤ → Option ℤ
two_f_plus_1 none = none
two_f_plus_1 (some f) = some (add_int (add_int f f) (pos 1))

abbrev pub on_step : Event → (GoMap String String → Bool) → Bool
on_step e test = on_type e.type new_step_type false test

module _ (rd : Reads) where
  -- A number among the parameters of an event of the type newStep.
  abbrev pub number_at : GoMap String String → String → Option ℤ
  number_at params key = elim (lookup key params) [ none ↦ none | some s ↦ rd.atoi s ]

  abbrev pub step_is : ℤ → ℤ → Event → Bool
  step_is h r e = on_step e (λ params.
      holds_for (number_at params "round")
        (λ n. holds_for (number_at params "height") (λ m. m == h && n == r)))

module _ {I M : Type 0} where
  abbrev pub record_commit : Context (TMessage I M) → Option String → Bool × Context (TMessage I M)
  record_commit c none = (true, c)
  record_commit c (some b) = (true, record c { vars = set_var c.vars commit_block_id_key (text b) })

  unfoldable pub is_commit : Condition (TMessage I M)
  unfolding set_var
  is_commit e c =
      on_type e.type commit_type (false, c) (λ params. record_commit c (lookup "block_id" params))

  unfoldable pub is_nil_commit : Condition (TMessage I M)
  is_nil_commit e c = (
    on_type e.type commit_type false
        (λ params. holds_for (lookup "block_id" params) (λ b. b == "")),
    c,
  )

  unfoldable pub is_commit_for_proposal : String → Condition (TMessage I M)
  unfolding get_string
  is_commit_for_proposal prop e c = (
    holds_for (get_string c.vars prop) (λ p.
        on_type e.type commit_type false
          (λ params. holds_for (lookup "block_id" params) (λ b. b == p))),
    c,
  )

  abbrev pub on_parsed : Event → Context (TMessage I M) → (TMessage I M → Bool) → Bool
  on_parsed e c test = holds_for (get_message_from_event e c) test

  unfoldable pub is_message_from_round : ℤ → Condition (TMessage I M)
  unfolding get_message_from_event round
  is_message_from_round r e c = (on_parsed e c (λ m. holds_for (round m) (λ n. n == r)), c)

  unfoldable pub is_consensus_message : Condition (TMessage I M)
  unfolding get_message_from_event round
  is_consensus_message e c =
      (on_parsed e c (λ m. holds_for (round m) (λ n. not (n == negsuc 0))), c)

  unfoldable pub is_from_height : ℤ → Condition (TMessage I M)
  unfolding get_message_from_event height
  is_from_height h e c = (on_parsed e c (λ m. holds_for (height m) (λ n. n == h)), c)

  unfoldable pub is_message_type : MessageType → Condition (TMessage I M)
  unfolding get_message_from_event
  is_message_type t e c = (on_parsed e c (λ m. m.type == t), c)

  unfoldable pub round_reached : ℤ → Condition (TMessage I M)
  unfolding get_int
  round_reached r e c = (holds_for (get_int c.vars cur_round_key) (λ n. leb_ℤ r n), c)

  unfoldable pub message_cur_round_gt : ℤ → Condition (TMessage I M)
  unfolding get_message_from_event round get_int
  message_cur_round_gt m e c = (
    on_parsed e c (λ t.
        holds_for (get_int c.vars cur_round_key)
          (λ cur. holds_for (round t) (λ n. leb_ℤ (sub_int cur m) n))),
    c,
  )

  unfoldable pub is_message_from_cur_round : Condition (TMessage I M)
  unfolding get_message_from_event round get_int
  is_message_from_cur_round e c = (
    on_parsed e c (λ t.
        holds_for (get_int c.vars cur_round_key) (λ cur. holds_for (round t) (λ n. n == cur))),
    c,
  )

  unfoldable pub two_f_minus_1 : Lookup (TMessage I M) ℤ
  unfolding get_int
  two_f_minus_1 e c = (two_f_plus_1 (get_int c.vars "faults"), c)

  abbrev pub first_commit :
      Context (TMessage I M) → String → Option String → Bool × Context (TMessage I M)
  first_commit c b none = (false, record c { vars = set_var c.vars commit_block_id_key (text b) })
  first_commit c b (some cur) = (not (b == cur), c)

  abbrev pub compare_commit : Context (TMessage I M) → Option String → Bool × Context (TMessage I M)
  compare_commit c none = (false, c)
  compare_commit c (some b) = first_commit c b (get_string c.vars commit_block_id_key)

  unfoldable pub diff_commits : Condition (TMessage I M)
  unfolding set_var get_string
  diff_commits e c =
      on_type e.type commit_type (false, c) (λ params. compare_commit c (lookup "block_id" params))

  module _ (rd : Reads) where
    unfoldable pub is_new_height_round : ℤ → ℤ → Condition (TMessage I M)
    is_new_height_round h r e c = (step_is rd h r e, c)

    unfoldable pub height_reached : ℤ → Condition (TMessage I M)
    height_reached h e c =
        (on_step e (λ params. holds_for (number_at rd params "height") (λ m. m == h)), c)

    unfoldable pub is_event_new_round : ℤ → Condition (TMessage I M)
    is_event_new_round r e c =
        (on_step e (λ params. holds_for (number_at rd params "round") (λ n. leb_ℤ r n)), c)

    abbrev pub as_partition : Option (Value (TMessage I M)) → Option Partition
    as_partition (some (other name)) = rd.partition_at name
    as_partition _ = none

    unfoldable pub get_partition : Context (TMessage I M) → Option Partition
    unfolding get
    get_partition c = as_partition (get c.vars "partition")

    abbrev pub on_part : Context (TMessage I M) → String → (Part → Bool) → Bool
    on_part c label test = holds_for (get_partition c) (λ p. holds_for (get_part p label) test)

    unfoldable pub is_vote_from_part : String → Condition (TMessage I M)
    unfolding get_message_from_event get_partition get_part get_vote_validator
        ReplicaSets.exists_val
    is_vote_from_part label e c = (
      on_parsed e c (λ m.
          is_vote m
          && on_part c label (λ part.
            holds_for (get_vote_validator m)
              (λ found. holds_for found (λ val. ReplicaSets.exists_val part.replica_set val)))),
      c,
    )

    unfoldable pub is_vote_from_faulty : Condition (TMessage I M)
    unfolding is_vote_from_part
    is_vote_from_faulty = is_vote_from_part "faulty"

    unfoldable pub is_message_from_part : String → Condition (TMessage I M)
    unfolding get_message_from_event get_partition get_part ReplicaSets.exists
    is_message_from_part label e c = (
      on_parsed e c (λ m. on_part c label (λ part. ReplicaSets.exists part.replica_set m.from)),
      c,
    )

    unfoldable pub is_message_to_part : String → Condition (TMessage I M)
    unfolding get_message_from_event get_partition get_part ReplicaSets.exists
    is_message_to_part label e c =
        (on_parsed e c (λ m. on_part c label (λ part. ReplicaSets.exists part.replica_set m.to)), c)

    unfoldable pub is_new_height_round_from_part : String → ℤ → ℤ → Condition (TMessage I M)
    unfolding get_partition get_part ReplicaSets.exists
    is_new_height_round_from_part label h r e c = (
      on_part c label (λ part. ReplicaSets.exists part.replica_set e.replica && step_is rd h r e),
      c,
    )

  module _ {B : Type 0} (from_proto : I → Option B) (hash_string : B → String) where
    abbrev pub on_vote_block : Event → Context (TMessage I M) → (String → Bool) → Bool
    on_vote_block e c test = on_parsed e c (λ m.
        holds_for (get_vote_block_id_s from_proto hash_string m) (λ found. holds_for found test))

    unfoldable pub is_vote_for_proposal : String → Condition (TMessage I M)
    unfolding get_string get_message_from_event get_vote_block_id_s
    is_vote_for_proposal label e c =
        (holds_for (get_string c.vars label) (λ p. on_vote_block e c (λ b. b == p)), c)

    unfoldable pub is_nil_vote : Condition (TMessage I M)
    unfolding get_message_from_event get_vote_block_id_s
    is_nil_vote e c = (on_vote_block e c (λ b. b == ""), c)

    unfoldable pub is_not_nil_vote : Condition (TMessage I M)
    unfolding get_message_from_event get_vote_block_id_s
    is_not_nil_vote e c = (on_vote_block e c (λ b. not (b == "")), c)

    unfoldable pub is_proposal_eq : String → Condition (TMessage I M)
    unfolding get_string get_message_from_event get_proposal_block_id_s
    is_proposal_eq label e c = (
      holds_for (get_string c.vars label) (λ p. on_parsed e c (λ m.
          holds_for (get_proposal_block_id_s from_proto hash_string m)
            (λ found. holds_for found (λ b. b == p)))),
      c,
    )
