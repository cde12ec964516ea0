-- ===== src/Testlib/Vars.antt =====
-- netrix/testlib/lib.go (netrix/types/varset.go is a copy): the variables of a test case. Counters and
-- message sets are pointers in Go: here they are addresses of cells, so that two labels can share one.
use tendermint_testing.Base.{
  ℕ, String, Bool, List, [], ◌∷◌, ◌++◌, Option, none, some, length, get_elem?, set, modify, is_some,
  string_eq,
}
use tendermint_testing.Base.GoMap.{GoMap, lookup, insert}
use tendermint_testing.Base.Int.{ℤ, pos, incr_int}
use tendermint_testing.Types.Messages.{Message, MessageStore}
use tendermint_testing.Testlib.Partition.{ReplicaPartition}

-- What an interface{} holds; `other` is a value of any other type.
pub data Value (P : Type 0) : Type 0 where
  int : ℤ → Value P
  text : String → Value P
  bool : Bool → Value P
  counter : ℕ → Value P
  message_set : ℕ → Value P
  message : Message P → Value P
  partition : ReplicaPartition → Value P
  other : String → Value P

pub record VarSet (P : Type 0) : Type 0 where
  pub vars : GoMap String (Value P)
  pub counters : List ℤ
  pub sets : List (MessageStore P)

unfoldable pub new_var_set : (P : Type 0) → VarSet P
new_var_set P = record { vars = []; counters = []; sets = [] }

module _ {P : Type 0} where
  unfoldable pub get : VarSet P → String → Option (Value P)
  get v label = lookup label v.vars

  abbrev pub as_int : Option (Value P) → Option ℤ
  as_int (some (int n)) = some n
  as_int _ = none

  unfoldable pub get_int : VarSet P → String → Option ℤ
  get_int v label = as_int (lookup label v.vars)

  abbrev pub as_text : Option (Value P) → Option String
  as_text (some (text s)) = some s
  as_text _ = none

  unfoldable pub get_string : VarSet P → String → Option String
  get_string v label = as_text (lookup label v.vars)

  abbrev pub as_bool : Option (Value P) → Option Bool
  as_bool (some (bool b)) = some b
  as_bool _ = none

  unfoldable pub get_bool : VarSet P → String → Option Bool
  get_bool v label = as_bool (lookup label v.vars)

  unfoldable pub set_var : VarSet P → String → Value P → VarSet P
  set_var v label value = record v { vars = insert label value v.vars }

  unfoldable pub exists : VarSet P → String → Bool
  exists v label = is_some (lookup label v.vars)

  -- NewCounter: a cell that holds 0.
  unfoldable pub new_counter : VarSet P → VarSet P × ℕ
  new_counter v = (record v { counters = v.counters ++ pos 0 ∷ [] }, length v.counters)

  unfoldable pub set_counter : VarSet P → String → VarSet P
  unfolding new_counter
  set_counter v label =
      let (v', c) = new_counter v in record v' { vars = insert label (counter c) v'.vars }

  abbrev pub as_counter : Option (Value P) → Option ℕ
  as_counter (some (counter c)) = some c
  as_counter _ = none

  unfoldable pub get_counter : VarSet P → String → Option ℕ
  get_counter v label = as_counter (lookup label v.vars)

  unfoldable pub new_message_set : VarSet P → String → VarSet P
  new_message_set v label = record v {
    vars = insert label (message_set (length v.sets)) v.vars;
    sets = v.sets ++ [] ∷ [];
  }

  abbrev pub as_set : Option (Value P) → Option ℕ
  as_set (some (message_set c)) = some c
  as_set _ = none

  unfoldable pub get_message_set : VarSet P → String → Option ℕ
  get_message_set v label = as_set (lookup label v.vars)

  -- The methods of a counter, at its address.
  unfoldable pub set_value : VarSet P → ℕ → ℤ → VarSet P
  set_value v c n = record v { counters = set v.counters c n }

  unfoldable pub incr : VarSet P → ℕ → VarSet P
  incr v c = record v { counters = modify incr_int v.counters c }

  unfoldable pub value : VarSet P → ℕ → Option ℤ
  value v c = get_elem? v.counters c

  -- A message set, at its address.
  unfoldable pub set_at : VarSet P → ℕ → Option (MessageStore P)
  set_at v s = get_elem? v.sets s
