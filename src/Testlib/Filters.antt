-- ===== src/Testlib/Filters.antt =====
-- netrix/testlib/filters.go: the cascade of filters. The first that handles the event decides.
pub mod Cascade
use tendermint_testing.Base.{◌≡◌, Bool, true, false, List, [], ◌∷◌, ◌++◌, Option, none, some}
use tendermint_testing.Types.Event.{Event}
use tendermint_testing.Types.Messages.{Message}
use tendermint_testing.Testlib.Context.{Context}
use tendermint_testing.Testlib.Conditions.{is_message_send}
use tendermint_testing.Testlib.Actions.{FilterFunc, if_then, deliver_message}

pub record FilterSet (P : Type 0) : Type 0 where
  pub filters : List (FilterFunc P)
  pub default_filter : FilterFunc P

-- With the default of NewFilterSet; WithDefault gives another.
unfoldable pub new_filter_set : (P : Type 0) → FilterSet P
new_filter_set P = record {
  filters = [];
  default_filter = if_then is_message_send (deliver_message ∷ []);
}

module _ {P : Type 0} where
  unfoldable pub with_default : FilterFunc P → FilterSet P → FilterSet P
  with_default d f = record f { default_filter = d }

  unfoldable pub add_filter : FilterSet P → FilterFunc P → FilterSet P
  add_filter f h = record f { filters = f.filters ++ h ∷ [] }

  -- addStateMachine: its handler comes before every other.
  unfoldable pub add_state_machine : FilterSet P → FilterFunc P → FilterSet P
  add_state_machine f h = record f { filters = h ∷ f.filters }

  abbrev pub default_result : (List (Message P) × Bool) × Context P → List (Message P) × Context P
  default_result ((ms, b), c) = (ms, c)

  -- The loop over the filters, with the default behind them. What a filter that does not handle the
  -- event does to the context stays.
  unfoldable pub cascade :
      List (FilterFunc P) → FilterFunc P → Event → Context P → List (Message P) × Context P
  cascade [] d e c = default_result (d e c)
  cascade (h ∷ hs) d e c =
      let ((ms, ok), c') = h e c in elim ok [ true ↦ (ms, c') | false ↦ cascade hs d e c' ]

  unfoldable pub handle_event : FilterSet P → Event → Context P → List (Message P) × Context P
  handle_event f e c = cascade f.filters f.default_filter e c
