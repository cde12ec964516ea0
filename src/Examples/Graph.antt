-- ===== src/Examples/Graph.antt =====
-- Replica "a" sends message "m" and replica "b" receives it (netrix/types/dag.go).
use tendermint_testing.Base.{
  ℕ, ◌≡◌, ◌≢◌, inl, refl, String, true, false, [], ◌∷◌, Option, none, some, get_elem?, nat_eq,
  string_eq, modify,
}
use tendermint_testing.Base.GoMap.{lookup, insert}
use tendermint_testing.Base.Int.{pos}
use tendermint_testing.Types.Event.{
  Event, EventType, message_send, message_receive, message_id, is_message_send, is_message_receive,
}
use tendermint_testing.Types.Clock.{zero_clock}
use tendermint_testing.Types.Replicas.{new_replica_store, add, iter}
use tendermint_testing.Types.Dag.{
  EventDag, EventNode, new_event_node, set_add, max_parent, component, components, next_clock,
  get_node, parent_nodes, add_parents, clocks_at, link_strand, add_node, new_event_dag, find_parent,
  node_lt, is_send_of, is_receive_of, get_send_node, get_receive_node,
}
use tendermint_testing.Types.Dag.History.{Built, start, grow, add_node_total, edges_go_up}
use tendermint_testing.Types.Dag.Searches.{Outcome, get_send_node-Outcome, later_event_never_found}
use tendermint_testing.Examples.Cluster.{replica, pair, pair-IsComplete}

abbrev pub event : String → EventType → ℕ → Event
event at t id = record { replica = at; type = t; type_s = "message"; id = id; timestamp = pos 0 }

abbrev pub send : Event
send = event "a" (message_send "m") 1

abbrev pub receive : Event
receive = event "b" (message_receive "m") 2

abbrev pub or_empty : Option EventDag → EventDag
or_empty none = record { heap = []; nodes = []; strands = []; latest = []; latest_clocks = [] }
or_empty (some d) = d

abbrev pub d0 : EventDag
d0 = or_empty (new_event_dag pair)

abbrev pub d1 : EventDag
d1 = or_empty (add_node pair d0 send [])

abbrev d2 : EventDag
d2 = or_empty (add_node pair d1 receive (send ∷ []))

-- All that a run of these examples computes with.
unfoldable pub run : EventDag
unfolding new_event_dag add_node iter add new_replica_store lookup insert zero_clock link_strand
    next_clock components component max_parent parent_nodes add_parents clocks_at set_add
    new_event_node modify
run = d2

d0-Built : Built pair d0
unfolding run
d0-Built = start refl

pub d1-Built : Built pair d1
unfolding run
d1-Built = grow send [] (record (replica "a" true) { index = 0 }) d0-Built refl refl refl

d2-Built : Built pair d2
unfolding run
d2-Built =
    grow receive (send ∷ []) (record (replica "b" false) { index = 1 }) d1-Built refl refl refl

abbrev or_new : Option EventNode → EventNode
or_new none = record {
  event = send;
  clock = none;
  prev = 0;
  next = 0;
  parents = [];
  children = [];
  dirty = false;
}
or_new (some n) = n

abbrev receive_node : EventNode
receive_node = or_new (get_node d2 2)

abbrev send_node : EventNode
send_node = or_new (get_node d2 1)

add_node_total_example :
    (d' : EventDag) × (add_node pair d1 receive (send ∷ []) ≡ some d') × Built pair d'
unfolding run
add_node_total_example =
    add_node_total pair pair-IsComplete d1-Built receive (send ∷ [])
      (record (replica "b" false) { index = 1 }) refl refl

edges_go_up_example :
    (m : EventNode) × (get_node d2 1 ≡ some m)
    × (node_lt m receive_node ≡ true)
    × (node_lt receive_node m ≡ false)
unfolding run get_node
edges_go_up_example = edges_go_up pair pair-IsComplete d2-Built 2 receive_node 0 1 refl refl

get_send_node-Outcome_example :
    Outcome (is_send_of receive) d2 receive_node.parents (get_send_node d2 receive)
unfolding run get_node is_message_receive
get_send_node-Outcome_example =
    get_send_node-Outcome pair pair-IsComplete d2-Built receive receive_node refl refl

finds_the_send : get_send_node d2 receive ≡ some (some send)
unfolding run get_node is_message_receive is_send_of is_message_send message_id find_parent
    get_send_node
finds_the_send = refl

misses_the_receive : get_receive_node d2 send ≡ some none
unfolding run get_node is_message_send find_parent get_receive_node
misses_the_receive = refl

-- Replica "b" passes the message on under the same identifier.
abbrev relay : Event
relay = event "b" (message_send "m") 3

abbrev d3 : EventDag
d3 = or_empty (add_node pair d2 relay [])

d3-Built : Built pair d3
unfolding run
d3-Built = grow relay [] (record (replica "b" false) { index = 1 }) d2-Built refl refl refl

abbrev relay_node : EventNode
relay_node = or_new (get_node d3 3)

abbrev relayed_receive : EventNode
relayed_receive = or_new (get_node d3 2)

later_event_never_found_example : get_elem? relayed_receive.parents 0 ≢ some 3
unfolding run get_node is_message_send is_message_receive is_receive_of message_id find_parent
    get_receive_node
later_event_never_found_example =
    later_event_never_found pair pair-IsComplete d3-Built relay receive relay_node relayed_receive 0
      refl (inl refl) refl
