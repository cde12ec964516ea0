-- ===== src/Types/Dag.antt =====
-- netrix/types/dag.go: the graph of events, with a vector clock on every node. Nodes are pointers
-- in Go: here they are addresses in a heap, the map `nodes` leads from an event's identifier to an
-- address, and what mutates a node changes it in the heap. `none` is a panic.
pub mod Clocks
pub mod Parents
pub mod Advance
pub mod Invariant
pub mod AddNode
pub mod Growth
pub mod History
pub mod Grown
pub mod Searches
use mathlib.Core.Option
use tendermint_testing.Base.{
  ℕ, zero, suc, ◌+◌, ◌≡◌, String, Bool, true, false, not, ◌&&◌, List, [], ◌∷◌, ◌++◌, Option, none,
  some, ltb, if◌then◌else◌, length, get_elem?, modify, ◌==◌, nat_eq, string_eq, is_some,
}
use tendermint_testing.Base.GoMap.{GoMap, lookup, insert}
use tendermint_testing.Base.Fallible.{◌>>=◌}
use tendermint_testing.Types.Event.{
  Event, ReplicaTimeout, timeout_beq, message_id, is_message_send, is_message_receive, timeout,
  is_timeout_start, is_timeout_end,
}
use tendermint_testing.Types.Clock.{ClockValue, zero_clock, lt}
use tendermint_testing.Types.Replicas.{Replica, ReplicaStore, iter}

-- EventNodeSet: a set of identifiers, in the order that an iteration takes.
unfoldable pub exists : ℕ → List ℕ → Bool
exists nid [] = false
exists nid (x ∷ xs) = if x == nid then true else exists nid xs

unfoldable pub set_add : ℕ → List ℕ → List ℕ
set_add nid [] = nid ∷ []
set_add nid (x ∷ xs) = if x == nid then x ∷ xs else x ∷ set_add nid xs

pub record EventNode : Type 0 where
  pub event : Event
  pub clock : Option ClockValue
  pub prev : ℕ
  pub next : ℕ
  pub parents : List ℕ
  pub children : List ℕ
  pub dirty : Bool

unfoldable pub new_event_node : Event → EventNode
new_event_node e = record {
  event = e;
  clock = none;
  prev = 0;
  next = 0;
  parents = [];
  children = [];
  dirty = false;
}

-- EventNode.Lt: a node with no clock is below every other.
unfoldable pub node_lt : EventNode → EventNode → Bool
node_lt n other = elim n.clock [
  | none ↦ true
  | some c ↦ elim other.clock [ none ↦ false | some d ↦ lt c d ]
]

pub record EventDag : Type 0 where
  pub heap : List EventNode
  pub nodes : GoMap ℕ ℕ
  pub strands : GoMap String ℕ
  pub latest : GoMap String ℕ
  pub latest_clocks : GoMap String ClockValue

abbrev pub zero_clocks :
    ℕ → List (Option Replica) → GoMap String ClockValue → Option (GoMap String ClockValue)
zero_clocks cap [] m = some m
zero_clocks cap (none ∷ rs) m = none
zero_clocks cap (some r ∷ rs) m = zero_clocks cap rs (insert r.id (zero_clock cap) m)

unfoldable pub new_event_dag : ReplicaStore → Option EventDag
new_event_dag store = do
  replicas ← iter store
  clocks ← zero_clocks store.cap replicas []
  some (record { heap = []; nodes = []; strands = []; latest = []; latest_clocks = clocks })

-- The inner loop of nextClock: the largest entry of the parents' clocks at an index.
unfoldable pub max_parent : List (Option ClockValue) → ℕ → ℕ → Option ℕ
max_parent [] i m = some m
max_parent (none ∷ ps) i m = none
max_parent (some c ∷ ps) i m = elim (get_elem? c i) [
  | none ↦ none
  | some x ↦ max_parent ps i (if ltb m x then x else m)
]

-- One turn of the outer loop. The clock of the event's replica is read only at its own entry.
unfoldable pub component :
    String → Option ClockValue → List (Option ClockValue) → ℕ → Replica → Option ℕ
component replica latest parents i r = do
  m ← max_parent parents i 0
  let bumped = (do c ← latest; x ← get_elem? c i; some (if ltb m (x + 1) then x + 1 else m))
  if r.id == replica then bumped else some m

unfoldable pub components :
    String
    → Option ClockValue
    → List (Option ClockValue)
    → ℕ
    → List (Option Replica)
    → Option ClockValue
components replica latest parents i [] = some []
components replica latest parents i (none ∷ rs) = none
components replica latest parents i (some r ∷ rs) =
    let later = components replica latest parents (i + 1) rs in
    (do x ← component replica latest parents i r; xs ← later; some (x ∷ xs))

unfoldable pub next_clock :
    ReplicaStore → EventDag → Event → List (Option ClockValue) → Option (ClockValue × EventDag)
next_clock store d e parents = do
  replicas ← iter store
  next ← components e.replica (lookup e.replica d.latest_clocks) parents 0 replicas
  some (next, record d { latest_clocks = insert e.replica next d.latest_clocks })

unfoldable pub get_node : EventDag → ℕ → Option EventNode
get_node d eid = lookup eid d.nodes >>= get_elem? d.heap

-- The known ones among the parents that were given.
unfoldable pub parent_nodes : GoMap ℕ ℕ → List Event → List ℕ
parent_nodes nodes [] = []
parent_nodes nodes (p ∷ ps) = elim (lookup p.id nodes) [
  | none ↦ parent_nodes nodes ps
  | some a ↦ a ∷ parent_nodes nodes ps
]

abbrev pub add_parent : ℕ → EventNode → EventNode
add_parent nid n = record n { parents = set_add nid n.parents }

abbrev pub add_child : ℕ → EventNode → EventNode
add_child nid n = record n { children = set_add nid n.children }

-- EventNode.AddParents, for the node of event `id` at address `a`.
unfoldable pub add_parents : ℕ → ℕ → List ℕ → List EventNode → Option (List EventNode)
add_parents a id [] heap = some heap
add_parents a id (p ∷ ps) heap = elim (get_elem? heap p) [
  | none ↦ none
  | some n ↦ add_parents a id ps (modify (add_child id) (modify (add_parent n.event.id) heap a) p)
]

-- The clocks of the nodes at some addresses.
unfoldable pub clocks_at : List EventNode → List ℕ → Option (List (Option ClockValue))
clocks_at heap [] = some []
clocks_at heap (p ∷ ps) =
    let later = clocks_at heap ps in (do n ← get_elem? heap p; cs ← later; some (n.clock ∷ cs))

abbrev pub set_next : ℕ → EventNode → EventNode
set_next id n = record n { next = id }

abbrev pub set_prev : ℕ → EventNode → EventNode
set_prev id n = record n { prev = id }

abbrev pub set_clock : ClockValue → EventNode → EventNode
set_clock c n = record n { clock = some c }

-- The strand of the event's replica: its latest node, if there is one, comes before the new node
-- and is one more parent.
unfoldable pub link_strand : EventDag → ℕ → Event → List ℕ → Option (List EventNode × List ℕ)
link_strand d a e parents = elim (lookup e.replica d.latest) [
  | none ↦ some (d.heap, parents)
  | some l ↦ (do
    b ← lookup l d.nodes
    before ← get_elem? d.heap b
    some (modify (set_prev before.event.id) (modify (set_next e.id) d.heap b) a, parents ++ b ∷ []))
]

unfoldable pub add_node : ReplicaStore → EventDag → Event → List Event → Option EventDag
add_node store d e parents = do
  let a = length d.heap
  let known = parent_nodes d.nodes parents
  let d1 = record d { heap = d.heap ++ new_event_node e ∷ []; nodes = insert e.id a d.nodes }
  (linked, addrs) ← link_strand d1 a e known
  heap ← add_parents a e.id addrs linked
  clocks ← clocks_at heap addrs
  let d2 = record d1 { heap = heap; latest = insert e.replica e.id d.latest }
  (next, d3) ← next_clock store d2 e clocks
  some (record d3 {
    heap = modify (set_clock next) heap a;
    strands =
        if is_some (lookup e.replica d.strands) then d.strands else insert e.replica e.id d.strands;
  })

-- The loop over node.Parents of the four searches below.
unfoldable pub find_parent : (Event → Bool) → EventDag → List ℕ → Option (Option Event)
find_parent test d [] = some none
find_parent test d (p ∷ ps) =
    let later = find_parent test d ps in
    (do n ← get_node d p; if test n.event then some (some n.event) else later)

-- The node of an event and its parents, searched.
abbrev pub search_parents : (Event → Bool) → EventDag → Event → Option (Option Event)
search_parents test d e = elim (get_node d e.id) [
  | none ↦ some none
  | some n ↦ find_parent test d n.parents
]

abbrev pub same_message : Option String → Option String → Bool
same_message none none = true
same_message (some m) (some n) = m == n
same_message _ _ = false

unfoldable pub is_send_of : Event → Event → Bool
is_send_of e p = is_message_send p && same_message (message_id p) (message_id e)

unfoldable pub is_receive_of : Event → Event → Bool
is_receive_of e p = is_message_receive p && same_message (message_id p) (message_id e)

abbrev pub same_timeout : Option ReplicaTimeout → Option ReplicaTimeout → Bool
same_timeout (some t) (some u) = timeout_beq t u
same_timeout _ _ = false

unfoldable pub is_start_of : Event → Event → Bool
is_start_of e p = is_timeout_start p && same_timeout (timeout e) (timeout p)

unfoldable pub is_end_of : Event → Event → Bool
is_end_of e p = is_timeout_end p && same_timeout (timeout e) (timeout p)

unfoldable pub get_send_node : EventDag → Event → Option (Option Event)
get_send_node d e =
    if not (is_message_receive e) then some none else search_parents (is_send_of e) d e

unfoldable pub get_receive_node : EventDag → Event → Option (Option Event)
get_receive_node d e =
    if not (is_message_send e) then some none else search_parents (is_receive_of e) d e

unfoldable pub get_timeout_start : EventDag → Event → Option (Option Event)
get_timeout_start d e =
    if not (is_timeout_end e) then some none else search_parents (is_start_of e) d e

unfoldable pub get_timeout_end : EventDag → Event → Option (Option Event)
get_timeout_end d e =
    if not (is_timeout_start e) then some none else search_parents (is_end_of e) d e
