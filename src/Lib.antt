-- ===== src/Lib.antt =====
-- Netrix (netrix) is a tool for testing implementations of distributed protocols: the replicas of
-- a cluster report the events of their runs and send their messages to a central server, which
-- decides which messages are delivered. This library models the stores and queues of that server
-- and the library for writing test cases, and proves what they guarantee.
--
-- How the parts interact. The replicas register in the replica store. Their events and messages
-- come in through the event queue and the message queue. A test case is stepped with one event at
-- a time: the driver adds the event to the graph of events, with the send of a message as the
-- parent of its receive, and runs the cascade of filters. The first filter of the cascade is the
-- handler of the test case's state machine; the messages that the deciding filter returns are
-- delivered and kept in the message pool. The dispatcher sends them to the replicas as HTTP
-- requests. The Raft example is such a replica: it publishes the changes of its term and role as
-- events, which the conditions of its test cases read.
--
-- The files, with the code that each is about:
--
--   Types.Event: netrix/types/events.go and event_types.go (Event, EventType) and ReplicaTimeout
--     of timeout.go.
--   Types.Clock: netrix/types/vector_clocks.go (ClockValue, ZeroClock, Lt, Eq).
--   Types.Replicas: netrix/types/replica.go (ReplicaStore: Add, Get, NumReady, Count, Iter,
--     ResetReady, Cap, GetRandom).
--   Types.Dag: netrix/types/dag.go (EventDAG: NewEventDag, AddNode, nextClock, GetNode,
--     GetSendNode, GetReceiveNode, GetTimeoutStart, GetTimeoutEnd). Nodes are addresses in a
--     heap.
--   Types.Messages: netrix/types/messages.go (Message, MessageStore) and parser.go.
--   Types.EventQueue and Types.MessageQueue: the queues of netrix/types/events.go and
--     messages.go. A schedule lists the calls and the halves of the turns of the dispatch loop
--     in the order in which they take the lock.
--   Types.Timeouts: netrix/types/timeout.go (TimeoutContext, TimeoutStore). The goroutines that
--     wait for a timer and the channel are lists.
--   Types.Reports: netrix/types/reports.go (ReportStore).
--   Types.ReplicaLogs: netrix/types/replica_telemetry.go (ReplicaLogStore).
--   Testlib.Partition and Testlib.Vars: netrix/testlib/lib.go (NewPartition, VarSet, Counter).
--     Counters and message sets are addresses of cells.
--   Testlib.Context: netrix/testlib/context.go, testcase.go and the run of sm.go.
--   Testlib.Conditions, Testlib.Wrappers, Testlib.Actions: netrix/testlib/conds.go, wrappers.go
--     and actions.go. Each is a function of the event and the context that returns the context
--     it leaves.
--   Testlib.Filters, Testlib.Machine, Testlib.Driver: netrix/testlib/filters.go, sm.go and
--     driver.go.
--   Tendermint.ReplicaSets and Tendermint.Partition: tendermint/tests/util/replicas.go and
--     partition.go (ReplicaSet, GenericPartitioner).
--   Tendermint.Messages and Tendermint.Change: tendermint/tests/util/messages.go and the reading
--     of keys of replicas.go (TMessage, TMessageParser, ChangeVote, ChangeVoteRound,
--     ChangeVoteTime, ChangeProposalBlockIDToNil, ChangeProposalLockedValue, Marshal). The
--     record Tendermint lists what they use of Tendermint's codecs and keys.
--   Tendermint.Conditions and Tendermint.Rounds: tendermint/tests/common/cond.go, filters.go,
--     common.go and params.go (the conditions, TrackRoundAll, TrackRoundTwoThirds, Setup).
--   Tendermint.Actions: tendermint/tests/common/actions.go (RecordProposal, ChangeVoteToNil,
--     ChangeVoteToProposalMessage).
--   Dispatcher: netrix/dispatcher/main.go (Dispatcher: DispatchMessage, DispatchTimeout,
--     StopReplica, StartReplica, RestartReplica, sendReq). What becomes of each request is an
--     argument of its call.
--   Raft.State, Raft.KvApp, Raft.Node, Raft.Snapshots, Raft.Apply, Raft.Loop:
--     raft/raft/state.go, kv.go, node.go and the calls of transport.go that node.go makes
--     (nodeState, kvApp, node: restoreSnapshot, saveSnapshot, takeSnapshot, applyEntries,
--     sendMessages, setupWAL, raftloop, Start, Stop, Restart): the replica that the Raft tests
--     run. Raft.Library lists what it calls of the Raft library, the write-ahead log, the
--     snapshotter and the codecs, which are arguments.
--   RaftTests.Messages, RaftTests.Conditions, RaftTests.Actions: raft/tests/util/util.go,
--     conditions.go and actions.go. RaftTests.Cases and its children: the test cases of
--     raft/tests/appends, raft/tests/normal and raft/tests/voting, each as its state machine and
--     its filters.
--   Base: the names that all modules share, Go's map and int, and chains of code that may panic.
--   Examples: tests, and the theorems at concrete inputs.
--
-- Conventions. A Go panic is `none`; an error value is a value of the model. A Go map is an
-- association list: its order stands for the order of an iteration, which Go leaves open. Strings
-- are texts, uint64 identifiers are natural numbers, int and int64 values are integers; a counter
-- that is incremented wraps at 64 bits. The float64 entries of a vector clock are natural numbers,
-- which is exact as long as a replica has fewer than 2^53 events. How far a slice can be extended
-- is its capacity, which the runtime chooses: it is an argument where the code slices past the
-- length. Locks are left out where a method holds one from start to end; where a loop takes it
-- twice, the two halves are separate steps. Loops over slices and maps are structural recursions,
-- so no fuel is needed. Sizes of partitions are natural numbers. A call that can also exit the
-- process (log.Fatal) or block for ever has a result of its own, Raft.Node.Result. Subtractions on
-- uint64 wrap. Parsers of messages, the reading of validator keys, time.ParseDuration, fmt's %d
-- and the random source are arguments.
--
-- Not modelled: HTTP (apiserver, util), RestartAll of the dispatcher, whose goroutines send at the
-- same time, the goroutines of testlib/execution.go and server.go, strategies, the visualizer and
-- the dashboard, configuration and logging, JSON output, the HTTP side and the transport of the
-- Raft replica, the test cases and the server of tendermint/tests, and tendermint/codebase, which
-- is a copy of another project.
pub mod Base
pub mod Types
pub mod Testlib
pub mod Tendermint
pub mod Dispatcher
pub mod Raft
pub mod RaftTests
pub mod Examples
