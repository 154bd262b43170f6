-- ===== src/Lib.antt =====
-- The two programs of the repository. MP1 is a multicast chat: a group of processes that multicast
-- texts to each other by an unreliable unicast. A process numbers its messages and stamps them with
-- a vector clock, says in each message what it has delivered and whom it believes to have failed,
-- asks for the messages that it misses, keeps what others may still need, and sends heartbeats. MP2
-- is a replicated state machine service: the replicas elect a leader by numbered proposals, and a
-- client's front end finds the leader and has it create, write, read and remove machines.
--
-- The parts, from the bottom:
--   Int32         the C++ `int`, as a bit pattern below 2 ^ 32 with the signed order
--   Map           `map<int, V>` and `set<int>`, as lists that ascend by their keys
--   Timestamp     MP1/timestamp: step, compare, update
--   Message       MP1/message/message.h: the data, and `operator<` (`precedes`)
--   Message/Codec MP1/message/message.cc: `getEncodedMessage` (`encode`) and the constructor from
--                 bytes (`decode`)
--   Decimal       the stream operators that write and read the id in a retransmission request
--   State         MP1/state: Node, ExternalNode, GlobalState
--   Unicast       MP1/unicast.cc: the list of members, the group file, and the queue of delayed
--                 messages
--   Mcast         MP1/mcast.cc but for `receive`: sends, deliveries, retransmission requests, the
--                 clean-up of the store, the heartbeat's two callbacks
--   Receive       MP1/mcast.cc: `receive` and `initIfNecessary`, and the global variables as the
--                 record Process
--   Heartbeat     MP1/heartbeat: the timers that tell of failed processes
--   Chat          MP1/chat.cc: the lines that the terminal client reads and multicasts
--   Replica       MP2/src/replica/replica_handler.cpp: the election
--   Machines      the same file: the state machines of a replica and their request queues, over the
--                 interface of MP2/src/model/statemachine.h; Machines/Bank is BankBalance; in
--                 Machines/Turns the calls of `apply` interleave at their waits
--   Placement     the same file: how the leader creates a machine on three replicas
--   Reading       the same file: the leader's choice of a reader, and its removal of a machine
--   Writing       the same file: the leader's `apply`, on the other replicas and on itself
--   Copying       the same file: `prepareGetState` with the copies it makes, `makeCopy`, `getState`
--   Connections   MP2/src/replica/replicas.cpp: the clients that a process keeps for the replicas
--   FrontEnd      MP2/src/client/frontend.cpp: the search for the leader, and the calls of a client
-- The modules below these hold the proofs, by what they prove; Receive/Reach has the steps of a
-- process as a relation. Tests holds examples.
--
-- How the code is read. A function that changes the global state takes a Run, which is that state
-- and the list of the calls that left the layer (`deliver`, `usend`, the heartbeat's `reset` and
-- `arm`), and returns the next one. What ends the process, or what C++ leaves undefined in a way
-- that no later line repairs, is a fault: a null pointer, a failed assertion, a read behind the
-- bytes that arrived, a write behind the 1000 bytes of encodeBuffer. `operator[]` inserts a missing
-- key, as it does in the code. The address of an object that the message store keeps is an argument
-- of the function that makes it, since the order of `set<Message*>` is that of the addresses.
-- Overflow of an `int` wraps around, which C++ leaves undefined. An erasure in the clean-up of the
-- store leaves its loop on an erased element, which is a fault too: a run that goes on is one in
-- which nothing was erased. Loops are structural; the one over sequence numbers
-- runs on the difference of its bounds, which is the number of its rounds, and every int has at
-- most ten decimal digits.
--
-- A heartbeat and the signal of a timer are single steps between those of the main thread, where
-- the code lets them run in the midst of one.
--
-- Unicast stands beside Mcast: the event `usend` of the one is the operation `usend_message` of the
-- other. The times there are doubles, of which only `<` is taken, as a parameter.
--
-- The replicas of MP2 are a map from numbers to states, and a call is a function on that map: a
-- replica that is not in it does not run, and a call of it throws. One that is in it is reached by
-- the others: a replica that was started again after a call of it failed stays out of reach of the
-- caller (Connections/Cache), and is not in the map of the caller's calls. A getter returns an
-- `int16_t` of its load. An error that the interface does not declare is a fault at the client. The first loop of an election
-- calls every replica, and a replica that has no leader starts an election of its own in answer.
-- Fuel bounds how many elections wait for each other; one more than the number of replicas is
-- enough, since a replica in an election starts no other.
--
-- In Writing, Copying and FrontEnd the calls come one after the other. A wait for the requests of
-- other calls is then a fault; how calls of `apply` wait for each other is in Machines/Turns. The replicas
-- agree on who leads while a call is carried out, and what the front end's two seconds of sleep
-- change is a parameter. The fuel of `find_leader` bounds the rounds of its search.
--
-- Not modelled: the output under DEBUG and the `operator<<` for it, destructors, the sockets, the
-- options and the output of MP1/chat.cc, the versions of mcast.cc that the Makefile does not build; of
-- MP2 the server, the options of the command line, the clients' scripts, and the code that Thrift
-- generates.
pub mod Prelude
pub mod Int32
pub mod Map
pub mod Timestamp
pub mod Message
pub mod Decimal
pub mod State
pub mod Unicast
pub mod Heartbeat
pub mod Chat
pub mod Connections
pub mod FrontEnd
pub mod Copying
pub mod Writing
pub mod Mcast
pub mod Receive
pub mod Replica
pub mod Machines
pub mod Placement
pub mod Reading
pub mod Tests
