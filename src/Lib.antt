-- ===== src/Lib.antt =====
-- swarm-host connects network interfaces, at each of which it takes part in a peer-to-peer network
-- under its own identity, and runs the user's filters on the traffic between them.
--
-- The parts. The overseer (src/overseer.rs) owns the interfaces and a graph of links between them.
-- It reads three channels: requests of the RPC server, events of the network, and events of the
-- filters. Each interface has a filter (src/filter/mod.rs), a task of its own, which the overseer
-- sends commands to. A filter asks its executor (src/executor/mod.rs), behind which the user's code
-- runs, what to do, and sends packets to the peers. The overseer and the filters report what they see
-- to the heuristics backend (src/heuristics/mod.rs), which counts the traffic of each peer. Users call
-- the RPC server (src/rpc.rs). The network is that of a Substrate chain (src/backend/substrate) or a
-- mock blockchain (src/backend/mockchain).
--
-- The files.
--   Prelude, Map     shared names and lemmas; HashMap and HashSet as lists without regard to order
--   Map/Laws, Map/Totals   lookups, and sums over the entries, after insertions and removals
--   Error            src/error.rs; the errors of other code are a parameter, `Foreign`
--     Equality, Display   PartialEq, and the messages
--   Backend          src/backend/mod.rs: the traits NetworkBackend, Interface, PacketSink, as records
--                    of operations, and the events of the network
--     Mockchain      src/backend/mockchain/mod.rs: the interfaces that the mock backend hands out
--     Identifiers, Calls   their identifiers and addresses
--     Masquerade     src/backend/mockchain/masquerade.rs: the task for one remote peer
--     Protocols, Messages, Samples   src/backend/mockchain/types.rs: the protocols and their names, the
--                    messages, and the random ones
--   Executor         src/executor/mod.rs: the trait Executor as a record of operations, its events
--     Pyo3           src/executor/pyo3/mod.rs: PyO3Executor, over a Python interpreter
--     Installed      its filters of single protocols
--     Conversion     src/executor/pyo3/conversion.rs: reading what the user's code returns
--     Encoding       what dictionaries and lists stand for
--   Heuristics       HeuristicsBackend: the tables, `handle_event`, `run`
--     Handle         HeuristicsHandle: each method sends one event
--     Updates        the loop with its timer, and what it sends out
--     Traffic, History   the traffic of one peer over one protocol, independent of the tables
--   Filter           Filter and its commands
--     Handle         FilterHandle: each method sends one command
--     Process        process_events: what the filter does for its executor
--     Broadcast      the loop over all peers, for a notification that no filter is installed for
--     Commands       the methods, and `handle_command`, the dispatch in `run`
--     Run            the loop of the task, over commands and calls of its timer
--     Delivery, Members, Membership, Sessions   what peers are sent, and which a filter knows
--     Requests, Absent   the requests that wait, and the protocols without a filter
--   Graph            petgraph's undirected graph, as a parameter with the documented behaviour
--     Paths, Edges   connectedness, and the edges after insertions and removals
--   Overseer         Overseer, InterfaceInfo
--     Interfaces     create_interface, link_interfaces, unlink_interfaces
--     Peers          the other methods
--     Run            the event loop `run`, one message at a time, and the requests of src/types.rs
--     Invariant, Growth, Steps, Safety   well-formedness, operation by operation
--     Delivery, Reach                    where a notification goes
--     Links, Unlinking                   the edges that linking and unlinking leave
--     Creation, Peering                  new interfaces, and peers that come and go
--     Existence, Permanence, Expected    interfaces stay
--   Rpc              src/rpc.rs: the methods of the RPC server, and sessions of calls (`serve`)
--     Client, Session    the calls that a client writes, and the operations that they ask for
--     Created        identifiers in later calls
--   Substrate        src/backend/substrate: the libraries below it are a parameter, `Library`
--     Network        network/service.rs: SubstrateNetwork, its commands, and the events that it sends
--     Handlers       on_command and on_swarm_event
--     Run            the loop of the task, over what wakes it up
--     Emitted, Frame     what each step reports, and what it leaves alone
--     Peers, Streams, Reports            connections, notifications, and events of streams
--     Identifiers, Outbound, Inbound, Cache   requests and responses
--     Protocols, Buffers   the protocols that `new` configures, and the buffer of a connection
--     Adapter        mod.rs: SubstrateBackend, its interfaces and sinks, as a NetworkBackend
--     Pipeline       the events of its tasks, as the overseer handles them
--   Demo             a network, sinks, an executor and a graph that the examples run with
--   Examples         the theorems at concrete inputs
--
-- How the code is modelled. A method on `&mut self` is a function that returns the result and the new
-- state. A channel that is written is the list of the messages sent, the oldest first; a channel that
-- is read is an argument. `run` takes the messages in the order in which `select!` happens to take
-- them, so a statement on all sequences covers every order. A panic (`expect`, `unwrap`) is `none`.
-- Sums of `usize` wrap around at 2^64. All loops are over lists and end with them; no fuel is used.
-- Code of other packages is an argument of the definitions: the Python interpreter, the sinks and the
-- network may do anything; of petgraph the documented numbering of nodes and edges is assumed
-- (UnGraphLaws), and Demo/ListGraph has a graph for which it holds; of a random number generator,
-- that it keeps to its ranges (RngLaws); of the decoders of the RPC server, that they read back what a
-- client writes (EncoderLaws).
--
-- The RPC server hands a request to the overseer at once, and the network task of the Substrate
-- backend takes what wakes it up one after another; both are lists of steps, in any order.
--
-- Not modelled: the copy of the sc-network library below src/backend/substrate/network, all of it but
-- service.rs, and what SubstrateNetwork::new calls of it; sockets, HTTP and JSON, which
-- other packages handle; the conversions of the backends' types to Python objects, which call the
-- interpreter; the loop of the mock backend that accepts connections; src/main.rs, which reads the
-- command line and starts the tasks; logging; the panic of an executor whose code returns a value of a
-- wrong type, and of a Substrate sink that is given no protocol; the WebSocket server of the heuristics backend; closed
-- channels, since the receiving tasks run as long as the program.
pub mod Prelude
pub mod Map
pub mod Error
pub mod Backend
pub mod Executor
pub mod Heuristics
pub mod Filter
pub mod Graph
pub mod Overseer
pub mod Rpc
pub mod Substrate
pub mod Demo
pub mod Examples
