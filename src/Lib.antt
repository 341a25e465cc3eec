-- ===== src/Lib.antt =====
-- r2r: the verification of the core of the ROS 2 bindings.
--
-- The program. A `Node` (src/nodes.rs) owns the subscribers, timers, services, clients, action
-- clients and action servers that a user made, and knows them by traits only. The user calls
-- `spin_once` again and again: it lets the action servers send the cancel responses that are
-- complete and the clients poll for the other side, waits with rcl until something is ready, and
-- calls the handler of what is. The handlers resolve the futures and feed the streams that the
-- user holds; the user's own calls (requests, accepting a goal, finishing it) come in between.
--
-- The files.
-- - Errors: src/error.rs. `Ret` are the return codes, `Result` has the panic as a third case.
-- - GoalStatus: src/action_common.rs. ActionMsgs: the messages of action_msgs that are used.
-- - Pending: the vectors of keyed channels of all clients, `iter().position(..)` and
--   `swap_remove`. Polling: the loop of `poll_available`, the same in all clients.
-- - Clients: src/clients.rs, `TypedClient` and `Client`; Untyped has the client of JSON values.
-- - ActionClient: src/action_clients.rs; Requests has what the user calls and the futures that it
--   gets, Responses the handlers.
-- - ActionServer: src/action_servers.rs; Goals (accepting, states, feedback), Cancels (cancel
--   requests and their completion), Results (results and who waits for them), History (all
--   operations as one step relation).
-- - Services, Subscribers, Timers: src/services.rs, src/subscribers.rs and `Timer_` of
--   src/nodes.rs.
-- - Parameters: src/parameters.rs; Store has the handlers of `make_parameter_handler` and
--   `load_params` of src/nodes.rs, Store/Getting what is read after a change, Store/Events the
--   stream of what changes.
-- - Node: the traits and `spin_once` of src/nodes.rs; Spin/Preserving/Parts puts the clients,
--   action clients and action servers above in a node, Spin/Takes has what a round takes from rcl,
--   and Names has the names and topics that a node
--   reads from rcl.
-- - ActionClient/Untyped: src/action_clients_untyped.rs, the action client of JSON values, over the
--   messages of MsgTypes: src/msg_types.rs, native messages and their JSON view, with the functions
--   that r2r_msg_gen/src/lib.rs writes for every action.
-- - Publishers, Clocks: src/publishers.rs; src/clocks.rs with the log severities. Contexts:
--   src/context.rs, a context that users and nodes share; Order, Timers and Life have the calls of
--   rcl in its life, with the nodes and the timers that they drop after it.
-- - Lifecycle: what a node of src/nodes.rs creates in rcl, owns and finalizes. Dropping has
--   `Node::create` and `Drop for Node`, Histories the calls as one step relation, Ending what is
--   left when a node is dropped.
-- - Common: r2r_common/src/lib.rs, which finds the messages of the installation; Lines and Index
--   for the index files, Parsing and Grouping for what the generator makes of the names.
-- - Build: build.rs and r2r_msg_gen/build.rs. Keys has the table of introspection functions, Naming how
--   `generate_rust_msg` finds a type and names its struct, Codegen the modules that are written;
--   Paths, Walks and Written lead to Complete and References, on the types that are declared.
-- - Memory: native messages on an explicit heap, with `WrappedNativeMsg` of src/msg_types.rs as a
--   pointer; Results has the results of an action server of src/action_servers.rs once more, with
--   the memory that they take, Histories a server's life.
-- - Generated: what the code that r2r_msg_gen/src/lib.rs generates computes: the conversions between
--   Rust structs and native ones with the strings and sequences of r2r_rcl/src/lib.rs (Faithful),
--   the lookup of a type by its name (Lookup), the types and names of fields (Fields), and the
--   buffers of the sequences (Sequences).
-- - Prelude: lists, maps, tests on numbers and texts, texts as their bytes. Examples: tests, and the
--   theorems at concrete inputs.
--
-- The environment. Each component keeps in `calls` the calls that it made of rcl, rcl_action and
-- the channels of the futures crate, newest first. What such a call answers is a function of the
-- calls before it and of the call (the records named `Env`), so that a theorem for every `Env` is
-- a theorem for every behaviour of these libraries. A return code is one of the documented codes
-- `Ret`; reading it from a number, which may panic, is in Errors/Codes. There two codes may have
-- one number, which is read as the first; elsewhere an error carries the code that rcl returned,
-- so that for such a pair the program's error may be the other of the two. Channels are numbered
-- in the order of creation, goal ids and sequence numbers are numbers, and a `HashMap` is the
-- function that its `get` computes; the order in which Build walks one is an argument, and
-- Memory, where the values are owned, has a list of entries. The response to a result request for
-- an unknown goal is freed before rcl reads it, so ActionServer sends what a parameter says, and
-- Memory has a fault. A weak reference whose target is gone is `none`. Methods that lock a mutex
-- are atomic. An operation returns its result with the new state; after a panic there is no
-- state.
--
-- Fuel. The loop that notifies the waiting channels runs on one more than their number, which is
-- enough. The loop of `handle_goal_expired` needs fuel for its first test only: it makes no round
-- at all. The drop of a node tries to unwrap each publisher as often as the fuel says; it waits
-- for other threads, so the theorem on it has how long these hold a publisher as its hypothesis.
--
-- In Lifecycle an entity is the handle that its `_init` function filled, a number in the order of
-- creation, and `events` are the initializations and finalizations, newest first. In MsgTypes and
-- what uses it, the generated types and serde are parameters: a `Typesupport` per type, with the
-- hypotheses that a message copied to native memory is read back (`IsFaithful`, which Generated
-- shows of the generated conversions for the messages that fit) and that serde reads what it wrote
-- (`Stands`). In Common the files are an argument, in Build also `Path::parent`, the C functions
-- that describe types, and the order in which a `HashMap` is walked (`IsWalk`: any order in which
-- every key is met). In Memory an address is not given out twice, so that any use of a message
-- that is not allocated is a `fault`; a C string or sequence inside a message is part of what its
-- address holds.
--
-- Not modelled: the memory of the native messages outside of results; handing log lines to
-- rcutils; the calls that add the parts of a node to the wait set, which have no other effect
-- than that what rcl answers speaks of them; the examples and tests; the options of bindgen,
-- r2r_rcl/build.rs and r2r_actions, which only call it; the text of the generated code beyond the
-- names that it declares and what its conversions compute. Messages that are printed are left
-- out.
pub mod Prelude
pub mod Errors
pub mod Polling
pub mod Pending
pub mod Clients
pub mod Services
pub mod Subscribers
pub mod Timers
pub mod Node
pub mod Parameters
pub mod GoalStatus
pub mod ActionMsgs
pub mod MsgTypes
pub mod ActionServer
pub mod Memory
pub mod Build
pub mod Common
pub mod Generated
pub mod Publishers
pub mod Clocks
pub mod Contexts
pub mod Lifecycle
mod Examples
pub mod ActionClient
