-- ===== src/Lib.antt =====
-- Nazh: the engine of an edge workflow program, in Rust. Workflows are graphs of nodes; nodes
-- that talk to hardware borrow a named connection from a pool. This library models the parts
-- below.
--
-- Connections (crates/connections). `ConnectionManager` (crates/connections/src/manager/mod.rs,
-- crates/connections/src/manager/health_ops.rs) keeps the pool: a table from ids to records
-- behind `Arc<Mutex<_>>`, the window of recent attempts of each id, and the ids with a shared
-- session. A record that a name no longer points to may still be held by a guard, so records
-- live in a heap (`ConnectionManager.heap`) and the table and the guards hold addresses.
-- `acquire` checks the definition and the deadlines, counts the attempt against the rate limit
-- and gives out a `ConnectionGuard` (crates/connections/src/guard.rs), whose drop releases the
-- record with its outcome.
--   * Connections/Types: the records of crates/connections/src/types.rs; times are nanoseconds,
--     texts that the program formats are values of `Message`.
--   * Connections/Policy, Policy/Bounds: crates/connections/src/policy.rs, the policy read from
--     JSON and the backoff.
--   * Connections/Health and its children: crates/connections/src/health.rs, the state machine
--     of one record: failures, the circuit breaker, the end of a lease, and what passing time
--     does (`reconcile_timed_state`).
--   * Connections/Validation, Validation/Usable: crates/connections/src/validation.rs.
--   * Connections/Governance: the interface between the manager and the two above;
--     Connections/Json fills it.
--   * Connections/Manager and its children: the manager. `System` is a manager with the guards
--     that are out; `Op` are the operations that tasks run on it, in any order. An `acquire`
--     takes the address that its task looked up before, so another task may come between the
--     lookup and the lock. Each operation is one step, as the source holds the record's lock for
--     it; `list` and `mark_all_idle`, which lock one record after the other, are one step as well,
--     at one time.
--   * Connections/Tests, Tests/Leases: concrete runs.
--
-- The workflow graph (crates/graph). `WorkflowGraph::topology_for_edges`
-- (crates/graph/src/topology/mod.rs) checks the ends of the edges and runs Kahn's algorithm;
-- `validate` asks for a root.
--   * Graph/Types: edges, topologies and the errors; a node's definition is a type parameter.
--   * Graph/Topology: the algorithm, with the maps as lists of pairs. Its children are the
--     proof: Count (occurrences in lists of ids, so permutations), Waiting (edges a node still
--     waits for, and what a topological order is), Degrees, Collect and Outgoing (the first loop), Relax
--     and Drain (the inner and the `while` loop), Correct, Accepted and Valid (the whole).
--   * Graph/Classify and its children: `classify_edges` (crates/graph/src/topology/classify.rs),
--     which sorts the edges by the kind of the pin they leave; a node stands for what its
--     `output_pins()` returns.
--   * Graph/Cycle and its children: `detect_non_exec_edge_cycle` of the same file, Kahn's
--     algorithm on the data and reactive edges. Names carries it over to the loops of
--     Graph/Topology, Tally is its first loop, Positions and Ranked are what it decides.
--   * Graph/Pins and its children: the pin validator (crates/graph/src/pin_validator.rs). Indexed
--     is the index of the pins, Joined the check of the edges, Inputs the checks of the inputs.
--   * Graph/Pull and its children: the values of data inputs (crates/graph/src/pull). Pull is the
--     index of the data edges (index.rs), Memo is memo.rs, Payload, Cached and Evaluate are
--     collector.rs: `pull_one` takes the memo and the number of cache reads so far as its state,
--     and `world` gives what each read meets, since nodes run meanwhile. Reference is the
--     evaluation without a memo, and `Arises` (in Agrees) is what it can compute as the input of
--     a node; Descends and Ends, Remembered, Collected and Agrees, and
--     Forgetful are the proofs.
--   * Graph/Tests: concrete runs.
--
-- Workflow variables (crates/core). `WorkflowVariables` (crates/core/src/variables/mod.rs) holds
-- typed values that the nodes of a workflow share.
--   * Core/Pin: the types of pins (crates/core/src/pin.rs) and the test of a value
--     (crates/core/src/variables/value.rs).
--   * Core/Variables: the store and its calls, each one step (`VariableOp`); what is sent to
--     watchers and to the event channel is a log. Its children are Typed (the types of the
--     values), Swaps (compare-and-swap and reset) and Tests.
--   * Graph/EdgeWindow and its children: the window of an edge's statistics,
--     crates/graph/src/edge_window.rs. Each call returns the events that it emits.
--
-- Core/Data, Core/Cache (crates/core/src/data.rs and cache.rs): the payloads that wait for their
-- consumers, counted down by `release`, and the slots of data pins. `write` tests the capacity and
-- inserts in two steps, between which other tasks may come (Data/Capacity). Core/Tests has runs of
-- both.
--
-- CAN nodes (crates/nodes-io/src/can). A text of the serial line is the list of its bytes, which
-- are ASCII: Rust's `trim` and slices of the line are modelled for such text.
--   * Can/Hex, Hex/RoundTrip, Hex/Accepts: hex.rs.
--   * Can/Numerals, Numerals/Laws: `from_str_radix`, `parse`, `{:0wX}`, `trim` and slices of
--     Rust's standard library. `{:0wX}` is that of a number of at most w digits; the code tests
--     the identifier before it formats it.
--   * Can/Frame: frame.rs, filter.rs and `validate_can_id` of mod.rs.
--   * Can/Slcan and its children: `encode_slcan_frame` and `decode_slcan_frame` of
--     backends/slcan.rs, one function for each arm of the `match`.
--   * Can/Bus, Bus/Filtered: `recv` with its deadline and its filters, and the frames of
--     backends/mock.rs. The clock is a function of the round; the filters stay the same during a call.
--   * Can/Write, Write/Sendable: the frame that can_write.rs builds from a payload.
--
-- The state machine node (Flow/StateMachine and its children; crates/nodes-flow/src/state_machine.rs).
-- `transform` reads and writes the state in the workflow variables of Core/Variables. `Scripts`
-- stands for the crate rhai: `eval` may change the scope, which the conditions of a call share.
--
-- The check of state graphs (Dsl/StateGraph and its children;
-- crates/dsl-compiler/src/safety/state_graph.rs): the search for reachable states and the
-- warnings of unreachable ones, and in Cycles the search in depth for cycles (Linked is what a
-- reported cycle is, Depth that the fuel is enough).
--
-- Base and Json hold what the parts share: tests, lists over the native numbers, dictionaries,
-- saturating words, texts, and the JSON values of serde_json.
--
-- Bounds. Counters of type `u32` saturate at 2^32 - 1 (`bump_u32`), the backoff's product
-- saturates at 2^64 - 1. A time is a natural number of nanoseconds; `now + duration` of chrono,
-- which panics past the year 262142, does not wrap here. The cutoff of `register_attempt`,
-- `now - window`, stops at time 0: no attempt is older, so it keeps the same attempts as a
-- negative time; where the window exceeds the range of chrono's times (some 262000 years, which
-- the policy does not rule out), the source panics and the model does not. A dictionary is a list of pairs with
-- one pair for each key.
-- The `while` loop of Kahn's algorithm has as much fuel as there are nodes: each round moves one
-- node from the queue to the order, and no node twice.
-- The fuel of `pull_one` is the depth of its recursion; a rank that grows along the data edges
-- bounds it.
-- The loop of `find_reachable_states` has one round more than there are transitions: each round but
-- the last finds the target of a transition that had not been reached. The
-- search for cycles is no deeper than there are states and transitions, since each call but the
-- deepest visits a new name. The counters of an edge
-- window and of the data store are exact: they have 64 bits.
--
-- Parameters. `JsonNumber` stands for serde_json's `Number` with the documented ranges of its
-- accessors; `parse_url` for `Url::parse` of the crate url: the text of its error, if it has
-- one. `Scripts` stands for Rhai; an identifier that uuid draws is an argument.
--
-- Values of serde_json are compared as its derived `PartialEq` does, objects as maps
-- (`value_eq`).
--
-- Not modelled: the watchers of the output cache, the async opening of shared
-- sessions (crates/connections/src/manager/session.rs, crates/nodes-io/src/can/session.rs), the
-- poisoning of mutexes, the running of nodes (crates/graph/src/runner.rs, deploy.rs), the serial
-- port and the other devices of crates/nodes-io, the other nodes of crates/nodes-flow, the dead
-- ends of state graphs, which go by the wording of names, and the rest of crates/dsl-compiler, storage (crates/store),
-- scripting (crates/scripting, a wrapper of Rhai), the model clients (crates/ai), the data of the
-- DSL (crates/dsl-core), the bindings and the desktop shell (crates/tauri-bindings, src-tauri),
-- and the web front end: I/O, glue of third-party libraries, or parts that stand apart from
-- these.
pub mod Base
pub mod Json
pub mod Core
pub mod Connections
pub mod Can
pub mod Dsl
pub mod Flow
pub mod Graph
