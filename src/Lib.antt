-- ===== src/Lib.antt =====
-- gpui-agent lets a program drive a desktop application through its semantic UI tree: a client sends
-- requests as lines of JSON, a dispatcher answers them from an application that implements the trait
-- `AgentHost`. This library models that control plane and the demo application behind it.
--
-- The parts, by file, with the code that they model (crates/gpui-agent/src/ unless said otherwise):
-- - Base: numbers, lists, maps, Rust's `str`, and `f32` as an interface without laws, with what JSON makes of it.
-- - Tree: tree.rs. Nodes and lists of nodes are mutual data types; `Attrs` are the fields of a node.
-- Build has the constructors, Search and Roots the traversals of nodes and trees, Fingerprint the
-- FNV-1a hash, Order and Gate the proofs.
-- - Modes and Protocol: protocol.rs, the values that serde hands over. Error: one constructor for each
-- error text of the program.
-- - Event: event.rs, a bounded ring. History compares it with the list of all events, Poll the answers.
-- - Hex: hmac_auth.rs. The MAC itself is a parameter.
-- - Keybinding: keybinding.rs, the allow-list of Actions.
-- - Diff: diff.rs; Fields has the edits of one node, Compact the text form.
-- - Host: host.rs and the responses. `AgentHost` is a record of functions on a state `S`.
-- - Dispatch: dispatch.rs, with `validate_request` of scroll_capture.rs and `fill_hello_identity` of
-- discovery.rs. Cache is the cache of a session and the authentication, Assert the assertions, Answers
-- the observing responses, Handle the request handler, which returns the response, the cache and the
-- host.
-- - Ndjson: ndjson.rs over a list of bytes. Mailbox: mailbox.rs.
-- - Virtual: virtual_input.rs.
-- - Client: client.rs, over a record of functions for the socket. Complete is about the number of
-- answers to a pipeline, Once about the lines that it writes, and Answered about which answer goes to
-- which operation. Recipe.Run.Session makes it the client of a run.
-- - Json: `serde_json::Value`, as far as the program looks into it.
-- - Recipe: crates/gpui-agent-recipe/src/. Registry is schema.rs and the registry's operations, Params
-- the placeholders of recipe.rs, with an expansion of templates in Texts to compare them with, Check
-- `validate_recipe` and `apply_params`, Plan plan.rs, with Kahn's algorithm in Plan.Schedule, and Run
-- run.rs with receipt.rs. Its children prove: Edges, Waves, Order and Sound about the schedule, Clean,
-- Pipeline, Finished and Planned about a run. Wants is the line format of recipes.
-- - Todo: crates/todo-core/src/lib.rs, the store that fills `AgentHost`; Todo.Host.todo_host is that
-- instance, and the theorems on the dispatcher are applied to it in Tests.
--
-- Conventions. State is passed explicitly. A method that holds a mutex from first to last is one step.
-- A wait is given the states of the host at its later readings as a list, so it ends with the list: the
-- clock decides how long that list is. The decimal printer of Todo.Strings has fuel for twenty digits
-- and one more, enough for any `u64`. The loop of `schedule` has fuel for one round more than there are
-- steps; each round takes a step at least. A retry loop of the client takes the number of tries before
-- its deadline from the clock. Vectors answer a default out of range, where the source would
-- panic; the schedule reads in range. A `u64` sum that can overflow is taken modulo 2 ^ 64 (the cursor
-- of `since`); counters that grow by one per operation (sequence numbers, revisions, rebuilds, item
-- ids) are plain numbers.
--
-- Not modelled: serde's encoding, sockets and threads (server.rs), the convenience methods and
-- timeouts of the client, the registry of hosts (discovery.rs), pixels and system tools
-- (screenshot.rs, scroll_capture.rs), the random nonce, the tables of schemas and the resolver of the
-- recipe crate, the policy crate, the command line, the benchmark and the GUI applications. What the
-- program takes from outside is a parameter: the MAC, the identity of the process, the name of the
-- operating system, the outcome of the checks on a screenshot path, the hash of a plan, what
-- serde_json makes of a text, the files of a run, and the socket and the clock of the client.
pub mod Base
pub mod Json
pub mod Event
pub mod Modes
pub mod Error
pub mod Tree
pub mod Hex
pub mod Protocol
pub mod Keybinding
pub mod Diff
pub mod Host
pub mod Dispatch
pub mod Ndjson
pub mod Mailbox
pub mod Virtual
pub mod Todo
pub mod Client
pub mod Recipe
pub mod Tests
