-- ===== src/Lib.antt =====
-- Eventage: an event bus for agents, with the hooks, providers and forwarders built on it.
--
-- An `EventBus` (src/bus.rs) keeps a registry of events, the active path through them and the
-- branches that rollbacks have sealed, and fans every event out to its subscribers. Everything else
-- works on a bus: hooks of the agent's cycle read its log and publish on it, a restart restores it
-- from what an exporter received and then reconciles tool calls that were cut off, and forwarders
-- carry events from one bus to another. The providers of completions wrap each other.
--
-- Files, and the sources that they model:
--   Json          the document type of payloads and metadata (serde_json, as far as it is used)
--   Event         src/event.rs; Event/Kinds and Event/MetaKeys its constants
--   Runtime       the interface to tokio's channels and to the text of identifiers, with its laws
--   Store         src/bus.rs, `DagStore`; Store/Soundness the invariant, Store/Reading and
--                 Store/Reclaim what is read and what an eviction leaves
--   Channel       src/bus.rs, `SenderInner` and `fan_out`
--   Bus           src/bus.rs, `EventBus`; Bus/Rollback and Bus/Delivery its theorems
--   Restore       src/bus.rs, `restore_from`; Restore/Tombstone, Restore/Mirror and
--                 Restore/RoundTrip relate it to a session that an exporter followed
--   Interleaving  src/bus.rs, its critical sections in any order
--   Glob          src/agent/permission.rs, `glob_match`; Glob/Matching
--   Hook          src/agent/hook.rs, `HookAction`
--   HookChain     src/agent/hook.rs, the chains; HookChain/Consent and HookChain/Withdrawal
--   Permission    src/agent/permission.rs; Permission/Approval
--   Recovery      src/agent/recovery.rs; Recovery/Reconciled and Recovery/Settled
--   Budget        src/agent/budget.rs; Budget/Enforcement
--   Stuck         src/agent/stuck.rs; Stuck with Reading and Evidence
--   Retry         src/llm/retry.rs and src/llm/error.rs; Retry/Attempts
--   RateLimit     src/llm/rate_limit.rs; RateLimit/Spacing
--   Scheduler     src/scheduler.rs; Scheduler/Idle
--   Bridge        src/bridge.rs; Bridge/Hops
--   Distributed   src/distributed.rs; Distributed/Memory and Distributed/Echo
--   Message       src/llm/types.rs and src/llm/content.rs, messages and their parts
--   Context       src/agent/context.rs; Context/Repair and Context/Cache
--   Schema        src/schema.rs; Schema with Types, Keywords, Paths and Acceptance
--   Truncate      src/agent/strategy.rs, the cap on a tool's result
--   Tokens        src/agent/tokens.rs, the estimate
--   Strategy      src/agent/strategy.rs and src/agent/tool.rs, what a cycle works with;
--                 Strategy/ToolCalls the execution of tool calls, with Tickets, Naming, Answered,
--                 and Cleared; Strategy/React both strategies, with Growth, Balance,
--                 Settled, Running and Logged
--   Agent         src/agent/core.rs; Agent/Waking
--   Clearing      src/agent/context_edit.rs; Clearing/Ratchet
--   Epitaph       src/eviction.rs; Epitaph/Drained
--   Masking       src/bus.rs, `secrets_masking_transform`
--   Prelude       lists, maps and tests on native numbers, shared by all
--   Examples      a concrete runtime, with small sessions and runs
--
-- How state is modelled. A bus is a record that every method takes and returns. A method that takes
-- the store's lock once is one change; `rollback` takes it three times, and each phase is a function
-- of its own, so that Interleaving may put other tasks' sections between them. `publish` returns `Ok`
-- on every path, so it returns a bus here, and so do the callers that pass its error on. Identifiers
-- are numbers; the ids and the clock readings that a method draws are its arguments. A channel is a
-- value of an abstract type `Sender`, with what its receiver has been handed. A map is a list with
-- one entry for each key. Numbers are unbounded, but the token sum wraps at 2^64 as in a release build
-- and the backoff saturates where the source does.
--
-- A cycle's state is a `World`: the bus, the number of ids drawn, and whatever else its hooks, its
-- tools, its provider and its assembler share. Tools run concurrently: the order in which the tasks
-- end is an argument, and each task acts, at its end, on the shared state that the earlier ones left.
-- What overlapping tasks do to that state in between, and a tool that publishes on the bus itself,
-- are outside the model. `AbortCycle` and errors are values; an error of the bus ends an agent's
-- loop, any other only its cycle. The loop of `ReactStrategy` counts down the steps that are left.
--
-- Fuel. The retry loop has `max_retries + 1` units, one for each call, which its theorem shows to be
-- enough. The scan for a character boundary has the bytes that are left. Every other loop is by
-- recursion on a list or on the steps left.
--
-- Arguments that stand for code outside this repository or for floats: the runtime, the queue of the
-- epitaphs, lower-casing, the parser and the printer of JSON values, their equality, the bytes and words of a text, the tools
-- of a registry, the jitter, the threshold of the budget's warning, the factor of the token estimate,
-- the calibrated count and the weights of clearing, the clock readings of the run loop,
-- the provider of a cycle, the outcomes of a wrapped provider and of a transport. The assembler of a
-- cycle and the text that sums up rejected branches are arguments too, as the source takes them.
--
-- Not modelled: summaries, the calibration of token counts, multi-agent
-- sessions; and what is I/O, the wire formats and clients
-- of the providers, MCP, exporters, plugins, sandboxes, the database, the TCP transport and the
-- applications.
mod Prelude
pub mod Json
pub mod Event
pub mod Glob
pub mod Runtime
pub mod Store
pub mod Channel
pub mod Bus
pub mod Hook
pub mod Permission
pub mod Recovery
pub mod Restore
pub mod Interleaving
pub mod Budget
pub mod Stuck
pub mod Retry
pub mod RateLimit
pub mod Scheduler
pub mod Bridge
pub mod Distributed
mod Examples
pub mod HookChain
pub mod Message
pub mod Context
pub mod Schema
pub mod Truncate
pub mod Tokens
pub mod Strategy
pub mod Agent
pub mod Clearing
pub mod Epitaph
pub mod Masking
