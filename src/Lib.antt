-- ===== src/Lib.antt =====
-- A model of the core of 1H-Agent-core: the Rust library behind an agent's user interfaces, which
-- keeps sessions, streams a model's answers, runs its tools under a policy and tells every user
-- interface what happened.
--
-- How the parts interact. The agent (src/agent.rs) sends the history that is safe to replay
-- (Conversation) to a provider (src/provider), retrying by Provider, and cuts its bytes into
-- events (OpenAi) and gathers them in a collector (Collector) under the limits of the
-- configuration (Limits). A tool call is put to the policy (Policy); a URL that
-- it fetches passes the check of its addresses (Web). A session (Session) follows
-- the agent's events, several sessions run in the background (App), and the engine (Engine) routes
-- the events to them and answers approvals. What happens is told as an event (Protocol), which the
-- bridge (Bridge) numbers, retains and sends to the subscribers.
--
-- Files and code.
--   Base: texts, lists, machine words and tests that the other files share.
--   Protocol: src/protocol.rs, the events and envelopes; `ToolCall` of src/provider/mod.rs.
--   Bridge: src/bridge.rs. Eviction is the loop of `push`, History what the ring holds of the
--     events pushed, Replay its readers, Stream a consumer's rule, Delivery the interleaving of
--     the steps of a push with those of a consumer, which loses events where it lags behind the
--     channel.
--   Policy: src/security.rs (`classify_tool`) and src/tools/mod.rs (`policy`, the session's
--     rules), with the modes of src/commands.rs. Modes is about configured refusals, ReadOnly about
--     what a read-only mode lets through.
--   Limits: src/config/limits.rs, the records with their defaults and `normalize`.
--   Provider: src/provider/mod.rs, `retry_delay` and `is_context_overflow`.
--   Conversation: src/session.rs (`trim_conversation_bounded`, `trim_conversation_to_budget`,
--     `estimate_used_tokens`) and src/agent.rs (`replay_safe_items`). Early is about outputs that
--     stand before their calls.
--   Collector: src/agent.rs, `StreamCollector`. Texts are its two bounded buffers, Limits its map
--     of open calls, Invariant and Accounting its bounds through every event, Finish the end of a stream.
--   Session: src/session.rs, `SessionRuntime` and `handle_event`, with the display types of
--     src/model.rs and `AgentEvent` of src/agent/events.rs. Children is the progress of a child
--     session, Model holds the data, Entries the list of display entries, Thinking the live
--     reasoning, Updates the changes to an entry and Events the handler; Bounds and Settled are what
--     is proved of it.
--   App: src/app/runtime.rs, `activate_session` and `evict_background_overflow`, over the sessions
--     that run in the background. Capacity is the eviction, Keeping what it leaves in place,
--     Switching the change of session.
--   OpenAi: src/provider/openai.rs, `SseDecoder`. Sse holds its code, Boundary where a frame ends,
--     Frames a stream as frames and a rest, Decoder the loop of `try_push`, Push what one
--     chunk gives, Chunks several of them, RoundTrip a sender and the decoder together. Events is
--     `parse_chat_event`, Responses `parse_responses_event_for_mode` for an event of JSON;
--     sums of tokens wrap at 64 bits, as in a release build. Reasoning, Noted, Replays and SearchLimits
--     are about what it tells of reasoning and of searches.
--   Engine: src/service/engine.rs and src/app.rs, an agent's event on its way to its session and to
--     the bridge (Routing), and the approvals with their answers, deadlines, cancellation and
--     shutdown (Approvals). Store is about the maps of runtimes and records, Replies and Resolve
--     about an answer, Expiry, Stale and Sweeps about the sweep, Asking about a request from its beginning,
--     Cancel about a cancellation and Shell about a `!` command.
--   Input: src/input.rs, `InputBuffer`. Moves holds the moves between lines, the selection and the
--     history, Cursor is about positions in a text, Editing about one key, Keys about a sequence of
--     keys, Vertical about `move_down` and Overlong about `set`.
--   Web: src/tools/web.rs, `validate_target` and the tests on addresses. Blocks is about the IPv4
--     addresses that are not public, Targets about where a URL leads.
--   Config: src/config/provider.rs, src/config.rs and the types of src/model_meta.rs. Types are the
--     enumerations, Profile a connection profile, Registry the built-in models and Families which
--     rule of it a model gets, Settings the configuration and its saved profiles, Profiles what
--     is proved of their list, Thinking about `normalize_thinking`, Load is `Config::load` from
--     the parsed file on, with its bounds in Bounds and its outcomes in Loaded.
--   Value: JSON values, as the program reads and builds them.
--   ModelMeta: src/model_meta.rs, the two sources of limits of models, their tables and the
--     resolution of a profile. Limits is about a number that is read, Slugs and Community about
--     the community database, Resolved about a provider's list and the resolution.
--   Samples: data for the tests, which stand in a module Tests of each component.
--
-- Conventions. A function keeps the name that it has in the source; a method takes its object
-- first and returns the new one. `usize` and `u64` are numbers with their saturation or
-- wrap-around written out, for a 64-bit target in release mode. A text is a native string and its
-- length the bytes of its UTF-8. Every loop is a recursion on the list that it walks or cuts, so
-- no fuel is needed, but for three: `decimal` prints a number with more fuel than the number itself,
-- `evict_rounds` has a round for each runtime in the background, each of which takes one out, and
-- the loop of `try_push` has a round for each byte, each of which consumes a delimiter.
--
-- Parameters. A JSON value that is only passed on is a type `V` with the operations of `Json V`,
-- one that is read a `Value` over a type of numbers; `serde_json::from_str` is the parameter
-- `parse` of the reading of a responses stream. `f32` and `f64` are types with the operations of
-- `F32` and `F64`; what a `Uuid` is made of is a function of a number; and a session's handler has
-- the record `Services` of what it asks of other crates and of parts that are not modelled. Of a
-- tokio channel only what was put into it is kept, and how much the bridge's channel holds; locks make a section one step, as they do
-- in the code.
--
-- Not modelled: storage (SQLite), the network and what is sent to it, the file system, processes,
-- the asynchronous loops of the agent, the service and the application, and what they ask of the
-- parts above. `String::from_utf8_lossy` is a parameter of the decoder, and what `resolve` gives
-- for the active provider is data of the engine.
pub mod Base
pub mod Protocol
pub mod Bridge
pub mod Policy
pub mod Limits
pub mod Provider
pub mod Conversation
pub mod Collector
pub mod Session
pub mod App
pub mod OpenAi
pub mod Engine
pub mod Input
pub mod Web
pub mod Config
pub mod Value
pub mod ModelMeta
pub mod Samples
