-- ===== src/Lib.antt =====
-- A model of the message pipeline of the cockatiel engine, and its theorems.
--
-- The engine takes chat messages from adapters, writes each to a timeline database that serves as its
-- queue, and drives it through three stages of modules (pre-process: all at once; in-process: one after
-- another; post-process: all at once), each stage over sockets, with acks, receipts, timeouts and
-- resends. An operator may pause it, a missing database blocks it, a moderator may hold a message for
-- audit. Paths below are from the repository's root.
--
-- - Shared, and the modules below it: library names, tests on numbers, lists and their order, hash maps as association
--   lists, sorted maps, integers, JSON values. An unordered walk of a hash map or set is a walk of the list.
-- - Wire: the protobuf messages, which are generated, with the fields that the code writes and reads.
-- - Timeline, Timeline/Outcome: the table `timeline_events` of src/database.rs and the statements of the
--   pipeline (`insert_event`, `set_user_uuid`, `load_queued_message`, `write_terminal_outcome` and so on) as
--   functions on it. A row's key is the text of its uuid7; the code converts that to bytes.
-- - Commands, Commands/Catalog, Commands/Routes: `CommandRegistry` of src/command_registry.rs; `command_recipients`,
--   `should_shadow` and the post-process filter of src/pipeline.rs (Commands/Subscribed: the two together). Commands/Parse is `parse_command`, Commands/Help
--   src/help.rs, Commands/Nearest `edit_distance` and `closest_command` of src/main.rs. Shared/Text has what
--   these use of `str`.
-- - Chat: `classify_command`, `handle_command_on_ingest`, `engine_reply_to_platform` and `should_fetch_user_data` of
--   src/main.rs, what the engine does with a chat message before the pipeline.
-- - Stream: `StreamTracker` of src/stream_rewards.rs, without the multipliers, which are `f32`.
-- - Pipeline/Ack, Pause, Bans, Gate, Timing: `AckTracker`, `PauseState`, the block caches, `permit_module`
--   and `ModuleTimings` of src/pipeline.rs, each as pure functions with the clock as an argument.
-- - Pipeline/State: `PipelineOrchestrator` as the record `Engine`; the methods are functions from an engine
--   to a result and an engine. What is not the engine is the record `World`: the clocks, whether the
--   database runs a statement, each module's channel as a send finds it, the answers of the user database,
--   fresh identifiers. Its answers are numbered by the field `calls`, so that every sequence of answers
--   is covered. A statement of the database that fails is the error `db_failed`.
-- - Pipeline/Terminal: `mark_complete`, `mark_failed`, `mark_dropped`, `preserve_audit_hold`.
-- - Pipeline/Dispatch: `send_to_module`, `broadcast_pre_process`, `start_in_process`, `start_post_process`.
-- - Pipeline/Advance: `handle_ack` and the step from one stage to the next.
-- - Pipeline/Ingest: `insert_and_start`, `recover_one`, `drain_queued_once`.
-- - Pipeline/Replies: `handle_message_from_module`.
-- - Pipeline/Sweep: `handle_timeout`, `resend_stage`, `resume`, `replay_hold`.
-- - Pipeline/Progress (no message gets stuck), Pipeline/Frame (a step for one message leaves the others alone)
--   and the modules called Laws, Cases, Holds and the like: lemmas and theorems.
-- - Queries: `classify_query` and `caller_gate` of src/queries.rs, with the names of the control surface from
--   src/main.rs. Queries/Shutdown: the shutdown that a control surface may ask for, `ShutdownSignal` and
--   `engine_shutdown` of src/queries.rs with the reader and the writer of each connection in src/main.rs as a
--   step relation, since here the order of the tasks matters. Queries/Schedule: the stream schedule with its
--   file, key by key (`serde_json` prints and parses the objects and is a parameter), and the leaderboard. Queries/Modules: what the module list tells of stages, autostart and readiness.
-- - Connection: how a module becomes a peer. Sessions is `AuthStore` of src/auth.rs, Tokens its tokens (the
--   crate `jsonwebtoken` is a parameter with laws), PinGate the counter of wrong PINs in src/main.rs, Registry
--   src/module_registry.rs, Removed src/removed_modules.rs, Placement the ordering lists of src/config.rs, Files
--   the JSON files these read and write (`serde_json` is a parameter with a law; a write replaces a file
--   whole or not at all). Hub and Handshake compose them as `handle_connection` of src/main.rs does,
--   from the first message to the routing slot, with the clean-up at the end of a socket (`disconnect`). The
--   operator's answer, the manifests, fresh identifiers, the clocks and the sockets are arguments, the record
--   `Answers`; a sender is known by the token of its socket. Probe is the task of src/main.rs that asks silent
--   modules for a sign of life.
-- - Tests: a sample engine, sample encodings, and theorems applied to them.
--
-- Fuel: `start_in_process` calls itself once for each in-process module it skips. The model counts
-- `length in_process_modules + 1` calls, which is enough since each call but the last raises the index of
-- a message whose index is below that length; `Pipeline/Progress` proves that it does not run out.
-- A handshake draws identifiers until one is unused, at most `patience` of them; the verdict `still_drawing` says
-- that none was.
--
-- Elsewhere than in Queries/Shutdown each method runs from beginning to end: the locks that the code takes
-- between its steps, and so the interleavings of two methods, are not modelled; what the tracker answers is
-- taken under one lock in the code as well. The replay of a backlog, a task of its own in the code, runs after the sweep of `resume`.
-- Not modelled: `f32` arithmetic and its printing, most log lines, the sockets and the other tasks of src/main.rs,
-- the other handlers of queries (src/queries.rs), the rest of the configuration, credentials, prompts, TLS, child
-- processes. `DonationInfo::parse` and `enrich_chat_user` are questions to the world.
pub mod Shared
pub mod Wire
pub mod Timeline
pub mod Commands
pub mod Stream
pub mod Pipeline
pub mod Queries
pub mod Connection
pub mod Chat
pub mod Tests
