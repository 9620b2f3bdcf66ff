-- ===== src/Lib.antt =====
-- A model of the core of skeino, an Agent Protocol server for one LangGraph graph, with the theorems
-- about it.
--
-- The program. RunOps (src/skeino/ops/runs.py) starts each run as an asyncio task that
-- BackgroundRunRegistry (src/skeino/concurrency.py) tracks. The task claims the run's row in the
-- metadata store, invokes the graph, writes the run's final status and settles its thread. A streaming
-- run publishes events to a RunEventStream (src/skeino/streaming/run_streams.py), which numbers them,
-- keeps a bounded history and hands them to subscribers through bounded queues; RunStreamRegistry
-- retains finished streams for later joins. Every process heartbeats its runs, and an orphan sweep fails
-- the runs whose heartbeat stopped.
--
-- Files and sources:
--   Base: shared names, lists, dicts in insertion order, Python's stable sort
--   Json, Text: JSON values and text as code points
--   Schemas: src/skeino/schemas/common.py, threads.py and the rows of src/skeino/persistence/base.py
--   Errors: the HTTPExceptions of the operations
--   Store: src/skeino/persistence/in_memory_store.py (InMemoryMetadataStore) and _common.py; children
--     Rows, Table, Final, Sweep, Search, Listing, Threads prove what the operations do
--   Tables: a database as tables of rows, shared by the stores on an engine. Keyed is a table under its
--     primary key, Commands the methods of the protocol as commands with the interface that a store
--     fills, Lookups, Refinement and Listing relate such a store to the in-memory one
--   Sqlite: src/skeino/persistence/sqlite_store.py (SqliteMetadataStore); children Claims, Orders and
--     Heartbeats for the sweep, Answers and Simulation for one method, Refinement and Listing for the whole
--   Postgres: src/skeino/persistence/metadata_store.py (MetadataStore); children Answers, Simulation,
--     Refinement, Listing
--   Sse: src/skeino/streaming/sse.py (sse_event); children Lines, Retries
--   Stream: src/skeino/streaming/run_streams.py, RunEventStream. `next` is one resumption of the
--     iterator of `_drain`; `evict`, `deliver`, `fan_out` and `release_all` are the loops of `publish`
--     and `close`. Children: Log, History, FanOut, Delivery, Next, Tracking, Closing
--   StreamRegistry: the same file, RunStreamRegistry; children Accounting, Calls, Traffic, Retention
--   Concurrency: src/skeino/concurrency.py, BackgroundRunRegistry; children Holding, Lifetime, Activity
--   RunEvents: the events of a streaming run. RunOps: src/skeino/ops/runs.py. Writes are the status
--     writes, Execution is `_run_to_completion`, Publishing `_publish_run` with `finalize_run`,
--     Admission `_admit_and_spawn` with `_resolve_multitask` and `cancel_run`; Requests the checks,
--     reads and deletion of runs, Join the decision of `join_run_stream`, Sweeps the heartbeat, the
--     orphan sweep and the settle retry, Stuck `_release_stuck_threads` and the passes. The others
--     prove what these do: Views and Frame what stays unchanged; Claim, Settling, Calm (with Outcomes,
--     Quiet, CalmWrites and CalmRuns), Answers, Ownership; Chunks, Attempts, Bodies, Terminal,
--     Producing (streaming); Admitting, Cancelling, Collecting (with Pages). Finals, Waiting and FinalEvents are the output that
--     `wait_run`, `join_run` and a join without history give; Reading and Ending prove where it comes
--     from and how it ends
--   Outputs: src/skeino/streaming/runner.py (the output filter) and the output of a state snapshot;
--     children Keys, Allowed
--   ThreadOps: src/skeino/ops/threads.py, the operations that write a thread's row; child Deletion
--   Graphs: src/skeino/registry.py
--   Examples: concrete inputs for the theorems
--
-- Conventions. Ids are UUIDs that the API has parsed, and are numbers here; times and durations are
-- numbers of ticks of one clock, and each reading of a clock is an argument. A dict is an association
-- list in insertion order. The store replaces a row by a changed copy where the source assigns fields of
-- the stored dict in place; where a caller reads a stored dict again after an await, in
-- `_final_state_events`, what it holds by then is a parameter. A stream and a task are shared
-- objects, so they stand on a heap under references, which `is` compares. An operation with awaits is a
-- function of a world that holds, for each await, the time, what others do to the store meanwhile, and
-- whether the call succeeds, fails before its effect, or fails or is cancelled after it; so a theorem for
-- every world covers every interleaving with other tasks and processes, and every fault.
--
-- Bounds. A queue holds 256 items, as in the source. `decimal_fuel` gets one unit more than the number it
-- prints, which has fewer digits than that. The page loop of `_release_stuck_threads` has fuel for
-- one page of 100 threads in each round, and is proved to end when the store holds fewer threads. Every
-- other loop is structural.
--
-- A statement of SQL is the function that its engine documents; the order that the engine leaves open is a
-- parameter. So is what a JSONB column of Postgres gives back for a dict, whose order of keys and spelling
-- of numbers it does not keep.
--
-- Not modelled: the Mongo store; the connections of the SQL stores and the creation of their tables; the
-- graph and its checkpointer, which belong to LangGraph and enter as parameters, and the Streamer's
-- iteration over the graph's stream; the HTTP layer, the configuration and the tracing; asyncio's locks
-- beyond who holds one.
pub mod Base
pub mod Json
pub mod Schemas
pub mod Errors
pub mod Store
pub mod Sqlite
pub mod Postgres
pub mod Outputs
pub mod Tables
pub mod Text
pub mod Sse
pub mod Stream
pub mod StreamRegistry
pub mod Concurrency
pub mod RunEvents
pub mod RunOps
pub mod Examples
pub mod Graphs
pub mod ThreadOps
