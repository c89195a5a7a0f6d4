-- ===== src/Lib.antt =====
-- The coordination core of sai3-bench, a storage benchmark that a controller runs on many agents.
--
-- The controller sends each agent its stages and keeps an `AgentTracker` of it. Agents report
-- progress; at the end of a stage each waits at a barrier, which the controller's `BarrierManager`
-- opens. What an agent does in a stage is I/O on files that the directory tree numbers; errors are
-- counted against budgets; what exists is recorded in a metadata cache; operations go to an op-log
-- of which a process has one.
--
-- Prelude         numbers, lists, maps and sets as association lists, text.
-- Controller      Barrier and its children: `BarrierManager` in src/bin/controller.rs with the
--                 configuration of src/config.rs, and the loop that reacts to messages at a barrier.
--                 Liveness: `check_liveness`, `query_agent_with_retry` and `wait_for_barrier`, with
--                 who is given up (Answers, GivenUp) and how a wait ends (Wait).
--                 AgentTracker: `ControllerAgentState` and `AgentTracker` of the same file.
-- Agent           src/bin/agent.rs: `WorkloadState`, `can_transition` and `transition_to`, the states
--                 and the ends of `execute_stages_workflow` (Workflow), the reactions to an abort and to a lost stream.
-- DirectoryTree   src/directory_tree.rs: the tree, and its child Manifest the `TreeManifest`.
-- Stages          src/config.rs: stages, their checks and their order; src/config_converter.rs:
--                 `generate_stages`.
-- Errors          src/prepare/error_tracking.rs (Prepare, Listing); src/workload.rs:
--                 `retry_with_backoff` (Retry), `execute_with_error_handling` (Budget).
-- MetadataCache   src/metadata_cache.rs: `ObjectState` and `EndpointCache`. The database and the
--                 serialisation are other packages: `Keyspace` and `Codec` say what is relied on,
--                 and `Faults` which calls of them fail.
-- OplogSession    src/oplog_session.rs: the session, over a parameter for the comparison key of a
--                 path; PathKey: how `key_of` folds the components of an absolute path.
-- OplogMerge      src/oplog_merge.rs: the k-way merge of the workers' op-logs (Heap, Pending, Merging,
--                 Complete, Merged), the sort through a window (Window, Sorting), the check of the
--                 order (InOrder) and the rows (Columns).
-- LiveStats       src/live_stats.rs: the counters behind progress reports (History), and the older
--                 fields of the prepare phase (Legacy).
-- Metrics         src/metrics.rs: the size buckets; src/workload.rs: `SizeBins`, `WorkerStats` and the
--                 join of the workers (Bins, Counting, Totals); `merge_summaries` of
--                 src/multiprocess.rs and of src/multiruntime.rs (Runtimes); the bins as messages.
-- PerfLog         src/perf_log.rs: the numbers per interval of an agent, and what they miss (Losses).
-- Values          src/serde_helpers.rs: durations and numbers with separators (Durations);
--                 src/size_generator.rs: the sizes of objects (Sizes).
-- Routing         src/metadata_cache.rs and src/workload.rs: the endpoint that a path belongs to
--                 (Paths), and whether endpoints are one storage (Storage).
-- Prepare         src/prepare and src/cleanup.rs: the names of objects (Names), what exists (Listing),
--                 what each agent creates (Plan, Shares, ShareSizes, Again, Announced), and what is
--                 deleted (Cleanup, Owners, Deletions).
-- Remap           src/remap.rs: URIs and rules (Uri), and the targets of fanout rules (Selection).
-- Replay          src/replay_streaming.rs: the limit on changes of mode (Flaps), the loop of a replay
--                 (Stream, Polls, Rows, Accounts, NoLimit) and the URIs of its operations (Uris).
--
-- An operation is a function from the state before to the state after, and where it can fail to an
-- `Option` or a result type. The clock is an argument. An unsigned subtraction that the source does
-- not guard is checked: `none` is its overflow. Counters of errors and of pending writes wrap at
-- their width, as they do in a release build. A hash map is an association list whose order means
-- nothing. `BinaryHeap` and `binary_search` are interfaces that do not say which of several equal
-- entries is taken. Fuel is used in four places: the loops of a replay that wait for tasks, where
-- one more than its rows is given and a step ends a task; the wait at a barrier, where a round
-- sleeps for a tenth of a second and one round more than the timeout has tenths is given; the
-- decimal digits of n, where n + 1 steps are given and one digit is written per step, and the merge
-- loop, where one more than the lines of all files is given and a step writes a line. The recursion
-- of `create_node` is on the depth.
--
-- Not modelled: gRPC and the generated messages, object-store I/O, SSH, the command line, floating
-- point (rates, delays, jitter), the work of a stage, checkpoints of the cache, the YAML text of a
-- conversion.
mod Prelude
pub mod Controller
pub mod Agent
pub mod DirectoryTree
pub mod Errors
pub mod MetadataCache
pub mod Stages
pub mod OplogSession
pub mod OplogMerge
pub mod Prepare
pub mod Remap
pub mod Replay
pub mod LiveStats
pub mod Metrics
pub mod PerfLog
pub mod Values
pub mod Routing
