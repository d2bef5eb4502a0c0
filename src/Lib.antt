-- ===== src/Lib.antt =====
-- The agent backend "knowlega" compiles raw sources into a wiki with the help of language models, and
-- serves agents over it. This library models the parts of it that decide: queues, schedulers, budgets
-- and repairs. Files are named from the repository's root.
--
--   Runtime    internal/qm/data/runtime_tasks.go, with the index of migration
--              000029_runtime_task_serial_key.sql: the durable queue of tasks in PostgreSQL. A row is
--              `RuntimeTask`, the table a list; each method of RuntimeTaskRepository is a function with
--              the method's name in small letters; `Runtime.Steps.Call` is a call of one of them.
--   Worker     internal/qm/worker/pool.go: NewPool, runWorker (`worker_rounds`) and process. It calls
--              Claim, Heartbeat and the methods that end a task, whose answers are its inputs here.
--   Retry      internal/agent/knowlega/llmretry/llmretry.go: DoValue and its delays, an int64 as its
--              64 bits.
--   Prompt     internal/agent/knowlega/promptbudget/promptbudget.go: TrimMiddle, TrimEnd and
--              BudgetChatInput over lists of runes.
--   Ingest     internal/agent/knowlega/service/ingest_queue.go: the queue file as a `World`, with which
--              of the coming saves fail; QueueIngestSource, RunIngestQueue,
--              RecoverProcessingIngestTasks and RemoveQueuedSource.
--   Scheduler  internal/agent/knowlega/compiler/scheduler.go, validateLLMWikiSourcesConcurrent: the
--              state `Sched` holds its variables; `start_run` is everything before the main loop,
--              `dispatch` the closure of that name, `on_result` and `on_impact` the cases of the
--              select, `Step` one round of the loop. The tasks of the workers are the list `active`;
--              any of them may answer next, and anything.
--   Policy     internal/agent/knowlega/compiler/generation_policy.go: the budgets of a generation.
--   PageGate   internal/agent/knowlega/compiler/page_gate.go, applyNewPageGate.
--   Tape       internal/qm/agent/tape_fold.go: FoldTape, LintTapeFold and the repair of dangling calls,
--              over messages as encoding/json reads them.
--   Acl        internal/qm/data/acl.go: the grants of resources and of administrators.
--   Cron       internal/qm/data/crons.go: the rows of the table with their JSON documents, one function
--              per method of CronRepository; `Cron.Projection.Call` is a call of one that changes the
--              table, Create excepted, which no handler calls.
--   Secrets    internal/qm/data/secret_drop.go: Mint, Peek, Redeem and CreateCredential over `Db`.
--              Redeem is also there as its two statements, between which another call may come.
--   Manifest   internal/agent/knowlega/manifest/manifest.go: the manifest in memory, its migration, the
--              owners of pages and the versions of sources.
--   Scan       internal/agent/knowlega/service/ingest_queue.go, ScanRawSources and ignoreRawSource: what
--              the directory and the archives give is a list of `Found`; what is new goes to the queue
--              of Ingest by `queue_ingest_source`.
--   Scope      internal/agent/knowlega/scope/resolver.go: the resolver over a `BindingStore`, an
--              interface as in the source; `IsLawful` is what it relies on.
--   Runs       internal/qm/data/runs.go, with the index of migration 000002_runner.sql: the queue of agent
--              runs, their leases, signals and activity. `Runs.Inv.RunCall` is a call of a method that
--              changes a run, SetDeliveryState excepted; the Go runtime starts runs of its own in the
--              same table, which a runner must not claim.
--   Base       the shared names: Boolean tests, lists over native numbers, texts, Go's
--              int, and its maps with text keys as lists of pairs.
--
-- Each part but Base has a child `Tests` with runs on concrete inputs.
--
-- Loops are recursions on the list that they walk. The only fuel is that of `drain_conflicts`, the
-- second loop of dispatch: each of its rounds takes one retry from the conflict queue, so as many rounds
-- as the queue is long are enough. Times are natural numbers; numbers that the code treats alike when
-- they are not positive are 0. What the clock, the file system, PostgreSQL, SHA-256 and the model
-- providers answer are arguments. A statement of PostgreSQL takes effect as a whole, and a row lock or
-- a stale snapshot of a claim are arguments of it.
--
-- Not modelled: HTTP handlers, authentication, configuration, the engine that runs the turns of an
-- agent, the model clients, the rendering and search of the wiki, the code graph and the user
-- interfaces, which are input and output or wiring; the tables of events, of sessions and of
-- deliveries; the filter of the impact reviewer and the parsing of generated files; the downgrade of
-- links after the page gate; the reading and writing of JSON, and the connection to PostgreSQL with its
-- errors.
pub mod Base
pub mod Runtime
pub mod Worker
pub mod Retry
pub mod Prompt
pub mod Ingest
pub mod Scheduler
pub mod Policy
pub mod PageGate
pub mod Tape
pub mod Acl
pub mod Cron
pub mod Secrets
pub mod Manifest
pub mod Scan
pub mod Scope
pub mod Runs
