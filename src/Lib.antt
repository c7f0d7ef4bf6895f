-- ===== src/Lib.antt =====
-- compkg: a verification library for the Go packages of this repository.
--
-- The models are shallow embeddings of the source. A struct is a record, a Go map that is only
-- loaded, stored to and deleted from is a function (Common/Dict), an error is a value, and a method
-- that mutates its receiver returns the new record. A goroutine's call that holds a mutex is one
-- step; where goroutines interleave, the order of their steps is an argument. Go's int, int64 and
-- time.Duration are integers of Common/Int where the code compares them with 0, and native numbers
-- where they count; the one increment of an int64 that a file name can bring near its end wraps.
-- float64 is the parameter Common/Float, of which no law is assumed unless a theorem says so.
--
-- Which file models which part:
--   Common                 Boolean tests, lists, integers, the float parameter, maps, text as bytes.
--   Metrics/Snapshot       pkg/metrics/snapshot.go: what the registry hands to the alert engine.
--   Metrics/Instruments    pkg/metrics/counter.go, pkg/metrics/gauge.go and pkg/metrics/rate.go.
--   Metrics/Histogram      pkg/metrics/histogram.go.
--   Metrics/Registry       GetOrCreate and collectAndNotify of pkg/metrics/registry.go.
--   Alert/Rule             pkg/alert/rule.go, pkg/alert/types.go.
--   Alert/State            the Engine of pkg/alert/engine.go and what it delivers.
--   Alert/Check            checkImmediate, checkThreshold, checkRate, checkSurge, checkConsecutive
--                          and checkRule of pkg/alert/engine.go.
--   Alert/Engine           handleTriggered, savePrevValues and Evaluate of pkg/alert/engine.go.
--   Alert/Cooldown, Alert/Consecutive
--                          runs of the engine: a run is a list of calls of Evaluate, each with its
--                          time and its snapshots.
--   Scheduler/Config       pkg/scheduler/config.go.
--   Scheduler/Buffer       the queue of pkg/scheduler/submit_buffer.go (push, drain, putBack, Len).
--   Scheduler/Disk, Scheduler/Spool, Scheduler/Spool/Reload
--                          pkg/scheduler/submit_spool.go: push, drain, ack, reloadLocked and
--                          newSubmitSpool over the operating system's operations.
--   Scheduler/Spool/Queue, Scheduler/Spool/Runs
--                          the disk queue as a queue of tasks: what its files stand for, and runs.
--   Scheduler/Submit       SubmitTask of pkg/scheduler/submit.go; EnqueueTask, flushBufferOnce,
--                          flushSpoolOnce and runBufferRetryLoop of pkg/scheduler/submit_buffer.go.
--   Scheduler/Submit/Sent, Scheduler/Submit/Arrived, Scheduler/Submit/Untouched
--                          the parts of a round of flushBufferOnce: the batch that is sent, the tasks
--                          that arrive, and the disk queue that leaves the memory queue alone.
--   Scheduler/Submit/Departures, Scheduler/Submit/Kept, Scheduler/Submit/Loop
--                          runs of runBufferRetryLoop among calls of EnqueueTask: the tasks that
--                          leave the queue, a part of a run, and the whole.
--   Scheduler/Jobs         EnsureJob of pkg/scheduler/submit.go, with pkg/scheduler/errors.go.
--   Scheduler/Lifecycle    pkg/scheduler/client.go: New, RegisterHandler, Start and Stop.
--   Scheduler/Reconnect    the waits of runStreamLoop and runHeartbeat of pkg/scheduler/stream.go.
--   Scheduler/Executor     pkg/scheduler/executor.go, and onCancel, currentInflight and the end of a
--                          session of pkg/scheduler/stream.go, as events in any order.
--   Scheduler/Session      runOneSession, runRecvLoop and runHeartbeat of pkg/scheduler/stream.go: the
--                          registration, and the goroutines of a session as turns in any order.
--   Scheduler/Session/Blocked, Scheduler/Session/Counts, Scheduler/Session/Answers
--                          a session that cannot go on, and the answers to dispatches in a turn and
--                          in a session.
--   ReleaseCheck           cmd/release_check/report.go: the verdict on the instances of a service.
--   Health                 pkg/health/health.go: the heartbeats of a reporter and what a reader reports.
--   Health/Beats, Health/Runs, Health/Counts
--                          one call of a reporter, runs of several, and the reader's lists and numbers.
--   RedisLock              pkg/redis_lock/redis_lock.go: the scripts, Lock, UnLock and TryLock.
--   RedisLock/Scripts, RedisLock/Leases, RedisLock/Exclusion
--                          the laws of one key of Redis, the locks that callers count as their own,
--                          and runs of their calls.
--   Logger/Sampler         pkg/logger/sampler.go.
--   Logger/Sanitize        pkg/logger/sanitize.go, with text as its bytes.
--   Traffic                pkg/traffic/tracker.go and the guards of pkg/traffic/traffic.go: the counters
--                          and the flush, an atomic operation to a step.
--   Traffic/Cells, Traffic/Fields, Traffic/Conserved
--                          one counter, its field in Redis, and runs.
--   Traffic/Dump           pkg/traffic/dao.go and the fields of pkg/traffic/store.go.
--   Traffic/Dump/Kept, Traffic/Dump/Rounded
--                          that a dump loses no count, and what its records hold.
--   Timer                  pkg/timer/timer.go: AddTimer, DelToTimer, a tick and its iteration.
--   Timer/Due              which timers a tick starts, and which it does not look at.
--   Stringsx               InStringArray of pkg/stringsx/stringsx.go, with sort.Strings by insertion.
--   Dispatch               pkg/dispatch/router.go: LookupDeviceNode and what it calls.
--   Attributes             pkg/trace/attributes.go: SetAttributes and its policy.
--   Encrypt                pkg/encrypt/aes.go: the paddings, and the ECB and CBC modes.
--   Encrypt/Padding, Encrypt/Blocks, Encrypt/Trips
--                          the paddings, the block loop and the whole, there and back.
--   Encrypt/Values         AesGcm, and the functions on one value of pkg/encrypt/config.go.
--   Encrypt/Settings       the settings of a configuration, and DecryptMap of pkg/encrypt/config.go.
--   Loader                 pkg/config/loader.go: the environment, the keys and normalize.
--   Loader/Normalize       what normalize returns.
--   Loader/Changes, Loader/Changes/Served
--                          Bootstrap and onRemoteChange, whose calls overlap, and what is served.
--   Loader/Listeners, Loader/Listeners/Fired
--                          fireDiff, and which listeners it calls.
--   Loader/Feature         Feature, with its types of pkg/config/options.go.
--   WorkerPool             pkg/worker_pool/worker_pool.go: the goroutines of WorkerPool, step by step.
--   WorkerPool/Conserved, WorkerPool/Progress
--                          that no job is lost, and when a goroutine of the pool can go on.
--   TcpContext             pkg/trace/tcp_context.go: Save, Load, Close and the sweeper.
--   TcpContext/Sweeps      that the sweeper changes no answer.
--   Tests                  runs on concrete inputs.
--
-- How the parts interact: the metrics snapshots are the input of the alert engine. EnqueueTask
-- submits, and on an error that may pass puts the task in the queue in memory, or in the one on disk
-- when that is full; the retry loop drains the one and then the other. The executor's events are
-- those of one session: the receive loop, the handlers' goroutines, the sender, the heartbeat, the
-- session's end. A session runs the receive loop over the messages of the stream, on the executor.
-- The loader decrypts the settings that it serves by DecryptMap of pkg/encrypt.
-- The verdict on a release reads the instances that the heartbeats of pkg/health leave.
--
-- One loop needs fuel, that of TryLock, whose rounds are bounded by WaitTimeout and WaitRetry; each
-- of the others runs over a list, of rules, of tasks, of files, of directory entries or of events.
-- The file system, JSON, the host and the clock are arguments (Scheduler/Disk), and so are the
-- server with the network (Scheduler/Submit), the stream of gRPC (Scheduler/Session), Redis with
-- its client library (RedisLock, Traffic and Dispatch), the ciphers and base64 (Encrypt), viper
-- (Loader) and package regexp (Logger/Sanitize); a sort is by insertion. What fmt.Sprintf makes of
-- an alert's values is kept as its arguments. A dispatch, its acknowledgement and the start of its
-- handler are one step, unless the acknowledgement waits for room: the slot of the dispatch is
-- taken before.
--
-- Not modelled: tickers and the goroutines that only wait for them, handlers that still run from an
-- earlier session, the wrapped connection of pkg/traffic, the callbacks of pkg/timer, the
-- instructions of pkg/dispatch, the pool of functions of pkg/worker_pool, the reflection of
-- DecryptStruct in pkg/encrypt, the typed reads of pkg/config, the package-level wrappers of
-- pkg/metrics, the generated code under proto, the drivers of databases, caches, object stores and
-- brokers, the output of logs and tracing, which hand their calls on to libraries.
pub mod Common
pub mod Metrics
pub mod Alert
pub mod ReleaseCheck
pub mod Scheduler
pub mod RedisLock
pub mod Traffic
pub mod WorkerPool
pub mod TcpContext
pub mod Timer
pub mod Stringsx
pub mod Dispatch
pub mod Attributes
pub mod Encrypt
pub mod Health
pub mod Loader
pub mod Logger
pub mod Tests
