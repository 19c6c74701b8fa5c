-- ===== src/Lib.antt =====
-- incuse: ephemeral GitHub Actions runners on Incus. One process owns one Runner Scale Set for
-- each configured class of CPU, memory, disk and architecture. For each it runs an orchestrator
-- that mints just-in-time runners, launches an instance for each, follows their jobs and tears
-- them down; a reaper removes what is left over.
--
-- Files and the code that they model (paths from the repository's root):
-- - Base and its children: lists, maps, Go's integers, strings and results, and the lemmas on
--   them that the other files share.
-- - Config (internal/config/config.go, internal/config/labels.go,
--   internal/config/preflight.go): the schema; Config/Defaults `applyDefaults`, Config/Patterns
--   the two regular expressions as recognisers, with Config/Patterns/Regex for what a regular
--   expression matches, Config/Validate `Validate` as a list of conditions with what each
--   reports, Config/Specs `ScaleSetSpecs`, Config/Labels the names, shapes and labels of the
--   classes, Config/Preflight `Preflight`, Config/Load `Load` and `Parse` over the YAML
--   decoder. Config/Validity says what a valid configuration is; its children and the Laws
--   relate the code to that.
-- - Scaleset (internal/scaleset/scaleset.go): `New`, `labelNamesMatch` over a sorted list,
--   `reconcileScaleSet` as the choice of a call and the call, `openSessionWithRetry` as a loop
--   on a number of rounds, of which 20 are enough since the code gives up at the 20th attempt.
--   Scaleset/Bootstrap has `Bootstrap` with the calls of GitHub's client in order and what the
--   scale set keeps of each, Scaleset/Bootstrap/Endings how it may end, Scaleset/Methods the
--   other methods with their guards.
-- - Incus (internal/incus/types.go), Incus/Client (internal/incus/client.go): the records that
--   the orchestrator hands to its client, and `Launch`, `Stop`, `Delete` and `Get` over what
--   Incus answers. Incus/Connect has `Connect` with `dial`, `List` and `Close`.
-- - Startup (cmd/incuse/main.go): `readAuthCreds`, and what `run` hands to `scaleset.New` and
--   `orchestrator.New` for each class. Startup/Run has `run` as a function of what the outside
--   answers, the `World`, to the list of its events and the error that it returns; deferred
--   calls come where Go runs them. Startup/Connection has what `run` hands to `incus.Connect`,
--   and Startup/Main has `main` with its flags and exit codes.
-- - Observability/Recorder, Observability/Server (internal/observability/recorder.go and
--   server.go): a call of a method as the list of its writes to the collectors, and the life of
--   the health server as a list of its calls. What Prometheus does with a write is the record
--   `Vectors` of operations with laws, and what net/http answers is a parameter.
-- - Runner/CloudInit (internal/runner/cloudinit.go): `Validate` and `Render`.
--   Runner/CloudInit/Template has the two templates line by line, Runner/CloudInit/Execute what
--   their execution writes, Runner/CloudInit/Lines how a payload is read line by line, and
--   Runner/CloudInit/Payload what a machine finds in it.
-- - Runner, Runner/Resolver (internal/runner/resolver.go): `Resolve` as one function of the
--   cache, since it runs under the lock, over the answer of GitHub.
-- - Tracker (internal/orchestrator/tracker.go): `instanceTracker` as a map from names to
--   records; a method is one function of the map, since it runs under the lock.
--   Tracker/Refinement has the abstract registry, a function from names to runners, and
--   Tracker/States the order of the states.
-- - Orchestrator/Names, Time, Launch (internal/orchestrator/orchestrator.go and launch.go):
--   `makeRunnerName`, `sanitizeNamePart`, `buildLaunchRequest`; Orchestrator/Names/Suffix has
--   `randomNameSuffix` over what the source of random bytes gives. Orchestrator/Setup: `New`.
-- - Orchestrator/Program, Spawn, Terminate, Handlers, Reaper
--   (internal/orchestrator/orchestrator.go and reaper.go): every goroutine as a tree of atomic
--   actions. An action is a call of a client, of the clock or of the tracker, an operation of a
--   limiter, or a block under spawnMu or taskMu. The routines compose as in the code:
--   `handle_desired_runner_count` starts tasks, a task runs `spawn_idle_runner`, which runs
--   `launch`; `reap_once` runs `reap_tracked` and `drift_sweep`, which share `parallel_reap`
--   and `terminate_instance`.
-- - Orchestrator/System: the shared state (`Shared`: tracker, spawnInflight, the permits of the
--   two limiters, the task group, shuttingDown) and the step relation. Any goroutine may act
--   next; the listener may call at any time; GitHub and Incus answer anything, an error
--   included; a context other than the orchestrator's own may end at any time; other classes
--   may take free permits of the shared limiters. Its children hold the invariant, which says
--   what each goroutine holds and when it may wait, and what follows from it: System/Safety has
--   the bound on the runners and the books, System/Spawns the goroutines that are at work for a
--   spawn, against the limiters and at the shutdown, System/Progress and System/Drain the end
--   of the goroutines, and System/Lifecycle what becomes of a tracked runner.
-- - Orchestrator/Spawn/Cleanup, Spawn/Payload, Reaper/Drift, Reaper/Overdue, Names/Laws,
--   Names/Bounds and Names/Whole: theorems about single routines, whatever their calls answer.
--
-- Integers. Go's `int`, `int64` and durations are unbounded integers over the native numbers,
-- but for the product in `runner_spec`, which wraps at 64 bits. A list that Go indexes by a
-- loop is walked by structural recursion, so no fuel is needed but for decimal digits (a number
-- plus one rounds, each of which takes off a digit) and for the retry loop.
--
-- Left out: log lines; the order of Go's maps; the wall clock (a clock answers any time); the
-- text of errors of libraries. GitHub's client, Incus, the YAML decoder, Prometheus and
-- net/http are libraries: what they answer is left open. The text of error messages is left
-- out: an error is a constructor with the values that its message prints. url.Parse, os.Stat
-- and os.ReadFile are parameters, since what they answer depends on a file, or is not what the
-- code decides. Strings are lists of code points; a string that is not UTF-8 is outside the
-- model, and so is the case of letters other than ASCII. Not modelled: the parsing of flags,
-- signals, and the scrape endpoint of the metrics server (internal/observability/server.go).
-- The templates of the payload are given as `template.Parse` reads them; the parser is a
-- library.
pub mod Base
pub mod Config
pub mod Incus
pub mod Observability
pub mod Orchestrator
pub mod Runner
pub mod Scaleset
pub mod Startup
pub mod Tracker
