-- ===== src/Lib.antt =====
-- Yard manages the Docker containers of one host: a web process takes requests, journals each
-- operation as a job in SQLite, runs it itself or in a worker container, and records its result.
-- The journal also carries the resource locks, the schedules of automatic updates, the machine
-- settings, the accounts and the metadata of managed projects.
--
-- Parts and files:
-- - Store (internal/store): Types holds the rows, Tables the statements on lists of rows, Keys the
--   resource keys of a job (jobs.go, insertJob), Schedules and Outcomes the scheduling statements
--   (schedules.go), Jobs the operations of jobs.go. Exclusion and its children are about
--   the locks against the jobs, its child Journal about the transactions of self_update.go and
--   managed.go on them; Admission, Finality, Consuming, Occurrences, Due and Fence about what the
--   operations do. Store.Machine is machine.go, Store.Accounts the operations on
--   administrators and sessions of store.go, Store.SelfUpdate is self_update.go, Store.Projects is
--   managed.go and configuration.go.
-- - ComposeOrder (internal/composeorder/order.go): the order of containers by observed labels.
-- - Lifecycle (internal/lifecycle/lifecycle.go): Lifecycle has the data, the tests and the wait for
--   dependencies, Lifecycle.Actions the methods Container and Project, Lifecycle.Lock the mutex
--   (lock.go). Acting, Protection and Counting are about their loop. It uses ComposeOrder.
-- - Ports (internal/managed/ports.go): claims on host ports and the preflight.
-- - Recreate (internal/recreate/worker.go, automatic.go): the worker that replaces containers. Steps has
--   the steps on one container and the rollback, Worker is execute, Cleanup is Reconcile and Cleanup;
--   Trace says what a run may ask, Keeping to Safety are about that; Seeing, Shown, Restored, Rollback,
--   Returning and Verified are about what Docker has shown by then.
-- - YardUpdate (internal/selfupdate/worker.go, manager.go): the worker that replaces Yard's own container.
--   Checks has the checks before it, Worker the main path and the restore of the database, Running the
--   rollback and RunWorker, Reconciling reconcileInterruptedJob; they write the store through
--   Store.SelfUpdate. Trace says what a run may ask, Guarding to Outliving are about that, Locked to
--   Freed and Interrupted about the lock on Yard.
-- - Workers (internal/jobs/workers.go, observer.go): validation, observation and acknowledgement
--   of workers. Its results are transactions of Store; the verification of an observation is an
--   argument that may write the database.
-- - Inventory (internal/inventory): Changes is changes.go, the notifier and its subscribers;
--   Logs is DecodeLogEvents of logs.go, History is ReadLogPage of log_history.go, which uses it.
-- - Prelude: numbers, tests, lists, texts and the results that the others share.
--
-- How the code is modelled:
-- - A function or method has the name of the Go function in snake case. A Go `(value, error)` is a
--   Result. A transaction is a function from a database to a Result: on an error the caller keeps the
--   old database, as after a rollback. Failures of SQLite itself (I/O, a busy database) are left out,
--   but for the worker of YardUpdate.
-- - A table is a list of rows. The primary keys and unique indexes are checked where a statement
--   relies on them. The store has one connection, so transactions run one after another; they are
--   interleaved in any order by the step relations of Store.Exclusion.Steps and
--   Store.Machine.Tokens, and the requests on the mutex by that of Lifecycle.Lock.
-- - Times are seconds on the natural numbers and `now` is an argument. Random ids and tokens,
--   SHA-256, netip.ParseAddr and what Docker answers are arguments. Docker's answers to a group
--   action may depend on all calls made before.
-- - Ranging over a Go map has no order: RetargetJob takes its keys sorted, and a lookup in a map of
--   labels gives the empty text for a missing key.
-- - A log is its frames and the error of reading on after them, and its text the bytes. The
--   demultiplexer (stdcopy), time.Parse, the codec of a
--   cursor and the size that json.Marshal gives an event are arguments, and the receiver of the events
--   is a function on a state. Cancelled contexts are left out there.
-- - The worker of Recreate is a function on the calls made so far and the journal; the answer to each
--   call is a function of that call and the calls before, so its theorems hold whatever Docker, the
--   store and the clock answer. `fail` and the returns of execute are ways to leave its main path. The
--   settings of a container are a text; the options that `creation` makes and the comparisons of
--   settings are arguments. Its wait for a container recurses on the polls that fit in its deadline.
-- - The worker of YardUpdate is a function on the calls so far, the database with its snapshot, and the
--   connection. Each statement of SQLite may fail there before it changes anything. Deadlines show as
--   errors of the calls and as the number of polls that fit in them; a panic takes the way of an error.
-- - len on a text counts bytes. Texts that are cut by position (container ids) have one byte to a
--   character.
-- - `visit` of ComposeOrder recurses on fuel, one more than the number of containers, since each call
--   below another visits a further container. The wait for
--   a dependency recurses on the number of polls that fit before the deadline of two minutes.
--
-- Not modelled: HTTP and MCP transport, JSON, the web client, the command line, calls of Docker and
-- Compose as such, the migrations of the database, the daily slots of internal/schedule, the
-- deployment and configuration of internal/managed, the assessment before a recreation, the
-- check for a release of Yard and the launch of its update worker, and the snapshots and metrics of internal/inventory.
mod Prelude
pub mod Store
pub mod Inventory
pub mod Workers
pub mod Recreate
pub mod YardUpdate
pub mod Ports
pub mod Lifecycle
pub mod ComposeOrder
