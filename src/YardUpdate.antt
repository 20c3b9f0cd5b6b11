-- ===== src/YardUpdate.antt =====
-- selfupdate/worker.go and manager.go: the worker that replaces Yard's own container, and what it works on.
-- What Docker, the files and SQLite answer is an argument and may depend on all that was asked before;
-- the database is that of Store.SelfUpdate. A panic takes the way of an error.
pub mod Checks
pub mod Worker
pub mod Running
pub mod Trace
pub mod Guarding
pub mod Undoing
pub mod Guarded
pub mod Preparing
pub mod Outliving
pub mod Locked
pub mod Undone
pub mod Back
pub mod Returned
pub mod Freed
pub mod Reconciling
pub mod Interrupted
mod Examples
use nox_yard.Prelude.{
  ◌++ₛ◌, Labels, Result, err, ok, ◌>>=◌, ◌>>◌, ℕ, String, Bool, true, false, not, Option, none,
  some, List, [], ◌∷◌,
}
use nox_yard.Store.Types.{StoreError, Tx, Db}
use nox_yard.Store.SelfUpdate.{SelfUpdate}
use nox_yard.Workers.{Inspected, failed, WorkerError}

-- An error: its text, and whether it says that a thing is not there.
pub record Failure : Type 0 where
  pub text : String
  pub absent : Bool

-- A mount and an endpoint of a network as Docker shows them.
pub record Mount : Type 0 where
  pub destination : String
  pub source : String
  pub writable : Bool
  pub is_bind : Bool

-- `assigned` is what Docker assigns on its own, such as addresses.
pub record Endpoint : Type 0 where
  pub ipam : String
  pub links : List String
  pub aliases : List String
  pub driver_opts : Labels
  pub gw_priority : ℕ
  pub assigned : String

-- container.Config and container.HostConfig; `rest` is what the code copies unseen.
pub record Config : Type 0 where
  pub image : String
  pub hostname : String
  pub labels : Labels
  pub health_test : Option (List String)
  pub rest : String

pub record HostConfig : Type 0 where
  pub auto_remove : Bool
  pub rest : String

pub record State : Type 0 where
  pub running : Bool
  pub exit_code : ℕ
  pub error : String
  pub health : Option String

pub record Container : Type 0 where
  pub id : String
  pub name : String
  pub image : String
  pub state : Option State
  pub config : Option Config
  pub host : Option HostConfig
  pub mounts : List Mount
  pub networks : Option (List (String × Option Endpoint))

-- What replacementConfig returns.
pub record Replacement : Type 0 where
  pub config : Config
  pub host : HostConfig
  pub networking : List (String × Endpoint)

-- What the worker asks of Docker, of the store and of the files beside it.
pub data Call : Type 0 where
  dial read_latest read_update read_job claim back_up open_store close_store : Call
  progress mirror : String → Call
  finish : String → Bool → Call
  cleanup_error : Call
  inspect stop start remove force_remove tag : String → Call
  rename : String → String → Call
  create : String → Replacement → Call
  drop_journal : String → Call
  swap_database drop_backup : Call

-- A call with whether it was accepted, or a created container.
pub data Event : Type 0 where
  asked : Call → Bool → Event
  created : String → Event

pub record Engine : Type 0 where
  pub answers : Call → List Event → Option Failure
  pub inspects : String → List Event → Result Failure Container
  pub creates : List Event → Result Failure String
  pub this_container : List Event → Inspected
  pub expires : List Event → Bool
  pub now : List Event → ℕ
  pub describes : StoreError → String
  pub complains : WorkerError → String
  pub prints : ℕ → String
  pub polls : ℕ

-- The variable `data`: an open store, a closed one, or nil after a failed Open.
pub data Connection : Type 0 where
  opened closed nothing : Connection

-- `database` is the file of the store, `backup` the snapshot once there is one, `new_id` the variable
-- of RunWorker.
pub record Site : Type 0 where
  pub trace : List Event
  pub connection : Connection
  pub database : SelfUpdate
  pub backup : Option SelfUpdate
  pub new_id : String

abbrev pub Work : Type 0 → Type 0
Work A = Site → Result String A × Site

abbrev pub and_then :
    {A B : Type 0} → (A → Work B) → Result String A × Site → Result String B × Site
and_then next (err x, w) = (err x, w)
and_then next (ok a, w) = next a w

infixl 4 ◌>=>◌
abbrev pub ◌>=>◌ : {A B : Type 0} → Work A → (A → Work B) → Work B
(first >=> next) w = and_then next (first w)

abbrev pub give : {A : Type 0} → A → Work A
give a w = (ok a, w)

abbrev pub refuse : {A : Type 0} → String → Work A
refuse text w = (err text, w)

abbrev pub check : Bool → String → Work (Unit {0})
check true text w = (ok tt, w)
check false text w = (err text, w)

-- fmt.Errorf("%s: %w")
abbrev pub within : {A : Type 0} → String → Result String A × Site → Result String A × Site
within prefix (ok a, w) = (ok a, w)
within prefix (err x, w) = (err (prefix ++ₛ ": " ++ₛ x), w)

abbrev pub log_event : Event → Site → Site
log_event e w = record w { trace = e ∷ w.trace }

-- A call of Docker or of the files, and one that answers a value.
abbrev pub told : Call → Site → Option Failure → Result String (Unit {0}) × Site
told c w none = (ok tt, log_event (asked c true) w)
told c w (some f) = (err f.text, log_event (asked c false) w)

abbrev pub call : Engine → Call → Work (Unit {0})
call o c w = told c w (o.answers c w.trace)

abbrev pub shown_as : String → Site → Result Failure Container → Result String Container × Site
shown_as id w (ok c) = (ok c, log_event (asked (inspect id) true) w)
shown_as id w (err f) = (err f.text, log_event (asked (inspect id) false) w)

abbrev pub look : Engine → String → Work Container
look o id w = shown_as id w (o.inspects id w.trace)

abbrev pub is_open : Connection → Bool
is_open opened = true
is_open closed = false
is_open nothing = false

-- A transaction of the store on its database: SQLite itself may fail.
abbrev pub attempted :
    Engine → Call → Site → Bool → Option Failure → Tx SelfUpdate → Result String (Unit {0}) × Site
attempted o c w false a t = (err "sql: database is closed", log_event (asked c false) w)
attempted o c w true (some f) t = (err f.text, log_event (asked c false) w)
attempted o c w true none (err e) = (err (o.describes e), log_event (asked c false) w)
attempted o c w true none (ok s) = (ok tt, log_event (asked c true) (record w { database = s }))

abbrev pub transact : Engine → Call → (SelfUpdate → Tx SelfUpdate) → Work (Unit {0})
transact o c change w =
    attempted o c w (is_open w.connection) (o.answers c w.trace) (change w.database)

abbrev pub on_db : (Db → Tx Db) → SelfUpdate → Tx SelfUpdate
on_db f s = do db ← f s.db; ok (record s { db = db })

-- A query of the store.
abbrev pub queried :
    {A : Type 0} → Engine → Call → Site → Option Failure → Tx A → Result String A × Site
queried o c w (some f) t = (err f.text, log_event (asked c false) w)
queried o c w none (err e) = (err (o.describes e), log_event (asked c false) w)
queried o c w none (ok a) = (ok a, log_event (asked c true) w)

abbrev pub ask_store : {A : Type 0} → Engine → Call → (SelfUpdate → Tx A) → Work A
ask_store o c query w = queried o c w (o.answers c w.trace) (query w.database)
