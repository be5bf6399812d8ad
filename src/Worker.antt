-- ===== src/Worker.antt =====
-- What the four queue workers of server/src/bin share: the state that they change, the Redis calls
-- of a retry, and how they take the next message. Each worker has its lists under names of its own:
--   delete-worker.rs: delete_dataset_queue, delete_dataset_processing, dead_letters_delete
--   file-worker.rs: file_ingestion, file_processing, dead_letters_file
--   grupdate-worker.rs: group_update_queue, group_update_processing, dead_letters_group
--   ingestion-worker.rs: ingestion, processing, dead_letters
pub mod Backoff
pub mod Fetch
pub mod Retry
pub mod Delete
pub mod File
pub mod Grupdate
pub mod Ingestion
pub mod Examples
use trieve.Prelude.{
  ℕ, ◌*◌, ◌≡◌, String, Bool, true, false, Option, none, some, List, [], ◌∷◌, min, if◌then◌else◌,
}
use trieve.Errors.{ServiceError, internal_server_error, Result, ok, err}
use trieve.Redis.{Lists, Call, reply, brpoplpush, lrem_processing, lpush_queue, lpush_dead_letters}
use trieve.Models.{WorkerEvent}

-- `serde_json::to_string` and `from_str` at one message type.
pub record Codec (M : Type 0) : Type 0 where
  pub to_string : M → Option String
  pub from_str : String → Option M

pub record World : Type 0 where
  pub lists : Lists
  -- the events sent to the event queue, newest first
  pub events : List WorkerEvent
  -- `broken_pipe_sleep`, in seconds
  pub broken_pipe_sleep : ℕ
  -- the sleeps taken, newest first
  pub slept : List ℕ

-- A function that changes the state and may return an error with what it had changed.
abbrev pub Exec : Type 0 → Type 0
Exec A = World → Result A × World

abbrev pub continue : {A B : Type 0} → Result A → (A → Exec B) → Exec B
continue (ok a) f w = f a w
continue (err e) f w = (err e, w)

infixl 5 ◌>>=◌ ◌>>◌
abbrev pub ◌>>=◌ : {A B : Type 0} → Exec A → (A → Exec B) → Exec B
◌>>=◌ m f w = let (r, w') = m w in continue r f w'

abbrev pub ◌>>◌ : {B : Type 0} → Exec (Unit {0}) → Exec B → Exec B
m >> n = m >>= λ _. n

abbrev pub return : {A : Type 0} → A → Exec A
return a w = (ok a, w)

abbrev pub raise : {A : Type 0} → ServiceError → Exec A
raise e w = (err e, w)

-- How the calls of one run of `readd_error_to_queue` end, in program order.
pub record Outcomes : Type 0 where
  pub conn : Call
  pub lrem : Call
  pub conn_again : Call
  pub lpush : Call

abbrev pub serialized : Option String → Result String
serialized none = err (internal_server_error "Failed to reserialize input for retry")
serialized (some text) = ok text

-- `serde_json::to_string(&payload).map_err(..)?`
abbrev pub reserialize : {M : Type 0} → Codec M → M → Exec String
reserialize codec m w = (serialized (codec.to_string m), w)

-- `redis_pool.get().await.map_err(..)?`
abbrev pub connect : Call → Exec (Unit {0})
connect c w = (reply c, w)

-- `let _ = redis::cmd("LREM")..`: the outcome is dropped.
abbrev pub lrem : Call → String → Exec (Unit {0})
lrem c text w = (ok tt, record w { lists = lrem_processing c text w.lists })

abbrev pub lpush : Call → String → Exec (Unit {0})
lpush c text w = (reply c, record w { lists = lpush_queue c text w.lists })

abbrev pub bury : Call → String → Exec (Unit {0})
bury c text w = (reply c, record w { lists = lpush_dead_letters c text w.lists })

abbrev pub send : WorkerEvent → Exec (Unit {0})
send event w = (ok tt, record w { events = event ∷ w.events })

-- How `brpoplpush` ended for the worker; a failed one may have moved a message all the same.
pub data Pop : Type 0 where
  replied : Pop
  io_error other_error : Bool → Pop

abbrev moved : Bool → Lists → Lists
moved b l = if b then (brpoplpush l).1 else l

-- The head of each worker's loop, up to the message text; `none` where it goes round again.
unfoldable pub fetch : Pop → World → Option String × World
fetch replied w =
    let (payload, l) = brpoplpush w.lists in
    (payload, record w { lists = l; broken_pipe_sleep = 10 })
fetch (io_error b) w = (
  none,
  record w {
    lists = moved b w.lists;
    broken_pipe_sleep = min (w.broken_pipe_sleep * 2) 300;
    slept = w.broken_pipe_sleep ∷ w.slept;
  },
)
fetch (other_error b) w = (none, record w { lists = moved b w.lists })

-- The loop that takes a connection from the pool before the work starts: `tries` says which
-- attempts succeed. The sleeps between them, and whether a connection was made.
pub connect_loop : ℕ → List Bool → List ℕ × Bool
connect_loop redis_conn_sleep [] = ([], false)
connect_loop redis_conn_sleep (true ∷ tries) = ([], true)
connect_loop redis_conn_sleep (false ∷ tries) =
    let (sleeps, connected) = connect_loop (min (redis_conn_sleep * 2) 300) tries in
    (redis_conn_sleep ∷ sleeps, connected)

-- What the loop does after a pass.
pub data Next : Type 0 where
  go_on shut_down panicked : Next
