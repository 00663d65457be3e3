-- ===== src/Server.antt =====
-- tecnicofs_ex2/fs/tfs_server.c: the session table, the slaves and their requests. The main thread
-- reads one request at a time and leaves it to the slave of the session; either works in steps,
-- one request each. Of the mutexes only `global_mutex` is ever left locked, so only it is kept.
pub mod Sessions
pub mod Handlers
pub mod Threads
pub mod Main
pub mod Start
pub mod Errors
pub mod Table
pub mod Asked
pub mod Fields
pub mod Delivery
pub mod Transfers
pub mod Deadlock
pub mod System
use server_client.Common.{
  ℕ, zero, suc, ◌+◌, Bool, true, false, Option, none, some, List, [], ◌∷◌, ◌==◌, if◌then◌else◌,
  update, ℤ, pos, pos_part,
}
use server_client.State.{valid_index}

-- `S`, `SIZE` and `NAME_SIZE`
abbrev pub max_sessions : ℕ
max_sessions = 10

abbrev pub buffer_size : ℕ
buffer_size = 100

abbrev pub session_name_size : ℕ
session_name_size = 40

-- The field `session_id` is -1 while no client has the session.
pub record Session : Type 0 where
  pub session_id : ℤ
  pub name : List ℕ
  pub fhandler : ℤ

pub record Request : Type 0 where
  pub op_code : ℤ
  pub fcli : ℤ
  pub fhandler : ℤ
  pub len : ℕ
  pub flags : ℤ
  pub name : List ℕ
  pub to_write : List ℕ

pub record Slave : Type 0 where
  pub session_id : ℤ
  pub wake_up : Bool
  pub request : Request

pub data SessionState : Type 0 where
  free_pos taken_pos : SessionState

-- The statics of the server. `global_locked` says that `global_mutex` was left locked.
pub record ServerState : Type 0 where
  pub fserv : ℤ
  pub counter_operations : ℕ
  pub open_sessions : ℤ
  pub sessions : ℕ → Session
  pub free_sessions : ℕ → SessionState
  pub slaves : ℕ → Slave
  pub global_locked : Bool

-- How a step ends: it returns, the process exits, the thread waits for ever, or an array is used
-- outside its bounds, which C leaves undefined.
pub data Outcome {ℓ} (A : Type ℓ) : Type ℓ where
  returned : A → Outcome A
  exited stuck undefined : Outcome A

infixl 5 ◌>>=◌
abbrev pub ◌>>=◌ {ℓ κ} : {A : Type ℓ} {B : Type κ} → Outcome A → (A → Outcome B) → Outcome B
returned a >>= f = f a
exited >>= f = exited
stuck >>= f = stuck
undefined >>= f = undefined

-- A loop that may go on for ever, and a memory access that may be undefined.
abbrev pub await {ℓ} : {A : Type ℓ} → Option A → Outcome A
await none = stuck
await (some a) = returned a

abbrev pub defined {ℓ} : {A : Type ℓ} → Option A → Outcome A
defined none = undefined
defined (some a) = returned a

-- `sessions[session_id]` and `slaves[session_id]`: nothing checks the index.
abbrev pub slot : ℤ → Outcome ℕ
slot session_id =
    if valid_index session_id max_sessions then returned (pos_part session_id) else undefined

-- `pthread_mutex_lock(&global_mutex)`
abbrev pub lock_global_mutex : ServerState → Outcome ServerState
lock_global_mutex s = if s.global_locked then stuck else returned s

-- A request is stored and its slave is woken.
abbrev pub wake : ServerState → ℕ → Request → ServerState
wake s i request = record s {
  slaves = update s.slaves i (record (s.slaves i) { request = request; wake_up = true });
}

abbrev pub increment_counter : ServerState → ServerState
increment_counter s = record s { counter_operations = s.counter_operations + 1 }
