-- ===== src/Server/Sessions.antt =====
-- tfs_server.c: `server_init`, `erase_client` and `find_free_pos`.
use server_client.Common.{
  ℕ, zero, suc, ◌+◌, Bool, true, false, Option, none, some, if◌then◌else◌, update, fill, ltb, ℤ,
  pos, minus_one, decrement,
}
use server_client.Wire.Pipes.{zeros}
use server_client.Server.{
  ServerState, Session, SessionState, Slave, Request, Outcome, returned, free_pos, taken_pos,
  max_sessions, session_name_size, lock_global_mutex, ◌>>=◌, slot,
}

abbrev pub is_free_pos : SessionState → Bool
is_free_pos free_pos = true
is_free_pos taken_pos = false

abbrev pub no_session : Session
no_session = record { session_id = minus_one; name = zeros session_name_size; fhandler = minus_one }

-- `to_write` is not touched at the start.
abbrev pub fresh_slave : (ℕ → Slave) → ℕ → Slave
fresh_slave slaves i =
    let request : Request = record (slaves i).request {
      op_code = minus_one;
      fcli = minus_one;
      fhandler = minus_one;
      len = 0;
      flags = minus_one;
      name = zeros session_name_size;
    } in
    record { session_id = pos i; wake_up = false; request = request }

-- `server_init`, where every pthread call returns 0: the tables of ten sessions.
unfoldable pub server_init : ServerState → ServerState × ℤ
server_init s = (
  record s {
    open_sessions = pos 0;
    sessions = fill max_sessions no_session s.sessions;
    free_sessions = fill max_sessions free_pos s.free_sessions;
    slaves = λ i. if ltb i max_sessions then fresh_slave s.slaves i else s.slaves i;
  },
  pos 0,
)

-- Called nowhere but in `handle_error`, which nothing calls.
unfoldable pub erase_client : ServerState → ℤ → Outcome ServerState
erase_client s session_id = do
  i ← slot session_id
  let erased : ServerState = record s { sessions = update s.sessions i no_session }
  s' ← lock_global_mutex erased
  returned (record s' {
    open_sessions = decrement s'.open_sessions;
    free_sessions = update s'.free_sessions i free_pos;
  })

-- The loop of `find_free_pos` from `i` on, with `n` rounds left.
unfoldable pub first_free_pos : (ℕ → SessionState) → ℕ → ℕ → Option ℕ
first_free_pos f zero i = none
first_free_pos f (suc n) i =
    let rest = first_free_pos f n (i + 1) in if is_free_pos (f i) then some i else rest

-- `find_free_pos` with `global_mutex` locked. When all positions are taken it returns without the
-- unlock.
unfoldable pub take_position : ServerState → Outcome (ServerState × ℤ)
take_position s = elim (first_free_pos s.free_sessions max_sessions 0) [
  | none ↦ returned (record s { global_locked = true }, minus_one)
  | some i ↦ returned (record s { free_sessions = update s.free_sessions i taken_pos }, pos i)
]

unfoldable pub find_free_pos : ServerState → Outcome (ServerState × ℤ)
find_free_pos s = do locked ← lock_global_mutex s; take_position locked
