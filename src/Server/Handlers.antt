-- ===== src/Server/Handlers.antt =====
-- tfs_server.c: the functions `tfs_handle_...` of the main thread, which read the fields of one
-- request from the server's pipe and hand it to the slave of the session.
use server_client.Common.{
  ℕ, Bool, true, false, not, ◌||◌, List, ◌++◌, if◌then◌else◌, ltb, take, drop, length, ℤ, pos,
  minus_one, eqb_ℤ, increment, decrement, negsuc, ◌-◌,
}
use server_client.Wire.OpCode
use server_client.Wire.Text.{atoi, int_field}
use server_client.Wire.Pipes.{Os, slait, slait_write, slait_open, stored, zeros}
use server_client.Server.{
  ServerState, Request, Outcome, returned, exited, undefined, ◌>>=◌, await, slot, lock_global_mutex,
  wake, increment_counter, max_sessions, buffer_size, session_name_size,
}
use server_client.Server.Sessions.{find_free_pos}

-- `(size_t) atoi(buffer)`
abbrev pub to_size : ℤ → ℕ
to_size (pos n) = n
to_size (negsuc n) = 18446744073709551615 - n

module _ {W : Type 0} (os : Os W) where
  -- A field of four bytes at the start of `buffer`: the number there, the buffer after it, and the
  -- result of `slait`.
  unfoldable pub read_field : W → ServerState → List ℕ → Outcome (W × List ℕ × ℤ × ℤ)
  read_field w s buffer = do
    (w', bytes, ret) ← await (slait os w s.fserv 4)
    let buffer' = stored bytes buffer
    returned (w', buffer', atoi buffer', ret)

  -- The same where a failure ends the process.
  unfoldable pub read_field_or_exit : W → ServerState → List ℕ → Outcome (W × List ℕ × ℤ)
  unfolding read_field
  read_field_or_exit w s buffer = do
    (w', buffer', z, ret) ← read_field w s buffer
    if eqb_ℤ ret minus_one then exited else returned (w', buffer', z)

  -- The branch of a full server.
  unfoldable pub refuse_session : W → ServerState → ℤ → Outcome (W × ServerState)
  refuse_session w s fcli = do
    (w1, r) ← await (slait_write os w fcli (int_field minus_one))
    let (w2, closed) = os.close_pipe w1 fcli
    if not closed then exited else returned (w2, s)

  -- From `find_free_pos` on.
  unfoldable pub start_session : W → ServerState → ℤ → Outcome (W × ServerState)
  start_session w s fcli = do
    (s1, id) ← find_free_pos s
    if eqb_ℤ id minus_one
        then (do (w1, r) ← await (slait_write os w fcli (int_field id)); returned (w1, s1))
        else (do
          i ← slot id
          let old : Request = (s1.slaves i).request
          let request : Request = record old { op_code = pos OpCode.mount; fcli = fcli }
          s2 ← lock_global_mutex (wake s1 i request)
          returned (w, record s2 { open_sessions = increment s2.open_sessions }))

  -- `attempts` bounds the tries to open the client's pipe.
  unfoldable pub tfs_handle_mount : ℕ → W → ServerState → Outcome (W × ServerState)
  unfolding refuse_session start_session
  tfs_handle_mount attempts w s = do
    (w1, bytes, ret) ← await (slait os w s.fserv session_name_size)
    if ltb session_name_size (length bytes)
        then undefined
        else if eqb_ℤ ret minus_one
        then exited
        else (do
          (w2, fcli) ← await (slait_open os attempts w1 (stored bytes (zeros session_name_size)))
          if eqb_ℤ s.open_sessions (pos max_sessions)
              then refuse_session w2 s fcli
              else start_session w2 s fcli)

  -- What `tfs_handle_unmount` does before it takes `global_mutex`: it reads the request and wakes the
  -- slave, which stays so if the main thread then has to wait. The Boolean says whether it goes on.
  unfoldable pub ask_unmount : W → ServerState → Outcome (W × ServerState × Bool)
  ask_unmount w s = do
    (w1, bytes, ret) ← await (slait os w s.fserv 4)
    let id = atoi (take 4 (stored bytes (zeros buffer_size)))
    if eqb_ℤ s.open_sessions (pos 0) || eqb_ℤ id minus_one then returned (w1, s, false) else (do
      i ← slot id
      let old : Request = (s.slaves i).request
      returned (w1, wake s i (record old { op_code = pos OpCode.unmount }), true))

  -- `open_sessions` goes down here, the position becomes free only when the slave is done.
  unfoldable pub close_one : W → ServerState → Outcome (W × ServerState)
  close_one w s = do
    s' ← lock_global_mutex s
    returned (w, record s' { open_sessions = decrement s'.open_sessions })

  unfoldable pub tfs_handle_unmount : W → ServerState → Outcome (W × ServerState)
  unfolding ask_unmount close_one
  tfs_handle_unmount w s = do
    (w1, s1, asked) ← ask_unmount w s
    if asked then close_one w1 s1 else returned (w1, s1)

  unfoldable pub tfs_handle_read : W → ServerState → Outcome (W × ServerState)
  tfs_handle_read w s = do
    (w1, b1, id, r1) ← read_field w s (zeros buffer_size)
    (w2, b2, fhandle, r2) ← read_field w1 s b1
    i ← slot id
    if eqb_ℤ fhandle minus_one
        then (do
          (w3, r) ← await (slait_write os w2 (s.sessions i).fhandler (take 4 b2))
          returned (w3, s))
        else (do
          (w3, b3, len, r3) ← read_field w2 s b2
          let old : Request = (s.slaves i).request
          let request : Request = record old {
            op_code = pos OpCode.read_file;
            fhandler = fhandle;
            len = to_size len;
          }
          returned (w3, increment_counter (wake s i request)))

  -- The text of a write: `memset` and `slait` go outside the buffer if `len` exceeds its 100 bytes.
  unfoldable pub read_text : W → ServerState → List ℕ → ℕ → Outcome (W × List ℕ)
  read_text w s buffer len = if ltb buffer_size len then undefined else (do
    (w', bytes, ret) ← await (slait os w s.fserv len)
    let text = stored bytes (zeros len ++ drop len buffer)
    if ltb buffer_size (length bytes)
        then undefined
        else if eqb_ℤ ret minus_one
        then exited
        else returned (w', take len text))

  -- `garbage` is what the buffer holds before anything is stored in it.
  unfoldable pub tfs_handle_write : List ℕ → W → ServerState → Outcome (W × ServerState)
  unfolding read_text
  tfs_handle_write garbage w s = do
    (w1, b1, id) ← read_field_or_exit w s garbage
    (w2, b2, fhandle) ← read_field_or_exit w1 s b1
    i ← slot id
    if eqb_ℤ fhandle minus_one
        then (do
          (w3, r) ← await (slait_write os w2 (s.sessions i).fhandler (take 4 b2))
          returned (w3, s))
        else (do
          (w3, b3, len) ← read_field_or_exit w2 s b2
          (w4, text) ← read_text w3 s b3 (to_size len)
          let old : Request = (s.slaves i).request
          let request : Request = record old {
            op_code = pos OpCode.write_file;
            fhandler = fhandle;
            len = to_size len;
            to_write = text;
          }
          returned (w4, increment_counter (wake s i request)))

  unfoldable pub tfs_handle_close : List ℕ → W → ServerState → Outcome (W × ServerState)
  tfs_handle_close garbage w s = do
    (w1, b1, id) ← read_field_or_exit w s garbage
    (w2, b2, fhandle) ← read_field_or_exit w1 s b1
    i ← slot id
    if eqb_ℤ fhandle minus_one
        then (do
          (w3, r) ← await (slait_write os w2 (s.sessions i).fhandler (take 4 b2))
          returned (w3, s))
        else (do
          let old : Request = (s.slaves i).request
          let request : Request = record old { op_code = pos OpCode.close_file; fhandler = fhandle }
          returned (w2, increment_counter (wake s i request)))

  -- The whole request behind its code is 45 bytes: a number, the name and the flags.
  unfoldable pub tfs_handle_open : W → ServerState → Outcome (W × ServerState)
  tfs_handle_open w s = do
    (w1, bytes, ret) ← await (slait os w s.fserv 45)
    let buffer = stored bytes (zeros buffer_size)
    if eqb_ℤ ret minus_one then exited else (do
      i ← slot (atoi (take 4 buffer))
      let old : Request = (s.slaves i).request
      let request : Request = record old {
        op_code = pos OpCode.open_file;
        name = take session_name_size (drop 4 buffer);
        flags = atoi (take 4 (drop 44 buffer));
      }
      returned (w1, increment_counter (wake s i request)))

  unfoldable pub tfs_handle_shutdown_after_all_close : W → ServerState → Outcome (W × ServerState)
  tfs_handle_shutdown_after_all_close w s = do
    (w1, bytes, ret) ← await (slait os w s.fserv 4)
    i ← slot (atoi (take 4 (stored bytes (zeros buffer_size))))
    let old : Request = (s.slaves i).request
    returned (w1, wake s i (record old { op_code = pos OpCode.shutdown }))
