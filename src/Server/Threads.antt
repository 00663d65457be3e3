-- ===== src/Server/Threads.antt =====
-- tfs_server.c: the functions `tfs_thread_...` and one round of `solve_request`, in which the slave
-- `i` answers the request that it was left. The calls of operations.c are those of Operations.
use server_client.Common.{
  ℕ, false, not, List, ◌++◌, if◌then◌else◌, update, ltb, take, ℤ, pos, minus_one, eqb_ℤ,
  is_negative,
}
use server_client.Memory.{c_string}
use server_client.Operations.{Tfs, Pthread, tfs_open, tfs_close, tfs_write, tfs_read}
use server_client.Operations.Shutdown
use server_client.Wire.OpCode
use server_client.Wire.Text.{int_field}
use server_client.Wire.Pipes.{Os, slait_write, stored, zeros}
use server_client.Server.{
  ServerState, Session, Request, Outcome, returned, exited, stuck, undefined, ◌>>=◌, await, defined,
  lock_global_mutex, session_name_size, free_pos,
}
use server_client.Server.Sessions.{no_session}

-- What a slave can change.
abbrev pub World : Type 0 → Type 0
World W = W × ServerState × Tfs

-- PTRDIFF_MAX, the largest size of an array.
abbrev largest_array : ℕ
largest_array = 9223372036854775807

module _ {W : Type 0} (os : Os W) where
  -- A number is sent to the client of session `i`.
  unfoldable pub send_int : W → ServerState → Tfs → ℕ → ℤ → Outcome (World W)
  send_int w s t i z = do
    (w', r) ← await (slait_write os w (s.sessions i).fhandler (int_field z))
    returned (w', s, t)

  unfoldable pub tfs_thread_mount : W → ServerState → Tfs → ℕ → Outcome (World W)
  tfs_thread_mount w s t i = do
    locked ← lock_global_mutex s
    let request : Request = (locked.slaves i).request
    let session : Session = record {
      session_id = (locked.slaves i).session_id;
      name = stored (c_string request.name) (zeros session_name_size);
      fhandler = request.fcli;
    }
    let s' : ServerState = record locked { sessions = update locked.sessions i session }
    (w', r) ← await (slait_write os w request.fcli (int_field (locked.slaves i).session_id))
    returned (w', s', t)

  -- What `tfs_thread_unmount` does before it takes `global_mutex`: it keeps its effect if the slave
  -- then has to wait.
  unfoldable pub close_session : W → ServerState → Tfs → ℕ → Outcome (World W)
  close_session w s t i =
      let (w', closed) = os.close_pipe w (s.sessions i).fhandler in
      if not closed
      then exited
      else returned (w', record s { sessions = update s.sessions i no_session }, t)

  -- The rest, from the lock on.
  unfoldable pub free_session : W → ServerState → Tfs → ℕ → Outcome (World W)
  free_session w s t i = do
    s' ← lock_global_mutex s
    returned (w, record s' { free_sessions = update s'.free_sessions i free_pos }, t)

  unfoldable pub tfs_thread_unmount : W → ServerState → Tfs → ℕ → Outcome (World W)
  unfolding close_session free_session
  tfs_thread_unmount w s t i = do (w', s', t') ← close_session w s t i; free_session w' s' t' i

  unfoldable pub tfs_thread_open : Pthread → W → ServerState → Tfs → ℕ → Outcome (World W)
  unfolding send_int
  tfs_thread_open p w s t i =
      let request = (s.slaves i).request in
      let (t', tfs_fhandler) = tfs_open p t request.name request.flags in
      send_int w s t' i tfs_fhandler

  -- The answer is one `write`, whose failure is only printed.
  unfoldable pub tfs_thread_close : Pthread → W → ServerState → Tfs → ℕ → Outcome (World W)
  tfs_thread_close p w s t i =
      let (t', fclose) = tfs_close p t (s.slaves i).request.fhandler in
      let (w', write_size) = os.write_pipe w (s.sessions i).fhandler (int_field fclose) in
      returned (w', s, t')

  -- With the handle -1 four bytes of an uninitialised buffer are sent. The bytes read are put in an
  -- array of `len` elements: no array has as many as a negative length, cast to `size_t`, asks for.
  unfoldable pub tfs_thread_read : List ℕ → Pthread → W → ServerState → Tfs → ℕ → Outcome (World W)
  tfs_thread_read garbage p w s t i =
      let request = (s.slaves i).request in
      let fcli = (s.sessions i).fhandler in
      if eqb_ℤ request.fhandler minus_one
      then (do (w', r) ← await (slait_write os w fcli (take 4 garbage)); returned (w', s, t))
      else if ltb largest_array request.len
      then undefined
      else (do
        (t', read_bytes, bytes) ← defined (tfs_read p t request.fhandler request.len)
        let (w1, write_size) = os.write_pipe w fcli (int_field read_bytes)
        if is_negative read_bytes then returned (w1, s, t') else (do
          (w2, r) ← await (slait_write os w fcli (int_field read_bytes ++ bytes))
          returned (w2, s, t')))

  unfoldable pub tfs_thread_write : Pthread → W → ServerState → Tfs → ℕ → Outcome (World W)
  unfolding send_int
  tfs_thread_write p w s t i =
      let request = (s.slaves i).request in
      if eqb_ℤ request.fhandler minus_one
      then (do
        (w', r) ← await (slait_write os w (s.sessions i).fhandler (zeros 4))
        returned (w', s, t))
      else (do
        (t', written) ← defined (tfs_write p t request.fhandler request.to_write request.len)
        if is_negative written then exited else send_int w s t' i written)

  -- The answer is sent twice and the process ends; the result is what is outside it by then. `calls`
  -- are the calls of the other slaves while this one waits.
  unfoldable pub tfs_thread_shutdown_after_all_close :
      Pthread → List Shutdown.Call → W → ServerState → Tfs → ℕ → Outcome W
  tfs_thread_shutdown_after_all_close p calls w s t i =
      elim (Shutdown.tfs_destroy_after_all_closed p t calls) [
        | Shutdown.Outcome.sleeping t' ↦ stuck
        | Shutdown.Outcome.returned t' ret rest ↦
            let fcli = (s.sessions i).fhandler in
            if eqb_ℤ ret minus_one then exited else (do
              (w1, r) ← await (slait_write os w fcli (int_field ret))
              let (w2, write_size) = os.write_pipe w1 fcli (int_field ret)
              returned w2)
      ]

  -- The slave waits until it is woken and takes note of it, with `slave_mutex` locked.
  unfoldable pub await_request : ServerState → ℕ → Outcome ServerState
  await_request s i =
      let slave = s.slaves i in
      if not slave.wake_up
      then stuck
      else returned (record s { slaves = update s.slaves i (record slave { wake_up = false }) })

  -- What the slave then does without the mutex: it reads its request only here, and the main thread
  -- may have put another one in its place. A shutdown ends the process or waits.
  unfoldable pub carry_out :
      List ℕ → Pthread → List Shutdown.Call → W → ServerState → Tfs → ℕ → Outcome (World W)
  carry_out garbage p calls w s t i =
      let command = (s.slaves i).request.op_code in
      if eqb_ℤ command (pos OpCode.mount)
      then tfs_thread_mount w s t i
      else if eqb_ℤ command (pos OpCode.unmount)
      then tfs_thread_unmount w s t i
      else if eqb_ℤ command (pos OpCode.open_file)
      then tfs_thread_open p w s t i
      else if eqb_ℤ command (pos OpCode.close_file)
      then tfs_thread_close p w s t i
      else if eqb_ℤ command (pos OpCode.write_file)
      then tfs_thread_write p w s t i
      else if eqb_ℤ command (pos OpCode.read_file)
      then tfs_thread_read garbage p w s t i
      else if eqb_ℤ command (pos OpCode.shutdown)
      then (do last ← tfs_thread_shutdown_after_all_close p calls w s t i; exited)
      else returned (w, s, t)

  -- One round of `solve_request` of the slave `i` during which the main thread does nothing.
  unfoldable pub solve_request :
      List ℕ → Pthread → List Shutdown.Call → W → ServerState → Tfs → ℕ → Outcome (World W)
  unfolding await_request carry_out
  solve_request garbage p calls w s t i = do
    s' ← await_request s i
    carry_out garbage p calls w s' t i
