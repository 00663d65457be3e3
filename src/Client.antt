-- ===== src/Client.antt =====
-- tecnicofs_ex2/client/tecnicofs_client_api.c: the calls of the library that clients link. The three
-- statics are a record. A `char const *` is the list of the bytes from its address on. `none`
-- stands for a call that does not return, because an `open` is tried again for ever.
pub mod Messages
pub mod Answers
use server_client.Common.{
  ℕ, zero, suc, ◌+◌, ◌-◌, Bool, true, false, not, Option, none, some, List, [], ◌∷◌, ◌++◌, take,
  length, if◌then◌else◌, ◌>>=◌, ltb, ℤ, pos, negsuc, minus_one, is_negative, pos_part, eqb_ℤ,
}
use server_client.Wire.Text.{atoi}
use server_client.Wire.Pipes.{Os, slait, stored, zeros}
use server_client.Client.Messages.{
  mount_message, unmount_message, open_message, close_message, write_message, read_message,
  shutdown_message,
}

pub record ClientState : Type 0 where
  pub fcli : ℤ
  pub fserv : ℤ
  pub session_id : ℤ

-- What only a client asks the system for: `open` of a pipe for writing and for reading, and `unlink`
-- and `mkfifo`, `true` if the call goes on behind them.
pub record Files (W : Type 0) : Type 0 where
  pub open_server : W → List ℕ → W × ℤ
  pub unlink_pipe : W → List ℕ → W × Bool
  pub make_pipe : W → List ℕ → W × Bool
  pub open_client : W → List ℕ → W × ℤ

module _ {W : Type 0} (os : Os W) where
  -- The answer to a request, four bytes: the number in it, or -1 if that is negative.
  abbrev pub answer : W → ClientState → Option (W × ℤ)
  answer w c = do
    (w', bytes, ret) ← slait os w c.fcli 4
    let r = atoi (stored bytes (zeros 4))
    if is_negative r then some (w', minus_one) else some (w', r)

  -- A request and its answer.
  abbrev pub ask : W → ClientState → List ℕ → Option (W × ℤ)
  ask w c message =
      let (w', size_written) = os.write_pipe w c.fserv message in
      if is_negative size_written then some (w', minus_one) else answer w' c

  -- `while (1) if ((fserv = open(...)) >= 0) break`, `n` times.
  unfoldable pub connect : Files W → ℕ → W → List ℕ → Option (W × ℤ)
  connect files zero w path = none
  connect files (suc n) w path =
      let (w', fd) = files.open_server w path in
      let again = connect files n w' path in if is_negative fd then again else some (w', fd)

  -- `tfs_mount` from the `unlink` on.
  unfoldable pub make_session : Files W → W → ClientState → List ℕ → Option (W × ClientState × ℤ)
  make_session files w c path =
      let (w1, unlinked) = files.unlink_pipe w path in
      let (w2, made) = files.make_pipe w1 path in
      let (w3, fd) = files.open_client w2 path in
      let opened : ClientState = record c { fcli = fd } in
      if not unlinked
      then some (w1, c, minus_one)
      else if not made
      then some (w2, c, minus_one)
      else if is_negative fd
      then some (w3, opened, minus_one)
      else do
        (w4, bytes, ret) ← slait os w3 fd 4
        let id = atoi (stored bytes (zeros 41))
        let mounted = record opened { session_id = id }
        if eqb_ℤ ret minus_one
            then some (w4, opened, minus_one)
            else if is_negative id
            then some (w4, mounted, minus_one)
            else some (w4, mounted, pos 0)

  unfoldable pub tfs_mount :
      Files W → ℕ → W → ClientState → List ℕ → List ℕ → Option (W × ClientState × ℤ)
  tfs_mount files n w c client_pipe_path server_pipe_path = do
    (w1, fd) ← connect files n w server_pipe_path
    let connected : ClientState = record c { fserv = fd }
    let (w2, size_written) = os.write_pipe w1 fd (mount_message client_pipe_path)
    if eqb_ℤ size_written minus_one
        then some (w2, connected, minus_one)
        else make_session files w2 connected client_pipe_path

  -- The pipes are closed one after the other; the session's number stays.
  unfoldable pub tfs_unmount : W → ClientState → W × ℤ
  tfs_unmount w c =
      let (w1, size_written) = os.write_pipe w c.fserv (unmount_message c.session_id) in
      let (w2, closed_server) = os.close_pipe w1 c.fserv in
      let (w3, closed_client) = os.close_pipe w2 c.fcli in
      if is_negative size_written
      then (w1, minus_one)
      else if not closed_server
      then (w2, minus_one)
      else if not closed_client
      then (w3, minus_one)
      else (w3, pos 0)

  -- A short write of the request is an error here, and only here.
  unfoldable pub tfs_open : W → ClientState → List ℕ → ℤ → Option (W × ℤ)
  tfs_open w c name flags =
      let message = open_message c.session_id name flags in
      let (w', size_written) = os.write_pipe w c.fserv message in
      if is_negative size_written
      then some (w', minus_one)
      else if ltb (pos_part size_written) (length message)
      then some (w', minus_one)
      else answer w' c

  unfoldable pub tfs_close : W → ClientState → ℤ → Option (W × ℤ)
  tfs_close w c fhandle = do
    (w', r) ← ask w c (close_message c.session_id fhandle)
    if is_negative r then some (w', minus_one) else some (w', pos 0)

  -- `len` bytes are awaited although the answer has four.
  unfoldable pub tfs_write : W → ClientState → ℤ → List ℕ → ℕ → Option (W × ℤ)
  tfs_write w c fhandle buffer len =
      let message = write_message c.session_id fhandle buffer len in
      let (w1, size_written) = os.write_pipe w c.fserv message in
      if is_negative size_written then some (w1, minus_one) else do
        (w2, bytes, ret) ← slait os w1 c.fcli len
        let written = atoi (stored bytes (zeros (len + 14)))
        if eqb_ℤ ret minus_one
            then some (w2, minus_one)
            else if is_negative written
            then some (w2, minus_one)
            else some (w2, written)

  -- The third result is what `slait` put into the caller's buffer. That the request could not be
  -- written is only printed.
  unfoldable pub tfs_read : W → ClientState → ℤ → ℕ → Option (W × ℤ × List ℕ)
  tfs_read w c fhandle len = do
    let (w1, size_written) = os.write_pipe w c.fserv (read_message c.session_id fhandle len)
    (w2, code, ret) ← slait os w1 c.fcli 4
    let read_code = atoi (take 4 (stored code (zeros 14)))
    if is_negative read_code then some (w2, minus_one, []) else do
      (w3, bytes, got) ← slait os w2 c.fcli (pos_part read_code)
      if eqb_ℤ got minus_one then some (w3, minus_one, bytes) else some (w3, read_code, bytes)

  unfoldable pub tfs_shutdown_after_all_closed : W → ClientState → Option (W × ℤ)
  tfs_shutdown_after_all_closed w c = do
    let (w1, size_written) = os.write_pipe w c.fserv (shutdown_message c.session_id)
    (w2, r) ← answer w1 c
    if is_negative r then some (w2, minus_one) else some (w2, pos 0)
