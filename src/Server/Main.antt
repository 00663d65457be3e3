-- ===== src/Server/Main.antt =====
-- tfs_server.c: one round of the loop of `main`.
use server_client.Common.{ℕ, Bool, not, ◌&&◌, List, if◌then◌else◌, ℤ, pos, minus_one, eqb_ℤ}
use server_client.Wire.OpCode
use server_client.Wire.Text.{atoi}
use server_client.Wire.Pipes.{Os, slait, stored, zeros}
use server_client.Server.{ServerState, Outcome, returned, exited, ◌>>=◌, await, buffer_size}
use server_client.Server.Handlers.{
  tfs_handle_mount, tfs_handle_unmount, tfs_handle_open, tfs_handle_close, tfs_handle_write,
  tfs_handle_read, tfs_handle_shutdown_after_all_close,
}

module _ {W : Type 0} (os : Os W) where
  -- The handler of an operation code; another code is only printed.
  unfoldable pub dispatch : ℕ → List ℕ → ℤ → W → ServerState → Outcome (W × ServerState)
  dispatch attempts garbage command w s =
      if eqb_ℤ command (pos OpCode.mount)
      then tfs_handle_mount os attempts w s
      else if eqb_ℤ command (pos OpCode.unmount)
      then tfs_handle_unmount os w s
      else if eqb_ℤ command (pos OpCode.open_file)
      then tfs_handle_open os w s
      else if eqb_ℤ command (pos OpCode.close_file)
      then tfs_handle_close os garbage w s
      else if eqb_ℤ command (pos OpCode.write_file)
      then tfs_handle_write os garbage w s
      else if eqb_ℤ command (pos OpCode.read_file)
      then tfs_handle_read os w s
      else if eqb_ℤ command (pos OpCode.shutdown)
      then tfs_handle_shutdown_after_all_close os w s
      else returned (w, s)

  -- `open_server` opens the server's pipe for reading; `bad_fd` says that `errno` is EBADF. To
  -- return from `main` ends the process.
  unfoldable pub serve :
      (W → W × ℤ) → Bool → ℕ → List ℕ → W → ServerState → Outcome (W × ServerState)
  unfolding dispatch
  serve open_server bad_fd attempts garbage w s = do
    (w1, bytes, n) ← await (slait os w s.fserv 1)
    let (w2, closed) = os.close_pipe w1 s.fserv
    let (w3, fd) = open_server w2
    let (w4, fd') = open_server w1
    if eqb_ℤ n (pos 0)
        then (if not closed
            then exited
            else if eqb_ℤ fd minus_one
            then exited
            else returned (w3, record s { fserv = fd }))
        else if eqb_ℤ n minus_one && bad_fd
        then returned (w4, record s { fserv = fd' })
        else if eqb_ℤ n minus_one
        then exited
        else dispatch attempts garbage (atoi (stored bytes (zeros buffer_size))) w1 s
