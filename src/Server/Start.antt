-- ===== src/Server/Start.antt =====
-- tfs_server.c: `main` up to its loop.
use server_client.Common.{
  ℕ, zero, suc, Bool, not, Option, none, some, if◌then◌else◌, ℤ, minus_one, eqb_ℤ, is_negative,
}
use server_client.Operations.{Tfs, tfs_init}
use server_client.Server.{ServerState, Outcome, returned, exited, ◌>>=◌, await}
use server_client.Server.Sessions.{server_init}
use server_client.Server.Threads.{World}

-- What `main` asks the system for before it serves: `unlink` (`true` also for ENOENT), `mkfifo`,
-- `signal` for SIGPIPE and for SIGINT, and the `open` of the server's pipe for reading.
pub record Boot (W : Type 0) : Type 0 where
  pub unlink_pipe : W → W × Bool
  pub make_pipe : W → W × Bool
  pub ignore_sigpipe : W → W × Bool
  pub catch_sigint : W → W × Bool
  pub open_server : W → W × ℤ

module _ {W : Type 0} (boot : Boot W) where
  -- `while (1) if ((fserv = open(...)) >= 0) break`, `n` times.
  unfoldable pub open_until : ℕ → W → Option (W × ℤ)
  open_until zero w = none
  open_until (suc n) w =
      let (w', fd) = boot.open_server w in
      let again = open_until n w' in if is_negative fd then again else some (w', fd)

  -- `named` says that there is an argument. What `server_init` returns is only printed. A SIGINT
  -- that is not caught ends the process.
  unfoldable pub set_up : ℕ → Bool → W → ServerState → Tfs → Outcome (World W)
  set_up attempts named w s t =
      let (s', started) = server_init s in
      let (w1, unlinked) = boot.unlink_pipe w in
      let (w2, made) = boot.make_pipe w1 in
      let (w3, ignored) = boot.ignore_sigpipe w2 in
      let (w4, caught) = boot.catch_sigint w3 in
      let (t', r) = tfs_init t in
      if not named
      then exited
      else if not unlinked
      then exited
      else if not made
      then exited
      else if not ignored
      then exited
      else if not caught
      then exited
      else if eqb_ℤ r minus_one
      then exited
      else (do
        (w5, fd) ← await (open_until attempts w4)
        returned (w5, record s' { fserv = fd }, t'))
