-- ===== src/Server/Errors.antt =====
-- tfs_server.c: `handle_error`, which nothing calls.
use server_client.Common.{ℕ, ℤ, pos, minus_one}
use server_client.Wire.Pipes.{Os, slait_open}
use server_client.Server.{ServerState, Outcome, returned, ◌>>=◌, await, slot}
use server_client.Server.Sessions.{erase_client}

-- The values of `errno` that are told apart.
pub data Errno : Type 0 where
  ebadf epipe enoent eintr other : Errno

-- `attempts` bounds the tries of `slait_open`.
unfoldable pub handle_error :
    {W : Type 0} → Os W → ℕ → Errno → W → ServerState → ℤ → Outcome (W × ServerState × ℤ)
handle_error os attempts ebadf w s session_id = do
  s' ← erase_client s session_id
  returned (w, s', minus_one)
handle_error os attempts epipe w s session_id = do
  s' ← erase_client s session_id
  returned (w, s', pos 0)
handle_error os attempts enoent w s session_id = do
  i ← slot session_id
  (w', fd) ← await (slait_open os attempts w (s.sessions i).name)
  returned (w', s, fd)
handle_error os attempts eintr w s session_id = do
  i ← slot session_id
  (w', fd) ← await (slait_open os attempts w (s.sessions i).name)
  returned (w', s, fd)
handle_error os attempts other w s session_id = returned (w, s, minus_one)
