-- ===== src/Calls.antt =====
-- A call of the client as a whole: its request through the server's pipe, the round of the main
-- thread that takes it, the round of the slave that carries it out, and the answer through the
-- client's pipe. tecnicofs_ex2/client/tecnicofs_client_api.c meets tecnicofs_ex2/fs/tfs_server.c.
pub mod Replies
pub mod Reading
pub mod Opening
pub mod Writing
pub mod Reload
pub mod Mounting
pub mod Unmounting
use server_client.Common.{
  ℕ, ◌+◌, ◌<◌, ◌≤◌, ◌≡◌, Bool, false, List, [], ◌++◌, length, update, ℤ, pos,
}
use server_client.Client.{ClientState}
use server_client.Operations.{Tfs, Pthread, all_return_zero}
use server_client.Wire.Pipes.{Os, ReadResult, got}
use server_client.Server.{ServerState, Outcome, returned, exited, stuck, undefined, ◌>>=◌}
use server_client.Server.Threads.{World, solve_request}
use server_client.Server.Main.{serve}

-- `write` of at most PIPE_BUF bytes to a pipe with room is not cut short.
abbrev pub pipe_buf : ℕ
pipe_buf = 4096

-- The server's pipe and one client's, seen from either process: `Holds w requests answers` says
-- which bytes are in them.
pub record Connection {W : Type 0} (client_os server_os : Os W)
    (to_server from_client to_client from_server : ℤ) : Type 1 where
  pub Holds : W → List ℕ → List ℕ → Type 0
  pub request :
      (w : W) (requests answers bytes : List ℕ)
      → length bytes ≤ pipe_buf
      → Holds w requests answers
      → ((client_os.write_pipe w to_server bytes).1 ≡ pos (length bytes))
        × Holds (client_os.write_pipe w to_server bytes).0 (requests ++ bytes) answers
  pub take_request :
      (w : W) (bytes requests answers : List ℕ)
      → Holds w (bytes ++ requests) answers
      → ((server_os.read_pipe w from_client (length bytes)).1 ≡ got bytes)
        × Holds (server_os.read_pipe w from_client (length bytes)).0 requests answers
  pub reply :
      (w : W) (requests answers bytes : List ℕ)
      → length bytes ≤ pipe_buf
      → Holds w requests answers
      → ((server_os.write_pipe w to_client bytes).1 ≡ pos (length bytes))
        × Holds (server_os.write_pipe w to_client bytes).0 requests (answers ++ bytes)
  pub take_reply :
      (w : W) (requests bytes answers : List ℕ)
      → Holds w requests (bytes ++ answers)
      → ((client_os.read_pipe w from_server (length bytes)).1 ≡ got bytes)
        × Holds (client_os.read_pipe w from_server (length bytes)).0 requests answers

-- What the server does with one request: a round of the main thread and one of the slave `i`.
abbrev pub handle_one : {W : Type 0} → Os W → (W → W × ℤ) → List ℕ → ℕ → World W → Outcome (World W)
handle_one os open_server garbage i (w, s, t) = do
  (w1, s1) ← serve os open_server false 1 garbage w s
  solve_request os garbage all_return_zero [] w1 s1 t i

-- The configuration after a step that returned, else the one before.
abbrev pub after_step {ℓ} : {A : Type ℓ} → Outcome A → A → A
after_step (returned a) before = a
after_step exited before = before
after_step stuck before = before
after_step undefined before = before

-- The system calls of a client whose server runs while it waits: a request that is written is
-- handled before the next read of the client.
abbrev pub attended : {W : Type 0} → Os W → Os W → (W → W × ℤ) → List ℕ → ℕ → Os (World W)
attended client_os server_os open_server garbage i = record {
  read_pipe = λ c fd n. let (w, result) = client_os.read_pipe c.0 fd n in ((w, c.1, c.2), result);
  write_pipe = λ c fd bytes.
      let (w, written) = client_os.write_pipe c.0 fd bytes in
      let sent : World _ = (w, c.1, c.2) in
      (after_step (handle_one server_os open_server garbage i sent) sent, written);
  open_pipe = λ c name. let (w, fd) = client_os.open_pipe c.0 name in ((w, c.1, c.2), fd);
  close_pipe = λ c fd. let (w, closed) = client_os.close_pipe c.0 fd in ((w, c.1, c.2), closed);
}

-- A client whose session is `i`, and a server that has its pipe in that session.
pub record Attached (from_client to_client to_server from_server : ℤ) (s : ServerState)
    (c : ClientState) (i : ℕ) : Type 0 where
  pub in_table : i < 10
  pub session : c.session_id ≡ pos i
  pub asks : c.fserv ≡ to_server
  pub hears : c.fcli ≡ from_server
  pub serves : s.fserv ≡ from_client
  pub answers : (s.sessions i).fhandler ≡ to_client

-- The slave `i` has taken its request.
abbrev pub asleep : ServerState → ℕ → ServerState
asleep s i = record s { slaves = update s.slaves i (record (s.slaves i) { wake_up = false }) }
