-- ===== src/Calls/Mounting.antt =====
-- `tfs_mount` of the client library against the server: the order in which the two meet, and how the
-- server is left.
pub mod Joined
pub mod Whole
use server_client.Common.{
  ℕ, zero, suc, ◌+◌, ◌≤◌, ◌<◌, ◌≡◌, refl, ap, sym, ◌∙◌, subst, Bool, true, false, some, List, [],
  ◌∷◌, ◌++◌, arith, length, length-take, take, drop, update, increment, ==_self, lt→ltb, le→ltb, ℤ,
  pos, minus_one, eqb_ℤ, is_negative,
}
use server_client.Memory.{c_string}
use server_client.Operations.{Tfs, all_return_zero}
use server_client.Wire.OpCode
use server_client.Wire.Text.{int_field, atoi}
use server_client.Wire.Decimal.{length-int_field, append_nil, atoi-int_field}
use server_client.Wire.Pipes.{Os, got, slait_write, slait_open, stored, zeros}
use server_client.Wire.Stream.{slait-Holds}
use server_client.Client.{ClientState, Files, tfs_mount, connect, make_session}
use server_client.Client.Messages.{mount_message}
use server_client.Server.{ServerState, Request, Session, returned, taken_pos, wake}
use server_client.Server.Sessions.{find_free_pos}
use server_client.Server.Handlers.{start_session, tfs_handle_mount}
use server_client.Server.Threads.{World, solve_request, tfs_thread_mount}
use server_client.Server.Delivery.{serve-Holds}
use server_client.Server.Main.{serve, dispatch}
use server_client.Calls.{Connection, pipe_buf, Attached, handle_one, after_step, asleep}
use server_client.Calls.Replies.{slait_write-answer}

-- The system calls of a client whose requests wait.
abbrev pub waiting_os : {W : Type 0} → Os W → Os (World W)
waiting_os client_os = record {
  read_pipe = λ x fd n. let (w, result) = client_os.read_pipe x.0 fd n in ((w, x.1, x.2), result);
  write_pipe = λ x fd bytes.
      let (w, written) = client_os.write_pipe x.0 fd bytes in ((w, x.1, x.2), written);
  open_pipe = λ x name. let (w, fd) = client_os.open_pipe x.0 name in ((w, x.1, x.2), fd);
  close_pipe = λ x fd. let (w, closed) = client_os.close_pipe x.0 fd in ((w, x.1, x.2), closed);
}

-- The server handles the request when the client has opened its own pipe.
abbrev pub attended_files :
    {W : Type 0} → Os W → Files W → (W → W × ℤ) → List ℕ → ℕ → Files (World W)
attended_files server_os files open_server garbage i = record {
  open_server = λ x path. let (w, fd) = files.open_server x.0 path in ((w, x.1, x.2), fd);
  unlink_pipe =
      λ x path. let (w, unlinked) = files.unlink_pipe x.0 path in ((w, x.1, x.2), unlinked);
  make_pipe = λ x path. let (w, made) = files.make_pipe x.0 path in ((w, x.1, x.2), made);
  open_client = λ x path.
      let (w, fd) = files.open_client x.0 path in
      let opened : World _ = (w, x.1, x.2) in
      (after_step (handle_one server_os open_server garbage i opened) opened, fd);
}

-- The server after a mount that gets the position `k`.
abbrev pub begun_session : ServerState → ℕ → ℤ → ServerState
begun_session s k to_client =
    let placed : ServerState = record s { free_sessions = update s.free_sessions k taken_pos } in
    let old : Request = (s.slaves k).request in
    let woken : ServerState =
      wake placed k (record old { op_code = pos OpCode.mount; fcli = to_client }) in
    record woken { open_sessions = increment s.open_sessions }

-- The slave `k` has told the client its number.
abbrev pub joined : ServerState → ℕ → ℤ → ServerState
joined s k to_client = record s {
  sessions = update s.sessions k (record {
    session_id = pos k;
    name = stored (c_string (s.slaves k).request.name) (zeros 40);
    fhandler = to_client;
  });
}

-- Server and client find each other's pipes under these two paths, and no byte is lost meanwhile. An
-- `open` depends on the text of the path, up to its first zero.
pub record Rendezvous {W : Type 0} (client_os server_os : Os W)
    (to_server from_client to_client from_server : ℤ)
    (conn : Connection client_os server_os to_server from_client to_client from_server)
    (files : Files W) (path server_path : List ℕ) : Type 0 where
  pub server_found : is_negative to_server ≡ false
  pub client_found : is_negative from_server ≡ false
  pub client_reached : eqb_ℤ to_client minus_one ≡ false
  pub finds :
      (w : W) (requests answers : List ℕ)
      → conn.Holds w requests answers
      → ((files.open_server w server_path).1 ≡ to_server)
        × conn.Holds (files.open_server w server_path).0 requests answers
  pub unlinks :
      (w : W) (requests answers : List ℕ)
      → conn.Holds w requests answers
      → ((files.unlink_pipe w path).1 ≡ true)
        × conn.Holds (files.unlink_pipe w path).0 requests answers
  pub makes :
      (w : W) (requests answers : List ℕ)
      → conn.Holds w requests answers
      → ((files.make_pipe w path).1 ≡ true) × conn.Holds (files.make_pipe w path).0 requests answers
  pub opens :
      (w : W) (requests answers : List ℕ)
      → conn.Holds w requests answers
      → ((files.open_client w path).1 ≡ from_server)
        × conn.Holds (files.open_client w path).0 requests answers
  pub reaches :
      (w : W) (name requests answers : List ℕ)
      → c_string name ≡ c_string path
      → conn.Holds w requests answers
      → ((server_os.open_pipe w name).1 ≡ to_client)
        × conn.Holds (server_os.open_pipe w name).0 requests answers
