-- ===== src/Calls/Mounting/Joined.antt =====
-- The main thread and the slave that carry out a mount.
use server_client.Common.{
  ℕ, ◌≤◌, ◌<◌, ◌≡◌, refl, ap, ◌∙◌, true, false, List, [], ◌++◌, arith, length, length-take, take,
  drop, update, ==_self, lt→ltb, le→ltb, ℤ, pos, minus_one, eqb_ℤ,
}
use server_client.Memory.{c_string}
use server_client.Operations.{Tfs, all_return_zero}
use server_client.Wire.OpCode
use server_client.Wire.Text.{int_field}
use server_client.Wire.Decimal.{length-int_field, append_nil}
use server_client.Wire.Pipes.{Os, got, slait_open, stored, zeros}
use server_client.Wire.Stream.{slait-Holds}
use server_client.Client.Messages.{mount_message}
use server_client.Server.{ServerState, returned, taken_pos}
use server_client.Server.Sessions.{find_free_pos}
use server_client.Server.Handlers.{start_session, tfs_handle_mount}
use server_client.Server.Threads.{solve_request, tfs_thread_mount}
use server_client.Server.Delivery.{serve-Holds}
use server_client.Server.Main.{serve, dispatch}
use server_client.Calls.{Connection, asleep}
use server_client.Calls.Replies.{slait_write-answer}
use server_client.Calls.Mounting.{begun_session, joined}

module _ {W : Type 0} (server_os : Os W) (fd : ℤ) (Holds : W → List ℕ → Type 0)
    (pipe : (w : W) (bytes rest : List ℕ)
      → Holds w (bytes ++ rest)
      → ((server_os.read_pipe w fd (length bytes)).1 ≡ got bytes)
        × Holds (server_os.read_pipe w fd (length bytes)).0 rest)
    (to_client : ℤ) (valid : eqb_ℤ to_client minus_one ≡ false) (place : List ℕ)
    (opens : (w : W) (name bytes : List ℕ)
      → c_string name ≡ c_string place
      → Holds w bytes
      → ((server_os.open_pipe w name).1 ≡ to_client)
        × Holds (server_os.open_pipe w name).0 bytes) where
  start_session-begun :
      (w : W) (s : ServerState) (k : ℕ)
      → k < 10
      → s.global_locked ≡ false
      → find_free_pos s
        ≡ returned (record s { free_sessions = update s.free_sessions k taken_pos }, pos k)
      → start_session server_os w s to_client ≡ returned (w, begun_session s k to_client)
  unfolding start_session
  start_session-begun w s k below unlocked found = rw (found, lt→ltb k 10 below, unlocked) refl

  tfs_handle_mount-begun :
      (w : W) (s : ServerState) (path : List ℕ) (k : ℕ) (rest : List ℕ)
      → s.fserv ≡ fd
      → length path ≡ 40
      → c_string path ≡ c_string place
      → k < 10
      → s.global_locked ≡ false
      → eqb_ℤ s.open_sessions (pos 10) ≡ false
      → find_free_pos s
        ≡ returned (record s { free_sessions = update s.free_sessions k taken_pos }, pos k)
      → Holds w (path ++ rest)
      → (w' : W) × (tfs_handle_mount server_os 1 w s ≡ returned (w', begun_session s k to_client))
        × Holds w' rest
  unfolding tfs_handle_mount slait_open
  tfs_handle_mount-begun w s path k rest at forty same below unlocked room found holds =
      let (w1, e1, holds1) =
        slait-Holds server_os fd Holds pipe w s.fserv 40 path rest at forty holds in
      let name = stored path (zeros 40) in
      let whole : name ≡ path = ap (λ n. path ++ drop n (zeros 40)) forty ∙ append_nil path in
      let (e2, holds2) = opens w1 name rest (ap c_string whole ∙ same) holds1 in
      let w2 = (server_os.open_pipe w1 name).0 in
      let fits = le→ltb 40 (length path) (omega arith) in
      (w2, rw (e1, fits, e2, valid, room) (start_session-begun w2 s k below unlocked found), holds2)

  -- The main thread takes a whole mount, opens the pipe that the message names and wakes the slave of the position.
  pub serve-mount_message :
      (open_server : W → W × ℤ) (garbage : List ℕ) (w : W) (s : ServerState) (path : List ℕ) (k : ℕ)
      (rest : List ℕ)
      → s.fserv ≡ fd
      → 40 ≤ length path
      → c_string (take 40 path) ≡ c_string place
      → k < 10
      → s.global_locked ≡ false
      → eqb_ℤ s.open_sessions (pos 10) ≡ false
      → find_free_pos s
        ≡ returned (record s { free_sessions = update s.free_sessions k taken_pos }, pos k)
      → Holds w (mount_message path ++ rest)
      → (w' : W) × (serve server_os open_server false 1 garbage w s
          ≡ returned (w', begun_session s k to_client))
        × Holds w' rest
  unfolding mount_message dispatch
  serve-mount_message open_server garbage w s path k rest at long same below unlocked room found
        holds =
      let forty : length (take 40 path) ≡ 40 = length-take 40 path ∙ omega arith in
      let (w1, e1, holds1) =
        serve-Holds server_os fd Holds pipe open_server false 1 garbage w s 1 (take 40 path ++ rest)
          at (omega arith) holds in
      let (w2, e2, holds2) =
        tfs_handle_mount-begun w1 s (take 40 path) k rest at forty same below unlocked room found
          holds1 in
      (w2, e1 ∙ e2, holds2)

module _ {W : Type 0} (client_os server_os : Os W) (to_server from_client to_client from_server : ℤ)
    (conn : Connection client_os server_os to_server from_client to_client from_server) where
  pub solve_request-joined :
      (garbage : List ℕ) (w : W) (s : ServerState) (t : Tfs) (k : ℕ)
      → (s.slaves k).wake_up ≡ true
      → (s.slaves k).request.op_code ≡ pos OpCode.mount
      → (s.slaves k).request.fcli ≡ to_client
      → (s.slaves k).session_id ≡ pos k
      → s.global_locked ≡ false
      → conn.Holds w [] []
      → (w' : W) × (solve_request server_os garbage all_return_zero [] w s t k
          ≡ returned (w', joined (asleep s k) k to_client, t))
        × conn.Holds w' [] (int_field (pos k))
  unfolding solve_request tfs_thread_mount
  solve_request-joined garbage w s t k woken asked fcli number unlocked holds =
      let four = length-int_field (pos k) in
      let (w', sent, holds') =
        slait_write-answer client_os server_os to_server from_client to_client from_server conn w []
          [] (int_field (pos k)) (omega arith) (omega arith) holds in
      (w', rw (woken, ==_self k, asked, unlocked, ==_self k, fcli, number, sent) refl, holds')
