-- ===== src/Calls/Unmounting.antt =====
-- `tfs_unmount` of the client library against the server.
use server_client.Common.{
  ℕ, ◌≤◌, ◌≡◌, refl, ◌≢◌, true, false, List, [], arith, length, update, decrement, ==_self, ◌==◌, ℤ,
  pos,
}
use server_client.Operations.{Tfs, all_return_zero}
use server_client.Wire.OpCode
use server_client.Wire.Decimal.{length-int_field}
use server_client.Wire.Pipes.{Os}
use server_client.Client.{ClientState, tfs_unmount}
use server_client.Client.Answers.{tfs_unmount-closed}
use server_client.Client.Messages.{unmount_message}
use server_client.Server.{ServerState, returned, free_pos, wake}
use server_client.Server.Sessions.{no_session}
use server_client.Server.Asked.{unmount_request}
use server_client.Server.Threads.{World, solve_request, tfs_thread_unmount}
use server_client.Server.Deadlock.{serve-unmount_message}
use server_client.Calls.{Connection, pipe_buf, Attached, attended, asleep}
use server_client.Calls.Replies.{attended-request}

-- The session `i` is over.
abbrev left : ServerState → ℕ → ServerState
left s i = record s {
  sessions = update s.sessions i no_session;
  free_sessions = update s.free_sessions i free_pos;
}

short-unmount_message : (i : ℕ) → length (unmount_message (pos i)) ≤ pipe_buf
unfolding unmount_message
short-unmount_message i = omega (arith, length-int_field (pos i))

-- Session `i` is free again and its slave sleeps, one session fewer is open, and the mutex, the
-- server's pipe, the counter and every other session, position and slave are as before.
abbrev pub IsFreed : ServerState → ServerState → ℕ → Type 0
IsFreed s s' i =
    (s'.free_sessions i ≡ free_pos)
    × (s'.sessions i ≡ no_session)
    × ((s'.slaves i).wake_up ≡ false)
    × (s'.open_sessions ≡ decrement s.open_sessions)
    × (s'.global_locked ≡ s.global_locked)
    × (s'.fserv ≡ s.fserv)
    × (s'.counter_operations ≡ s.counter_operations)
    × ((j : ℕ)
        → i ≢ j
        → (s'.sessions j ≡ s.sessions j)
          × (s'.free_sessions j ≡ s.free_sessions j)
          × (s'.slaves j ≡ s.slaves j))

module _ {W : Type 0} (client_os server_os : Os W) (to_server from_client to_client from_server : ℤ)
    (conn : Connection client_os server_os to_server from_client to_client from_server)
    (closes : (w : W) (requests answers : List ℕ)
      → conn.Holds w requests answers
      → ((server_os.close_pipe w to_client).1 ≡ true)
        × conn.Holds (server_os.close_pipe w to_client).0 requests answers) where
  solve_request-left :
      (garbage : List ℕ) (w : W) (s : ServerState) (t : Tfs) (i : ℕ)
      → (s.slaves i).wake_up ≡ true
      → (s.slaves i).request.op_code ≡ pos OpCode.unmount
      → (s.sessions i).fhandler ≡ to_client
      → s.global_locked ≡ false
      → conn.Holds w [] []
      → (w' : W) × (solve_request server_os garbage all_return_zero [] w s t i
          ≡ returned (w', left (asleep s i) i, t))
        × conn.Holds w' [] []
  unfolding solve_request tfs_thread_unmount
  solve_request-left garbage w s t i woken asked at unlocked holds =
      let (e, holds') = closes w [] [] holds in
      (
        (server_os.close_pipe w to_client).0,
        rw (woken, ==_self i, asked, at, e, unlocked) refl,
        holds',
      )

  -- An unmount that a client attached to the session `i < 10` asks for, while both pipes are empty,
  -- `open_sessions` is not 0, the server's mutex is free and every pipe can be closed, returns 0:
  -- the session `i` is free again and its slave sleeps, one session fewer is open, the mutex is free
  -- again, the server's pipe, the counter and every other session, position and slave are as before,
  -- and the file system is left alone.
  pub tfs_unmount-attended :
      ((w : W) (fd : ℤ) → (client_os.close_pipe w fd).1 ≡ true)
      → (open_server : W → W × ℤ) (garbage : List ℕ) (w : W) (s : ServerState) (t : Tfs)
        (c : ClientState) (i : ℕ)
      → Attached from_client to_client to_server from_server s c i
      → s.global_locked ≡ false
      → s.open_sessions ≢ pos 0
      → conn.Holds w [] []
      → (x : World W) × (tfs_unmount
            (attended client_os server_os open_server garbage i)
            (w, s, t)
            c
          ≡ (x, pos 0))
        × (x.2 ≡ t)
        × IsFreed s x.1 i
  tfs_unmount-attended shuts open_server garbage w s t c i attached unlocked some_open holds =
      let s1 : ServerState = record (wake s i (unmount_request s i)) {
        open_sessions = decrement s.open_sessions;
      } in
      let message = unmount_message (pos i) in
      let (w2, t2, sent, holds2, same) =
        attended-request client_os server_os to_server from_client to_client from_server conn
          (λ t2. t2 ≡ t) open_server garbage w s s1 (left (asleep s1 i) i) t i message []
          (short-unmount_message i) holds
          (λ w0 holds0.
            serve-unmount_message server_os from_client (λ w l. conn.Holds w l [])
              (λ w' l rest. conn.take_request w' l rest []) open_server false 1 garbage w0 s i []
              attached.serves attached.in_table unlocked some_open holds0)
          (λ w1 holds1.
            let (w', e, holds') =
              solve_request-left garbage w1 s1 t i (rw (==_self i) refl) (rw (==_self i) refl)
                attached.answers unlocked holds1 in
            (w', t, e, holds', refl)) in
      let whole =
        tfs_unmount-closed (attended client_os server_os open_server garbage i) (w, s, t)
          (w2, left (asleep s1 i) i, t2) c (length message)
          (rw (attached.asks, attached.session) sent) (λ x. shuts x.0) in
      let w3 = (client_os.close_pipe w2 c.fserv).0 in
      let w4 = (client_os.close_pipe w3 c.fcli).0 in
      (
        (w4, left (asleep s1 i) i, t2),
        whole,
        same,
        (
          rw (==_self i) refl,
          rw (==_self i) refl,
          rw (==_self i) refl,
          refl,
          refl,
          refl,
          refl,
          λ j ne.
              let other : (i == j) ≡ false = ground arith in
              (rw other refl, rw other refl, rw other refl),
        ),
      )
