-- ===== src/Calls/Opening.antt =====
-- `tfs_open` and `tfs_close` of the client library against the server.
use server_client.Common.{
  ℕ, ◌+◌, ◌<◌, ◌≤◌, ◌≡◌, refl, ◌∙◌, ◌%◌, sym, subst, inl, inr, false, some, List, [], ◌∷◌, ◌++◌,
  arith, length, length-append, length-take, take, ==_self, ℤ, pos,
}
use server_client.Operations
use server_client.Operations.{Tfs, all_return_zero}
use server_client.Operations.Open.Handle.{IsHandle, tfs_open-IsHandle, tfs_close-result}
use server_client.Wire.Text.{int_field}
use server_client.Wire.Decimal.{length-int_field, append_nil}
use server_client.Wire.Pipes.{Os, slait_write}
use server_client.Client.{ClientState, tfs_open, tfs_close}
use server_client.Client.Messages.{open_message, close_message}
use server_client.Client.Answers.{IsAnswer, tfs_open-code, tfs_close-code}
use server_client.Server.{ServerState, returned, wake, increment_counter}
use server_client.Server.Asked.{open_request, close_request}
use server_client.Server.Threads.{
  World, carry_out, solve_request, tfs_thread_open, tfs_thread_close,
}
use server_client.Server.Delivery.{serve-open_message, serve-close_message}
use server_client.Calls.{Connection, pipe_buf, Attached, attended, asleep}
use server_client.Calls.Replies.{
  slait_write-answer, attended-request, Waiting, attended-Waiting, asleep-Attached,
}

IsHandle-IsAnswer : (z : ℤ) → IsHandle z → IsAnswer z
IsHandle-IsAnswer z (inl failed) = inl failed
IsHandle-IsAnswer z (inr (h, below, is)) = inr (h, omega arith, is)

module _ {W : Type 0} (client_os server_os : Os W) (to_server from_client to_client from_server : ℤ)
    (conn : Connection client_os server_os to_server from_client to_client from_server) where
  solve_request-open :
      (garbage : List ℕ) (w : W) (s : ServerState) (t : Tfs) (i : ℕ) (path : List ℕ) (flags : ℕ)
      → (s.sessions i).fhandler ≡ to_client
      → conn.Holds w [] []
      → let s1 = increment_counter (wake s i (open_request s i path flags)) in
        let done = Operations.tfs_open all_return_zero t path (pos flags) in
        (w' : W) × (t' : Tfs) × (solve_request server_os garbage all_return_zero [] w s1 t i
          ≡ returned (w', asleep s1 i, t'))
        × conn.Holds w' [] (int_field done.1)
        × (t' ≡ done.0)
  unfolding solve_request tfs_thread_open
  solve_request-open garbage w s t i path flags at holds =
      let done = Operations.tfs_open all_return_zero t path (pos flags) in
      let four = length-int_field done.1 in
      let (w', sent, holds') =
        slait_write-answer client_os server_os to_server from_client to_client from_server conn w []
          [] (int_field done.1) (omega arith) (omega arith) holds in
      let sent' : slait_write server_os w (s.sessions i).fhandler (int_field done.1)
          ≡ some (w', pos (length (int_field done.1))) =
        subst
          (λ fd.
            slait_write server_os w fd (int_field done.1)
            ≡ some (w', pos (length (int_field done.1))))
          (sym at) sent in
      (w', done.0, rw (==_self i, carry_out, ==_self i, sent') refl, holds', refl)

  solve_request-close :
      (garbage : List ℕ) (w : W) (s : ServerState) (t : Tfs) (i h : ℕ)
      → (s.sessions i).fhandler ≡ to_client
      → conn.Holds w [] []
      → let s1 = increment_counter (wake s i (close_request s i h)) in
        let done = Operations.tfs_close all_return_zero t (pos h) in
        (w' : W) × (t' : Tfs) × (solve_request server_os garbage all_return_zero [] w s1 t i
          ≡ returned (w', asleep s1 i, t'))
        × conn.Holds w' [] (int_field done.1)
        × (t' ≡ done.0)
  unfolding solve_request tfs_thread_close
  solve_request-close garbage w s t i h at holds =
      let done = Operations.tfs_close all_return_zero t (pos h) in
      let four = length-int_field done.1 in
      let (written, holds') = conn.reply w [] [] (int_field done.1) (omega arith) holds in
      (
        (server_os.write_pipe w to_client (int_field done.1)).0,
        done.0,
        rw (==_self i, carry_out, ==_self i, at) refl,
        holds',
        refl,
      )

  short-open_message :
      (i flags : ℕ) (name : List ℕ) → length (open_message (pos i) name (pos flags)) ≤ pipe_buf
  unfolding open_message
  short-open_message i flags name =
      let last : List ℕ = ((flags + b'0') % 256) ∷ [] in
      omega (
        arith,
        length-append (int_field (pos i)) (take 40 name ++ last),
        length-append (take 40 name) last,
        length-take 40 name,
        length-int_field (pos i),
      )

  short-close_message : (i h : ℕ) → length (close_message (pos i) (pos h)) ≤ pipe_buf
  unfolding close_message
  short-close_message i h = omega (
    arith,
    length-append (int_field (pos i)) (int_field (pos h)),
    length-int_field (pos i),
    length-int_field (pos h),
  )

  -- An open, with flags below 8 and a name in at least 40 bytes, that a client attached to the
  -- session `i < 10` asks for while both pipes are empty returns what the server's own `tfs_open`
  -- returns for the first 40 bytes of the name, with every pthread call returning 0. It
  -- leaves the server's tables as that call does, and both pipes are empty again.
  pub tfs_open-attended :
      (open_server : W → W × ℤ) (garbage : List ℕ) (w : W) (s : ServerState) (t : Tfs)
      (c : ClientState) (i : ℕ) (name : List ℕ) (flags : ℕ)
      → Attached from_client to_client to_server from_server s c i
      → 40 ≤ length name
      → flags < 8
      → conn.Holds w [] []
      → let done = Operations.tfs_open all_return_zero t (take 40 name) (pos flags) in
        (x : World W) × (tfs_open
            (attended client_os server_os open_server garbage i)
            (w, s, t)
            c
            name
            (pos flags)
          ≡ some (x, done.1))
        × (x.2 ≡ done.0)
        × conn.Holds x.0 [] []
        × Attached from_client to_client to_server from_server x.1 c i
  tfs_open-attended open_server garbage w s t c i name flags attached long small holds =
      let path = take 40 name in
      let s1 = increment_counter (wake s i (open_request s i path flags)) in
      let done = Operations.tfs_open all_return_zero t path (pos flags) in
      let (w2, t2, sent, holds2, same) =
        attended-request client_os server_os to_server from_client to_client from_server conn
          (λ t2. t2 ≡ done.0) open_server garbage w s s1 (asleep s1 i) t i
          (open_message (pos i) name (pos flags)) (int_field done.1)
          (short-open_message i flags name) holds
          (λ w0 holds0.
            serve-open_message server_os from_client (λ w l. conn.Holds w l [])
              (λ w' l rest. conn.take_request w' l rest []) open_server false 1 garbage w0 s i name
              flags [] attached.serves attached.in_table long small holds0)
          (λ w1. solve_request-open garbage w1 s t i path flags attached.answers) in
      let (x, e, (empty, same_s, same_t)) =
        tfs_open-code (attended client_os server_os open_server garbage i) from_server
          (Waiting client_os server_os to_server from_client to_client from_server conn
            (asleep s1 i) t2)
          (attended-Waiting client_os server_os to_server from_client to_client from_server conn
            open_server garbage i (asleep s1 i) t2)
          (w, s, t) (w2, asleep s1 i, t2) c name (pos flags) done.1 [] attached.hears
          (IsHandle-IsAnswer done.1 (tfs_open-IsHandle t path (pos flags)))
          (rw (attached.asks, attached.session) sent)
          (subst (conn.Holds w2 []) (sym (append_nil (int_field done.1))) holds2, refl, refl) in
      (
        x,
        e,
        same_t ∙ same,
        empty,
        asleep-Attached from_client to_client to_server from_server s x.1 c i
            (open_request s i path flags) attached same_s,
      )

  -- A close of a handle below 1000 that a client attached to the session `i < 10` asks for while
  -- both pipes are empty returns what the server's own `tfs_close` returns, with every pthread call
  -- returning 0. It leaves the server's tables as that call does, and both pipes are empty again.
  pub tfs_close-attended :
      (open_server : W → W × ℤ) (garbage : List ℕ) (w : W) (s : ServerState) (t : Tfs)
      (c : ClientState) (i h : ℕ)
      → Attached from_client to_client to_server from_server s c i
      → h < 1000
      → conn.Holds w [] []
      → let done = Operations.tfs_close all_return_zero t (pos h) in
        (x : World W) × (tfs_close
            (attended client_os server_os open_server garbage i)
            (w, s, t)
            c
            (pos h)
          ≡ some (x, done.1))
        × (x.2 ≡ done.0)
        × conn.Holds x.0 [] []
        × Attached from_client to_client to_server from_server x.1 c i
  tfs_close-attended open_server garbage w s t c i h attached small holds =
      let s1 = increment_counter (wake s i (close_request s i h)) in
      let done = Operations.tfs_close all_return_zero t (pos h) in
      let message = close_message (pos i) (pos h) in
      let (w2, t2, sent, holds2, same) =
        attended-request client_os server_os to_server from_client to_client from_server conn
          (λ t2. t2 ≡ done.0) open_server garbage w s s1 (asleep s1 i) t i message
          (int_field done.1) (short-close_message i h) holds
          (λ w0 holds0.
            serve-close_message server_os from_client (λ w l. conn.Holds w l [])
              (λ w' l rest. conn.take_request w' l rest []) open_server false 1 garbage w0 s i h []
              attached.serves attached.in_table small holds0)
          (λ w1. solve_request-close garbage w1 s t i h attached.answers) in
      let (x, e, (empty, same_s, same_t)) =
        tfs_close-code (attended client_os server_os open_server garbage i) from_server
          (Waiting client_os server_os to_server from_client to_client from_server conn
            (asleep s1 i) t2)
          (attended-Waiting client_os server_os to_server from_client to_client from_server conn
            open_server garbage i (asleep s1 i) t2)
          (w, s, t) (w2, asleep s1 i, t2) c (pos h) done.1 (length message) [] attached.hears
          (tfs_close-result t (pos h)) (rw (attached.asks, attached.session) sent)
          (subst (conn.Holds w2 []) (sym (append_nil (int_field done.1))) holds2, refl, refl) in
      (
        x,
        e,
        same_t ∙ same,
        empty,
        asleep-Attached from_client to_client to_server from_server s x.1 c i (close_request s i h)
            attached same_s,
      )
