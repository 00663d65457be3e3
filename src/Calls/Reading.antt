-- ===== src/Calls/Reading.antt =====
-- `tfs_read` of the client library against the server.
use server_client.Common.{
  ℕ, ◌-◌, ◌<◌, ◌≤◌, ltb, ◌≡◌, refl, ap, ◌∙◌, sym, subst, true, false, some, List, [], ◌++◌, arith,
  length, length-append, length-take, length-drop, take, drop, ==_self, ℤ, pos,
}
use server_client.State.Invariant.{Inv}
use server_client.Operations
use server_client.Operations.{Tfs, all_return_zero}
use server_client.Operations.Read.{readable, Advanced, tfs_read-contents}
use server_client.Operations.Transfer.Write.{contents, offset_of}
use server_client.Operations.Transfer.Effect.{file_of, IsOpenAt, contents-length}
use server_client.Wire.OpCode
use server_client.Wire.Text.{int_field}
use server_client.Wire.Decimal.{length-int_field, append_nil}
use server_client.Wire.Pipes.{Os, slait_write}
use server_client.Client.{ClientState, tfs_read}
use server_client.Client.Messages.{read_message}
use server_client.Client.Answers.{tfs_read-answer}
use server_client.Server.{ServerState, returned, wake, increment_counter}
use server_client.Server.Asked.{read_request}
use server_client.Server.Threads.{World, solve_request, tfs_thread_read}
use server_client.Server.Transfers.{serve-read_message}
use server_client.Calls.{Connection, pipe_buf, Attached, attended, asleep}
use server_client.Calls.Replies.{
  slait_write-answer, attended-request, Waiting, attended-Waiting, asleep-Attached,
}

module _ {W : Type 0} (client_os server_os : Os W) (to_server from_client to_client from_server : ℤ)
    (conn : Connection client_os server_os to_server from_client to_client from_server) where
  tfs_thread_read-answered :
      (garbage : List ℕ) (w w' : W) (s : ServerState) (t t' : Tfs) (i h len n : ℕ) (bytes : List ℕ)
      (r : ℤ)
      → (s.slaves i).request.fhandler ≡ pos h
      → (s.slaves i).request.len ≡ len
      → len < 1000
      → Operations.tfs_read all_return_zero t (pos h) len ≡ some (t', pos n, bytes)
      → slait_write server_os w (s.sessions i).fhandler (int_field (pos n) ++ bytes) ≡ some (w', r)
      → tfs_thread_read server_os garbage all_return_zero w s t i ≡ returned (w', s, t')
  unfolding tfs_thread_read
  tfs_thread_read-answered garbage w w' s t t' i h len n bytes r handle size short e sent =
      let fits : ltb 9223372036854775807 len ≡ false = ground arith in
      rw (handle, size, fits, e, sent) refl

  solve_request-read :
      (garbage : List ℕ) (w : W) (s : ServerState) (t : Tfs) (i : ℕ)
      → (s.slaves i).wake_up ≡ true
      → (s.slaves i).request.op_code ≡ pos OpCode.read_file
      → solve_request server_os garbage all_return_zero [] w s t i
        ≡ tfs_thread_read server_os garbage all_return_zero w (asleep s i) t i
  unfolding solve_request
  solve_request-read garbage w s t i woken asked = rw (woken, ==_self i, asked) refl

  solve_request-found :
      (garbage : List ℕ) (w : W) (s : ServerState) (t t' : Tfs) (i h len n : ℕ) (bytes : List ℕ)
      → (s.sessions i).fhandler ≡ to_client
      → len < 1000
      → Operations.tfs_read all_return_zero t (pos h) len ≡ some (t', pos n, bytes)
      → length bytes < 1000
      → conn.Holds w [] []
      → let s1 = increment_counter (wake s i (read_request s i h len)) in
        (w' : W) × (t2 : Tfs) × (solve_request server_os garbage all_return_zero [] w s1 t i
          ≡ returned (w', asleep s1 i, t2))
        × conn.Holds w' [] (int_field (pos n) ++ bytes)
        × (t2 ≡ t')
  solve_request-found garbage w s t t' i h len n bytes at short e small holds =
      let s1 = increment_counter (wake s i (read_request s i h len)) in
      let reply = int_field (pos n) ++ bytes in
      let long = length-append (int_field (pos n)) bytes in
      let four = length-int_field (pos n) in
      let (w', sent, holds') =
        slait_write-answer client_os server_os to_server from_client to_client from_server conn w []
          [] reply (omega arith) (omega arith) holds in
      let sent' =
        subst (λ fd. slait_write server_os w fd reply ≡ some (w', pos (length reply))) (sym at)
          sent in
      let answered =
        tfs_thread_read-answered garbage w w' (asleep s1 i) t t' i h len n bytes
          (pos (length reply)) (rw (==_self i) refl) (rw (==_self i) refl) short e sent' in
      (
        w',
        t',
        solve_request-read garbage w s1 t i (rw (==_self i) refl) (rw (==_self i) refl) ∙ answered,
        holds',
        refl,
      )

  short-read_message : (i h len : ℕ) → length (read_message (pos i) (pos h) len) ≤ pipe_buf
  unfolding read_message
  short-read_message i h len = omega (
    arith,
    length-append (int_field (pos i)) (int_field (pos h) ++ int_field (pos len)),
    length-append (int_field (pos h)) (int_field (pos len)),
    length-int_field (pos i),
    length-int_field (pos h),
    length-int_field (pos len),
  )

  -- Where the server's own `tfs_read`, with every pthread call returning 0, returns as many bytes
  -- as it says, fewer than 1000, so does a read that a client attached to the session `i < 10` asks
  -- for while both pipes are empty, with a handle and a length below 1000. It leaves the server's
  -- tables as that call does, and both pipes are empty again.
  pub tfs_read-attended :
      (open_server : W → W × ℤ) (garbage : List ℕ) (w : W) (s : ServerState) (t t' : Tfs)
      (c : ClientState) (i h len n : ℕ) (bytes : List ℕ)
      → Attached from_client to_client to_server from_server s c i
      → h < 1000
      → len < 1000
      → Operations.tfs_read all_return_zero t (pos h) len ≡ some (t', pos n, bytes)
      → length bytes ≡ n
      → n < 1000
      → conn.Holds w [] []
      → (x : World W) × (tfs_read
            (attended client_os server_os open_server garbage i)
            (w, s, t)
            c
            (pos h)
            len
          ≡ some (x, pos n, bytes))
        × (x.2 ≡ t')
        × conn.Holds x.0 [] []
        × Attached from_client to_client to_server from_server x.1 c i
  tfs_read-attended open_server garbage w s t t' c i h len n bytes attached small short local whole
        few holds =
      let s1 = increment_counter (wake s i (read_request s i h len)) in
      let message = read_message (pos i) (pos h) len in
      let open_os = attended client_os server_os open_server garbage i in
      let (w2, t2, sent, holds2, same) =
        attended-request client_os server_os to_server from_client to_client from_server conn
          (λ t2. t2 ≡ t') open_server garbage w s s1 (asleep s1 i) t i message
          (int_field (pos n) ++ bytes) (short-read_message i h len) holds
          (λ w0 holds0.
            serve-read_message server_os from_client (λ w l. conn.Holds w l [])
              (λ w' l rest. conn.take_request w' l rest []) open_server false 1 garbage w0 s i h len
              [] attached.serves attached.in_table small short holds0)
          (λ w1.
            solve_request-found garbage w1 s t t' i h len n bytes attached.answers short local
              (omega arith)) in
      let waiting =
        subst (λ k. conn.Holds w2 [] (int_field (pos k) ++ (bytes ++ []))) (sym whole)
          (subst (λ l. conn.Holds w2 [] (int_field (pos n) ++ l)) (sym (append_nil bytes))
            holds2) in
      let (x, e, (empty, same_s, same_t)) =
        tfs_read-answer open_os from_server
          (Waiting client_os server_os to_server from_client to_client from_server conn
            (asleep s1 i) t2)
          (attended-Waiting client_os server_os to_server from_client to_client from_server conn
            open_server garbage i (asleep s1 i) t2)
          (w, s, t) (w2, asleep s1 i, t2) c (pos h) (pos (length message)) len bytes []
          attached.hears (omega arith) (rw (attached.asks, attached.session) sent)
          (waiting, refl, refl) in
      (
        x,
        subst (λ k. tfs_read open_os (w, s, t) c (pos h) len ≡ some (x, pos k, bytes)) whole e,
        same_t ∙ same,
        empty,
        asleep-Attached from_client to_client to_server from_server s x.1 c i
            (read_request s i h len) attached same_s,
      )

  -- A read of fewer than 1000 bytes that a client attached to the session `i < 10` asks for while
  -- both pipes are empty, through a handle that the server has in use with its offset inside the
  -- file, where the server's tables are valid and every pthread call returns 0: it returns the
  -- bytes of the file from the offset on, as many as are left and at most the number asked for. The
  -- server's offset moves behind them, nothing else in the tables of the file system changes, and
  -- both pipes are empty again.
  pub tfs_read-served :
      (open_server : W → W × ℤ) (garbage : List ℕ) (w : W) (s : ServerState) (t : Tfs)
      (c : ClientState) (i h len : ℕ)
      → Attached from_client to_client to_server from_server s c i
      → Inv t.fs
      → IsOpenAt t.fs h
      → len < 1000
      → conn.Holds w [] []
      → let n = readable t.fs h len in
        let bytes = take n (drop (offset_of t.fs h) (contents t.fs (file_of t.fs h))) in
        (x : World W) × (tfs_read
            (attended client_os server_os open_server garbage i)
            (w, s, t)
            c
            (pos h)
            len
          ≡ some (x, pos n, bytes))
        × Advanced t.fs h n x.2.fs
        × conn.Holds x.0 [] []
        × Attached from_client to_client to_server from_server x.1 c i
  tfs_read-served open_server garbage w s t c i h len attached inv open_at short holds =
      let (r, local, advanced) = tfs_read-contents t h len inv open_at in
      let n = readable t.fs h len in
      let all = contents t.fs (file_of t.fs h) in
      let left =
        length-drop (offset_of t.fs h) all
        ∙ ap (λ k. k - offset_of t.fs h) (contents-length t.fs (file_of t.fs h)) in
      let whole : length (take n (drop (offset_of t.fs h) all)) ≡ n =
        length-take n (drop (offset_of t.fs h) all) ∙ omega arith in
      let (x, e, same, empty, attached') =
        tfs_read-attended open_server garbage w s t (record t { fs = r }) c i h len n
          (take n (drop (offset_of t.fs h) all)) attached (omega arith) short local whole
          (omega arith) holds in
      (x, e, subst (λ t'. Advanced t.fs h n t'.fs) (sym same) advanced, empty, attached')
