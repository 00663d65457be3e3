-- ===== src/Calls/Writing.antt =====
-- `tfs_write` of the client library against the server, for at most four bytes: with more of them
-- the client waits for bytes that the server does not send.
use server_client.Common.{
  ℕ, suc, ◌<◌, ◌≤◌, ◌≡◌, refl, ◌∙◌, sym, subst, true, false, some, List, [], ◌++◌, arith, length,
  length-append, length-take, take, take-drop, drop, ==_self, ℤ, pos,
}
use server_client.State.Invariant.{Inv}
use server_client.Operations
use server_client.Operations.{Tfs, all_return_zero}
use server_client.Operations.Write.{writable, HasRoom, tfs_write-HasRoom}
use server_client.Operations.Transfer.Effect.{IsOpenAt, Overwrote}
use server_client.Wire.OpCode
use server_client.Wire.Text.{int_field}
use server_client.Wire.Decimal.{length-int_field}
use server_client.Wire.Pipes.{Os, slait_write}
use server_client.Client.{ClientState, tfs_write}
use server_client.Client.Messages.{write_message}
use server_client.Client.Answers.{tfs_write-cut}
use server_client.Server.{ServerState, returned, wake, increment_counter}
use server_client.Server.Asked.{write_request}
use server_client.Server.Threads.{World, solve_request, tfs_thread_write}
use server_client.Server.Transfers.{serve-write_message}
use server_client.Calls.{Connection, pipe_buf, Attached, attended, asleep}
use server_client.Calls.Replies.{
  slait_write-answer, attended-request, Waiting, attended-Waiting, asleep-Attached,
}

module _ {W : Type 0} (client_os server_os : Os W) (to_server from_client to_client from_server : ℤ)
    (conn : Connection client_os server_os to_server from_client to_client from_server) where
  tfs_thread_write-answered :
      (w w' : W) (s : ServerState) (t t' : Tfs) (i h len n : ℕ) (text : List ℕ) (r : ℤ)
      → (s.slaves i).request.fhandler ≡ pos h
      → (s.slaves i).request.len ≡ len
      → (s.slaves i).request.to_write ≡ text
      → Operations.tfs_write all_return_zero t (pos h) text len ≡ some (t', pos n)
      → slait_write server_os w (s.sessions i).fhandler (int_field (pos n)) ≡ some (w', r)
      → tfs_thread_write server_os all_return_zero w s t i ≡ returned (w', s, t')
  unfolding tfs_thread_write
  tfs_thread_write-answered w w' s t t' i h len n text r handle size bytes e sent =
      rw (handle, size, bytes, e, sent) refl

  solve_request-write :
      (garbage : List ℕ) (w : W) (s : ServerState) (t : Tfs) (i : ℕ)
      → (s.slaves i).wake_up ≡ true
      → (s.slaves i).request.op_code ≡ pos OpCode.write_file
      → solve_request server_os garbage all_return_zero [] w s t i
        ≡ tfs_thread_write server_os all_return_zero w (asleep s i) t i
  unfolding solve_request
  solve_request-write garbage w s t i woken asked = rw (woken, ==_self i, asked) refl

  solve_request-wrote :
      (garbage : List ℕ) (w : W) (s : ServerState) (t t' : Tfs) (i h len n : ℕ) (text : List ℕ)
      → (s.sessions i).fhandler ≡ to_client
      → Operations.tfs_write all_return_zero t (pos h) text len ≡ some (t', pos n)
      → conn.Holds w [] []
      → let s1 = increment_counter (wake s i (write_request s i h text len)) in
        (w' : W) × (t2 : Tfs) × (solve_request server_os garbage all_return_zero [] w s1 t i
          ≡ returned (w', asleep s1 i, t2))
        × conn.Holds w' [] (int_field (pos n))
        × (t2 ≡ t')
  solve_request-wrote garbage w s t t' i h len n text at e holds =
      let s1 = increment_counter (wake s i (write_request s i h text len)) in
      let four = length-int_field (pos n) in
      let reply = int_field (pos n) in
      let (w', sent, holds') =
        slait_write-answer client_os server_os to_server from_client to_client from_server conn w []
          [] reply (omega arith) (omega arith) holds in
      let sent' =
        subst (λ fd. slait_write server_os w fd reply ≡ some (w', pos (length reply))) (sym at)
          sent in
      let answered =
        tfs_thread_write-answered w w' (asleep s1 i) t t' i h len n text (pos (length reply))
          (rw (==_self i) refl) (rw (==_self i) refl) (rw (==_self i) refl) e sent' in
      (
        w',
        t',
        solve_request-write garbage w s1 t i (rw (==_self i) refl) (rw (==_self i) refl) ∙ answered,
        holds',
        refl,
      )

  short-write_message :
      (i h len : ℕ) (buffer : List ℕ)
      → len ≤ 100
      → length (write_message (pos i) (pos h) buffer len) ≤ pipe_buf
  unfolding write_message
  short-write_message i h len buffer few =
      let size = int_field (pos len) ++ take len buffer in
      omega (
        arith,
        length-append (int_field (pos i)) (int_field (pos h) ++ size),
        length-append (int_field (pos h)) size,
        length-append (int_field (pos len)) (take len buffer),
        length-take len buffer,
        length-int_field (pos i),
        length-int_field (pos h),
        length-int_field (pos len),
      )

  -- Where the server's own `tfs_write` of one to four bytes, with every pthread call returning 0,
  -- returns a digit, so does a write that a client attached to the session `i < 10` asks for while
  -- both pipes are empty, with a handle below 1000. It leaves the server's tables as that call
  -- does; of the answer the client takes as many bytes as it wrote.
  pub tfs_write-attended :
      (open_server : W → W × ℤ) (garbage : List ℕ) (w : W) (s : ServerState) (t t' : Tfs)
      (c : ClientState) (i h k n : ℕ) (buffer : List ℕ)
      → Attached from_client to_client to_server from_server s c i
      → h < 1000
      → k < 4
      → suc k ≤ length buffer
      → Operations.tfs_write all_return_zero t (pos h) (take (suc k) buffer) (suc k)
        ≡ some (t', pos n)
      → n < 10
      → conn.Holds w [] []
      → (x : World W) × (tfs_write
            (attended client_os server_os open_server garbage i)
            (w, s, t)
            c
            (pos h)
            buffer
            (suc k)
          ≡ some (x, pos n))
        × (x.2 ≡ t')
        × conn.Holds x.0 [] (drop (suc k) (int_field (pos n)))
        × Attached from_client to_client to_server from_server x.1 c i
  tfs_write-attended open_server garbage w s t t' c i h k n buffer attached below short enough local
        digit holds =
      let len : ℕ = suc k in
      let text = take len buffer in
      let s1 = increment_counter (wake s i (write_request s i h text len)) in
      let message = write_message (pos i) (pos h) buffer len in
      let field = int_field (pos n) in
      let (w2, t2, sent, holds2, same) =
        attended-request client_os server_os to_server from_client to_client from_server conn
          (λ t2. t2 ≡ t') open_server garbage w s s1 (asleep s1 i) t i message field
          (short-write_message i h len buffer (omega arith)) holds
          (λ w0 holds0.
            serve-write_message server_os from_client (λ w l. conn.Holds w l [])
              (λ w' l rest. conn.take_request w' l rest []) open_server false 1 garbage w0 s i h len
              buffer [] attached.serves attached.in_table below (omega arith) enough holds0)
          (λ w1. solve_request-wrote garbage w1 s t t' i h len n text attached.answers local) in
      let (x, e, (left, same_s, same_t)) =
        tfs_write-cut (attended client_os server_os open_server garbage i) from_server
          (Waiting client_os server_os to_server from_client to_client from_server conn
            (asleep s1 i) t2)
          (attended-Waiting client_os server_os to_server from_client to_client from_server conn
            open_server garbage i (asleep s1 i) t2)
          (w, s, t) (w2, asleep s1 i, t2) c (pos h) buffer k n (length message) (drop len field)
          attached.hears short digit (rw (attached.asks, attached.session) sent)
          (subst (conn.Holds w2 []) (sym (take-drop len field)) holds2, refl, refl) in
      (
        x,
        e,
        same_t ∙ same,
        left,
        asleep-Attached from_client to_client to_server from_server s x.1 c i
            (write_request s i h text len) attached same_s,
      )

  -- A write of one to four bytes that a client attached to the session `i < 10` asks for while both
  -- pipes are empty, through a handle that the server has in use with its offset inside the file,
  -- where the server's tables are valid, the file has a block or one is free, and every pthread
  -- call returns 0: the client returns the number of bytes that fit into the block, and these
  -- overwrite the server's file at the offset. Of the four bytes of the answer the client takes
  -- only as many as it wrote: the others stay in its pipe, in front of the next answer.
  pub tfs_write-served :
      (open_server : W → W × ℤ) (garbage : List ℕ) (w : W) (s : ServerState) (t : Tfs)
      (c : ClientState) (i h k : ℕ) (buffer : List ℕ)
      → Attached from_client to_client to_server from_server s c i
      → Inv t.fs
      → IsOpenAt t.fs h
      → HasRoom t.fs h
      → k < 4
      → suc k ≤ length buffer
      → conn.Holds w [] []
      → let n = writable t.fs h (suc k) in
        (x : World W) × (tfs_write
            (attended client_os server_os open_server garbage i)
            (w, s, t)
            c
            (pos h)
            buffer
            (suc k)
          ≡ some (x, pos n))
        × Inv x.2.fs
        × Overwrote t.fs h n (take (suc k) buffer) x.2.fs
        × conn.Holds x.0 [] (drop (suc k) (int_field (pos n)))
        × Attached from_client to_client to_server from_server x.1 c i
  tfs_write-served open_server garbage w s t c i h k buffer attached inv open_at room short enough
        holds =
      let text = take (suc k) buffer in
      let n = writable t.fs h (suc k) in
      let (r, local, inv', done, frame) =
        tfs_write-HasRoom t h text (suc k) inv open_at room (omega arith)
          (omega (arith, length-take (suc k) buffer)) in
      let (x, e, same, left, attached') =
        tfs_write-attended open_server garbage w s t (record t { fs = r }) c i h k n buffer attached
          (omega arith) short enough local (omega arith) holds in
      let After : Tfs → Type 0 = λ t'. Inv t'.fs × Overwrote t.fs h n text t'.fs in
      let (inv2, done2) : After x.2 = subst After (sym same) (inv', done) in
      (x, e, inv2, done2, left, attached')
