-- ===== src/Calls/Replies.antt =====
-- What both ends make of the bytes that the other one writes.
use server_client.Common.{
  ℕ, ◌+◌, ◌<◌, ◌≤◌, ◌≡◌, refl, ap, ◌∙◌, sym, subst, false, true, some, List, [], ◌++◌, arith,
  length, ◌==◌, leb, ℤ, pos,
}
use server_client.Wire.Pipes.{Os, got, slait_write, slait_write_from}
use server_client.Wire.Decimal.{append_nil}
use server_client.Client.{ClientState}
use server_client.Operations.{Tfs, all_return_zero}
use server_client.Server.{ServerState, Request, returned, wake, increment_counter}
use server_client.Server.Threads.{World, solve_request}
use server_client.Server.Main.{serve}
use server_client.Calls.{Connection, Attached, pipe_buf, attended, asleep}

module _ {W : Type 0} (client_os server_os : Os W) (to_server from_client to_client from_server : ℤ)
    (conn : Connection client_os server_os to_server from_client to_client from_server) where
  -- An answer is written by the first `write`.
  pub slait_write-answer :
      (w : W) (requests answers bytes : List ℕ)
      → 0 < length bytes
      → length bytes ≤ pipe_buf
      → conn.Holds w requests answers
      → (w' : W) × (slait_write server_os w to_client bytes ≡ some (w', pos (length bytes)))
        × conn.Holds w' requests (answers ++ bytes)
  unfolding slait_write_from
  slait_write-answer w requests answers bytes some_bytes fits holds =
      let (e, holds') = conn.reply w requests answers bytes fits holds in
      let no : (length bytes == 0) ≡ false = ground arith in
      let all : leb (length bytes) (0 + length bytes) ≡ true = ground arith in
      ((server_os.write_pipe w to_client bytes).0, rw (e, no, all, slait_write_from) refl, holds')

  -- A whole exchange: the main thread takes the request and leaves the state `s1`, the slave answers
  -- with `reply` and leaves `s2` and tables with `Q`, all before the client goes on.
  pub attended-request :
      (Q : Tfs → Type 0) (open_server : W → W × ℤ) (garbage : List ℕ) (w : W)
      (s s1 s2 : ServerState) (t : Tfs) (i : ℕ) (message reply : List ℕ)
      → length message ≤ pipe_buf
      → conn.Holds w [] []
      → ((w0 : W)
          → conn.Holds w0 (message ++ []) []
          → (w1 : W) × (serve server_os open_server false 1 garbage w0 s ≡ returned (w1, s1))
            × conn.Holds w1 [] [])
      → ((w1 : W)
          → conn.Holds w1 [] []
          → (w2 : W) × (t2 : Tfs) × (solve_request server_os garbage all_return_zero [] w1 s1 t i
              ≡ returned (w2, s2, t2))
            × conn.Holds w2 [] reply
            × Q t2)
      → (w2 : W) × (t2 : Tfs) × ((attended client_os server_os open_server garbage i).write_pipe
            (w, s, t)
            to_server
            message
          ≡ ((w2, s2, t2), pos (length message)))
        × conn.Holds w2 [] reply
        × Q t2
  attended-request Q open_server garbage w s s1 s2 t i message reply fits holds takes answers =
      let (written, holds0) = conn.request w [] [] message fits holds in
      let w0 = (client_os.write_pipe w to_server message).0 in
      let (w1, e1, holds1) =
        takes w0 (subst (λ l. conn.Holds w0 l []) (sym (append_nil message)) holds0) in
      let (w2, t2, e2, holds2, q) = answers w1 holds1 in
      (w2, t2, rw (written, e1, e2) refl, holds2, q)

  -- The client's pipe holds `bytes`, and the server is as it was left.
  abbrev pub Waiting : ServerState → Tfs → World W → List ℕ → Type 0
  Waiting s t x bytes = conn.Holds x.0 [] bytes × (x.1 ≡ s) × (x.2 ≡ t)

  -- What the server answered comes out of the client's pipe in order, and nothing else moves.
  pub attended-Waiting :
      (open_server : W → W × ℤ) (garbage : List ℕ) (i : ℕ) (s : ServerState) (t : Tfs) (x : World W)
      (bytes rest : List ℕ)
      → Waiting s t x (bytes ++ rest)
      → let os = attended client_os server_os open_server garbage i in
        ((os.read_pipe x from_server (length bytes)).1 ≡ got bytes)
        × Waiting s t (os.read_pipe x from_server (length bytes)).0 rest
  attended-Waiting open_server garbage i s t x bytes rest (holds, same_s, same_t) =
      let (e, holds') = conn.take_reply x.0 [] bytes rest holds in (e, (holds', same_s, same_t))

-- To carry out a request leaves the connections alone.
pub asleep-Attached :
    (from_client to_client to_server from_server : ℤ) (s s' : ServerState) (c : ClientState) (i : ℕ)
    (request : Request)
    → Attached from_client to_client to_server from_server s c i
    → s' ≡ asleep (increment_counter (wake s i request)) i
    → Attached from_client to_client to_server from_server s' c i
asleep-Attached from_client to_client to_server from_server s s' c i request a same = record {
  in_table = a.in_table;
  session = a.session;
  asks = a.asks;
  hears = a.hears;
  serves = ap (λ s. s.fserv) same ∙ a.serves;
  answers = ap (λ s. (s.sessions i).fhandler) same ∙ a.answers;
}
