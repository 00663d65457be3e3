-- ===== src/Tests/Messages.antt =====
-- The theorems about the pipes and the server at concrete inputs.
use server_client.Common.{
  ℕ, ◌<◌, ◌≡◌, refl, ap, sym, ◌∙◌, ◌⊎◌, true, false, some, List, [], ◌∷◌, ◌++◌, arith, length,
  length-take, take, drop, take-append, drop-append, replicate, update, decrement, ℤ, pos,
  minus_one,
}
use server_client.Operations.{Tfs}
use server_client.Memory.{strncpy_bytes}
use server_client.Wire.Text.{digits, int_field, atoi}
use server_client.Wire.Decimal.{atoi-int_field}
use server_client.Wire.Pipes.{Os, ReadResult, failed, got, slait, slait_write_from}
use server_client.Wire.Slait.{IsBounded, SlaitOutcome, slait-SlaitOutcome, slait_overrun}
use server_client.Client.Messages.{
  open_message, close_message, read_message, write_message, unmount_message,
}
use server_client.Server.{
  ServerState, Request, free_pos, taken_pos, returned, stuck, wake, increment_counter,
}
use server_client.Client.{ClientState, tfs_open, tfs_read}
use server_client.Client.Answers.{tfs_open-answer, tfs_read-answer}
use server_client.Server.Sessions.{find_free_pos, no_session}
use server_client.Server.Handlers.{start_session}
use server_client.Server.Threads.{tfs_thread_unmount}
use server_client.Server.Main.{serve}
use server_client.Server.Delivery.{serve-close_message, serve-open_message}
use server_client.Server.Transfers.{serve-read_message, serve-write_message}
use server_client.Server.Deadlock.{start_session_full, serve-unmount_message}
use server_client.Server.Asked.{
  close_request, open_request, read_request, write_request, unmount_request,
}
use server_client.Server.Table.{find_free_pos_lem}

-- A pipe as the bytes in it; what is written goes elsewhere.
abbrev pub pipe_os : Os (List ℕ)
pipe_os = record {
  read_pipe = λ w fh n. (drop n w, got (take n w));
  write_pipe = λ w fh bytes. (w, pos (length bytes));
  open_pipe = λ w name. (w, pos 7);
  close_pipe = λ w fh. (w, true);
}

abbrev Holds : List ℕ → List ℕ → Type 0
Holds w bytes = w ≡ bytes

pipe_gives :
    (w bytes rest : List ℕ)
    → Holds w (bytes ++ rest)
    → ((pipe_os.read_pipe w (pos 3) (length bytes)).1 ≡ got bytes)
      × Holds (pipe_os.read_pipe w (pos 3) (length bytes)).0 rest
pipe_gives w bytes rest holds = (
  ap (λ v. got (take (length bytes) v)) holds ∙ ap got (take-append (length bytes) bytes rest refl),
  ap (drop (length bytes)) holds ∙ drop-append (length bytes) bytes rest refl,
)

abbrev got_bytes : ReadResult → List ℕ
got_bytes failed = []
got_bytes (got bytes) = bytes

abbrev idle : Request
idle = record {
  op_code = pos 0;
  fcli = pos 0;
  fhandler = pos 0;
  len = 0;
  flags = pos 0;
  name = [];
  to_write = [];
}

-- The server after `server_init`, with its pipe open as 3.
abbrev pub server : ServerState
server = record {
  fserv = pos 3;
  counter_operations = 0;
  open_sessions = pos 1;
  sessions = λ i. no_session;
  free_sessions = λ i. free_pos;
  slaves = λ i. record { session_id = pos i; wake_up = false; request = idle };
  global_locked = false;
}

abbrev pub full : ServerState
full = record server { open_sessions = pos 9; free_sessions = λ i. taken_pos }

abbrev pub open_again : List ℕ → List ℕ × ℤ
open_again w = (w, pos 3)

pipe-IsBounded : IsBounded pipe_os
pipe-IsBounded w fh len bytes e = rw (sym (ap got_bytes e)) (omega (arith, length-take len w))

slait-SlaitOutcome_example : SlaitOutcome 4 (slait pipe_os (1 ∷ 2 ∷ []) (pos 3) 4)
slait-SlaitOutcome_example = slait-SlaitOutcome pipe_os pipe-IsBounded (1 ∷ 2 ∷ []) (pos 3) 4

atoi-int_field_example : atoi (int_field (pos 42) ++ (b'9' ∷ [])) ≡ pos 42
atoi-int_field_example = atoi-int_field 42 (b'9' ∷ []) (omega arith)

-- A pipe that gives out one piece per `read`.
abbrev next_piece : List (List ℕ) → List (List ℕ) × ReadResult
next_piece [] = ([], got [])
next_piece (bytes ∷ pieces) = (pieces, got bytes)

abbrev piece_os : Os (List (List ℕ))
piece_os = record {
  read_pipe = λ w fh n. next_piece w;
  write_pipe = λ w fh bytes. (w, pos (length bytes));
  open_pipe = λ w name. (w, pos 7);
  close_pipe = λ w fh. (w, true);
}

slait_overrun_example :
    (w : List (List ℕ)) × (slait piece_os ((1 ∷ []) ∷ ((2 ∷ 3 ∷ []) ∷ [])) (pos 3) 2
      ≡ some (w, 1 ∷ 2 ∷ 3 ∷ [], pos 2))
    × (2 < 3)
slait_overrun_example =
    slait_overrun piece_os ((1 ∷ []) ∷ ((2 ∷ 3 ∷ []) ∷ [])) (pos 3) 2 (1 ∷ []) (2 ∷ 3 ∷ []) refl
      (omega arith) (omega arith) refl refl

abbrev after : List ℕ
after = b'1' ∷ []

serve-close_message_example :
    (w : List ℕ) × (serve pipe_os open_again false 1 []
        (close_message (pos 0) (pos 2) ++ after)
        server
      ≡ returned (w, increment_counter (wake server 0 (close_request server 0 2))))
    × Holds w after
serve-close_message_example =
    serve-close_message pipe_os (pos 3) Holds pipe_gives open_again false 1 []
      (close_message (pos 0) (pos 2) ++ after) server 0 2 after refl (omega arith) (omega arith)
      refl

-- "/f1" and zeros, 40 bytes.
abbrev path : List ℕ
path = b'/' ∷ b'f' ∷ b'1' ∷ replicate 37 0

serve-open_message_example :
    (w : List ℕ) × (serve pipe_os open_again false 1 []
        (open_message (pos 0) path (pos 1) ++ after)
        server
      ≡ returned (w, increment_counter (wake server 0 (open_request server 0 path 1))))
    × Holds w after
serve-open_message_example =
    serve-open_message pipe_os (pos 3) Holds pipe_gives open_again false 1 []
      (open_message (pos 0) path (pos 1) ++ after) server 0 path 1 after refl (omega arith)
      (omega arith) (omega arith) refl

serve-read_message_example :
    (w : List ℕ) × (serve pipe_os open_again false 1 []
        (read_message (pos 0) (pos 2) 30 ++ after)
        server
      ≡ returned (w, increment_counter (wake server 0 (read_request server 0 2 30))))
    × Holds w after
serve-read_message_example =
    serve-read_message pipe_os (pos 3) Holds pipe_gives open_again false 1 []
      (read_message (pos 0) (pos 2) 30 ++ after) server 0 2 30 after refl (omega arith)
      (omega arith) (omega arith) refl

serve-write_message_example :
    (w : List ℕ) × (serve pipe_os open_again false 1 []
        (write_message (pos 0) (pos 2) (7 ∷ 8 ∷ []) 2 ++ after)
        server
      ≡ returned (w, increment_counter (wake server 0 (write_request server 0 2 (7 ∷ 8 ∷ []) 2))))
    × Holds w after
serve-write_message_example =
    serve-write_message pipe_os (pos 3) Holds pipe_gives open_again false 1 []
      (write_message (pos 0) (pos 2) (7 ∷ 8 ∷ []) 2 ++ after) server 0 2 2 (7 ∷ 8 ∷ []) after refl
      (omega arith) (omega arith) (omega arith) (omega arith) refl

serve-unmount_message_example :
    (w : List ℕ) × (serve pipe_os open_again false 1 [] (unmount_message (pos 4) ++ after) server
      ≡ returned (
        w,
        record (wake server 4 (unmount_request server 4)) {
          open_sessions = decrement server.open_sessions;
        },
      ))
    × Holds w after
serve-unmount_message_example =
    serve-unmount_message pipe_os (pos 3) Holds pipe_gives open_again false 1 []
      (unmount_message (pos 4) ++ after) server 4 after refl (omega arith) refl (λ e. ground arith)
      refl

start_session_full_example :
    let s' : ServerState = record full { global_locked = true } in
    (start_session pipe_os [] full (pos 7) ≡ returned ([], s'))
    × (find_free_pos s' ≡ stuck)
    × ((v : List ℕ) (t : Tfs) (i : ℕ) → true ≡ true → tfs_thread_unmount pipe_os v s' t i ≡ stuck)
unfolding slait_write_from strncpy_bytes digits
start_session_full_example =
    start_session_full pipe_os [] [] full (pos 7) (pos 4) refl (λ j below. refl) refl

-- The mutex is left locked while nine sessions are open.
abbrev locked : ServerState
locked = record full { global_locked = true }

find_free_pos_lem_example :
    ((k : ℕ) × (k < 10)
      × (server.free_sessions k ≡ free_pos)
      × ((j : ℕ) → j < k → server.free_sessions j ≡ taken_pos)
      × (find_free_pos server
          ≡ returned
              (record server { free_sessions = update server.free_sessions k taken_pos }, pos k)))
    ⊎ (((j : ℕ) → j < 10 → server.free_sessions j ≡ taken_pos)
        × (find_free_pos server ≡ returned (record server { global_locked = true }, minus_one)))
find_free_pos_lem_example = find_free_pos_lem server refl

abbrev client : ClientState
client = record { fcli = pos 3; fserv = pos 5; session_id = pos 0 }

tfs_open-answer_example :
    (w : List ℕ) × (tfs_open pipe_os (int_field (pos 6) ++ after) client path (pos 1)
      ≡ some (w, pos 6))
    × Holds w after
tfs_open-answer_example =
    tfs_open-answer pipe_os (pos 3) Holds pipe_gives (int_field (pos 6) ++ after)
      (int_field (pos 6) ++ after) client path (pos 1) 6 after refl (omega arith) refl refl

abbrev two_bytes : List ℕ
two_bytes = 7 ∷ 8 ∷ []

tfs_read-answer_example :
    (w : List ℕ) × (tfs_read pipe_os (int_field (pos 2) ++ (two_bytes ++ after)) client (pos 6) 9
      ≡ some (w, pos 2, two_bytes))
    × Holds w after
tfs_read-answer_example =
    tfs_read-answer pipe_os (pos 3) Holds pipe_gives (int_field (pos 2) ++ (two_bytes ++ after))
      (int_field (pos 2) ++ (two_bytes ++ after)) client (pos 6)
      (pos (length (read_message (pos 0) (pos 6) 9))) 9 two_bytes after refl (omega arith) refl refl
