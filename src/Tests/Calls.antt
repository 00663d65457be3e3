-- ===== src/Tests/Calls.antt =====
-- Calls of the client as a whole at concrete inputs.
use server_client.Common.{
  ℕ, ◌≡◌, refl, ap, ◌∙◌, inr, Bool, true, false, ◌&&◌, ◌==◌, if◌then◌else◌, minus_one, some, List,
  [], ◌∷◌, ◌++◌, arith, length, take, drop, take-append, drop-append, replicate, update, ℤ, pos,
}
use server_client.Memory.{c_string}
use server_client.Memory.Laws.{overwrite}
use server_client.State.Invariant.{Inv}
use server_client.Operations
use server_client.Operations.{Tfs, all_return_zero}
use server_client.Operations.Read.{readable, Advanced}
use server_client.Operations.Write.{writable}
use server_client.Operations.Transfer.Write.{contents, offset_of}
use server_client.Operations.Transfer.Effect.{file_of, Overwrote}
use server_client.Operations.Open.Handle.{IsHandle, tfs_open-IsHandle}
use server_client.Wire.Text.{int_field}
use server_client.Wire.Pipes.{Os, got}
use server_client.Client.{ClientState, Files, tfs_unmount, tfs_open, tfs_close, tfs_read, tfs_write}
use server_client.Server.{ServerState, free_pos}
use server_client.Server.Sessions.{no_session}
use server_client.Server.Threads.{World}
use server_client.Calls.{Connection, Attached, attended}
use server_client.Calls.Reading.{tfs_read-served}
use server_client.Calls.Writing.{tfs_write-served}
use server_client.Calls.Unmounting.{IsFreed, tfs_unmount-attended}
use server_client.Calls.Reload.{attended-reload}
use server_client.Calls.Opening.{tfs_open-attended, tfs_close-attended}
use server_client.Tests.Runs.{opened, name, reopened}
use server_client.Tests.Files.{
  shared, shared-Inv, shared-IsOpenAt, opened-IsCounted, opened-IsOpenAt,
}
use server_client.Tests.Messages.{server}

-- The bytes in the server's pipe and those in the client's.
abbrev Pipes : Type 0
Pipes = List ℕ × List ℕ

-- The same bytes.
abbrev is_same : List ℕ → List ℕ → Bool
is_same [] [] = true
is_same [] (b ∷ r) = false
is_same (c ∷ text) [] = false
is_same (c ∷ text) (b ∷ r) = (c == b) && is_same text r

abbrev client_os : Os Pipes
client_os = record {
  read_pipe = λ w fh n. ((w.0, drop n w.1), got (take n w.1));
  write_pipe = λ w fh bytes. ((w.0 ++ bytes, w.1), pos (length bytes));
  open_pipe = λ w path. (w, pos 3);
  close_pipe = λ w fh. (w, true);
}

abbrev server_os : Os Pipes
server_os = record {
  read_pipe = λ w fh n. ((drop n w.0, w.1), got (take n w.0));
  write_pipe = λ w fh bytes. ((w.0, w.1 ++ bytes), pos (length bytes));
  open_pipe = λ w path. (w, if is_same name (c_string path) then pos 7 else minus_one);
  close_pipe = λ w fh. (w, true);
}

-- The client has the pipes open as 5 and 3, the server as 3 and 7.
abbrev connection : Connection client_os server_os (pos 5) (pos 3) (pos 7) (pos 3)
connection = record {
  Holds = λ w requests answers. w ≡ (requests, answers);
  request = λ w requests answers bytes fits holds. (refl, ap (λ v. (v.0 ++ bytes, v.1)) holds);
  take_request = λ w bytes requests answers holds. (
    ap (λ v. got (take (length bytes) v.0)) holds
        ∙ ap got (take-append (length bytes) bytes requests refl),
    ap (λ v. (drop (length bytes) v.0, v.1)) holds
        ∙ ap (λ l. (l, answers)) (drop-append (length bytes) bytes requests refl),
  );
  reply = λ w requests answers bytes fits holds. (refl, ap (λ v. (v.0, v.1 ++ bytes)) holds);
  take_reply = λ w requests bytes answers holds. (
    ap (λ v. got (take (length bytes) v.1)) holds
        ∙ ap got (take-append (length bytes) bytes answers refl),
    ap (λ v. (v.0, drop (length bytes) v.1)) holds
        ∙ ap (λ l. (requests, l)) (drop-append (length bytes) bytes answers refl),
  );
}

abbrev open_server : Pipes → Pipes × ℤ
open_server w = (w, pos 3)

abbrev nothing : Pipes
nothing = ([], [])

abbrev client : ClientState
client = record { fcli = pos 3; fserv = pos 5; session_id = pos 2 }

-- A server whose session 2 is the client's.
abbrev serving : ServerState
serving = record server {
  sessions = update server.sessions 2 (record { session_id = pos 2; name = []; fhandler = pos 7 });
}

attached : Attached (pos 3) (pos 7) (pos 5) (pos 3) serving client 2
attached = record {
  in_table = omega arith;
  session = refl;
  asks = refl;
  hears = refl;
  serves = refl;
  answers = refl;
}

abbrev os : Os (World Pipes)
os = attended client_os server_os open_server [] 2

-- "/f1" in a buffer of 40 bytes.
abbrev name_buffer : List ℕ
name_buffer = name ++ replicate 37 0

tfs_open-attended_example :
    let done = Operations.tfs_open all_return_zero opened (take 40 name_buffer) (pos 1) in
    (x : World Pipes) × (tfs_open os (nothing, serving, opened) client name_buffer (pos 1)
      ≡ some (x, done.1))
    × (x.2 ≡ done.0)
    × (x.0 ≡ nothing)
    × Attached (pos 3) (pos 7) (pos 5) (pos 3) x.1 client 2
tfs_open-attended_example =
    tfs_open-attended client_os server_os (pos 5) (pos 3) (pos 7) (pos 3) connection open_server []
      nothing serving opened client 2 name_buffer 1 attached (omega arith) (omega arith) refl

tfs_close-attended_example :
    let done = Operations.tfs_close all_return_zero opened (pos 0) in
    (x : World Pipes) × (tfs_close os (nothing, serving, opened) client (pos 0) ≡ some (x, done.1))
    × (x.2 ≡ done.0)
    × (x.0 ≡ nothing)
    × Attached (pos 3) (pos 7) (pos 5) (pos 3) x.1 client 2
tfs_close-attended_example =
    tfs_close-attended client_os server_os (pos 5) (pos 3) (pos 7) (pos 3) connection open_server []
      nothing serving opened client 2 0 attached (omega arith) refl

tfs_read-served_example :
    let n = readable shared.fs 1 4 in
    let bytes = take n (drop (offset_of shared.fs 1) (contents shared.fs (file_of shared.fs 1))) in
    (x : World Pipes) × (tfs_read os (nothing, serving, shared) client (pos 1) 4
      ≡ some (x, pos n, bytes))
    × Advanced shared.fs 1 n x.2.fs
    × (x.0 ≡ nothing)
    × Attached (pos 3) (pos 7) (pos 5) (pos 3) x.1 client 2
tfs_read-served_example =
    tfs_read-served client_os server_os (pos 5) (pos 3) (pos 7) (pos 3) connection open_server []
      nothing serving shared client 2 1 4 attached shared-Inv shared-IsOpenAt (omega arith) refl

tfs_write-served_example :
    let n = writable opened.fs 0 2 in
    (x : World Pipes) × (tfs_write os (nothing, serving, opened) client (pos 0) (7 ∷ 8 ∷ 9 ∷ []) 2
      ≡ some (x, pos n))
    × Inv x.2.fs
    × Overwrote opened.fs 0 n (take 2 (7 ∷ 8 ∷ 9 ∷ [])) x.2.fs
    × (x.0 ≡ ([], drop 2 (int_field (pos n))))
    × Attached (pos 3) (pos 7) (pos 5) (pos 3) x.1 client 2
unfolding reopened
tfs_write-served_example =
    tfs_write-served client_os server_os (pos 5) (pos 3) (pos 7) (pos 3) connection open_server []
      nothing serving opened client 2 0 1 (7 ∷ 8 ∷ 9 ∷ []) attached opened-IsCounted.0
      opened-IsOpenAt (inr (900, omega arith, refl)) (omega arith) (omega arith) refl

tfs_open-IsHandle_example : IsHandle (Operations.tfs_open all_return_zero opened name (pos 1)).1
tfs_open-IsHandle_example = tfs_open-IsHandle opened name (pos 1)

abbrev four_bytes : List ℕ
four_bytes = 7 ∷ 8 ∷ 9 ∷ 10 ∷ []

attended-reload_example :
    let n = writable opened.fs 0 4 in
    let saved =
      overwrite
        (offset_of opened.fs 0)
        (take n (take 4 four_bytes))
        (contents opened.fs (file_of opened.fs 0)) in
    let bytes = take 9 saved in
    (x1 : World Pipes) × (x2 : World Pipes) × (x3 : World Pipes) × (x4 : World Pipes) × (g : ℕ)
    × (tfs_write os (nothing, serving, opened) client (pos 0) four_bytes 4 ≡ some (x1, pos n))
    × (tfs_close os x1 client (pos 0) ≡ some (x2, pos 0))
    × (tfs_open os x2 client name_buffer (pos 0) ≡ some (x3, pos g))
    × (tfs_read os x3 client (pos g) 9 ≡ some (x4, pos (length bytes), bytes))
    × (x4.0 ≡ nothing)
unfolding reopened
attended-reload_example =
    attended-reload client_os server_os (pos 5) (pos 3) (pos 7) (pos 3) connection open_server []
      client 2 nothing serving opened 0 9 name_buffer four_bytes attached opened-IsCounted.0 refl
      opened-IsOpenAt (inr (900, omega arith, refl)) (omega arith) refl (omega arith) (omega arith)
      refl

-- A server that has just been set up, and a client that knows nothing.
abbrev fresh_server : ServerState
fresh_server = record server {
  open_sessions = pos 0;
  free_sessions = λ i. free_pos;
  sessions = λ i. no_session;
}

abbrev unknown : ClientState
unknown = record { fcli = pos 0; fserv = pos 0; session_id = pos 0 }

abbrev files : Files Pipes
files = record {
  open_server =
      λ w path. (w, if is_same (b'/' ∷ b's' ∷ []) (c_string path) then pos 5 else minus_one);
  unlink_pipe = λ w path. (w, true);
  make_pipe = λ w path. (w, true);
  open_client = λ w path. (w, if is_same name (c_string path) then pos 3 else minus_one);
}

tfs_unmount-attended_example :
    (x : World Pipes) × (tfs_unmount os (nothing, serving, opened) client ≡ (x, pos 0))
    × (x.2 ≡ opened)
    × IsFreed serving x.1 2
tfs_unmount-attended_example =
    tfs_unmount-attended client_os server_os (pos 5) (pos 3) (pos 7) (pos 3) connection
      (λ w requests answers holds. (refl, holds)) (λ w fd. refl) open_server [] nothing serving
      opened client 2 attached refl (λ e. ground arith) refl
