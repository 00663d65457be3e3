-- ===== src/Server/Deadlock.antt =====
-- A client that mounts while another's unmount is not done yet, on a server with no free session, and
-- an unmount that meets the mutex that this mount leaves locked.
use server_client.Common.{
  ℕ, ◌<◌, ◌≡◌, ◌≢◌, refl, ap, ◌∙◌, inl, inr, Bool, true, false, some, List, ◌++◌, arith, Bool-cases,
  length, take, take-append, drop, lt→ltb, eqb_ℤ, ℤ, pos, minus_one, decrement,
}
use server_client.Operations.{Tfs}
use server_client.Operations.Shutdown.{eqb_ℤ-zero}
use server_client.Wire.Text.{int_field, atoi}
use server_client.Wire.Decimal.{atoi-int_field_alone, length-int_field}
use server_client.Wire.Pipes.{Os, got, slait_write, stored, zeros}
use server_client.Client.Messages.{unmount_message}
use server_client.Server.{ServerState, taken_pos, returned, stuck, wake}
use server_client.Server.Sessions.{find_free_pos}
use server_client.Server.Handlers.{tfs_handle_unmount, start_session}
use server_client.Server.Threads.{tfs_thread_unmount}
use server_client.Server.Asked.{unmount_request}
use server_client.Server.Main.{dispatch, serve}
use server_client.Server.Table.{find_free_pos_lem, lock_global_mutex-free}
use server_client.Wire.Stream.{slait-Holds}
use server_client.Server.Delivery.{serve-Holds}

-- With `global_mutex` unlocked and all ten positions taken, a mount that gets as far as
-- `find_free_pos` and whose answer can be written returns and leaves the mutex locked for ever: a
-- later `find_free_pos` waits, and so does a slave that has closed a session's pipe and wants to
-- mark its position free.
pub start_session_full :
    {W : Type 0} (os : Os W) (w w' : W) (s : ServerState) (fcli r : ℤ)
    → s.global_locked ≡ false
    → ((j : ℕ) → j < 10 → s.free_sessions j ≡ taken_pos)
    → slait_write os w fcli (int_field minus_one) ≡ some (w', r)
    → let s' : ServerState = record s { global_locked = true } in
      (start_session os w s fcli ≡ returned (w', s'))
      × (find_free_pos s' ≡ stuck)
      × ((v : W) (t : Tfs) (i : ℕ)
          → (os.close_pipe v (s.sessions i).fhandler).1 ≡ true
          → tfs_thread_unmount os v s' t i ≡ stuck)
unfolding start_session find_free_pos tfs_thread_unmount
start_session_full os w w' s fcli r unlocked full told = elim (find_free_pos_lem s unlocked) [
  | inl (k, below, open_at, _, _) ↦ let taken_at = full k below in absurd (ground arith)
  | inr (_, e) ↦ (rw (e, told, start_session) refl, refl, λ v t i closed. rw closed refl)
]

eqb_ℤ-nonzero : (z : ℤ) → z ≢ pos 0 → eqb_ℤ z (pos 0) ≡ false
eqb_ℤ-nonzero z ne = elim (Bool-cases (eqb_ℤ z (pos 0))) [
  | inl e ↦ absurd (ne (eqb_ℤ-zero z e))
  | inr e ↦ e
]

module _ {W : Type 0} (os : Os W) (fd : ℤ) (Holds : W → List ℕ → Type 0)
    (pipe : (w : W) (bytes rest : List ℕ)
      → Holds w (bytes ++ rest)
      → ((os.read_pipe w fd (length bytes)).1 ≡ got bytes)
        × Holds (os.read_pipe w fd (length bytes)).0 rest) where
  number_read : (i : ℕ) → i < 10 → atoi (take 4 (stored (int_field (pos i)) (zeros 100))) ≡ pos i
  number_read i in_table =
      let id = int_field (pos i) in
      ap atoi (take-append 4 id (drop (length id) (zeros 100)) (length-int_field (pos i)))
      ∙ atoi-int_field_alone i (omega arith)

  -- From a pipe that gives out its bytes in order, the main loop takes the whole unmount that a
  -- client of session `i < 10` writes, wakes the slave `i` with it and, as `global_mutex` is free,
  -- lowers `open_sessions`, which is not 0. Marking the position free is left to the slave.
  pub serve-unmount_message :
      (open_server : W → W × ℤ) (bad_fd : Bool) (attempts : ℕ) (garbage : List ℕ) (w : W)
      (s : ServerState) (i : ℕ) (rest : List ℕ)
      → s.fserv ≡ fd
      → i < 10
      → s.global_locked ≡ false
      → s.open_sessions ≢ pos 0
      → Holds w (unmount_message (pos i) ++ rest)
      → (w' : W) × (serve os open_server bad_fd attempts garbage w s
          ≡ returned (
            w',
            record (wake s i (unmount_request s i)) { open_sessions = decrement s.open_sessions },
          ))
        × Holds w' rest
  unfolding unmount_message dispatch tfs_handle_unmount
  serve-unmount_message open_server bad_fd attempts garbage w s i rest at in_table unlocked
        some_open holds =
      let id = int_field (pos i) in
      let (w1, e1, holds1) =
        serve-Holds os fd Holds pipe open_server bad_fd attempts garbage w s 2 (id ++ rest) at
          (omega arith) holds in
      let four = length-int_field (pos i) in
      let (w2, e2, holds2) = slait-Holds os fd Holds pipe w1 s.fserv 4 id rest at four holds1 in
      let number = number_read i in_table in
      let not_zero = eqb_ℤ-nonzero s.open_sessions some_open in
      let lock = lock_global_mutex-free (wake s i (unmount_request s i)) unlocked in
      (w2, e1 ∙ rw (e2, not_zero, number, lt→ltb i 10 in_table, lock) refl, holds2)
