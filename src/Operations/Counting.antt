-- ===== src/Operations/Counting.antt =====
-- `tfs_open` and `tfs_close` keep the tables valid and count the open files.
use server_client.Common.{
  ℕ, suc, ◌<◌, ◌≡◌, ◌≢◌, refl, ap, sym, ◌∙◌, inl, inr, Bool, true, false, List, arith, Bool-cases,
  update, lt→ltb, count, count-update, ℤ, pos, minus_one, increment, decrement,
}
use server_client.State.{FsState, AllocationState, free, taken, is_taken}
use server_client.State.OpenFiles.{remove_from_open_file_table}
use server_client.State.Results.{closed_state, remove_from_open_file_table-Removed}
use server_client.State.Invariant.{Inv}
use server_client.State.Invariant.Handles.{closed_state-Inv}
use server_client.Operations.{
  Tfs, Pthread, is_destroy, all_return_zero, tfs_open, open_locked, tfs_close, close_finish,
}
use server_client.Operations.Open.{tfs_open_unsynchronized}
use server_client.Operations.Open.Preserve.{open-IsSound}

-- How many handles are in use.
abbrev pub handles_in_use : FsState → ℕ
handles_in_use s = count is_taken s.free_open_file_entries 20

-- The tables are valid, and `open_files` counts the handles in use.
abbrev pub IsCounted : Tfs → Type 0
IsCounted t = Inv t.fs × (t.open_files ≡ pos (handles_in_use t.fs))

count_one_more :
    (f : ℕ → AllocationState) (h : ℕ)
    → h < 20
    → f h ≡ free
    → count is_taken (update f h taken) 20 ≡ suc (count is_taken f 20)
count_one_more f h small vacant = ground (arith, count-update is_taken f h taken 20)

count_one_less :
    (f : ℕ → AllocationState) (h : ℕ)
    → h < 20
    → f h ≡ taken
    → suc (count is_taken (update f h free) 20) ≡ count is_taken f 20
count_one_less f h small busy = ground (arith, count-update is_taken f h free 20)

module _ (p : Pthread) (t : Tfs) (name : List ℕ) (flags : ℤ) where
  open_locked_refused :
      (tfs_open_unsynchronized t.fs name flags).1 ≡ minus_one
      → open_locked p t name flags
        ≡ (record t { fs = (tfs_open_unsynchronized t.fs name flags).0 }, minus_one)
  unfolding open_locked
  open_locked_refused r = rw r

  open_locked_done :
      (h : ℕ)
      → (tfs_open_unsynchronized t.fs name flags).1 ≡ pos h
      → (open_locked p t name flags).0 ≡ record t {
        fs = (tfs_open_unsynchronized t.fs name flags).0;
        open_files = increment t.open_files;
      }
  unfolding open_locked
  open_locked_done h r = elim (Bool-cases p.unlock_destroy) [
    | inr e ↦ rw (r, e)
    | inl e ↦ elim (Bool-cases p.unlock_global) [ inr e' ↦ rw (r, e, e') | inl e' ↦ rw (r, e, e') ]
  ]

  open_locked-IsCounted : IsCounted t → IsCounted (open_locked p t name flags).0
  open_locked-IsCounted (inv, counted) =
      let (inv', takes) = open-IsSound t.fs name flags inv in
      elim takes [
        | inl (r, same) ↦ rw (open_locked_refused r) (inv', rw same counted)
        | inr (h, small, vacant, r, now) ↦
            rw (open_locked_done h r)
              (inv', rw (now, counted, count_one_more t.fs.free_open_file_entries h small vacant))
      ]

  -- Whatever the pthread calls return, `tfs_open` keeps the tables valid and the count right.
  pub tfs_open-IsCounted : IsCounted t → IsCounted (tfs_open p t name flags).0
  unfolding tfs_open
  tfs_open-IsCounted valid = elim (Bool-cases p.lock_global) [
    | inr e ↦ rw e valid
    | inl e ↦ elim (Bool-cases p.lock_destroy) [
      | inr e' ↦ rw (e, e') valid
      | inl e' ↦ elim (Bool-cases (is_destroy t.called_destroy)) [
        | inl d ↦ rw (e, e', d) valid
        | inr d ↦ rw (e, e', d) (open_locked-IsCounted valid)
      ]
    ]
  ]

remove_taken :
    (s : FsState) (h : ℕ)
    → h < 20
    → s.free_open_file_entries h ≡ taken
    → remove_from_open_file_table s (pos h) ≡ (closed_state s h, pos 0)
unfolding remove_from_open_file_table
remove_taken s h small busy = rw (lt→ltb h 20 small, busy)

decrement-suc : (n : ℕ) → decrement (pos (suc n)) ≡ pos n
decrement-suc n = ground arith

close_finish-state :
    (t : Tfs) (r : ℤ) (a b : Bool)
    → ((close_finish t r a b).0.fs ≡ t.fs)
      × ((close_finish t r a b).0.open_files ≡ decrement t.open_files)
      × ((close_finish t r a b).0.called_destroy ≡ t.called_destroy)
unfolding close_finish
close_finish-state t r true true = (refl, refl, refl)
close_finish-state t r true false = (refl, refl, refl)
close_finish-state t r false b = (refl, refl, refl)

module _ (p : Pthread) (t : Tfs) where
  finish-IsCounted :
      (h : ℕ) (r : ℤ) (a b : Bool)
      → IsCounted t
      → h < 20
      → t.fs.free_open_file_entries h ≡ taken
      → IsCounted (close_finish (record t { fs = closed_state t.fs h }) r a b).0
  finish-IsCounted h r a b (inv, counted) small busy =
      let less = count_one_less t.fs.free_open_file_entries h small busy in
      let done = close_finish-state (record t { fs = closed_state t.fs h }) r a b in
      rw (done.0, done.1) (closed_state-Inv t.fs inv h, rw (counted, ← less) (decrement-suc _))

  -- Closing a handle in use keeps the tables valid and the count right, whatever the pthread
  -- calls return.
  pub tfs_close-IsCounted :
      (h : ℕ)
      → IsCounted t
      → h < 20
      → t.fs.free_open_file_entries h ≡ taken
      → IsCounted (tfs_close p t (pos h)).0
  unfolding tfs_close
  tfs_close-IsCounted h valid small busy =
      let removed = remove_taken t.fs h small busy in
      let finished = finish-IsCounted h (pos 0) p.unlock_global p.unlock_destroy valid small busy in
      elim (Bool-cases p.lock_global) [
        | inr e ↦ rw e valid
        | inl e ↦ elim (Bool-cases p.lock_destroy) [
          | inr e' ↦ rw (e, e') valid
          | inl e' ↦ rw (e, e', removed) finished
        ]
      ]

remove_unused :
    (s : FsState) (fhandle : ℤ)
    → ((h : ℕ) → fhandle ≡ pos h → h < 20 → s.free_open_file_entries h ≡ free)
    → remove_from_open_file_table s fhandle ≡ (s, minus_one)
remove_unused s fhandle unused = elim (remove_from_open_file_table-Removed s fhandle) [
  | inl (r, all) ↦ r
  | inr (h, e, small, busy, r) ↦ absurd (ground (arith, unused h))
]

decrement-ne : (n : ℕ) → decrement (pos n) ≢ pos n
decrement-ne n e = ground arith

-- A close that is refused, with every pthread call returning 0, still takes one off `open_files`:
-- it returns -1 and the counter no longer counts the handles in use.
pub tfs_close_refused :
    (t : Tfs) (fhandle : ℤ)
    → IsCounted t
    → ((h : ℕ) → fhandle ≡ pos h → h < 20 → t.fs.free_open_file_entries h ≡ free)
    → let r = tfs_close all_return_zero t fhandle in
      (r.1 ≡ minus_one)
      × (r.0.fs ≡ t.fs)
      × (r.0.open_files ≡ decrement t.open_files)
      × ¬ IsCounted r.0
unfolding tfs_close close_finish
tfs_close_refused t fhandle (inv, counted) unused = rw (remove_unused t.fs fhandle unused) (
  refl,
  refl,
  refl,
  λ bad. decrement-ne (handles_in_use t.fs) (ap decrement (sym counted) ∙ bad.1),
)
