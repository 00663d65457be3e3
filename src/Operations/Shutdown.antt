-- ===== src/Operations/Shutdown.antt =====
-- `tfs_destroy_after_all_closed` of operations.c. The calling thread sleeps in
-- `pthread_cond_wait` while the others go on: their calls are a list, in the order in which they
-- hold the locks. A broadcast wakes the thread, which then has the mutex again before the next
-- call. Reads and writes touch neither `open_files` nor `called_destroy` and are left out here.
use server_client.Common.{
  ℕ, ◌+◌, ◌<◌, ◌≡◌, ◌≢◌, refl, ap, subst, ◌⊎◌, inl, inr, true, false, not, List, [], ◌∷◌, arith,
  Bool-cases, if◌then◌else◌, ◌==◌, ==_self, ℤ, pos, negsuc, minus_one, eqb_ℤ, decrement,
}
use server_client.State.{taken}
use server_client.State.OpenFiles.{remove_from_open_file_table}
use server_client.Operations.{
  Tfs, Pthread, destroy, all_return_zero, tfs_open, tfs_close, close_finish,
}
use server_client.Operations.Counting.{handles_in_use, IsCounted, tfs_close-IsCounted}

pub data Call : Type 0 where
  opens : List ℕ → ℤ → Call
  closes : ℤ → Call

unfoldable pub perform : Tfs → Call → Tfs
perform t (opens name flags) = (tfs_open all_return_zero t name flags).0
perform t (closes fhandle) = (tfs_close all_return_zero t fhandle).0

-- Where the calling thread is when the calls of the others are over: it has returned, with the
-- calls that were still to come, or it sleeps.
pub data Outcome : Type 0 where
  returned : Tfs → ℤ → List Call → Outcome
  sleeping : Tfs → Outcome

-- `while (open_files != 0) pthread_cond_wait(...)`, entered with the thread asleep.
unfoldable pub sleep_until_closed : Tfs → List Call → (Tfs → List Call → Outcome) → Outcome
sleep_until_closed t [] continue = sleeping t
sleep_until_closed t (c ∷ calls) continue =
    let t' = perform t c in
    let rest = sleep_until_closed t' calls continue in
    let leave = continue t' calls in
    if t'.broadcasts == t.broadcasts
    then rest
    else if eqb_ℤ t'.open_files (pos 0)
    then leave
    else rest

-- The end of the function: `tfs_destroy` has nothing to do.
abbrev pub destroy_finish : Pthread → Tfs → List Call → Outcome
destroy_finish p t calls =
    if not p.unlock_destroy then returned t minus_one calls else returned t (pos 0) calls

unfoldable pub tfs_destroy_after_all_closed : Pthread → Tfs → List Call → Outcome
unfolding sleep_until_closed
tfs_destroy_after_all_closed p t calls =
    let marked : Tfs = record t { called_destroy = destroy } in
    let asleep = sleep_until_closed marked calls (destroy_finish p) in
    if not p.lock_destroy
    then returned t minus_one calls
    else if eqb_ℤ t.open_files (pos 0)
    then destroy_finish p marked calls
    else asleep

-- Every close in the list is of a handle that is in use when its turn comes.
abbrev pub ClosesInUse : Tfs → List Call → Type 0
ClosesInUse t [] = Unit {0}
ClosesInUse t (opens name flags ∷ calls) = ClosesInUse (perform t (opens name flags)) calls
ClosesInUse t (closes fhandle ∷ calls) =
    ((h : ℕ) × (fhandle ≡ pos h) × (h < 20) × (t.fs.free_open_file_entries h ≡ taken))
    × ClosesInUse (perform t (closes fhandle)) calls

-- Once DESTROY is set, opens change nothing.
tfs_open_destroyed :
    (t : Tfs) (name : List ℕ) (flags : ℤ)
    → t.called_destroy ≡ destroy
    → tfs_open all_return_zero t name flags ≡ (t, minus_one)
unfolding tfs_open
tfs_open_destroyed t name flags d = rw (d, tfs_open)

perform_opens :
    (t : Tfs) (name : List ℕ) (flags : ℤ)
    → t.called_destroy ≡ destroy
    → perform t (opens name flags) ≡ t
unfolding perform
perform_opens t name flags d = ap (λ r. r.0) (tfs_open_destroyed t name flags d)

pub eqb_ℤ-zero : (z : ℤ) → eqb_ℤ z (pos 0) ≡ true → z ≡ pos 0
eqb_ℤ-zero (pos n) e = ground arith
eqb_ℤ-zero (negsuc n) e = cc

eqb_ℤ-nonzero : (z : ℤ) → eqb_ℤ z (pos 0) ≡ false → z ≢ pos 0
eqb_ℤ-nonzero (pos n) e h = ground arith
eqb_ℤ-nonzero (negsuc n) e h = cc

-- A close with DESTROY set broadcasts exactly when it was the last.
abbrev Woken : Tfs → Tfs → Type 0
Woken t t' =
    (t'.called_destroy ≡ destroy)
    × (((t'.broadcasts ≡ t.broadcasts) × (t'.open_files ≢ pos 0))
        ⊎ ((t'.broadcasts ≡ t.broadcasts + 1) × (t'.open_files ≡ pos 0)))

tfs_close-Woken :
    (t : Tfs) (fhandle : ℤ)
    → t.called_destroy ≡ destroy
    → Woken t (tfs_close all_return_zero t fhandle).0
unfolding tfs_close close_finish
tfs_close-Woken t fhandle d = elim (Bool-cases (eqb_ℤ (decrement t.open_files) (pos 0))) [
  | inl last ↦ elim (Bool-cases (eqb_ℤ (remove_from_open_file_table t.fs fhandle).1 minus_one)) [
    | inl e ↦ rw (e, last, d) (refl, inr (refl, eqb_ℤ-zero (decrement t.open_files) last))
    | inr e ↦ rw (e, last, d) (refl, inr (refl, eqb_ℤ-zero (decrement t.open_files) last))
  ]
  | inr more ↦ elim (Bool-cases (eqb_ℤ (remove_from_open_file_table t.fs fhandle).1 minus_one)) [
    | inl e ↦ rw (e, more, d) (refl, inl (refl, eqb_ℤ-nonzero (decrement t.open_files) more))
    | inr e ↦ rw (e, more, d) (refl, inl (refl, eqb_ℤ-nonzero (decrement t.open_files) more))
  ]
]

perform_closes-Woken :
    (t : Tfs) (fhandle : ℤ) → t.called_destroy ≡ destroy → Woken t (perform t (closes fhandle))
unfolding perform
perform_closes-Woken t fhandle d = tfs_close-Woken t fhandle d

perform_closes-IsCounted :
    (t : Tfs) (fhandle : ℤ) (h : ℕ)
    → fhandle ≡ pos h
    → IsCounted t
    → h < 20
    → t.fs.free_open_file_entries h ≡ taken
    → IsCounted (perform t (closes fhandle))
unfolding perform
perform_closes-IsCounted t fhandle h e counted small busy =
    rw e (tfs_close-IsCounted all_return_zero t h counted small busy)

-- All calls in turn.
unfoldable pub perform_all : Tfs → List Call → Tfs
perform_all t [] = t
perform_all t (c ∷ calls) = perform_all (perform t c) calls

-- A return means that no handle is in use; a thread that still sleeps when all calls are over
-- has a handle in use to wait for.
abbrev pub EndsWell : Tfs → Outcome → Type 0
EndsWell last (returned r ret rest) = (handles_in_use r.fs ≡ 0) × (perform_all r rest ≡ last)
EndsWell last (sleeping r) = (r ≡ last) × (0 < handles_in_use r.fs)

module _ (p : Pthread) where
  finish-EndsWell :
      (t : Tfs) (calls : List Call)
      → handles_in_use t.fs ≡ 0
      → EndsWell (perform_all t calls) (destroy_finish p t calls)
  finish-EndsWell t calls none_left = elim (Bool-cases p.unlock_destroy) [
    | inl e ↦ rw e (none_left, refl)
    | inr e ↦ rw e (none_left, refl)
  ]

  sleep-EndsWell :
      (t : Tfs) (calls : List Call)
      → IsCounted t
      → t.called_destroy ≡ destroy
      → t.open_files ≢ pos 0
      → ClosesInUse t calls
      → EndsWell (perform_all t calls) (sleep_until_closed t calls (destroy_finish p))
  unfolding sleep_until_closed perform_all
  sleep-EndsWell t [] counted d some_open valid = (refl, ground (arith, counted.1))
  sleep-EndsWell t (opens name flags ∷ calls) counted d some_open valid =
      let same = perform_opens t name flags d in
      rw (same, ==_self t.broadcasts, sleep_until_closed)
        (sleep-EndsWell t calls counted d some_open (subst (λ u. ClosesInUse u calls) same valid))
  sleep-EndsWell t (closes fhandle ∷ calls) counted d some_open ((h, e, small, busy), valid) =
      let u = perform t (closes fhandle) in
      let counted' = perform_closes-IsCounted t fhandle h e counted small busy in
      let (d', woken) = perform_closes-Woken t fhandle d in
      elim woken [
        | inl (quiet, more) ↦
            let asleep : (u.broadcasts == t.broadcasts) ≡ true = ground arith in
            rw asleep (sleep-EndsWell u calls counted' d' more valid)
        | inr (loud, last) ↦
            let awake : (u.broadcasts == t.broadcasts) ≡ false = ground arith in
            let done : handles_in_use u.fs ≡ 0 = ground (arith, counted'.1) in
            let test : eqb_ℤ u.open_files (pos 0) ≡ true = ap (λ z. eqb_ℤ z (pos 0)) last in
            rw (awake, test) (finish-EndsWell u calls done)
      ]

-- Provided that the tables are valid, that `open_files` counts the handles in use and that every
-- close is of a handle in use, `tfs_destroy_after_all_closed` with its lock call returning 0 never
-- returns while a handle is in use, and never sleeps on when all are closed: no wakeup is lost.
pub tfs_destroy_after_all_closed-EndsWell :
    (p : Pthread) (t : Tfs) (calls : List Call)
    → p.lock_destroy ≡ true
    → IsCounted t
    → ClosesInUse (record t { called_destroy = destroy }) calls
    → EndsWell
        (perform_all (record t { called_destroy = destroy }) calls)
        (tfs_destroy_after_all_closed p t calls)
unfolding tfs_destroy_after_all_closed
tfs_destroy_after_all_closed-EndsWell p t calls locked counted valid =
    let marked : Tfs = record t { called_destroy = destroy } in
    elim (Bool-cases (eqb_ℤ t.open_files (pos 0))) [
      | inl e ↦
          let zero = eqb_ℤ-zero t.open_files e in
          let done : handles_in_use t.fs ≡ 0 = ground (arith, counted.1) in
          rw (locked, e, tfs_destroy_after_all_closed) (finish-EndsWell p marked calls done)
      | inr e ↦
          let more = eqb_ℤ-nonzero t.open_files e in
          rw (locked, e, tfs_destroy_after_all_closed)
            (sleep-EndsWell p marked calls counted refl more valid)
    ]
