-- ===== src/Tests/Files.antt =====
-- The theorems about operations.c at concrete inputs.
use server_client.Common.{
  ℕ, ◌≡◌, refl, subst, sym, Option, none, some, List, [], ◌∷◌, ℤ, pos, minus_one, arith, count,
  take, drop, length, inl, inr,
}
use server_client.Memory.{load, store}
use server_client.Memory.Laws.{overwrite}
use server_client.State.{FsState}
use server_client.State.Directory.{entry_inumber}
use server_client.State.Invariant.{Inv}
use server_client.Operations.{
  Tfs, destroy, all_return_zero, tfs_open, tfs_close, tfs_write, tfs_read,
}
use server_client.Operations.Init.{tfs_init-Inv}
use server_client.Operations.Open.{tfs_open_unsynchronized}
use server_client.Operations.Open.Naming.{
  CreateOutcome, open-CreateOutcome, open_no_slash, root_path,
}
use server_client.Operations.Open.Existing.{ExistingOutcome, open-ExistingOutcome}
use server_client.Operations.Counting.{
  IsCounted, tfs_open-IsCounted, tfs_close-IsCounted, tfs_close_refused,
}
use server_client.Operations.Shutdown.{
  Call, opens, closes, EndsWell, perform_all, perform, tfs_destroy_after_all_closed,
  tfs_destroy_after_all_closed-EndsWell,
}
use server_client.Operations.Transfer.{
  tfs_write_unsynchronized, tfs_read_unsynchronized, set_offset,
}
use server_client.Operations.Transfer.Write.{contents, offset_of}
use server_client.Operations.Transfer.Effect.{file_of, IsOpenAt, WriteEffect}
use server_client.Operations.Write.{writable, tfs_write-WriteEffect}
use server_client.Operations.Read.{readable, Advanced, tfs_read-contents}
use server_client.Operations.Open.Isolation.{contents-tfs_open_unsynchronized}
use server_client.Operations.Reload.{tfs_read-tfs_write}
use server_client.Operations.Faults.{tfs_read_past_end, tfs_write_unopened}
use server_client.Tests.Runs.{static_tfs, started, opened, name, reopened}

tfs_init-Inv_example :
    (started.open_files ≡ pos 0) × (entry_inumber started.fs.fs_data 0 7 ≡ minus_one)
tfs_init-Inv_example = let r = tfs_init-Inv static_tfs in (r.3, r.5 7 (omega arith))

started-IsCounted : IsCounted started
unfolding reopened count
started-IsCounted = ((tfs_init-Inv static_tfs).1, refl)

tfs_open-IsCounted_example : IsCounted opened
tfs_open-IsCounted_example =
    tfs_open-IsCounted all_return_zero started name (pos 1) started-IsCounted

pub opened-IsCounted : IsCounted opened
opened-IsCounted = tfs_open-IsCounted all_return_zero started name (pos 1) started-IsCounted

tfs_close-IsCounted_example : IsCounted (tfs_close all_return_zero opened (pos 0)).0
unfolding reopened
tfs_close-IsCounted_example =
    tfs_close-IsCounted all_return_zero opened 0 opened-IsCounted (omega arith) refl

-- "f1"
abbrev rest : List ℕ
rest = b'f' ∷ b'1' ∷ []

open-CreateOutcome_example :
    CreateOutcome started.fs rest (tfs_open_unsynchronized started.fs (root_path rest) (pos 1))
unfolding reopened
open-CreateOutcome_example =
    open-CreateOutcome started.fs started-IsCounted.0 rest (omega arith) (omega arith) (omega arith)
      refl (pos 1) refl

open-ExistingOutcome_example :
    ExistingOutcome opened.fs 1 (pos 2) (tfs_open_unsynchronized opened.fs name (pos 2))
unfolding reopened
open-ExistingOutcome_example = open-ExistingOutcome opened.fs name (pos 2) 1 opened-IsCounted.0 refl

pub opened-IsOpenAt : IsOpenAt opened.fs 0
unfolding reopened
opened-IsOpenAt = (omega arith, refl, omega arith)

tfs_write-WriteEffect_example :
    (r : FsState) × (ret : ℤ) × (tfs_write all_return_zero opened (pos 0) (7 ∷ 8 ∷ 9 ∷ []) 2
      ≡ some (record opened { fs = r }, ret))
    × WriteEffect opened.fs 0 (writable opened.fs 0 2) (7 ∷ 8 ∷ 9 ∷ []) r ret
tfs_write-WriteEffect_example =
    tfs_write-WriteEffect opened 0 (7 ∷ 8 ∷ 9 ∷ []) 2 opened-IsCounted.0 opened-IsOpenAt
      (omega arith) (omega arith)

-- The file "/f1" after ten bytes are written through the handle 0, and after a second handle on
-- it, 1, is opened at its start.
abbrev ten : List ℕ
ten = 1 ∷ 2 ∷ 3 ∷ 4 ∷ 5 ∷ 6 ∷ 7 ∷ 8 ∷ 9 ∷ 10 ∷ []

abbrev or_else : Option (Tfs × ℤ) → Tfs
or_else none = opened
or_else (some (t, r)) = t

abbrev filled : Tfs
filled = or_else (tfs_write all_return_zero opened (pos 0) ten 10)

abbrev pub shared : Tfs
shared = (tfs_open all_return_zero filled name (pos 0)).0

filled-Inv : Inv filled.fs
filled-Inv =
    let (r, ret, e, effect) =
      tfs_write-WriteEffect opened 0 ten 10 opened-IsCounted.0 opened-IsOpenAt (omega arith)
        (omega arith) in
    subst (λ o. Inv (or_else o).fs) (sym e) effect.0

filled-IsCounted : IsCounted filled
unfolding reopened count
filled-IsCounted = (filled-Inv, refl)

pub shared-Inv : Inv shared.fs
shared-Inv = (tfs_open-IsCounted all_return_zero filled name (pos 0) filled-IsCounted).0

pub shared-IsOpenAt : IsOpenAt shared.fs 1
unfolding reopened
shared-IsOpenAt = (omega arith, refl, omega arith)

tfs_read-contents_example :
    let bytes =
      take
        (readable shared.fs 1 4)
        (drop (offset_of shared.fs 1) (contents shared.fs (file_of shared.fs 1))) in
    (r : FsState) × (tfs_read all_return_zero shared (pos 1) 4
      ≡ some (record shared { fs = r }, pos (readable shared.fs 1 4), bytes))
    × Advanced shared.fs 1 (readable shared.fs 1 4) r
tfs_read-contents_example = tfs_read-contents shared 1 4 shared-Inv shared-IsOpenAt

-- The last handle is closed while `tfs_destroy_after_all_closed` waits for it.
abbrev others : List Call
others = opens name (pos 1) ∷ closes (pos 0) ∷ []

tfs_destroy_after_all_closed-EndsWell_example :
    EndsWell
      (perform_all (record opened { called_destroy = destroy }) others)
      (tfs_destroy_after_all_closed all_return_zero opened others)
unfolding reopened perform
tfs_destroy_after_all_closed-EndsWell_example =
    tfs_destroy_after_all_closed-EndsWell all_return_zero opened others refl opened-IsCounted
      ((0, refl, omega arith, refl), tt)

tfs_close_refused_example : ¬ IsCounted (tfs_close all_return_zero opened (pos 5)).0
unfolding reopened
tfs_close_refused_example =
    (tfs_close_refused opened (pos 5) opened-IsCounted (λ h e b. ground arith)).3

-- "/f1" truncated by a second open, with the handle 0 still at the offset 10.
abbrev cut : Tfs
cut = (tfs_open all_return_zero filled name (pos 2)).0

tfs_read_past_end_example :
    tfs_read_unsynchronized cut.fs (pos 0) 4
    ≡ some (set_offset cut.fs 0 14, pos 4, load cut.fs.fs_data 1034 4)
unfolding reopened
tfs_read_past_end_example =
    tfs_read_past_end cut.fs 0 4 (omega arith) refl (omega arith) refl (omega arith) (omega arith)
      (omega arith) (omega arith)

tfs_write_unopened_example :
    tfs_write_unsynchronized started.fs (pos 3) (255 ∷ 255 ∷ []) 2
    ≡ some (
      set_offset (record started.fs { fs_data = store started.fs.fs_data 0 (255 ∷ 255 ∷ []) }) 3 2,
      pos 2,
    )
unfolding reopened
tfs_write_unopened_example =
    tfs_write_unopened started.fs 3 2 (255 ∷ 255 ∷ []) started-IsCounted.0 (omega arith) refl refl
      (omega arith) (omega arith)

open_no_slash_example :
    CreateOutcome started.fs rest (tfs_open_unsynchronized started.fs (b'x' ∷ rest) (pos 1))
unfolding reopened
open_no_slash_example =
    open_no_slash started.fs started-IsCounted.0 rest (omega arith) (omega arith) (omega arith) refl
      b'x' (pos 1) (omega arith) (λ e. ground arith) refl

tfs_read-tfs_write_example :
    let n = writable opened.fs 0 2 in
    let saved =
      overwrite
        (offset_of opened.fs 0)
        (take n (7 ∷ 8 ∷ 9 ∷ []))
        (contents opened.fs (file_of opened.fs 0)) in
    let bytes = take 5 saved in
    (t1 : Tfs) × (t2 : Tfs) × (t3 : Tfs) × (t4 : Tfs) × (g : ℕ) × (tfs_write all_return_zero opened
        (pos 0)
        (7 ∷ 8 ∷ 9 ∷ [])
        2
      ≡ some (t1, pos n))
    × (tfs_close all_return_zero t1 (pos 0) ≡ (t2, pos 0))
    × (tfs_open all_return_zero t2 name (pos 0) ≡ (t3, pos g))
    × (tfs_read all_return_zero t3 (pos g) 5 ≡ some (t4, pos (length bytes), bytes))
unfolding reopened
tfs_read-tfs_write_example =
    tfs_read-tfs_write opened 0 name (7 ∷ 8 ∷ 9 ∷ []) 2 5 opened-IsCounted.0 refl opened-IsOpenAt
      (inr (900, omega arith, refl)) refl (omega arith) (omega arith)

contents-tfs_open_unsynchronized_example :
    contents (tfs_open_unsynchronized filled.fs (b'/' ∷ b'g' ∷ []) (pos 1)).0 1
    ≡ contents filled.fs 1
unfolding reopened
contents-tfs_open_unsynchronized_example =
    contents-tfs_open_unsynchronized filled.fs filled-Inv 1 (omega arith, refl, omega arith)
      (omega arith) (b'/' ∷ b'g' ∷ []) (pos 1) (inl refl)
