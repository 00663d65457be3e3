-- ===== src/Operations/Reload.antt =====
-- A file that is written and closed, and opened again by its name: `tfs_write`, `tfs_close`,
-- `tfs_open` and `tfs_read` of operations.c one after the other.
use Prim.Native.Nat.{min}
use server_client.Common.{
  ℕ, ◌≤◌, ◌<◌, ◌≡◌, refl, ap, sym, ◌∙◌, subst, inl, inr, Bool-cases, leb, some, List, arith,
  ==_self, lt→ltb, take, drop, length, length-take, take_all, pos,
}
use server_client.Memory.Laws.{overwrite}
use server_client.State.{FsState, taken, free}
use server_client.State.Directory.{find_in_dir}
use server_client.State.OpenFiles.{remove_from_open_file_table}
use server_client.State.Results.{closed_state, opened_state, add_to_open_file_table-Opened}
use server_client.State.Invariant.{Inv}
use server_client.State.Invariant.Data.{FileInUse}
use server_client.State.Invariant.Handles.{closed_state-Inv, opened_state-Inv}
use server_client.Operations.{Tfs, init, all_return_zero, tfs_write, tfs_close, tfs_open, tfs_read}
use server_client.Operations.Open.{tfs_lookup_unsynchronized, tfs_open_unsynchronized, has_flag}
use server_client.Operations.Open.Outcome.{open_existing_lem}
use server_client.Operations.Transfer.Write.{contents, offset_of}
use server_client.Operations.Transfer.Effect.{file_of, IsOpenAt, contents-length}
use server_client.Operations.Transfer.Frame.{lookup-Frame}
use server_client.Operations.Read.{readable, tfs_read-contents}
use server_client.Operations.Write.{writable, HasRoom, tfs_write-HasRoom}

-- A close of a handle in use.
tfs_close_lem :
    (t : Tfs) (h : ℕ)
    → h < 20
    → t.fs.free_open_file_entries h ≡ taken
    → (t' : Tfs) × (tfs_close all_return_zero t (pos h) ≡ (t', pos 0))
      × (t'.fs ≡ closed_state t.fs h)
      × (t'.called_destroy ≡ t.called_destroy)
unfolding tfs_close remove_from_open_file_table
tfs_close_lem t h below busy = (
  (tfs_close all_return_zero t (pos h)).0,
  rw (lt→ltb h 20 below, busy) refl,
  rw (lt→ltb h 20 below, busy) refl,
  rw (lt→ltb h 20 below, busy) refl,
)

-- An open without flags of a name that leads to a file, with a handle left.
reopen_lem :
    (s : FsState) (i h : ℕ) (name : List ℕ)
    → Inv s
    → FileInUse s i
    → tfs_lookup_unsynchronized s name ≡ pos i
    → h < 20
    → s.free_open_file_entries h ≡ free
    → (g : ℕ) × (g < 20)
      × (tfs_open_unsynchronized s name (pos 0) ≡ (opened_state s g (pos i) 0, pos g))
unfolding tfs_open_unsynchronized has_flag
reopen_lem s i h name inv file there below vacant =
    elim (add_to_open_file_table-Opened s (pos i) 0) [
      | inl (r, full) ↦ absurd (let busy = full h below in cc)
      | inr (g, small, unused, r) ↦ (
        g,
        small,
        rw (there, tfs_open_unsynchronized) (open_existing_lem s i (pos 0) inv file ∙ r),
      )
    ]

tfs_open_lem :
    (t : Tfs) (name : List ℕ) (r : FsState) (g : ℕ)
    → t.called_destroy ≡ init
    → tfs_open_unsynchronized t.fs name (pos 0) ≡ (r, pos g)
    → (t' : Tfs) × (tfs_open all_return_zero t name (pos 0) ≡ (t', pos g)) × (t'.fs ≡ r)
unfolding tfs_open
tfs_open_lem t name r g running e =
    ((tfs_open all_return_zero t name (pos 0)).0, rw (running, e) refl, rw (running, e) refl)

take-min : (n : ℕ) (xs : List ℕ) → take (min n (length xs)) xs ≡ take n xs
take-min n xs = elim (Bool-cases (leb n (length xs))) [
  | inl short ↦
      let few : n ≤ length xs = ground arith in
      let same : min n (length xs) ≡ n = omega arith in ap (λ k. take k xs) same
  | inr long ↦
      let more : length xs ≤ n = ground arith in
      take_all (min n (length xs)) xs (omega arith) ∙ sym (take_all n xs more)
]

-- A read from the start of a file.
read_from_start :
    (t : Tfs) (g i want : ℕ)
    → Inv t.fs
    → IsOpenAt t.fs g
    → file_of t.fs g ≡ i
    → offset_of t.fs g ≡ 0
    → let bytes = take want (contents t.fs i) in
      (t' : Tfs) × (tfs_read all_return_zero t (pos g) want ≡ some (t', pos (length bytes), bytes))
read_from_start t g i want inv at is start =
    let (r, e, advanced) = tfs_read-contents t g want inv at in
    let all = contents t.fs (file_of t.fs g) in
    let size = contents-length t.fs (file_of t.fs g) in
    let count : readable t.fs g want ≡ min want (length all) = omega arith in
    let bytes : take (readable t.fs g want) (drop (offset_of t.fs g) all) ≡ take want all =
      ap (λ k. take (readable t.fs g want) (drop k all)) start
      ∙ ap (λ k. take k all) count
      ∙ take-min want all in
    let n : readable t.fs g want ≡ length (take want all) = count ∙ sym (length-take want all) in
    let t' : Tfs = record t { fs = r } in
    (
      t',
      subst
          (λ j.
            tfs_read all_return_zero t (pos g) want
            ≡ some (t', pos (length (take want (contents t.fs j))), take want (contents t.fs j)))
          is
          (e
            ∙ ap (λ b. some (t', pos (readable t.fs g want), b)) bytes
            ∙ ap (λ k. some (t', pos k, take want all)) n),
    )

-- `i` is a file with the bytes `saved`, `name` leads to it, and the handle `h` is free.
abbrev IsSaved : ℕ → ℕ → List ℕ → List ℕ → FsState → Type 0
IsSaved i h name saved s =
    Inv s
    × FileInUse s i
    × (tfs_lookup_unsynchronized s name ≡ pos i)
    × (s.free_open_file_entries h ≡ free)
    × (contents s i ≡ saved)

opened_state-IsOpenAt :
    (s : FsState) (g i : ℕ)
    → g < 20
    → let s' = opened_state s g (pos i) 0 in
      IsOpenAt s' g × (file_of s' g ≡ i) × (offset_of s' g ≡ 0)
opened_state-IsOpenAt s g i below =
    let s' = opened_state s g (pos i) 0 in
    let start : offset_of s' g ≡ 0 = rw (offset_of, ==_self g) in
    ((below, rw (==_self g), omega arith), rw (==_self g), start)

reopen-read :
    (t : Tfs) (i h want : ℕ) (name saved : List ℕ)
    → t.called_destroy ≡ init
    → h < 20
    → IsSaved i h name saved t.fs
    → let bytes = take want saved in
      (t3 : Tfs) × (t4 : Tfs) × (g : ℕ) × (tfs_open all_return_zero t name (pos 0) ≡ (t3, pos g))
      × (tfs_read all_return_zero t3 (pos g) want ≡ some (t4, pos (length bytes), bytes))
unfolding contents
reopen-read t i h want name saved running below (inv, file, there, vacant, kept) =
    let (g, small, e) = reopen_lem t.fs i h name inv file there below vacant in
    let (t3, opened, fs3) = tfs_open_lem t name (opened_state t.fs g (pos i) 0) g running e in
    let (at, is, start) = opened_state-IsOpenAt t.fs g i small in
    let inv3 = opened_state-Inv t.fs inv g (pos i) 0 (refl, file.0, file.1, file.2) (omega arith) in
    let Fits : FsState → Type 0 = λ s.
      Inv s × IsOpenAt s g × (file_of s g ≡ i) × (offset_of s g ≡ 0) × (contents s i ≡ saved) in
    let (inv', at', is', start', kept') : Fits t3.fs =
      subst Fits (sym fs3) (inv3, at, is, start, kept) in
    let (t4, read) = read_from_start t3 g i want inv' at' is' start' in
    (
      t3,
      t4,
      g,
      opened,
      subst
          (λ b.
            tfs_read all_return_zero t3 (pos g) want
            ≡ some (t4, pos (length (take want b)), take want b))
          kept' read,
    )

closed_state-IsSaved :
    (s : FsState) (i h : ℕ) (name saved : List ℕ)
    → Inv s
    → FileInUse s i
    → tfs_lookup_unsynchronized s name ≡ pos i
    → contents s i ≡ saved
    → IsSaved i h name saved (closed_state s h)
unfolding contents tfs_lookup_unsynchronized find_in_dir
closed_state-IsSaved s i h name saved inv file there kept =
    (closed_state-Inv s inv h, file, there, rw (==_self h), kept)

-- What is written is there when the file is opened again: the tables are valid, the file system is
-- not being destroyed, the handle is in use with its offset inside the file, the file has a block
-- or one is free, the name leads to the file, the buffer holds the bytes of the request, fewer than
-- 2 ^ 63, and every pthread call returns 0. Then a write, a close of the handle, an open of the
-- name without flags and a read through the new handle all succeed, and the read returns from the
-- file's start the bytes of the write, as many as fit into the block, over those the file had.
pub tfs_read-tfs_write :
    (t : Tfs) (h : ℕ) (name buffer : List ℕ) (len want : ℕ)
    → Inv t.fs
    → t.called_destroy ≡ init
    → IsOpenAt t.fs h
    → HasRoom t.fs h
    → tfs_lookup_unsynchronized t.fs name ≡ pos (file_of t.fs h)
    → len < 9223372036854775808
    → len ≤ length buffer
    → let n = writable t.fs h len in
      let saved = overwrite (offset_of t.fs h) (take n buffer) (contents t.fs (file_of t.fs h)) in
      let bytes = take want saved in
      (t1 : Tfs) × (t2 : Tfs) × (t3 : Tfs) × (t4 : Tfs) × (g : ℕ) × (tfs_write all_return_zero t
          (pos h)
          buffer
          len
        ≡ some (t1, pos n))
      × (tfs_close all_return_zero t1 (pos h) ≡ (t2, pos 0))
      × (tfs_open all_return_zero t2 name (pos 0) ≡ (t3, pos g))
      × (tfs_read all_return_zero t3 (pos g) want ≡ some (t4, pos (length bytes), bytes))
tfs_read-tfs_write t h name buffer len want inv running at room there small enough =
    let i = file_of t.fs h in
    let is = inv.handles h at.0 at.1 in
    let (r, wrote, inv1, done, frame) = tfs_write-HasRoom t h buffer len inv at room small enough in
    let t1 : Tfs = record t { fs = r } in
    let busy : r.free_open_file_entries h ≡ taken = ap (λ f. f h) frame.1 ∙ at.1 in
    let (t2, closed, fs2, running2) = tfs_close_lem t1 h at.0 busy in
    let is1 = inv1.handles h at.0 busy in
    let file = subst (FileInUse r) done.2 (is1.1, is1.2, is1.3) in
    let found = lookup-Frame t.fs r h name inv inv1 frame ∙ there in
    let saved =
      overwrite (offset_of t.fs h) (take (writable t.fs h len) buffer) (contents t.fs i) in
    let (t3, t4, g, opened, read) = reopen-read t2 i h want name saved (running2 ∙ running) at.0 (
      subst (IsSaved i h name saved) (sym fs2)
        (closed_state-IsSaved r i h name saved inv1 file found done.0)) in
    (t1, t2, t3, t4, g, wrote, closed, opened, read)
