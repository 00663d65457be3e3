-- ===== src/Operations/Write.antt =====
-- `tfs_write` of operations.c through a handle in use, with every pthread call returning 0.
use Prim.Native.Nat.{min}
use server_client.Common.{
  ℕ, ◌+◌, ◌-◌, ◌%◌, ◌≤◌, ◌<◌, ◌≡◌, ap, ◌∙◌, ◌⊎◌, inl, inr, some, List, arith, Bool-cases, ltb,
  lt→ltb, length, ℤ, pos,
}
use server_client.State.{FsState, free, inode_get}
use server_client.State.Invariant.{Inv}
use server_client.State.OpenFiles.{get_open_file_entry}
use server_client.Operations.{Tfs, all_return_zero, tfs_write}
use server_client.Operations.Transfer.{write_inode, tfs_write_unsynchronized, write_length}
use server_client.Operations.Transfer.Write.{offset_of}
use server_client.Operations.Transfer.Frame.{Frame, write_inode-Frame}
use server_client.Operations.Transfer.Effect.{
  file_of, size_of, IsOpenAt, Overwrote, WriteEffect, write_inode-WriteEffect,
}

-- How many bytes fit.
abbrev pub writable : FsState → ℕ → ℕ → ℕ
writable s h to_write = min to_write (1024 - offset_of s h)

write_length-writable :
    (to_write offset : ℕ)
    → to_write < 9223372036854775808
    → offset ≤ 1024
    → write_length to_write offset ≡ min to_write (1024 - offset)
write_length-writable to_write offset small inside =
    let sum : (to_write + offset) % 18446744073709551616 ≡ to_write + offset = omega arith in
    let rest : (1024 + 18446744073709551616 - offset) % 18446744073709551616 ≡ 1024 - offset =
      omega arith in
    rw (sum, rest)
      (elim (Bool-cases (ltb 1024 (to_write + offset))) [
        | inl over ↦ rw over (let h : 1024 < to_write + offset = ground arith in omega arith)
        | inr fits ↦ rw fits (let h : to_write + offset ≤ 1024 = ground arith in omega arith)
      ])

-- With a handle in use the checks of the two tables pass.
pub tfs_write_unsynchronized_lem :
    (s : FsState) (h to_write : ℕ) (buffer : List ℕ)
    → Inv s
    → IsOpenAt s h
    → to_write < 9223372036854775808
    → tfs_write_unsynchronized s (pos h) buffer to_write
      ≡ write_inode s h (file_of s h) buffer (writable s h to_write)
unfolding tfs_write_unsynchronized get_open_file_entry inode_get
tfs_write_unsynchronized_lem s h to_write buffer inv at small =
    let is = inv.handles h at.0 at.1 in
    let n = write_length-writable to_write (offset_of s h) small (inv.offsets h at.0 at.1) in
    let got : get_open_file_entry (pos h) ≡ some h = rw (lt→ltb h 20 at.0) in
    let found : inode_get (s.open_file_table h).of_inumber ≡ some (file_of s h) =
      rw (is.0, lt→ltb (file_of s h) 50 is.2) in
    rw (lt→ltb h 20 at.0, found, tfs_write_unsynchronized)
      (ap (write_inode s h (file_of s h) buffer) n)

-- `tfs_write` through a handle in use whose offset lies inside the file, with a request below
-- 2 ^ 63 bytes that the buffer holds, always returns: either the number of bytes that fit into the
-- block, which overwrite the file's bytes at the offset, or -1, and then the file is empty and no
-- block is left. The invariant and every other file's bytes are kept.
pub tfs_write-WriteEffect :
    (t : Tfs) (h : ℕ) (buffer : List ℕ) (to_write : ℕ)
    → Inv t.fs
    → IsOpenAt t.fs h
    → to_write < 9223372036854775808
    → to_write ≤ length buffer
    → (r : FsState) × (ret : ℤ) × (tfs_write all_return_zero t (pos h) buffer to_write
        ≡ some (record t { fs = r }, ret))
      × WriteEffect t.fs h (writable t.fs h to_write) buffer r ret
unfolding tfs_write
tfs_write-WriteEffect t h buffer to_write inv at small enough =
    let room = inv.offsets h at.0 at.1 in
    let (r, ret, e, effect) =
      write_inode-WriteEffect t.fs h (writable t.fs h to_write) buffer inv at (omega arith)
        (omega arith) in
    let whole = tfs_write_unsynchronized_lem t.fs h to_write buffer inv at small ∙ e in
    (r, ret, rw whole, effect)

-- The file of the handle has a block, or one is free.
abbrev pub HasRoom : FsState → ℕ → Type 0
HasRoom s h = (0 < size_of s (file_of s h)) ⊎ ((k : ℕ) × (k < 1024) × (s.free_blocks k ≡ free))

-- With room for the bytes a write succeeds.
pub tfs_write-HasRoom :
    (t : Tfs) (h : ℕ) (buffer : List ℕ) (to_write : ℕ)
    → Inv t.fs
    → IsOpenAt t.fs h
    → HasRoom t.fs h
    → to_write < 9223372036854775808
    → to_write ≤ length buffer
    → let n = writable t.fs h to_write in
      (r : FsState) × (tfs_write all_return_zero t (pos h) buffer to_write
        ≡ some (record t { fs = r }, pos n))
      × Inv r
      × Overwrote t.fs h n buffer r
      × Frame t.fs h r
unfolding tfs_write
tfs_write-HasRoom t h buffer to_write inv at has small enough =
    let room = inv.offsets h at.0 at.1 in
    let n = writable t.fs h to_write in
    let (r, ret, e, (inv', effect)) =
      write_inode-WriteEffect t.fs h n buffer inv at (omega arith) (omega arith) in
    let is = inv.handles h at.0 at.1 in
    let frame =
      write_inode-Frame t.fs h (file_of t.fs h) n buffer r ret inv (is.1, is.2, is.3) (omega arith)
        e in
    let whole = tfs_write_unsynchronized_lem t.fs h to_write buffer inv at small ∙ e in
    elim effect [
      | inl (all, done) ↦
          (r, rw whole (ap (λ z. some (record t { fs = r }, z)) all), inv', done, frame)
      | inr (failed, empty, full, others) ↦ elim has [
        | inl large ↦ absurd (omega arith)
        | inr (k, below, vacant) ↦ absurd (ground (arith, full k below))
      ]
    ]
