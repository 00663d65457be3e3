-- ===== src/Operations/Read.antt =====
-- `tfs_read` of operations.c through a handle in use, with every pthread call returning 0.
use Prim.Native.Nat.{min}
use server_client.Common.{
  ℕ, ◌+◌, ◌-◌, ◌*◌, ◌%◌, ◌≤◌, ◌<◌, ◌≡◌, ◌≢◌, refl, ap, ◌∙◌, inl, inr, some, arith, Bool-cases, ltb,
  ◌==◌, lt→ltb, le→ltb, take, drop, pos,
}
use server_client.Memory.Laws.{load_slice}
use server_client.State.{FsState, inode_get}
use server_client.State.Invariant.{Inv, block_of}
use server_client.State.Invariant.Data.{data-Owns, size-le}
use server_client.State.OpenFiles.{get_open_file_entry}
use server_client.Operations.{Tfs, all_return_zero, tfs_read}
use server_client.Operations.Transfer.{read_inode, tfs_read_unsynchronized, read_length, set_offset}
use server_client.Operations.Transfer.Write.{contents, offset_of, data_block_get_valid}
use server_client.Operations.Transfer.Effect.{file_of, size_of, IsOpenAt}

-- How many bytes are left behind the offset, at most `len`.
abbrev pub readable : FsState → ℕ → ℕ → ℕ
readable s h len = min len (size_of s (file_of s h) - offset_of s h)

read_length-readable :
    (size offset len : ℕ)
    → size ≤ 1024
    → offset ≤ size
    → read_length size offset len ≡ min len (size - offset)
read_length-readable size offset len small inside =
    let rest : (size + 18446744073709551616 - offset) % 18446744073709551616 ≡ size - offset =
      omega arith in
    rw rest (elim (Bool-cases (ltb len (size - offset))) [
      | inl short ↦ rw short (let h : len < size - offset = ground arith in omega arith)
      | inr long ↦ rw long (let h : size - offset ≤ len = ground arith in omega arith)
    ])

-- Only the offset of the handle `h` moves, by `n`.
abbrev pub Advanced : FsState → ℕ → ℕ → FsState → Type 0
Advanced s h n r =
    (offset_of r h ≡ offset_of s h + n)
    × (file_of r h ≡ file_of s h)
    × (r.inode_table ≡ s.inode_table)
    × (r.fs_data ≡ s.fs_data)
    × (r.freeinode_ts ≡ s.freeinode_ts)
    × (r.free_blocks ≡ s.free_blocks)
    × (r.free_open_file_entries ≡ s.free_open_file_entries)
    × ((g : ℕ) → h ≢ g → r.open_file_table g ≡ s.open_file_table g)

module _ (s : FsState) (h len : ℕ) (inv : Inv s) (at : IsOpenAt s h) where
  tfs_read_unsynchronized_lem :
      tfs_read_unsynchronized s (pos h) len ≡ read_inode s h (file_of s h) (readable s h len)
  unfolding tfs_read_unsynchronized get_open_file_entry inode_get
  tfs_read_unsynchronized_lem =
      let is = inv.handles h at.0 at.1 in
      let n =
        read_length-readable (size_of s (file_of s h)) (offset_of s h) len
          (size-le s (file_of s h) inv (is.1, is.2, is.3)) at.2 in
      let found : inode_get (s.open_file_table h).of_inumber ≡ some (file_of s h) =
        rw (is.0, lt→ltb (file_of s h) 50 is.2) in
      rw (lt→ltb h 20 at.0, found, tfs_read_unsynchronized) (ap (read_inode s h (file_of s h)) n)

  read_inode-Advanced :
      (n : ℕ)
      → offset_of s h + n ≤ size_of s (file_of s h)
      → (r : FsState) × (read_inode s h (file_of s h) n
          ≡ some (r, pos n, take n (drop (offset_of s h) (contents s (file_of s h)))))
        × Advanced s h n r
  unfolding read_inode contents
  read_inode-Advanced n inside = elim (Bool-cases (n == 0)) [
    | inl nothing ↦
        let e : n ≡ 0 = ground arith in
        (s, rw e, (omega arith, refl, refl, refl, refl, refl, refl, λ g ne. refl))
    | inr something ↦
        let is = inv.handles h at.0 at.1 in
        let i = file_of s h in
        let owns = data-Owns s inv i (is.1, is.2, is.3) (ground arith) in
        let small = inv.small i (is.2, is.3, ground arith) in
        let got = data_block_get_valid (s.inode_table i).i_data_block owns.0.0 owns.0.1 in
        let in_data = le→ltb 1048576 (block_of s i * 1024 + offset_of s h + n) (omega arith) in
        let short = lt→ltb n 9223372036854775808 (omega arith) in
        let slice =
          load_slice s.fs_data (block_of s i * 1024) (block_of s i * 1024 + offset_of s h)
            (offset_of s h) n (size_of s i) refl inside in
        (
          set_offset s h (offset_of s h + n),
          rw (something, got, in_data, short, read_inode)
              (ap (λ bytes. some (set_offset s h (offset_of s h + n), pos n, bytes)) slice),
          (ground arith, ground arith, refl, refl, refl, refl, refl, λ g ne. ground arith),
        )
  ]

-- `tfs_read` through a handle in use whose offset lies inside the file always returns: the bytes
-- of the file from the offset on, as many as are left and at most `len`. The offset moves behind
-- them, and nothing else in the tables changes.
pub tfs_read-contents :
    (t : Tfs) (h len : ℕ)
    → Inv t.fs
    → IsOpenAt t.fs h
    → let n = readable t.fs h len in
      let bytes = take n (drop (offset_of t.fs h) (contents t.fs (file_of t.fs h))) in
      (r : FsState) × (tfs_read all_return_zero t (pos h) len
        ≡ some (record t { fs = r }, pos n, bytes))
      × Advanced t.fs h n r
unfolding tfs_read
tfs_read-contents t h len inv at =
    let n = readable t.fs h len in
    let (r, e, advanced) = read_inode-Advanced t.fs h len inv at n (omega arith) in
    let whole = tfs_read_unsynchronized_lem t.fs h len inv at ∙ e in (r, rw whole, advanced)
