-- ===== src/Operations/Faults.antt =====
-- Inputs at which the calls of operations.c do what they should not: a handle that is not checked
-- to be in use, a read behind the end of a truncated file, and a path with no slash.
use server_client.Common.{
  ℕ, ◌+◌, ◌-◌, ◌*◌, ◌%◌, ◌≤◌, ◌<◌, ◌≡◌, ap, ◌∙◌, false, some, List, arith, ltb, ◌==◌, lt→ltb,
  le→ltb, take, pos,
}
use server_client.Memory.{load, store}
use server_client.State.{FsState, free, inode_get, data_block_get}
use server_client.State.OpenFiles.{get_open_file_entry}
use server_client.State.Invariant.{Inv, block_of}
use server_client.Operations.Transfer.{
  tfs_write_unsynchronized, tfs_read_unsynchronized, read_inode, set_offset, claim_block,
  write_block, read_length, write_length,
}
use server_client.Operations.Transfer.Write.{offset_of, data_block_get_valid, write_inode_placed}
use server_client.Operations.Transfer.Effect.{file_of, size_of}

read_inode_past :
    (s : FsState) (h i len : ℕ)
    → (s.inode_table i).i_data_block ≡ pos (block_of s i)
    → block_of s i < 1024
    → 0 < len
    → offset_of s h + len ≤ 1024
    → read_inode s h i len
      ≡ some (
        set_offset s h (offset_of s h + len),
        pos len,
        load s.fs_data (block_of s i * 1024 + offset_of s h) len,
      )
unfolding read_inode
read_inode_past s h i len placed in_disk some_len fits =
    let got = data_block_get_valid (s.inode_table i).i_data_block placed in_disk in
    let something : (len == 0) ≡ false = ground arith in
    let inside = le→ltb 1048576 (block_of s i * 1024 + offset_of s h + len) (omega arith) in
    let short = lt→ltb len 9223372036854775808 (omega arith) in
    rw (something, got, inside, short, read_inode)

-- Through a handle whose offset lies behind the end of its file, as another handle's truncation
-- leaves it, `tfs_read` hands out as many bytes as were asked for, up to the end of the block,
-- although the file has none there: the size less the offset wraps.
pub tfs_read_past_end :
    (s : FsState) (h len : ℕ)
    → h < 20
    → (s.open_file_table h).of_inumber ≡ pos (file_of s h)
    → file_of s h < 50
    → (s.inode_table (file_of s h)).i_data_block ≡ pos (block_of s (file_of s h))
    → block_of s (file_of s h) < 1024
    → size_of s (file_of s h) < offset_of s h
    → 0 < len
    → offset_of s h + len ≤ 1024
    → tfs_read_unsynchronized s (pos h) len
      ≡ some (
        set_offset s h (offset_of s h + len),
        pos len,
        load s.fs_data (block_of s (file_of s h) * 1024 + offset_of s h) len,
      )
unfolding tfs_read_unsynchronized get_open_file_entry inode_get
tfs_read_past_end s h len small number in_table placed in_disk past some_len fits =
    let i = file_of s h in
    let rest : (size_of s i + 18446744073709551616 - offset_of s h) % 18446744073709551616
        ≡ size_of s i + 18446744073709551616 - offset_of s h =
      omega arith in
    let whole : read_length (size_of s i) (offset_of s h) len ≡ len =
      rw (rest, lt→ltb len (size_of s i + 18446744073709551616 - offset_of s h) (omega arith)) in
    let found : inode_get (s.open_file_table h).of_inumber ≡ some i =
      rw (number, lt→ltb i 50 in_table) in
    rw (lt→ltb h 20 small, found, tfs_read_unsynchronized)
      (ap (read_inode s h i) whole ∙ read_inode_past s h i len placed in_disk some_len fits)

write_length_zero : (n : ℕ) → n ≤ 1024 → write_length n 0 ≡ n
write_length_zero n fits =
    let sum : (n + 0) % 18446744073709551616 ≡ n = omega arith in rw (sum, le→ltb 1024 n fits)

write_block_root :
    (s : FsState) (h n : ℕ) (buffer : List ℕ)
    → Inv s
    → s.open_file_table h ≡ record { of_inumber = pos 0; of_offset = 0 }
    → n ≤ 1024
    → write_block s h 0 buffer n 0
      ≡ some (set_offset (record s { fs_data = store s.fs_data 0 (take n buffer) }) h n, pos n)
unfolding write_block
write_block_root s h n buffer inv entry fits =
    let at : offset_of s h ≡ 0 = ap (λ e. e.of_offset) entry in
    let end : 0 + n ≡ n = omega arith in
    let inside : ltb 1048576 n ≡ false = le→ltb 1048576 n (omega arith) in
    let grown : ltb 1024 n ≡ false = le→ltb 1024 n fits in
    let short = lt→ltb n 9223372036854775808 (omega arith) in
    rw (at, end, inside, inv.root, grown, short)

-- Whether the handle is in use is not asked: through an entry of the open file table that was
-- never used, and so holds the i-node 0 and the offset 0, `tfs_write` overwrites the root
-- directory.
pub tfs_write_unopened :
    (s : FsState) (h n : ℕ) (buffer : List ℕ)
    → Inv s
    → h < 20
    → s.free_open_file_entries h ≡ free
    → s.open_file_table h ≡ record { of_inumber = pos 0; of_offset = 0 }
    → 0 < n
    → n ≤ 1024
    → tfs_write_unsynchronized s (pos h) buffer n
      ≡ some (set_offset (record s { fs_data = store s.fs_data 0 (take n buffer) }) h n, pos n)
unfolding tfs_write_unsynchronized get_open_file_entry inode_get claim_block data_block_get
tfs_write_unopened s h n buffer inv small unused entry some_bytes fits =
    let something : (n == 0) ≡ false = ground arith in
    let long : write_length n 0 ≡ n = write_length_zero n fits in
    let claim : claim_block s 0 ≡ s = rw inv.root in
    let got : data_block_get (s.inode_table 0).i_data_block ≡ some 0 = rw inv.root in
    let found : inode_get (s.open_file_table h).of_inumber ≡ some 0 = rw entry in
    let at : offset_of s h ≡ 0 = ap (λ e. e.of_offset) entry in
    rw (lt→ltb h 20 small, found, at, long, tfs_write_unsynchronized)
      (write_inode_placed s s h 0 n buffer something claim 0 got
        ∙ write_block_root s h n buffer inv entry fits)
