-- ===== src/Operations/Transfer.antt =====
-- operations.c: `_tfs_write_unsynchronized` and `_tfs_read_unsynchronized`. `size_t` has 64 bits
-- and wraps. The caller's buffer holds at least the bytes that it announces.
pub mod Write
pub mod Effect
pub mod Frame
use server_client.Common.{
  ℕ, ◌+◌, ◌-◌, ◌*◌, ◌%◌, ◌==◌, Bool, true, false, not, Option, none, some, List, [], if◌then◌else◌,
  ltb, leb, take, update, ℤ, pos, negsuc, minus_one,
}
use server_client.Memory.{load, store}
use server_client.State.{
  FsState, Inode, OpenFileEntry, block_size, data_blocks, inode_get, data_block_get, set_inode,
}
use server_client.State.Blocks.{data_block_alloc}
use server_client.State.OpenFiles.{get_open_file_entry}

-- 2 ^ 64
abbrev pub size_mod : ℕ
size_mod = 18446744073709551616

abbrev pub fs_data_size : ℕ
fs_data_size = block_size * data_blocks

-- `(ssize_t)n`
abbrev pub to_ssize : ℕ → ℤ
to_ssize n = if ltb n 9223372036854775808 then pos n else negsuc (size_mod - 1 - n)

abbrev pub set_offset : FsState → ℕ → ℕ → FsState
set_offset s h offset = record s {
  open_file_table =
      update s.open_file_table h (record (s.open_file_table h) { of_offset = offset });
}

-- How many bytes are written from the offset on: at most up to the end of the block.
abbrev pub write_length : ℕ → ℕ → ℕ
write_length to_write offset =
    if ltb block_size ((to_write + offset) % size_mod)
    then (block_size + size_mod - offset) % size_mod
    else to_write

-- An empty file gets a block; -1 in `i_data_block` if there is none.
unfoldable pub claim_block : FsState → ℕ → FsState
claim_block s i =
    let node = s.inode_table i in
    let (s', b) = data_block_alloc s in
    if node.i_size == 0 then set_inode s' i (record node { i_data_block = b }) else s

-- `memcpy`, then the offset and the size.
unfoldable pub write_block : FsState → ℕ → ℕ → List ℕ → ℕ → ℕ → Option (FsState × ℤ)
write_block s h i buffer n block =
    let node = s.inode_table i in
    let offset = (s.open_file_table h).of_offset in
    let written : FsState = record s {
      fs_data = store s.fs_data (block + offset) (take n buffer);
    } in
    let moved = set_offset written h (offset + n) in
    let grown = set_inode moved i (record node { i_size = offset + n }) in
    if ltb fs_data_size (block + offset + n)
    then none
    else if ltb node.i_size (offset + n)
    then some (grown, to_ssize n)
    else some (moved, to_ssize n)

unfoldable pub write_inode : FsState → ℕ → ℕ → List ℕ → ℕ → Option (FsState × ℤ)
write_inode s h i buffer n =
    let s' = claim_block s i in
    if n == 0 then some (s, pos 0) else elim (data_block_get (s'.inode_table i).i_data_block) [
      | none ↦ some (s', minus_one)
      | some block ↦ write_block s' h i buffer n block
    ]

unfoldable pub tfs_write_unsynchronized : FsState → ℤ → List ℕ → ℕ → Option (FsState × ℤ)
tfs_write_unsynchronized s fhandle buffer to_write = elim (get_open_file_entry fhandle) [
  | none ↦ some (s, minus_one)
  | some h ↦
      let file = s.open_file_table h in
      elim (inode_get file.of_inumber) [
        | none ↦ some (s, minus_one)
        | some i ↦ write_inode s h i buffer (write_length to_write file.of_offset)
      ]
]

-- `i_size - of_offset` wraps; then at most `len`.
abbrev pub read_length : ℕ → ℕ → ℕ → ℕ
read_length size offset len =
    let rest = (size + size_mod - offset) % size_mod in if ltb len rest then len else rest

unfoldable pub read_inode : FsState → ℕ → ℕ → ℕ → Option (FsState × ℤ × List ℕ)
read_inode s h i n =
    let offset = (s.open_file_table h).of_offset in
    if n == 0 then some (s, pos 0, []) else elim (data_block_get (s.inode_table i).i_data_block) [
      | none ↦ some (s, minus_one, [])
      | some block ↦
          if ltb fs_data_size (block + offset + n)
          then none
          else some (set_offset s h (offset + n), to_ssize n, load s.fs_data (block + offset) n)
    ]

unfoldable pub tfs_read_unsynchronized : FsState → ℤ → ℕ → Option (FsState × ℤ × List ℕ)
tfs_read_unsynchronized s fhandle len = elim (get_open_file_entry fhandle) [
  | none ↦ some (s, minus_one, [])
  | some h ↦
      let file = s.open_file_table h in
      elim (inode_get file.of_inumber) [
        | none ↦ some (s, minus_one, [])
        | some i ↦ read_inode s h i (read_length (s.inode_table i).i_size file.of_offset len)
      ]
]
