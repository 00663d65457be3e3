-- ===== src/State/Inodes.antt =====
-- state.c: `inode_create` and `inode_delete`.
use server_client.Common.{
  ℕ, zero, suc, ◌+◌, ◌*◌, ◌||◌, not, none, some, update, if◌then◌else◌, ℤ, pos, minus_one, pos_part,
  eqb_ℤ, ltb,
}
use server_client.Memory.{Memory, write_int}
use server_client.State.{
  FsState, AllocationState, Inode, InodeType, t_file, t_directory, free, taken, is_taken,
  first_free, inode_table_size, block_size, dir_entry_size, max_dir_entries, valid_inumber,
  set_inode, data_block_get,
}
use server_client.State.Blocks.{data_block_alloc, data_block_free}

-- `for (i = 0; i < n; i++) dir_entry[i].d_inumber = -1`, at the address `dir_entry`.
unfoldable pub clear_entries : ℕ → ℕ → Memory → Memory
clear_entries zero dir_entry m = m
clear_entries (suc n) dir_entry m =
    write_int (clear_entries n dir_entry m) (dir_entry + dir_entry_size * n + 40) minus_one

abbrev pub set_free : FsState → ℕ → AllocationState → FsState
set_free s inumber a = record s { freeinode_ts = update s.freeinode_ts inumber a }

-- The tail of the directory branch, once the block `b` is allocated.
unfoldable pub fill_directory : FsState → ℕ → ℤ → FsState × ℤ
unfolding data_block_get
fill_directory s inumber b =
    let node : Inode = record {
      i_node_type = t_directory;
      i_size = block_size;
      i_data_block = b;
    } in
    let s' = set_inode s inumber node in
    elim (data_block_get b) [
      | none ↦ (set_free s' inumber free, minus_one)
      | some dir_entry ↦
          (record s' { fs_data = clear_entries max_dir_entries dir_entry s'.fs_data }, pos inumber)
    ]

unfoldable pub inode_fill : FsState → ℕ → InodeType → FsState × ℤ
unfolding fill_directory data_block_alloc
inode_fill s inumber t_directory =
    let (s', b) = data_block_alloc s in
    if eqb_ℤ b minus_one then (set_free s' inumber free, minus_one) else fill_directory s' inumber b
inode_fill s inumber t_file =
    let node : Inode = record { i_node_type = t_file; i_size = 0; i_data_block = minus_one } in
    (set_inode s inumber node, pos inumber)

-- The entry is taken and gets its type before the branches of `inode_fill`.
abbrev pub take_inode : FsState → ℕ → InodeType → FsState
take_inode s inumber n_type =
    set_inode (set_free s inumber taken) inumber
      (record (s.inode_table inumber) { i_node_type = n_type })

unfoldable pub inode_create : FsState → InodeType → FsState × ℤ
unfolding inode_fill
inode_create s n_type = elim (first_free s.freeinode_ts inode_table_size 0) [
  | none ↦ (s, minus_one)
  | some inumber ↦ inode_fill (take_inode s inumber n_type) inumber n_type
]

unfoldable pub inode_delete : FsState → ℤ → FsState × ℤ
unfolding data_block_free
inode_delete s inumber =
    let i = pos_part inumber in
    let s' = set_free s i free in
    let (freed, r) = data_block_free s' (s.inode_table i).i_data_block in
    if not (valid_inumber inumber) || not (is_taken (s.freeinode_ts i))
    then (s, minus_one)
    else if ltb 0 (s.inode_table i).i_size
    then (if eqb_ℤ r minus_one then (freed, minus_one) else (freed, pos 0))
    else (s', pos 0)
