-- ===== src/Tests/Runs.antt =====
-- Concrete runs of the file system: from static storage through create, write, reopen and read.
use server_client.Common.{ℕ, ◌≡◌, refl, Option, none, some, List, [], ◌∷◌, ℤ, pos}
use server_client.State.{FsState, t_file, free, state_init, data_block_get, first_free, inode_get}
use server_client.State.Blocks.{data_block_alloc, data_block_free}
use server_client.State.Inodes.{
  inode_create, inode_fill, fill_directory, clear_entries, inode_delete,
}
use server_client.State.Directory.{find_in_dir, add_dir_entry, find_entry, write_entry, empty_entry}
use server_client.State.OpenFiles.{
  add_to_open_file_table, get_open_file_entry, remove_from_open_file_table,
}
use server_client.Memory.{load, store, read_int, write_int, strncpy_bytes, strncmp_equal}
use server_client.Operations.{
  Tfs, init, all_return_zero, tfs_init, tfs_open, open_locked, tfs_close, close_finish, tfs_write,
  tfs_read,
}
use server_client.Operations.Open.{
  tfs_open_unsynchronized, tfs_lookup_unsynchronized, has_flag, valid_pathname, open_existing,
  open_new, truncate,
}
use server_client.Operations.Transfer.{
  tfs_write_unsynchronized, tfs_read_unsynchronized, write_inode, write_block, claim_block,
  read_inode,
}

-- Static storage starts as zeros.
abbrev pub static_fs : FsState
static_fs = record {
  inode_table = λ _. record { i_node_type = t_file; i_size = 0; i_data_block = pos 0 };
  freeinode_ts = λ _. free;
  fs_data = λ _. 0;
  free_blocks = λ _. free;
  open_file_table = λ _. record { of_inumber = pos 0; of_offset = 0 };
  free_open_file_entries = λ _. free;
}

abbrev pub static_tfs : Tfs
static_tfs = record { fs = static_fs; called_destroy = init; open_files = pos 0; broadcasts = 0 }

abbrev pub started : Tfs
started = (tfs_init static_tfs).0

-- "/f1"
abbrev pub name : List ℕ
name = b'/' ∷ b'f' ∷ b'1' ∷ []

abbrev pub opened : Tfs
opened = (tfs_open all_return_zero started name (pos 1)).0

abbrev outcome : Option (Tfs × ℤ × List ℕ) → Option (ℤ × List ℕ)
outcome none = none
outcome (some (t, r, bytes)) = some (r, bytes)

abbrev reread : Option (Tfs × ℤ) → ℤ → Option (ℤ × List ℕ)
reread none flags = none
reread (some (t, r)) flags =
    let (t', h) = tfs_open all_return_zero t name flags in
    outcome (tfs_read all_return_zero t' h 10)

abbrev pub written : Option (Tfs × ℤ)
written = tfs_write all_return_zero opened (pos 0) (1 ∷ 2 ∷ 3 ∷ []) 3

-- The whole run; a test that unfolds it computes with every call of the file system.
unfoldable pub reopened : Option (ℤ × List ℕ)
unfolding tfs_init state_init inode_create inode_fill fill_directory data_block_alloc first_free
    data_block_get clear_entries tfs_open open_locked tfs_close close_finish
    remove_from_open_file_table tfs_open_unsynchronized tfs_lookup_unsynchronized valid_pathname
    find_in_dir find_entry read_int write_int store load strncmp_equal strncpy_bytes open_existing
    open_new has_flag add_dir_entry empty_entry write_entry inode_delete add_to_open_file_table
    inode_get tfs_write tfs_write_unsynchronized get_open_file_entry write_inode claim_block
    write_block tfs_read tfs_read_unsynchronized read_inode truncate data_block_free
reopened = reread written (pos 0)

-- What is written is read back after the file is opened again.
reopened_read : reopened ≡ some (pos 3, 1 ∷ 2 ∷ 3 ∷ [])
unfolding reopened
reopened_read = refl
