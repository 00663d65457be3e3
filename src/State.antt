-- ===== src/State.antt =====
-- tecnicofs_ex2/fs/config.h, state.h and state.c: the tables of the file system. The static
-- arrays are the fields of one record; a function that changes one returns the new record. The
-- delay loops (`insert_delay`) change nothing and are left out.
pub mod Blocks
pub mod Inodes
pub mod Directory
pub mod Entries
pub mod Search
pub mod Results
pub mod OpenFiles
pub mod Invariant
use server_client.Common.{
  ℕ, zero, suc, ◌+◌, Bool, true, false, Option, none, some, ltb, update, fill, if◌then◌else◌, ℤ,
  pos, negsuc, ◌*◌, pos_part,
}
use server_client.Memory.{Memory}

abbrev pub root_dir_inum : ℤ
root_dir_inum = pos 0

abbrev pub block_size : ℕ
block_size = 1024

abbrev pub data_blocks : ℕ
data_blocks = 1024

abbrev pub inode_table_size : ℕ
inode_table_size = 50

abbrev pub max_open_files : ℕ
max_open_files = 20

abbrev pub max_file_name : ℕ
max_file_name = 40

-- `sizeof(dir_entry_t)`: the name and an `int` behind it.
abbrev pub dir_entry_size : ℕ
dir_entry_size = 44

-- `BLOCK_SIZE / sizeof(dir_entry_t)`
abbrev pub max_dir_entries : ℕ
max_dir_entries = 23

pub data InodeType : Type 0 where
  t_file t_directory : InodeType

pub data AllocationState : Type 0 where
  free taken : AllocationState

pub record Inode : Type 0 where
  pub i_node_type : InodeType
  pub i_size : ℕ
  pub i_data_block : ℤ

pub record OpenFileEntry : Type 0 where
  pub of_inumber : ℤ
  pub of_offset : ℕ

pub record FsState : Type 0 where
  pub inode_table : ℕ → Inode
  pub freeinode_ts : ℕ → AllocationState
  pub fs_data : Memory
  pub free_blocks : ℕ → AllocationState
  pub open_file_table : ℕ → OpenFileEntry
  pub free_open_file_entries : ℕ → AllocationState

abbrev pub is_taken : AllocationState → Bool
is_taken free = false
is_taken taken = true

abbrev pub is_directory : InodeType → Bool
is_directory t_file = false
is_directory t_directory = true

-- `index >= 0 && index < size`
abbrev pub valid_index : ℤ → ℕ → Bool
valid_index (pos n) size = ltb n size
valid_index (negsuc n) size = false

abbrev pub valid_inumber : ℤ → Bool
valid_inumber inumber = valid_index inumber inode_table_size

abbrev pub valid_block_number : ℤ → Bool
valid_block_number block_number = valid_index block_number data_blocks

abbrev pub valid_file_handle : ℤ → Bool
valid_file_handle file_handle = valid_index file_handle max_open_files

-- `for (i = 0; i < n; i++) if (f[i] == FREE) ...`, started at `i` with `n` rounds left.
unfoldable pub first_free : (ℕ → AllocationState) → ℕ → ℕ → Option ℕ
first_free f zero i = none
first_free f (suc n) i =
    let rest = first_free f n (i + 1) in if is_taken (f i) then rest else some i

unfoldable pub state_init : FsState → FsState
state_init s = record s {
  freeinode_ts = fill inode_table_size free s.freeinode_ts;
  free_blocks = fill data_blocks free s.free_blocks;
  free_open_file_entries = fill max_open_files free s.free_open_file_entries;
}

abbrev pub set_inode : FsState → ℕ → Inode → FsState
set_inode s i node = record s { inode_table = update s.inode_table i node }

-- A pointer into `inode_table`, or NULL.
unfoldable pub inode_get : ℤ → Option ℕ
inode_get inumber = if valid_inumber inumber then some (pos_part inumber) else none

-- The address of a block in `fs_data`, or NULL.
unfoldable pub data_block_get : ℤ → Option ℕ
data_block_get block_number =
    if valid_block_number block_number then some (pos_part block_number * block_size) else none
