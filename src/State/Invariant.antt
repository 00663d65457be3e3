-- ===== src/State/Invariant.antt =====
-- What holds of the tables between two calls.
pub mod Handles
pub mod Files
pub mod Data
use server_client.Common.{ℕ, ◌+◌, ◌*◌, ◌≤◌, ◌<◌, ◌≡◌, refl, ◌≢◌, ℤ, pos, minus_one, pos_part}
use server_client.State.{FsState, Inode, OpenFileEntry, t_file, t_directory, free, taken, set_inode}
use server_client.State.Directory.{entry_inumber}

-- The block number of an i-node.
abbrev pub block_of : FsState → ℕ → ℕ
block_of s i = pos_part (s.inode_table i).i_data_block

-- I-node `i` is in use and holds data.
abbrev pub HasData : FsState → ℕ → Type 0
HasData s i = (i < 50) × (s.freeinode_ts i ≡ taken) × (0 < (s.inode_table i).i_size)

-- `z` is the number of a file that exists: an i-node in use other than the root's.
abbrev pub IsFile : FsState → ℤ → Type 0
IsFile s z =
    (z ≡ pos (pos_part z))
    × (0 < pos_part z)
    × (pos_part z < 50)
    × (s.freeinode_ts (pos_part z) ≡ taken)

-- The data block of `i` is a block of the file system, and is taken.
abbrev pub IsPlaced : FsState → ℕ → Type 0
IsPlaced s i =
    ((s.inode_table i).i_data_block ≡ pos (block_of s i))
    × (block_of s i < 1024)
    × (s.free_blocks (block_of s i) ≡ taken)

abbrev pub root_node : Inode
root_node = record { i_node_type = t_directory; i_size = 1024; i_data_block = pos 0 }

pub record Inv (s : FsState) : Type 0 where
  pub root_in_use : s.freeinode_ts 0 ≡ taken
  pub root : s.inode_table 0 ≡ root_node
  pub small : (i : ℕ) → HasData s i → (s.inode_table i).i_size ≤ 1024
  pub placed : (i : ℕ) → HasData s i → IsPlaced s i
  pub apart : (i j : ℕ) → HasData s i → HasData s j → block_of s i ≡ block_of s j → i ≡ j
  pub files :
      (i : ℕ) → 0 < i → i < 50 → s.freeinode_ts i ≡ taken → (s.inode_table i).i_node_type ≡ t_file
  pub entries :
      (e : ℕ)
      → e < 23
      → entry_inumber s.fs_data 0 e ≢ minus_one
      → IsFile s (entry_inumber s.fs_data 0 e)
  pub handles :
      (h : ℕ)
      → h < 20
      → s.free_open_file_entries h ≡ taken
      → IsFile s (s.open_file_table h).of_inumber
  pub offsets :
      (h : ℕ) → h < 20 → s.free_open_file_entries h ≡ taken → (s.open_file_table h).of_offset ≤ 1024
