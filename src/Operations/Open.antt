-- ===== src/Operations/Open.antt =====
-- operations.c: `valid_pathname`, `_tfs_lookup_unsynchronized` and `_tfs_open_unsynchronized`. A
-- name is the bytes of its buffer from its address on; the callers never pass NULL.
pub mod Outcome
pub mod Create
pub mod Preserve
pub mod Entered
pub mod Naming
pub mod Existing
pub mod Handle
pub mod Kept
pub mod Isolation
use server_client.Common.{
  ℕ, zero, suc, ◌%◌, ◌/◌, ◌==◌, Bool, true, false, not, ◌&&◌, Option, none, some, List, [], ◌∷◌,
  if◌then◌else◌, ltb, length, ℤ, pos, negsuc, minus_one, eqb_ℤ, is_negative,
}
use server_client.Memory.{c_string}
use server_client.State.{FsState, Inode, t_file, inode_get, set_inode, root_dir_inum}
use server_client.State.Blocks.{data_block_free}
use server_client.State.Inodes.{inode_create, inode_delete}
use server_client.State.Directory.{find_in_dir, add_dir_entry}
use server_client.State.OpenFiles.{add_to_open_file_table}

-- The open flags of common.h, by their weight.
abbrev pub tfs_o_creat : ℕ
tfs_o_creat = 1

abbrev pub tfs_o_trunc : ℕ
tfs_o_trunc = 2

abbrev pub tfs_o_append : ℕ
tfs_o_append = 4

-- `flags & flag` for one bit, in two's complement.
unfoldable pub has_flag : ℤ → ℕ → Bool
has_flag (pos n) flag = n / flag % 2 == 1
has_flag (negsuc n) flag = n / flag % 2 == 0

unfoldable pub valid_pathname : List ℕ → Bool
valid_pathname [] = false
valid_pathname (c ∷ name) = ltb 1 (length (c_string (c ∷ name))) && (c == b'/')

-- The text at `name + 1`. Behind an empty text these are the bytes that follow its zero; a list of no
-- bytes has none, where the source would read outside the buffer. The server's buffers have 40.
abbrev pub skip_first : List ℕ → List ℕ
skip_first [] = []
skip_first (c ∷ name) = c_string name

unfoldable pub tfs_lookup_unsynchronized : FsState → List ℕ → ℤ
tfs_lookup_unsynchronized s name =
    if not (valid_pathname name) then minus_one else find_in_dir s root_dir_inum (skip_first name)

-- The truncation of an existing file: -1 if its block cannot be freed.
unfoldable pub truncate : FsState → ℕ → FsState × ℤ
truncate s i =
    let node = s.inode_table i in
    let (s', r) = data_block_free s node.i_data_block in
    if not (ltb 0 node.i_size)
    then (s, pos 0)
    else if eqb_ℤ r minus_one
    then (s', minus_one)
    else (set_inode s' i (record node { i_size = 0 }), pos 0)

-- The branch for a file that is there.
unfoldable pub open_existing : FsState → ℤ → ℤ → FsState × ℤ
open_existing s inum flags = elim (inode_get inum) [
  | none ↦ (s, minus_one)
  | some i ↦
      let (s', r) = if has_flag flags tfs_o_trunc then truncate s i else (s, pos 0) in
      let offset = if has_flag flags tfs_o_append then (s'.inode_table i).i_size else 0 in
      if eqb_ℤ r minus_one then (s', minus_one) else add_to_open_file_table s' inum offset
]

-- The branch that creates the file.
unfoldable pub open_new : FsState → List ℕ → FsState × ℤ
open_new s name =
    let (created, inum) = inode_create s t_file in
    let (entered, r) = add_dir_entry created root_dir_inum inum (skip_first name) in
    if eqb_ℤ inum minus_one
    then (created, minus_one)
    else if eqb_ℤ r minus_one
    then ((inode_delete entered inum).0, minus_one)
    else add_to_open_file_table entered inum 0

unfoldable pub tfs_open_unsynchronized : FsState → List ℕ → ℤ → FsState × ℤ
tfs_open_unsynchronized s name flags =
    let inum = tfs_lookup_unsynchronized s name in
    if not (is_negative inum)
    then open_existing s inum flags
    else if has_flag flags tfs_o_creat
    then open_new s name
    else (s, minus_one)
