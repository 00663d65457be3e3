-- ===== src/State/Directory.antt =====
-- state.c: `add_dir_entry` and `find_in_dir`, over the bytes of the directory's block.
use server_client.Common.{
  ℕ, zero, suc, ◌+◌, ◌-◌, ◌*◌, ◌||◌, ◌&&◌, not, Option, none, some, List, [], ◌∷◌, if◌then◌else◌, ℤ,
  pos, minus_one, pos_part, eqb_ℤ, length, ◌==◌,
}
use server_client.Memory.{Memory, load, store, read_int, write_int, strncpy_bytes, strncmp_equal}
use server_client.State.{
  FsState, is_directory, valid_inumber, data_block_get, dir_entry_size, max_dir_entries,
  max_file_name,
}

-- `dir_entry[i].d_inumber`
abbrev pub entry_inumber : Memory → ℕ → ℕ → ℤ
entry_inumber m dir_entry i = read_int m (dir_entry + dir_entry_size * i + 40)

-- `dir_entry[i].d_name`
abbrev pub entry_name : Memory → ℕ → ℕ → List ℕ
entry_name m dir_entry i = load m (dir_entry + dir_entry_size * i) max_file_name

-- The first empty entry from `i` on, with `n` rounds left.
unfoldable pub empty_entry : Memory → ℕ → ℕ → ℕ → Option ℕ
empty_entry m dir_entry zero i = none
empty_entry m dir_entry (suc n) i =
    let rest = empty_entry m dir_entry n (i + 1) in
    if eqb_ℤ (entry_inumber m dir_entry i) minus_one then some i else rest

-- The three assignments to an entry: the number, `strncpy`, and the zero at the end.
unfoldable pub write_entry : Memory → ℕ → ℕ → ℤ → List ℕ → Memory
write_entry m dir_entry i sub_inumber sub_name =
    let entry = dir_entry + dir_entry_size * i in
    let numbered = write_int m (entry + 40) sub_inumber in
    let named = store numbered entry (strncpy_bytes (max_file_name - 1) sub_name) in
    store named (entry + (max_file_name - 1)) (0 ∷ [])

unfoldable pub add_dir_entry : FsState → ℤ → ℤ → List ℕ → FsState × ℤ
add_dir_entry s inumber sub_inumber sub_name =
    let node = s.inode_table (pos_part inumber) in
    if not (valid_inumber inumber) || not (valid_inumber sub_inumber)
    then (s, minus_one)
    else if not (is_directory node.i_node_type)
    then (s, minus_one)
    else if length sub_name == 0
    then (s, minus_one)
    else elim (data_block_get node.i_data_block) [
      | none ↦ (s, minus_one)
      | some dir_entry ↦ elim (empty_entry s.fs_data dir_entry max_dir_entries 0) [
        | none ↦ (s, minus_one)
        | some i ↦
            (record s { fs_data = write_entry s.fs_data dir_entry i sub_inumber sub_name }, pos 0)
      ]
    ]

-- The loop of `find_in_dir` from entry `i` on, with `n` rounds left.
unfoldable pub find_entry : Memory → ℕ → List ℕ → ℕ → ℕ → ℤ
find_entry m dir_entry sub_name zero i = minus_one
find_entry m dir_entry sub_name (suc n) i =
    let d_inumber = entry_inumber m dir_entry i in
    let rest = find_entry m dir_entry sub_name n (i + 1) in
    if not (eqb_ℤ d_inumber minus_one)
      && strncmp_equal max_file_name (entry_name m dir_entry i) sub_name
    then d_inumber
    else rest

unfoldable pub find_in_dir : FsState → ℤ → List ℕ → ℤ
find_in_dir s inumber sub_name =
    let node = s.inode_table (pos_part inumber) in
    if not (valid_inumber inumber) || not (is_directory node.i_node_type)
    then minus_one
    else elim (data_block_get node.i_data_block) [
      | none ↦ minus_one
      | some dir_entry ↦ find_entry s.fs_data dir_entry sub_name max_dir_entries 0
    ]
