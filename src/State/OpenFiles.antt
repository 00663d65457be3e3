-- ===== src/State/OpenFiles.antt =====
-- state.c: the open file table.
use server_client.Common.{
  ℕ, ◌||◌, not, Option, none, some, update, if◌then◌else◌, ℤ, pos, minus_one, pos_part,
}
use server_client.State.{
  FsState, OpenFileEntry, free, taken, is_taken, first_free, max_open_files, valid_file_handle,
}

unfoldable pub add_to_open_file_table : FsState → ℤ → ℕ → FsState × ℤ
add_to_open_file_table s inumber offset =
    let entry : OpenFileEntry = record { of_inumber = inumber; of_offset = offset } in
    elim (first_free s.free_open_file_entries max_open_files 0) [
      | none ↦ (s, minus_one)
      | some i ↦ (
        record s {
          free_open_file_entries = update s.free_open_file_entries i taken;
          open_file_table = update s.open_file_table i entry;
        },
        pos i,
      )
    ]

unfoldable pub remove_from_open_file_table : FsState → ℤ → FsState × ℤ
remove_from_open_file_table s fhandle =
    let i = pos_part fhandle in
    if not (valid_file_handle fhandle) || not (is_taken (s.free_open_file_entries i))
    then (s, minus_one)
    else (record s { free_open_file_entries = update s.free_open_file_entries i free }, pos 0)

-- A pointer into `open_file_table`, or NULL. Whether the entry is in use is not asked.
unfoldable pub get_open_file_entry : ℤ → Option ℕ
get_open_file_entry fhandle = if valid_file_handle fhandle then some (pos_part fhandle) else none
