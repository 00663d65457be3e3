-- ===== src/State/Blocks.antt =====
-- state.c: `data_block_alloc` and `data_block_free`, and what the search for a free entry finds.
use server_client.Common.{none, some, update, if◌then◌else◌, ℤ, pos, minus_one, pos_part}
use server_client.State.{FsState, free, taken, first_free, data_blocks, valid_block_number}

unfoldable pub data_block_alloc : FsState → FsState × ℤ
data_block_alloc s = elim (first_free s.free_blocks data_blocks 0) [
  | none ↦ (s, minus_one)
  | some i ↦ (record s { free_blocks = update s.free_blocks i taken }, pos i)
]

unfoldable pub data_block_free : FsState → ℤ → FsState × ℤ
data_block_free s block_number =
    if valid_block_number block_number
    then (record s { free_blocks = update s.free_blocks (pos_part block_number) free }, pos 0)
    else (s, minus_one)
