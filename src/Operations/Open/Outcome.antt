-- ===== src/Operations/Open/Outcome.antt =====
-- The outcomes of a lookup and of `_tfs_open_unsynchronized`, branch by branch.
use server_client.Common.{
  ℕ, ◌<◌, ◌≡◌, refl, subst, sym, ◌⊎◌, inl, inr, true, ◌&&◌, List, arith, Bool-cases, if◌then◌else◌,
  ltb, ℤ, pos, negsuc, minus_one, pos_part, update, lt→ltb,
}
use server_client.State.{FsState, free, inode_get, data_block_get, root_dir_inum}
use server_client.State.Blocks.{data_block_free}
use server_client.State.Directory.{find_in_dir, find_entry}
use server_client.State.OpenFiles.{add_to_open_file_table}
use server_client.State.Search.{Found, find_entry-Found}
use server_client.State.Invariant.{Inv, IsFile}
use server_client.State.Invariant.Data.{FileInUse, emptied}
use server_client.Operations.Open.{
  tfs_lookup_unsynchronized, valid_pathname, skip_first, truncate, open_existing, has_flag,
  tfs_o_trunc, tfs_o_append,
}

data_block_free_valid :
    (s : FsState) (z : ℤ)
    → z ≡ pos (pos_part z)
    → pos_part z < 1024
    → data_block_free s z
      ≡ (record s { free_blocks = update s.free_blocks (pos_part z) free }, pos 0)
unfolding data_block_free
data_block_free_valid s (pos n) e h = rw (lt→ltb n 1024 h)
data_block_free_valid s (negsuc n) e h = cc

module _ (s : FsState) (inv : Inv s) where
  pub find_in_dir-root :
      (name : List ℕ) → find_in_dir s root_dir_inum name ≡ find_entry s.fs_data 0 name 23 0
  unfolding find_in_dir data_block_get
  find_in_dir-root name = rw (inv.root, find_in_dir)

  pub find_in_dir-Found :
      (name : List ℕ) → Found s.fs_data 0 name 0 23 (find_in_dir s root_dir_inum name)
  find_in_dir-Found name =
      rw (find_in_dir-root name) (find_entry-Found s.fs_data 0 name 23 0 23 refl)

  -- Only files are found.
  pub lookup-IsFile :
      (name : List ℕ)
      → (tfs_lookup_unsynchronized s name ≡ minus_one) ⊎ IsFile s (tfs_lookup_unsynchronized s name)
  unfolding tfs_lookup_unsynchronized
  lookup-IsFile name = elim (Bool-cases (valid_pathname name)) [
    | inr e ↦ rw e (inl refl)
    | inl e ↦ rw e (elim (find_in_dir-Found (skip_first name)) [
      | inl (r, none_there) ↦ inl r
      | inr (k, r, lo, below, match, first) ↦
          inr (subst (IsFile s) (sym r) (inv.entries k below match.0))
    ])
  ]

  module _ (i : ℕ) (file : FileInUse s i) where
    truncate-emptied : 0 < (s.inode_table i).i_size → truncate s i ≡ (emptied s i, pos 0)
    unfolding truncate
    truncate-emptied full =
        let place = inv.placed i (file.1, file.2, full) in
        let freed = data_block_free_valid s (s.inode_table i).i_data_block place.0 place.1 in
        let more : ltb 0 (s.inode_table i).i_size ≡ true = ground arith in rw (freed, more)

    truncate_empty : (s.inode_table i).i_size ≡ 0 → truncate s i ≡ (s, pos 0)
    unfolding truncate
    truncate_empty e = rw (e, truncate)

-- The state after the truncation that the flags ask for.
abbrev pub truncated : FsState → ℕ → ℤ → FsState
truncated s i flags =
    if has_flag flags tfs_o_trunc && ltb 0 (s.inode_table i).i_size then emptied s i else s

-- The offset that the flags ask for.
abbrev pub first_offset : FsState → ℕ → ℤ → ℕ
first_offset s i flags =
    if has_flag flags tfs_o_append then ((truncated s i flags).inode_table i).i_size else 0

pub open_existing_lem :
    (s : FsState) (i : ℕ) (flags : ℤ)
    → Inv s
    → FileInUse s i
    → open_existing s (pos i) flags
      ≡ add_to_open_file_table (truncated s i flags) (pos i) (first_offset s i flags)
unfolding open_existing inode_get
open_existing_lem s i flags inv file =
    let inside : ltb i 50 ≡ true = ground arith in
    rw (inside, open_existing)
      (elim (Bool-cases (has_flag flags tfs_o_trunc)) [
        | inr keep ↦ rw keep
        | inl cut ↦ elim (Bool-cases (ltb 0 (s.inode_table i).i_size)) [
          | inl full ↦ rw (cut, full, truncate-emptied s inv i file (ground arith))
          | inr empty ↦ rw (cut, empty, truncate_empty s inv i file (ground arith))
        ]
      ])
