-- ===== src/Operations/Init.antt =====
-- `tfs_init` of operations.c: what it makes of any contents of the static arrays.
use server_client.Common.{
  ℕ, zero, suc, ◌+◌, ◌*◌, ◌<◌, ◌≡◌, refl, subst, sym, ◌∙◌, inl, inr, arith, Bool-cases, ◌==◌,
  update, fill, count, pos, minus_one,
}
use server_client.Memory.{Memory, write_int, int_bytes}
use server_client.Memory.Laws.{read_int-store_apart, read_int-write_minus_one}
use server_client.State.{
  FsState, free, taken, is_taken, t_directory, first_free, state_init, data_block_get,
}
use server_client.State.Blocks.{data_block_alloc}
use server_client.State.Inodes.{inode_create, inode_fill, fill_directory, clear_entries}
use server_client.State.Directory.{entry_inumber}
use server_client.State.Invariant.{Inv, root_node}
use server_client.Operations.{Tfs, tfs_init, init}

-- The initialised directory is empty.
clear_entries-empty :
    (n : ℕ) (d : ℕ) (m : Memory) (e : ℕ)
    → e < n
    → entry_inumber (clear_entries n d m) d e ≡ minus_one
unfolding clear_entries write_int
clear_entries-empty zero d m e h = absurd (omega arith)
clear_entries-empty (suc n) d m e h = elim (Bool-cases (n == e)) [
  | inl last ↦
      let same : n ≡ e = ground arith in
      subst (λ j. entry_inumber (clear_entries (suc n) d m) d j ≡ minus_one) same
        (read_int-write_minus_one (clear_entries n d m) (d + 44 * n + 40))
  | inr before ↦
      let less : e < n = ground arith in
      read_int-store_apart (clear_entries n d m) (d + 44 * n + 40) (int_bytes minus_one)
        (d + 44 * e + 40) (inl (omega arith))
      ∙ clear_entries-empty n d m e less
]

-- The file system that `tfs_init` sets up: one i-node and one block in use, for the root.
abbrev initial : FsState → FsState
initial s = record s {
  inode_table =
      update (update s.inode_table 0 (record (s.inode_table 0) { i_node_type = t_directory })) 0
        root_node;
  freeinode_ts = update (fill 50 free s.freeinode_ts) 0 taken;
  fs_data = clear_entries 23 0 s.fs_data;
  free_blocks = update (fill 1024 free s.free_blocks) 0 taken;
  free_open_file_entries = fill 20 free s.free_open_file_entries;
}

tfs_init_lem :
    (t : Tfs)
    → tfs_init t
      ≡ (record t { fs = initial t.fs; called_destroy = init; open_files = pos 0 }, pos 0)
unfolding tfs_init state_init inode_create inode_fill fill_directory data_block_alloc first_free
    data_block_get
tfs_init_lem t = refl

only_root : (s : FsState) (i : ℕ) → i < 50 → (initial s).freeinode_ts i ≡ taken → i ≡ 0
only_root s i h u = ground arith

initial-Inv : (s : FsState) → Inv (initial s)
initial-Inv s = record {
  root_in_use = refl;
  root = refl;
  small = λ i d. let e = only_root s i d.0 d.1 in ground arith;
  placed = λ i d. let e = only_root s i d.0 d.1 in ground arith;
  apart = λ i j d d' q. only_root s i d.0 d.1 ∙ sym (only_root s j d'.0 d'.1);
  files = λ i p b u. absurd (let e = only_root s i b u in omega arith);
  entries = λ e b u. absurd (u (clear_entries-empty 23 0 s.fs_data e b));
  handles = λ h b u. absurd (ground arith);
  offsets = λ h b u. absurd (ground arith);
}

-- Whatever the static arrays held, `tfs_init` succeeds and leaves a valid file system with an empty
-- root directory, no handle in use, INIT, and `open_files` 0.
pub tfs_init-Inv :
    (t : Tfs)
    → let r = tfs_init t in
      (r.1 ≡ pos 0)
      × Inv r.0.fs
      × (r.0.called_destroy ≡ init)
      × (r.0.open_files ≡ pos 0)
      × (count is_taken r.0.fs.free_open_file_entries 20 ≡ 0)
      × ((e : ℕ) → e < 23 → entry_inumber r.0.fs.fs_data 0 e ≡ minus_one)
unfolding count
tfs_init-Inv t =
    rw (tfs_init_lem t)
      (refl, initial-Inv t.fs, refl, refl, refl, λ e h. clear_entries-empty 23 0 t.fs.fs_data e h)
