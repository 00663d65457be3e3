-- ===== src/State/Results.antt =====
-- The outcomes of the operations that search a table, each with the state that it leaves.
use server_client.Common.{
  ℕ, ◌<◌, ◌≡◌, refl, ◌⊎◌, inl, inr, arith, update, ℤ, pos, negsuc, minus_one, ltb, Bool-cases,
}
use server_client.State.{FsState, Inode, t_file, free, taken, is_taken, set_inode}
use server_client.State.Blocks.{data_block_alloc}
use server_client.State.Inodes.{inode_create, take_inode}
use server_client.State.OpenFiles.{add_to_open_file_table, remove_from_open_file_table}
use server_client.State.Search.{first_free-FoundFree, is_taken-true, is_taken-false}

abbrev pub take_block : FsState → ℕ → FsState
take_block s k = record s { free_blocks = update s.free_blocks k taken }

abbrev pub Allocated : FsState → FsState × ℤ → Type 0
Allocated s r =
    ((r ≡ (s, minus_one)) × ((k : ℕ) → k < 1024 → s.free_blocks k ≡ taken))
    ⊎ ((k : ℕ) × (k < 1024) × (s.free_blocks k ≡ free) × (r ≡ (take_block s k, pos k)))

-- A free block is found whenever there is one, and only it changes.
pub data_block_alloc-Allocated : (s : FsState) → Allocated s (data_block_alloc s)
unfolding data_block_alloc
data_block_alloc-Allocated s = elim (first_free-FoundFree s.free_blocks 1024 0 1024 refl) [
  | inl (e, all) ↦ rw (e, data_block_alloc) (inl (refl, λ k h. all k (omega arith) h))
  | inr (k, e, lo, below, vacant, all) ↦ rw (e, data_block_alloc) (inr (k, below, vacant, refl))
]

abbrev pub new_file : Inode
new_file = record { i_node_type = t_file; i_size = 0; i_data_block = minus_one }

abbrev pub file_state : FsState → ℕ → FsState
file_state s i = set_inode (take_inode s i t_file) i new_file

abbrev pub Created : FsState → FsState × ℤ → Type 0
Created s r =
    ((r ≡ (s, minus_one)) × ((k : ℕ) → k < 50 → s.freeinode_ts k ≡ taken))
    ⊎ ((k : ℕ) × (k < 50) × (s.freeinode_ts k ≡ free) × (r ≡ (file_state s k, pos k)))

pub inode_create-Created : (s : FsState) → Created s (inode_create s t_file)
unfolding inode_create
inode_create-Created s = elim (first_free-FoundFree s.freeinode_ts 50 0 50 refl) [
  | inl (e, all) ↦ rw (e, inode_create) (inl (refl, λ k h. all k (omega arith) h))
  | inr (k, e, lo, below, vacant, all) ↦ rw (e, inode_create) (inr (k, below, vacant, refl))
]

abbrev pub opened_state : FsState → ℕ → ℤ → ℕ → FsState
opened_state s h inumber offset = record s {
  free_open_file_entries = update s.free_open_file_entries h taken;
  open_file_table =
      update s.open_file_table h (record { of_inumber = inumber; of_offset = offset });
}

abbrev pub Opened : FsState → ℤ → ℕ → FsState × ℤ → Type 0
Opened s inumber offset r =
    ((r ≡ (s, minus_one)) × ((h : ℕ) → h < 20 → s.free_open_file_entries h ≡ taken))
    ⊎ ((h : ℕ) × (h < 20)
        × (s.free_open_file_entries h ≡ free)
        × (r ≡ (opened_state s h inumber offset, pos h)))

pub add_to_open_file_table-Opened :
    (s : FsState) (inumber : ℤ) (offset : ℕ)
    → Opened s inumber offset (add_to_open_file_table s inumber offset)
unfolding add_to_open_file_table
add_to_open_file_table-Opened s inumber offset =
    elim (first_free-FoundFree s.free_open_file_entries 20 0 20 refl) [
      | inl (e, all) ↦ rw (e, add_to_open_file_table) (inl (refl, λ k h. all k (omega arith) h))
      | inr (k, e, lo, below, vacant, all) ↦
          rw (e, add_to_open_file_table) (inr (k, below, vacant, refl))
    ]

abbrev pub closed_state : FsState → ℕ → FsState
closed_state s h = record s { free_open_file_entries = update s.free_open_file_entries h free }

abbrev pub Removed : FsState → ℤ → FsState × ℤ → Type 0
Removed s fhandle r =
    ((r ≡ (s, minus_one))
      × ((h : ℕ) → fhandle ≡ pos h → h < 20 → s.free_open_file_entries h ≡ free))
    ⊎ ((h : ℕ) × (fhandle ≡ pos h)
        × (h < 20)
        × (s.free_open_file_entries h ≡ taken)
        × (r ≡ (closed_state s h, pos 0)))

-- A close succeeds exactly for a handle in use.
pub remove_from_open_file_table-Removed :
    (s : FsState) (fhandle : ℤ) → Removed s fhandle (remove_from_open_file_table s fhandle)
unfolding remove_from_open_file_table
remove_from_open_file_table-Removed s (negsuc n) = inl (refl, λ h e. cc)
remove_from_open_file_table-Removed s (pos n) = elim (Bool-cases (ltb n 20)) [
  | inr out ↦ rw out (inl (refl, λ h e below. absurd (ground arith)))
  | inl inside ↦ elim (Bool-cases (is_taken (s.free_open_file_entries n))) [
    | inl busy ↦
        rw (inside, busy)
          (inr (n, refl, ground arith, is_taken-true (s.free_open_file_entries n) busy, refl))
    | inr idle ↦
        let vacant = is_taken-false (s.free_open_file_entries n) idle in
        rw (inside, idle) (inl (refl, λ h e below. ground arith))
  ]
]
