-- ===== src/Operations/Open/Create.antt =====
-- The outcomes of the branch of `_tfs_open_unsynchronized` that creates a file.
use server_client.Common.{
  ℕ, ◌<◌, ◌≡◌, refl, subst, ◌≢◌, ◌⊎◌, inl, inr, List, arith, Bool-cases, ltb, length, ◌==◌, lt→ltb,
  ==_self, ℤ, pos, minus_one,
}
use server_client.State.{FsState, t_file, free, taken, data_block_get, root_dir_inum}
use server_client.State.Inodes.{inode_create, inode_delete, set_free}
use server_client.State.Directory.{add_dir_entry, write_entry, entry_inumber}
use server_client.State.OpenFiles.{add_to_open_file_table}
use server_client.State.Search.{empty_entry-FoundEmpty}
use server_client.State.Results.{file_state, inode_create-Created}
use server_client.State.Invariant.{Inv}
use server_client.State.Invariant.Files.{file_state-Inv}
use server_client.Operations.Open.{skip_first, open_new}

-- No entry of the root directory is empty.
abbrev pub DirectoryFull : FsState → Type 0
DirectoryFull s = (e : ℕ) → e < 23 → entry_inumber s.fs_data 0 e ≢ minus_one

abbrev pub InodesFull : FsState → Type 0
InodesFull s = (k : ℕ) → k < 50 → s.freeinode_ts k ≡ taken

-- The state with the file's i-node `k` entered under the name at entry `e`.
abbrev pub entered : FsState → ℕ → ℕ → List ℕ → FsState
entered s k e name = record (file_state s k) {
  fs_data = write_entry s.fs_data 0 e (pos k) (skip_first name);
}

-- The state after the new i-node is given up.
abbrev pub given_up : FsState → ℕ → FsState
given_up s k = set_free (file_state s k) k free

-- I-node `k` and entry `e` are unused, and the name is not empty.
abbrev pub CanEnter : FsState → List ℕ → ℕ → ℕ → Type 0
CanEnter s name k e =
    (0 < k)
    × (k < 50)
    × (s.freeinode_ts k ≡ free)
    × (e < 23)
    × (entry_inumber s.fs_data 0 e ≡ minus_one)
    × (0 < length (skip_first name))

abbrev pub NewFile : FsState → List ℕ → FsState × ℤ → Type 0
NewFile s name r =
    ((r ≡ (s, minus_one)) × InodesFull s)
    ⊎ ((k : ℕ) × (k < 50)
        × (s.freeinode_ts k ≡ free)
        × (r ≡ (given_up s k, minus_one))
        × ((length (skip_first name) ≡ 0) ⊎ DirectoryFull s))
    ⊎ ((k : ℕ) × (e : ℕ) × CanEnter s name k e
        × (r ≡ add_to_open_file_table (entered s k e name) (pos k) 0))

-- `add_dir_entry` on the root directory.
abbrev Added : FsState → ℕ → List ℕ → FsState × ℤ → Type 0
Added s k name r =
    ((r ≡ (s, minus_one)) × ((length name ≡ 0) ⊎ DirectoryFull s))
    ⊎ ((e : ℕ) × (e < 23)
        × (entry_inumber s.fs_data 0 e ≡ minus_one)
        × (0 < length name)
        × (r ≡ (record s { fs_data = write_entry s.fs_data 0 e (pos k) name }, pos 0)))

add_dir_entry-Added :
    (s : FsState) (k : ℕ) (name : List ℕ)
    → Inv s
    → k < 50
    → Added s k name (add_dir_entry s root_dir_inum (pos k) name)
unfolding add_dir_entry data_block_get
add_dir_entry-Added s k name inv small = elim (Bool-cases (length name == 0)) [
  | inl none_there ↦
      rw (inv.root, add_dir_entry, lt→ltb k 50 small, none_there) (inl (refl, inl (ground arith)))
  | inr some_there ↦ elim (empty_entry-FoundEmpty s.fs_data 0 23 0 23 refl) [
    | inl (r, full) ↦
        rw (inv.root, add_dir_entry, lt→ltb k 50 small, some_there, r)
          (inl (refl, inr (λ e h. full e (omega arith) h)))
    | inr (e, r, lo, below, vacant, first) ↦
        rw (inv.root, add_dir_entry, lt→ltb k 50 small, some_there, r)
          (inr (e, below, vacant, ground arith, refl))
  ]
]

module _ (s : FsState) (inv : Inv s) (k : ℕ) (small : k < 50)
    (vacant : s.freeinode_ts k ≡ free) where
  number_not_root : 0 < k
  number_not_root = elim (Bool-cases (ltb 0 k)) [
    | inl e ↦ ground arith
    | inr e ↦
        let root : k ≡ 0 = ground arith in
        let busy = inv.root_in_use in
        let idle : s.freeinode_ts 0 ≡ free = subst (λ j. s.freeinode_ts j ≡ free) root vacant in
        absurd (cc)
  ]

  delete_new : inode_delete (file_state s k) (pos k) ≡ (given_up s k, pos 0)
  unfolding inode_delete
  delete_new = rw (==_self k, lt→ltb k 50 small)

  created-NewFile :
      (name : List ℕ)
      → inode_create s t_file ≡ (file_state s k, pos k)
      → NewFile s name (open_new s name)
  unfolding open_new
  created-NewFile name made =
      elim (add_dir_entry-Added (file_state s k) k (skip_first name) (file_state-Inv s inv k vacant)
        small) [
          | inl (r, why) ↦
              rw (made, r, delete_new, open_new) (inr (inl (k, small, vacant, refl, why)))
          | inr (e, below, unused, named, r) ↦
              rw (made, r, open_new)
                (inr (inr (k, e, (number_not_root, small, vacant, below, unused, named), refl)))
        ]

-- Creating a file: no i-node is left, or the name cannot be entered and the i-node is given up,
-- or the name is entered and the file opened.
pub open_new-NewFile : (s : FsState) (name : List ℕ) → Inv s → NewFile s name (open_new s name)
unfolding open_new
open_new-NewFile s name inv = elim (inode_create-Created s) [
  | inl (r, full) ↦ rw (r, open_new) (inl (refl, full))
  | inr (k, small, vacant, r) ↦ created-NewFile s inv k small vacant name r
]
