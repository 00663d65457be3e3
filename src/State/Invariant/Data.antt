-- ===== src/State/Invariant/Data.antt =====
-- The invariant when a file is truncated, gets a block, is written to and grows.
use server_client.Common.{
  ℕ, ◌+◌, ◌*◌, ◌≤◌, ◌<◌, ◌≡◌, inl, inr, Bool-cases, ◌==◌, update, arith, ℤ, pos, List, subst, sym,
  ◌∙◌, false, ltb,
}
use server_client.Memory.{store}
use server_client.Memory.Laws.{read_int-store_apart}
use server_client.State.{FsState, taken, free, set_inode}
use server_client.State.Invariant.{Inv, IsFile, HasData, block_of, IsPlaced}
use server_client.State.Results.{take_block}
use server_client.Operations.Transfer.{set_offset}

-- `i` is a file in use.
abbrev pub FileInUse : FsState → ℕ → Type 0
FileInUse s i = (0 < i) × (i < 50) × (s.freeinode_ts i ≡ taken)

-- The block of `i` is taken, and no i-node with data shares it.
abbrev pub Owns : FsState → ℕ → Type 0
Owns s i = IsPlaced s i × ((j : ℕ) → HasData s j → block_of s j ≡ block_of s i → i ≡ j)

abbrev pub emptied : FsState → ℕ → FsState
emptied s i =
    set_inode (record s { free_blocks = update s.free_blocks (block_of s i) free }) i
      (record (s.inode_table i) { i_size = 0 })

abbrev pub claimed : FsState → ℕ → ℕ → FsState
claimed s i k = set_inode (take_block s k) i (record (s.inode_table i) { i_data_block = pos k })

abbrev pub resized : FsState → ℕ → ℕ → FsState
resized s i n = set_inode s i (record (s.inode_table i) { i_size = n })

module _ (s : FsState) (inv : Inv s) (i : ℕ) (file : FileInUse s i) where
  not_root : (i == 0) ≡ false
  not_root = ground arith

  root-HasData : HasData s 0
  root-HasData = (omega arith, inv.root_in_use, rw inv.root (omega arith))

  pub emptied-Inv : 0 < (s.inode_table i).i_size → Inv (emptied s i)
  emptied-Inv full = record {
    root_in_use = inv.root_in_use;
    root = rw not_root inv.root;
    small = λ j d. ground (arith, inv.small j);
    placed = λ j d. ground (arith, inv.placed j, inv.apart i j);
    apart = λ j k d d' q. ground (arith, inv.apart j k);
    files = λ j p b u. ground (arith, inv.files j);
    entries = inv.entries;
    handles = inv.handles;
    offsets = inv.offsets;
  }

  pub claimed-Inv :
      (k : ℕ) → (s.inode_table i).i_size ≡ 0 → s.free_blocks k ≡ free → Inv (claimed s i k)
  claimed-Inv k empty vacant = record {
    root_in_use = inv.root_in_use;
    root = rw not_root inv.root;
    small = λ j d. ground (arith, inv.small j);
    placed = λ j d. ground (arith, inv.placed j);
    apart = λ j l d d' q. ground (arith, inv.apart j l);
    files = λ j p b u. ground (arith, inv.files j);
    entries = inv.entries;
    handles = inv.handles;
    offsets = inv.offsets;
  }

  -- The i-node after an allocation that failed.
  pub unplaced-Inv :
      (z : ℤ)
      → (s.inode_table i).i_size ≡ 0
      → Inv (set_inode s i (record (s.inode_table i) { i_data_block = z }))
  unplaced-Inv z empty = record {
    root_in_use = inv.root_in_use;
    root = rw not_root inv.root;
    small = λ j d. ground (arith, inv.small j);
    placed = λ j d. ground (arith, inv.placed j);
    apart = λ j l d d' q. ground (arith, inv.apart j l);
    files = λ j p b u. ground (arith, inv.files j);
    entries = inv.entries;
    handles = inv.handles;
    offsets = inv.offsets;
  }

  pub claimed-Owns :
      (k : ℕ)
      → k < 1024
      → (s.inode_table i).i_size ≡ 0
      → s.free_blocks k ≡ free
      → Owns (claimed s i k) i
  claimed-Owns k small empty vacant = (ground arith, λ j d q. ground (arith, inv.placed j))

  pub resized-Inv : (n : ℕ) → Owns s i → n ≤ 1024 → Inv (resized s i n)
  resized-Inv n (place, alone) small = record {
    root_in_use = inv.root_in_use;
    root = rw not_root inv.root;
    small = λ j d. ground (arith, inv.small j);
    placed = λ j d. ground (arith, inv.placed j);
    apart = λ j k d d' q. ground (arith, inv.apart j k, alone j, alone k);
    files = λ j p b u. ground (arith, inv.files j);
    entries = inv.entries;
    handles = inv.handles;
    offsets = inv.offsets;
  }

  -- A file with data owns its block, and it is not the root's.
  pub data-Owns : 0 < (s.inode_table i).i_size → Owns s i
  data-Owns full =
      (inv.placed i (file.1, file.2, full), λ j d q. inv.apart i j (file.1, file.2, full) d (sym q))

  pub Owns-not_root : Owns s i → 0 < block_of s i
  Owns-not_root (place, alone) = elim (Bool-cases (block_of s i == 0)) [
    | inl e ↦ absurd (ground (arith, alone 0 root-HasData))
    | inr e ↦ ground arith
  ]

pub size-le : (s : FsState) (i : ℕ) → Inv s → FileInUse s i → (s.inode_table i).i_size ≤ 1024
size-le s i inv file = elim (Bool-cases (ltb 0 (s.inode_table i).i_size)) [
  | inl full ↦ inv.small i (file.1, file.2, ground arith)
  | inr empty ↦ ground arith
]

pub store-Inv :
    (s : FsState) (a : ℕ) (bytes : List ℕ)
    → Inv s
    → 1024 ≤ a
    → Inv (record s { fs_data = store s.fs_data a bytes })
store-Inv s a bytes inv above = record {
  root_in_use = inv.root_in_use;
  root = inv.root;
  small = inv.small;
  placed = inv.placed;
  apart = inv.apart;
  files = inv.files;
  entries = λ e b u.
      let kept = read_int-store_apart s.fs_data a bytes (0 + 44 * e + 40) (inl (omega arith)) in
      subst (IsFile s) (sym kept) (inv.entries e b (λ q. u (kept ∙ q)));
  handles = inv.handles;
  offsets = inv.offsets;
}

pub set_offset-Inv :
    (s : FsState) (h offset : ℕ) → Inv s → offset ≤ 1024 → Inv (set_offset s h offset)
set_offset-Inv s h offset inv small = record {
  root_in_use = inv.root_in_use;
  root = inv.root;
  small = inv.small;
  placed = inv.placed;
  apart = inv.apart;
  files = inv.files;
  entries = inv.entries;
  handles = λ g b u. ground (arith, inv.handles g b u);
  offsets = λ g b u. ground (arith, inv.offsets g b u);
}
