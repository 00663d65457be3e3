-- ===== src/Operations/Open/Kept.antt =====
-- The bytes of the files that are there when `_tfs_open_unsynchronized` creates another.
use server_client.Common.{
  ℕ, ◌*◌, ◌<◌, ◌≡◌, refl, ◌∙◌, subst, inl, inr, false, List, arith, Bool-cases, ◌==◌, ℤ, pos,
}
use server_client.State.{FsState, free}
use server_client.State.Entries.{load-write_entry_apart}
use server_client.State.Results.{add_to_open_file_table-Opened}
use server_client.State.OpenFiles.{add_to_open_file_table}
use server_client.State.Invariant.{Inv, HasData, block_of}
use server_client.Operations.Transfer.Write.{contents}
use server_client.Operations.Open.{open_new, skip_first}
use server_client.Operations.Open.Create.{CanEnter, entered, given_up, open_new-NewFile}

-- A change of the open file table alone.
contents-add_to_open_file_table :
    (s : FsState) (inumber : ℤ) (offset j : ℕ)
    → contents (add_to_open_file_table s inumber offset).0 j ≡ contents s j
unfolding contents
contents-add_to_open_file_table s inumber offset j =
    elim (add_to_open_file_table-Opened s inumber offset) [
      | inl (e, full) ↦ rw e refl
      | inr (h, below, vacant, e) ↦ rw e refl
    ]

module _ (s : FsState) (inv : Inv s) (j : ℕ) (data_there : HasData s j) (file : 0 < j) where
  not_directory : 0 < block_of s j
  not_directory = elim (Bool-cases (block_of s j == 0)) [
    | inr e ↦ ground arith
    | inl e ↦
        let root : HasData s 0 = (omega arith, inv.root_in_use, rw inv.root (omega arith)) in
        let here : block_of s 0 ≡ 0 = rw inv.root refl in
        let same =
          inv.apart 0 j root data_there (here ∙ (let z : 0 ≡ block_of s j = ground arith in z)) in
        absurd (omega arith)
  ]

  new_number : (k : ℕ) → s.freeinode_ts k ≡ free → (k == j) ≡ false
  new_number k vacant = elim (Bool-cases (k == j)) [
    | inr e ↦ e
    | inl e ↦
        let same : k ≡ j = ground arith in
        let busy = data_there.1 in
        let idle = subst (λ i. s.freeinode_ts i ≡ free) same vacant in absurd (cc)
  ]

  contents-given_up : (k : ℕ) → s.freeinode_ts k ≡ free → contents (given_up s k) j ≡ contents s j
  unfolding contents
  contents-given_up k vacant = rw (new_number k vacant) refl

  contents-entered :
      (k e : ℕ) (name : List ℕ)
      → CanEnter s name k e
      → contents (entered s k e name) j ≡ contents s j
  unfolding contents
  contents-entered k e name can =
      let far = not_directory in
      let below = can.3 in
      rw (new_number k can.2) (
        load-write_entry_apart s.fs_data 0 e k (skip_first name) (block_of s j * 1024)
          (s.inode_table j).i_size (inr (omega arith)))

  pub contents-open_new : (name : List ℕ) → contents (open_new s name).0 j ≡ contents s j
  contents-open_new name = elim (open_new-NewFile s name inv) [
    | inl (e, full) ↦ rw e refl
    | inr (inl (k, small, vacant, e, why)) ↦ rw e (contents-given_up k vacant)
    | inr (inr (k, e, can, made)) ↦
        rw made (contents-add_to_open_file_table (entered s k e name) (pos k) 0 j)
        ∙ contents-entered k e name can
  ]
