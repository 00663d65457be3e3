-- ===== src/Operations/Open/Preserve.antt =====
-- `_tfs_open_unsynchronized` keeps the invariant, and its result says which handle it took.
use server_client.Common.{
  ℕ, ◌≤◌, ◌<◌, ◌≡◌, refl, subst, ◌⊎◌, inl, inr, ◌&&◌, List, arith, Bool-cases, ltb, ==_self, update,
  ℤ, pos, minus_one, pos_part,
}
use server_client.State.{FsState, AllocationState, free, taken}
use server_client.State.OpenFiles.{add_to_open_file_table}
use server_client.State.Results.{file_state, add_to_open_file_table-Opened}
use server_client.State.Invariant.{Inv, IsFile}
use server_client.State.Invariant.Files.{file_state-Inv, given_up-Inv, write_entry-Inv}
use server_client.State.Invariant.Handles.{opened_state-Inv}
use server_client.State.Invariant.Data.{size-le, FileInUse, emptied-Inv}
use server_client.Operations.Open.{
  tfs_lookup_unsynchronized, open_existing, open_new, has_flag, tfs_o_trunc, tfs_o_append,
  tfs_o_creat, tfs_open_unsynchronized, skip_first,
}
use server_client.Operations.Open.Outcome.{
  lookup-IsFile, truncated, first_offset, open_existing_lem,
}
use server_client.Operations.Open.Create.{entered, open_new-NewFile}

-- Either -1 and the same handles in use, or a handle that was free and is now in use.
abbrev pub TakesHandle : (ℕ → AllocationState) → FsState × ℤ → Type 0
TakesHandle before r =
    ((r.1 ≡ minus_one) × (r.0.free_open_file_entries ≡ before))
    ⊎ ((h : ℕ) × (h < 20)
        × (before h ≡ free)
        × (r.1 ≡ pos h)
        × (r.0.free_open_file_entries ≡ update before h taken))

abbrev pub IsSound : FsState → FsState × ℤ → Type 0
IsSound s r = Inv r.0 × TakesHandle s.free_open_file_entries r

add_to_open_file_table-IsSound :
    (s : FsState) (z : ℤ) (offset : ℕ)
    → Inv s
    → IsFile s z
    → offset ≤ 1024
    → IsSound s (add_to_open_file_table s z offset)
add_to_open_file_table-IsSound s z offset inv is small =
    elim (add_to_open_file_table-Opened s z offset) [
      | inl (r, full) ↦ rw r (inv, inl (refl, refl))
      | inr (h, below, vacant, r) ↦
          rw r (opened_state-Inv s inv h z offset is small, inr (h, below, vacant, refl, refl))
    ]

truncated-Inv :
    (s : FsState) (i : ℕ) (flags : ℤ) → Inv s → FileInUse s i → Inv (truncated s i flags)
truncated-Inv s i flags inv file =
    elim (Bool-cases (has_flag flags tfs_o_trunc && ltb 0 (s.inode_table i).i_size)) [
      | inl cut ↦ rw cut (emptied-Inv s inv i file (ground arith))
      | inr keep ↦ rw keep inv
    ]

truncated-files :
    (s : FsState) (i : ℕ) (flags : ℤ) → (truncated s i flags).freeinode_ts ≡ s.freeinode_ts
truncated-files s i flags = ground arith

pub truncated-handles :
    (s : FsState) (i : ℕ) (flags : ℤ)
    → (truncated s i flags).free_open_file_entries ≡ s.free_open_file_entries
truncated-handles s i flags = ground arith

pub open_existing-IsSound :
    (s : FsState) (i : ℕ) (flags : ℤ)
    → Inv s
    → FileInUse s i
    → IsSound s (open_existing s (pos i) flags)
open_existing-IsSound s i flags inv file =
    let t = truncated s i flags in
    let inv' = truncated-Inv s i flags inv file in
    let same = truncated-files s i flags in
    let file' : FileInUse t i = (file.0, file.1, rw same file.2) in
    let small : first_offset s i flags ≤ 1024 = elim (Bool-cases (has_flag flags tfs_o_append)) [
      | inl e ↦ rw e (size-le t i inv' file')
      | inr e ↦ rw e (omega arith)
    ] in
    rw (open_existing_lem s i flags inv file) (
      subst (λ g. Inv (r t).0 × TakesHandle g (r t)) (truncated-handles s i flags)
        (add_to_open_file_table-IsSound t (pos i) (first_offset s i flags) inv'
          (refl, file.0, file.1, rw same file.2) small))
  where
    r : FsState → FsState × ℤ
    r t = add_to_open_file_table t (pos i) (first_offset s i flags)

pub open_new-IsSound : (s : FsState) (name : List ℕ) → Inv s → IsSound s (open_new s name)
open_new-IsSound s name inv = elim (open_new-NewFile s name inv) [
  | inl (r, full) ↦ rw r (inv, inl (refl, refl))
  | inr (inl (k, small, vacant, r, why)) ↦ rw r (given_up-Inv s inv k vacant, inl (refl, refl))
  | inr (inr (k, e, can, r)) ↦
      let is : IsFile (file_state s k) (pos k) = (refl, can.0, can.1, rw (==_self k)) in
      let inv' =
        write_entry-Inv (file_state s k) (file_state-Inv s inv k can.2) e k (skip_first name) is in
      rw r (add_to_open_file_table-IsSound (entered s k e name) (pos k) 0 inv' is (omega arith))
]

pub open-IsSound :
    (s : FsState) (name : List ℕ) (flags : ℤ)
    → Inv s
    → IsSound s (tfs_open_unsynchronized s name flags)
unfolding tfs_open_unsynchronized
open-IsSound s name flags inv = elim (lookup-IsFile s inv name) [
  | inr is ↦
      rw (is.0, tfs_open_unsynchronized)
        (open_existing-IsSound s (pos_part (tfs_lookup_unsynchronized s name)) flags inv
          (is.1, is.2, is.3))
  | inl r ↦ elim (Bool-cases (has_flag flags tfs_o_creat)) [
    | inl e ↦ rw (r, e, tfs_open_unsynchronized) (open_new-IsSound s name inv)
    | inr e ↦ rw (r, e, tfs_open_unsynchronized) (inv, inl (refl, refl))
  ]
]
