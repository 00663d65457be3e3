-- ===== src/Operations/Open/Handle.antt =====
-- What the callers of `tfs_open` and `tfs_close` of operations.c get, whatever the tables hold.
use server_client.Common.{
  ℕ, ◌<◌, ◌≡◌, refl, ap, ◌⊎◌, inl, inr, Bool-cases, Option-cases, List, ℤ, pos, minus_one, eqb_ℤ,
  is_negative, if◌then◌else◌,
}
use server_client.State.{FsState, t_file, inode_get, root_dir_inum}
use server_client.State.Inodes.{inode_create}
use server_client.State.Directory.{add_dir_entry}
use server_client.State.OpenFiles.{add_to_open_file_table}
use server_client.State.Results.{add_to_open_file_table-Opened, remove_from_open_file_table-Removed}
use server_client.Operations.{Tfs, all_return_zero, is_destroy, tfs_open, tfs_close}
use server_client.Operations.Open.{
  tfs_lookup_unsynchronized, skip_first, truncate, open_existing, open_new, tfs_open_unsynchronized,
  has_flag, tfs_o_creat, tfs_o_trunc,
}

-- -1 or the number of an entry of the table of open files.
abbrev pub IsHandle : ℤ → Type 0
IsHandle z = (z ≡ minus_one) ⊎ ((h : ℕ) × (h < 20) × (z ≡ pos h))

add_to_open_file_table-IsHandle :
    (s : FsState) (inumber : ℤ) (offset : ℕ) → IsHandle (add_to_open_file_table s inumber offset).1
add_to_open_file_table-IsHandle s inumber offset =
    elim (add_to_open_file_table-Opened s inumber offset) [
      | inl (e, full) ↦ inl (ap (λ r. r.1) e)
      | inr (h, below, vacant, e) ↦ inr (h, below, ap (λ r. r.1) e)
    ]

open_existing-IsHandle : (s : FsState) (inum flags : ℤ) → IsHandle (open_existing s inum flags).1
unfolding open_existing
open_existing-IsHandle s inum flags = elim (Option-cases (inode_get inum)) [
  | inl e ↦ rw (e, open_existing) (inl refl)
  | inr (i, e) ↦
      let cleared = if has_flag flags tfs_o_trunc then truncate s i else (s, pos 0) in
      rw (e, open_existing)
        (elim (Bool-cases (eqb_ℤ cleared.1 minus_one)) [
          | inl failed ↦ rw failed (inl refl)
          | inr done ↦ rw done (add_to_open_file_table-IsHandle cleared.0 inum _)
        ])
]

open_new-IsHandle : (s : FsState) (name : List ℕ) → IsHandle (open_new s name).1
unfolding open_new
open_new-IsHandle s name =
    let created = inode_create s t_file in
    let entered = add_dir_entry created.0 root_dir_inum created.1 (skip_first name) in
    elim (Bool-cases (eqb_ℤ created.1 minus_one)) [
      | inl full ↦ rw full (inl refl)
      | inr there ↦ elim (Bool-cases (eqb_ℤ entered.1 minus_one)) [
        | inl full ↦ rw (there, full) (inl refl)
        | inr listed ↦ rw (there, listed) (add_to_open_file_table-IsHandle entered.0 created.1 0)
      ]
    ]

tfs_open_unsynchronized-IsHandle :
    (s : FsState) (name : List ℕ) (flags : ℤ) → IsHandle (tfs_open_unsynchronized s name flags).1
unfolding tfs_open_unsynchronized
tfs_open_unsynchronized-IsHandle s name flags =
    elim (Bool-cases (is_negative (tfs_lookup_unsynchronized s name))) [
      | inr there ↦ rw there (open_existing-IsHandle s (tfs_lookup_unsynchronized s name) flags)
      | inl missing ↦ elim (Bool-cases (has_flag flags tfs_o_creat)) [
        | inl create ↦ rw (missing, create) (open_new-IsHandle s name)
        | inr keep ↦ rw (missing, keep) (inl refl)
      ]
    ]

-- An open returns -1 or a handle below 20, whatever the tables, the name and the flags are, when
-- every pthread call returns 0.
pub tfs_open-IsHandle :
    (t : Tfs) (name : List ℕ) (flags : ℤ) → IsHandle (tfs_open all_return_zero t name flags).1
unfolding tfs_open
tfs_open-IsHandle t name flags = elim (Bool-cases (is_destroy t.called_destroy)) [
  | inl ending ↦ rw ending (inl refl)
  | inr running ↦ elim (Bool-cases (eqb_ℤ (tfs_open_unsynchronized t.fs name flags).1 minus_one)) [
    | inl failed ↦ rw (running, failed) (inl refl)
    | inr opened ↦ rw (running, opened) (tfs_open_unsynchronized-IsHandle t.fs name flags)
  ]
]

-- A close returns -1 or 0.
pub tfs_close-result :
    (t : Tfs) (fhandle : ℤ)
    → ((tfs_close all_return_zero t fhandle).1 ≡ minus_one)
      ⊎ ((tfs_close all_return_zero t fhandle).1 ≡ pos 0)
unfolding tfs_close
tfs_close-result t fhandle = elim (remove_from_open_file_table-Removed t.fs fhandle) [
  | inl (e, vacant) ↦ rw e (inl refl)
  | inr (h, at, below, busy, e) ↦ rw e (inr refl)
]
