-- ===== src/Operations/Open/Existing.antt =====
-- Opening a file that is there: what the flags do to its bytes and to the first offset.
use server_client.Common.{
  ℕ, ◌≡◌, refl, ap, subst, sym, ◌∙◌, ◌≢◌, ◌⊎◌, inl, inr, false, ◌&&◌, List, [], arith, Bool-cases,
  if◌then◌else◌, ltb, length, ◌==◌, ==_self, ℤ, pos, minus_one, pos_part,
}
use server_client.Memory.{load}
use server_client.State.{FsState, taken, free}
use server_client.State.Results.{add_to_open_file_table-Opened}
use server_client.State.Invariant.{Inv}
use server_client.State.Invariant.Data.{FileInUse, emptied}
use server_client.Operations.Transfer.Write.{contents}
use server_client.Operations.Transfer.Effect.{KeepsOthers, contents-length}
use server_client.Operations.Open.{
  tfs_lookup_unsynchronized, tfs_open_unsynchronized, open_existing, has_flag, tfs_o_trunc,
  tfs_o_append,
}
use server_client.Operations.Open.Outcome.{
  lookup-IsFile, truncated, first_offset, open_existing_lem,
}
use server_client.Operations.Open.Preserve.{truncated-handles}
use server_client.Operations.Open.Naming.{HandlesFull}

module _ (s : FsState) (i : ℕ) (flags : ℤ) where
  contents-emptied : contents (emptied s i) i ≡ []
  unfolding contents load
  contents-emptied = rw (==_self i)

  contents-emptied_ne : (j : ℕ) → i ≢ j → contents (emptied s i) j ≡ contents s j
  unfolding contents
  contents-emptied_ne j ne = let other : (i == j) ≡ false = ground arith in rw other

  contents-empty : (s.inode_table i).i_size ≡ 0 → contents s i ≡ []
  unfolding contents load
  contents-empty e = rw e

  contents-truncated :
      contents (truncated s i flags) i ≡ (if has_flag flags tfs_o_trunc then [] else contents s i)
  contents-truncated = elim (Bool-cases (has_flag flags tfs_o_trunc)) [
    | inr keep ↦ rw keep
    | inl cut ↦ elim (Bool-cases (ltb 0 (s.inode_table i).i_size)) [
      | inl full ↦ rw (cut, full) contents-emptied
      | inr empty ↦ rw (cut, empty) (contents-empty (ground arith))
    ]
  ]

  truncated-KeepsOthers : KeepsOthers s (truncated s i flags) i
  truncated-KeepsOthers j ne d =
      elim (Bool-cases (has_flag flags tfs_o_trunc && ltb 0 (s.inode_table i).i_size)) [
        | inl cut ↦ rw cut (contents-emptied_ne j ne)
        | inr keep ↦ rw keep
      ]

-- The file `i` is open: at its end with TFS_O_APPEND, else at 0.
abbrev pub OpenedAs : FsState → ℕ → ℤ → ℕ → Type 0
OpenedAs r i flags h = r.open_file_table h ≡ record {
  of_inumber = pos i;
  of_offset = if has_flag flags tfs_o_append then length (contents r i) else 0;
}

abbrev pub ExistingOutcome : FsState → ℕ → ℤ → FsState × ℤ → Type 0
ExistingOutcome s i flags r =
    (contents r.0 i ≡ (if has_flag flags tfs_o_trunc then [] else contents s i))
    × KeepsOthers s r.0 i
    × (((r.1 ≡ minus_one) × HandlesFull s)
        ⊎ ((h : ℕ) × (r.1 ≡ pos h)
            × (s.free_open_file_entries h ≡ free)
            × (r.0.free_open_file_entries h ≡ taken)
            × OpenedAs r.0 i flags h))

opened-ExistingOutcome :
    (s : FsState) (i : ℕ) (flags : ℤ)
    → Inv s
    → FileInUse s i
    → ExistingOutcome s i flags (open_existing s (pos i) flags)
unfolding contents
opened-ExistingOutcome s i flags inv file =
    rw (open_existing_lem s i flags inv file)
      (elim (add_to_open_file_table-Opened t (pos i) (first_offset s i flags)) [
        | inl (r, full) ↦ rw r (
          contents-truncated s i flags,
          truncated-KeepsOthers s i flags,
          inl (refl, λ h b. same h (full h b)),
        )
        | inr (h, below, vacant, r) ↦ rw r (
          contents-truncated s i flags,
          truncated-KeepsOthers s i flags,
          inr (h, refl, same_free h vacant, rw (==_self h), rw (==_self h, contents-length t i)),
        )
      ])
  where
    t : FsState
    t = truncated s i flags

    same : (h : ℕ) → t.free_open_file_entries h ≡ taken → s.free_open_file_entries h ≡ taken
    same h e = sym (ap (λ f. f h) (truncated-handles s i flags)) ∙ e

    same_free : (h : ℕ) → t.free_open_file_entries h ≡ free → s.free_open_file_entries h ≡ free
    same_free h e = sym (ap (λ f. f h) (truncated-handles s i flags)) ∙ e

-- With valid tables, opening a name that leads to the file `i` empties the file with TFS_O_TRUNC and
-- else keeps its bytes, changes no other file, and opens it at its end with TFS_O_APPEND and else at
-- 0, under a handle that was free and is in use from then on; it fails only if every handle is in
-- use.
pub open-ExistingOutcome :
    (s : FsState) (name : List ℕ) (flags : ℤ) (i : ℕ)
    → Inv s
    → tfs_lookup_unsynchronized s name ≡ pos i
    → ExistingOutcome s i flags (tfs_open_unsynchronized s name flags)
unfolding tfs_open_unsynchronized
open-ExistingOutcome s name flags i inv there = elim (lookup-IsFile s inv name) [
  | inl r ↦ absurd (ground arith)
  | inr is ↦
      let file : FileInUse s i = subst (λ z. FileInUse s (pos_part z)) there (is.1, is.2, is.3) in
      rw (there, tfs_open_unsynchronized) (opened-ExistingOutcome s i flags inv file)
]
