-- ===== src/Operations/Open/Isolation.antt =====
-- What `_tfs_open_unsynchronized` leaves alone: the bytes of the other files.
use server_client.Common.{
  ℕ, ◌<◌, ◌≡◌, refl, ap, ◌∙◌, subst, ◌≢◌, ◌⊎◌, inl, inr, false, List, arith, Bool-cases, ◌==◌, ℤ,
  pos, pos_part,
}
use server_client.State.{FsState}
use server_client.State.Invariant.{Inv, HasData}
use server_client.Operations.Transfer.Write.{contents}
use server_client.Operations.Open.{
  tfs_lookup_unsynchronized, tfs_open_unsynchronized, has_flag, tfs_o_trunc, tfs_o_creat,
}
use server_client.Operations.Open.Outcome.{lookup-IsFile}
use server_client.Operations.Open.Kept.{contents-open_new}
use server_client.Operations.Open.Existing.{open-ExistingOutcome}

module _ (s : FsState) (inv : Inv s) (j : ℕ) (data_there : HasData s j) (file : 0 < j) where
  contents-existing :
      (name : List ℕ) (flags : ℤ) (i : ℕ)
      → tfs_lookup_unsynchronized s name ≡ pos i
      → (has_flag flags tfs_o_trunc ≡ false) ⊎ (tfs_lookup_unsynchronized s name ≢ pos j)
      → contents (tfs_open_unsynchronized s name flags).0 j ≡ contents s j
  contents-existing name flags i there spared =
      let (this, others, opened) = open-ExistingOutcome s name flags i inv there in
      elim (Bool-cases (i == j)) [
        | inr e ↦ others j (λ q. ground arith) data_there
        | inl e ↦
            let same : i ≡ j = ground arith in
            elim spared [
              | inl keep ↦
                  let kept : contents (tfs_open_unsynchronized s name flags).0 i ≡ contents s i =
                    this ∙ rw keep refl in
                  subst (λ n. contents (tfs_open_unsynchronized s name flags).0 n ≡ contents s n)
                    same kept
              | inr elsewhere ↦ absurd (elsewhere (there ∙ ap pos same))
            ]
      ]

  -- With valid tables, an open leaves the bytes of every file that has some alone, also when it
  -- creates a file or fails half way; only TFS_O_TRUNC with the file's own name empties it.
  pub contents-tfs_open_unsynchronized :
      (name : List ℕ) (flags : ℤ)
      → (has_flag flags tfs_o_trunc ≡ false) ⊎ (tfs_lookup_unsynchronized s name ≢ pos j)
      → contents (tfs_open_unsynchronized s name flags).0 j ≡ contents s j
  unfolding tfs_open_unsynchronized
  contents-tfs_open_unsynchronized name flags spared = elim (lookup-IsFile s inv name) [
    | inr is ↦
        contents-existing name flags (pos_part (tfs_lookup_unsynchronized s name)) is.0 spared
    | inl missing ↦ elim (Bool-cases (has_flag flags tfs_o_creat)) [
      | inl create ↦ rw (missing, create) (contents-open_new s inv j data_there file name)
      | inr keep ↦ rw (missing, keep) refl
    ]
  ]
