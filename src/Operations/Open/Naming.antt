-- ===== src/Operations/Open/Naming.antt =====
-- The root directory as a map from names to files: a file that `_tfs_open_unsynchronized` creates
-- is found under its name from then on, and the other names lead where they led.
use server_client.Common.{
  ℕ, suc, ◌≤◌, ◌<◌, ◌≡◌, refl, ap, subst, sym, ◌∙◌, ◌≢◌, ◌⊎◌, inl, inr, true, false, List, ◌∷◌,
  arith, Bool-cases, ltb, length, ◌==◌, ==_self, ℤ, pos, minus_one,
}
use server_client.Memory.{c_string}
use server_client.Memory.Strings.{NulFree, c_string-NulFree}
use server_client.State.{FsState, taken, free, root_dir_inum}
use server_client.State.Directory.{find_in_dir, find_entry, write_entry}
use server_client.State.Search.{find_entry-Found}
use server_client.State.Results.{opened_state, add_to_open_file_table-Opened}
use server_client.State.Invariant.{Inv, HasData}
use server_client.Operations.Transfer.Write.{contents}
use server_client.Operations.Open.Kept.{contents-open_new}
use server_client.Operations.Open.{
  tfs_lookup_unsynchronized, valid_pathname, tfs_open_unsynchronized, open_new, has_flag,
  tfs_o_creat,
}
use server_client.Operations.Open.Outcome.{find_in_dir-root}
use server_client.Operations.Open.Preserve.{IsSound, open_new-IsSound}
use server_client.Operations.Open.Create.{
  InodesFull, DirectoryFull, CanEnter, entered, open_new-NewFile,
}
use server_client.Operations.Open.Entered.{Found-new, Found-old}

-- "/" before a name.
abbrev pub root_path : List ℕ → List ℕ
root_path rest = b'/' ∷ rest

lookup-root_path :
    (s : FsState) (rest : List ℕ)
    → NulFree rest
    → 0 < length rest
    → tfs_lookup_unsynchronized s (root_path rest) ≡ find_in_dir s root_dir_inum rest
unfolding tfs_lookup_unsynchronized valid_pathname
lookup-root_path s rest clean h =
    let same = c_string-NulFree rest clean in
    let long : ltb 1 (suc (length (c_string rest))) ≡ true =
      rw same (let e : ltb 1 (suc (length rest)) ≡ true = ground arith in e) in
    rw long (ap (find_in_dir s root_dir_inum) same)

lookup-find_entry :
    (s : FsState) (rest : List ℕ)
    → Inv s
    → NulFree rest
    → 0 < length rest
    → tfs_lookup_unsynchronized s (root_path rest) ≡ find_entry s.fs_data 0 rest 23 0
lookup-find_entry s rest inv clean h = lookup-root_path s rest clean h ∙ find_in_dir-root s inv rest

-- No handle is left.
abbrev pub HandlesFull : FsState → Type 0
HandlesFull s = (h : ℕ) → h < 20 → s.free_open_file_entries h ≡ taken

-- The file `k` is new and empty, is open at 0 under the handle `h`, is found under its name, and
-- all other names lead where they led.
abbrev pub CreatedAs : FsState → List ℕ → FsState → ℕ → ℕ → Type 0
CreatedAs s rest r h k =
    (s.freeinode_ts k ≡ free)
    × (r.open_file_table h ≡ record { of_inumber = pos k; of_offset = 0 })
    × (r.free_open_file_entries h ≡ taken)
    × ((r.inode_table k).i_size ≡ 0)
    × (tfs_lookup_unsynchronized r (root_path rest) ≡ pos k)
    × ((name : List ℕ)
        → NulFree name
        → 0 < length name
        → rest ≢ name
        → tfs_lookup_unsynchronized r (root_path name)
          ≡ tfs_lookup_unsynchronized s (root_path name))

abbrev CreateResult : FsState → List ℕ → FsState × ℤ → Type 0
CreateResult s rest r =
    ((r.1 ≡ minus_one) × (InodesFull s ⊎ DirectoryFull s ⊎ HandlesFull s))
    ⊎ ((h : ℕ) × (k : ℕ) × (r.1 ≡ pos h) × CreatedAs s rest r.0 h k)

-- Every file that has bytes keeps them.
abbrev pub KeepsFiles : FsState → FsState → Type 0
KeepsFiles s r = (j : ℕ) → HasData s j → 0 < j → contents r j ≡ contents s j

abbrev pub CreateOutcome : FsState → List ℕ → FsState × ℤ → Type 0
CreateOutcome s rest r = KeepsFiles s r.0 × CreateResult s rest r

module _ (s : FsState) (inv : Inv s) (rest : List ℕ) (fits : length rest ≤ 39)
    (some_name : 0 < length rest) (clean : NulFree rest)
    (missing : tfs_lookup_unsynchronized s (root_path rest) ≡ minus_one) where
  opened-CreatedAs :
      (k e h : ℕ)
      → CanEnter s (root_path rest) k e
      → Inv (opened_state (entered s k e (root_path rest)) h (pos k) 0)
      → CreatedAs s rest (opened_state (entered s k e (root_path rest)) h (pos k) 0) h k
  opened-CreatedAs k e h can inv' =
      let r = opened_state (entered s k e (root_path rest)) h (pos k) 0 in
      let same = sym (c_string-NulFree rest clean) in
      let Finds : List ℕ → ℤ → List ℕ → Type 0 =
        λ name z text. find_entry (write_entry s.fs_data 0 e (pos k) text) 0 name 23 0 ≡ z in
      (
        can.2,
        rw (==_self h),
        rw (==_self h),
        rw (==_self k),
        lookup-find_entry r rest inv' clean some_name
            ∙ subst (Finds rest (pos k)) same (
                Found-new s.fs_data 0 e k rest can.4 (omega arith) fits clean _ _ can.3
                  (find_entry-Found s.fs_data 0 rest 23 0 23 refl)
                  (sym (lookup-find_entry s rest inv clean some_name) ∙ missing)
                  (find_entry-Found (write_entry s.fs_data 0 e (pos k) rest) 0 rest 23 0 23 refl)),
        λ name clean' there ne.
            lookup-find_entry r name inv' clean' there
            ∙ subst (Finds name (find_entry s.fs_data 0 name 23 0)) same (
                Found-old s.fs_data 0 e k rest can.4 (omega arith) fits clean name _ _ clean' ne
                  (find_entry-Found s.fs_data 0 name 23 0 23 refl)
                  (find_entry-Found (write_entry s.fs_data 0 e (pos k) rest) 0 name 23 0 23 refl))
            ∙ sym (lookup-find_entry s name inv clean' there),
      )

  nonempty : length (c_string rest) ≢ 0
  nonempty empty = let e = ap length (c_string-NulFree rest clean) in absurd (omega arith)

  open_new-CreateResult :
      IsSound s (open_new s (root_path rest)) → CreateResult s rest (open_new s (root_path rest))
  open_new-CreateResult sound = elim (open_new-NewFile s (root_path rest) inv) [
    | inl (r, full) ↦ rw r (inl (refl, inl full))
    | inr (inl (k, small, vacant, r, inl empty)) ↦ absurd (nonempty empty)
    | inr (inl (k, small, vacant, r, inr full)) ↦ rw r (inl (refl, inr (inl full)))
    | inr (inr (k, e, can, r)) ↦
        elim (add_to_open_file_table-Opened (entered s k e (root_path rest)) (pos k) 0) [
          | inl (r', full) ↦ rw (r, r') (inl (refl, inr (inr full)))
          | inr (h, below, vacant, r') ↦
              let inv' = subst (λ u. Inv u.0) (r ∙ r') sound.0 in
              rw (r, r') (inr (h, k, refl, opened-CreatedAs k e h can inv'))
        ]
  ]

  open_new-CreateOutcome : CreateOutcome s rest (open_new s (root_path rest))
  open_new-CreateOutcome = (
    λ j has file. contents-open_new s inv j has file (root_path rest),
    open_new-CreateResult (open_new-IsSound s (root_path rest) inv),
  )

  -- With valid tables, opening "/" and a missing name of 1 to 39 bytes with TFS_O_CREAT either fails
  -- because the i-nodes, the directory or the open file table are full, or creates an empty file that
  -- is found under this name from then on and is open at offset 0 under a handle that is in use,
  -- while every other name leads where it led. Either way every other file keeps its bytes.
  pub open-CreateOutcome :
      (flags : ℤ)
      → has_flag flags tfs_o_creat ≡ true
      → CreateOutcome s rest (tfs_open_unsynchronized s (root_path rest) flags)
  unfolding tfs_open_unsynchronized
  open-CreateOutcome flags creat =
      rw (missing, creat, tfs_open_unsynchronized) open_new-CreateOutcome

  -- With TFS_O_CREAT a path whose first byte is neither a slash nor zero is not refused: with valid
  -- tables, and where no file has the name of 1 to 39 bytes behind its first byte, it does what the
  -- path with a slash for its first byte does. It fails only because a table is full, and else
  -- creates a file that is found under "/" and this name.
  pub open_no_slash :
      (c : ℕ) (flags : ℤ)
      → 0 < c
      → c ≢ b'/'
      → has_flag flags tfs_o_creat ≡ true
      → CreateOutcome s rest (tfs_open_unsynchronized s (c ∷ rest) flags)
  unfolding tfs_open_unsynchronized tfs_lookup_unsynchronized valid_pathname open_new
  open_no_slash c flags positive ne creat =
      let no_slash : (c == b'/') ≡ false = ground arith in
      let byte : (c == 0) ≡ false = ground arith in
      let whole : tfs_open_unsynchronized s (c ∷ rest) flags ≡ open_new s (root_path rest) =
        elim (Bool-cases (ltb 1 (suc (length (c_string rest))))) [
          | inl e ↦ rw (byte, e, no_slash, creat)
          | inr e ↦ rw (byte, e, creat)
        ] in
      subst (CreateOutcome s rest) (sym whole) open_new-CreateOutcome
