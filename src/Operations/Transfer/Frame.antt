-- ===== src/Operations/Transfer/Frame.antt =====
-- What a write leaves alone: the root directory and the other handles.
use server_client.Common.{
  ℕ, zero, suc, ◌+◌, ◌*◌, ◌≤◌, ◌≡◌, refl, ap, sym, ◌∙◌, subst, ◌≢◌, inl, inr, Option, none, some,
  List, arith, Bool-cases, if◌then◌else◌, ltb, take, ℤ, minus_one, not,
}
use server_client.Memory.{Memory, store}
use server_client.Memory.Laws.{load-store_apart, read_int-store_apart}
use server_client.State.{FsState, root_dir_inum}
use server_client.State.Directory.{find_entry, find_in_dir}
use server_client.State.Invariant.{Inv, block_of}
use server_client.State.Invariant.Data.{
  FileInUse, Owns, claimed, claimed-Inv, claimed-Owns, data-Owns, Owns-not_root,
}
use server_client.Operations.Open.{tfs_lookup_unsynchronized, valid_pathname, skip_first}
use server_client.Operations.Open.Outcome.{find_in_dir-root}
use server_client.Operations.Transfer.{write_inode}
use server_client.Operations.Transfer.Write.{wrote, offset_of, write_inode-Written}

-- Every name is found as before, and no handle but `h` changes.
abbrev pub Frame : FsState → ℕ → FsState → Type 0
Frame s h r =
    ((name : List ℕ) → find_entry r.fs_data 0 name 23 0 ≡ find_entry s.fs_data 0 name 23 0)
    × (r.free_open_file_entries ≡ s.free_open_file_entries)
    × ((g : ℕ) → h ≢ g → r.open_file_table g ≡ s.open_file_table g)

-- The directory does not see a store behind its block.
find_entry-store :
    (m : Memory) (a : ℕ) (bytes name : List ℕ) (n i : ℕ)
    → n + i ≤ 23
    → 1024 ≤ a
    → find_entry (store m a bytes) 0 name n i ≡ find_entry m 0 name n i
unfolding find_entry
find_entry-store m a bytes name zero i few above = refl
find_entry-store m a bytes name (suc n) i few above =
    let number = read_int-store_apart m a bytes (0 + 44 * i + 40) (inl (omega arith)) in
    let text = load-store_apart m a bytes (0 + 44 * i) 40 (inl (omega arith)) in
    let rest = find_entry-store m a bytes name n (i + 1) (omega arith) above in
    rw (number, text, rest) refl

module _ (s : FsState) (inv : Inv s) (h i n : ℕ) (buffer : List ℕ) (file : FileInUse s i) where
  wrote-Frame : Owns s i → Frame s h (wrote s h i buffer n)
  wrote-Frame owns =
      let far = Owns-not_root s inv i file owns in
      let same = λ (name : List ℕ).
        find_entry-store s.fs_data (block_of s i * 1024 + offset_of s h) (take n buffer) name 23 0
          (omega arith) (omega arith) in
      elim (Bool-cases (ltb (s.inode_table i).i_size (offset_of s h + n))) [
        | inl grows ↦ rw grows (same, refl, λ g ne. ground arith)
        | inr fits ↦ rw fits (same, refl, λ g ne. ground arith)
      ]

or_before : FsState → Option (FsState × ℤ) → FsState
or_before s none = s
or_before s (some (r, ret)) = r

-- A write keeps every name and every other handle.
pub write_inode-Frame :
    (s : FsState) (h i n : ℕ) (buffer : List ℕ) (r : FsState) (ret : ℤ)
    → Inv s
    → FileInUse s i
    → offset_of s h + n ≤ 1024
    → write_inode s h i buffer n ≡ some (r, ret)
    → Frame s h r
unfolding or_before
write_inode-Frame s h i n buffer r ret inv file room e =
    let result = λ (o : Option (FsState × ℤ)) (q : write_inode s h i buffer n ≡ o).
      ap (or_before s) (sym q ∙ e) in
    elim (write_inode-Written s h i n buffer inv file room) [
      | inl (nothing, q) ↦ subst (Frame s h) (result _ q) (λ name. refl, refl, λ g ne. refl)
      | inr (inl (something, empty, full, q)) ↦
          subst (Frame s h) (result _ q) (λ name. refl, refl, λ g ne. refl)
      | inr (inr (inl (k, something, empty, small, vacant, q))) ↦ subst (Frame s h) (result _ q) (
          wrote-Frame (claimed s i k) (claimed-Inv s inv i file k empty vacant) h i n buffer file
            (claimed-Owns s inv i file k small empty vacant))
      | inr (inr (inr (something, full, q))) ↦
          subst (Frame s h) (result _ q)
            (wrote-Frame s inv h i n buffer file (data-Owns s inv i file full))
    ]

-- Where the directory is the same, so is every lookup.
pub lookup-Frame :
    (s r : FsState) (h : ℕ) (name : List ℕ)
    → Inv s
    → Inv r
    → Frame s h r
    → tfs_lookup_unsynchronized r name ≡ tfs_lookup_unsynchronized s name
unfolding tfs_lookup_unsynchronized
lookup-Frame s r h name inv inv' frame =
    let rest = skip_first name in
    let same : find_in_dir r root_dir_inum rest ≡ find_in_dir s root_dir_inum rest =
      find_in_dir-root r inv' rest ∙ frame.0 rest ∙ sym (find_in_dir-root s inv rest) in
    ap (λ z. if not (valid_pathname name) then minus_one else z) same
