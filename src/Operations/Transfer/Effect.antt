-- ===== src/Operations/Transfer/Effect.antt =====
-- What a write through an open handle promises, whatever the state of the disk.
use server_client.Common.{
  ℕ, zero, suc, ◌+◌, ◌*◌, ◌≤◌, ◌<◌, ◌≡◌, refl, ap, sym, ◌∙◌, ◌≢◌, ◌⊎◌, inl, inr, false, some, List,
  [], ◌∷◌, arith, ◌==◌, ==_self, take, length, ℤ, pos, minus_one, pos_part,
}
use server_client.Memory.{load}
use server_client.Memory.Laws.{overwrite, length-load}
use server_client.State.{FsState, taken, free, set_inode}
use server_client.State.Invariant.{Inv, HasData, block_of}
use server_client.State.Invariant.Data.{
  FileInUse, Owns, claimed, claimed-Inv, claimed-Owns, data-Owns, unplaced-Inv,
}
use server_client.Operations.Transfer.{write_inode}
use server_client.Operations.Transfer.Write.{
  contents, offset_of, wrote, write_inode-Written, wrote-Inv, wrote-contents, wrote-contents_ne,
}

-- The i-node that the handle `h` is open on.
abbrev pub file_of : FsState → ℕ → ℕ
file_of s h = pos_part (s.open_file_table h).of_inumber

abbrev pub size_of : FsState → ℕ → ℕ
size_of s i = (s.inode_table i).i_size

-- `h` is a handle in use, and its offset lies inside the file.
abbrev pub IsOpenAt : FsState → ℕ → Type 0
IsOpenAt s h =
    (h < 20) × (s.free_open_file_entries h ≡ taken) × (offset_of s h ≤ size_of s (file_of s h))

abbrev pub DiskFull : FsState → Type 0
DiskFull s = (k : ℕ) → k < 1024 → s.free_blocks k ≡ taken

-- Every other file with data keeps its bytes.
abbrev pub KeepsOthers : FsState → FsState → ℕ → Type 0
KeepsOthers s s' i = (j : ℕ) → i ≢ j → HasData s j → contents s' j ≡ contents s j

-- The bytes land at the offset, which moves behind them, and no other file changes.
abbrev pub Overwrote : FsState → ℕ → ℕ → List ℕ → FsState → Type 0
Overwrote s h n buffer s' =
    let i = file_of s h in
    (contents s' i ≡ overwrite (offset_of s h) (take n buffer) (contents s i))
    × (offset_of s' h ≡ offset_of s h + n)
    × (file_of s' h ≡ i)
    × KeepsOthers s s' i

abbrev pub WriteEffect : FsState → ℕ → ℕ → List ℕ → FsState → ℤ → Type 0
WriteEffect s h n buffer s' ret =
    Inv s'
    × (((ret ≡ pos n) × Overwrote s h n buffer s')
        ⊎ ((ret ≡ minus_one)
            × (size_of s (file_of s h) ≡ 0)
            × DiskFull s
            × KeepsOthers s s' (file_of s h)))

overwrite_nothing : (k : ℕ) (old : List ℕ) → k ≤ length old → overwrite k [] old ≡ old
unfolding overwrite
overwrite_nothing zero old h = refl
overwrite_nothing (suc k) [] h = absurd (omega arith)
overwrite_nothing (suc k) (x ∷ old) h = ap (◌∷◌ x) (overwrite_nothing k old (omega arith))

pub contents-length : (s : FsState) (i : ℕ) → length (contents s i) ≡ size_of s i
unfolding contents
contents-length s i = length-load s.fs_data (block_of s i * 1024) (size_of s i)

module _ (s : FsState) (h n : ℕ) (buffer : List ℕ) (inv : Inv s) (open_at : IsOpenAt s h)
    (room : offset_of s h + n ≤ 1024) (enough : n ≤ length buffer) where
  file : FileInUse s (file_of s h)
  file = let is = inv.handles h open_at.0 open_at.1 in (is.1, is.2, is.3)

  wrote_handle :
      (j : ℕ)
      → (offset_of (wrote s h j buffer n) h ≡ offset_of s h + n)
        × (file_of (wrote s h j buffer n) h ≡ file_of s h)
  wrote_handle j = (ground arith, ground arith)

  wrote-Overwrote : Owns s (file_of s h) → Overwrote s h n buffer (wrote s h (file_of s h) buffer n)
  wrote-Overwrote owns =
      let i = file_of s h in
      (
        wrote-contents s inv h i n buffer file owns room open_at.2 enough,
        (wrote_handle i).0,
        (wrote_handle i).1,
        wrote-contents_ne s inv h i n buffer file owns room,
      )

-- The claimed block changes the bytes of no file.
module _ (s : FsState) (i k : ℕ) (empty : size_of s i ≡ 0) where
  contents-claimed_self : contents (claimed s i k) i ≡ contents s i
  unfolding contents load
  contents-claimed_self = rw (==_self i, empty)

  contents-claimed_ne :
      (z : ℤ) (j : ℕ)
      → i ≢ j
      → contents (set_inode s i (record (s.inode_table i) { i_data_block = z })) j ≡ contents s j
  unfolding contents
  contents-claimed_ne z j ne = let other : (i == j) ≡ false = ground arith in rw other

module _ (s : FsState) (h n : ℕ) (buffer : List ℕ) (inv : Inv s) (open_at : IsOpenAt s h)
    (room : offset_of s h + n ≤ 1024) (enough : n ≤ length buffer) where
  claimed-Overwrote :
      (k : ℕ)
      → k < 1024
      → size_of s (file_of s h) ≡ 0
      → s.free_blocks k ≡ free
      → Inv (wrote (claimed s (file_of s h) k) h (file_of s h) buffer n)
        × Overwrote s h n buffer (wrote (claimed s (file_of s h) k) h (file_of s h) buffer n)
  unfolding contents
  claimed-Overwrote k small empty vacant =
      let i = file_of s h in
      let is = file s h n buffer inv open_at room enough in
      let c = claimed s i k in
      let inv' = claimed-Inv s inv i is k empty vacant in
      let owns = claimed-Owns s inv i is k small empty vacant in
      let at : IsOpenAt c h = (open_at.0, open_at.1, ground arith) in
      let done = wrote-Overwrote c h n buffer inv' at room enough owns in
      (
        wrote-Inv c inv' h i n buffer is owns room,
        (
          done.0
              ∙ ap (overwrite (offset_of s h) (take n buffer)) (contents-claimed_self s i k empty),
          done.1,
          done.2,
          λ j ne d. done.3 j ne (others j ne d) ∙ contents-claimed_ne s i k empty (pos k) j ne,
        ),
      )
    where
      others : (j : ℕ) → file_of s h ≢ j → HasData s j → HasData (claimed s (file_of s h) k) j
      others j ne d = let other : (file_of s h == j) ≡ false = ground arith in rw other d

  nothing-Overwrote : n ≡ 0 → Overwrote s h n buffer s
  nothing-Overwrote nothing =
      let size = contents-length s (file_of s h) in
      (
        rw nothing
            (sym (overwrite_nothing (offset_of s h) (contents s (file_of s h)) (omega arith))),
        omega arith,
        refl,
        λ j ne d. refl,
      )

  pub write_inode-WriteEffect :
      (r : FsState) × (ret : ℤ) × (write_inode s h (file_of s h) buffer n ≡ some (r, ret))
      × WriteEffect s h n buffer r ret
  write_inode-WriteEffect =
      let i = file_of s h in
      let is = file s h n buffer inv open_at room enough in
      elim (write_inode-Written s h i n buffer inv is room) [
        | inl (nothing, e) ↦ (s, pos 0, e, (inv, inl (ground arith, nothing-Overwrote nothing)))
        | inr (inl (some_bytes, empty, full, e)) ↦ (
          set_inode s i (record (s.inode_table i) { i_data_block = minus_one }),
          minus_one,
          e,
          (
            unplaced-Inv s inv i is minus_one empty,
            inr (refl, empty, full, λ j ne d. contents-claimed_ne s i 0 empty minus_one j ne),
          ),
        )
        | inr (inr (inl (k, some_bytes, empty, small, vacant, e))) ↦
            let (inv', done) = claimed-Overwrote k small empty vacant in
            (wrote (claimed s i k) h i buffer n, pos n, e, (inv', inl (refl, done)))
        | inr (inr (inr (some_bytes, full, e))) ↦
            let owns = data-Owns s inv i is full in
            (
              wrote s h i buffer n,
              pos n,
              e,
              (
                wrote-Inv s inv h i n buffer is owns room,
                inl (refl, wrote-Overwrote s h n buffer inv open_at room enough owns),
              ),
            )
      ]
