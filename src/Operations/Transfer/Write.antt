-- ===== src/Operations/Transfer/Write.antt =====
-- What `_tfs_write_unsynchronized` does to the bytes of the files.
use server_client.Common.{
  ℕ, ◌+◌, ◌*◌, ◌≤◌, ◌<◌, ◌≡◌, refl, ap, sym, ◌∙◌, ◌≢◌, ◌⊎◌, inl, inr, false, Option, none, some,
  List, arith, Bool-cases, ne-cases, if◌then◌else◌, ltb, ◌==◌, ==_self, lt→ltb, le→ltb, take,
  length, length-take, ℤ, pos, negsuc, minus_one, pos_part,
}
use server_client.Memory.{load, store}
use server_client.Memory.Laws.{overwrite, load-store, load-store_apart}
use server_client.State.{FsState, taken, free, set_inode, data_block_get}
use server_client.State.Results.{data_block_alloc-Allocated}
use server_client.State.Invariant.{Inv, HasData, block_of}
use server_client.State.Invariant.Data.{
  FileInUse, Owns, claimed, claimed-Inv, claimed-Owns, data-Owns, Owns-not_root, resized,
  resized-Inv, store-Inv, set_offset-Inv,
}
use server_client.Operations.Transfer.{set_offset, claim_block, write_block, write_inode}

-- The bytes of the file with i-node `i`.
unfoldable pub contents : FsState → ℕ → List ℕ
contents s i = load s.fs_data (block_of s i * 1024) (s.inode_table i).i_size

abbrev pub offset_of : FsState → ℕ → ℕ
offset_of s h = (s.open_file_table h).of_offset

-- The bytes are in the block and the offset has moved.
abbrev pub moved : FsState → ℕ → ℕ → List ℕ → ℕ → FsState
moved s h i buffer n =
    set_offset
      (record s { fs_data = store s.fs_data (block_of s i * 1024 + offset_of s h) (take n buffer) })
      h (offset_of s h + n)

-- The file has grown to the offset, if it was shorter.
abbrev pub wrote : FsState → ℕ → ℕ → List ℕ → ℕ → FsState
wrote s h i buffer n =
    if ltb (s.inode_table i).i_size (offset_of s h + n)
    then resized (moved s h i buffer n) i (offset_of s h + n)
    else moved s h i buffer n

module _ (s : FsState) (inv : Inv s) (h i n : ℕ) (buffer : List ℕ) (file : FileInUse s i)
    (owns : Owns s i) (room : offset_of s h + n ≤ 1024) where
  write_block-wrote :
      write_block s h i buffer n (block_of s i * 1024) ≡ some (wrote s h i buffer n, pos n)
  unfolding write_block
  write_block-wrote =
      let place = owns.0 in
      let inside = le→ltb 1048576 (block_of s i * 1024 + offset_of s h + n) (omega arith) in
      let short = lt→ltb n 9223372036854775808 (omega arith) in
      elim (Bool-cases (ltb (s.inode_table i).i_size (offset_of s h + n))) [
        | inl grows ↦ rw (inside, short, grows)
        | inr fits ↦ rw (inside, short, fits)
      ]

  moved-Inv : Inv (moved s h i buffer n)
  moved-Inv =
      let far = Owns-not_root s inv i file owns in
      set_offset-Inv _ h (offset_of s h + n)
        (store-Inv s (block_of s i * 1024 + offset_of s h) (take n buffer) inv (omega arith)) room

  pub wrote-Inv : Inv (wrote s h i buffer n)
  wrote-Inv = elim (Bool-cases (ltb (s.inode_table i).i_size (offset_of s h + n))) [
    | inl grows ↦
        rw grows (resized-Inv (moved s h i buffer n) moved-Inv i file (offset_of s h + n) owns room)
    | inr fits ↦ rw fits moved-Inv
  ]

  pub wrote-contents :
      offset_of s h ≤ (s.inode_table i).i_size
      → n ≤ length buffer
      → contents (wrote s h i buffer n) i ≡ overwrite (offset_of s h) (take n buffer) (contents s i)
  unfolding contents
  wrote-contents in_file enough =
      let size = (s.inode_table i).i_size in
      let a = block_of s i * 1024 in
      let taken_all = length-take n buffer in
      elim (Bool-cases (ltb size (offset_of s h + n))) [
        | inl grows ↦
            rw (grows, ==_self i)
              (load-store s.fs_data a (a + offset_of s h) (offset_of s h) size (offset_of s h + n)
                (take n buffer) refl in_file (ground arith) (omega arith) (inr (omega arith)))
        | inr fits ↦ rw fits (
            load-store s.fs_data a (a + offset_of s h) (offset_of s h) size size (take n buffer)
              refl in_file (omega arith) (ground arith) (inl refl))
      ]

  pub wrote-contents_ne :
      (j : ℕ) → i ≢ j → HasData s j → contents (wrote s h i buffer n) j ≡ contents s j
  unfolding contents
  wrote-contents_ne j ne d =
      let size = inv.small j d in
      let taken_all = length-take n buffer in
      let side : (block_of s j * 1024 + (s.inode_table j).i_size
            ≤ block_of s i * 1024 + offset_of s h)
          ⊎ (block_of s i * 1024 + offset_of s h + length (take n buffer) ≤ block_of s j * 1024) =
        elim (ne-cases (block_of s i) (block_of s j) (λ e. ne (owns.1 j d (sym e)))) [
          | inl less ↦ inl (omega arith)
          | inr more ↦ inr (omega arith)
        ] in
      let kept =
        load-store_apart s.fs_data (block_of s i * 1024 + offset_of s h) (take n buffer)
          (block_of s j * 1024) (s.inode_table j).i_size side in
      let other : (i == j) ≡ false = ground arith in
      elim (Bool-cases (ltb (s.inode_table i).i_size (offset_of s h + n))) [
        | inl grows ↦ rw (grows, other) kept
        | inr fits ↦ rw fits kept
      ]

-- The result of a write: nothing to write, no block left for an empty file, or the bytes written.
abbrev pub Written : FsState → ℕ → ℕ → List ℕ → ℕ → Option (FsState × ℤ) → Type 0
Written s h i buffer n r =
    ((n ≡ 0) × (r ≡ some (s, pos 0)))
    ⊎ ((0 < n)
        × ((s.inode_table i).i_size ≡ 0)
        × ((k : ℕ) → k < 1024 → s.free_blocks k ≡ taken)
        × (r
            ≡ some
                (set_inode s i (record (s.inode_table i) { i_data_block = minus_one }), minus_one)))
    ⊎ ((k : ℕ) × (0 < n)
        × ((s.inode_table i).i_size ≡ 0)
        × (k < 1024)
        × (s.free_blocks k ≡ free)
        × (r ≡ some (wrote (claimed s i k) h i buffer n, pos n)))
    ⊎ ((0 < n) × (0 < (s.inode_table i).i_size) × (r ≡ some (wrote s h i buffer n, pos n)))

pub data_block_get_valid :
    (z : ℤ) → z ≡ pos (pos_part z) → pos_part z < 1024 → data_block_get z ≡ some (pos_part z * 1024)
unfolding data_block_get
data_block_get_valid (pos n) e h = rw (lt→ltb n 1024 h)
data_block_get_valid (negsuc n) e h = cc

module _ (s t : FsState) (h i n : ℕ) (buffer : List ℕ) (something : (n == 0) ≡ false)
    (claim : claim_block s i ≡ t) where
  pub write_inode_placed :
      (block : ℕ)
      → data_block_get (t.inode_table i).i_data_block ≡ some block
      → write_inode s h i buffer n ≡ write_block t h i buffer n block
  unfolding write_inode
  write_inode_placed block got =
      rw (something, claim, got, write_inode) (ap (λ u. write_block u h i buffer n block) claim)

  write_inode_unplaced :
      data_block_get (t.inode_table i).i_data_block ≡ none
      → write_inode s h i buffer n ≡ some (t, minus_one)
  unfolding write_inode
  write_inode_unplaced got =
      rw (something, claim, got, write_inode) (ap (λ u. some (u, minus_one)) claim)

pub write_inode-Written :
    (s : FsState) (h i n : ℕ) (buffer : List ℕ)
    → Inv s
    → FileInUse s i
    → offset_of s h + n ≤ 1024
    → Written s h i buffer n (write_inode s h i buffer n)
unfolding write_inode claim_block data_block_get
write_inode-Written s h i n buffer inv file room = elim (Bool-cases (n == 0)) [
  | inl nothing ↦ inl (ground arith, rw nothing)
  | inr something ↦ elim (Bool-cases ((s.inode_table i).i_size == 0)) [
    | inr full ↦
        let owns = data-Owns s inv i file (ground arith) in
        let claim : claim_block s i ≡ s = rw full in
        let got = data_block_get_valid (s.inode_table i).i_data_block owns.0.0 owns.0.1 in
        let eq =
          write_inode_placed s s h i n buffer something claim (block_of s i * 1024) got
          ∙ write_block-wrote s inv h i n buffer file owns room in
        inr (inr (inr (ground arith, ground arith, eq)))
    | inl empty ↦ elim (data_block_alloc-Allocated s) [
      | inl (r, none_left) ↦
          let t = set_inode s i (record (s.inode_table i) { i_data_block = minus_one }) in
          let claim : claim_block s i ≡ t = rw (empty, r) in
          let got : data_block_get (t.inode_table i).i_data_block ≡ none = rw (==_self i) in
          let eq = write_inode_unplaced s t h i n buffer something claim got in
          inr (inl (ground arith, ground arith, none_left, eq))
      | inr (k, small, vacant, r) ↦
          let size : (s.inode_table i).i_size ≡ 0 = ground arith in
          let t = claimed s i k in
          let owns = claimed-Owns s inv i file k small size vacant in
          let claim : claim_block s i ≡ t = rw (empty, r) in
          let got = data_block_get_valid (t.inode_table i).i_data_block owns.0.0 owns.0.1 in
          let eq =
            write_inode_placed s t h i n buffer something claim (block_of t i * 1024) got
            ∙ write_block-wrote t (claimed-Inv s inv i file k size vacant) h i n buffer file owns
                room in
          inr (inr (inl (k, ground arith, size, small, vacant, eq)))
    ]
  ]
]
