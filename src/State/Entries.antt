-- ===== src/State/Entries.antt =====
-- The directory's block as a list of entries: what `add_dir_entry` writes is what `find_in_dir`
-- reads, and the other entries stay.
use server_client.Common.{
  ℕ, zero, suc, ◌+◌, ◌*◌, ◌≤◌, ◌<◌, ◌≡◌, refl, ap, ◌∙◌, ◌≢◌, ◌⊎◌, inl, inr, List, [], ◌∷◌, ◌++◌,
  length, arith, ne-cases, pos,
}
use server_client.Memory.{Memory, load, store, read_int, write_int, int_bytes, strncpy_bytes}
use server_client.Memory.Laws.{
  overwrite, load-store, load-store_front, load-store_apart, length-load, read_int-store_apart,
  read_int-write_int,
}
use server_client.Memory.Strings.{length-strncpy_bytes}
use server_client.State.Directory.{entry_inumber, entry_name, write_entry}

overwrite-nil : (bytes : List ℕ) → overwrite zero bytes [] ≡ bytes
unfolding overwrite
overwrite-nil [] = refl
overwrite-nil (b ∷ bytes) = ap (◌∷◌ b) (overwrite-nil bytes)

overwrite_end : (k : ℕ) (bytes old : List ℕ) → length old ≡ k → overwrite k bytes old ≡ old ++ bytes
unfolding overwrite
overwrite_end zero bytes [] h = overwrite-nil bytes
overwrite_end zero bytes (x ∷ old) h = absurd (omega arith)
overwrite_end (suc k) bytes [] h = absurd (omega arith)
overwrite_end (suc k) bytes (x ∷ old) h = ap (◌∷◌ x) (overwrite_end k bytes old (omega arith))

-- `d_name` as `add_dir_entry` fills it.
abbrev pub stored_name : List ℕ → List ℕ
stored_name name = strncpy_bytes 39 name ++ 0 ∷ []

module _ (m : Memory) (d i n : ℕ) (name : List ℕ) where
  entry_load :
      load
        (store (write_int m (d + 44 * i + 40) (pos n)) (d + 44 * i) (strncpy_bytes 39 name))
        (d + 44 * i)
        39
      ≡ strncpy_bytes 39 name
  unfolding load
  entry_load =
      let size = length-strncpy_bytes 39 name in
      load-store_front (write_int m (d + 44 * i + 40) (pos n)) (d + 44 * i) 0 39
        (strncpy_bytes 39 name) (omega arith) (omega arith) (inr (omega arith))
      ∙ overwrite-nil (strncpy_bytes 39 name)

  pub entry_name-write_entry : entry_name (write_entry m d i (pos n) name) d i ≡ stored_name name
  unfolding write_entry
  entry_name-write_entry =
      let named =
        store (write_int m (d + 44 * i + 40) (pos n)) (d + 44 * i) (strncpy_bytes 39 name) in
      load-store named (d + 44 * i) (d + 44 * i + 39) 39 39 40 (0 ∷ []) (omega arith) (omega arith)
        (omega arith) (omega arith) (inr (omega arith))
      ∙ overwrite_end 39 (0 ∷ []) (load named (d + 44 * i) 39) (length-load named (d + 44 * i) 39)
      ∙ ap (λ bytes. bytes ++ 0 ∷ []) entry_load

  pub entry_inumber-write_entry :
      n < 2147483648 → entry_inumber (write_entry m d i (pos n) name) d i ≡ pos n
  unfolding write_entry
  entry_inumber-write_entry h =
      let numbered = write_int m (d + 44 * i + 40) (pos n) in
      let named = store numbered (d + 44 * i) (strncpy_bytes 39 name) in
      let size = length-strncpy_bytes 39 name in
      read_int-store_apart named (d + 44 * i + 39) (0 ∷ []) (d + 44 * i + 40) (inr (omega arith))
      ∙ read_int-store_apart numbered (d + 44 * i) (strncpy_bytes 39 name) (d + 44 * i + 40)
          (inr (omega arith))
      ∙ read_int-write_int m (d + 44 * i + 40) n h

  -- Nothing but entry `i` changes: a range that ends before it or begins behind it.
  read_int-write_entry_apart :
      (p : ℕ)
      → (p + 4 ≤ d + 44 * i) ⊎ (d + 44 * i + 44 ≤ p)
      → read_int (write_entry m d i (pos n) name) p ≡ read_int m p
  unfolding write_entry write_int
  read_int-write_entry_apart p h =
      let numbered = write_int m (d + 44 * i + 40) (pos n) in
      let named = store numbered (d + 44 * i) (strncpy_bytes 39 name) in
      let size = length-strncpy_bytes 39 name in
      read_int-store_apart named (d + 44 * i + 39) (0 ∷ []) p (omega arith)
      ∙ read_int-store_apart numbered (d + 44 * i) (strncpy_bytes 39 name) p (omega arith)
      ∙ read_int-store_apart m (d + 44 * i + 40) (int_bytes (pos n)) p (omega arith)

  pub load-write_entry_apart :
      (p k : ℕ)
      → (p + k ≤ d + 44 * i) ⊎ (d + 44 * i + 44 ≤ p)
      → load (write_entry m d i (pos n) name) p k ≡ load m p k
  unfolding write_entry write_int
  load-write_entry_apart p k h =
      let numbered = write_int m (d + 44 * i + 40) (pos n) in
      let named = store numbered (d + 44 * i) (strncpy_bytes 39 name) in
      let size = length-strncpy_bytes 39 name in
      load-store_apart named (d + 44 * i + 39) (0 ∷ []) p k (omega arith)
      ∙ load-store_apart numbered (d + 44 * i) (strncpy_bytes 39 name) p k (omega arith)
      ∙ load-store_apart m (d + 44 * i + 40) (int_bytes (pos n)) p k (omega arith)

  pub entry_inumber-write_entry_ne :
      (j : ℕ) → i ≢ j → entry_inumber (write_entry m d i (pos n) name) d j ≡ entry_inumber m d j
  entry_inumber-write_entry_ne j h = elim (ne-cases i j h) [
    | inl less ↦ read_int-write_entry_apart (d + 44 * j + 40) (inl (omega arith))
    | inr more ↦ read_int-write_entry_apart (d + 44 * j + 40) (inr (omega arith))
  ]

  pub entry_name-write_entry_ne :
      (j : ℕ) → i ≢ j → entry_name (write_entry m d i (pos n) name) d j ≡ entry_name m d j
  entry_name-write_entry_ne j h = elim (ne-cases i j h) [
    | inl less ↦ load-write_entry_apart (d + 44 * j) 40 (inl (omega arith))
    | inr more ↦ load-write_entry_apart (d + 44 * j) 40 (inr (omega arith))
  ]
