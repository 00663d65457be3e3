-- ===== src/State/Invariant/Files.antt =====
-- The invariant when a file is created, entered in the directory, or given up again.
use server_client.Common.{
  ℕ, ◌≡◌, inl, inr, Bool-cases, ◌==◌, arith, ℤ, pos, List, subst, sym, ◌∙◌, false,
}
use server_client.Memory.{Memory}
use server_client.State.{FsState, taken, free}
use server_client.State.Inodes.{set_free}
use server_client.State.Directory.{write_entry, entry_inumber}
use server_client.State.Entries.{entry_inumber-write_entry, entry_inumber-write_entry_ne}
use server_client.State.Invariant.{Inv, IsFile, HasData}
use server_client.State.Results.{file_state}

module _ (s : FsState) (inv : Inv s) (k : ℕ) (vacant : s.freeinode_ts k ≡ free) where
  -- The new i-node was not in use, so no file has its number.
  other : (i : ℕ) → s.freeinode_ts i ≡ taken → (k == i) ≡ false
  other i u = elim (Bool-cases (k == i)) [
    | inl e ↦ let same : k ≡ i = ground arith in ground arith
    | inr e ↦ e
  ]

  file_state-IsFile : (z : ℤ) → IsFile s z → IsFile (file_state s k) z
  file_state-IsFile z is = ground arith

  old_data : (i : ℕ) → HasData (file_state s k) i → (k == i) ≡ false
  old_data i d = ground arith

  pub file_state-Inv : Inv (file_state s k)
  file_state-Inv = record {
    root_in_use = ground (arith, inv.root_in_use);
    root = rw (other 0 inv.root_in_use) inv.root;
    small = λ i d. let e = old_data i d in ground (arith, inv.small i);
    placed = λ i d. let e = old_data i d in ground (arith, inv.placed i);
    apart = λ i j d d' q.
        let e = old_data i d in let e' = old_data j d' in ground (arith, inv.apart i j);
    files = λ i p b u. ground (arith, inv.files i);
    entries = λ e b u. file_state-IsFile _ (inv.entries e b u);
    handles = λ h b u. file_state-IsFile _ (inv.handles h b u);
    offsets = inv.offsets;
  }

  given_up-IsFile : (z : ℤ) → IsFile s z → IsFile (set_free (file_state s k) k free) z
  given_up-IsFile z is = ground arith

  given_up_data : (i : ℕ) → HasData (set_free (file_state s k) k free) i → (k == i) ≡ false
  given_up_data i d = ground arith

  -- What `inode_delete` leaves of it.
  pub given_up-Inv : Inv (set_free (file_state s k) k free)
  given_up-Inv = record {
    root_in_use = ground (arith, inv.root_in_use);
    root = rw (other 0 inv.root_in_use) inv.root;
    small = λ i d. let e = given_up_data i d in ground (arith, inv.small i);
    placed = λ i d. let e = given_up_data i d in ground (arith, inv.placed i);
    apart = λ i j d d' q.
        let e = given_up_data i d in let e' = given_up_data j d' in ground (arith, inv.apart i j);
    files = λ i p b u. ground (arith, inv.files i);
    entries = λ e b u. given_up-IsFile _ (inv.entries e b u);
    handles = λ h b u. given_up-IsFile _ (inv.handles h b u);
    offsets = inv.offsets;
  }

-- A new entry for a file that exists.
pub write_entry-Inv :
    (s : FsState) (inv : Inv s) (i n : ℕ) (name : List ℕ)
    → IsFile s (pos n)
    → Inv (record s { fs_data = write_entry s.fs_data 0 i (pos n) name })
write_entry-Inv s inv i n name is = record {
  root_in_use = inv.root_in_use;
  root = inv.root;
  small = inv.small;
  placed = inv.placed;
  apart = inv.apart;
  files = inv.files;
  entries = λ e b u. elim (Bool-cases (i == e)) [
    | inl here ↦
        let same : i ≡ e = ground arith in
        let written = entry_inumber-write_entry s.fs_data 0 i n name (omega arith) in
        subst (λ j. IsFile s (entry_inumber m 0 j)) same (subst (IsFile s) (sym written) is)
    | inr there ↦
        let kept = entry_inumber-write_entry_ne s.fs_data 0 i n name e (ground arith) in
        subst (IsFile s) (sym kept) (inv.entries e b (λ q. u (kept ∙ q)))
  ];
  handles = inv.handles;
  offsets = inv.offsets;
}
  where
    m : Memory
    m = write_entry s.fs_data 0 i (pos n) name
