-- ===== src/State/Invariant/Handles.antt =====
-- The invariant under changes of the open file table.
use server_client.Common.{ℕ, ◌≤◌, inl, inr, Bool-cases, ◌==◌, arith, ℤ}
use server_client.State.{FsState}
use server_client.State.Invariant.{Inv, IsFile}
use server_client.State.Results.{closed_state, opened_state}

module _ (s : FsState) (inv : Inv s) where
  pub closed_state-Inv : (h : ℕ) → Inv (closed_state s h)
  closed_state-Inv h = record {
    root_in_use = inv.root_in_use;
    root = inv.root;
    small = inv.small;
    placed = inv.placed;
    apart = inv.apart;
    files = inv.files;
    entries = inv.entries;
    handles = λ g b u. inv.handles g b (ground arith);
    offsets = λ g b u. inv.offsets g b (ground arith);
  }

  pub opened_state-Inv :
      (h : ℕ) (z : ℤ) (offset : ℕ) → IsFile s z → offset ≤ 1024 → Inv (opened_state s h z offset)
  opened_state-Inv h z offset is small = record {
    root_in_use = inv.root_in_use;
    root = inv.root;
    small = inv.small;
    placed = inv.placed;
    apart = inv.apart;
    files = inv.files;
    entries = inv.entries;
    handles = λ g b u. elim (Bool-cases (h == g)) [
      | inl e ↦ rw e is
      | inr e ↦ rw e (inv.handles g b (ground arith))
    ];
    offsets = λ g b u. elim (Bool-cases (h == g)) [
      | inl e ↦ rw e small
      | inr e ↦ rw e (inv.offsets g b (ground arith))
    ];
  }
