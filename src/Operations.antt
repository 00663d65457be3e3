-- ===== src/Operations.antt =====
-- tecnicofs_ex2/fs/operations.c: the file system's calls under their two locks. `none` stands for
-- an access outside `fs_data`, which C leaves undefined.
pub mod Open
pub mod Transfer
pub mod Write
pub mod Reload
pub mod Read
pub mod Init
pub mod Counting
pub mod Shutdown
pub mod Faults
use server_client.Common.{
  ℕ, zero, suc, ◌+◌, ◌-◌, ◌%◌, ◌/◌, ◌==◌, Bool, true, false, not, ◌&&◌, Option, none, some, List,
  [], ◌∷◌, if◌then◌else◌, ltb, length, ℤ, pos, negsuc, minus_one, eqb_ℤ, increment, decrement,
}
use server_client.State.{FsState, InodeType, t_directory, state_init, root_dir_inum}
use server_client.State.Inodes.{inode_create}
use server_client.State.Directory.{find_in_dir}
use server_client.State.OpenFiles.{remove_from_open_file_table}
use Open.{tfs_open_unsynchronized}
use Transfer.{tfs_write_unsynchronized, tfs_read_unsynchronized}

-- `init` is INIT, `destroy` is DESTROY.
pub data DestroyCallState : Type 0 where
  init destroy : DestroyCallState

abbrev pub is_destroy : DestroyCallState → Bool
is_destroy init = false
is_destroy destroy = true

-- The static variables of operations.c over those of state.c. `broadcasts` counts the calls of
-- `pthread_cond_broadcast`.
pub record Tfs : Type 0 where
  pub fs : FsState
  pub called_destroy : DestroyCallState
  pub open_files : ℤ
  pub broadcasts : ℕ

-- What the pthread calls of one invocation return: `true` for 0. `tfs_close` may unlock twice.
pub record Pthread : Type 0 where
  pub lock_global : Bool
  pub lock_destroy : Bool
  pub unlock_destroy : Bool
  pub unlock_global : Bool
  pub unlock_global_again : Bool
  pub unlock_destroy_again : Bool

-- Every pthread call returns 0.
abbrev pub all_return_zero : Pthread
all_return_zero = record {
  lock_global = true;
  lock_destroy = true;
  unlock_destroy = true;
  unlock_global = true;
  unlock_global_again = true;
  unlock_destroy_again = true;
}

unfoldable pub tfs_init : Tfs → Tfs × ℤ
tfs_init t =
    let (fs', root) = inode_create (state_init t.fs) t_directory in
    let t' : Tfs = record t { fs = fs'; called_destroy = init; open_files = pos 0 } in
    if not (eqb_ℤ root root_dir_inum) then (t', minus_one) else (t', pos 0)

unfoldable pub tfs_lookup : Pthread → Tfs → List ℕ → ℤ
tfs_lookup p t name =
    if not p.lock_global
    then minus_one
    else if not p.unlock_global
    then minus_one
    else Open.tfs_lookup_unsynchronized t.fs name

-- `tfs_open` with both locks held and the file system not being destroyed.
unfoldable pub open_locked : Pthread → Tfs → List ℕ → ℤ → Tfs × ℤ
open_locked p t name flags =
    let (fs', ret) = tfs_open_unsynchronized t.fs name flags in
    let t' : Tfs = record t { fs = fs' } in
    let counted : Tfs = record t' { open_files = increment t.open_files } in
    if eqb_ℤ ret minus_one
    then (t', minus_one)
    else if not p.unlock_destroy
    then (counted, minus_one)
    else if not p.unlock_global
    then (counted, minus_one)
    else (counted, ret)

-- With DESTROY set all ways to unlock end in -1.
unfoldable pub tfs_open : Pthread → Tfs → List ℕ → ℤ → Tfs × ℤ
unfolding open_locked
tfs_open p t name flags =
    if not p.lock_global
    then (t, minus_one)
    else if not p.lock_destroy
    then (t, minus_one)
    else if is_destroy t.called_destroy
    then (t, minus_one)
    else open_locked p t name flags

-- The end of `tfs_close`, from `open_files--` on; the Booleans are what the two unlocks return.
unfoldable pub close_finish : Tfs → ℤ → Bool → Bool → Tfs × ℤ
close_finish t r unlocked_global unlocked_destroy =
    let left = decrement t.open_files in
    let woken =
      if eqb_ℤ left (pos 0) && is_destroy t.called_destroy
      then t.broadcasts + 1
      else t.broadcasts in
    let t' : Tfs = record t { open_files = left; broadcasts = woken } in
    if not unlocked_global
    then (t', minus_one)
    else if not unlocked_destroy
    then (t', minus_one)
    else (t', r)

-- When the handle is refused both locks are released and the function goes on.
unfoldable pub tfs_close : Pthread → Tfs → ℤ → Tfs × ℤ
unfolding close_finish
tfs_close p t fhandle =
    let (fs', r) = remove_from_open_file_table t.fs fhandle in
    let t' : Tfs = record t { fs = fs' } in
    if not p.lock_global
    then (t, minus_one)
    else if not p.lock_destroy
    then (t, minus_one)
    else if eqb_ℤ r minus_one
    then (if not p.unlock_global
        then (t', minus_one)
        else if not p.unlock_destroy
        then (t', minus_one)
        else close_finish t' r p.unlock_global_again p.unlock_destroy_again)
    else close_finish t' r p.unlock_global p.unlock_destroy

unfoldable pub tfs_write : Pthread → Tfs → ℤ → List ℕ → ℕ → Option (Tfs × ℤ)
tfs_write p t fhandle buffer to_write =
    if not p.lock_global
    then some (t, minus_one)
    else elim (tfs_write_unsynchronized t.fs fhandle buffer to_write) [
      | none ↦ none
      | some (fs', ret) ↦
          if not p.unlock_global
          then some (record t { fs = fs' }, minus_one)
          else some (record t { fs = fs' }, ret)
    ]

-- The third result is what `memcpy` put into the caller's buffer.
unfoldable pub tfs_read : Pthread → Tfs → ℤ → ℕ → Option (Tfs × ℤ × List ℕ)
tfs_read p t fhandle len =
    if not p.lock_global
    then some (t, minus_one, [])
    else elim (tfs_read_unsynchronized t.fs fhandle len) [
      | none ↦ none
      | some (fs', ret, copied) ↦
          if not p.unlock_global
          then some (record t { fs = fs' }, minus_one, copied)
          else some (record t { fs = fs' }, ret, copied)
    ]
