-- ===== src/Calls/Reload.antt =====
-- A client that writes a file, closes it, and opens and reads it again, through the server.
use server_client.Common.{
  ℕ, zero, suc, ◌≤◌, ◌<◌, ◌≡◌, refl, ap, ◌∙◌, subst, inl, inr, some, List, [], ◌∷◌, arith, length,
  length-take, take, drop, ℤ, pos, pos_part,
}
use server_client.Memory.Laws.{overwrite}
use server_client.State.Invariant.{Inv}
use server_client.Operations
use server_client.Operations.{Tfs, init, all_return_zero}
use server_client.Operations.Open.{tfs_lookup_unsynchronized}
use server_client.Operations.Open.Handle.{IsHandle, tfs_open-IsHandle}
use server_client.Operations.Reload.{tfs_read-tfs_write}
use server_client.Operations.Write.{writable, HasRoom}
use server_client.Operations.Transfer.Write.{contents, offset_of}
use server_client.Operations.Transfer.Effect.{file_of, IsOpenAt}
use server_client.Wire.Text.{int_field}
use server_client.Wire.Decimal.{length-int_field}
use server_client.Wire.Pipes.{Os}
use server_client.Client.{ClientState, tfs_open, tfs_close, tfs_read, tfs_write}
use server_client.Server.{ServerState}
use server_client.Server.Threads.{World}
use server_client.Calls.{Connection, Attached, attended}
use server_client.Calls.Reading.{tfs_read-attended}
use server_client.Calls.Writing.{tfs_write-attended}
use server_client.Calls.Opening.{tfs_open-attended, tfs_close-attended}

IsHandle-below : (g : ℕ) → IsHandle (pos g) → g < 20
IsHandle-below g (inl failed) = absurd (cc)
IsHandle-below g (inr (h, below, same)) = let e : g ≡ h = ap pos_part same in omega arith

drop_all : (n : ℕ) (xs : List ℕ) → length xs ≤ n → drop n xs ≡ []
drop_all zero [] few = refl
drop_all (suc n) [] few = refl
drop_all zero (x ∷ xs) few = absurd (omega arith)
drop_all (suc n) (x ∷ xs) few = drop_all n xs (omega arith)

module _ {W : Type 0} (client_os server_os : Os W) (to_server from_client to_client from_server : ℤ)
    (conn : Connection client_os server_os to_server from_client to_client from_server)
    (open_server : W → W × ℤ) (garbage : List ℕ) (c : ClientState) (i : ℕ) where
  abbrev os : Os (World W)
  os = attended client_os server_os open_server garbage i

  -- Nobody waits for anything, and the server's tables are `t`.
  abbrev Idle : Tfs → World W → Type 0
  Idle t x =
      (x.2 ≡ t)
      × conn.Holds x.0 [] []
      × Attached from_client to_client to_server from_server x.1 c i

  close-Idle :
      (x : World W) (t t' : Tfs) (h : ℕ) (r : ℤ)
      → Idle t x
      → h < 1000
      → Operations.tfs_close all_return_zero t (pos h) ≡ (t', r)
      → (x' : World W) × (tfs_close os x c (pos h) ≡ some (x', r)) × Idle t' x'
  close-Idle x t t' h r (same, empty, attached) small local =
      let (x', e, same', empty', attached') =
        tfs_close-attended client_os server_os to_server from_client to_client from_server conn
          open_server garbage x.0 x.1 x.2 c i h attached small empty in
      let here = ap (λ t. Operations.tfs_close all_return_zero t (pos h)) same ∙ local in
      (x', e ∙ ap (λ r. some (x', r.1)) here, (same' ∙ ap (λ r. r.0) here, empty', attached'))

  open-Idle :
      (x : World W) (t t' : Tfs) (name : List ℕ) (r : ℤ)
      → Idle t x
      → 40 ≤ length name
      → Operations.tfs_open all_return_zero t (take 40 name) (pos 0) ≡ (t', r)
      → (x' : World W) × (tfs_open os x c name (pos 0) ≡ some (x', r)) × Idle t' x'
  open-Idle x t t' name r (same, empty, attached) long local =
      let (x', e, same', empty', attached') =
        tfs_open-attended client_os server_os to_server from_client to_client from_server conn
          open_server garbage x.0 x.1 x.2 c i name 0 attached long (omega arith) empty in
      let here =
        ap (λ t. Operations.tfs_open all_return_zero t (take 40 name) (pos 0)) same ∙ local in
      (x', e ∙ ap (λ r. some (x', r.1)) here, (same' ∙ ap (λ r. r.0) here, empty', attached'))

  write-Idle :
      (w : W) (s : ServerState) (t t' : Tfs) (h n : ℕ) (buffer : List ℕ)
      → Idle t (w, s, t)
      → h < 1000
      → 4 ≤ length buffer
      → Operations.tfs_write all_return_zero t (pos h) (take 4 buffer) 4 ≡ some (t', pos n)
      → n < 10
      → (x' : World W) × (tfs_write os (w, s, t) c (pos h) buffer 4 ≡ some (x', pos n)) × Idle t' x'
  write-Idle w s t t' h n buffer (same, empty, attached) small enough local digit =
      let (x', e, same', left, attached') =
        tfs_write-attended client_os server_os to_server from_client to_client from_server conn
          open_server garbage w s t t' c i h 3 n buffer attached small (omega arith) enough local
          digit empty in
      let none_left = drop_all 4 (int_field (pos n)) (omega (arith, length-int_field (pos n))) in
      (x', e, (same', subst (conn.Holds x'.0 []) none_left left, attached'))

  read-Idle :
      (x : World W) (t t' : Tfs) (h len : ℕ) (bytes : List ℕ)
      → Idle t x
      → h < 1000
      → len < 1000
      → Operations.tfs_read all_return_zero t (pos h) len ≡ some (t', pos (length bytes), bytes)
      → length bytes < 1000
      → (x' : World W) × (tfs_read os x c (pos h) len ≡ some (x', pos (length bytes), bytes))
        × Idle t' x'
  read-Idle x t t' h len bytes (same, empty, attached) small short local few =
      let here = ap (λ t. Operations.tfs_read all_return_zero t (pos h) len) same ∙ local in
      let (x', e, same', empty', attached') =
        tfs_read-attended client_os server_os to_server from_client to_client from_server conn
          open_server garbage x.0 x.1 x.2 t' c i h len (length bytes) bytes attached small short
          here refl few empty in
      (x', e, (same', empty', attached'))

  -- A client attached to the session `i < 10`, with both pipes empty, writes four bytes of a buffer
  -- through a handle that the server has in use with its offset inside the file. The server's
  -- tables are valid, its file system is not being destroyed, the file has a block or one is free,
  -- and every pthread call returns 0. Then the client closes the handle, opens the file without
  -- flags by a name that leads to it, in a buffer of at least 40 bytes, and reads fewer than 1000
  -- bytes. Every call succeeds, the read returns from the file's start the bytes written, as many
  -- as fit into the block, over those the file had, and both pipes are empty at the end.
  pub attended-reload :
      (w : W) (s : ServerState) (t : Tfs) (h want : ℕ) (name buffer : List ℕ)
      → Attached from_client to_client to_server from_server s c i
      → Inv t.fs
      → t.called_destroy ≡ init
      → IsOpenAt t.fs h
      → HasRoom t.fs h
      → 40 ≤ length name
      → tfs_lookup_unsynchronized t.fs (take 40 name) ≡ pos (file_of t.fs h)
      → 4 ≤ length buffer
      → want < 1000
      → conn.Holds w [] []
      → let n = writable t.fs h 4 in
        let saved =
          overwrite (offset_of t.fs h) (take n (take 4 buffer)) (contents t.fs (file_of t.fs h)) in
        let bytes = take want saved in
        let os = attended client_os server_os open_server garbage i in
        (x1 : World W) × (x2 : World W) × (x3 : World W) × (x4 : World W) × (g : ℕ) × (tfs_write os
            (w, s, t)
            c
            (pos h)
            buffer
            4
          ≡ some (x1, pos n))
        × (tfs_close os x1 c (pos h) ≡ some (x2, pos 0))
        × (tfs_open os x2 c name (pos 0) ≡ some (x3, pos g))
        × (tfs_read os x3 c (pos g) want ≡ some (x4, pos (length bytes), bytes))
        × conn.Holds x4.0 [] []
  attended-reload w s t h want name buffer attached inv running open_at room long there enough short
        holds =
      let text = take 4 buffer in
      let path = take 40 name in
      let four : length text ≡ 4 = length-take 4 buffer ∙ omega arith in
      let (t1, t2, t3, t4, g, wrote, closed, opened, got) =
        tfs_read-tfs_write t h path text 4 want inv running open_at room there (omega arith)
          (omega arith) in
      let below : g < 20 =
        IsHandle-below g
          (subst IsHandle (ap (λ r. r.1) opened) (tfs_open-IsHandle t2 path (pos 0))) in
      let n = writable t.fs h 4 in
      let saved = overwrite (offset_of t.fs h) (take n text) (contents t.fs (file_of t.fs h)) in
      let (x1, e1, idle1) =
        write-Idle w s t t1 h n buffer (refl, holds, attached) (omega arith) enough wrote
          (omega arith) in
      let (x2, e2, idle2) = close-Idle x1 t1 t2 h (pos 0) idle1 (omega arith) closed in
      let (x3, e3, idle3) = open-Idle x2 t2 t3 name (pos g) idle2 long opened in
      let few = length-take want saved in
      let (x4, e4, idle4) =
        read-Idle x3 t3 t4 g want (take want saved) idle3 (omega arith) short got (omega arith) in
      (x1, x2, x3, x4, g, e1, e2, e3, e4, idle4.1)
