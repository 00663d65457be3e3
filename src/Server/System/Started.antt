-- ===== src/Server/System/Started.antt =====
-- What `main` has set up when its loop begins.
use server_client.Common.{
  ℕ, zero, suc, ◌<◌, ◌≡◌, refl, ap, sym, ◌∙◌, Bool, true, false, Bool-cases, not, inl, inr, arith,
  if◌then◌else◌, ℤ, pos, minus_one, eqb_ℤ, is_negative,
}
use server_client.State.Directory.{entry_inumber}
use server_client.Operations.{Tfs, tfs_init, init}
use server_client.Operations.Counting.{IsCounted}
use server_client.Operations.Init.{tfs_init-Inv}
use server_client.Server.{ServerState, Outcome, returned, exited, await, free_pos}
use server_client.Server.Sessions.{server_init}
use server_client.Server.Start.{Boot, open_until, set_up}
use server_client.Server.System.Ensures.{Ensures, returns, exits, waits, Ensures-if, Ensures-chain}
use server_client.Server.System.Invariant.{SessionInv, server_init-SessionInv}

-- Every session is free, the file system is empty and valid, and the server's pipe is open.
abbrev pub Ready : ServerState → Tfs → Type 0
Ready s t =
    SessionInv s
    × IsCounted t
    × (t.called_destroy ≡ init)
    × (t.open_files ≡ pos 0)
    × ((e : ℕ) → e < 23 → entry_inumber t.fs.fs_data 0 e ≡ minus_one)
    × (s.open_sessions ≡ pos 0)
    × ((i : ℕ) → i < 10 → s.free_sessions i ≡ free_pos)
    × (is_negative s.fserv ≡ false)

Ensures-unless :
    {A : Type 0} {P : A → Type 0} (b : Bool) (rest : Outcome A)
    → Ensures P rest
    → Ensures P (if not b then exited else rest)
Ensures-unless true rest h = h
Ensures-unless false rest h = exits

module _ {W : Type 0} (boot : Boot W) where
  opened-Ready :
      (s : ServerState) (t : Tfs) (fd : ℤ)
      → is_negative fd ≡ false
      → Ready (record (server_init s).0 { fserv = fd }) (tfs_init t).0
  unfolding server_init
  opened-Ready s t fd good =
      let inv = server_init-SessionInv s in
      let (r, valid, running, none_open, none_used, empty) = tfs_init-Inv t in
      (
        record { numbers = inv.numbers; own = inv.own; counted = inv.counted },
        (valid, none_open ∙ ap pos (sym none_used)),
        running,
        none_open,
        empty,
        refl,
        λ i below. ground arith,
        good,
      )

  open_until-Ensures :
      (n : ℕ) (w : W) → Ensures (λ r. is_negative r.1 ≡ false) (await (open_until boot n w))
  unfolding open_until
  open_until-Ensures zero w = waits
  open_until-Ensures (suc n) w = elim (Bool-cases (is_negative (boot.open_server w).1)) [
    | inl failed ↦ rw failed (open_until-Ensures n (boot.open_server w).0)
    | inr good ↦ rw good (returns good)
  ]

  -- `main` gets to its loop only with everything set up.
  pub set_up-Ensures :
      (attempts : ℕ) (named : Bool) (w : W) (s : ServerState) (t : Tfs)
      → Ensures (λ x. Ready x.1 x.2) (set_up boot attempts named w s t)
  unfolding set_up
  set_up-Ensures attempts named w s t =
      let (w1, unlinked) = boot.unlink_pipe w in
      let (w2, made) = boot.make_pipe w1 in
      let (w3, ignored) = boot.ignore_sigpipe w2 in
      let (w4, caught) = boot.catch_sigint w3 in
      Ensures-unless named _ (
        Ensures-unless unlinked _ (
          Ensures-unless made _ (
            Ensures-unless ignored _ (
              Ensures-unless caught _ (
                Ensures-if (eqb_ℤ (tfs_init t).1 minus_one) _ _ (λ e. exits)
                  (λ e.
                    Ensures-chain (open_until-Ensures attempts w4)
                      (λ (w5, fd) good. returns (opened-Ready s t fd good))))))))

  -- When the program has its argument and the system carries out what `main` asks for, at least
  -- once, `main` sets up a server with no session and an empty, valid file system whose pipe is
  -- open.
  pub set_up-Ready :
      (attempts : ℕ) (w : W) (s : ServerState) (t : Tfs)
      → ((v : W) → (boot.unlink_pipe v).1 ≡ true)
      → ((v : W) → (boot.make_pipe v).1 ≡ true)
      → ((v : W) → (boot.ignore_sigpipe v).1 ≡ true)
      → ((v : W) → (boot.catch_sigint v).1 ≡ true)
      → ((v : W) → is_negative (boot.open_server v).1 ≡ false)
      → (w' : W) × (s' : ServerState) × (t' : Tfs) × (set_up boot (suc attempts) true w s t
          ≡ returned (w', s', t'))
        × Ready s' t'
  unfolding set_up open_until
  set_up-Ready attempts w s t unlinked made ignored caught opened =
      let w4 =
        (boot.catch_sigint (boot.ignore_sigpipe (boot.make_pipe (boot.unlink_pipe w).0).0).0).0 in
      let fd = (boot.open_server w4).1 in
      let done = (tfs_init-Inv t).0 in
      (
        (boot.open_server w4).0,
        record (server_init s).0 { fserv = fd },
        (tfs_init t).0,
        rw (unlinked, made, ignored, caught, done, opened) refl,
        opened-Ready s t fd (opened w4),
      )
