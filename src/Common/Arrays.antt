-- ===== src/Common/Arrays.antt =====
-- A C array of a fixed length as a function of the index. Code that reads or writes an array
-- keeps its own check of the index; nothing here looks past the source's bounds.
use Prim.Native.Nat.{ℕ, zero, suc, ◌+◌, ◌<◌, ◌≤◌}
use mathlib.Core.Path.{◌≡◌, refl}
use mathlib.Core.Logic.{inl, inr}
use mathlib.Core.Bool.{Bool, false}
use native.Mathlib.Omega.{arith}
use server_client.Common.Tests.{ltb, Bool-cases, ◌==◌, if◌then◌else◌}

module _ {ℓ} {A : Type ℓ} where
  -- `f[i] = v`
  abbrev pub update : (ℕ → A) → ℕ → A → ℕ → A
  update f i v j = if i == j then v else f j

  -- `for (i = 0; i < n; i++) f[i] = v`
  abbrev pub fill : ℕ → A → (ℕ → A) → ℕ → A
  fill n v f j = if ltb j n then v else f j

  -- The number of `i < n` whose entry passes the test.
  unfoldable pub count : (A → Bool) → (ℕ → A) → ℕ → ℕ
  count p f zero = 0
  count p f (suc n) = (if p (f n) then 1 else 0) + count p f n

  pub count-update_above :
      (p : A → Bool) (f : ℕ → A) (i : ℕ) (v : A) (n : ℕ)
      → n ≤ i
      → count p (update f i v) n ≡ count p f n
  unfolding count
  count-update_above p f i v zero h = refl
  count-update_above p f i v (suc n) h = ground (arith, count-update_above p f i v n)

  -- One write moves the count by what the entry was and becomes.
  pub count-update :
      (p : A → Bool) (f : ℕ → A) (i : ℕ) (v : A) (n : ℕ)
      → i < n
      → count p (update f i v) n + (if p (f i) then 1 else 0) ≡ count p f n + (if p v then 1 else 0)
  unfolding count
  count-update p f i v zero h = absurd (omega arith)
  count-update p f i v (suc n) h =
      ground (arith, count-update p f i v n, count-update_above p f i v n)

  pub count-eq-zero :
      (p : A → Bool) (f : ℕ → A) (n : ℕ) → count p f n ≡ 0 → (i : ℕ) → i < n → p (f i) ≡ false
  unfolding count
  count-eq-zero p f zero e i h = absurd (omega arith)
  count-eq-zero p f (suc n) e i h =
      let rest : count p f n ≡ 0 = omega arith in
      elim (Bool-cases (i == n)) [
        | inl last ↦ ground arith
        | inr below ↦ count-eq-zero p f n rest i (ground arith)
      ]
