-- ===== src/Server/System/Ensures.antt =====
-- What a step ensures if it returns, with one rule for each way to build a step.
use server_client.Common.{◌≡◌, refl, Bool, true, false, if◌then◌else◌}
use server_client.Server.{Outcome, returned, exited, stuck, undefined, ◌>>=◌}

pub data Ensures {ℓ κ} {A : Type ℓ} (P : A → Type κ) : Outcome A → Type (ℓ ⊔ κ) where
  returns : {a : A} → P a → Ensures P (returned a)
  exits : Ensures P exited
  waits : Ensures P stuck
  faults : Ensures P undefined

-- The rest of a block may use what its first step ensures.
pub Ensures-chain {ℓ κ μ ν} :
    {A : Type ℓ} {B : Type κ} {Q : A → Type ν} {P : B → Type μ} {o : Outcome A} {f : A → Outcome B}
    → Ensures Q o
    → ((a : A) → Q a → Ensures P (f a))
    → Ensures P (o >>= f)
Ensures-chain (returns q) h = h _ q
Ensures-chain exits h = exits
Ensures-chain waits h = waits
Ensures-chain faults h = faults

module _ {ℓ κ} {A : Type ℓ} {P : A → Type κ} where
  -- A branch may use its test.
  pub Ensures-if :
      (b : Bool) (x y : Outcome A)
      → (b ≡ true → Ensures P x)
      → (b ≡ false → Ensures P y)
      → Ensures P (if b then x else y)
  Ensures-if true x y hx hy = hx refl
  Ensures-if false x y hx hy = hy refl
