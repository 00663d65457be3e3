-- ===== src/Wire/Stream.antt =====
-- `slait` on a pipe that holds the bytes asked for: `Holds w bytes` says which bytes can be read.
use server_client.Common.{ℕ, ◌≡◌, sym, subst, some, List, ◌++◌, length, ℤ, pos}
use server_client.Wire.Pipes.{Os, got, slait}
use server_client.Wire.Slait.{slait_whole}

module _ {W : Type 0} (os : Os W) (fd : ℤ) (Holds : W → List ℕ → Type 0)
    (pipe : (w : W) (bytes rest : List ℕ)
      → Holds w (bytes ++ rest)
      → ((os.read_pipe w fd (length bytes)).1 ≡ got bytes)
        × Holds (os.read_pipe w fd (length bytes)).0 rest) where
  pub slait-Holds :
      (w : W) (fh : ℤ) (len : ℕ) (bytes rest : List ℕ)
      → fh ≡ fd
      → length bytes ≡ len
      → Holds w (bytes ++ rest)
      → (w' : W) × (slait os w fh len ≡ some (w', bytes, pos len)) × Holds w' rest
  slait-Holds w fh len bytes rest at whole holds =
      let Read : ℤ → ℕ → Type 0 =
        λ f n. ((os.read_pipe w f n).1 ≡ got bytes) × Holds (os.read_pipe w f n).0 rest in
      let (e, after) : Read fh len =
        subst (λ f. Read f len) (sym at) (subst (Read fd) whole (pipe w bytes rest holds)) in
      ((os.read_pipe w fh len).0, slait_whole os w fh len bytes e whole, after)
