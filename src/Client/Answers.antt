-- ===== src/Client/Answers.antt =====
-- What the client makes of the server's answers.
use server_client.Common.{
  ℕ, zero, suc, ◌+◌, ◌<◌, ◌≡◌, refl, ap, ◌∙◌, sym, ◌⊎◌, inl, inr, true, some, List, ◌++◌, arith,
  length, length-take, take, take-append, drop, le→ltb, ℤ, pos, minus_one,
}
use server_client.Memory.{strncpy_bytes}
use server_client.Wire.Text.{int_field, atoi, digits, read_digits}
use server_client.Wire.Decimal.{
  atoi-int_field, atoi-int_field_alone, length-int_field, int_field-digit, atoi-one_digit,
}
use server_client.Wire.Pipes.{Os, got, stored, zeros}
use server_client.Wire.Stream.{slait-Holds}
use server_client.Client.Messages.{
  unmount_message, open_message, close_message, write_message, read_message,
}
use server_client.Client.{
  ClientState, answer, tfs_unmount, tfs_open, tfs_close, tfs_write, tfs_read,
}

-- What the server sends as the answer to an open or a close.
abbrev pub IsAnswer : ℤ → Type 0
IsAnswer z = (z ≡ minus_one) ⊎ ((h : ℕ) × (h < 1000) × (z ≡ pos h))

atoi-minus_one : atoi (stored (int_field minus_one) (zeros 4)) ≡ minus_one
unfolding atoi digits strncpy_bytes read_digits
atoi-minus_one = refl

-- A digit is read from the front of its field.
atoi-cut :
    (n k : ℕ)
    → n < 10
    → k < 4
    → atoi (stored (take (suc k) (int_field (pos n))) (zeros (suc k + 14))) ≡ pos n
atoi-cut n zero small short = rw (int_field-digit n small) (atoi-one_digit n (zeros 13) small)
atoi-cut n (suc zero) small short = rw (int_field-digit n small) (atoi-one_digit n (zeros 14) small)
atoi-cut n (suc (suc zero)) small short =
    rw (int_field-digit n small) (atoi-one_digit n (zeros 15) small)
atoi-cut n (suc (suc (suc zero))) small short =
    rw (int_field-digit n small) (atoi-one_digit n (zeros 16) small)
atoi-cut n (suc (suc (suc (suc k)))) small short = absurd (omega arith)

-- An unmount whose request is written and whose pipes are closed returns 0.
pub tfs_unmount-closed :
    {W : Type 0} (os : Os W) (w w1 : W) (c : ClientState) (written : ℕ)
    → os.write_pipe w c.fserv (unmount_message c.session_id) ≡ (w1, pos written)
    → ((v : W) (fh : ℤ) → (os.close_pipe v fh).1 ≡ true)
    → tfs_unmount os w c ≡ ((os.close_pipe (os.close_pipe w1 c.fserv).0 c.fcli).0, pos 0)
unfolding tfs_unmount
tfs_unmount-closed os w w1 c written sent shuts = rw (sent, shuts, shuts) refl

module _ {W : Type 0} (os : Os W) (fd : ℤ) (Holds : W → List ℕ → Type 0)
    (pipe : (w : W) (bytes rest : List ℕ)
      → Holds w (bytes ++ rest)
      → ((os.read_pipe w fd (length bytes)).1 ≡ got bytes)
        × Holds (os.read_pipe w fd (length bytes)).0 rest) where
  answer-Holds :
      (w : W) (c : ClientState) (z : ℤ) (rest : List ℕ)
      → c.fcli ≡ fd
      → IsAnswer z
      → Holds w (int_field z ++ rest)
      → (w' : W) × (answer os w c ≡ some (w', z)) × Holds w' rest
  answer-Holds w c z rest at sent holds =
      let field = int_field z in
      let four = length-int_field z in
      let (w', e, holds') = slait-Holds os fd Holds pipe w c.fcli 4 field rest at four holds in
      elim sent [
        | inl failed ↦
            let value : atoi (stored field (zeros 4)) ≡ minus_one =
              ap (λ z. atoi (stored (int_field z) (zeros 4))) failed ∙ atoi-minus_one in
            (w', rw (e, value) (ap (λ z. some (w', z)) (sym failed)), holds')
        | inr (h, small, is) ↦
            let value : atoi (stored field (zeros 4)) ≡ pos h =
              ap (λ z. atoi (stored (int_field z) (zeros 4))) is
              ∙ atoi-int_field h (drop (length (int_field (pos h))) (zeros 4)) small in
            (w', rw (e, value) (ap (λ z. some (w', z)) (sym is)), holds')
      ]

  pub tfs_open-code :
      (w w1 : W) (c : ClientState) (name : List ℕ) (flags z : ℤ) (rest : List ℕ)
      → c.fcli ≡ fd
      → IsAnswer z
      → os.write_pipe w c.fserv (open_message c.session_id name flags)
        ≡ (w1, pos (length (open_message c.session_id name flags)))
      → Holds w1 (int_field z ++ rest)
      → (w' : W) × (tfs_open os w c name flags ≡ some (w', z)) × Holds w' rest
  unfolding tfs_open
  tfs_open-code w w1 c name flags z rest at small sent holds =
      let (w', e, holds') = answer-Holds w1 c z rest at small holds in
      let n = length (open_message c.session_id name flags) in
      (w', rw (sent, le→ltb n n (omega arith)) e, holds')

  pub tfs_close-code :
      (w w1 : W) (c : ClientState) (fhandle z : ℤ) (written : ℕ) (rest : List ℕ)
      → c.fcli ≡ fd
      → (z ≡ minus_one) ⊎ (z ≡ pos 0)
      → os.write_pipe w c.fserv (close_message c.session_id fhandle) ≡ (w1, pos written)
      → Holds w1 (int_field z ++ rest)
      → (w' : W) × (tfs_close os w c fhandle ≡ some (w', z)) × Holds w' rest
  unfolding tfs_close
  tfs_close-code w w1 c fhandle z written rest at code sent holds = elim code [
    | inl failed ↦
        let (w', e, holds') = answer-Holds w1 c z rest at (inl failed) holds in
        (w', rw (sent, e, failed) refl, holds')
    | inr closed ↦
        let (w', e, holds') = answer-Holds w1 c z rest at (inr (0, omega arith, closed)) holds in
        (w', rw (sent, e, closed) refl, holds')
  ]

  -- On a pipe that gives out its bytes in order, once its request is written in full, the client's
  -- open returns the handle below 1000 that the server answers, and takes the whole answer.
  pub tfs_open-answer :
      (w w1 : W) (c : ClientState) (name : List ℕ) (flags : ℤ) (h : ℕ) (rest : List ℕ)
      → c.fcli ≡ fd
      → h < 1000
      → os.write_pipe w c.fserv (open_message c.session_id name flags)
        ≡ (w1, pos (length (open_message c.session_id name flags)))
      → Holds w1 (int_field (pos h) ++ rest)
      → (w' : W) × (tfs_open os w c name flags ≡ some (w', pos h)) × Holds w' rest
  tfs_open-answer w w1 c name flags h rest at small sent holds =
      tfs_open-code w w1 c name flags (pos h) rest at (inr (h, small, refl)) sent holds

  -- On a pipe that gives out its bytes in order, the client's read returns the number of bytes that
  -- the server answers, below 1000, with these bytes, and takes the whole answer.
  pub tfs_read-answer :
      (w w1 : W) (c : ClientState) (fhandle r : ℤ) (len : ℕ) (bytes rest : List ℕ)
      → c.fcli ≡ fd
      → length bytes < 1000
      → os.write_pipe w c.fserv (read_message c.session_id fhandle len) ≡ (w1, r)
      → Holds w1 (int_field (pos (length bytes)) ++ (bytes ++ rest))
      → (w' : W) × (tfs_read os w c fhandle len ≡ some (w', pos (length bytes), bytes))
        × Holds w' rest
  unfolding tfs_read
  tfs_read-answer w w1 c fhandle r len bytes rest at small sent holds =
      let n = length bytes in
      let field = int_field (pos n) in
      let four = length-int_field (pos n) in
      let (w2, e2, holds2) =
        slait-Holds os fd Holds pipe w1 c.fcli 4 field (bytes ++ rest) at four holds in
      let (w3, e3, holds3) = slait-Holds os fd Holds pipe w2 c.fcli n bytes rest at refl holds2 in
      let code : atoi (take 4 (stored field (zeros 14))) ≡ pos n =
        ap atoi (take-append 4 field (drop (length field) (zeros 14)) four)
        ∙ atoi-int_field_alone n small in
      (w3, rw (sent, e2, code, e3) refl, holds3)

  -- Of the answer to a write of at most four bytes, the client takes as many bytes as it wrote.
  pub tfs_write-cut :
      (w w1 : W) (c : ClientState) (fhandle : ℤ) (buffer : List ℕ) (k n : ℕ) (written : ℕ)
      (rest : List ℕ)
      → c.fcli ≡ fd
      → k < 4
      → n < 10
      → os.write_pipe w c.fserv (write_message c.session_id fhandle buffer (suc k))
        ≡ (w1, pos written)
      → Holds w1 (take (suc k) (int_field (pos n)) ++ rest)
      → (w' : W) × (tfs_write os w c fhandle buffer (suc k) ≡ some (w', pos n)) × Holds w' rest
  unfolding tfs_write
  tfs_write-cut w w1 c fhandle buffer k n written rest at short small sent holds =
      let front = take (suc k) (int_field (pos n)) in
      let whole : length front ≡ suc k =
        length-take (suc k) (int_field (pos n)) ∙ omega (arith, length-int_field (pos n)) in
      let (w', e, holds') =
        slait-Holds os fd Holds pipe w1 c.fcli (suc k) front rest at whole holds in
      (w', rw (sent, e, atoi-cut n k small short) refl, holds')
