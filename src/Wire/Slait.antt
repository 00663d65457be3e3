-- ===== src/Wire/Slait.antt =====
-- `slait`: it ends, what it reads from a pipe that gives all that is asked for, and how much it
-- stores when a read is short.
use server_client.Common.{
  ℕ, zero, suc, ◌+◌, ◌-◌, ◌≤◌, ◌<◌, ◌≡◌, refl, ap, ◌⊎◌, inl, inr, true, false, Option, some, List,
  [], ◌∷◌, ◌++◌, arith, Bool-cases, length, length-append, leb, ◌==◌, ℤ, pos, minus_one,
}
use server_client.Wire.Pipes.{Os, ReadResult, failed, got, slait_from, slait}

module _ {W : Type 0} where
  -- `read` stores at most the bytes asked for.
  abbrev pub IsBounded : Os W → Type 0
  IsBounded os =
      (w : W) (fh : ℤ) (len : ℕ) (bytes : List ℕ)
      → (os.read_pipe w fh len).1 ≡ got bytes
      → length bytes ≤ len

  -- What `slait` promises of the bytes that it stored and of its result.
  abbrev pub SlaitOutcome : ℕ → Option (W × List ℕ × ℤ) → Type 0
  SlaitOutcome len r =
      (w : W) × (bytes : List ℕ) × (ret : ℤ) × (r ≡ some (w, bytes, ret))
      × (length bytes ≤ len + len - 1)
      × ((ret ≡ minus_one) ⊎ ((ret ≡ pos 0) ⊎ (len ≤ length bytes)))

ReadResult-cases : (r : ReadResult) → (r ≡ failed) ⊎ ((bytes : List ℕ) × (r ≡ got bytes))
ReadResult-cases failed = inl refl
ReadResult-cases (got bytes) = inr (bytes, refl)

module _ {W : Type 0} (os : Os W) where
  slait_from-SlaitOutcome :
      IsBounded os
      → (n : ℕ) (w : W) (fh : ℤ) (len : ℕ) (done : List ℕ) → length done ≤ len - 1
      → len < n + length done
      → SlaitOutcome len (slait_from os n w fh len done)
  unfolding slait_from
  slait_from-SlaitOutcome bounded zero w fh len done before fuel = absurd (omega arith)
  slait_from-SlaitOutcome bounded (suc n) w fh len done before fuel =
      let w' = (os.read_pipe w fh len).0 in
      elim (ReadResult-cases (os.read_pipe w fh len).1) [
        | inl e ↦ rw (e, slait_from) (w', done, minus_one, refl, omega arith, inl refl)
        | inr (bytes, e) ↦
            let at_most = bounded w fh len bytes e in
            let sum = length-append done bytes in
            elim (Bool-cases (length bytes == 0)) [
              | inl none_left ↦
                  rw (e, none_left, slait_from) (w', done, pos 0, refl, omega arith, inr (inl refl))
              | inr some_left ↦ elim (Bool-cases (leb len (length (done ++ bytes)))) [
                | inl enough ↦
                    rw (e, some_left, enough, slait_from)
                      (
                        w',
                        done ++ bytes,
                        pos (length bytes),
                        refl,
                        omega arith,
                        inr (inr (ground arith)),
                      )
                | inr more ↦
                    rw (e, some_left, more, slait_from)
                      (slait_from-SlaitOutcome bounded n w' fh len (done ++ bytes) (ground arith)
                        (ground arith))
              ]
            ]
      ]

  -- If `read` stores at most the bytes asked for, `slait` ends, stores fewer than twice `len`
  -- bytes, and unless it returns -1 or 0 at least `len`.
  pub slait-SlaitOutcome :
      IsBounded os → (w : W) (fh : ℤ) (len : ℕ) → SlaitOutcome len (slait os w fh len)
  slait-SlaitOutcome bounded w fh len =
      slait_from-SlaitOutcome bounded (suc len) w fh len [] (omega arith) (omega arith)

  -- After a short read `slait` asks for `len` bytes again: if it gets them, it stores more than
  -- `len` bytes behind the address of its buffer.
  pub slait_overrun :
      (w : W) (fh : ℤ) (len : ℕ) (first second : List ℕ)
      → (os.read_pipe w fh len).1 ≡ got first
      → 0 < length first
      → length first < len
      → (os.read_pipe (os.read_pipe w fh len).0 fh len).1 ≡ got second
      → length second ≡ len
      → (w' : W) × (slait os w fh len ≡ some (w', first ++ second, pos len))
        × (len < length (first ++ second))
  unfolding slait_from
  slait_overrun w fh zero first second e some_bytes short e' whole = absurd (omega arith)
  slait_overrun w fh (suc len) first second e some_bytes short e' whole =
      let sum = length-append first second in
      let more : leb (suc len) (length first) ≡ false = ground arith in
      let something : (length first == 0) ≡ false = ground arith in
      let again : (length second == 0) ≡ false = ground arith in
      let enough : leb (suc len) (length (first ++ second)) ≡ true = ground arith in
      let w' = (os.read_pipe (os.read_pipe w fh (suc len)).0 fh (suc len)).0 in
      rw (e, something, more, e', again, enough, slait_from)
        (w', ap (λ n. some (w', first ++ second, pos n)) whole, omega arith)

  -- One read that gives all that is asked for is all that `slait` needs.
  pub slait_whole :
      (w : W) (fh : ℤ) (len : ℕ) (bytes : List ℕ)
      → (os.read_pipe w fh len).1 ≡ got bytes
      → length bytes ≡ len
      → slait os w fh len ≡ some ((os.read_pipe w fh len).0, bytes, pos len)
  unfolding slait_from
  slait_whole w fh len [] e whole =
      rw (e, slait_from) (ap (λ n. some ((os.read_pipe w fh len).0, [], pos n)) whole)
  slait_whole w fh len (b ∷ bytes) e whole =
      let enough : leb len (length (b ∷ bytes)) ≡ true = ground arith in
      let something : (length (b ∷ bytes) == 0) ≡ false = ground arith in
      rw (e, something, enough, slait_from)
        (ap (λ n. some ((os.read_pipe w fh len).0, b ∷ bytes, pos n)) whole)
