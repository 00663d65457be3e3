-- ===== src/Memory/Strings.antt =====
-- What `strncmp` says of a name that `strncpy` has copied.
use server_client.Common.{
  ℕ, zero, suc, ◌≤◌, ◌<◌, ◌≡◌, refl, ap, ◌↔◌, true, false, ◌==◌, List, [], ◌∷◌, ◌++◌, length, arith,
  take, subst, inl, inr, if◌then◌else◌, Bool-cases,
}
use server_client.Memory.{strncpy_bytes, strncmp_equal, c_string}

-- A C string holds no zero.
abbrev pub NulFree : List ℕ → Type 0
NulFree [] = Unit {0}
NulFree (c ∷ s) = (0 < c) × NulFree s

pub c_string-NulFree : (s : List ℕ) → NulFree s → c_string s ≡ s
c_string-NulFree [] clean = refl
c_string-NulFree (c ∷ s) (positive, clean) =
    let byte : (c == 0) ≡ false = ground arith in rw byte (ap (◌∷◌ c) (c_string-NulFree s clean))

-- The bytes behind the end of a string do not count.
pub c_string-take :
    (n : ℕ) (text : List ℕ) → length (c_string text) < n → c_string (take n text) ≡ c_string text
c_string-take zero text short = absurd (omega arith)
c_string-take (suc n) [] short = refl
c_string-take (suc n) (c ∷ text) short = elim (Bool-cases (c == 0)) [
  | inl e ↦ rw e refl
  | inr e ↦
      let less : suc (length (c_string text)) < suc n =
        subst (λ b. length (if b then [] else c ∷ c_string text) < suc n) e short in
      rw e (ap (◌∷◌ c) (c_string-take n text (omega arith)))
]

pub length-strncpy_bytes : (n : ℕ) (s : List ℕ) → length (strncpy_bytes n s) ≡ n
unfolding strncpy_bytes
length-strncpy_bytes zero s = refl
length-strncpy_bytes (suc n) [] = ap suc (length-strncpy_bytes n [])
length-strncpy_bytes (suc n) (c ∷ s) = ap suc (length-strncpy_bytes n s)

-- A copied name that was not cut equals exactly the name that it was copied from.
pub strncmp_equal-strncpy_bytes :
    (n : ℕ) (s t : List ℕ)
    → length s ≤ n
    → NulFree s
    → NulFree t
    → (strncmp_equal (suc n) (strncpy_bytes n s ++ 0 ∷ []) t ≡ true) ↔ (s ≡ t)
unfolding strncmp_equal strncpy_bytes
strncmp_equal-strncpy_bytes zero [] [] h fs ft = (λ _. refl, λ _. refl)
strncmp_equal-strncpy_bytes zero [] (d ∷ t) h fs ft = (λ e. ground arith, λ e. cc)
strncmp_equal-strncpy_bytes zero (c ∷ s) t h fs ft = absurd (omega arith)
strncmp_equal-strncpy_bytes (suc n) [] [] h fs ft = (λ _. refl, λ _. refl)
strncmp_equal-strncpy_bytes (suc n) [] (d ∷ t) h fs ft = (λ e. ground arith, λ e. cc)
strncmp_equal-strncpy_bytes (suc n) (c ∷ s) [] h fs ft = (λ e. ground arith, λ e. cc)
strncmp_equal-strncpy_bytes (suc n) (c ∷ s) (d ∷ t) h fs ft =
    let rest = strncmp_equal-strncpy_bytes n s t (omega arith) fs.1 ft.1 in
    (
      λ e. let tails : s ≡ t = rest.0 (ground arith) in ground arith,
      λ e. let tails = rest.1 (ground arith) in ground arith,
    )
