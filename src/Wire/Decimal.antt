-- ===== src/Wire/Decimal.antt =====
-- A number printed into a field of four bytes is read back from it.
use server_client.Common.{
  ℕ, zero, suc, ◌+◌, ◌-◌, ◌*◌, ◌/◌, ◌%◌, ◌≤◌, ◌<◌, ◌≡◌, refl, ap, sym, ◌∙◌, inl, inr, true, false,
  List, [], ◌∷◌, ◌++◌, arith, Bool-cases, ltb, ◌==◌, length, length-append, replicate, lt→ltb, ℤ,
  pos,
}
use server_client.Memory.{strncpy_bytes}
use server_client.Memory.Strings.{length-strncpy_bytes}
use server_client.Wire.Text.{digits, sprintf_int, is_digit, is_space, read_digits, atoi, int_field}

pub append_assoc : (xs ys zs : List ℕ) → (xs ++ ys) ++ zs ≡ xs ++ (ys ++ zs)
append_assoc [] ys zs = refl
append_assoc (x ∷ xs) ys zs = ap (◌∷◌ x) (append_assoc xs ys zs)

pub append_nil : (xs : List ℕ) → xs ++ [] ≡ xs
append_nil [] = refl
append_nil (x ∷ xs) = ap (◌∷◌ x) (append_nil xs)

read_digits-digit :
    (n d m : ℕ) (text : List ℕ)
    → d < 10
    → n * 10 + d ≡ m
    → read_digits n ((b'0' + d) ∷ text) ≡ read_digits m text
unfolding read_digits
read_digits-digit n d m text h sum =
    let value : n * 10 + (b'0' + d - b'0') ≡ m = omega arith in
    let yes : is_digit (b'0' + d) ≡ true = ground arith in rw (yes, value)

read_digits-digits :
    (fuel n : ℕ) (text : List ℕ)
    → n ≤ fuel
    → read_digits 0 (digits fuel n ++ text) ≡ read_digits n text
unfolding digits
read_digits-digits zero n text h =
    let nothing : n ≡ 0 = omega arith in
    rw nothing (read_digits-digit 0 0 0 text (omega arith) (omega arith))
read_digits-digits (suc fuel) n text h = elim (Bool-cases (ltb n 10)) [
  | inl e ↦ rw (e, digits) (read_digits-digit 0 n n text (ground arith) (omega arith))
  | inr e ↦
      let ih = read_digits-digits fuel (n / 10) ((b'0' + n % 10) ∷ text) (ground arith) in
      let last = read_digits-digit (n / 10) (n % 10) n text (omega arith) (omega arith) in
      rw (e, digits)
        (ap (read_digits 0) (append_assoc (digits fuel (n / 10)) ((b'0' + n % 10) ∷ []) text)
          ∙ ih
          ∙ last)
]

-- What is printed begins with a digit.
head_digit :
    (fuel n : ℕ) (text : List ℕ)
    → (d : ℕ) × (tail : List ℕ) × (d < 10) × (digits fuel n ++ text ≡ (b'0' + d) ∷ tail)
unfolding digits
head_digit zero n text = (n % 10, text, omega arith, refl)
head_digit (suc fuel) n text = elim (Bool-cases (ltb n 10)) [
  | inl e ↦ rw (e, digits) (n, text, ground arith, refl)
  | inr e ↦
      let (d, tail, small, front) = head_digit fuel (n / 10) ((b'0' + n % 10) ∷ text) in
      let whole = append_assoc (digits fuel (n / 10)) ((b'0' + n % 10) ∷ []) text ∙ front in
      rw (e, digits) (d, tail, small, whole)
]

atoi-digit :
    (d : ℕ) (tail : List ℕ)
    → d < 10
    → atoi ((b'0' + d) ∷ tail) ≡ pos (read_digits 0 ((b'0' + d) ∷ tail))
unfolding atoi
atoi-digit d tail small =
    let no_space : is_space (b'0' + d) ≡ false = ground arith in
    let no_minus : (b'0' + d == b'-') ≡ false = ground arith in
    let no_plus : (b'0' + d == b'+') ≡ false = ground arith in rw (no_space, no_minus, no_plus)

-- Every digit printed adds one to the length.
length-digits_step :
    (bound k : ℕ)
    → ((fuel n : ℕ) → n < bound → n ≤ fuel → length (digits fuel n) ≤ k)
    → (fuel n : ℕ) → n < bound * 10
    → n ≤ fuel
    → length (digits fuel n) ≤ suc k
unfolding digits
length-digits_step bound k before zero n below h = omega arith
length-digits_step bound k before (suc fuel) n below h = elim (Bool-cases (ltb n 10)) [
  | inl e ↦ rw (e, length, digits) (omega arith)
  | inr e ↦
      let ih = before fuel (n / 10) (omega arith) (ground arith) in
      rw (e, length, digits)
        (omega (arith, length-append (digits fuel (n / 10)) ((b'0' + n % 10) ∷ [])))
]

length-digits_one : (fuel n : ℕ) → n < 10 → n ≤ fuel → length (digits fuel n) ≤ 1
unfolding digits
length-digits_one zero n below h = omega arith
length-digits_one (suc fuel) n below h = rw (lt→ltb n 10 below, length, digits) (omega arith)

length-digits_three : (fuel n : ℕ) → n < 1000 → n ≤ fuel → length (digits fuel n) ≤ 3
length-digits_three = length-digits_step 100 2 (length-digits_step 10 1 length-digits_one)

length-digits_four : (fuel n : ℕ) → n < 10000 → n ≤ fuel → length (digits fuel n) ≤ 4
length-digits_four = length-digits_step 1000 3 length-digits_three

-- A text that fits its field is followed there by zeros.
strncpy_bytes-pad :
    (n k : ℕ) (text : List ℕ) → length text + k ≡ n → strncpy_bytes n text ≡ text ++ replicate k 0
unfolding strncpy_bytes
strncpy_bytes-pad zero zero [] h = refl
strncpy_bytes-pad zero (suc k) [] h = absurd (omega arith)
strncpy_bytes-pad zero k (c ∷ text) h = absurd (omega arith)
strncpy_bytes-pad (suc n) zero [] h = absurd (omega arith)
strncpy_bytes-pad (suc n) (suc k) [] h = ap (◌∷◌ 0) (strncpy_bytes-pad n k [] (omega arith))
strncpy_bytes-pad (suc n) k (c ∷ text) h = ap (◌∷◌ c) (strncpy_bytes-pad n k text (omega arith))

read_digits-zeros : (n k : ℕ) → read_digits n (replicate k 0) ≡ n
unfolding read_digits
read_digits-zeros n zero = refl
read_digits-zeros n (suc k) = refl

read_digits-stop : (n k : ℕ) (rest : List ℕ) → read_digits n (replicate (suc k) 0 ++ rest) ≡ n
unfolding read_digits
read_digits-stop n k rest = refl

replicate-append : (j k : ℕ) → replicate {A = ℕ} j 0 ++ replicate k 0 ≡ replicate (j + k) 0
replicate-append zero k = let e : k ≡ 0 + k = omega arith in ap (λ m. replicate m 0) e
replicate-append (suc j) k =
    let e : suc (j + k) ≡ suc j + k = omega arith in
    ap (◌∷◌ 0) (replicate-append j k) ∙ ap (λ m. replicate m 0) e

-- A text of digits begins with none of the characters that `atoi` treats apart.
atoi-digits :
    (fuel n : ℕ) (text : List ℕ)
    → n ≤ fuel
    → atoi (digits fuel n ++ text) ≡ pos (read_digits n text)
atoi-digits fuel n text h =
    let (d, tail, small, front) = head_digit fuel n text in
    ap atoi front
    ∙ atoi-digit d tail small
    ∙ ap (λ s. pos (read_digits 0 s)) (sym front)
    ∙ ap pos (read_digits-digits fuel n text h)

-- The field of a number of at most four digits, and how many of its bytes are zeros behind them.
field_text :
    (n : ℕ)
    → n < 10000
    → (k : ℕ) × (length (digits n n) + k ≡ 4) × (int_field (pos n) ≡ digits n n ++ replicate k 0)
field_text n h =
    let short = length-digits_four n n h (omega arith) in
    let k : ℕ = 4 - length (digits n n) in
    let sum : length (digits n n) + k ≡ 4 = omega arith in
    (k, sum, strncpy_bytes-pad 4 k (digits n n) sum)

-- A number of at most three digits is read back from its field, whatever stands behind it.
pub atoi-int_field : (n : ℕ) (rest : List ℕ) → n < 1000 → atoi (int_field (pos n) ++ rest) ≡ pos n
atoi-int_field n rest h =
    let three = length-digits_three n n h (omega arith) in
    let (k, sum, text) = field_text n (omega arith) in
    let j : ℕ = k - 1 in
    let some_zero : k ≡ suc j = omega arith in
    ap atoi (ap (λ s. s ++ rest) (text ∙ ap (λ m. digits n n ++ replicate m 0) some_zero))
    ∙ ap atoi (append_assoc (digits n n) (replicate (suc j) 0) rest)
    ∙ atoi-digits n n (replicate (suc j) 0 ++ rest) (omega arith)
    ∙ ap pos (read_digits-stop n j rest)

-- A number of at most four digits is read back if zeros stand behind its field.
pub atoi-int_field_zeros : (n k : ℕ) → n < 10000 → atoi (int_field (pos n) ++ replicate k 0) ≡ pos n
atoi-int_field_zeros n k h =
    let (j, sum, text) = field_text n h in
    ap (λ s. atoi (s ++ replicate k 0)) text
    ∙ ap atoi (append_assoc (digits n n) (replicate j 0) (replicate k 0))
    ∙ ap (λ s. atoi (digits n n ++ s)) (replicate-append j k)
    ∙ atoi-digits n n (replicate (j + k) 0) (omega arith)
    ∙ ap pos (read_digits-zeros n (j + k))

pub length-int_field : (z : ℤ) → length (int_field z) ≡ 4
length-int_field z = length-strncpy_bytes 4 (sprintf_int z)

-- The digit of an operation code, with zeros behind it.
pub atoi-op_char :
    (op_code k : ℕ) → op_code < 10 → atoi ((op_code + b'0') ∷ replicate k 0) ≡ pos op_code
atoi-op_char op_code k small =
    let order : op_code + b'0' ≡ b'0' + op_code = omega arith in
    ap (λ c. atoi (c ∷ replicate k 0)) order
    ∙ atoi-digit op_code (replicate k 0) small
    ∙ ap pos (
        read_digits-digit 0 op_code op_code (replicate k 0) small (omega arith)
        ∙ read_digits-zeros op_code k)

pub atoi-int_field_alone : (n : ℕ) → n < 1000 → atoi (int_field (pos n)) ≡ pos n
atoi-int_field_alone n small =
    sym (ap atoi (append_nil (int_field (pos n)))) ∙ atoi-int_field n [] small

-- The field of a digit.
pub int_field-digit : (n : ℕ) → n < 10 → int_field (pos n) ≡ (b'0' + n) ∷ 0 ∷ 0 ∷ 0 ∷ []
unfolding digits strncpy_bytes
int_field-digit zero small = refl
int_field-digit (suc n) small = rw (lt→ltb (suc n) 10 small, digits) refl

pub atoi-one_digit : (n : ℕ) (tail : List ℕ) → n < 10 → atoi ((b'0' + n) ∷ 0 ∷ tail) ≡ pos n
unfolding read_digits
atoi-one_digit n tail small =
    let yes : is_digit (b'0' + n) ≡ true = ground arith in
    let value : 0 * 10 + (b'0' + n - b'0') ≡ n = omega arith in
    atoi-digit n (0 ∷ tail) small ∙ rw yes (ap pos value)
