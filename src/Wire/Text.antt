-- ===== src/Wire/Text.antt =====
-- The C library as the messages use it: `sprintf` with "%d" and "%ld", `atoi`, and the copy of a
-- text into a field of fixed width.
use server_client.Common.{
  ℕ, zero, suc, ◌+◌, ◌-◌, ◌*◌, ◌/◌, ◌%◌, Bool, true, false, ◌&&◌, ◌||◌, List, [], ◌∷◌, ◌++◌, ltb,
  leb, ◌==◌, if◌then◌else◌, ℤ, pos, negsuc,
}
use server_client.Memory.{strncpy_bytes}

-- The digits of `n`, the highest first; `fuel` is at least `n`.
unfoldable pub digits : ℕ → ℕ → List ℕ
digits zero n = (b'0' + n % 10) ∷ []
digits (suc fuel) n = elim (ltb n 10) [
  | true ↦ (b'0' + n) ∷ []
  | false ↦ digits fuel (n / 10) ++ ((b'0' + n % 10) ∷ [])
]

-- `sprintf(s, "%d", z)`
abbrev pub sprintf_int : ℤ → List ℕ
sprintf_int (pos n) = digits n n
sprintf_int (negsuc n) = b'-' ∷ digits (suc n) (suc n)

abbrev pub is_digit : ℕ → Bool
is_digit c = leb b'0' c && leb c b'9'

-- `isspace`
abbrev pub is_space : ℕ → Bool
is_space c = (c == b' ') || (leb 9 c && leb c 13)

-- The digits at the front of a text, read behind those that make `n`.
unfoldable pub read_digits : ℕ → List ℕ → ℕ
read_digits n [] = n
read_digits n (c ∷ text) =
    let rest = read_digits (n * 10 + (c - b'0')) text in if is_digit c then rest else n

abbrev pub negate : ℕ → ℤ
negate zero = pos 0
negate (suc n) = negsuc n

-- `atoi`, of numbers that an `int` holds.
unfoldable pub atoi : List ℕ → ℤ
atoi [] = pos 0
atoi (c ∷ text) =
    let rest = atoi text in
    if is_space c
    then rest
    else if c == b'-'
    then negate (read_digits 0 text)
    else if c == b'+'
    then pos (read_digits 0 text)
    else pos (read_digits 0 (c ∷ text))

-- `sizeof(int)` bytes of a text in a zeroed buffer: four, as all fields of the messages have.
abbrev pub int_field : ℤ → List ℕ
int_field z = strncpy_bytes 4 (sprintf_int z)
