-- ===== src/Memory.antt =====
-- The C library as the file system uses it: bytes behind addresses, memcpy, 32-bit integers in
-- memory, and the string functions of string.h. The text of a C string is the list of its bytes
-- before the terminating zero.
pub mod Laws
pub mod Strings
use server_client.Common.{
  ℕ, zero, suc, ◌+◌, ◌-◌, ◌*◌, ◌/◌, ◌%◌, Bool, true, false, ◌&&◌, List, [], ◌∷◌, ◌++◌, ltb, leb,
  ◌==◌, if◌then◌else◌, length, get_or, ℤ, pos, negsuc,
}

-- One array of `char`: the byte at each address.
abbrev pub Memory : Type 0
Memory = ℕ → ℕ

-- The `n` bytes from address `a` on, as `memcpy` takes them out of memory.
unfoldable pub load : Memory → ℕ → ℕ → List ℕ
load m a zero = []
load m a (suc n) = m a ∷ load m (a + 1) n

-- `memcpy(m + a, bytes, length bytes)`
unfoldable pub store : Memory → ℕ → List ℕ → Memory
store m a bytes p = if leb a p && ltb p (a + length bytes) then get_or bytes (p - a) 0 else m p

-- An `int` is four bytes, the lowest first, in two's complement.
unfoldable pub read_int : Memory → ℕ → ℤ
read_int m a =
    let word = m a + 256 * m (a + 1) + 65536 * m (a + 2) + 16777216 * m (a + 3) in
    if ltb word 2147483648 then pos word else negsuc (4294967295 - word)

abbrev pub to_word : ℤ → ℕ
to_word (pos n) = n % 4294967296
to_word (negsuc n) = 4294967295 - n % 4294967296

abbrev pub int_bytes : ℤ → List ℕ
int_bytes z =
    let word = to_word z in
    word % 256 ∷ word / 256 % 256 ∷ word / 65536 % 256 ∷ word / 16777216 % 256 ∷ []

unfoldable pub write_int : Memory → ℕ → ℤ → Memory
write_int m a z = store m a (int_bytes z)

-- What `strncpy(d, s, n)` writes to `d`: the string, cut or padded with zeros to `n` bytes.
unfoldable pub strncpy_bytes : ℕ → List ℕ → List ℕ
strncpy_bytes zero s = []
strncpy_bytes (suc n) [] = 0 ∷ strncpy_bytes n []
strncpy_bytes (suc n) (c ∷ s) = c ∷ strncpy_bytes n s

-- `strncmp(d, s, n) == 0`, where `d` is a buffer and `s` a C string. The comparison ends at a
-- zero that both have, at a difference, or after `n` bytes.
unfoldable pub strncmp_equal : ℕ → List ℕ → List ℕ → Bool
strncmp_equal zero d s = true
strncmp_equal (suc n) [] s = false
strncmp_equal (suc n) (b ∷ d) [] = b == 0
strncmp_equal (suc n) (b ∷ d) (c ∷ s) = (b == c) && strncmp_equal n d s

-- The text in a buffer: its bytes up to the first zero.
abbrev pub c_string : List ℕ → List ℕ
c_string [] = []
c_string (c ∷ text) = let rest = c ∷ c_string text in if c == 0 then [] else rest
