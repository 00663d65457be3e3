-- ===== src/Server/Fields.antt =====
-- The request of an open in the server's buffer.
use server_client.Common.{
  ℕ, ◌+◌, ◌<◌, ◌≡◌, ap, sym, ◌∙◌, List, [], ◌∷◌, ◌++◌, arith, length, length-append, take-append,
  drop-append, replicate, take, drop, pos,
}
use server_client.Wire.Text.{int_field, atoi}
use server_client.Wire.Decimal.{atoi-op_char, atoi-int_field_alone, append_assoc, length-int_field}
use server_client.Wire.Pipes.{stored, zeros}

-- The bytes behind the code of an open.
abbrev pub open_bytes : ℕ → List ℕ → ℕ → List ℕ
open_bytes i path flags = int_field (pos i) ++ (path ++ ((flags + b'0') ∷ []))

pub length-open_bytes :
    (i : ℕ) (path : List ℕ) (flags : ℕ) → length path ≡ 40 → length (open_bytes i path flags) ≡ 45
length-open_bytes i path flags forty =
    let four = length-int_field (pos i) in
    let last : List ℕ = (flags + b'0') ∷ [] in
    omega (
      arith,
      four,
      forty,
      length-append (int_field (pos i)) (path ++ last),
      length-append path last,
    )

-- The server's buffer with these bytes in it, and the three fields that it takes out.
pub open_fields :
    (i : ℕ) (path : List ℕ) (flags : ℕ)
    → i < 10
    → length path ≡ 40
    → flags < 8
    → let buffer = stored (open_bytes i path flags) (zeros 100) in
      (atoi (take 4 buffer) ≡ pos i)
      × (take 40 (drop 4 buffer) ≡ path)
      × (atoi (take 4 (drop 44 buffer)) ≡ pos flags)
open_fields i path flags in_table forty small =
    let id = int_field (pos i) in
    let four = length-int_field (pos i) in
    let last : List ℕ = (flags + b'0') ∷ [] in
    let tail : List ℕ = last ++ replicate 55 0 in
    let filled : stored (open_bytes i path flags) (zeros 100) ≡ id ++ (path ++ tail) =
      ap (λ n. open_bytes i path flags ++ drop n (zeros 100)) (length-open_bytes i path flags forty)
      ∙ append_assoc id (path ++ last) (replicate 55 0)
      ∙ ap (◌++◌ id) (append_assoc path last (replicate 55 0)) in
    let front : length (id ++ path) ≡ 44 = omega (arith, four, forty, length-append id path) in
    (
      ap (λ b. atoi (take 4 b)) filled
          ∙ ap atoi (take-append 4 id (path ++ tail) four)
          ∙ atoi-int_field_alone i (omega arith),
      ap (λ b. take 40 (drop 4 b)) filled
          ∙ ap (take 40) (drop-append 4 id (path ++ tail) four)
          ∙ take-append 40 path tail forty,
      ap (λ b. atoi (take 4 (drop 44 b))) (filled ∙ sym (append_assoc id path tail))
          ∙ ap (λ b. atoi (take 4 b)) (drop-append 44 (id ++ path) tail front)
          ∙ atoi-op_char flags 3 (omega arith),
    )
