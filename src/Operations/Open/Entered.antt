-- ===== src/Operations/Open/Entered.antt =====
-- What a search of the directory finds after a name was entered.
use server_client.Common.{
  ℕ, ◌≤◌, ◌<◌, ◌≡◌, refl, ap, subst, sym, ◌∙◌, ◌≢◌, inl, inr, true, List, arith, Bool-cases, ltb,
  length, ◌==◌, ℤ, pos, minus_one,
}
use server_client.Memory.{Memory, strncmp_equal}
use server_client.Memory.Strings.{NulFree, strncmp_equal-strncpy_bytes}
use server_client.State.Directory.{write_entry, entry_inumber}
use server_client.State.Entries.{
  entry_name-write_entry, entry_name-write_entry_ne, entry_inumber-write_entry,
  entry_inumber-write_entry_ne,
}
use server_client.State.Search.{Matches, Found}

module _ (m : Memory) (d e k : ℕ) (rest : List ℕ) (vacant : entry_inumber m d e ≡ minus_one)
    (small : k < 2147483648) (fits : length rest ≤ 39) (clean : NulFree rest) where
  abbrev after : Memory
  after = write_entry m d e (pos k) rest

  -- The new entry matches its own name and no other.
  new_entry : (name : List ℕ) → NulFree name → Matches after d name e → rest ≡ name
  new_entry name clean' (used, same) =
      (strncmp_equal-strncpy_bytes 39 rest name fits clean clean').0 (
        subst (λ bytes. strncmp_equal 40 bytes name ≡ true) (entry_name-write_entry m d e k rest)
          same)

  new_entry-Matches : Matches after d rest e
  new_entry-Matches = (
    λ q. ground (arith, entry_inumber-write_entry m d e k rest small),
    subst (λ bytes. strncmp_equal 40 bytes rest ≡ true) (sym (entry_name-write_entry m d e k rest))
        ((strncmp_equal-strncpy_bytes 39 rest rest fits clean clean).1 refl),
  )

  old_entry : (name : List ℕ) (j : ℕ) → e ≢ j → Matches after d name j → Matches m d name j
  old_entry name j ne (used, same) = (
    λ q. used (entry_inumber-write_entry_ne m d e k rest j ne ∙ q),
    subst (λ bytes. strncmp_equal 40 bytes name ≡ true)
        (entry_name-write_entry_ne m d e k rest j ne) same,
  )

  still_entry : (name : List ℕ) (j : ℕ) → Matches m d name j → Matches after d name j
  still_entry name j (used, same) =
      let ne : e ≢ j = λ q. used (subst (λ i. entry_inumber m d i ≡ minus_one) q vacant) in
      (
        λ q. used (sym (entry_inumber-write_entry_ne m d e k rest j ne) ∙ q),
        subst (λ bytes. strncmp_equal 40 bytes name ≡ true)
            (sym (entry_name-write_entry_ne m d e k rest j ne)) same,
      )

  -- A name that was not there is found at the new entry.
  pub Found-new :
      (z z' : ℤ)
      → e < 23
      → Found m d rest 0 23 z
      → z ≡ minus_one
      → Found after d rest 0 23 z'
      → z' ≡ pos k
  Found-new z z' below before missing now = elim now [
    | inl (r, none_there) ↦ absurd (none_there e (omega arith) below new_entry-Matches)
    | inr (j, r, lo, inside, match, first) ↦ elim (Bool-cases (e == j)) [
      | inl here ↦
          let same : e ≡ j = ground arith in
          r
          ∙ subst (λ i. entry_inumber after d i ≡ pos k) same
              (entry_inumber-write_entry m d e k rest small)
      | inr elsewhere ↦
          let old = old_entry rest j (ground arith) match in
          elim before [
            | inl (r', none_there) ↦ absurd (none_there j lo inside old)
            | inr (i, r', lo', inside', match', first') ↦ absurd (match'.0 (sym r' ∙ missing))
          ]
    ]
  ]

  -- Any other name is found where it was.
  pub Found-old :
      (name : List ℕ) (z z' : ℤ)
      → NulFree name
      → rest ≢ name
      → Found m d name 0 23 z
      → Found after d name 0 23 z'
      → z' ≡ z
  Found-old name z z' clean' ne before now = elim now [
    | inl (r, none_now) ↦ elim before [
      | inl (r', none_there) ↦ r ∙ sym r'
      | inr (i, r', lo', inside', match', first') ↦
          absurd (none_now i lo' inside' (still_entry name i match'))
    ]
    | inr (j, r, lo, inside, match, first) ↦
        let apart : e ≢ j =
          λ q. ne (new_entry name clean' (subst (λ i. Matches after d name i) (sym q) match)) in
        let old = old_entry name j apart match in
        elim before [
          | inl (r', none_there) ↦ absurd (none_there j lo inside old)
          | inr (i, r', lo', inside', match', first') ↦ elim (Bool-cases (ltb i j)) [
            | inl less ↦ absurd (first i lo' (ground arith) (still_entry name i match'))
            | inr more ↦ elim (Bool-cases (ltb j i)) [
              | inl less ↦ absurd (first' j lo (ground arith) old)
              | inr same ↦
                  let eq : j ≡ i = ground arith in
                  r
                  ∙ entry_inumber-write_entry_ne m d e k rest j apart
                  ∙ ap (entry_inumber m d) eq
                  ∙ sym r'
            ]
          ]
        ]
  ]
