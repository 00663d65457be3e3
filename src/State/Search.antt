-- ===== src/State/Search.antt =====
-- What the three searches of state.c find: the first free entry of a table, the first empty entry
-- of a directory, and the first entry with a name.
use server_client.Common.{
  ℕ, zero, suc, ◌+◌, ◌≤◌, ◌<◌, ◌≡◌, refl, ◌≢◌, ◌⊎◌, inl, inr, true, false, not, ◌&&◌, Option, none,
  some, List, arith, Bool-cases, ◌==◌, ℤ, pos, negsuc, minus_one, eqb_ℤ, subst,
}
use server_client.Memory.{Memory, strncmp_equal}
use server_client.State.{AllocationState, free, taken, is_taken, first_free}
use server_client.State.Directory.{entry_inumber, entry_name, empty_entry, find_entry}

pub is_taken-false : (a : AllocationState) → is_taken a ≡ false → a ≡ free
is_taken-false free e = refl
is_taken-false taken e = ground arith

pub is_taken-true : (a : AllocationState) → is_taken a ≡ true → a ≡ taken
is_taken-true free e = ground arith
is_taken-true taken e = refl

pub eqb_ℤ-minus_one : (z : ℤ) → eqb_ℤ z minus_one ≡ true → z ≡ minus_one
eqb_ℤ-minus_one (pos n) e = ground arith
eqb_ℤ-minus_one (negsuc n) e = ground arith

pub eqb_ℤ-ne : (z : ℤ) → eqb_ℤ z minus_one ≡ false → z ≢ minus_one
eqb_ℤ-ne (pos n) e h = cc
eqb_ℤ-ne (negsuc n) e h = ground arith

-- The search stops at the first free entry, and fails only if there is none.
abbrev pub FoundFree : (ℕ → AllocationState) → ℕ → ℕ → Option ℕ → Type 0
FoundFree f lo hi r =
    ((r ≡ none) × ((i : ℕ) → lo ≤ i → i < hi → f i ≡ taken))
    ⊎ ((k : ℕ) × (r ≡ some k)
        × (lo ≤ k)
        × (k < hi)
        × (f k ≡ free)
        × ((i : ℕ) → lo ≤ i → i < k → f i ≡ taken))

-- Extends a fact about the indices from `i + 1` on to those from `i` on.
pub extend_down :
    {P : ℕ → Type 0} (i : ℕ)
    → P i
    → (hi : ℕ) → ((j : ℕ) → i + 1 ≤ j → j < hi → P j)
    → (j : ℕ) → i ≤ j
    → j < hi
    → P j
extend_down {P} i here hi above j lo below = elim (Bool-cases (i == j)) [
  | inl e ↦ let same : i ≡ j = ground arith in subst P same here
  | inr e ↦ above j (ground arith) below
]

pub first_free-FoundFree :
    (f : ℕ → AllocationState) (n i hi : ℕ) → i + n ≡ hi → FoundFree f i hi (first_free f n i)
unfolding first_free
first_free-FoundFree f zero i hi e = inl (refl, λ j lo below. absurd (omega arith))
first_free-FoundFree f (suc n) i hi e = elim (Bool-cases (is_taken (f i))) [
  | inl busy ↦
      let here : f i ≡ taken = is_taken-true (f i) busy in
      elim (first_free-FoundFree f n (i + 1) hi (omega arith)) [
        | inl (r, all) ↦ rw busy (inl (r, extend_down {P = λ j. f j ≡ taken} i here hi all))
        | inr (k, r, lo, below, open_at, all) ↦ rw busy (
            inr
              (k, r, omega arith, below, open_at, extend_down {P = λ j. f j ≡ taken} i here k all))
      ]
  | inr idle ↦ rw idle (
      inr (
        i,
        refl,
        omega arith,
        omega arith,
        is_taken-false (f i) idle,
        λ j lo below. absurd (omega arith),
      ))
]

-- The entry `e` holds a file of that name.
abbrev pub Matches : Memory → ℕ → List ℕ → ℕ → Type 0
Matches m d name e =
    (entry_inumber m d e ≢ minus_one) × (strncmp_equal 40 (entry_name m d e) name ≡ true)

-- The result of the search: the number in the first entry that matches, or -1 if none does.
abbrev pub Found : Memory → ℕ → List ℕ → ℕ → ℕ → ℤ → Type 0
Found m d name lo hi z =
    ((z ≡ minus_one) × ((e : ℕ) → lo ≤ e → e < hi → ¬ Matches m d name e))
    ⊎ ((e : ℕ) × (z ≡ entry_inumber m d e)
        × (lo ≤ e)
        × (e < hi)
        × Matches m d name e
        × ((j : ℕ) → lo ≤ j → j < e → ¬ Matches m d name j))

pub find_entry-Found :
    (m : Memory) (d : ℕ) (name : List ℕ) (n i hi : ℕ)
    → i + n ≡ hi
    → Found m d name i hi (find_entry m d name n i)
unfolding find_entry
find_entry-Found m d name zero i hi e = inl (refl, λ j lo below. absurd (omega arith))
find_entry-Found m d name (suc n) i hi e =
    elim (Bool-cases
      (not (eqb_ℤ (entry_inumber m d i) minus_one) && strncmp_equal 40 (entry_name m d i) name)) [
        | inl hit ↦ rw hit (
            inr (
              i,
              refl,
              omega arith,
              omega arith,
              (eqb_ℤ-ne (entry_inumber m d i) (ground arith), ground arith),
              λ j lo below. absurd (omega arith),
            ))
        | inr miss ↦
            let here : ¬ Matches m d name i = λ h. no_match i miss h in
            elim (find_entry-Found m d name n (i + 1) hi (omega arith)) [
              | inl (r, all) ↦
                  rw miss (inl (r, extend_down {P = λ j. ¬ Matches m d name j} i here hi all))
              | inr (k, r, lo, below, match, all) ↦ rw miss (
                  inr (
                    k,
                    r,
                    omega arith,
                    below,
                    match,
                    extend_down {P = λ j. ¬ Matches m d name j} i here k all,
                  ))
            ]
      ]
  where
    no_match :
        (k : ℕ)
        → (not (eqb_ℤ (entry_inumber m d k) minus_one) && strncmp_equal 40 (entry_name m d k) name)
          ≡ false
        → ¬ Matches m d name k
    no_match k miss (used, same) = elim (Bool-cases (eqb_ℤ (entry_inumber m d k) minus_one)) [
      | inl e ↦ used (eqb_ℤ-minus_one (entry_inumber m d k) e)
      | inr e ↦ ground arith
    ]

-- The first empty entry of a directory, or `none` if all are in use.
abbrev pub FoundEmpty : Memory → ℕ → ℕ → ℕ → Option ℕ → Type 0
FoundEmpty m d lo hi r =
    ((r ≡ none) × ((e : ℕ) → lo ≤ e → e < hi → entry_inumber m d e ≢ minus_one))
    ⊎ ((e : ℕ) × (r ≡ some e)
        × (lo ≤ e)
        × (e < hi)
        × (entry_inumber m d e ≡ minus_one)
        × ((j : ℕ) → lo ≤ j → j < e → entry_inumber m d j ≢ minus_one))

pub empty_entry-FoundEmpty :
    (m : Memory) (d n i hi : ℕ) → i + n ≡ hi → FoundEmpty m d i hi (empty_entry m d n i)
unfolding empty_entry
empty_entry-FoundEmpty m d zero i hi e = inl (refl, λ j lo below. absurd (omega arith))
empty_entry-FoundEmpty m d (suc n) i hi e =
    elim (Bool-cases (eqb_ℤ (entry_inumber m d i) minus_one)) [
      | inl hit ↦ rw hit (
          inr (
            i,
            refl,
            omega arith,
            omega arith,
            eqb_ℤ-minus_one (entry_inumber m d i) hit,
            λ j lo below. absurd (omega arith),
          ))
      | inr miss ↦
          let here = eqb_ℤ-ne (entry_inumber m d i) miss in
          elim (empty_entry-FoundEmpty m d n (i + 1) hi (omega arith)) [
            | inl (r, all) ↦
                rw miss
                  (inl (r, extend_down {P = λ j. entry_inumber m d j ≢ minus_one} i here hi all))
            | inr (k, r, lo, below, vacant, all) ↦ rw miss (
                inr (
                  k,
                  r,
                  omega arith,
                  below,
                  vacant,
                  extend_down {P = λ j. entry_inumber m d j ≢ minus_one} i here k all,
                ))
          ]
    ]
