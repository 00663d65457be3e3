-- ===== src/Server/Table.antt =====
-- The table of free sessions: what `find_free_pos` finds.
use server_client.Common.{
  ℕ, zero, suc, ◌+◌, ◌≤◌, ◌<◌, ◌≡◌, refl, ap, ◌∙◌, if◌then◌else◌, ◌⊎◌, inl, inr, true, false,
  Option, none, some, arith, Bool-cases, update, pos, minus_one,
}
use server_client.Server.{
  ServerState, SessionState, free_pos, taken_pos, returned, stuck, lock_global_mutex, ◌>>=◌,
}
use server_client.State.Search.{extend_down}
use server_client.Server.Sessions.{first_free_pos, find_free_pos, take_position, is_free_pos}

is_free_pos-true : (a : SessionState) → is_free_pos a ≡ true → a ≡ free_pos
is_free_pos-true free_pos e = refl
is_free_pos-true taken_pos e = ground arith

is_free_pos-false : (a : SessionState) → is_free_pos a ≡ false → a ≡ taken_pos
is_free_pos-false free_pos e = ground arith
is_free_pos-false taken_pos e = refl

-- The search stops at the first free position.
abbrev FoundPos : (ℕ → SessionState) → ℕ → ℕ → Option ℕ → Type 0
FoundPos f lo hi r =
    ((r ≡ none) × ((j : ℕ) → lo ≤ j → j < hi → f j ≡ taken_pos))
    ⊎ ((k : ℕ) × (r ≡ some k)
        × (lo ≤ k)
        × (k < hi)
        × (f k ≡ free_pos)
        × ((j : ℕ) → lo ≤ j → j < k → f j ≡ taken_pos))

first_free_pos-FoundPos :
    (f : ℕ → SessionState) (n i hi : ℕ) → i + n ≡ hi → FoundPos f i hi (first_free_pos f n i)
unfolding first_free_pos
first_free_pos-FoundPos f zero i hi e = inl (refl, λ j lo below. absurd (omega arith))
first_free_pos-FoundPos f (suc n) i hi e = elim (Bool-cases (is_free_pos (f i))) [
  | inl open_at ↦ rw open_at (
      inr (
        i,
        refl,
        omega arith,
        omega arith,
        is_free_pos-true (f i) open_at,
        λ j lo below. absurd (omega arith),
      ))
  | inr busy ↦
      let here = is_free_pos-false (f i) busy in
      elim (first_free_pos-FoundPos f n (i + 1) hi (omega arith)) [
        | inl (r, all) ↦ rw busy (inl (r, extend_down {P = λ j. f j ≡ taken_pos} i here hi all))
        | inr (k, r, lo, below, open_at, all) ↦ rw busy (
            inr (
              k,
              r,
              omega arith,
              below,
              open_at,
              extend_down {P = λ j. f j ≡ taken_pos} i here k all,
            ))
      ]
]

pub lock_global_mutex-free :
    (s : ServerState) → s.global_locked ≡ false → lock_global_mutex s ≡ returned s
lock_global_mutex-free s unlocked = ap (λ b. if b then stuck else returned s) unlocked

-- With `global_mutex` unlocked, `find_free_pos` takes the first free position and no other and
-- leaves the mutex unlocked; only if all ten are taken it returns -1, and then the mutex stays
-- locked.
pub find_free_pos_lem :
    (s : ServerState)
    → s.global_locked ≡ false
    → ((k : ℕ) × (k < 10)
        × (s.free_sessions k ≡ free_pos)
        × ((j : ℕ) → j < k → s.free_sessions j ≡ taken_pos)
        × (find_free_pos s
            ≡ returned (record s { free_sessions = update s.free_sessions k taken_pos }, pos k)))
      ⊎ (((j : ℕ) → j < 10 → s.free_sessions j ≡ taken_pos)
          × (find_free_pos s ≡ returned (record s { global_locked = true }, minus_one)))
unfolding find_free_pos take_position
find_free_pos_lem s unlocked =
    let lock : find_free_pos s ≡ take_position s =
      ap (λ o. o >>= take_position) (lock_global_mutex-free s unlocked) in
    elim (first_free_pos-FoundPos s.free_sessions 10 0 10 refl) [
      | inl (r, all) ↦ inr (λ j below. all j (omega arith) below, lock ∙ rw (r, take_position) refl)
      | inr (k, r, lo, below, open_at, all) ↦
          inl (k, below, open_at, λ j h. all j (omega arith) h, lock ∙ rw (r, take_position) refl)
    ]
