-- ===== src/Memory/Laws.antt =====
-- How reads of memory see writes, and what a comparison with a copied name says.
use server_client.Common.{
  ℕ, zero, suc, ◌+◌, ◌-◌, ◌*◌, ◌/◌, ◌%◌, ◌≤◌, ◌<◌, ◌≡◌, refl, ap, ◌∙◌, ◌⊎◌, inl, inr, true, List,
  [], ◌∷◌, ltb, length, get_or, take, drop, pos, negsuc, arith, Bool-cases,
}
use server_client.Memory.{Memory, load, store, read_int, write_int}

pub load_ext :
    (f g : Memory) (a n : ℕ) → ((p : ℕ) → a ≤ p → p < a + n → f p ≡ g p) → load f a n ≡ load g a n
unfolding load
load_ext f g a zero h = refl
load_ext f g a (suc n) h =
    let head = h a (omega arith) (omega arith) in
    let rest = load_ext f g (a + 1) n (λ p lo hi. h p (omega arith) (omega arith)) in
    cc (head, rest)

pub length-load : (m : Memory) (a n : ℕ) → length (load m a n) ≡ n
unfolding load
length-load m a zero = refl
length-load m a (suc n) = ap suc (length-load m (a + 1) n)

-- A write outside the range that is read is not seen.
pub store_outside :
    (m : Memory) (a : ℕ) (bytes : List ℕ) (p : ℕ)
    → (p < a) ⊎ (a + length bytes ≤ p)
    → store m a bytes p ≡ m p
unfolding store
store_outside m a bytes p (inl h) = ground arith
store_outside m a bytes p (inr h) = ground arith

pub store_inside :
    (m : Memory) (a : ℕ) (bytes : List ℕ) (p : ℕ)
    → a ≤ p
    → p < a + length bytes
    → store m a bytes p ≡ get_or bytes (p - a) 0
unfolding store
store_inside m a bytes p lo hi = ground arith

pub load-store_apart :
    (m : Memory) (a : ℕ) (bytes : List ℕ) (p n : ℕ)
    → (p + n ≤ a) ⊎ (a + length bytes ≤ p)
    → load (store m a bytes) p n ≡ load m p n
load-store_apart m a bytes p n (inl h) =
    load_ext (store m a bytes) m p n λ q lo hi. store_outside m a bytes q (inl (omega arith))
load-store_apart m a bytes p n (inr h) =
    load_ext (store m a bytes) m p n λ q lo hi. store_outside m a bytes q (inr (omega arith))

-- A file's bytes after a write of `bytes` at `k`: an independent description of `memcpy`.
unfoldable pub overwrite : ℕ → List ℕ → List ℕ → List ℕ
overwrite zero [] old = old
overwrite zero (b ∷ bytes) [] = b ∷ overwrite zero bytes []
overwrite zero (b ∷ bytes) (x ∷ old) = b ∷ overwrite zero bytes old
overwrite (suc k) bytes [] = bytes
overwrite (suc k) bytes (x ∷ old) = x ∷ overwrite k bytes old

store_step :
    (m : Memory) (a b : ℕ) (bytes : List ℕ) (p : ℕ)
    → a + 1 ≤ p
    → store m a (b ∷ bytes) p ≡ store m (a + 1) bytes p
unfolding store
store_step m a b bytes p h = let e : p - a ≡ suc (p - (a + 1)) = omega arith in rw e (ground arith)

load-store_nil : (m : Memory) (a p n : ℕ) → load (store m a []) p n ≡ load m p n
load-store_nil m a p n = load_ext (store m a []) m p n λ q lo hi. elim (Bool-cases (ltb q a)) [
  | inl less ↦ store_outside m a [] q (inl (ground arith))
  | inr more ↦ store_outside m a [] q (inr (ground arith))
]

load-store_cons :
    (m : Memory) (a b : ℕ) (bytes : List ℕ) (n : ℕ)
    → load (store m a (b ∷ bytes)) (a + 1) n ≡ load (store m (a + 1) bytes) (a + 1) n
load-store_cons m a b bytes n =
    load_ext (store m a (b ∷ bytes)) (store m (a + 1) bytes) (a + 1) n
      λ p lo hi. store_step m a b bytes p lo

pub load-store_front :
    (m : Memory) (a n total : ℕ) (bytes : List ℕ)
    → n ≤ total
    → length bytes ≤ total
    → (total ≡ n) ⊎ (total ≡ length bytes)
    → load (store m a bytes) a total ≡ overwrite zero bytes (load m a n)
unfolding load overwrite
load-store_front m a n total [] h₁ h₂ e =
    let same : total ≡ n = omega arith in rw same (load-store_nil m a a n)
load-store_front m a n zero (b ∷ bytes) h₁ h₂ e = absurd (omega arith)
load-store_front m a zero (suc total) (b ∷ bytes) h₁ h₂ e =
    let head = store_inside m a (b ∷ bytes) a (omega arith) (omega arith) in
    let none_left : a - a ≡ 0 = omega arith in
    let rest =
      load-store_front m (a + 1) zero total bytes (omega arith) (omega arith) (omega arith) in
    rw (head, none_left) (ap (◌∷◌ b) (load-store_cons m a b bytes total ∙ rest))
load-store_front m a (suc n) (suc total) (b ∷ bytes) h₁ h₂ e =
    let head = store_inside m a (b ∷ bytes) a (omega arith) (omega arith) in
    let none_left : a - a ≡ 0 = omega arith in
    let rest = load-store_front m (a + 1) n total bytes (omega arith) (omega arith) (omega arith) in
    rw (head, none_left) (ap (◌∷◌ b) (load-store_cons m a b bytes total ∙ rest))

-- A write of `bytes` at `k` inside the first `n` bytes, seen up to where it ends or up to `n`.
pub load-store :
    (m : Memory) (a c k n total : ℕ) (bytes : List ℕ)
    → c ≡ a + k
    → k ≤ n
    → n ≤ total
    → k + length bytes ≤ total
    → (total ≡ n) ⊎ (total ≡ k + length bytes)
    → load (store m c bytes) a total ≡ overwrite k bytes (load m a n)
unfolding load overwrite
load-store m a c zero n total bytes at h₁ h₂ h₃ e =
    let here : c ≡ a = omega arith in
    rw here (load-store_front m a n total bytes h₂ (omega arith) (omega arith))
load-store m a c (suc k) zero total bytes at h₁ h₂ h₃ e = absurd (omega arith)
load-store m a c (suc k) (suc n) zero bytes at h₁ h₂ h₃ e = absurd (omega arith)
load-store m a c (suc k) (suc n) (suc total) bytes at h₁ h₂ h₃ e =
    let head = store_outside m c bytes a (inl (omega arith)) in
    let rest =
      load-store m (a + 1) c k n total bytes (omega arith) (omega arith) (omega arith) (omega arith)
        (omega arith) in
    rw head (ap (◌∷◌ (m a)) rest)

-- A part of what is read.
pub load_slice :
    (m : Memory) (a c k n total : ℕ)
    → c ≡ a + k
    → k + n ≤ total
    → load m c n ≡ take n (drop k (load m a total))
unfolding load
load_slice m a c zero zero total at h = refl
load_slice m a c zero (suc n) zero at h = absurd (omega arith)
load_slice m a c zero (suc n) (suc total) at h =
    let here : c ≡ a = omega arith in
    rw here (ap (◌∷◌ (m a)) (load_slice m (a + 1) (a + 1) 0 n total (omega arith) (omega arith)))
load_slice m a c (suc k) n zero at h = absurd (omega arith)
load_slice m a c (suc k) n (suc total) at h =
    load_slice m (a + 1) c k n total (omega arith) (omega arith)

-- What was written is read back from where it was written.
pub take-drop-overwrite :
    (k n : ℕ) (bytes old : List ℕ)
    → k ≤ length old
    → n ≡ length bytes
    → take n (drop k (overwrite k bytes old)) ≡ bytes
unfolding overwrite
take-drop-overwrite zero zero [] old h e = refl
take-drop-overwrite zero (suc n) [] old h e = absurd (omega arith)
take-drop-overwrite zero zero (b ∷ bytes) old h e = absurd (omega arith)
take-drop-overwrite zero (suc n) (b ∷ bytes) [] h e =
    ap (◌∷◌ b) (take-drop-overwrite zero n bytes [] (omega arith) (omega arith))
take-drop-overwrite zero (suc n) (b ∷ bytes) (x ∷ old) h e =
    ap (◌∷◌ b) (take-drop-overwrite zero n bytes old (omega arith) (omega arith))
take-drop-overwrite (suc k) n bytes [] h e = absurd (omega arith)
take-drop-overwrite (suc k) n bytes (x ∷ old) h e =
    take-drop-overwrite k n bytes old (omega arith) e

pub read_int-store_apart :
    (m : Memory) (a : ℕ) (bytes : List ℕ) (p : ℕ)
    → (p + 4 ≤ a) ⊎ (a + length bytes ≤ p)
    → read_int (store m a bytes) p ≡ read_int m p
unfolding read_int store
read_int-store_apart m a bytes p (inl h) = ground arith
read_int-store_apart m a bytes p (inr h) = ground arith

word_stored :
    (m : Memory) (a w x y z : ℕ)
    → let m' = store m a (w ∷ x ∷ y ∷ z ∷ []) in
      (m' a ≡ w) × (m' (a + 1) ≡ x) × (m' (a + 2) ≡ y) × (m' (a + 3) ≡ z)
word_stored m a w x y z =
    let bytes = w ∷ x ∷ y ∷ z ∷ [] in
    let at₀ : a - a ≡ 0 = omega arith in
    let at₁ : a + 1 - a ≡ 1 = omega arith in
    let at₂ : a + 2 - a ≡ 2 = omega arith in
    let at₃ : a + 3 - a ≡ 3 = omega arith in
    (
      store_inside m a bytes a (omega arith) (omega arith) ∙ rw at₀,
      store_inside m a bytes (a + 1) (omega arith) (omega arith) ∙ rw at₁,
      store_inside m a bytes (a + 2) (omega arith) (omega arith) ∙ rw at₂,
      store_inside m a bytes (a + 3) (omega arith) (omega arith) ∙ rw at₃,
    )

-- An `int` in range comes back.
pub read_int-write_int :
    (m : Memory) (a n : ℕ) → n < 2147483648 → read_int (write_int m a (pos n)) a ≡ pos n
unfolding read_int write_int
read_int-write_int m a n h =
    let w = n % 4294967296 in
    let b = word_stored m a (w % 256) (w / 256 % 256) (w / 65536 % 256) (w / 16777216 % 256) in
    let whole : w % 256
          + 256 * (w / 256 % 256)
          + 65536 * (w / 65536 % 256)
          + 16777216 * (w / 16777216 % 256)
        ≡ n =
      omega arith in
    let small : ltb n 2147483648 ≡ true = ground arith in rw (b.0, b.1, b.2, b.3, whole, small)

pub read_int-write_minus_one :
    (m : Memory) (a : ℕ) → read_int (write_int m a (negsuc 0)) a ≡ negsuc 0
unfolding read_int write_int
read_int-write_minus_one m a = let b = word_stored m a 255 255 255 255 in rw (b.0, b.1, b.2, b.3)
