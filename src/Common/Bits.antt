-- ===== src/Common/Bits.antt =====
-- Bit operations of native words as arithmetic: tables over one byte, and the split of a word into
-- its lowest byte and the rest.
use Prim.Native.Nat.{
  min, max, digits, bitwise, bit_and, bit_or, bit_xor, bit_and-bitwise, bit_or-bitwise,
  bit_xor-bitwise, differ,
}
use native.Mathlib.Nat.{le_refl, pow-suc}
use pg2json.Common.{
  ℕ, zero, suc, ◌+◌, ◌*◌, ◌/◌, ◌%◌, ◌≤◌, ◌<◌, ◌≡◌, refl, sym, ap, ◌∙◌, ◌^◌, Bool, true, false,
  if◌then◌else◌, arith,
}

-- A finite table as a test: `p` holds of each number below a bound.
unfoldable pub all_below : ℕ → (ℕ → Bool) → Bool
all_below zero p = true
all_below (suc top) p = if p top then all_below top p else false

-- A table that passes holds at each of its entries.
pub all_below_sound : (n : ℕ) (p : ℕ → Bool) (x : ℕ) → all_below n p ≡ true → x < n → p x ≡ true
unfolding all_below
all_below_sound zero p x passes below = absurd (omega arith)
all_below_sound (suc top) p x passes below = ground (arith, all_below_sound top p x)

-- A native operation `op` is a recursion on binary digits that runs on as much fuel as its first
-- argument; `low` says that its result on a zero has the same digits. Below, its one-digit equation.
module _ (z : ℕ → ℕ) (f : ℕ → ℕ → ℕ) (op : ℕ → ℕ → ℕ) (means : (a b : ℕ) → op a b ≡ bitwise z f a b)
    (low : (b : ℕ) → z b ≡ z (b / 2) * 2 + f 0 (b % 2)) where
  spare_fuel : (n k a b : ℕ) → k ≤ n → a ≤ k → digits z f k a b ≡ digits z f a a b
  spare_fuel n zero zero b h g = refl
  spare_fuel n zero (suc a) b h g = absurd (omega arith)
  spare_fuel n (suc k) zero b h g = refl
  spare_fuel zero (suc k) (suc a) b h g = absurd (omega arith)
  spare_fuel (suc n) (suc k) (suc a) b h g =
      let half = suc a / 2 in
      let more = spare_fuel n k half (b / 2) (omega arith) (omega arith) in
      let less = spare_fuel n a half (b / 2) (omega arith) (omega arith) in
      ap (λ (t : ℕ). t * 2 + f (suc a % 2) (b % 2)) (more ∙ sym less)

  digit_step : (a b : ℕ) → op a b ≡ op (a / 2) (b / 2) * 2 + f (a % 2) (b % 2)
  digit_step zero b = rw (means 0 b, means 0 (b / 2)) (low b)
  digit_step (suc a) b =
      let enough = spare_fuel a a (suc a / 2) (b / 2) (le_refl a) (omega arith) in
      rw (means (suc a) b, means (suc a / 2) (b / 2))
        (ap (λ (t : ℕ). t * 2 + f (suc a % 2) (b % 2)) enough)

bit_and_step : (a b : ℕ) → bit_and a b ≡ bit_and (a / 2) (b / 2) * 2 + min (a % 2) (b % 2)
bit_and_step = digit_step (λ y. 0) min bit_and bit_and-bitwise (λ b. omega arith)

bit_or_step : (a b : ℕ) → bit_or a b ≡ bit_or (a / 2) (b / 2) * 2 + max (a % 2) (b % 2)
bit_or_step = digit_step (λ y. y) max bit_or bit_or-bitwise (λ b. omega arith)

bit_xor_step : (a b : ℕ) → bit_xor a b ≡ bit_xor (a / 2) (b / 2) * 2 + differ (a % 2) (b % 2)
bit_xor_step = digit_step (λ y. y) differ bit_xor bit_xor-bitwise (λ b. omega arith)

shifted_once : (k q : ℕ) → q * 2 ^ suc k ≡ q * 2 ^ k * 2
shifted_once k q = rw (pow-suc 2 k) (omega arith)

-- An operation that goes digit by digit goes field by field.
module _ (op g : ℕ → ℕ → ℕ) (base : op 0 0 ≡ 0)
    (step : (a b : ℕ) → op a b ≡ op (a / 2) (b / 2) * 2 + g (a % 2) (b % 2)) where
  fields :
      (k a b x y : ℕ)
      → x < 2 ^ k
      → y < 2 ^ k
      → op (a * 2 ^ k + x) (b * 2 ^ k + y) ≡ op a b * 2 ^ k + op x y
  fields zero a b x y hx hy = ground (arith, base)
  fields (suc k) a b x y hx hy = ground (
    arith,
    step (a * 2 ^ suc k + x) (b * 2 ^ suc k + y),
    step x y,
    shifted_once k a,
    shifted_once k b,
    shifted_once k (op a b),
    pow-suc 2 k,
    fields k a b (x / 2) (y / 2) (omega arith) (omega arith),
  )

-- The lowest byte of a word, apart from the others.
pub bit_and_byte :
    (x y a b : ℕ)
    → x < 256
    → y < 256
    → bit_and (x + 256 * a) (y + 256 * b) ≡ bit_and x y + 256 * bit_and a b
bit_and_byte x y a b hx hy = ground (arith, fields bit_and min refl bit_and_step 8 a b x y hx hy)

pub bit_xor_byte :
    (x y a b : ℕ)
    → x < 256
    → y < 256
    → bit_xor (x + 256 * a) (y + 256 * b) ≡ bit_xor x y + 256 * bit_xor a b
bit_xor_byte x y a b hx hy = ground (arith, fields bit_xor differ refl bit_xor_step 8 a b x y hx hy)

bit_or-eq-zero_fuel : (n a b : ℕ) → a ≤ n → b ≤ n → bit_or a b ≡ 0 → (a ≡ 0) × (b ≡ 0)
bit_or-eq-zero_fuel zero a b p q h = omega arith
bit_or-eq-zero_fuel (suc n) a b p q h =
    let e : bit_or (a / 2) (b / 2) ≡ 0 = omega (arith, bit_or_step a b) in
    let (ea, eb) = bit_or-eq-zero_fuel n (a / 2) (b / 2) (omega arith) (omega arith) e in
    omega (arith, bit_or_step a b, ea, eb)

-- A union of bits is empty only if both sides are.
pub bit_or-eq-zero : (a b : ℕ) → bit_or a b ≡ 0 → (a ≡ 0) × (b ≡ 0)
bit_or-eq-zero a b = bit_or-eq-zero_fuel (a + b) a b (omega arith) (omega arith)

bit_and-le_fuel : (n a b : ℕ) → a ≤ n → bit_and a b ≤ a
bit_and-le_fuel zero zero b p = omega (arith, bit_and_step 0 b, bit_and-bitwise 0 b)
bit_and-le_fuel zero (suc a) b p = absurd (omega arith)
bit_and-le_fuel (suc n) zero b p = bit_and-le_fuel n zero b (omega arith)
bit_and-le_fuel (suc n) (suc a) b p =
    omega (arith, bit_and_step (suc a) b, bit_and-le_fuel n (suc a / 2) (b / 2) (omega arith))

pub bit_and-le : (a b : ℕ) → bit_and a b ≤ a
bit_and-le a b = bit_and-le_fuel a a b (le_refl a)

differ_twice : (x y : ℕ) → x < 2 → y < 2 → differ (differ x y) y ≡ x
differ_twice zero zero p q = refl
differ_twice zero (suc zero) p q = refl
differ_twice zero (suc (suc y)) p q = absurd (omega arith)
differ_twice (suc zero) zero p q = refl
differ_twice (suc zero) (suc zero) p q = refl
differ_twice (suc zero) (suc (suc y)) p q = absurd (omega arith)
differ_twice (suc (suc x)) y p q = absurd (omega arith)

differ_digit : (x y : ℕ) → x < 2 → y < 2 → differ x y < 2
differ_digit zero zero p q = omega arith
differ_digit zero (suc zero) p q = omega arith
differ_digit zero (suc (suc y)) p q = absurd (omega arith)
differ_digit (suc zero) zero p q = omega arith
differ_digit (suc zero) (suc zero) p q = omega arith
differ_digit (suc zero) (suc (suc y)) p q = absurd (omega arith)
differ_digit (suc (suc x)) y p q = absurd (omega arith)

bit_xor-cancel_fuel : (n a b : ℕ) → a ≤ n → b ≤ n → bit_xor (bit_xor a b) b ≡ a
bit_xor-cancel_fuel zero zero zero p q = refl
bit_xor-cancel_fuel zero (suc a) b p q = absurd (omega arith)
bit_xor-cancel_fuel zero zero (suc b) p q = absurd (omega arith)
bit_xor-cancel_fuel (suc n) a b p q =
    let ih = bit_xor-cancel_fuel n (a / 2) (b / 2) (omega arith) (omega arith) in
    let d = differ (a % 2) (b % 2) in
    let small = differ_digit (a % 2) (b % 2) (omega arith) (omega arith) in
    let front : bit_xor a b / 2 ≡ bit_xor (a / 2) (b / 2) =
      omega (arith, bit_xor_step a b, small) in
    let last : bit_xor a b % 2 ≡ d = omega (arith, bit_xor_step a b, small) in
    let step = bit_xor_step (bit_xor a b) b in
    let step' : bit_xor (bit_xor a b) b
        ≡ bit_xor (bit_xor (a / 2) (b / 2)) (b / 2) * 2 + differ d (b % 2) =
      rw (front, last) at step in
    omega (arith, step', ih, differ_twice (a % 2) (b % 2) (omega arith) (omega arith))

-- A mask that is applied twice is gone.
pub bit_xor-cancel : (a b : ℕ) → bit_xor (bit_xor a b) b ≡ a
bit_xor-cancel a b = bit_xor-cancel_fuel (a + b) a b (omega arith) (omega arith)
