-- ===== src/JsonWriter/Swar/Below.antt =====
-- The test for bytes below a bound in the words of escape_swar.go, at every number of bytes.
use Prim.Native.Nat.{bit_and}
use native.Mathlib.Nat.{add-mod_right, mod-eq_of_lt}
use pg2json.Common.{
  ℕ, zero, suc, ◌+◌, ◌-◌, ◌*◌, ◌%◌, ◌≤◌, ◌<◌, ◌≡◌, refl, [], ◌∷◌, Bytes, length, All, IsByte, arith,
  leb, if◌then◌else◌, Bool-cases, inl, inr,
}
use pg2json.Common.Bits.{bit_and-le, bit_and_byte}
use pg2json.JsonWriter.Swar.{below_bits, le_value}

-- A word of `k` bytes that are all `c`, and the number of such words.
unfoldable pub repeat : ℕ → ℕ → ℕ
repeat zero c = 0
repeat (suc k) c = c + 256 * repeat k c

unfoldable pub size : ℕ → ℕ
size zero = 1
size (suc k) = 256 * size k

-- The same test on words of `k` bytes.
unfoldable pub below : ℕ → ℕ → ℕ → ℕ
below k x n =
    bit_and (bit_and ((x + size k - repeat k n) % size k) (size k - 1 - x)) (repeat k 0x80)

below-below_bits : (x : ℕ) (n : ℕ) → below_bits x (repeat 8 n) ≡ below 8 x n
unfolding below size repeat
below-below_bits x n = refl

repeat-lt : (k n : ℕ) → n < 256 → repeat k n < size k
unfolding repeat size
repeat-lt zero n h = omega arith
repeat-lt (suc k) n h = omega (arith, repeat-lt k n h)

sub_wraps : (w x c : ℕ) → x < w → c < w → (x + w - c) % w ≡ (if leb c x then x - c else x + w - c)
sub_wraps w x c hx hc = ground (
  arith,
  add-mod_right (x - c) w,
  mod-eq_of_lt {n = x - c} {m = w},
  mod-eq_of_lt {n = x + w - c} {m = w},
)

-- The lowest byte of `x - c`, with and without a borrow from the next one.
sub_low :
    (k b r n : ℕ)
    → b < 256
    → n < 256
    → n ≤ b
    → r < size k
    → (b + 256 * r + size (suc k) - repeat (suc k) n) % size (suc k)
      ≡ (b - n) + 256 * ((r + size k - repeat k n) % size k)
unfolding size repeat
sub_low k b r n hb hn le hr = ground (
  arith,
  repeat-lt k n hn,
  sub_wraps (size k) r (repeat k n) hr,
  sub_wraps (256 * size k) (b + 256 * r) (n + 256 * repeat k n) (omega arith),
)

sub_borrow :
    (k b r n : ℕ)
    → n < 256
    → b < n
    → r < size k
    → (h : ℕ) × ((b + 256 * r + size (suc k) - repeat (suc k) n) % size (suc k)
        ≡ (b + 256 - n) + 256 * h)
unfolding size repeat
sub_borrow k b r n hn lt hr = (
  if leb (suc (repeat k n)) r then r - suc (repeat k n) else r + size k - suc (repeat k n),
  ground (
    arith,
    repeat-lt k n hn,
    sub_wraps (256 * size k) (b + 256 * r) (n + 256 * repeat k n) (omega arith),
  ),
)

complement :
    (k b r : ℕ)
    → b < 256
    → r < size k
    → size (suc k) - 1 - (b + 256 * r) ≡ (255 - b) + 256 * (size k - 1 - r)
unfolding size
complement k b r hb hr = omega arith

-- The whole test on a word, once its difference is taken apart.
below_split :
    (k b r x y : ℕ)
    → b < 256
    → r < size k
    → x < 256
    → bit_and (bit_and (x + 256 * y) (size (suc k) - 1 - (b + 256 * r))) (repeat (suc k) 0x80)
      ≡ bit_and (bit_and x (255 - b)) 0x80
        + 256 * bit_and (bit_and y (size k - 1 - r)) (repeat k 0x80)
unfolding repeat
below_split k b r x y hb hr hx =
    rw (complement k b r hb hr, bit_and_byte x (255 - b) y (size k - 1 - r) hx (omega arith))
      (bit_and_byte (bit_and x (255 - b)) 0x80 (bit_and y (size k - 1 - r)) (repeat k 0x80)
        (omega (arith, bit_and-le x (255 - b))) (omega arith))

-- A byte below `n` lights its bit; otherwise the test goes on with the rest of the word.
below_step :
    (n : ℕ)
    → n < 256
    → ((b : ℕ) → b < n → bit_and (bit_and (b + 256 - n) (255 - b)) 0x80 ≡ 128)
    → (k b r : ℕ) → b < 256
    → r < size k
    → below (suc k) (b + 256 * r) n ≡ 0
    → (n ≤ b) × (below k r n ≡ 0)
unfolding below
below_step n hn lit k b r hb hr e = elim (Bool-cases (leb n b)) [
  | inl le ↦
      let le' : n ≤ b = ground arith in
      (
        le',
        omega (
          arith,
          rw
              (
                sub_low k b r n hb hn le' hr,
                below_split k b r (b - n) ((r + size k - repeat k n) % size k) hb hr (omega arith),
              )
              at e,
        ),
      )
  | inr gt ↦
      let lt : b < n = ground arith in
      let (h, low) = sub_borrow k b r n hn lt hr in
      absurd (
        omega
          (arith, lit b lt, rw (low, below_split k b r (b + 256 - n) h hb hr (omega arith)) at e))
]

le_value-lt : (bs : Bytes) → All IsByte bs → le_value bs < size (length bs)
unfolding le_value size
le_value-lt [] h = omega arith
le_value-lt (b ∷ bs) (hb, hs) = omega (arith, le_value-lt bs hs)

-- A word that passes the test has no byte below `n`.
pub below-All :
    (n : ℕ)
    → n < 256
    → ((b : ℕ) → b < n → bit_and (bit_and (b + 256 - n) (255 - b)) 0x80 ≡ 128)
    → (bs : Bytes) → All IsByte bs
    → below (length bs) (le_value bs) n ≡ 0
    → All (λ b. n ≤ b) bs
unfolding le_value
below-All n hn lit [] h e = tt
below-All n hn lit (b ∷ bs) (hb, hs) e =
    let (le, rest) = below_step n hn lit (length bs) b (le_value bs) hb (le_value-lt bs hs) e in
    (le, below-All n hn lit bs hs rest)
