-- ===== src/JsonWriter/Swar/Word.antt =====
-- The word tests of escape_swar.go miss no byte that needs an escape.
use Prim.Native.Nat.{bit_and, bit_xor}
use pg2json.Common.{
  ℕ, zero, suc, ◌+◌, ◌-◌, ◌≤◌, ◌<◌, ◌≡◌, refl, ap, true, [], ◌∷◌, Bytes, length, All, IsByte, arith,
  ltb, ◌==◌, ==_iff, ◌≢◌,
}
use pg2json.Common.Bits.{all_below, all_below_sound, bit_xor_byte, bit_or-eq-zero}
use pg2json.JsonWriter.{escape_flag}
use pg2json.JsonWriter.Scalar.{IsSafe}
use pg2json.JsonWriter.Swar.{swar_has_escapable, le_value}
use pg2json.JsonWriter.Swar.Below.{repeat, size, below, below-All}

-- Bytewise exclusive or with one byte.
xor_all : ℕ → Bytes → Bytes
xor_all q [] = []
xor_all q (b ∷ bs) = bit_xor b q ∷ xor_all q bs

length-xor_all : (q : ℕ) (bs : Bytes) → length (xor_all q bs) ≡ length bs
unfolding xor_all
length-xor_all q [] = refl
length-xor_all q (b ∷ bs) = omega (arith, length-xor_all q bs)

le_value-xor_all :
    (q : ℕ)
    → q < 256
    → (bs : Bytes) → All IsByte bs
    → le_value (xor_all q bs) ≡ bit_xor (le_value bs) (repeat (length bs) q)
unfolding le_value xor_all repeat
le_value-xor_all q hq [] h = refl
le_value-xor_all q hq (b ∷ bs) (hb, hs) = omega (
  arith,
  bit_xor_byte b q (le_value bs) (repeat (length bs) q) hb hq,
  le_value-xor_all q hq bs hs,
)

xor_all-IsByte :
    (q : ℕ)
    → ((b : ℕ) → b < 256 → bit_xor b q < 256)
    → (bs : Bytes) → All IsByte bs
    → All IsByte (xor_all q bs)
unfolding xor_all
xor_all-IsByte q t [] h = tt
xor_all-IsByte q t (b ∷ bs) (hb, hs) = (t b hb, xor_all-IsByte q t bs hs)

-- A word that passes the test after the exclusive or with `q` has no byte `q`.
xor_test :
    (q : ℕ)
    → q < 256
    → bit_xor q q ≡ 0
    → ((b : ℕ) → b < 256 → bit_xor b q < 256)
    → (bs : Bytes) → All IsByte bs
    → below (length bs) (bit_xor (le_value bs) (repeat (length bs) q)) 1 ≡ 0
    → All (λ b. b ≢ q) bs
unfolding xor_all
xor_test q hq self t bs h e = unequal bs (
    below-All 1 (omega arith) lit_one (xor_all q bs) (xor_all-IsByte q t bs h)
      (rw (length-xor_all q bs, le_value-xor_all q hq bs h) e))
  where
    lit_one : (b : ℕ) → b < 1 → bit_and (bit_and (b + 256 - 1) (255 - b)) 0x80 ≡ 128
    lit_one zero lt = refl
    lit_one (suc b) lt = absurd (omega arith)

    unequal : (bs : Bytes) → All (λ b. 1 ≤ b) (xor_all q bs) → All (λ b. b ≢ q) bs
    unequal [] h = tt
    unequal (b ∷ bs) (hb, hs) =
        ((λ e. absurd (omega (arith, self, hb, ap (λ (t : ℕ). bit_xor t q) e))), unequal bs hs)

xor_quote-IsByte : (b : ℕ) → b < 256 → bit_xor b 0x22 < 256
unfolding all_below
xor_quote-IsByte b h = ground (arith, all_below_sound 256 (λ x. ltb (bit_xor x 0x22) 256) b table)
  where
    table : all_below 256 (λ x. ltb (bit_xor x 0x22) 256) ≡ true
    table = refl

xor_slash-IsByte : (b : ℕ) → b < 256 → bit_xor b 0x5C < 256
unfolding all_below
xor_slash-IsByte b h = ground (arith, all_below_sound 256 (λ x. ltb (bit_xor x 0x5C) 256) b table)
  where
    table : all_below 256 (λ x. ltb (bit_xor x 0x5C) 256) ≡ true
    table = refl

lit_ctrl : (b : ℕ) → b < 0x20 → bit_and (bit_and (b + 256 - 0x20) (255 - b)) 0x80 ≡ 128
unfolding all_below
lit_ctrl b h =
    (==_iff _ 128).0 (
      all_below_sound 0x20 (λ x. bit_and (bit_and (x + 256 - 0x20) (255 - x)) 0x80 == 128) b table
        h)
  where
    table : all_below 0x20 (λ x. bit_and (bit_and (x + 256 - 0x20) (255 - x)) 0x80 == 128) ≡ true
    table = refl

-- The three tests of a word of eight bytes, apart.
tests_apart :
    (x : ℕ)
    → swar_has_escapable x ≡ 0
    → (below 8 x 0x20 ≡ 0)
      × (below 8 (bit_xor x (repeat 8 0x22)) 1 ≡ 0)
      × (below 8 (bit_xor x (repeat 8 0x5C)) 1 ≡ 0)
unfolding swar_has_escapable below repeat size
tests_apart x e =
    let (front, slash) = bit_or-eq-zero _ _ e in
    let (ctrl, quote) = bit_or-eq-zero _ _ front in (ctrl, quote, slash)

All-IsSafe :
    (bs : Bytes)
    → All (λ b. 0x20 ≤ b) bs
    → All (λ b. b ≢ 0x22) bs
    → All (λ b. b ≢ 0x5C) bs
    → All IsSafe bs
unfolding escape_flag
All-IsSafe [] ctrl quote slash = tt
All-IsSafe (b ∷ bs) (c, cs) (q, qs) (s, ss) = (ground arith, All-IsSafe bs cs qs ss)

-- The branch-free test of eight bytes at once misses no byte that the table `escapeFlag` marks.
pub swar_has_escapable_sound :
    (bs : Bytes)
    → length bs ≡ 8
    → All IsByte bs
    → swar_has_escapable (le_value bs) ≡ 0
    → All IsSafe bs
swar_has_escapable_sound bs len h e =
    let (ctrl, quote, slash) = tests_apart (le_value bs) e in
    All-IsSafe bs (below-All 0x20 (omega arith) lit_ctrl bs h (rw len ctrl))
      (xor_test 0x22 (omega arith) refl xor_quote-IsByte bs h (rw len quote))
      (xor_test 0x5C (omega arith) refl xor_slash-IsByte bs h (rw len slash))
