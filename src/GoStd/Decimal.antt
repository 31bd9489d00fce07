-- ===== src/GoStd/Decimal.antt =====
-- `strconv.AppendInt(dst, v, 10)`, and the number that decimal digits spell.
use pg2json.Common.{
  ℕ, zero, suc, ◌+◌, ◌-◌, ◌*◌, ◌/◌, ◌%◌, ◌≤◌, ◌<◌, ◌≡◌, refl, [], ◌∷◌, ◌++◌, arith, Bytes, codes,
  All, All-append, ltb, if◌then◌else◌, Bool-cases, inl, inr,
}
use pg2json.Common.Int.{ℤ, pos, negsuc}

decimal_loop : ℕ → ℕ → Bytes
decimal_loop zero n = (b'0' + n) ∷ []
decimal_loop (suc fuel) n =
    let front = decimal_loop fuel (n / 10) in
    if ltb n 10 then (b'0' + n) ∷ [] else front ++ (b'0' + n % 10) ∷ []

-- The decimal digits of a number. The fuel is the number itself, which is more than it has digits.
unfoldable pub decimal : ℕ → Bytes
unfolding decimal_loop
decimal n = decimal_loop n n

-- `strconv.AppendInt(dst, v, 10)`
unfoldable pub append_int : Bytes → ℤ → Bytes
append_int dst (pos n) = dst ++ decimal n
append_int dst (negsuc n) = dst ++ b'-' ∷ decimal (suc n)

abbrev pub IsDigit : ℕ → Type 0
IsDigit c = (b'0' ≤ c) × (c ≤ b'9')

-- The number that digits spell behind `n`.
unfoldable pub value : ℕ → Bytes → ℕ
value n [] = n
value n (c ∷ s) = value (n * 10 + (c - b'0')) s

value-append : (n : ℕ) (s t : Bytes) → value n (s ++ t) ≡ value (value n s) t
unfolding value
value-append n [] t = refl
value-append n (c ∷ s) t = value-append (n * 10 + (c - b'0')) s t

value-decimal_loop : (fuel n : ℕ) → n ≤ fuel → value 0 (decimal_loop fuel n) ≡ n
unfolding decimal_loop value
value-decimal_loop zero n h = omega arith
value-decimal_loop (suc fuel) n h = ground (
  arith,
  value-append 0 (decimal_loop fuel (n / 10)) ((b'0' + n % 10) ∷ []),
  value-decimal_loop fuel (n / 10) (omega arith),
)

-- The digits spell the number.
pub value-decimal : (n : ℕ) → value 0 (decimal n) ≡ n
unfolding decimal
value-decimal n = value-decimal_loop n n (omega arith)

-- Digits without a needless leading zero, as JSON wants them.
abbrev pub IsNatural : Bytes → Type 0
IsNatural [] = ⊥
IsNatural (c ∷ []) = IsDigit c
IsNatural (c ∷ d ∷ s) = (b'1' ≤ c) × (c ≤ b'9') × All IsDigit (d ∷ s)

IsNatural-append :
    (s : Bytes) (c : ℕ) → IsNatural s → 0 < value 0 s → IsDigit c → IsNatural (s ++ c ∷ [])
unfolding value
IsNatural-append [] c h v d = absurd h
IsNatural-append (a ∷ []) c h v d = omega arith
IsNatural-append (a ∷ b ∷ s) c (lo, hi, ds) v d =
    (lo, hi, (ds.0, All-append IsDigit s (c ∷ []) ds.1 (d, tt)))

decimal_loop-IsNatural : (fuel n : ℕ) → n ≤ fuel → IsNatural (decimal_loop fuel n)
unfolding decimal_loop
decimal_loop-IsNatural zero n h = omega arith
decimal_loop-IsNatural (suc fuel) n h = elim (Bool-cases (ltb n 10)) [
  | inl small ↦ rw small (ground arith)
  | inr big ↦ rw big (
      IsNatural-append (decimal_loop fuel (n / 10)) (b'0' + n % 10)
        (decimal_loop-IsNatural fuel (n / 10) (omega arith))
        (rw (value-decimal_loop fuel (n / 10) (omega arith)) (ground arith)) (omega arith))
]

pub decimal-IsNatural : (n : ℕ) → IsNatural (decimal n)
unfolding decimal
decimal-IsNatural n = decimal_loop-IsNatural n n (omega arith)

pub append_int-append : (dst : Bytes) (z : ℤ) → append_int dst z ≡ dst ++ append_int [] z
unfolding append_int
append_int-append dst (pos n) = refl
append_int-append dst (negsuc n) = refl

decimal_runs : append_int [] (negsuc 9223372036854775807) ≡ codes "-9223372036854775808"
unfolding append_int decimal
decimal_runs = refl
