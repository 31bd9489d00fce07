-- ===== src/Types/Interval/Sign.antt =====
-- The sign of an interval of less than a second, in internal/types/interval.go.
use pg2json.Common.{ℕ, suc, ◌<◌, ◌≡◌, refl, sym, ap, ◌∙◌, arith, Bytes, codes, ◌++◌, false}
use pg2json.Common.Int.{ℤ, pos, negsuc, quot, scale, ◌-ℤ◌, is_zero, abs}
use pg2json.GoStd.Decimal.{append_int}
use pg2json.Types.Interval.{append_frac6, append_interval_time, append_interval}

-- Less than a second has no hours, no minutes and no whole seconds.
small_quot :
    (n : ℕ) (z : ℤ)
    → suc n < 1000000
    → abs z ≡ suc n
    → (quot z 3600000000 ≡ pos 0) × (quot z 60000000 ≡ pos 0) × (quot z 1000000 ≡ pos 0)
small_quot n (pos m) h e = (ground arith, ground arith, ground arith)
small_quot n (negsuc m) h e = (ground arith, ground arith, ground arith)

nothing_taken :
    (z : ℤ)
    → (z -ℤ scale (pos 0) 3600000000 ≡ z)
      × (z -ℤ scale (pos 0) 60000000 ≡ z)
      × (z -ℤ scale (pos 0) 1000000 ≡ z)
nothing_taken (pos n) = (ground arith, ground arith, ground arith)
nothing_taken (negsuc n) = (ground arith, ground arith, ground arith)

append_interval_time_small :
    (n : ℕ) (z : ℤ) (dst : Bytes)
    → suc n < 1000000
    → abs z ≡ suc n
    → is_zero z ≡ false
    → append_interval_time dst z ≡ append_frac6 (append_int dst (pos 0) ++ codes ".") z ++ codes "S"
unfolding append_interval_time
append_interval_time_small n z dst h e nonzero =
    let (q₁, q₂, q₃) = small_quot n z h e in
    let (t₁, t₂, t₃) = nothing_taken z in
    rw (append_interval_time, q₁, t₁, q₂, t₂, q₃, t₃, nonzero) refl

append_frac6-negsuc :
    (n : ℕ) (dst : Bytes) → append_frac6 dst (negsuc n) ≡ append_frac6 dst (pos (suc n))
unfolding append_frac6
append_frac6-negsuc n dst = refl

-- A negative interval of less than a second is written without its sign: like the positive interval of
-- the same length, whatever its days and months are.
pub append_interval-negsuc :
    (n : ℕ) (dst : Bytes) (days months : ℤ)
    → suc n < 1000000
    → append_interval dst (negsuc n) days months ≡ append_interval dst (pos (suc n)) days months
unfolding append_interval
append_interval-negsuc n dst days months h =
    let nonzero : is_zero (pos (suc n)) ≡ false = ground arith in
    let time : (d : Bytes)
        → append_interval_time d (negsuc n) ≡ append_interval_time d (pos (suc n)) =
      λ d.
        append_interval_time_small n (negsuc n) d h refl refl
        ∙ ap (λ (t : Bytes). t ++ codes "S")
            (append_frac6-negsuc n (append_int d (pos 0) ++ codes "."))
        ∙ sym (append_interval_time_small n (pos (suc n)) d h refl nonzero) in
    rw (append_interval, nonzero, time) refl
