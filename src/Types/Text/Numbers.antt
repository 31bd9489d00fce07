-- ===== src/Types/Text/Numbers.antt =====
-- Which cells the encoders of floats and numerics pass on as they are.
use pg2json.Common.{
  ℕ, ◌+◌, ◌-◌, ◌<◌, ◌≡◌, ◌⊎◌, ◌↔◌, refl, ap, ◌∙◌, Bool, true, false, not, inl, inr, ◌&&◌, ◌||◌, [],
  ◌∷◌, ◌++◌, arith, Bytes, All, ◌==◌, length, length-append, if◌then◌else◌, Bool-cases,
}
use pg2json.GoStd.Decimal.{IsDigit}
use pg2json.Json.{IsSign, IsExponent, absent, power}
use pg2json.Types.Text.{is_digit, is_sign, valid_int, valid_exponent, float_loop, valid_float}
use pg2json.Types.Text.Integers.{is_sign-IsSign, valid_int-IsIntText, valid_int_signed}

-- The end of an exponent is validated like an integer.
valid_exponent-valid_int : (s : Bytes) → valid_exponent s ≡ valid_int s
unfolding valid_exponent valid_int
valid_exponent-valid_int [] = refl
valid_exponent-valid_int (c ∷ s) = refl

-- A point and the digits behind it, which may be missing.
pub data IsFractionText (s : Bytes) : Type 0 where
  no_point : s ≡ [] → IsFractionText s
  point : (ds : Bytes) → All IsDigit ds → s ≡ b'.' ∷ ds → IsFractionText s

-- Digits with a point somewhere among them and an exponent behind them; sign and digits apart from
-- one, on either side of the point, may be missing.
pub record IsFloatTail (s : Bytes) : Type 0 where
  pub int : Bytes
  pub frac : Bytes
  pub exp : Bytes
  pub int_ok : All IsDigit int
  pub frac_ok : IsFractionText frac
  pub exp_ok : IsExponent exp
  pub whole : s ≡ int ++ (frac ++ exp)

pub record IsFloatText (s : Bytes) : Type 0 where
  pub sign : Bytes
  pub rest : Bytes
  pub tail : IsFloatTail rest
  pub sign_ok : IsSign sign
  pub some_digit : 0 < length tail.int + (length tail.frac - 1)
  pub whole : s ≡ sign ++ rest

-- What the loop accepts in each of its states: `d` and `p` say whether it has seen a digit and a
-- point.
Tail : Bool → Bool → Bytes → Type 0
Tail d p s =
    (t : IsFloatTail s) × ((d ≡ true) ⊎ (0 < length t.int + (length t.frac - 1)))
    × ((p ≡ true) → t.frac ≡ [])

Tail-end : (p : Bool) → Tail true p []
unfolding Tail
Tail-end p = (
  record {
    int = [];
    frac = [];
    exp = [];
    int_ok = tt;
    frac_ok = no_point refl;
    exp_ok = absent refl;
    whole = refl;
  },
  inl refl,
  λ _. refl,
)

Tail-digit : (d p : Bool) (c : ℕ) (s : Bytes) → IsDigit c → Tail true p s → Tail d p (c ∷ s)
unfolding Tail
Tail-digit d p c s hc (t, seen, pt) = (
  record {
    int = c ∷ t.int;
    frac = t.frac;
    exp = t.exp;
    int_ok = (hc, t.int_ok);
    frac_ok = t.frac_ok;
    exp_ok = t.exp_ok;
    whole = ap (λ (r : Bytes). c ∷ r) t.whole;
  },
  inr (omega arith),
  pt,
)

Tail-point : (d : Bool) (s : Bytes) → Tail d true s → Tail d false (b'.' ∷ s)
unfolding Tail
Tail-point d s (t, seen, pt) = (
  record {
    int = [];
    frac = b'.' ∷ t.int;
    exp = t.exp;
    int_ok = tt;
    frac_ok = point t.int t.int_ok refl;
    exp_ok = t.exp_ok;
    whole = ap (λ (r : Bytes). b'.' ∷ r) (t.whole ∙ rw (pt refl));
  },
  elim seen [ inl e ↦ inl e | inr lt ↦ inr (omega (arith, ap length (pt refl))) ],
  λ e. cc,
)

Tail-exponent :
    (p : Bool) (c : ℕ) (s : Bytes)
    → (c ≡ b'e') ⊎ (c ≡ b'E')
    → valid_exponent s ≡ true
    → Tail true p (c ∷ s)
unfolding Tail
Tail-exponent p c s hc h =
    let t = valid_int-IsIntText s (rw valid_exponent-valid_int at h) in
    (
      record {
        int = [];
        frac = [];
        exp = c ∷ s;
        int_ok = tt;
        frac_ok = no_point refl;
        exp_ok =
            power c t.sign t.digits hc t.sign_ok t.digits_ok (ap (λ (r : Bytes). c ∷ r) t.whole);
        whole = refl;
      },
      inl refl,
      λ _. refl,
    )

letter : {c : ℕ} → (c == b'e' || c == b'E') ≡ true → (c ≡ b'e') ⊎ (c ≡ b'E')
letter h = ground arith

float_loop-Tail : (d p : Bool) (s : Bytes) → float_loop d p s ≡ true → Tail d p s
unfolding float_loop
float_loop-Tail d p [] h = rw h (Tail-end p)
float_loop-Tail d p (c ∷ s) h = elim (Bool-cases (is_digit c)) [
  | inl digit ↦
      Tail-digit d p c s (ground arith) (float_loop-Tail true p s (rw (digit, float_loop) at h))
  | inr other ↦ elim (Bool-cases (c == b'.' && not p)) [
    | inl dot ↦
        let at : c ≡ b'.' = ground arith in
        let first : p ≡ false = ground arith in
        rw (at, first)
          (Tail-point d s (float_loop-Tail d true s (rw (other, dot, float_loop) at h)))
    | inr no_dot ↦ exponent (rw (other, no_dot, float_loop) at h)
  ]
]
  where
    test : Bool
    test = (c == b'e' || c == b'E') && d && not (length s == 0)

    exponent : (if test then valid_exponent s else false) ≡ true → Tail d p (c ∷ s)
    exponent h = elim (Bool-cases test) [
      | inl passed ↦
          let seen : d ≡ true = ground arith in
          rw seen (Tail-exponent p c s (letter (ground arith)) (ground arith))
      | inr stop ↦ absurd (ground arith)
    ]

-- The other way round: the loop on digits, on a fraction and on an exponent.
float_loop-exp : (p : Bool) (s : Bytes) → IsExponent s → float_loop true p s ≡ true
unfolding float_loop
float_loop-exp p s (absent e) = rw e
float_loop-exp p s (power c sign [] hc hs hd e) = absurd hd
float_loop-exp p s (power c sign (d ∷ ds) hc hs hd e) = rw e (
    ground (
      arith,
      valid_exponent-valid_int (sign ++ d ∷ ds),
      valid_int_signed sign (d ∷ ds) hs hd,
      length-append sign (d ∷ ds),
    ))

float_loop-digits :
    (d p : Bool) (ds s : Bytes)
    → All IsDigit ds
    → 0 < length ds
    → float_loop d p (ds ++ s) ≡ float_loop true p s
unfolding float_loop
float_loop-digits d p [] s h n = absurd (omega arith)
float_loop-digits d p (c ∷ []) s h n = ground arith
float_loop-digits d p (c ∷ e ∷ ds) s h n = ground (arith, float_loop-digits true p (e ∷ ds) s h.1)

float_loop_point : (d : Bool) (s : Bytes) → float_loop d false (b'.' ∷ s) ≡ float_loop d true s
unfolding float_loop
float_loop_point d s = refl

float_loop-frac :
    (d : Bool) (frac exp : Bytes)
    → IsFractionText frac
    → IsExponent exp
    → (d ≡ true) ⊎ (0 < length frac - 1)
    → float_loop d false (frac ++ exp) ≡ true
float_loop-frac d frac exp (no_point e) he (inl seen) = rw (e, seen) (float_loop-exp false exp he)
float_loop-frac d frac exp (no_point e) he (inr lt) = absurd (omega (arith, ap length e))
float_loop-frac d frac exp (point [] h e) he (inl seen) =
    rw (e, seen) (float_loop_point true exp ∙ float_loop-exp true exp he)
float_loop-frac d frac exp (point [] h e) he (inr lt) = absurd (omega (arith, ap length e))
float_loop-frac d frac exp (point (c ∷ ds) h e) he _ = rw e (
    float_loop_point d ((c ∷ ds) ++ exp)
    ∙ float_loop-digits d true (c ∷ ds) exp h (omega arith)
    ∙ float_loop-exp true exp he)

float_loop_complete :
    (s : Bytes) (t : IsFloatTail s)
    → 0 < length t.int + (length t.frac - 1)
    → float_loop false false s ≡ true
float_loop_complete s t seen = rw (t.whole) (go t.int t.int_ok seen)
  where
    go :
        (int : Bytes)
        → All IsDigit int
        → 0 < length int + (length t.frac - 1)
        → float_loop false false (int ++ (t.frac ++ t.exp)) ≡ true
    go [] h n = float_loop-frac false t.frac t.exp t.frac_ok t.exp_ok (inr (omega arith))
    go (c ∷ int) h n =
        float_loop-digits false false (c ∷ int) (t.frac ++ t.exp) h (omega arith)
        ∙ float_loop-frac true t.frac t.exp t.frac_ok t.exp_ok (inl refl)

-- A text that the loop accepts begins with no sign.
valid_float_unsigned : (s : Bytes) → float_loop false false s ≡ true → valid_float s ≡ true
unfolding valid_float float_loop
valid_float_unsigned [] h = h
valid_float_unsigned (c ∷ s) h = ground arith

valid_float_signed :
    (sign s : Bytes)
    → IsSign sign
    → float_loop false false s ≡ true
    → valid_float (sign ++ s) ≡ true
valid_float_signed sign s (inl e) h = rw e (valid_float_unsigned s h)
valid_float_signed sign s (inr (inl e)) h = rw e (unfold valid_float in h)
valid_float_signed sign s (inr (inr e)) h = rw e (unfold valid_float in h)

valid_float-IsFloatText : (s : Bytes) → valid_float s ≡ true → IsFloatText s
unfolding valid_float Tail
valid_float-IsFloatText [] h = cc
valid_float-IsFloatText (c ∷ s) h = elim (Bool-cases (is_sign c)) [
  | inl sign ↦
      let (t, seen, _) = float_loop-Tail false false s (rw sign at h) in
      record {
        sign = c ∷ [];
        rest = s;
        tail = t;
        sign_ok = is_sign-IsSign c sign;
        some_digit = elim seen [ inl e ↦ cc | inr lt ↦ lt ];
        whole = refl;
      }
  | inr plain ↦
      let (t, seen, _) = float_loop-Tail false false (c ∷ s) (rw plain at h) in
      record {
        sign = [];
        rest = c ∷ s;
        tail = t;
        sign_ok = inl refl;
        some_digit = elim seen [ inl e ↦ cc | inr lt ↦ lt ];
        whole = refl;
      }
]

-- The validation of floats and numerics accepts an optional sign, digits of which a point may stand
-- before, between or behind, with at least one digit, and an optional exponent; and nothing else.
pub valid_float_iff : (s : Bytes) → (valid_float s ≡ true) ↔ IsFloatText s
valid_float_iff s = (
  valid_float-IsFloatText s,
  λ t.
      rw (t.whole) (
        valid_float_signed t.sign t.rest t.sign_ok
          (float_loop_complete t.rest t.tail t.some_digit)),
)
