-- ===== src/Types/Text/Integers.antt =====
-- Which cells the encoder of integers passes on as they are.
use pg2json.Common.{
  ℕ, ◌≡◌, ◌↔◌, refl, true, inl, inr, [], ◌∷◌, ◌++◌, arith, Bytes, All, ◌==◌, Bool-cases,
}
use pg2json.GoStd.Decimal.{IsDigit}
use pg2json.Json.{IsSign, IsDigits}
use pg2json.Types.Text.{is_sign, all_digits, some_digits, valid_int}

all_digits-All : (s : Bytes) → all_digits s ≡ true → All IsDigit s
unfolding all_digits
all_digits-All [] h = tt
all_digits-All (c ∷ s) h = (ground arith, all_digits-All s (ground arith))

All-all_digits : (s : Bytes) → All IsDigit s → all_digits s ≡ true
unfolding all_digits
All-all_digits [] h = refl
All-all_digits (c ∷ s) (hc, hs) = ground (arith, All-all_digits s hs)

-- An optional sign and one or more digits.
pub record IsIntText (s : Bytes) : Type 0 where
  pub sign : Bytes
  pub digits : Bytes
  pub sign_ok : IsSign sign
  pub digits_ok : IsDigits digits
  pub whole : s ≡ sign ++ digits

pub is_sign-IsSign : (c : ℕ) → is_sign c ≡ true → IsSign (c ∷ [])
is_sign-IsSign c h = elim (Bool-cases (c == b'-')) [
  | inl minus ↦ inr (inl (ground arith))
  | inr other ↦ inr (inr (ground arith))
]

some_digits-IsDigits : (s : Bytes) → some_digits s ≡ true → IsDigits s
some_digits-IsDigits [] h = cc
some_digits-IsDigits (c ∷ s) h = all_digits-All (c ∷ s) h

pub valid_int-IsIntText : (s : Bytes) → valid_int s ≡ true → IsIntText s
unfolding valid_int
valid_int-IsIntText [] h = cc
valid_int-IsIntText (c ∷ s) h = elim (Bool-cases (is_sign c)) [
  | inl sign ↦ record {
    sign = c ∷ [];
    digits = s;
    sign_ok = is_sign-IsSign c sign;
    digits_ok = some_digits-IsDigits s (rw sign at h);
    whole = refl;
  }
  | inr plain ↦ record {
    sign = [];
    digits = c ∷ s;
    sign_ok = inl refl;
    digits_ok = all_digits-All (c ∷ s) (rw plain at h);
    whole = refl;
  }
]

pub valid_int_signed : (sign ds : Bytes) → IsSign sign → IsDigits ds → valid_int (sign ++ ds) ≡ true
unfolding valid_int
valid_int_signed sign [] k h = absurd h
valid_int_signed sign (d ∷ ds) (inl e) h = rw e (ground (arith, All-all_digits (d ∷ ds) h))
valid_int_signed sign (d ∷ ds) (inr (inl e)) h = rw e (All-all_digits (d ∷ ds) h)
valid_int_signed sign (d ∷ ds) (inr (inr e)) h = rw e (All-all_digits (d ∷ ds) h)

-- The validation of integers accepts an optional sign before one or more digits, and nothing else.
pub valid_int_iff : (s : Bytes) → (valid_int s ≡ true) ↔ IsIntText s
valid_int_iff s = (
  valid_int-IsIntText s,
  λ t. rw (t.whole) (valid_int_signed t.sign t.digits t.sign_ok t.digits_ok),
)
