-- ===== src/JsonWriter/Swar/Span.antt =====
-- The two scans of a round of escape_swar.go pass over bytes that need no escape.
use pg2json.Common.{
  ℕ, zero, suc, ◌+◌, ◌≡◌, inl, inr, refl, sym, ap, subst, ◌∙◌, true, [], ◌∷◌, ◌++◌, append_assoc,
  arith, Bytes, length, length-append, take, drop, length-take, take-append-drop,
  drop-length-append, All, All-append, IsByte, leb, ◌==◌, ==_iff, Bool-cases,
}
use pg2json.JsonWriter.{escape_flag}
use pg2json.JsonWriter.Swar.{le_value, swar_has_escapable, skip_chunks, scan_safe}
use pg2json.JsonWriter.Scalar.{IsSafe}
use pg2json.JsonWriter.Swar.Word.{swar_has_escapable_sound}

-- A safe span at the front of `rest`, `i` being where it ends in the text `s` that `rest` ends.
pub record Span (rest : Bytes) (start i : ℕ) : Type 0 where
  pub span : Bytes
  pub after : Bytes
  pub parts : rest ≡ span ++ after
  pub stop : i ≡ start + length span
  pub safe : All IsSafe span

pub drop_at : (s done rest : Bytes) (i : ℕ) → s ≡ done ++ rest → i ≡ length done → drop i s ≡ rest
drop_at s done rest i es ei = rw (es, ei) (drop-length-append done rest)

All-IsByte-take : (n : ℕ) (bs : Bytes) → All IsByte bs → All IsByte (take n bs)
All-IsByte-take zero bs h = tt
All-IsByte-take (suc n) [] h = tt
All-IsByte-take (suc n) (b ∷ bs) (hb, hs) = (hb, All-IsByte-take n bs hs)

All-IsByte-drop : (n : ℕ) (bs : Bytes) → All IsByte bs → All IsByte (drop n bs)
All-IsByte-drop zero bs h = h
All-IsByte-drop (suc n) [] h = tt
All-IsByte-drop (suc n) (b ∷ bs) (hb, hs) = All-IsByte-drop n bs hs

Span-append :
    (front rest : Bytes) (i j k : ℕ)
    → All IsSafe front
    → j ≡ i + length front
    → Span rest j k
    → Span (front ++ rest) i k
Span-append front rest i j k safe e p = record {
  span = front ++ p.span;
  after = p.after;
  parts = rw (p.parts) (sym (append_assoc front p.span p.after));
  stop = omega (arith, p.stop, length-append front p.span);
  safe = All-append IsSafe front p.span safe p.safe;
}

-- What the fast-forward loop skips is safe.
pub skip_chunks-Span :
    (fuel : ℕ) (s done rest : Bytes) (i : ℕ)
    → s ≡ done ++ rest
    → i ≡ length done
    → All IsByte rest
    → Span rest i (skip_chunks fuel s i)
unfolding skip_chunks
skip_chunks-Span zero s done rest i es ei h = record {
  span = [];
  after = rest;
  parts = refl;
  stop = omega arith;
  safe = tt;
}
skip_chunks-Span (suc fuel) s done rest i es ei h = elim (Bool-cases (leb (i + 8) (length s))) [
  | inr short ↦ rw (short) stay
  | inl room ↦ elim (Bool-cases (swar_has_escapable (le_value (take 8 (drop i s))) == 0)) [
    | inr hit ↦ rw (room, hit) stay
    | inl clean ↦
        let chunk : drop i s ≡ rest = drop_at s done rest i es ei in
        let eight : length (take 8 rest) ≡ 8 =
          length-take 8 rest (ground (arith, length-append done rest)) in
        rw (room, clean)
          (subst (λ r. Span r i (skip_chunks fuel s (i + 8))) (take-append-drop 8 rest)
            (Span-append (take 8 rest) (drop 8 rest) i (i + 8) _
              (swar_has_escapable_sound (take 8 rest) eight (All-IsByte-take 8 rest h)
                (rw chunk at ((==_iff _ 0).0 clean)))
              (omega (arith, eight))
              (skip_chunks-Span fuel s (done ++ take 8 rest) (drop 8 rest) (i + 8)
                (rw (append_assoc, take-append-drop 8 rest) es)
                (omega (arith, length-append done (take 8 rest), eight))
                (All-IsByte-drop 8 rest h))))
  ]
]
  where
    stay : Span rest i i
    stay = record { span = []; after = rest; parts = refl; stop = omega arith; safe = tt }

-- A scan stops at the end of the text or on a byte that needs an escape.
abbrev pub Stops : Bytes → Type 0
Stops [] = Unit {0}
Stops (c ∷ rest) = escape_flag c ≡ true

pub record Stopped (rest : Bytes) (start i : ℕ) : Type 0 where
  pub span : Bytes
  pub after : Bytes
  pub parts : rest ≡ span ++ after
  pub stop : i ≡ start + length span
  pub safe : All IsSafe span
  pub stops : Stops after

Stopped-append :
    (whole front rest : Bytes) (i j k : ℕ)
    → whole ≡ front ++ rest
    → All IsSafe front
    → j ≡ i + length front
    → Stopped rest j k
    → Stopped whole i k
Stopped-append whole front rest i j k ew safe e p = record {
  span = front ++ p.span;
  after = p.after;
  parts = ew ∙ ap (λ (t : Bytes). front ++ t) p.parts ∙ sym (append_assoc front p.span p.after);
  stop = omega (arith, p.stop, length-append front p.span);
  safe = All-append IsSafe front p.span safe p.safe;
  stops = p.stops;
}

scan_safe-Stopped : (rest : Bytes) (i : ℕ) → Stopped rest i (scan_safe rest i)
unfolding scan_safe
scan_safe-Stopped [] i = record {
  span = [];
  after = [];
  parts = refl;
  stop = omega arith;
  safe = tt;
  stops = tt;
}
scan_safe-Stopped (c ∷ rest) i = elim (Bool-cases (escape_flag c)) [
  | inl hit ↦ rw hit (record {
    span = [];
    after = c ∷ rest;
    parts = refl;
    stop = omega arith;
    safe = tt;
    stops = hit;
  })
  | inr miss ↦ rw miss (
      Stopped-append (c ∷ rest) (c ∷ []) rest i (i + 1) _ refl (miss, tt) (omega arith)
        (scan_safe-Stopped rest (i + 1)))
]

-- Both scans of a round together.
pub round-Stopped :
    (s done rest : Bytes) (i j : ℕ)
    → s ≡ done ++ rest
    → i ≡ length done
    → Span rest i j
    → Stopped rest i (scan_safe (drop j s) j)
round-Stopped s done rest i j es ei p =
    let here : drop j s ≡ p.after =
      drop_at s (done ++ p.span) p.after j
        (es ∙ ap (λ (t : Bytes). done ++ t) p.parts ∙ sym (append_assoc done p.span p.after))
        (omega (arith, p.stop, length-append done p.span)) in
    rw here
      (Stopped-append rest p.span p.after i j _ p.parts p.safe p.stop (scan_safe-Stopped p.after j))
