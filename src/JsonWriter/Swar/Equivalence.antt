-- ===== src/JsonWriter/Swar/Equivalence.antt =====
-- escape_swar.go writes what escape_scalar.go writes.
use pg2json.Common.{
  ℕ, zero, suc, ◌+◌, ◌≤◌, ◌<◌, ◌≡◌, refl, sym, ap, ◌∙◌, true, some, [], ◌∷◌, ◌++◌, append-nil,
  append_assoc, arith, Bytes, length, length-append, get_or, drop, All, IsByte,
}
use pg2json.JsonWriter.{escape_flag, append_escape, append_string_body}
use pg2json.JsonWriter.Scalar.{
  escaped-append_safe, IsSafe, escaped, append_escape-append, span_copied, escape_byte_hit,
  append_string_body-escaped,
}
use pg2json.JsonWriter.Swar.{skip_chunks, scan_safe, emit, swar_loop, append_string_body_swar}
use pg2json.JsonWriter.Swar.Span.{Stops, skip_chunks-Span, round-Stopped}

get_or-append : (p : Bytes) (c : ℕ) (r : Bytes) (k : ℕ) → k ≡ length p → get_or (p ++ c ∷ r) k 0 ≡ c
get_or-append [] c r k e = rw e
get_or-append (b ∷ p) c r zero e = absurd (omega arith)
get_or-append (b ∷ p) c r (suc k) e = get_or-append p c r k (omega arith)

-- A round that reaches the end of the text has written it all.
emit_end :
    (s dst done span : Bytes) (i k : ℕ)
    → s ≡ done ++ (span ++ [])
    → i ≡ length done
    → k ≡ i + length span
    → emit s dst i k ≡ (dst ++ span, k, k)
unfolding emit
emit_end s dst done span i k es ei ek =
    rw (span_copied s dst done span [] i k es ei (omega arith))
      (ground (arith, ap length es, length-append done (span ++ []), length-append span []))

-- A round that stops on a byte writes the span and the escape of the byte.
emit_hit :
    (s dst done span : Bytes) (c : ℕ) (rest : Bytes) (i k : ℕ)
    → s ≡ done ++ (span ++ c ∷ rest)
    → i ≡ length done
    → k ≡ i + length span
    → emit s dst i k ≡ (append_escape (dst ++ span) c, k + 1, k + 1)
unfolding emit
emit_hit s dst done span c rest i k es ei ek =
    let at : get_or s k 0 ≡ c =
      rw (es, ← append_assoc done span (c ∷ rest))
        (get_or-append (done ++ span) c rest k (omega (arith, length-append done span))) in
    rw (span_copied s dst done span (c ∷ rest) i k es ei (omega arith), at)
      (ground
        (arith, ap length es, length-append done (span ++ c ∷ rest), length-append span (c ∷ rest)))

swar_loop_done :
    (fuel : ℕ) (s dst : Bytes) (i : ℕ) → length s ≤ i → swar_loop (suc fuel) s dst i i ≡ some dst
unfolding swar_loop
swar_loop_done fuel s dst i h = ground arith

-- A round, in terms of where its scans stop and of what it writes.
swar_loop_round :
    (fuel : ℕ) (s dst dst' : Bytes) (i k n : ℕ)
    → i < length s
    → k ≡ scan_safe (drop (skip_chunks (length s) s i) s) (skip_chunks (length s) s i)
    → emit s dst i k ≡ (dst', n, n)
    → swar_loop (suc fuel) s dst i i ≡ swar_loop fuel s dst' n n
unfolding swar_loop
swar_loop_round fuel s dst dst' i k n h ek em = rw (← ek, em) (ground arith)

written_hit :
    (dst span : Bytes) (c : ℕ) (after : Bytes)
    → All IsSafe span
    → escape_flag c ≡ true
    → append_escape (dst ++ span) c ++ escaped after ≡ dst ++ escaped (span ++ c ∷ after)
unfolding escaped
written_hit dst span c after safe hit =
    rw
      (
        append_escape-append (dst ++ span) c,
        escaped-append_safe span (c ∷ after) safe,
        escape_byte_hit c hit,
      )
      (simp append_assoc)

-- What a round leaves to the next one.
record Round (fuel : ℕ) (s dst : Bytes) (i : ℕ) (rest : Bytes) : Type 0 where
  dst' : Bytes
  done' : Bytes
  rest' : Bytes
  goes_on : swar_loop (suc fuel) s dst i i ≡ swar_loop fuel s dst' (length done') (length done')
  whole : s ≡ done' ++ rest'
  shorter : length rest' < length rest
  bytes : All IsByte rest'
  written : dst' ++ escaped rest' ≡ dst ++ escaped rest

All-append_right : (xs ys : Bytes) → All IsByte (xs ++ ys) → All IsByte ys
All-append_right [] ys h = h
All-append_right (x ∷ xs) ys (hx, hs) = All-append_right xs ys hs

swar_loop-Round :
    (fuel : ℕ) (s dst done rest : Bytes) (i : ℕ)
    → 0 < length rest
    → s ≡ done ++ rest
    → i ≡ length done
    → All IsByte rest
    → Round fuel s dst i rest
swar_loop-Round fuel s dst done rest i some_left es ei h =
    let j = skip_chunks (length s) s i in
    let p =
      round-Stopped s done rest i j es ei (skip_chunks-Span (length s) s done rest i es ei h) in
    go p.span p.after p.parts p.stop p.safe p.stops
  where
    k : ℕ
    k = scan_safe (drop (skip_chunks (length s) s i) s) (skip_chunks (length s) s i)

    inside : i < length s
    inside = omega (arith, ap length es, length-append done rest)

    go :
        (span after : Bytes)
        → rest ≡ span ++ after
        → k ≡ i + length span
        → All IsSafe span
        → Stops after
        → Round fuel s dst i rest
    go span [] parts stop safe stops =
        let whole : s ≡ done ++ (span ++ []) = es ∙ ap (λ (t : Bytes). done ++ t) parts in
        let at : k ≡ length (done ++ span) = omega (arith, stop, length-append done span) in
        record {
          dst' = dst ++ span;
          done' = done ++ span;
          rest' = [];
          goes_on = rw (← at) (
              swar_loop_round fuel s dst (dst ++ span) i k k inside refl
                (emit_end s dst done span i k whole ei stop));
          whole = whole ∙ sym (append_assoc done span []);
          shorter = some_left;
          bytes = tt;
          written = unfold escaped in simp (parts, escaped-append_safe span [] safe, append_assoc);
        }
    go span (c ∷ after) parts stop safe stops =
        let whole : s ≡ done ++ (span ++ c ∷ after) = es ∙ ap (λ (t : Bytes). done ++ t) parts in
        let at : k + 1 ≡ length (done ++ (span ++ c ∷ [])) =
          omega (arith, stop, length-append done (span ++ c ∷ []), length-append span (c ∷ [])) in
        record {
          dst' = append_escape (dst ++ span) c;
          done' = done ++ (span ++ c ∷ []);
          rest' = after;
          goes_on = rw (← at) (
              swar_loop_round fuel s dst (append_escape (dst ++ span) c) i k (k + 1) inside refl
                (emit_hit s dst done span c after i k whole ei stop));
          whole = simp (whole, append_assoc);
          shorter = omega (arith, ap length parts, length-append span (c ∷ after));
          bytes = (All-append_right span (c ∷ after) (rw parts at h)).1;
          written =
              written_hit dst span c after safe stops
              ∙ ap (λ (t : Bytes). dst ++ escaped t) (sym parts);
        }

swar_loop-escaped :
    (fuel : ℕ) (rest s dst done : Bytes) (i : ℕ)
    → length rest < fuel
    → s ≡ done ++ rest
    → i ≡ length done
    → All IsByte rest
    → swar_loop fuel s dst i i ≡ some (dst ++ escaped rest)
swar_loop-escaped zero rest s dst done i f es ei h = absurd (omega arith)
swar_loop-escaped (suc fuel) [] s dst done i f es ei h =
    swar_loop_done fuel s dst i (omega (arith, ap length es, length-append done []))
    ∙ unfold escaped in rw append-nil
swar_loop-escaped (suc fuel) (b ∷ rest) s dst done i f es ei h =
    let r = swar_loop-Round fuel s dst done (b ∷ rest) i (omega arith) es ei h in
    r.goes_on
    ∙ swar_loop-escaped fuel r.rest' s r.dst' r.done' (length r.done') (omega (arith, r.shorter))
        r.whole refl r.bytes
    ∙ ap some r.written

-- On every byte string the SWAR escaper returns, and with what the scalar one returns.
pub append_string_body_swar-append_string_body :
    (dst s : Bytes) → All IsByte s → append_string_body_swar dst s ≡ some (append_string_body dst s)
unfolding append_string_body_swar
append_string_body_swar-append_string_body dst s h =
    swar_loop-escaped (length s + 1) s s dst [] 0 (omega arith) refl refl h
    ∙ ap some (sym (append_string_body-escaped dst s))
