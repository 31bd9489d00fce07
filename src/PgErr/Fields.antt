-- ===== src/PgErr/Fields.antt =====
-- `Parse` of internal/pgerr/pgerr.go reads what the server sends.
use pg2json.Common.{
  ℕ, zero, suc, ◌+◌, ◌≤◌, ◌≡◌, ◌≢◌, false, some, List, [], ◌∷◌, ◌++◌, append_assoc, arith, Bytes,
  All, length, length-append, ◌==◌, if◌then◌else◌, Bool-cases, inl, inr, ◌∙◌,
}
use pg2json.Rows.{split_zero}
use pg2json.Rows.Describe.{split_zero_name}
use pg2json.PgErr.{Error, no_error, store, parse_loop, parse}

-- A field: its code, which is not zero, and its text, which has no zero.
abbrev pub IsErrorField : ℕ × Bytes → Type 0
IsErrorField f = (f.0 ≢ 0) × All (λ c. c ≢ 0) f.1

-- The body of an ErrorResponse, up to the zero that ends it.
unfoldable pub server_error_fields : List (ℕ × Bytes) → Bytes
server_error_fields [] = []
server_error_fields (f ∷ fs) = f.0 ∷ (f.1 ++ 0 ∷ server_error_fields fs)

-- The text of the last field with a code, or what there was before.
unfoldable pub last_text : ℕ → List (ℕ × Bytes) → Bytes → Bytes
last_text code [] old = old
last_text code (f ∷ fs) old = last_text code fs (if f.0 == code then f.1 else old)

-- The fields with the latest first, before those that were there.
unfoldable pub latest_first : List (ℕ × Bytes) → List (ℕ × Bytes) → List (ℕ × Bytes)
latest_first [] old = old
latest_first (f ∷ fs) old = latest_first fs (f ∷ old)

-- The map has all the fields, and each code that PostgreSQL documents under its letter has its own place.
abbrev pub reported : List (ℕ × Bytes) → Error → Error
reported fs e = record {
  severity = last_text b'S' fs e.severity;
  code = last_text b'C' fs e.code;
  msg = last_text b'M' fs e.msg;
  detail = last_text b'D' fs e.detail;
  hint = last_text b'H' fs e.hint;
  whence = last_text b'W' fs e.whence;
  fields = latest_first fs e.fields;
}

-- One field in the middle of the loop, whatever its code.
reported-store :
    (c : ℕ) (val : Bytes) (fs : List (ℕ × Bytes)) (e : Error)
    → reported fs (store c val e) ≡ reported ((c, val) ∷ fs) e
unfolding store last_text latest_first
reported-store c val fs e = elim (Bool-cases (c == b'S')) [
  | inl is ↦ ground arith
  | inr not_s ↦ ground arith
]

parse_loop-server_error_fields :
    (fuel : ℕ) (fs : List (ℕ × Bytes)) (junk : Bytes) (e : Error)
    → All IsErrorField fs
    → length (server_error_fields fs) + 1 ≤ fuel
    → parse_loop fuel (server_error_fields fs ++ 0 ∷ junk) e ≡ reported fs e
unfolding parse_loop server_error_fields last_text latest_first
parse_loop-server_error_fields zero fs junk e h enough = absurd (omega arith)
parse_loop-server_error_fields (suc fuel) [] junk e h enough = ground arith
parse_loop-server_error_fields (suc fuel) ((c, val) ∷ fs) junk e ((nonzero, text), h) enough =
    let code : (c == 0) ≡ false = ground arith in
    let split : split_zero ((val ++ 0 ∷ server_error_fields fs) ++ 0 ∷ junk)
        ≡ some (val, server_error_fields fs ++ 0 ∷ junk) =
      rw append_assoc (split_zero_name val (server_error_fields fs ++ 0 ∷ junk) text) in
    let ih =
      parse_loop-server_error_fields fuel fs junk (store c val e) h
        (omega (arith, length-append val (0 ∷ server_error_fields fs))) in
    rw (parse_loop, code, split) (ih ∙ reported-store c val fs e)

-- A parsed ErrorResponse holds every field, the latest first, up to the zero that ends the message, and
-- what stands behind that is ignored; severity, code, message, detail, hint and where are the texts
-- of the last fields with the codes S, C, M, D, H and W, empty where there is none.
pub parse-server_error_fields :
    (fs : List (ℕ × Bytes)) (junk : Bytes)
    → All IsErrorField fs
    → parse (server_error_fields fs ++ 0 ∷ junk) ≡ record {
      severity = last_text b'S' fs [];
      code = last_text b'C' fs [];
      msg = last_text b'M' fs [];
      detail = last_text b'D' fs [];
      hint = last_text b'H' fs [];
      whence = last_text b'W' fs [];
      fields = latest_first fs [];
    }
unfolding parse no_error
parse-server_error_fields fs junk h =
    parse_loop-server_error_fields _ fs junk no_error h
      (omega (arith, length-append (server_error_fields fs) (0 ∷ junk)))
