-- ===== src/PgErr.antt =====
-- ErrorResponse and NoticeResponse: internal/pgerr/pgerr.go. A Go map is an association list with the
-- latest entry first; strings are byte lists.
pub mod Fields
use pg2json.Common.{
  ℕ, zero, suc, ◌+◌, Bool, true, false, Option, none, some, List, [], ◌∷◌, Bytes, length, ◌==◌,
  if◌then◌else◌,
}
use pg2json.Rows.{split_zero}

-- `Error`
pub record Error : Type 0 where
  pub severity : Bytes
  pub code : Bytes
  pub msg : Bytes
  pub detail : Bytes
  pub hint : Bytes
  pub whence : Bytes
  pub fields : List (ℕ × Bytes)

unfoldable pub no_error : Error
no_error = record {
  severity = [];
  code = [];
  msg = [];
  detail = [];
  hint = [];
  whence = [];
  fields = [];
}

-- A field of the message is stored in the map and, where it has one, in its own place.
unfoldable pub store : ℕ → Bytes → Error → Error
store c val e =
    let e' = record e { fields = (c, val) ∷ e.fields } in
    if c == b'S'
    then record e' { severity = val }
    else if c == b'C'
    then record e' { code = val }
    else if c == b'M'
    then record e' { msg = val }
    else if c == b'D'
    then record e' { detail = val }
    else if c == b'H'
    then record e' { hint = val }
    else if c == b'W'
    then record e' { whence = val }
    else e'

-- The loop of `Parse`, on fuel: a round consumes two bytes at least.
unfoldable pub parse_loop : ℕ → Bytes → Error → Error
parse_loop zero body e = e
parse_loop (suc fuel) [] e = e
parse_loop (suc fuel) (c ∷ body) e = elim (c == 0) [
  | true ↦ e
  | false ↦ elim (split_zero body) [
    | none ↦ e
    | some (val, rest) ↦ parse_loop fuel rest (store c val e)
  ]
]

-- `Parse`
unfoldable pub parse : Bytes → Error
parse body = parse_loop (length body) body no_error
