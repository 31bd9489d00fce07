-- ===== src/Json.antt =====
-- The JSON grammar of RFC 8259 as an inductive family over byte strings: what the output of the
-- writers and encoders is measured against. Nothing here is code of the repository.
use pg2json.Common.{ℕ, ◌≡◌, ◌⊎◌, some, [], ◌∷◌, ◌++◌, append-nil, Bytes, codes, All}
use pg2json.GoStd.Decimal.{IsDigit, IsNatural}
use pg2json.JsonWriter.{append_string}
use pg2json.JsonWriter.Reader.{read_string, read_string-append_string}

-- Insignificant white space.
abbrev pub IsSpace : Bytes → Type 0
IsSpace = All (λ c. (c ≡ 32) ⊎ (c ≡ 9) ⊎ (c ≡ 10) ⊎ (c ≡ 13))

-- A whole text that the reader of strings accepts.
abbrev pub IsString : Bytes → Type 0
IsString s = (t : Bytes) × (read_string s ≡ some (t, []))

abbrev pub IsDigits : Bytes → Type 0
IsDigits [] = ⊥
IsDigits (c ∷ s) = All IsDigit (c ∷ s)

abbrev pub IsMinus : Bytes → Type 0
IsMinus s = (s ≡ []) ⊎ (s ≡ b'-' ∷ [])

abbrev pub IsSign : Bytes → Type 0
IsSign s = (s ≡ []) ⊎ (s ≡ b'-' ∷ []) ⊎ (s ≡ b'+' ∷ [])

-- `frac` and `exp` of the grammar, each of which may be absent.
pub data IsFraction (s : Bytes) : Type 0 where
  absent : s ≡ [] → IsFraction s
  digits : (ds : Bytes) → IsDigits ds → s ≡ b'.' ∷ ds → IsFraction s

pub data IsExponent (s : Bytes) : Type 0 where
  absent : s ≡ [] → IsExponent s
  power :
      (e : ℕ) (sign ds : Bytes)
      → (e ≡ b'e') ⊎ (e ≡ b'E')
      → IsSign sign
      → IsDigits ds
      → s ≡ e ∷ (sign ++ ds)
      → IsExponent s

pub data IsNumber (s : Bytes) : Type 0 where
  number :
      (minus int frac exp : Bytes)
      → IsMinus minus
      → IsNatural int
      → IsFraction frac
      → IsExponent exp
      → s ≡ minus ++ (int ++ (frac ++ exp))
      → IsNumber s

mutual
  -- A value with white space around it.
  pub data IsJson : Bytes → Type 0 where
    literal : {s : Bytes} → (s ≡ codes "null") ⊎ (s ≡ codes "true") ⊎ (s ≡ codes "false") → IsJson s
    num : {s : Bytes} → IsNumber s → IsJson s
    str : {s : Bytes} → IsString s → IsJson s
    empty_arr : {s : Bytes} (w : Bytes) → IsSpace w → s ≡ b'[' ∷ (w ++ b']' ∷ []) → IsJson s
    arr : {s : Bytes} (e : Bytes) → IsElements e → s ≡ b'[' ∷ (e ++ b']' ∷ []) → IsJson s
    empty_obj : {s : Bytes} (w : Bytes) → IsSpace w → s ≡ b'{' ∷ (w ++ b'}' ∷ []) → IsJson s
    obj : {s : Bytes} (m : Bytes) → IsMembers m → s ≡ b'{' ∷ (m ++ b'}' ∷ []) → IsJson s
    spaced :
        {s : Bytes} (v w : Bytes) (t : Bytes)
        → IsSpace v
        → IsSpace w
        → IsJson t
        → s ≡ v ++ (t ++ w)
        → IsJson s

  pub data IsElements : Bytes → Type 0 where
    element : {s : Bytes} → IsJson s → IsElements s
    elements :
        {s : Bytes} (a b : Bytes) → IsJson a → IsElements b → s ≡ a ++ b',' ∷ b → IsElements s

  pub data IsMembers : Bytes → Type 0 where
    only : {s : Bytes} → IsMember s → IsMembers s
    members : {s : Bytes} (a b : Bytes) → IsMember a → IsMembers b → s ≡ a ++ b',' ∷ b → IsMembers s

  pub data IsMember : Bytes → Type 0 where
    member :
        {s : Bytes} (v k w x : Bytes)
        → IsSpace v
        → IsString k
        → IsSpace w
        → IsJson x
        → s ≡ v ++ (k ++ (w ++ b':' ∷ x))
        → IsMember s

-- `AppendString` writes a JSON string behind `dst`.
pub append_string-IsString :
    (dst t : Bytes) → (out : Bytes) × (append_string dst t ≡ dst ++ out) × IsString out
append_string-IsString dst t =
    let (out, written, reads) = read_string-append_string dst t [] in
    (out, written, (t, rw (append-nil) at reads))
