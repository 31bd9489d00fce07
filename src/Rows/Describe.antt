-- ===== src/Rows/Describe.antt =====
-- `ParseRowDescription` of internal/rows/plan.go reads what the server describes.
use pg2json.Common.{
  ℕ, suc, ◌^◌, ◌<◌, ◌≡◌, ◌≢◌, inr, refl, ap, ◌∙◌, false, some, List, [], ◌∷◌, ◌++◌, map, arith,
  Bytes, All, length, drop, ltb, ◌==◌,
}
use pg2json.Common.Int.{pos, abs, is_neg, signed16, signed32}
use pg2json.GoStd.{be16, be32}
use pg2json.JsonWriter.{append_key}
use pg2json.Types.Text.{pick}
use pg2json.Rows.{
  Column, split_zero, column_of, push_column, parse_columns, plan_of, parse_row_description,
}
use pg2json.Rows.Server.{word16, word32}

-- A field of the server's RowDescription, its numbers as the words that carry them.
pub record Field : Type 0 where
  pub name : Bytes
  pub table : ℕ
  pub attr : ℕ
  pub oid : ℕ
  pub size : ℕ
  pub modifier : ℕ
  pub code : ℕ

pub record IsField (f : Field) : Type 0 where
  pub name : All (λ c. c ≢ 0) f.name
  pub table : f.table < 2 ^ 32
  pub attr : f.attr < 2 ^ 16
  pub oid : f.oid < 2 ^ 32
  pub size : f.size < 2 ^ 16
  pub modifier : f.modifier < 2 ^ 32
  pub code : f.code < 2 ^ 16

abbrev pub server_descriptor : Field → Bytes
server_descriptor f =
    word32 f.table
    ++ (word16 f.attr ++ (word32 f.oid ++ (word16 f.size ++ (word32 f.modifier ++ word16 f.code))))

unfoldable pub server_fields : List Field → Bytes
server_fields [] = []
server_fields (f ∷ fs) = f.name ++ 0 ∷ (server_descriptor f ++ server_fields fs)

-- The body of a RowDescription.
unfoldable pub row_description : List Field → Bytes
row_description fs = word16 (length fs) ++ server_fields fs

-- The column that a field is to become.
abbrev pub described : Field → Column
described f = record {
  name = f.name;
  table_oid = f.table;
  attr_num = signed16 f.attr;
  type_oid = f.oid;
  type_len = signed16 f.size;
  type_mod = signed32 f.modifier;
  format = signed16 f.code;
  encoder = pick f.oid;
  key_prefix = append_key [] f.name;
  key_prefix_comma = b',' ∷ append_key [] f.name;
}

pub split_zero_name :
    (name rest : Bytes) → All (λ c. c ≢ 0) name → split_zero (name ++ 0 ∷ rest) ≡ some (name, rest)
unfolding split_zero
split_zero_name [] rest h = refl
split_zero_name (c ∷ name) rest (h, hs) =
    let no : (c == 0) ≡ false = ground arith in
    rw (split_zero, no, split_zero_name name rest hs) refl

column_of_field :
    (f : Field) (rest : Bytes)
    → IsField f
    → column_of f.name (server_descriptor f ++ rest) ≡ described f
unfolding column_of
column_of_field f rest h =
    let d = server_descriptor f ++ rest in
    let table : be32 d 0 ≡ f.table = let h = h.table in omega arith in
    let attr : be16 d 4 ≡ f.attr = let h = h.attr in omega arith in
    let oid : be32 d 6 ≡ f.oid = let h = h.oid in omega arith in
    let size : be16 d 10 ≡ f.size = let h = h.size in omega arith in
    let modifier : be32 d 12 ≡ f.modifier = let h = h.modifier in omega arith in
    let code : be16 d 16 ≡ f.code = let h = h.code in omega arith in
    rw (table, attr, oid, size, modifier, code) refl

-- The 18 bytes of a descriptor.
drop_descriptor :
    (f : Field) (rest : Bytes)
    → (ltb (length (server_descriptor f ++ rest)) 18 ≡ false)
      × (drop 18 (server_descriptor f ++ rest) ≡ rest)
drop_descriptor f rest = (ground arith, refl)

parse_field :
    (f : Field) (n : ℕ) (rest : Bytes)
    → IsField f
    → parse_columns (suc n) (f.name ++ 0 ∷ (server_descriptor f ++ rest))
      ≡ push_column (described f) (parse_columns n rest)
unfolding parse_columns
parse_field f n rest h =
    let (long, behind) = drop_descriptor f rest in
    rw
      (
        parse_columns,
        split_zero_name f.name (server_descriptor f ++ rest) h.name,
        long,
        behind,
        column_of_field f rest h,
      )
      refl

parse_columns-server_fields :
    (fs : List Field)
    → All IsField fs
    → parse_columns (length fs) (server_fields fs) ≡ inr (map described fs)
unfolding server_fields push_column
parse_columns-server_fields [] h = unfold parse_columns in refl
parse_columns-server_fields (f ∷ fs) (h, hs) =
    rw (parse_field f (length fs) (server_fields fs) h, parse_columns-server_fields fs hs) refl

-- A RowDescription that the server sends is read without an error, and its plan has a column for
-- each field, in order, with the field's name and numbers, signed where the source's types are, the
-- text encoder of its type and the keys that its name makes.
pub parse_row_description-row_description :
    (fs : List Field)
    → All IsField fs
    → length fs < 2 ^ 15
    → parse_row_description (row_description fs) ≡ inr (plan_of (map described fs))
unfolding row_description parse_row_description
parse_row_description-row_description fs hs few =
    let word : be16 (row_description fs) 0 ≡ length fs = omega arith in
    let long : ltb (length (row_description fs)) 2 ≡ false = ground arith in
    let sign : signed16 (be16 (row_description fs) 0) ≡ pos (length fs) = ground (arith, word) in
    let read =
      ap (λ z. parse_columns (abs z) (server_fields fs)) sign ∙ parse_columns-server_fields fs hs in
    rw (parse_row_description, long, ap is_neg sign, read) refl
