-- ===== src/Rows.antt =====
-- Row layouts and rows: internal/rows/plan.go, datarow.go and toon.go. Go's error results are the
-- values of `RowError`; a name is the bytes of the source's string.
pub mod Server
pub mod Output
pub mod Describe
pub mod Valid
pub mod Formats
pub mod Formatted
use pg2json.Common.{
  ℕ, zero, suc, ◌+◌, ◌-◌, ◌*◌, ◌^◌, ◌⊎◌, inl, inr, Bool, true, false, not, ◌||◌, Option, none, some,
  List, [], ◌∷◌, ◌++◌, map, Bytes, codes, length, take, drop, ltb, leb, ◌==◌, if◌then◌else◌,
}
use pg2json.Common.Int.{ℤ, pos, abs, is_neg, signed16, signed32}
use pg2json.GoStd.{be16, be32}
use pg2json.JsonWriter.{append_string, append_key}
use pg2json.Types.Text.{Encoder, pick}

pub data RowError : Type 0 where
  short_row_description : RowError
  negative_field_count : ℤ → RowError
  unterminated_name : RowError
  short_descriptor : RowError
  short_data_row : RowError
  column_count_mismatch : ℤ → ℕ → RowError
  short_column_header : RowError
  bad_column_length : ℤ → RowError

-- `Column`
pub record Column : Type 0 where
  pub name : Bytes
  pub table_oid : ℕ
  pub attr_num : ℤ
  pub type_oid : ℕ
  pub type_mod : ℤ
  pub type_len : ℤ
  pub format : ℤ
  pub encoder : Encoder
  pub key_prefix : Bytes
  pub key_prefix_comma : Bytes

-- `Plan`
pub record Plan : Type 0 where
  pub columns : List Column
  pub columns_array_header : Bytes
  pub toon_header : Bytes

-- `indexZero`, with the bytes before the zero and behind it; `none` is its -1.
unfoldable pub split_zero : Bytes → Option (Bytes × Bytes)
split_zero [] = none
split_zero (c ∷ s) = elim (c == 0) [
  | true ↦ some ([], s)
  | false ↦ elim (split_zero s) [ none ↦ none | some (name, rest) ↦ some (c ∷ name, rest) ]
]

-- The names of `buildColumnsHeader`, from column `i` on.
unfoldable pub columns_header_loop : ℕ → List Column → Bytes → Bytes
columns_header_loop i [] buf = buf
columns_header_loop i (c ∷ cols) buf =
    columns_header_loop (suc i) cols
      (append_string (if not (i == 0) then buf ++ codes "," else buf) c.name)

unfoldable pub build_columns_header : List Column → Bytes
build_columns_header cols =
    columns_header_loop 0 cols (codes "{\"columns\":[") ++ codes "],\"rows\":["

unfoldable pub needs_quote_loop : Bytes → Bool
needs_quote_loop [] = false
needs_quote_loop (c ∷ s) =
    leb c 32
    || c == b','
    || c == b'"'
    || c == b'\\'
    || c == b'{'
    || c == b'}'
    || c == b'['
    || c == b']'
    || needs_quote_loop s

-- `nameNeedsQuote`
unfoldable pub name_needs_quote : Bytes → Bool
name_needs_quote s = if length s == 0 then true else needs_quote_loop s

unfoldable pub toon_header_loop : ℕ → List Column → Bytes → Bytes
toon_header_loop i [] buf = buf
toon_header_loop i (c ∷ cols) buf =
    let buf' = if not (i == 0) then buf ++ codes "," else buf in
    toon_header_loop (suc i) cols
      (if name_needs_quote c.name then append_string buf' c.name else buf' ++ c.name)

-- `buildTOONHeader`
unfoldable pub build_toon_header : List Column → Bytes
build_toon_header cols = toon_header_loop 0 cols (codes "[?]{") ++ codes "}\n"

-- The column that `ParseRowDescription` fills in from a name and the 18 bytes behind it.
unfoldable pub column_of : Bytes → Bytes → Column
column_of name body = record {
  name = name;
  table_oid = be32 body 0;
  attr_num = signed16 (be16 body 4);
  type_oid = be32 body 6;
  type_len = signed16 (be16 body 10);
  type_mod = signed32 (be32 body 12);
  format = signed16 (be16 body 16);
  encoder = pick (be32 body 6);
  key_prefix = append_key [] name;
  key_prefix_comma = b',' ∷ append_key [] name;
}

unfoldable pub push_column : Column → RowError ⊎ List Column → RowError ⊎ List Column
push_column c (inl e) = inl e
push_column c (inr cols) = inr (c ∷ cols)

-- The loop of `ParseRowDescription`, with the number of columns still to come.
unfoldable pub parse_columns : ℕ → Bytes → RowError ⊎ List Column
parse_columns zero body = inr []
parse_columns (suc n) body = elim (split_zero body) [
  | none ↦ inl unterminated_name
  | some (name, rest) ↦ elim (ltb (length rest) 18) [
    | true ↦ inl short_descriptor
    | false ↦ push_column (column_of name rest) (parse_columns n (drop 18 rest))
  ]
]

unfoldable pub plan_of : List Column → Plan
plan_of cols = record {
  columns = cols;
  columns_array_header = build_columns_header cols;
  toon_header = build_toon_header cols;
}

-- `ParseRowDescription`
unfoldable pub parse_row_description : Bytes → RowError ⊎ Plan
parse_row_description body = elim (ltb (length body) 2) [
  | true ↦ inl short_row_description
  | false ↦ elim (is_neg (signed16 (be16 body 0))) [
    | true ↦ inl (negative_field_count (signed16 (be16 body 0)))
    | false ↦ elim (parse_columns (abs (signed16 (be16 body 0))) (drop 2 body)) [
      | inl e ↦ inl e
      | inr cols ↦ inr (plan_of cols)
    ]
  ]
]

-- What a column of a DataRow is read as: a cell, absent for NULL, with the body behind it.
pub data CellRead : Type 0 where
  cell : Option Bytes → Bytes → CellRead
  cell_error : RowError → CellRead

-- The reading that `AppendObject`, `AppendArray` and `AppendTOONRow` inline.
unfoldable pub read_cell : Bytes → CellRead
read_cell body =
    let l = signed32 (be32 body 0) in
    let rest = drop 4 body in
    if ltb (length body) 4
    then cell_error short_column_header
    else if be32 body 0 == 2 ^ 32 - 1
    then cell none rest
    else if is_neg l || ltb (length rest) (abs l)
    then cell_error (bad_column_length l)
    else cell (some (take (abs l) rest)) (drop (abs l) rest)

-- The result of appending a row: the buffer, also where it comes with an error.
pub data Appended : Type 0 where
  wrote : Bytes → Appended
  failed : Bytes → RowError → Appended

unfoldable pub closed : Bytes → Appended → Appended
closed end (wrote dst) = wrote (dst ++ end)
closed end (failed dst e) = failed dst e

unfoldable pub object_loop : ℕ → List Column → Bytes → Bytes → Appended
object_loop i [] dst body = wrote dst
object_loop i (c ∷ cols) dst body = elim (read_cell body) [
  | cell_error e ↦ failed dst e
  | cell raw rest ↦
      object_loop (suc i) cols
        (c.encoder (if i == 0 then dst ++ c.key_prefix else dst ++ c.key_prefix_comma) raw) rest
]

unfoldable pub array_loop : ℕ → List Column → Bytes → Bytes → Appended
array_loop i [] dst body = wrote dst
array_loop i (c ∷ cols) dst body = elim (read_cell body) [
  | cell_error e ↦ failed dst e
  | cell raw rest ↦
      array_loop (suc i) cols (c.encoder (if not (i == 0) then dst ++ codes "," else dst) raw) rest
]

-- The checks on a DataRow that come before its columns; the error, if there is one.
unfoldable pub row_check : List Column → Bytes → Option RowError
row_check cols body =
    let n = signed16 (be16 body 0) in
    if ltb (length body) 2
    then some short_data_row
    else if is_neg n || not (abs n == length cols)
    then some (column_count_mismatch n (length cols))
    else none

-- `AppendObject`
unfoldable pub append_object : Bytes → Bytes → Plan → Appended
append_object dst body plan = elim (row_check plan.columns body) [
  | some e ↦ failed dst e
  | none ↦ closed (codes "}") (object_loop 0 plan.columns (dst ++ codes "{") (drop 2 body))
]

-- `AppendArray`
unfoldable pub append_array : Bytes → Bytes → Plan → Appended
append_array dst body plan = elim (row_check plan.columns body) [
  | some e ↦ failed dst e
  | none ↦ closed (codes "]") (array_loop 0 plan.columns (dst ++ codes "[") (drop 2 body))
]

-- `AppendTOONRow`
unfoldable pub append_toon_row : Bytes → Bytes → Plan → Appended
append_toon_row dst body plan = elim (row_check plan.columns body) [
  | some e ↦ failed dst e
  | none ↦ closed (codes "\n") (array_loop 0 plan.columns dst (drop 2 body))
]
