-- ===== src/Rows/Output.antt =====
-- What the three row writers of internal/rows write for a DataRow that the server sends.
use pg2json.Common.{
  ℕ, suc, ◌^◌, ◌<◌, ◌≡◌, refl, false, Option, none, List, [], ◌∷◌, ◌++◌, append_assoc, append-nil,
  arith, Bytes, codes, All, length, ◌==◌, not, if◌then◌else◌,
}
use pg2json.GoStd.{be16}
use pg2json.Types.Text.Pick.{Appends}
use pg2json.Rows.{
  Column, Plan, wrote, closed, object_loop, array_loop, row_check, append_object, append_array,
  append_toon_row,
}
use pg2json.Rows.Server.{word16, server_cell, server_cells, data_row, Fits, read_cell-server_cell}

-- Texts with a comma before each, and between two of them.
abbrev pub commas : List Bytes → Bytes
commas [] = []
commas (x ∷ xs) = b',' ∷ (x ++ commas xs)

abbrev pub joined : List Bytes → Bytes
joined [] = []
joined (x ∷ xs) = x ++ commas xs

-- The values of a row, and its keys with their values.
abbrev pub values : List Column → List (Option Bytes) → List Bytes
values [] cells = []
values (c ∷ cols) [] = []
values (c ∷ cols) (x ∷ cells) = c.encoder [] x ∷ values cols cells

abbrev pub entries : List Column → List (Option Bytes) → List Bytes
entries [] cells = []
entries (c ∷ cols) [] = []
entries (c ∷ cols) (x ∷ cells) = (c.key_prefix ++ c.encoder [] x) ∷ entries cols cells

-- A column as `ParseRowDescription` and `ApplyFormats` leave it.
abbrev pub IsColumn : Column → Type 0
IsColumn c = Appends c.encoder × (c.key_prefix_comma ≡ b',' ∷ c.key_prefix)

-- A row of as many cells as there are columns, small enough for its layout.
pub record IsRow (cols : List Column) (cells : List (Option Bytes)) : Type 0 where
  pub columns : All IsColumn cols
  pub same : length cells ≡ length cols
  pub few : length cells < 2 ^ 15
  pub fit : All Fits cells

array_loop_cell :
    (c : Column) (cols : List Column) (x : Option Bytes) (i : ℕ) (dst rest : Bytes)
    → Fits x
    → array_loop i (c ∷ cols) dst (server_cell x ++ rest)
      ≡ array_loop (suc i) cols (c.encoder (if not (i == 0) then dst ++ codes "," else dst) x) rest
unfolding array_loop
array_loop_cell c cols x i dst rest f = rw (read_cell-server_cell x rest f, array_loop) refl

object_loop_cell :
    (c : Column) (cols : List Column) (x : Option Bytes) (i : ℕ) (dst rest : Bytes)
    → Fits x
    → object_loop i (c ∷ cols) dst (server_cell x ++ rest)
      ≡ object_loop
          (suc i)
          cols
          (c.encoder (if i == 0 then dst ++ c.key_prefix else dst ++ c.key_prefix_comma) x)
          rest
unfolding object_loop
object_loop_cell c cols x i dst rest f = rw (read_cell-server_cell x rest f, object_loop) refl

later : (i : ℕ) → (suc i == 0) ≡ false
later i = ground arith

array_loop_rest :
    (cols : List Column) (cells : List (Option Bytes)) (i : ℕ) (dst junk : Bytes)
    → All IsColumn cols
    → length cells ≡ length cols
    → All Fits cells
    → array_loop (suc i) cols dst (server_cells cells ++ junk)
      ≡ wrote (dst ++ commas (values cols cells))
unfolding server_cells array_loop
array_loop_rest [] [] i dst junk cs e fs = simp (append-nil)
array_loop_rest [] (x ∷ cells) i dst junk cs e fs = ground arith
array_loop_rest (c ∷ cols) [] i dst junk cs e fs = ground arith
array_loop_rest (c ∷ cols) (x ∷ cells) i dst junk ((apps, _), cs) e (f, fs) =
    let ih =
      array_loop_rest cols cells (suc i) ((dst ++ codes ",") ++ c.encoder [] x) junk cs
        (omega arith) fs in
    rw
      (
        append_assoc (server_cell x),
        array_loop_cell c cols x (suc i) dst (server_cells cells ++ junk) f,
        later i,
        apps (dst ++ codes ",") x,
        ih,
      )
      (simp (append_assoc))

object_loop_rest :
    (cols : List Column) (cells : List (Option Bytes)) (i : ℕ) (dst junk : Bytes)
    → All IsColumn cols
    → length cells ≡ length cols
    → All Fits cells
    → object_loop (suc i) cols dst (server_cells cells ++ junk)
      ≡ wrote (dst ++ commas (entries cols cells))
unfolding server_cells object_loop
object_loop_rest [] [] i dst junk cs e fs = simp (append-nil)
object_loop_rest [] (x ∷ cells) i dst junk cs e fs = ground arith
object_loop_rest (c ∷ cols) [] i dst junk cs e fs = ground arith
object_loop_rest (c ∷ cols) (x ∷ cells) i dst junk ((apps, comma), cs) e (f, fs) =
    let ih =
      object_loop_rest cols cells (suc i) ((dst ++ b',' ∷ c.key_prefix) ++ c.encoder [] x) junk cs
        (omega arith) fs in
    rw
      (
        append_assoc (server_cell x),
        object_loop_cell c cols x (suc i) dst (server_cells cells ++ junk) f,
        later i,
        comma,
        apps (dst ++ b',' ∷ c.key_prefix) x,
        ih,
      )
      (simp (append_assoc))

array_loop_row :
    (cols : List Column) (cells : List (Option Bytes)) (dst junk : Bytes)
    → IsRow cols cells
    → array_loop 0 cols dst (server_cells cells ++ junk) ≡ wrote (dst ++ joined (values cols cells))
array_loop_row [] [] dst junk r = unfold array_loop in simp (append-nil)
array_loop_row [] (x ∷ cells) dst junk r = let e = r.same in ground arith
array_loop_row (c ∷ cols) [] dst junk r = let e = r.same in ground arith
array_loop_row (c ∷ cols) (x ∷ cells) dst junk r =
    unfold server_cells in
    let e = r.same in
    let rest =
      array_loop_rest cols cells 0 (dst ++ c.encoder [] x) junk (r.columns.1) (omega arith)
        (r.fit.1) in
    let first = array_loop_cell c cols x 0 dst (server_cells cells ++ junk) (r.fit.0) in
    rw (append_assoc (server_cell x), first, r.columns.0.0 dst x, rest) (simp (append_assoc))

object_loop_row :
    (cols : List Column) (cells : List (Option Bytes)) (dst junk : Bytes)
    → IsRow cols cells
    → object_loop 0 cols dst (server_cells cells ++ junk)
      ≡ wrote (dst ++ joined (entries cols cells))
object_loop_row [] [] dst junk r = unfold object_loop in simp (append-nil)
object_loop_row [] (x ∷ cells) dst junk r = let e = r.same in ground arith
object_loop_row (c ∷ cols) [] dst junk r = let e = r.same in ground arith
object_loop_row (c ∷ cols) (x ∷ cells) dst junk r =
    unfold server_cells in
    let e = r.same in
    let rest =
      object_loop_rest cols cells 0 ((dst ++ c.key_prefix) ++ c.encoder [] x) junk (r.columns.1)
        (omega arith) (r.fit.1) in
    let first = object_loop_cell c cols x 0 dst (server_cells cells ++ junk) (r.fit.0) in
    rw (append_assoc (server_cell x), first, r.columns.0.0 (dst ++ c.key_prefix) x, rest)
      (simp (append_assoc))

be16-word16 : (n : ℕ) (s : Bytes) → n < 2 ^ 16 → be16 (word16 n ++ s) 0 ≡ n
be16-word16 n s h = omega arith

row_check_passes :
    (cols : List Column) (cells : List (Option Bytes)) (junk : Bytes)
    → IsRow cols cells
    → row_check cols (data_row cells ++ junk) ≡ none
unfolding row_check data_row
row_check_passes cols cells junk r =
    let e = r.same in
    let few = r.few in
    let word = be16-word16 (length cells) (server_cells cells ++ junk) (omega arith) in
    ground (arith, word)

-- For a row that the server sends, whatever stands behind it, `AppendObject` writes the members of
-- the row in the columns' order, between braces and with commas between them.
pub append_object-data_row :
    (plan : Plan) (cells : List (Option Bytes)) (dst junk : Bytes)
    → IsRow plan.columns cells
    → append_object dst (data_row cells ++ junk) plan
      ≡ wrote (dst ++ b'{' ∷ (joined (entries plan.columns cells) ++ codes "}"))
unfolding append_object data_row closed
append_object-data_row plan cells dst junk r =
    rw
      (
        row_check_passes plan.columns cells junk r,
        append_object,
        object_loop_row plan.columns cells (dst ++ codes "{") junk r,
      )
      (simp (append_assoc))

-- For a row that the server sends, whatever stands behind it, `AppendArray` writes the values of
-- the row in the columns' order, between brackets and with commas between them.
pub append_array-data_row :
    (plan : Plan) (cells : List (Option Bytes)) (dst junk : Bytes)
    → IsRow plan.columns cells
    → append_array dst (data_row cells ++ junk) plan
      ≡ wrote (dst ++ b'[' ∷ (joined (values plan.columns cells) ++ codes "]"))
unfolding append_array data_row closed
append_array-data_row plan cells dst junk r =
    rw
      (
        row_check_passes plan.columns cells junk r,
        append_array,
        array_loop_row plan.columns cells (dst ++ codes "[") junk r,
      )
      (simp (append_assoc))

-- For a row that the server sends, whatever stands behind it, `AppendTOONRow` writes the values of
-- the row with commas between them and a line feed behind them.
pub append_toon_row-data_row :
    (plan : Plan) (cells : List (Option Bytes)) (dst junk : Bytes)
    → IsRow plan.columns cells
    → append_toon_row dst (data_row cells ++ junk) plan
      ≡ wrote (dst ++ (joined (values plan.columns cells) ++ codes "\n"))
unfolding append_toon_row data_row closed
append_toon_row-data_row plan cells dst junk r =
    rw
      (
        row_check_passes plan.columns cells junk r,
        append_toon_row,
        array_loop_row plan.columns cells dst junk r,
      )
      (simp (append_assoc))
