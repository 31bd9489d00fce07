-- ===== src/Rows/Server.antt =====
-- The messages that internal/rows reads, as the server writes them: the layouts of RowDescription
-- and DataRow that the comments of plan.go and datarow.go give, as encoders to read back. What is
-- stated of `read_cell` is shared by the three row writers.
use pg2json.Common.{
  ℕ, ◌-◌, ◌/◌, ◌%◌, ltb, ◌==◌, false, ◌^◌, ◌<◌, ◌≡◌, refl, Option, none, some, List, [], ◌∷◌, ◌++◌,
  arith, Bytes, length, length-append, take-length-append, drop-length-append,
}
use pg2json.Common.Int.{pos, signed32}
use pg2json.GoStd.{be32}
use pg2json.Rows.{read_cell, cell}

-- The bytes of a 16-bit and of a 32-bit word, most significant first.
abbrev pub word16 : ℕ → Bytes
word16 n = n / 2 ^ 8 % 2 ^ 8 ∷ n % 2 ^ 8 ∷ []

abbrev pub word32 : ℕ → Bytes
word32 n = n / 2 ^ 24 % 2 ^ 8 ∷ n / 2 ^ 16 % 2 ^ 8 ∷ n / 2 ^ 8 % 2 ^ 8 ∷ n % 2 ^ 8 ∷ []

-- A cell of a DataRow: its length, -1 for NULL, and its bytes.
unfoldable pub server_cell : Option Bytes → Bytes
server_cell none = word32 (2 ^ 32 - 1)
server_cell (some raw) = word32 (length raw) ++ raw

unfoldable pub server_cells : List (Option Bytes) → Bytes
server_cells [] = []
server_cells (c ∷ cells) = server_cell c ++ server_cells cells

-- The body of a DataRow.
unfoldable pub data_row : List (Option Bytes) → Bytes
data_row cells = word16 (length cells) ++ server_cells cells

-- A cell whose length PostgreSQL can send.
abbrev pub Fits : Option Bytes → Type 0
Fits none = Unit
Fits (some raw) = length raw < 2 ^ 31

be32-word32 : (n : ℕ) (s : Bytes) → n < 2 ^ 32 → be32 (word32 n ++ s) 0 ≡ n
be32-word32 n s h = omega arith

-- The tests of `read_cell` on a length that fits.
read_cell_tests :
    (raw rest : Bytes)
    → length raw < 2 ^ 31
    → (ltb (length (server_cell (some raw) ++ rest)) 4 ≡ false)
      × ((length raw == 2 ^ 32 - 1) ≡ false)
      × (signed32 (length raw) ≡ pos (length raw))
      × (ltb (length (raw ++ rest)) (length raw) ≡ false)
unfolding server_cell
read_cell_tests raw rest h =
    (ground arith, ground arith, ground arith, ground (arith, length-append raw rest))

pub read_cell-server_cell :
    (c : Option Bytes) (rest : Bytes) → Fits c → read_cell (server_cell c ++ rest) ≡ cell c rest
unfolding read_cell server_cell
read_cell-server_cell none rest h = ground arith
read_cell-server_cell (some raw) rest h =
    let (t₁, t₂, t₃, t₄) = read_cell_tests raw rest h in
    let e = be32-word32 (length raw) (raw ++ rest) (omega arith) in
    rw (e, t₁, t₂, t₃, t₄, take-length-append, drop-length-append) refl
