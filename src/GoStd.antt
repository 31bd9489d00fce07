-- ===== src/GoStd.antt =====
-- What the source uses of Go's standard library: `strconv.AppendInt` in base ten and
-- `binary.BigEndian`, with the facts about them that the components share.
pub mod Decimal
use pg2json.Common.{ℕ, ◌+◌, ◌*◌, ◌/◌, ◌%◌, ◌^◌, [], ◌∷◌, Bytes, get_or}

-- `binary.BigEndian.Uint16`, `Uint32` and `Uint64` of the bytes from offset `i` on.
abbrev pub be16 : Bytes → ℕ → ℕ
be16 b i = get_or b i 0 * 2 ^ 8 + get_or b (i + 1) 0

abbrev pub be32 : Bytes → ℕ → ℕ
be32 b i = be16 b i * 2 ^ 16 + be16 b (i + 2)

abbrev pub be64 : Bytes → ℕ → ℕ
be64 b i = be32 b i * 2 ^ 32 + be32 b (i + 4)

-- The bytes that `binary.BigEndian.PutUint32` writes for `uint32(n)`.
abbrev pub put32 : ℕ → Bytes
put32 n = n / 2 ^ 24 % 2 ^ 8 ∷ n / 2 ^ 16 % 2 ^ 8 ∷ n / 2 ^ 8 % 2 ^ 8 ∷ n % 2 ^ 8 ∷ []
