-- ===== src/JsonWriter/Swar.antt =====
-- internal/jsonwriter/escape_swar.go, the variant built under the tag `pg2json_simd`.
pub mod Below
pub mod Word
pub mod Span
pub mod Equivalence
use Prim.Native.Nat.{bit_and, bit_or, bit_xor}
use pg2json.Common.{
  ℕ, zero, suc, ◌+◌, ◌-◌, ◌*◌, ◌%◌, ◌^◌, ◌≡◌, refl, Bool, true, false, Option, none, some, [], ◌∷◌,
  ◌++◌, Bytes, codes, length, get_or, take, drop, ltb, leb, ◌==◌, if◌then◌else◌,
}
use pg2json.JsonWriter.{escape_flag, append_escape, slice}

-- The constants of the file.
abbrev pub swar_ones : ℕ
swar_ones = 0x0101010101010101

abbrev pub swar_high : ℕ
swar_high = 0x8080808080808080

abbrev pub swar_quote : ℕ
swar_quote = 0x2222222222222222

abbrev pub swar_slash : ℕ
swar_slash = 0x5C5C5C5C5C5C5C5C

abbrev pub swar_ctrl : ℕ
swar_ctrl = 0x2020202020202020

-- `(x - c) & ^x & swarHigh` on uint64, the pattern of all three tests.
abbrev pub below_bits : ℕ → ℕ → ℕ
below_bits x c = bit_and (bit_and ((x + 2 ^ 64 - c) % 2 ^ 64) (2 ^ 64 - 1 - x)) swar_high

-- `swarHasEscapable`
unfoldable pub swar_has_escapable : ℕ → ℕ
swar_has_escapable x =
    let low_ctrl = below_bits x swar_ctrl in
    let quote = below_bits (bit_xor x swar_quote) swar_ones in
    let slash = below_bits (bit_xor x swar_slash) swar_ones in bit_or (bit_or low_ctrl quote) slash

-- `binary.LittleEndian.Uint64`, on the eight bytes that it reads.
unfoldable pub le_value : Bytes → ℕ
le_value [] = 0
le_value (b ∷ bs) = b + 256 * le_value bs

-- `for i+8 <= len(s) { … }`: skips chunks of eight bytes that need no escape.
unfoldable pub skip_chunks : ℕ → Bytes → ℕ → ℕ
skip_chunks zero s i = i
skip_chunks (suc fuel) s i =
    let next = skip_chunks fuel s (i + 8) in
    if leb (i + 8) (length s)
    then if swar_has_escapable (le_value (take 8 (drop i s))) == 0 then next else i
    else i

-- `for ; i < len(s); i++ { … }`; the first argument is `s[i:]`.
unfoldable pub scan_safe : Bytes → ℕ → ℕ
scan_safe [] i = i
scan_safe (c ∷ rest) i = let next = scan_safe rest (i + 1) in if escape_flag c then i else next

-- The end of a round: the safe span, and the escape of the byte that it stopped on. The result is
-- `dst`, `start` and `i`.
unfoldable pub emit : Bytes → Bytes → ℕ → ℕ → Bytes × ℕ × ℕ
emit s dst start i =
    let dst' = if ltb start i then dst ++ slice s start i else dst in
    let start' = if ltb start i then i else start in
    if ltb i (length s)
    then (append_escape dst' (get_or s i 0), i + 1, i + 1)
    else (dst', start', i)

-- `for i < len(s) { … }`; `none` when the fuel runs out.
unfoldable pub swar_loop : ℕ → Bytes → Bytes → ℕ → ℕ → Option Bytes
swar_loop zero s dst start i = none
swar_loop (suc fuel) s dst start i =
    let j = skip_chunks (length s) s i in
    let k = scan_safe (drop j s) j in
    let (dst', start', i') = emit s dst start k in
    let next = swar_loop fuel s dst' start' i' in if ltb i (length s) then next else some dst

-- `appendStringBodySWAR`. Each round ends behind the byte that it began with.
unfoldable pub append_string_body_swar : Bytes → Bytes → Option Bytes
append_string_body_swar dst s = swar_loop (length s + 1) s dst 0 0

swar_runs :
    append_string_body_swar [] (codes "plain text \"quoted\" and more\\")
    ≡ some (codes "plain text \\\"quoted\\\" and more\\\\")
unfolding append_string_body_swar swar_loop emit scan_safe skip_chunks le_value swar_has_escapable
    escape_flag append_escape
swar_runs = refl
