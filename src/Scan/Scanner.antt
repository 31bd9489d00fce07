-- ===== src/Scan/Scanner.antt =====
-- The setter of types that implement sql.Scanner: pickScannerSetter and scannerDecoderFor of
-- pg2json/scan.go. The method Scan is not part of it and a parameter; a panic is an error of its own.
use pg2json.Common.{
  ℕ, ◌*◌, ◌^◌, Bool, true, false, not, ◌&&◌, Option, none, some, ◌⊎◌, inl, Bytes, length, get_or,
  leb, ◌==◌, if◌then◌else◌,
}
use pg2json.Common.Int.{ℤ, scale, signed32, signed64, to_word}
use pg2json.GoStd.{be32, be64}
use pg2json.Scan.{
  GoValue, ScanError, panicked, Setter, width_bytes, read_int, class_bool, class_int, class_float4,
  class_float8, class_text, class_jsonb, class_date, class_timestamp, oid_class, strip_version,
  pg_usec_to_time,
}

-- What Scan is called with; none is nil.
pub data DriverValue : Type 0 where
  d_bool : Bool → DriverValue
  d_int : ℤ → DriverValue
  d_float : ℕ → DriverValue
  d_string : Bytes → DriverValue
  d_bytes : Bytes → DriverValue
  d_time : GoValue → DriverValue

-- A read of the first `n` bytes, which panics on fewer.
abbrev pub if_long : ℕ → Bytes → DriverValue → Option DriverValue
if_long n raw v = if leb n (length raw) then some v else none

-- A read of exactly `n` bytes; other cells are handed over.
abbrev pub if_exact : ℕ → Bytes → DriverValue → Option DriverValue
if_exact n raw v = some (if length raw == n then v else d_bytes raw)

module _ (widen : ℕ → ℕ) where
  -- `scannerDecoderFor`; none stands for a panic.
  unfoldable pub scanner_decode : ℕ → Bool → Bytes → Option DriverValue
  scanner_decode oid false raw = some (d_bytes raw)
  scanner_decode oid true raw = elim (oid_class oid) [
    | class_bool ↦ some (d_bool (length raw == 1 && not (get_or raw 0 0 == 0)))
    | class_int w ↦ if_long (width_bytes w) raw (d_int (read_int w raw))
    | class_float4 ↦ if_long 4 raw (d_float (widen (be32 raw 0)))
    | class_float8 ↦ if_long 8 raw (d_float (be64 raw 0))
    | class_text ↦ some (d_string raw)
    | class_timestamp ↦ if_exact 8 raw (d_time (pg_usec_to_time (signed64 (be64 raw 0))))
    | class_date ↦ if_exact 4 raw (
        d_time (
          pg_usec_to_time
            (signed64 (to_word (2 ^ 64) (scale (signed32 (be32 raw 0)) (86400 * 1000000))))))
    | class_jsonb ↦ some (d_bytes (strip_version raw))
    | _ ↦ some (d_bytes raw)
  ]

  -- `pickScannerSetter`'s setter, for the Scan of a type.
  unfoldable pub scanner_setter :
      (GoValue → Option DriverValue → ScanError ⊎ GoValue) → ℕ → Bool → Setter
  scanner_setter scan oid binary old none = scan old none
  scanner_setter scan oid binary old (some raw) = elim (scanner_decode oid binary raw) [
    | none ↦ inl panicked
    | some v ↦ scan old (some v)
  ]
