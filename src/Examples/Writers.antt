-- ===== src/Examples/Writers.antt =====
-- Examples for the JSON writer and the calendar.
use pg2json.Common.{◌<◌, ◌≡◌, ◌+◌, ◌*◌, refl, some, [], ◌++◌, arith, Bytes, codes, All}
use pg2json.Common.Int.{pos, negsuc, ◌+ℤ◌}
use pg2json.JsonWriter.{append_string, append_string_body}
use pg2json.JsonWriter.Scalar.{IsSafe, escaped, append_string_body-escaped}
use pg2json.JsonWriter.Reader.{read_string, read_string-append_string}
use pg2json.JsonWriter.Swar.{append_string_body_swar, swar_has_escapable, le_value}
use pg2json.JsonWriter.Swar.Word.{swar_has_escapable_sound}
use pg2json.JsonWriter.Swar.Equivalence.{append_string_body_swar-append_string_body}
use pg2json.Types.DateTime.{split_time}
use pg2json.Types.Interval.{append_interval}
use pg2json.Types.Interval.Sign.{append_interval-negsuc}
use pg2json.Types.DateTime.Next.{next_date, date_of}
use pg2json.Types.DateTime.Time.{instant, split_time_calendar}

abbrev text : Bytes
text = codes "a \"b\"\n"

abbrev plain : Bytes
plain = codes "harmless"

read_string-append_string_example :
    (out : Bytes) × (append_string (codes "x") text ≡ codes "x" ++ out)
    × (read_string (out ++ codes ",1") ≡ some (text, codes ",1"))
read_string-append_string_example = read_string-append_string (codes "x") text (codes ",1")

append_string_body-escaped_example : append_string_body (codes "x") text ≡ codes "x" ++ escaped text
append_string_body-escaped_example = append_string_body-escaped (codes "x") text

append_string_body_swar-append_string_body_example :
    append_string_body_swar [] (plain ++ text) ≡ some (append_string_body [] (plain ++ text))
append_string_body_swar-append_string_body_example =
    append_string_body_swar-append_string_body [] (plain ++ text) (ground arith)

swar_has_escapable_sound_example : All IsSafe plain
unfolding swar_has_escapable le_value
swar_has_escapable_sound_example = swar_has_escapable_sound plain refl (ground arith) refl

-- The last second of 29 February 2024, and the first of the next day.
split_time_calendar_example :
    (date_of (split_time (instant (pos 19782 +ℤ pos 1) 0))
      ≡ next_date (date_of (split_time (instant (pos 19782) 86399))))
    × (date_of (split_time (pos 0)) ≡ record { year = pos 1970; month = 1; day = 1 })
    × ((split_time (instant (pos 19782) 86399)).hour < 24)
    × ((split_time (instant (pos 19782) 86399)).min < 60)
    × ((split_time (instant (pos 19782) 86399)).second < 60)
    × ((split_time (instant (pos 19782) 86399)).hour * 3600
          + (split_time (instant (pos 19782) 86399)).min * 60
          + (split_time (instant (pos 19782) 86399)).second
        ≡ 86399)
split_time_calendar_example = split_time_calendar (pos 19782) 86399 0 (omega arith) (omega arith)

append_interval-negsuc_example :
    append_interval [] (negsuc 499999) (pos 0) (pos 0)
    ≡ append_interval [] (pos 500000) (pos 0) (pos 0)
append_interval-negsuc_example = append_interval-negsuc 499999 [] (pos 0) (pos 0) (omega arith)
