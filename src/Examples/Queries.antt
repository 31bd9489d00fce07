-- ===== src/Examples/Queries.antt =====
-- Examples for whole responses.
use pg2json.Common.{◌≡◌, refl, none, List, [], ◌∷◌, ◌++◌, arith, Bytes, Option}
use pg2json.Json.{IsJson}
use pg2json.Stream.{buf_writer, flushing_writer, fresh, Sink, Clock}
use pg2json.Stream.Laws.{buf_contract}
use pg2json.Query.{
  Message, mode_array, mode_toon, mode_columnar, msg_row_description, msg_notice_response, start,
  consume_text,
}
use pg2json.Query.Texts.{document}
use pg2json.Query.Document.{no_caps, messages, Completes}
use pg2json.Query.Results.{
  IsResult, plan_for, consume_text-document, consume_text-IsJson, stream-document,
}
use pg2json.Rows.Describe.{row_description}
use pg2json.Examples.RowTexts.{fields, cells, texts, float_field-IsField, text_field-IsField}

abbrev rows : List (List (Option Bytes))
rows = cells ∷ cells ∷ []

result : IsResult fields rows
result = record {
  fields = (float_field-IsField, (text_field-IsField, tt));
  few = omega arith;
  texts = ((texts, omega arith), ((texts, omega arith), tt));
}

abbrev next : List Message
next = msg_notice_response ∷ []

consume_text-document_example :
    Completes buf_contract
      (consume_text buf_writer no_caps mode_toon
        (msg_row_description (row_description fields) ∷ messages rows next)
        start
        [])
      ([] ++ document mode_toon (plan_for fields) rows)
      next
unfolding buf_contract
consume_text-document_example =
    consume_text-document buf_writer buf_contract mode_toon fields rows next [] result tt

consume_text-IsJson_example :
    let r =
      consume_text buf_writer no_caps mode_array
        (msg_row_description (row_description fields) ∷ messages rows next)
        start
        [] in
    (r.result ≡ none)
    × (r.out ≡ document mode_array (plan_for fields) rows)
    × IsJson r.out
    × (r.rest ≡ next)
consume_text-IsJson_example = consume_text-IsJson fields rows next result

-- A sink that takes all, and a clock that ticks.
abbrev sink : Sink
sink n = none

abbrev clock : Clock
clock n = n

stream-document_example :
    let r =
      consume_text
        (flushing_writer sink clock 16 2)
        no_caps
        mode_columnar
        (msg_row_description (row_description fields) ∷ messages rows next)
        start
        (fresh clock) in
    (r.result ≡ none)
    × (r.out.received ≡ document mode_columnar (plan_for fields) rows)
    × (r.out.pending ≡ [])
    × (r.rest ≡ next)
stream-document_example =
    stream-document sink clock 16 2 mode_columnar fields rows next result (λ n. refl)
