-- ===== src/Rows/Valid.antt =====
-- The rows that internal/rows writes for text-format results are JSON values.
use pg2json.Common.{
  ℕ, suc, ◌<◌, ◌^◌, ◌≡◌, inl, refl, sym, ap, subst, Option, none, some, List, [], ◌∷◌, ◌++◌, map,
  append-nil, append_assoc, Bytes, codes, All, length,
}
use pg2json.Json.{
  IsJson, IsElements, IsMembers, IsMember, literal, arr, empty_arr, obj, empty_obj, element,
  elements, only, members, member, append_string-IsString,
}
use pg2json.JsonWriter.{append_null, append_key}
use pg2json.Types.Text.{
  Encoder, pick, encode_bool, encode_int, encode_float, encode_numeric, encode_json_passthrough,
  encode_bytea, encode_uuid, encode_quoted_ascii, encode_string,
}
use pg2json.Types.Text.Pick.{Picked, pick-Picked, pick-Appends}
use pg2json.Types.Text.Pick.{bool, int, float, numeric, json, bytea, uuid, ascii, string}
use pg2json.Types.Text.Validity.{IsServerText, pick-WritesJson}
use pg2json.Rows.{Plan, Appended, wrote, plan_of, append_object, append_array}
use pg2json.Rows.Server.{data_row, Fits}
use pg2json.Rows.Describe.{Field, described}
use pg2json.Rows.Output.{
  joined, values, entries, IsColumn, IsRow, append_object-data_row, append_array-data_row,
}

-- A cell of a field, in the text format that the server documents for its type.
abbrev pub IsText : Field → Option Bytes → Type 0
IsText f none = Unit
IsText f (some raw) = IsServerText f.oid raw × (length raw < 2 ^ 31)

abbrev pub IsTexts : List Field → List (Option Bytes) → Type 0
IsTexts [] [] = Unit
IsTexts [] (c ∷ cells) = ⊥
IsTexts (f ∷ fs) [] = ⊥
IsTexts (f ∷ fs) (c ∷ cells) = IsText f c × IsTexts fs cells

Picked-null : (oid : ℕ) (enc : Encoder) → Picked oid enc → enc [] none ≡ codes "null"
unfolding encode_bool encode_int encode_float encode_numeric encode_json_passthrough encode_bytea
    encode_uuid encode_quoted_ascii encode_string append_null
Picked-null oid _ bool = refl
Picked-null oid _ (int h) = refl
Picked-null oid _ (float h) = refl
Picked-null oid _ (numeric h) = refl
Picked-null oid _ (json h) = refl
Picked-null oid _ (bytea h) = refl
Picked-null oid _ (uuid h) = refl
Picked-null oid _ ascii = refl
Picked-null oid _ string = refl

value-IsJson : (f : Field) (c : Option Bytes) → IsText f c → IsJson (pick f.oid [] c)
value-IsJson f none t = literal (inl (Picked-null f.oid (pick f.oid) (pick-Picked f.oid)))
value-IsJson f (some raw) (t, _) =
    let (out, written, value) = pick-WritesJson f.oid raw t [] in subst IsJson (sym written) value

entry-IsMember :
    (f : Field) (c : Option Bytes) → IsText f c → IsMember (append_key [] f.name ++ pick f.oid [] c)
unfolding append_key
entry-IsMember f c t =
    let (key, written, text) = append_string-IsString [] f.name in
    member [] key [] (pick f.oid [] c) tt text tt (value-IsJson f c t)
      (rw written (simp (append_assoc)))

values-IsElements :
    (f : Field) (fs : List Field) (c : Option Bytes) (cells : List (Option Bytes))
    → IsText f c
    → IsTexts fs cells
    → IsElements (joined (values (map described (f ∷ fs)) (c ∷ cells)))
values-IsElements f [] c [] t ts = rw append-nil (element (value-IsJson f c t))
values-IsElements f [] c (d ∷ cells) t ts = elim ts [ ]
values-IsElements f (g ∷ fs) c [] t ts = elim ts [ ]
values-IsElements f (g ∷ fs) c (d ∷ cells) t (u, ts) =
    elements (pick f.oid [] c) _ (value-IsJson f c t) (values-IsElements g fs d cells u ts) refl

entries-IsMembers :
    (f : Field) (fs : List Field) (c : Option Bytes) (cells : List (Option Bytes))
    → IsText f c
    → IsTexts fs cells
    → IsMembers (joined (entries (map described (f ∷ fs)) (c ∷ cells)))
entries-IsMembers f [] c [] t ts = rw append-nil (only (entry-IsMember f c t))
entries-IsMembers f [] c (d ∷ cells) t ts = elim ts [ ]
entries-IsMembers f (g ∷ fs) c [] t ts = elim ts [ ]
entries-IsMembers f (g ∷ fs) c (d ∷ cells) t (u, ts) =
    members (append_key [] f.name ++ pick f.oid [] c) _ (entry-IsMember f c t)
      (entries-IsMembers g fs d cells u ts) refl

described-IsColumn : (fs : List Field) → All IsColumn (map described fs)
described-IsColumn [] = tt
described-IsColumn (f ∷ fs) = ((pick-Appends f.oid, refl), described-IsColumn fs)

texts-Fits : (fs : List Field) (cells : List (Option Bytes)) → IsTexts fs cells → All Fits cells
texts-Fits [] [] ts = tt
texts-Fits [] (c ∷ cells) ts = elim ts [ ]
texts-Fits (f ∷ fs) [] ts = elim ts [ ]
texts-Fits (f ∷ fs) (none ∷ cells) (t, ts) = (tt, texts-Fits fs cells ts)
texts-Fits (f ∷ fs) (some raw ∷ cells) ((_, small), ts) = (small, texts-Fits fs cells ts)

texts-length :
    (fs : List Field) (cells : List (Option Bytes))
    → IsTexts fs cells
    → length cells ≡ length (map described fs)
texts-length [] [] ts = refl
texts-length [] (c ∷ cells) ts = elim ts [ ]
texts-length (f ∷ fs) [] ts = elim ts [ ]
texts-length (f ∷ fs) (c ∷ cells) (t, ts) = ap suc (texts-length fs cells ts)

pub texts-IsRow :
    (fs : List Field) (cells : List (Option Bytes))
    → IsTexts fs cells
    → length cells < 2 ^ 15
    → IsRow (map described fs) cells
texts-IsRow fs cells ts few = record {
  columns = described-IsColumn fs;
  same = texts-length fs cells ts;
  few = few;
  fit = texts-Fits fs cells ts;
}

pub object-IsJson :
    (fs : List Field) (cells : List (Option Bytes))
    → IsTexts fs cells
    → IsJson (b'{' ∷ (joined (entries (map described fs) cells) ++ codes "}"))
object-IsJson [] [] ts = empty_obj [] tt refl
object-IsJson [] (c ∷ cells) ts = elim ts [ ]
object-IsJson (f ∷ fs) [] ts = elim ts [ ]
object-IsJson (f ∷ fs) (c ∷ cells) (t, ts) = obj _ (entries-IsMembers f fs c cells t ts) refl

pub array-IsJson :
    (fs : List Field) (cells : List (Option Bytes))
    → IsTexts fs cells
    → IsJson (b'[' ∷ (joined (values (map described fs) cells) ++ codes "]"))
array-IsJson [] [] ts = empty_arr [] tt refl
array-IsJson [] (c ∷ cells) ts = elim ts [ ]
array-IsJson (f ∷ fs) [] ts = elim ts [ ]
array-IsJson (f ∷ fs) (c ∷ cells) (t, ts) = arr _ (values-IsElements f fs c cells t ts) refl

-- The row is appended as one JSON value.
abbrev pub WritesRow : (Bytes → Bytes → Plan → Appended) → List Field → Bytes → Type 0
WritesRow append fs body =
    (dst : Bytes)
    → (out : Bytes) × (append dst body (plan_of (map described fs)) ≡ wrote (dst ++ out))
      × IsJson out

-- With the plan of a RowDescription, a DataRow whose cells are what the server documents for the
-- fields' types in text format becomes one JSON value, both in `AppendObject` and `AppendArray`.
pub append_row-IsJson :
    (fs : List Field) (cells : List (Option Bytes)) (junk : Bytes)
    → IsTexts fs cells
    → length cells < 2 ^ 15
    → WritesRow append_object fs (data_row cells ++ junk)
      × WritesRow append_array fs (data_row cells ++ junk)
unfolding plan_of
append_row-IsJson fs cells junk ts few =
    let row = texts-IsRow fs cells ts few in
    (
      λ dst. (
        _,
        append_object-data_row (plan_of (map described fs)) cells dst junk row,
        object-IsJson fs cells ts,
      ),
      λ dst. (
        _,
        append_array-data_row (plan_of (map described fs)) cells dst junk row,
        array-IsJson fs cells ts,
      ),
    )
