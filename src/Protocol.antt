-- ===== src/Protocol.antt =====
-- internal/protocol/oid.go: the OIDs of PostgreSQL types, ranges and arrays.
use pg2json.Common.{ℕ, Bool, ◌||◌, ◌==◌, if◌then◌else◌}

abbrev pub oid_bool : ℕ
oid_bool = 16

abbrev pub oid_bytea : ℕ
oid_bytea = 17

abbrev pub oid_name : ℕ
oid_name = 19

abbrev pub oid_int8 : ℕ
oid_int8 = 20

abbrev pub oid_int2 : ℕ
oid_int2 = 21

abbrev pub oid_int4 : ℕ
oid_int4 = 23

abbrev pub oid_text : ℕ
oid_text = 25

abbrev pub oid_oid : ℕ
oid_oid = 26

abbrev pub oid_json : ℕ
oid_json = 114

abbrev pub oid_float4 : ℕ
oid_float4 = 700

abbrev pub oid_float8 : ℕ
oid_float8 = 701

abbrev pub oid_bp_char : ℕ
oid_bp_char = 1042

abbrev pub oid_varchar : ℕ
oid_varchar = 1043

abbrev pub oid_date : ℕ
oid_date = 1082

abbrev pub oid_time : ℕ
oid_time = 1083

abbrev pub oid_timestamp : ℕ
oid_timestamp = 1114

abbrev pub oid_timestamp_tz : ℕ
oid_timestamp_tz = 1184

abbrev pub oid_interval : ℕ
oid_interval = 1186

abbrev pub oid_time_tz : ℕ
oid_time_tz = 1266

abbrev pub oid_numeric : ℕ
oid_numeric = 1700

abbrev pub oid_uuid : ℕ
oid_uuid = 2950

abbrev pub oid_jsonb : ℕ
oid_jsonb = 3802

abbrev pub oid_bool_array : ℕ
oid_bool_array = 1000

abbrev pub oid_int2_array : ℕ
oid_int2_array = 1005

abbrev pub oid_int4_array : ℕ
oid_int4_array = 1007

abbrev pub oid_text_array : ℕ
oid_text_array = 1009

abbrev pub oid_bp_char_array : ℕ
oid_bp_char_array = 1014

abbrev pub oid_varchar_array : ℕ
oid_varchar_array = 1015

abbrev pub oid_int8_array : ℕ
oid_int8_array = 1016

abbrev pub oid_float4_array : ℕ
oid_float4_array = 1021

abbrev pub oid_float8_array : ℕ
oid_float8_array = 1022

abbrev pub oid_oid_array : ℕ
oid_oid_array = 1028

abbrev pub oid_bytea_array : ℕ
oid_bytea_array = 1001

abbrev pub oid_date_array : ℕ
oid_date_array = 1182

abbrev pub oid_timestamp_array : ℕ
oid_timestamp_array = 1115

abbrev pub oid_timestamp_tz_array : ℕ
oid_timestamp_tz_array = 1185

abbrev pub oid_uuid_array : ℕ
oid_uuid_array = 2951

abbrev pub oid_json_array : ℕ
oid_json_array = 199

abbrev pub oid_jsonb_array : ℕ
oid_jsonb_array = 3807

abbrev pub oid_numeric_array : ℕ
oid_numeric_array = 1231

abbrev pub oid_int4_range : ℕ
oid_int4_range = 3904

abbrev pub oid_num_range : ℕ
oid_num_range = 3906

abbrev pub oid_ts_range : ℕ
oid_ts_range = 3908

abbrev pub oid_ts_tz_range : ℕ
oid_ts_tz_range = 3910

abbrev pub oid_date_range : ℕ
oid_date_range = 3912

abbrev pub oid_int8_range : ℕ
oid_int8_range = 3926

-- `IsRange`
unfoldable pub is_range : ℕ → Bool
is_range o =
    o == oid_int4_range
    || o == oid_int8_range
    || o == oid_num_range
    || o == oid_ts_range
    || o == oid_ts_tz_range
    || o == oid_date_range

-- `ArrayElem`: the element OID of an array OID, and 0 for any other.
unfoldable pub array_elem : ℕ → ℕ
array_elem o =
    if o == oid_bool_array
    then oid_bool
    else if o == oid_int2_array
    then oid_int2
    else if o == oid_int4_array
    then oid_int4
    else if o == oid_int8_array
    then oid_int8
    else if o == oid_float4_array
    then oid_float4
    else if o == oid_float8_array
    then oid_float8
    else if o == oid_text_array
    then oid_text
    else if o == oid_varchar_array
    then oid_varchar
    else if o == oid_bp_char_array
    then oid_bp_char
    else if o == oid_uuid_array
    then oid_uuid
    else if o == oid_json_array
    then oid_json
    else if o == oid_jsonb_array
    then oid_jsonb
    else if o == oid_timestamp_array
    then oid_timestamp
    else if o == oid_timestamp_tz_array
    then oid_timestamp_tz
    else if o == oid_date_array
    then oid_date
    else if o == oid_oid_array
    then oid_oid
    else if o == oid_bytea_array
    then oid_bytea
    else if o == oid_numeric_array
    then oid_numeric
    else 0
