-- ===== src/Types.antt =====
-- redshift_connector/utils/type_utils.py: the functions that read column values, and the table
-- `pg_types` that chooses one by the type's oid. The values are Python's; a float is kept as its IEEE
-- word, a timestamp as the microseconds since EPOCH (2000-01-01).
pub mod Recv
pub mod Numeric
pub mod Timestamp
pub mod Params
pub mod Args
pub mod Protocol
use amazon_redshift_python_d.Prelude.{
  ℕ, ◌+◌, Bool, true, false, Option, none, some, List, [], ◌∷◌, ◌++◌, ◌==◌, if◌then◌else◌,
}
use amazon_redshift_python_d.Prelude.Int.{ℤ, pos, negsuc}
use amazon_redshift_python_d.Prelude.Text.{Text}
use amazon_redshift_python_d.Prelude.Result.{Result}

-- The functions of the table, by their names in the source.
pub data InFunc : Type 0 where
  text_recv bool_recv int8_recv int2_recv int4_recv oid_recv int_in : InFunc
  float4_recv float8_recv numeric_in_binary timestamp_recv_integer : InFunc
  timestamptz_recv_integer interval_recv_integer geographyhex_recv geometryhex_recv : InFunc
  varbytehex_recv array_recv_binary array_recv_text int_array_recv float_array_recv : InFunc
  abstime_recv vector_in json_in numeric_to_float_binary numeric_in numeric_to_float_in : InFunc
  time_recv_binary timetz_recv_binary time_in timetz_in date_recv_binary date_in : InFunc

mutual
  pub data Value : Type 0 where
    null : Value
    boolean : Bool → Value
    integer : ℤ → Value
    string : Text → Value
    float_word double_word : ℕ → Value
    -- Decimal(raw).scaleb(-scale)
    decimal : ℤ → ℕ → Value
    timestamp timestamptz : ℤ → Value
    array : Values → Value
    -- a value of a class that the model does not look into, by its repr
    other : Text → Value

  pub data Values : Type 0 where
    nil : Values
    cons : Value → Values → Values

abbrev pub fc_text : ℕ
fc_text = 0

abbrev pub fc_binary : ℕ
fc_binary = 1

-- An entry of `pg_types`: the format code and the function.
abbrev pub Entry : Type 0
Entry = ℕ × InFunc

abbrev pub TypeTable : Type 0
TypeTable = List (ℕ × Entry)

-- The table as the module defines it.
abbrev pub pg_types : TypeTable
pg_types =
    (702, (fc_binary, abstime_recv))
    ∷ (16, (fc_binary, bool_recv))
    ∷ (19, (fc_binary, text_recv))
    ∷ (20, (fc_binary, int8_recv))
    ∷ (21, (fc_binary, int2_recv))
    ∷ (22, (fc_text, vector_in))
    ∷ (23, (fc_binary, int4_recv))
    ∷ (24, (fc_binary, oid_recv))
    ∷ (25, (fc_binary, text_recv))
    ∷ (26, (fc_binary, oid_recv))
    ∷ (28, (fc_text, int_in))
    ∷ (114, (fc_text, json_in))
    ∷ (700, (fc_binary, float4_recv))
    ∷ (701, (fc_binary, float8_recv))
    ∷ (705, (fc_binary, text_recv))
    ∷ (1005, (fc_binary, array_recv_binary))
    ∷ (1007, (fc_binary, array_recv_binary))
    ∷ (1009, (fc_binary, array_recv_binary))
    ∷ (1002, (fc_binary, array_recv_binary))
    ∷ (1028, (fc_binary, int_array_recv))
    ∷ (1033, (fc_binary, text_recv))
    ∷ (1034, (fc_binary, array_recv_binary))
    ∷ (1015, (fc_binary, array_recv_binary))
    ∷ (1021, (fc_binary, array_recv_binary))
    ∷ (1042, (fc_binary, text_recv))
    ∷ (1043, (fc_binary, text_recv))
    ∷ (1082, (fc_binary, date_recv_binary))
    ∷ (1083, (fc_binary, time_recv_binary))
    ∷ (1114, (fc_binary, timestamp_recv_integer))
    ∷ (1184, (fc_binary, timestamptz_recv_integer))
    ∷ (1266, (fc_binary, timetz_recv_binary))
    ∷ (1186, (fc_binary, interval_recv_integer))
    ∷ (1700, (fc_binary, numeric_in_binary))
    ∷ (3001, (fc_binary, geographyhex_recv))
    ∷ (3000, (fc_text, text_recv))
    ∷ (3999, (fc_text, geometryhex_recv))
    ∷ (4000, (fc_text, text_recv))
    ∷ (6551, (fc_text, varbytehex_recv))
    ∷ []

-- `pg_types[oid]`: a defaultdict, so an oid that it does not hold is text.
unfoldable pub type_entry : TypeTable → ℕ → Entry
type_entry [] oid = (fc_text, text_recv)
type_entry ((k, e) ∷ table) oid = if k == oid then e else type_entry table oid

unfoldable pub type_of : TypeTable → ℤ → Entry
unfolding type_entry
type_of table (pos oid) = type_entry table oid
type_of table (negsuc oid) = (fc_text, text_recv)

-- `pg_types[oid] = entry`
unfoldable pub set_type : ℕ → Entry → TypeTable → TypeTable
set_type oid e [] = (oid, e) ∷ []
set_type oid e ((k, d) ∷ table) = if k == oid then (k, e) ∷ table else (k, d) ∷ set_type oid e table
