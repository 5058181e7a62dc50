-- ===== src/Types/Args.antt =====
-- Python's values as parameters of a statement: the entries of `py_types`
-- (redshift_connector/utils/type_utils.py), their functions, and `make_params` of
-- redshift_connector/core.py. A float is its IEEE word, a date, a time and a Decimal what `isoformat`
-- and `str` give, a datetime the microseconds since EPOCH (in UTC where it is aware), a PGJson what
-- `dumps` gives, an enumeration member the text of its value.
pub mod Arrays
pub mod Inspect
pub mod Shape
pub mod Sent
pub mod Texts
use amazon_redshift_python_d.Prelude.{
  ℕ, ◌*◌, ◌+◌, ◌/◌, ◌%◌, Bool, true, false, ◌&&◌, Option, none, some, List, [], ◌∷◌, ◌++◌, ◌==◌,
  if◌then◌else◌,
}
use amazon_redshift_python_d.Prelude.Int.{ℤ, pos, negsuc, ◌+ℤ◌, ◌*ℤ◌}
use amazon_redshift_python_d.Prelude.Result.{
  Result, ok, err, ◌>>=◌, key_error, type_error, not_supported_error,
}
use amazon_redshift_python_d.Prelude.Text.{Bytes, Text}
use amazon_redshift_python_d.Prelude.Text.Utf8.{encode}
use amazon_redshift_python_d.Types.{fc_text, fc_binary}
use amazon_redshift_python_d.Types.Params.{SendFunc, IntType, inspect_int, send_int}
use amazon_redshift_python_d.Types.Recv.{hexlify}
use amazon_redshift_python_d.Wire.{h, i, q, pack, be_bytes}

-- The values that are no lists and no tuples.
pub data Scalar : Type 0 where
  none_value : Scalar
  bool_value : Bool → Scalar
  int_value : ℤ → Scalar
  float_value : ℕ → Scalar
  str_value decimal_value date_value time_value enum_value : Text → Scalar
  bytes_value : Bytes → Scalar
  naive_datetime aware_datetime : ℤ → Scalar
  -- a Timedelta of so many microseconds; an Interval of microseconds, days and months
  timedelta : ℤ → Scalar
  interval : ℤ → ℤ → ℤ → Scalar
  pg_text pg_varchar pg_json pg_tsvector pg_enum : Text → Scalar
  -- a value of a class that neither `py_types` nor `inspect_funcs` holds
  unmapped : Scalar

mutual
  pub data PyValue : Type 0 where
    scalar : Scalar → PyValue
    list_value tuple_value : PyValues → PyValue

  pub data PyValues : Type 0 where
    end : PyValues
    item : PyValue → PyValues → PyValues

-- The functions of the entries, and the closures that `array_inspect` makes of an oid and a function.
pub data ParamFunc : Type 0 where
  int_func : SendFunc → ParamFunc
  null_send bool_send d_pack text_out enum_out varbyte_send date_out time_out : ParamFunc
  timestamp_send_integer timestamptz_send_integer interval_send_integer : ParamFunc
  send_int_array : ℕ → SendFunc → ParamFunc
  send_float_array : ParamFunc

-- The oid, the format code and the function of a parameter.
pub record Param : Type 0 where
  pub oid : ℤ
  pub fc : ℕ
  pub func : ParamFunc

abbrev text_entry : ℕ → ParamFunc → Result Param
text_entry oid func = ok (record { oid = pos oid; fc = fc_text; func = func })

abbrev binary_entry : ℕ → ParamFunc → Result Param
binary_entry oid func = ok (record { oid = pos oid; fc = fc_binary; func = func })

abbrev pub int_entry : IntType → Result Param
int_entry t = ok (record { oid = pos t.oid; fc = t.fc; func = int_func t.send_func })

-- `py_types[type(value)]`, inspect_datetime and inspect_int: every class but lists and tuples.
unfoldable pub scalar_param : Scalar → Result Param
unfolding inspect_int
scalar_param none_value = ok (record { oid = negsuc 0; fc = fc_binary; func = null_send })
scalar_param (bool_value b) = binary_entry 16 bool_send
scalar_param (int_value z) = int_entry (inspect_int z)
scalar_param (float_value w) = binary_entry 701 d_pack
scalar_param (str_value t) = text_entry 705 text_out
scalar_param (decimal_value t) = text_entry 1700 (int_func SendFunc.numeric_out)
scalar_param (date_value t) = text_entry 1082 date_out
scalar_param (time_value t) = text_entry 1083 time_out
scalar_param (enum_value t) = text_entry 705 enum_out
scalar_param (bytes_value bs) = text_entry 705 varbyte_send
scalar_param (naive_datetime micros) = binary_entry 1114 timestamp_send_integer
scalar_param (aware_datetime micros) = binary_entry 1184 timestamptz_send_integer
scalar_param (timedelta micros) = binary_entry 1186 interval_send_integer
scalar_param (interval micros days months) = binary_entry 1186 interval_send_integer
scalar_param (pg_text t) = text_entry 25 text_out
scalar_param (pg_varchar t) = text_entry 1043 text_out
scalar_param (pg_json t) = text_entry 114 text_out
scalar_param (pg_tsvector t) = text_entry 3614 text_out
scalar_param (pg_enum t) = text_entry 705 enum_out
scalar_param unmapped = err (not_supported_error "not mapped to pg type")

-- NULL: i_pack(-1)
abbrev pub null_bytes : Bytes
null_bytes = 255 ∷ 255 ∷ 255 ∷ 255 ∷ []

-- `(days * 86400) * 10 ** 6 + microseconds`
abbrev pub interval_total : ℤ → ℤ → ℤ
interval_total micros days = days *ℤ pos 86400000000 +ℤ micros

-- `qhh_pack(microseconds, 0, months)`
unfoldable pub pack_interval : ℤ → ℤ → Result Bytes
pack_interval micros months = do
  m ← pack q micros
  d ← pack h (pos 0)
  n ← pack h months
  ok (m ++ (d ++ n))

-- `pack` takes True and False as the numbers 1 and 0.
abbrev pub bool_number : Bool → ℤ
bool_number true = pos 1
bool_number false = pos 0

-- The functions on one value. `float_micros` is `int(n / 10 ** 6 * 1e6)`, in floats. A value of
-- another class never meets the function of an entry, but for an array's, which are no lists.
unfoldable pub send_scalar : (ℤ → ℤ) → ParamFunc → Scalar → Result Bytes
unfolding send_int hexlify pack_interval
send_scalar float_micros null_send value = ok null_bytes
send_scalar float_micros bool_send (bool_value true) = ok (1 ∷ [])
send_scalar float_micros bool_send (bool_value false) = ok (0 ∷ [])
send_scalar float_micros (int_func f) (int_value z) = send_int f z
send_scalar float_micros (int_func f) (bool_value b) = send_int f (bool_number b)
send_scalar float_micros (int_func SendFunc.numeric_out) (decimal_value t) = encode t
send_scalar float_micros d_pack (float_value w) = ok (be_bytes 8 w)
send_scalar float_micros text_out (str_value t) = encode t
send_scalar float_micros text_out (pg_text t) = encode t
send_scalar float_micros text_out (pg_varchar t) = encode t
send_scalar float_micros text_out (pg_json t) = encode t
send_scalar float_micros text_out (pg_tsvector t) = encode t
send_scalar float_micros enum_out (enum_value t) = encode t
send_scalar float_micros enum_out (pg_enum t) = encode t
send_scalar float_micros varbyte_send (bytes_value bs) = encode (hexlify bs)
send_scalar float_micros date_out (date_value t) = encode t
send_scalar float_micros time_out (time_value t) = encode t
send_scalar float_micros timestamp_send_integer (naive_datetime micros) = pack q micros
send_scalar float_micros timestamptz_send_integer (aware_datetime micros) = pack q micros
send_scalar float_micros interval_send_integer (timedelta micros) =
    pack_interval (float_micros micros) (pos 0)
send_scalar float_micros interval_send_integer (interval micros days months) =
    pack_interval (float_micros (interval_total micros days)) months
send_scalar float_micros func value = err type_error
