-- ===== src/Interval.antt =====
-- redshift_connector/interval.py, the class `Interval`, and its reader in
-- redshift_connector/utils/type_utils.py. An attribute is set to any Python value.
pub mod Bounds
pub mod RoundTrip
use amazon_redshift_python_d.Prelude.{
  ℕ, ◌+◌, ◌^◌, ◌==◌, Bool, true, false, not, Option, none, some, ◌&&◌, List, [], ◌∷◌, length,
  if◌then◌else◌,
}
use amazon_redshift_python_d.Prelude.Int.{ℤ, pos, negsuc, pos_part, neg_part}
use amazon_redshift_python_d.Prelude.Result.{Result, ok, err, ◌>>=◌, type_error, overflow_error}
use amazon_redshift_python_d.Prelude.Text.{Bytes}
use amazon_redshift_python_d.Types.Args.{PyValue, scalar, int_value, bool_value, bool_number}
use amazon_redshift_python_d.Types.Params.{within}
use amazon_redshift_python_d.Wire.{Format, h, q, unpack}

pub record Interval : Type 0 where
  pub microseconds : ℤ
  pub days : ℤ
  pub months : ℤ

-- `isinstance(value, int)`, with the integer; True and False are 1 and 0.
int_of : PyValue → Option ℤ
int_of (scalar (int_value z)) = some z
int_of (scalar (bool_value b)) = some (bool_number b)
int_of v = none

abbrev pub bounded : ℕ → Option ℤ → Result ℤ
bounded limit none = err type_error
bounded limit (some z) = if within limit z then ok z else err overflow_error

-- TypeError for a value that is no int, OverflowError for one out of the bounds.
unfoldable pub in_range : ℕ → PyValue → Result ℤ
unfolding int_of
in_range limit value = bounded limit (int_of value)

abbrev pub max_int8 : ℕ
max_int8 = 2 ^ 63

abbrev pub max_int4 : ℕ
max_int4 = 2 ^ 31

-- The attributes that can be set.
pub data Attribute : Type 0 where
  set_microseconds set_days set_months : Attribute

-- Where it raises, the interval is as it was.
unfoldable pub set_attribute : Attribute → PyValue → Interval → Result Interval
set_attribute set_microseconds value v = do
  z ← in_range max_int8 value
  ok (record v { microseconds = z })
set_attribute set_days value v = do z ← in_range max_int4 value; ok (record v { days = z })
set_attribute set_months value v = do z ← in_range max_int4 value; ok (record v { months = z })

-- __init__: the first attribute that is refused ends it.
unfoldable pub new_interval : PyValue → PyValue → PyValue → Result Interval
new_interval microseconds days months = do
  m ← in_range max_int8 microseconds
  d ← in_range max_int4 days
  n ← in_range max_int4 months
  ok (record { microseconds = m; days = d; months = n })

-- interval_recv_integer gives a Timedelta where there are no months.
pub data Read (T : Type 0) : Type 0 where
  timedelta : T → Read T
  interval : Interval → Read T

abbrev is_zero : ℤ → Bool
is_zero z = pos_part z + neg_part z == 0

-- `to_timedelta days microseconds` is `Timedelta(days, *divmod(microseconds, 1e6))`, in floats.
module _ {T : Type 0} (to_timedelta : ℤ → ℤ → Result T) where
  unfoldable pub interval_recv_integer : Bytes → ℕ → Result (Read T)
  interval_recv_integer data_bytes offset = do
    microseconds ← unpack q data_bytes offset
    days ← unpack h data_bytes (offset + 8)
    months ← unpack h data_bytes (offset + 10)
    if is_zero months then (do t ← to_timedelta days microseconds; ok (timedelta t)) else (do
      v ←
          new_interval (scalar (int_value microseconds)) (scalar (int_value days))
            (scalar (int_value months))
      ok (interval v))
