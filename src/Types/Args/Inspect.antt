-- ===== src/Types/Args/Inspect.antt =====
-- redshift_connector/core.py: `array_inspect` with its closure `send_array`, and `make_params`.
use amazon_redshift_python_d.Prelude.{
  ℕ, ◌^◌, Bool, true, false, ◌||◌, Option, none, some, List, [], ◌∷◌, ◌++◌, ◌==◌, if◌then◌else◌,
  length,
}
use amazon_redshift_python_d.Prelude.Int.{ℤ, pos, negsuc}
use amazon_redshift_python_d.Prelude.Result.{
  Result, ok, err, ◌>>=◌, key_error, type_error, not_supported_error, array_content_not_supported,
  array_content_not_homogenous,
}
use amazon_redshift_python_d.Prelude.Text.{Bytes}
use amazon_redshift_python_d.Types.{fc_binary}
use amazon_redshift_python_d.Types.Params.{SendFunc, within}
use amazon_redshift_python_d.Types.Args.{
  Scalar, PyValue, PyValues, scalar, none_value, bool_value, int_value, float_value, list_value,
  tuple_value, Param, ParamFunc, d_pack, send_int_array, send_float_array, int_func, scalar_param,
  send_scalar, bool_number, null_bytes,
}
use amazon_redshift_python_d.Wire.{i, pack}
use amazon_redshift_python_d.Types.Args.Arrays.{
  array_flatten, array_find_first_element, array_has_null, array_check_dimensions,
  array_dim_lengths,
}

-- int2_ok, int4_ok and int8_ok.
pub record Flags : Type 0 where
  pub int2_ok : Bool
  pub int4_ok : Bool
  pub int8_ok : Bool

-- `between limit v` is `-limit < v < limit` for a value that is no integer: TypeError for most.
module _ (between : ℕ → PyValue → Result Bool) where
  is_between : ℕ → PyValue → Result Bool
  is_between limit (scalar (int_value z)) = ok (within limit z)
  is_between limit (scalar (bool_value b)) = ok (within limit (bool_number b))
  is_between limit v = between limit v

  flag_value : Flags → PyValue → Result Flags
  unfolding is_between
  flag_value flags (scalar none_value) = ok flags
  flag_value flags v = do
    small ← is_between (2 ^ 15) v
    if small then ok flags else do
      medium ← is_between (2 ^ 31) v
      if medium then ok (record flags { int2_ok = false }) else do
        large ← is_between (2 ^ 63) v
        ok (record {
          int2_ok = false;
          int4_ok = false;
          int8_ok = if large then flags.int8_ok else false;
        })

  flag_all : Flags → List PyValue → Result Flags
  unfolding flag_value
  flag_all flags [] = ok flags
  flag_all flags (v ∷ vs) = do next ← flag_value flags v; flag_all next vs

  -- The smallest array type that holds all the integers.
  int_array_param : Flags → Result Param
  int_array_param flags =
      if flags.int2_ok
      then ok (record { oid = pos 1005; fc = fc_binary; func = send_int_array 21 SendFunc.h_pack })
      else if flags.int4_ok
      then ok (record { oid = pos 1007; fc = fc_binary; func = send_int_array 23 SendFunc.i_pack })
      else if flags.int8_ok
      then ok (record { oid = pos 1016; fc = fc_binary; func = send_int_array 20 SendFunc.q_pack })
      else err array_content_not_supported

  all_ok : Flags
  all_ok = record { int2_ok = true; int4_ok = true; int8_ok = true }

  -- pg_array_types
  array_oid : ℤ → Option ℕ
  array_oid (pos n) =
      if n == 16
      then some 1000
      else if n == 701
      then some 1022
      else if n == 1043
      then some 1009
      else none
  array_oid (negsuc n) = none

  -- The oid of an element that make_params gives, with 25 for 705 and 1043.
  element_oid : ℤ → ℤ
  element_oid (pos n) = if n == 705 || n == 1043 then pos 25 else pos n
  element_oid z = z

  -- Only a float's oid gets here; booleans are integers.
  closure_of : Option ℕ → Result Param
  closure_of none = err array_content_not_supported
  closure_of (some oid) = ok (record { oid = pos oid; fc = fc_binary; func = send_float_array })

  element_param : Result Param → Result Param
  unfolding closure_of array_oid element_oid
  element_param (ok p) = closure_of (array_oid (element_oid p.oid))
  element_param (err e) = err array_content_not_supported

  inspect_scalar : PyValues → Scalar → Result Param
  unfolding flag_all int_array_param element_param scalar_param all_ok
  inspect_scalar arr (int_value z) = do
    flags ← flag_all all_ok (array_flatten arr)
    int_array_param flags
  inspect_scalar arr (bool_value b) = do
    flags ← flag_all all_ok (array_flatten arr)
    int_array_param flags
  inspect_scalar arr v = element_param (scalar_param v)

  -- A tuple gets an array's oid at best, which pg_array_types lacks too. A TypeError that comparing its
  -- own elements with the bounds would raise before that is not modelled.
  inspect_first : PyValues → Option PyValue → Result Param
  unfolding inspect_scalar
  inspect_first arr none = err key_error
  inspect_first arr (some (scalar v)) = inspect_scalar arr v
  inspect_first arr (some v) = err array_content_not_supported

  -- KeyError where no element is there: pg_array_types has no entry for 25.
  unfoldable pub array_inspect : PyValues → Result Param
  unfolding inspect_first
  array_inspect arr = inspect_first arr (array_find_first_element arr)

  -- The handler of KeyError asks `inspect_funcs` again, then raises NotSupportedError.
  not_mapped : Result Param → Result Param
  not_mapped (err key_error) = err (not_supported_error "not mapped to pg type")
  not_mapped r = r

  unfoldable pub make_param : PyValue → Result Param
  unfolding not_mapped scalar_param
  make_param (list_value vs) = not_mapped (array_inspect vs)
  make_param (tuple_value vs) = not_mapped (array_inspect vs)
  make_param (scalar v) = scalar_param v

  unfoldable pub make_params : List PyValue → Result (List Param)
  unfolding make_param
  make_params [] = ok []
  make_params (v ∷ vs) = do p ← make_param v; ps ← make_params vs; ok (p ∷ ps)

-- `isinstance(v, typ)`: an integer, a boolean being one, or a float.
is_int_func : ParamFunc → Bool
is_int_func (int_func f) = true
is_int_func func = false

is_float_func : ParamFunc → Bool
is_float_func d_pack = true
is_float_func func = false

unfoldable pub of_type : ParamFunc → Scalar → Bool
unfolding is_int_func is_float_func
of_type func (int_value z) = is_int_func func
of_type func (bool_value b) = is_int_func func
of_type func (float_value w) = is_float_func func
of_type func v = false

abbrev pub is_none : Scalar → Bool
is_none none_value = true
is_none v = false

-- The values, each behind its length.
unfoldable pub send_element : (ℤ → ℤ) → ParamFunc → PyValue → Result Bytes
unfolding of_type
send_element float_micros func (scalar v) =
    if is_none v
    then ok null_bytes
    else if of_type func v
    then (do
      inner_data ← send_scalar float_micros func v
      len ← pack i (pos (length inner_data))
      ok (len ++ inner_data))
    else err array_content_not_homogenous
send_element float_micros func v = err array_content_not_homogenous

unfoldable pub send_elements : (ℤ → ℤ) → ParamFunc → List PyValue → Result Bytes
unfolding send_element
send_elements float_micros func [] = ok []
send_elements float_micros func (v ∷ vs) = do
  first ← send_element float_micros func v
  rest ← send_elements float_micros func vs
  ok (first ++ rest)

-- ii_pack(i, 1)
unfoldable pub send_dims : List ℕ → Result Bytes
send_dims [] = ok []
send_dims (n ∷ ns) = do
  len ← pack i (pos n)
  lower ← pack i (pos 1)
  rest ← send_dims ns
  ok (len ++ (lower ++ rest))

unfoldable pub send_array : (ℤ → ℤ) → ℕ → ParamFunc → PyValues → Result Bytes
unfolding send_elements send_dims array_has_null
send_array float_micros oid func arr = do
  checked ← array_check_dimensions arr
  dims ← pack i (pos (length (array_dim_lengths arr)))
  nulls ← pack i (bool_number (array_has_null arr))
  typ ← pack i (pos oid)
  lengths ← send_dims (array_dim_lengths arr)
  elements ← send_elements float_micros func (array_flatten arr)
  ok (dims ++ (nulls ++ (typ ++ (lengths ++ elements))))

-- `send_func(value)`
unfoldable pub send_param : (ℤ → ℤ) → ParamFunc → PyValue → Result Bytes
unfolding send_array send_scalar
send_param float_micros (send_int_array oid f) (list_value vs) =
    send_array float_micros oid (int_func f) vs
send_param float_micros (send_int_array oid f) (tuple_value vs) =
    send_array float_micros oid (int_func f) vs
send_param float_micros send_float_array (list_value vs) = send_array float_micros 701 d_pack vs
send_param float_micros send_float_array (tuple_value vs) = send_array float_micros 701 d_pack vs
send_param float_micros func (scalar v) = send_scalar float_micros func v
send_param float_micros func v = err type_error
