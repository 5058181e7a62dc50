-- ===== src/Tests/Args.antt =====
-- Tests of the parameters.
use amazon_redshift_python_d.Prelude.{true, none, some, ℕ, ◌≡◌, refl, List, [], ◌∷◌, length}
use amazon_redshift_python_d.Prelude.Int.{pos}
use amazon_redshift_python_d.Prelude.Result.{
  ok, err, array_content_not_supported, not_supported_error,
}
use amazon_redshift_python_d.Prelude.Text.{Bytes, codes}
use amazon_redshift_python_d.Types.Params.{SendFunc}
use amazon_redshift_python_d.Types.Args.{
  PyValues, end, item, Param, bool_send, bool_value, str_value, scalar_param, list_value, scalar,
  int_value, none_value, int_func, send_scalar, bool_number,
}
use amazon_redshift_python_d.Types.Args.Arrays.{
  array_check_dimensions, array_dim_lengths, array_find_first_element, array_flatten,
  array_has_null, any_list, check_item, py_len, same_lengths,
}
use amazon_redshift_python_d.Types.Args.Inspect.{
  make_param, make_params, send_array, send_element, send_elements, send_dims,
}
use amazon_redshift_python_d.Types.Args.Shape.{product}
use amazon_redshift_python_d.Types.Args.Sent.{
  HasElements, HasLengths, IsWord, send_array-HasElements,
}
use amazon_redshift_python_d.Types.Args.Texts.{make_params-texts}
use amazon_redshift_python_d.Wire.{pack, be_bytes}
use amazon_redshift_python_d.Tests.Data.{outside_code}

abbrev row : ℕ → PyValues
row n = item (scalar (int_value (pos n))) (item (scalar none_value) end)

-- [[1, None], [2, None]]
abbrev matrix : PyValues
matrix = item (list_value (row 1)) (item (list_value (row 2)) end)

-- Two dimensions, with nulls, of type 21, 2 and 2 elements from index 1 on.
abbrev matrix_bytes : Bytes
matrix_bytes =
    0 ∷ 0 ∷ 0 ∷ 2 ∷ 0 ∷ 0 ∷ 0 ∷ 1 ∷ 0 ∷ 0 ∷ 0 ∷ 21 ∷ 0 ∷ 0 ∷ 0 ∷ 2 ∷ 0 ∷ 0 ∷ 0 ∷ 1 ∷ 0 ∷ 0 ∷ 0 ∷ 2
    ∷ 0 ∷ 0 ∷ 0 ∷ 1 ∷ 0 ∷ 0 ∷ 0 ∷ 2 ∷ 0 ∷ 1 ∷ 255 ∷ 255 ∷ 255 ∷ 255 ∷ 0 ∷ 0 ∷ 0 ∷ 2 ∷ 0 ∷ 2 ∷ 255
    ∷ 255 ∷ 255 ∷ 255 ∷ []

matrix_sent :
    send_array outside_code.float_micros 21 (int_func SendFunc.h_pack) matrix ≡ ok matrix_bytes
unfolding send_array array_check_dimensions array_dim_lengths array_find_first_element array_flatten
    array_has_null any_list check_item py_len same_lengths send_element send_elements send_dims
    send_scalar pack be_bytes
matrix_sent = refl

send_array-HasElements_example :
    (lengths : List ℕ) × (flags : Bytes) × (typ : Bytes) × (header : Bytes) × (elements : Bytes)
    × IsWord (pos (length lengths)) matrix_bytes flags
    × IsWord (bool_number (array_has_null matrix)) flags typ
    × IsWord (pos 21) typ header
    × HasLengths lengths header elements
    × HasElements (product lengths) elements
send_array-HasElements_example =
    send_array-HasElements outside_code.float_micros 21 (int_func SendFunc.h_pack) matrix
      matrix_bytes matrix_sent

abbrev bool_param : Param
bool_param = record { oid = pos 16; fc = 1; func = bool_send }

-- [None, "a"] and [[], [None]]
abbrev texts : PyValues
texts = item (scalar none_value) (item (scalar (str_value (codes "a"))) end)

abbrev no_values : PyValues
no_values = item (list_value end) (item (list_value (item (scalar none_value) end)) end)

one_accepted :
    make_params outside_code.between (scalar (bool_value true) ∷ []) ≡ ok (bool_param ∷ [])
unfolding make_params make_param scalar_param
one_accepted = refl

first_text : array_find_first_element texts ≡ some (scalar (str_value (codes "a")))
unfolding array_find_first_element array_flatten
first_text = refl

first_of_none : array_find_first_element no_values ≡ none
unfolding array_find_first_element array_flatten
first_of_none = refl

make_params-texts_example :
    (make_params outside_code.between (scalar (bool_value true) ∷ list_value texts ∷ [])
      ≡ err array_content_not_supported)
    × (make_params outside_code.between (scalar (bool_value true) ∷ list_value no_values ∷ [])
        ≡ err (not_supported_error "not mapped to pg type"))
make_params-texts_example =
    make_params-texts outside_code.between (scalar (bool_value true) ∷ []) [] (bool_param ∷ [])
      texts no_values (codes "a") one_accepted first_text first_of_none
