-- ===== src/Types/Args/Arrays.antt =====
-- redshift_connector/utils/array_util.py: the walks over nested lists. A tuple is an array at the top
-- alone, and an element anywhere else.
use amazon_redshift_python_d.Prelude.{
  ℕ, suc, Bool, true, false, ◌&&◌, ◌||◌, Option, none, some, List, [], ◌∷◌, ◌++◌, ◌==◌,
  if◌then◌else◌, length,
}
use amazon_redshift_python_d.Prelude.Result.{
  Result, ok, err, ◌>>=◌, type_error, array_dimensions_not_consistent,
}
use amazon_redshift_python_d.Types.Args.{
  Scalar, PyValue, PyValues, scalar, none_value, str_value, bytes_value, pg_text, pg_varchar,
  list_value, tuple_value, end, item,
}

unfoldable mutual
  pub array_flatten : PyValues → List PyValue
  array_flatten end = []
  array_flatten (item v vs) = flatten_item v ++ array_flatten vs

  pub flatten_item : PyValue → List PyValue
  flatten_item (list_value vs) = array_flatten vs
  flatten_item (tuple_value vs) = tuple_value vs ∷ []
  flatten_item (scalar v) = scalar v ∷ []

first_value : List PyValue → Option PyValue
first_value [] = none
first_value (scalar none_value ∷ vs) = first_value vs
first_value (v ∷ vs) = some v

unfoldable pub array_find_first_element : PyValues → Option PyValue
unfolding first_value array_flatten
array_find_first_element arr = first_value (array_flatten arr)

has_none : List PyValue → Bool
has_none [] = false
has_none (scalar none_value ∷ vs) = true
has_none (v ∷ vs) = has_none vs

unfoldable pub array_has_null : PyValues → Bool
unfolding has_none array_flatten
array_has_null arr = has_none (array_flatten arr)

abbrev pub count : PyValues → ℕ
count end = 0
count (item v vs) = suc (count vs)

abbrev pub is_list : PyValue → Bool
is_list (list_value vs) = true
is_list (tuple_value vs) = false
is_list (scalar v) = false

unfoldable pub any_list : PyValues → Bool
any_list end = false
any_list (item v vs) = is_list v || any_list vs

-- len(v); TypeError where it has none.
scalar_len : Scalar → Result ℕ
scalar_len (str_value t) = ok (length t)
scalar_len (pg_text t) = ok (length t)
scalar_len (pg_varchar t) = ok (length t)
scalar_len (bytes_value bs) = ok (length bs)
scalar_len v = err type_error

unfoldable pub py_len : PyValue → Result ℕ
unfolding scalar_len
py_len (list_value vs) = ok (count vs)
py_len (tuple_value vs) = ok (count vs)
py_len (scalar v) = scalar_len v

unfoldable pub same_lengths : List ℕ → List ℕ → Bool
same_lengths [] [] = true
same_lengths [] (n ∷ ns) = false
same_lengths (m ∷ ms) [] = false
same_lengths (m ∷ ms) (n ∷ ns) = m == n && same_lengths ms ns

-- One round of the loop: the lengths of the element against those of the first.
unfoldable pub check_item : ℕ → List ℕ → PyValue → Result (List ℕ) → Result (Unit {0})
unfolding same_lengths py_len
check_item req_len req_inner v inner = do
  ls ← inner
  n ← py_len v
  if n == req_len && same_lengths ls req_inner then ok tt else err array_dimensions_not_consistent

-- No element of a text or of bytes is a list; another scalar has no length.
unfoldable pub check_scalar : Scalar → Result (List ℕ)
unfolding scalar_len
check_scalar v = do n ← scalar_len v; ok []

-- `array_check_dimensions(v)`
unfoldable mutual
  unfolding check_item check_scalar any_list

  pub array_check_dimensions : PyValues → Result (List ℕ)
  array_check_dimensions end = ok []
  array_check_dimensions (item (list_value ws) vs) = do
    inner ← array_check_dimensions ws
    t ← check_item (count ws) inner (list_value ws) (array_check_dimensions ws)
    u ← check_items (count ws) inner vs
    ok (count ws ∷ inner)
  array_check_dimensions (item (tuple_value ws) vs) =
      if any_list vs then err array_dimensions_not_consistent else ok []
  array_check_dimensions (item (scalar v) vs) =
      if any_list vs then err array_dimensions_not_consistent else ok []

  pub check_value : PyValue → Result (List ℕ)
  check_value (list_value vs) = array_check_dimensions vs
  check_value (tuple_value vs) = array_check_dimensions vs
  check_value (scalar v) = check_scalar v

  pub check_items : ℕ → List ℕ → PyValues → Result (Unit {0})
  check_items req_len req_inner end = ok tt
  check_items req_len req_inner (item v vs) = do
    t ← check_item req_len req_inner v (check_value v)
    check_items req_len req_inner vs

unfoldable mutual
  pub array_dim_lengths : PyValues → List ℕ
  array_dim_lengths end = 0 ∷ []
  array_dim_lengths (item v vs) = suc (count vs) ∷ inner_lengths v

  pub inner_lengths : PyValue → List ℕ
  inner_lengths (list_value vs) = array_dim_lengths vs
  inner_lengths (tuple_value vs) = []
  inner_lengths (scalar v) = []
