-- ===== src/Types/Args/Texts.antt =====
-- Arrays of texts as parameters.
use amazon_redshift_python_d.Prelude.{ℕ, ◌≡◌, refl, Bool, none, some, List, [], ◌∷◌, ◌++◌}
use amazon_redshift_python_d.Prelude.Result.{
  Exception, Result, ok, err, >>=-eq-ok, array_content_not_supported, not_supported_error,
}
use amazon_redshift_python_d.Prelude.Text.{Text}
use amazon_redshift_python_d.Types.Args.{PyValue, PyValues, Param, scalar, str_value, list_value}
use amazon_redshift_python_d.Types.Args.Arrays.{array_find_first_element}
use amazon_redshift_python_d.Types.Args.Inspect.{array_inspect, make_param, make_params}

make_param-str :
    (between : ℕ → PyValue → Result Bool) (arr : PyValues) (t : Text)
    → array_find_first_element arr ≡ some (scalar (str_value t))
    → make_param between (list_value arr) ≡ err array_content_not_supported
unfolding make_param array_inspect
make_param-str between arr t e = rw e refl

make_param-empty :
    (between : ℕ → PyValue → Result Bool) (arr : PyValues)
    → array_find_first_element arr ≡ none
    → make_param between (list_value arr) ≡ err (not_supported_error "not mapped to pg type")
unfolding make_param array_inspect
make_param-empty between arr e = rw e refl

-- The first value that is refused decides, wherever it stands.
make_params-refused :
    (between : ℕ → PyValue → Result Bool) (before after : List PyValue) (params : List Param)
    (v : PyValue) (e : Exception)
    → make_params between before ≡ ok params
    → make_param between v ≡ err e
    → make_params between (before ++ (v ∷ after)) ≡ err e
unfolding make_params
make_params-refused between [] after params v e accepted refused = rw refused refl
make_params-refused between (u ∷ before) after params v e accepted refused =
    let (p, e1, r1) = >>=-eq-ok (make_param between u) _ accepted in
    let (ps, e2, r2) = >>=-eq-ok (make_params between before) _ r1 in
    rw (e1, make_params-refused between before after ps v e e2 refused) refl

-- A list whose first value other than None is a str cannot be sent, nor one without values other than
-- None: behind parameters that it accepts make_params raises ArrayContentNotSupportedError for the
-- first and NotSupportedError for the second, whatever parameters follow.
pub make_params-texts :
    (between : ℕ → PyValue → Result Bool) (before after : List PyValue) (params : List Param)
    (texts empty : PyValues) (t : Text)
    → make_params between before ≡ ok params
    → array_find_first_element texts ≡ some (scalar (str_value t))
    → array_find_first_element empty ≡ none
    → (make_params between (before ++ (list_value texts ∷ after)) ≡ err array_content_not_supported)
      × (make_params between (before ++ (list_value empty ∷ after))
          ≡ err (not_supported_error "not mapped to pg type"))
make_params-texts between before after params texts empty t accepted found missing = (
  make_params-refused between before after params (list_value texts) array_content_not_supported
      accepted (make_param-str between texts t found),
  make_params-refused between before after params (list_value empty)
      (not_supported_error "not mapped to pg type") accepted
      (make_param-empty between empty missing),
)
