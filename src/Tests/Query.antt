-- ===== src/Tests/Query.antt =====
-- Tests of `convert_paramstyle`.
use mathlib.Core.List.{head?}
use amazon_redshift_python_d.Prelude.{◌≡◌, refl, List, [], ◌∷◌}
use amazon_redshift_python_d.Prelude.Result.{ok}
use amazon_redshift_python_d.Prelude.Text.{Text, codes, decimal}
use amazon_redshift_python_d.Paramstyle.{named, pyformat, by_name, convert_paramstyle, step}
use amazon_redshift_python_d.Paramstyle.Invariant.{Distinct, named-Distinct}
use amazon_redshift_python_d.Paramstyle.Template.{
  Piece, plain, quoted, param, render, expand, names_of, IsTemplate,
}
use amazon_redshift_python_d.Paramstyle.Template.Scan.{convert_paramstyle-template}
use amazon_redshift_python_d.Tests.Data.{is_alnum}

abbrev query : Text
query = codes ":a,':a',:b=:a "

query_converts :
    convert_paramstyle is_alnum named query
    ≡ ok (codes "$1,':a',$2=$1 ", by_name (codes "a" ∷ codes "b" ∷ []))
unfolding convert_paramstyle step decimal
query_converts = refl

pyformat_converts :
    convert_paramstyle is_alnum pyformat (codes "x=%(n)s")
    ≡ ok (codes "x=$1", by_name (codes "n" ∷ []))
unfolding convert_paramstyle step decimal
pyformat_converts = refl

named-Distinct_example :
    (names : List Text) × (by_name (codes "a" ∷ codes "b" ∷ []) ≡ by_name names) × Distinct names
named-Distinct_example =
    named-Distinct is_alnum query (codes "$1,':a',$2=$1 ") (by_name (codes "a" ∷ codes "b" ∷ []))
      query_converts

abbrev template : List Piece
template =
    param (codes "a")
    ∷ plain b','
    ∷ quoted (codes ":a")
    ∷ plain b','
    ∷ param (codes "b")
    ∷ plain b'='
    ∷ param (codes "a")
    ∷ plain b' '
    ∷ []

template_valid : IsTemplate is_alnum template
unfolding head? render
template_valid = (
  ((refl, ((refl, refl), tt)), refl),
  (
    (refl, refl, refl, refl),
    (
      (((refl, refl), ((refl, refl), tt)), refl),
      (
        (refl, refl, refl, refl),
        (
          ((refl, ((refl, refl), tt)), refl),
          (
            (refl, refl, refl, refl),
            (((refl, ((refl, refl), tt)), refl), ((refl, refl, refl, refl), tt)),
          ),
        ),
      ),
    ),
  ),
)

convert_paramstyle-template_example :
    convert_paramstyle is_alnum named (render template)
    ≡ ok (expand [] template, by_name (names_of [] template))
convert_paramstyle-template_example = convert_paramstyle-template is_alnum template template_valid
