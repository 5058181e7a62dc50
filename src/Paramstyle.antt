-- ===== src/Paramstyle.antt =====
-- redshift_connector/core.py, `convert_paramstyle`: the scanner that replaces the placeholders of
-- a query by `$1`, `$2`, … . `isalnum` is Python's `str.isalnum` on one character, whose Unicode
-- tables are no part of the repository: a parameter.
pub mod Invariant
pub mod Template
use mathlib.Core.List.{head?}
use amazon_redshift_python_d.Prelude.{
  ℕ, suc, ◌+◌, ◌≡◌, refl, Bool, true, false, not, ◌&&◌, ◌||◌, Option, none, some, List, [], ◌∷◌,
  ◌++◌, ◌==◌, if◌then◌else◌, length,
}
use amazon_redshift_python_d.Prelude.Result.{Result, ok, err, type_error, interface_error, ◌>>=◌}
use amazon_redshift_python_d.Prelude.Text.{Text, text_eq, in_text, codes, decimal}

pub data Style : Type 0 where
  qmark numeric named format pyformat : Style

-- OUTSIDE, INSIDE_SQ, INSIDE_QI, INSIDE_ES, INSIDE_PN and INSIDE_CO.
pub data State : Type 0 where
  outside inside_sq inside_qi inside_es inside_pn inside_co : State

-- The local variables of the loop. The last element of `placeholders` while a name is being read,
-- `placeholders[-1]`, is `current`; `next_param` is the number that `next(param_idx)` gives.
pub record Scanner : Type 0 where
  pub style : Style
  pub state : State
  pub in_quote_escape : Bool
  pub in_param_escape : Bool
  pub placeholders : List Text
  pub current : Option Text
  pub output : Text
  pub next_param : ℕ
  pub prev_c : Option ℕ

-- Equality and membership tests against a character that may be missing.
abbrev pub is_char : Option ℕ → ℕ → Bool
is_char none c = false
is_char (some d) c = d == c

-- `"$" + str(n)`
abbrev pub dollar : ℕ → Text
dollar n = b'$' ∷ decimal n

-- placeholders.index(name, 0, -1)
unfoldable pub index_of : Text → List Text → Option ℕ
index_of name [] = none
index_of name (p ∷ ps) = elim (text_eq p name) [
  | true ↦ some 0
  | false ↦ elim (index_of name ps) [ none ↦ none | some k ↦ some (suc k) ]
]

abbrev pub emit : Text → Scanner → Scanner
emit t s = record s { output = s.output ++ t }

emit_index : Text → Option ℕ → Scanner → Scanner
emit_index name (some k) s = record s {
  state = outside;
  current = none;
  output = s.output ++ dollar (k + 1);
}
emit_index name none s = record s {
  state = outside;
  current = none;
  placeholders = s.placeholders ++ (name ∷ []);
  output = s.output ++ dollar (length s.placeholders + 1);
}

-- The end of a placeholder's name: a name that was read before is deleted again.
unfoldable pub close_name : Text → Scanner → Scanner
unfolding emit_index index_of text_eq
close_name name s = emit_index name (index_of name s.placeholders) s

-- `next_c not in ":="`: Python raises TypeError where `next_c` is None.
colon_starts_name : Scanner → Option ℕ → Result Bool
colon_starts_name s none = err type_error
colon_starts_name s (some n) = ok (not (n == b':' || n == b'=') && not (is_char s.prev_c b':'))

colon : Style → Scanner → Bool → Scanner
colon numeric s true = emit (b'$' ∷ []) s
colon _ s true = record s { state = inside_pn; current = some [] }
colon _ s false = emit (b':' ∷ []) s

abbrev next_dollar : Scanner → Scanner
next_dollar s = record s { output = s.output ++ dollar s.next_param; next_param = s.next_param + 1 }

-- `%` in the styles format and pyformat, where no `%(` starts a name.
percent : Scanner → Option ℕ → Result Scanner
percent s next_c =
    if s.in_param_escape
    then ok (record s { style = format; in_param_escape = false; output = s.output ++ (b'%' ∷ []) })
    else if is_char next_c b'%'
    then ok (record s { style = format; in_param_escape = true })
    else if is_char next_c b's'
    then ok (record (next_dollar s) { style = format; state = inside_pn })
    else err (interface_error "Only %s and %% are supported in the query.")

-- The rest of the ladder of OUTSIDE, which depends on the style.
outside_style : Style → Scanner → ℕ → Option ℕ → Result Scanner
unfolding colon_starts_name colon percent
outside_style qmark s c next_c = ok (if c == b'?' then next_dollar s else emit (c ∷ []) s)
outside_style numeric s c next_c =
    if c == b':'
    then (do starts ← colon_starts_name s next_c; ok (colon numeric s starts))
    else ok (emit (c ∷ []) s)
outside_style named s c next_c =
    if c == b':'
    then (do starts ← colon_starts_name s next_c; ok (colon named s starts))
    else ok (emit (c ∷ []) s)
outside_style format s c next_c = if c == b'%' then percent s next_c else ok (emit (c ∷ []) s)
outside_style pyformat s c next_c =
    if c == b'%' && is_char next_c b'('
    then ok (record s { state = inside_pn; current = some [] })
    else if c == b'%'
    then percent s next_c
    else ok (emit (c ∷ []) s)

step_outside : Scanner → ℕ → Option ℕ → Result Scanner
unfolding outside_style
step_outside s c next_c =
    if c == b'\''
    then ok (record (emit (c ∷ []) s) {
      state = if is_char s.prev_c b'E' then inside_es else inside_sq;
    })
    else if c == b'"'
    then ok (record (emit (c ∷ []) s) { state = inside_qi })
    else if c == b'-'
    then ok
        (record (emit (c ∷ []) s) { state = if is_char s.prev_c b'-' then inside_co else outside })
    else outside_style s.style s c next_c

step_sq : Scanner → ℕ → Option ℕ → Scanner
step_sq s c next_c =
    if c == b'\''
    then if s.in_quote_escape
      then record s { in_quote_escape = false; output = s.output ++ (c ∷ []) }
      else if is_char next_c b'\''
      then record s { in_quote_escape = true; output = s.output ++ (c ∷ []) }
      else record s { state = outside; output = s.output ++ (c ∷ []) }
    else record s { output = s.output ++ (c ∷ []) }

name_of : Option Text → Text
name_of none = []
name_of (some name) = name

module _ (isalnum : ℕ → Bool) where
  name_goes_on : Option ℕ → Bool
  name_goes_on none = false
  name_goes_on (some n) = isalnum n || n == b'_'

  step_pn : Style → Scanner → ℕ → Option ℕ → Scanner
  unfolding name_goes_on close_name name_of
  step_pn named s c next_c =
      let name = name_of s.current ++ (c ∷ []) in
      if name_goes_on next_c then record s { current = some name } else close_name name s
  step_pn pyformat s c next_c =
      if is_char s.prev_c b')' && c == b's'
      then close_name (name_of s.current) s
      else if c == b'(' || c == b')'
      then s
      else record s { current = some (name_of s.current ++ (c ∷ [])) }
  step_pn format s c next_c = record s { state = outside }
  step_pn _ s c next_c = s

  step_in : State → Scanner → ℕ → Option ℕ → Result Scanner
  unfolding step_outside step_sq
  step_in outside s c next_c = step_outside s c next_c
  step_in inside_sq s c next_c = ok (step_sq s c next_c)
  step_in inside_qi s c next_c =
      ok (record (emit (c ∷ []) s) { state = if c == b'"' then outside else inside_qi })
  step_in inside_es s c next_c = ok (record (emit (c ∷ []) s) {
    state = if c == b'\'' && not (is_char s.prev_c b'\\') then outside else inside_es;
  })
  step_in inside_pn s c next_c = ok (step_pn s.style s c next_c)
  step_in inside_co s c next_c =
      ok (record (emit (c ∷ []) s) { state = if c == b'\n' then outside else inside_co })

  -- One round of the loop.
  unfoldable pub step : Scanner → ℕ → Option ℕ → Result Scanner
  unfolding step_in step_pn
  step s c next_c = do s' ← step_in s.state s c next_c; ok (record s' { prev_c = some c })

  unfoldable pub scan : Scanner → Text → Result Scanner
  scan s [] = ok s
  scan s (c ∷ cs) = do s' ← step s c (head? cs); scan s' cs

abbrev pub initial : Style → Scanner
initial style = record {
  style = style;
  state = outside;
  in_quote_escape = false;
  in_param_escape = false;
  placeholders = [];
  current = none;
  output = [];
  next_param = 1;
  prev_c = none;
}

abbrev pub all_placeholders : List Text → Option Text → List Text
all_placeholders ps none = ps
all_placeholders ps (some name) = ps ++ (name ∷ [])

-- `make_args`: the values go through, or are looked up by the names of the placeholders.
pub data MakeArgs : Type 0 where
  pass : MakeArgs
  by_name : List Text → MakeArgs

make_args_of : Style → List Text → MakeArgs
make_args_of named ps = by_name ps
make_args_of pyformat ps = by_name ps
make_args_of _ ps = pass

unfoldable pub convert_paramstyle : (ℕ → Bool) → Style → Text → Result (Text × MakeArgs)
unfolding scan make_args_of
convert_paramstyle isalnum style query = do
  s ← scan isalnum (initial style) query
  ok (s.output, make_args_of s.style (all_placeholders s.placeholders s.current))
