-- ===== src/Paramstyle/Invariant.antt =====
-- `convert_paramstyle`: the names of the placeholders stay distinct, and a name is never left open
-- in the style `named`.
use amazon_redshift_python_d.Prelude.{
  ℕ, ◌≡◌, ◌∙◌, inl, inr, refl, Bool, false, Option, none, some, List, [], ◌∷◌, ◌++◌, arith,
  Bool-cases,
}
use amazon_redshift_python_d.Prelude.Result.{Result, ok, err, ◌>>=◌, >>=-eq-ok}
use amazon_redshift_python_d.Prelude.Text.{Text, text_eq}
use mathlib.Core.List.{head?}
use amazon_redshift_python_d.Paramstyle.{
  step_in, step_pn, name_of, Style, named, pyformat, State, outside, inside_sq, inside_qi,
  inside_es, inside_pn, inside_co, Scanner, index_of, close_name, step, scan, initial, MakeArgs,
  by_name, convert_paramstyle,
}

-- No name stands twice.
abbrev pub Distinct : List Text → Type 0
Distinct [] = Unit {0}
Distinct (p ∷ ps) = (index_of p ps ≡ none) × Distinct ps

-- A name that is found nowhere in `ps ++ [q]` is none of them.
index_of-append :
    (p q : Text) (ps : List Text)
    → index_of p ps ≡ none
    → text_eq q p ≡ false
    → index_of p (ps ++ (q ∷ [])) ≡ none
unfolding index_of
index_of-append p q [] e ne = ground arith
index_of-append p q (r ∷ ps) e ne = ground (arith, index_of-append p q ps)

text_eq_sym : (xs ys : Text) → text_eq xs ys ≡ text_eq ys xs
unfolding text_eq
text_eq_sym [] [] = refl
text_eq_sym [] (y ∷ ys) = refl
text_eq_sym (x ∷ xs) [] = refl
text_eq_sym (x ∷ xs) (y ∷ ys) = ground (arith, text_eq_sym xs ys)

Distinct-append :
    (name : Text) (ps : List Text)
    → Distinct ps
    → index_of name ps ≡ none
    → Distinct (ps ++ (name ∷ []))
unfolding index_of
Distinct-append name [] d e = (refl, tt)
Distinct-append name (p ∷ ps) d e = elim (Bool-cases (text_eq p name)) [
  | inl same ↦ ground arith
  | inr other ↦ (
    index_of-append p name ps d.0 (text_eq_sym name p ∙ other),
    Distinct-append name ps d.1 (ground arith),
  )
]

close_name-Distinct :
    (name : Text) (s : Scanner)
    → Distinct s.placeholders
    → Distinct (close_name name s).placeholders
unfolding close_name
close_name-Distinct name s d = ground (arith, Distinct-append name s.placeholders d)

module _ (isalnum : ℕ → Bool) where
  step_pn-Distinct :
      (style : Style) (s : Scanner) (c : ℕ) (next_c : Option ℕ)
      → Distinct s.placeholders
      → Distinct (step_pn isalnum style s c next_c).placeholders
  unfolding step_pn
  step_pn-Distinct named s c next_c d =
      ground (arith, close_name-Distinct (name_of s.current ++ (c ∷ [])) s)
  step_pn-Distinct pyformat s c next_c d = ground (arith, close_name-Distinct (name_of s.current) s)
  step_pn-Distinct _ s c next_c d = d

  step_in-Distinct :
      (st : State) (s s' : Scanner) (c : ℕ) (next_c : Option ℕ)
      → Distinct s.placeholders
      → step_in isalnum st s c next_c ≡ ok s'
      → Distinct s'.placeholders
  step_in-Distinct outside s s' c next_c d e = unfold step_in in ground arith
  step_in-Distinct inside_sq s s' c next_c d e = unfold step_in in ground arith
  step_in-Distinct inside_pn s s' c next_c d e =
      unfold step_in in ground (arith, step_pn-Distinct s.style s c next_c)
  step_in-Distinct inside_qi s s' c next_c d e = unfold step_in in ground arith
  step_in-Distinct inside_es s s' c next_c d e = unfold step_in in ground arith
  step_in-Distinct inside_co s s' c next_c d e = unfold step_in in ground arith

  -- Inversion of one round.
  step_cases :
      (s : Scanner) (c : ℕ) (cs : Text) {s' : Scanner}
      → scan isalnum s (c ∷ cs) ≡ ok s'
      → (t : Scanner) × (step_in isalnum s.state s c (head? cs) ≡ ok t)
        × (scan isalnum (record t { prev_c = some c }) cs ≡ ok s')
  unfolding scan step
  step_cases s c cs {s'} e = go (step_in isalnum s.state s c (head? cs)) refl e
    where
      go :
          (r : Result Scanner)
          → step_in isalnum s.state s c (head? cs) ≡ r
          → ((r >>= λ t. ok (record t { prev_c = some c })) >>= λ t. scan isalnum t cs) ≡ ok s'
          → (t : Scanner) × (step_in isalnum s.state s c (head? cs) ≡ ok t)
            × (scan isalnum (record t { prev_c = some c }) cs ≡ ok s')
      go (ok t) p q = (t, p, q)
      go (err x) p q = cc

  pub scan-Distinct :
      (query : Text) (s s' : Scanner)
      → Distinct s.placeholders
      → scan isalnum s query ≡ ok s'
      → Distinct s'.placeholders
  scan-Distinct [] s s' d e = unfold scan in ground arith
  scan-Distinct (c ∷ cs) s s' d e =
      let (t, p, q) = step_cases s c cs e in
      scan-Distinct cs (record t { prev_c = some c }) s'
        (step_in-Distinct s.state s t c (head? cs) d p) q

  -- In the style `named` a name is open in INSIDE_PN only.
  abbrev NameClosed : State → Option Text → Type 0
  NameClosed inside_pn o = Unit {0}
  NameClosed _ o = o ≡ none

  abbrev IsNamed : Scanner → Type 0
  IsNamed s = (s.style ≡ named) × NameClosed s.state s.current

  step_in-named :
      (st : State) (s s' : Scanner) (c : ℕ) (next_c : Option ℕ)
      → s.state ≡ st
      → s.style ≡ named
      → NameClosed st s.current
      → step_in isalnum st s c next_c ≡ ok s'
      → IsNamed s'
  unfolding step_in step_pn
  step_in-named outside s s' c next_c at_st sn k e = ground arith
  step_in-named inside_pn s s' c next_c at_st sn k e = ground arith
  step_in-named inside_sq s s' c next_c at_st sn k e = ground arith
  step_in-named inside_qi s s' c next_c at_st sn k e = ground arith
  step_in-named inside_es s s' c next_c at_st sn k e = ground arith
  step_in-named inside_co s s' c next_c at_st sn k e = ground arith

  -- At the last character no name stays open.
  step_in-last :
      (st : State) (s s' : Scanner) (c : ℕ)
      → s.style ≡ named
      → NameClosed st s.current
      → step_in isalnum st s c none ≡ ok s'
      → s'.current ≡ none
  unfolding step_in step_pn
  step_in-last outside s s' c sn k e = ground arith
  step_in-last inside_pn s s' c sn k e = ground arith
  step_in-last inside_sq s s' c sn k e = ground arith
  step_in-last inside_qi s s' c sn k e = ground arith
  step_in-last inside_es s s' c sn k e = ground arith
  step_in-last inside_co s s' c sn k e = ground arith

  scan-closed :
      (c : ℕ) (cs : Text) (s s' : Scanner)
      → IsNamed s
      → scan isalnum s (c ∷ cs) ≡ ok s'
      → (s'.style ≡ named) × (s'.current ≡ none)
  scan-closed c [] s s' n e =
      let (t, p, q) = step_cases s c [] e in
      let last = step_in-last s.state s t c n.0 n.1 p in
      let keeps = step_in-named s.state s t c none refl n.0 n.1 p in
      unfold scan in ground (arith, keeps.0)
  scan-closed c (d ∷ cs) s s' n e =
      let (t, p, q) = step_cases s c (d ∷ cs) e in
      scan-closed d cs (record t { prev_c = some c }) s'
        (step_in-named s.state s t c (some d) refl n.0 n.1 p) q

  -- What the scan leaves in the style `named`.
  named_scan :
      (query : Text) (s : Scanner)
      → scan isalnum (initial named) query ≡ ok s
      → (s.style ≡ named) × (s.current ≡ none)
  named_scan [] s e = unfold scan in ground arith
  named_scan (c ∷ cs) s e = scan-closed c cs (initial named) s (refl, refl) e

-- In the style `named`, whenever the query is converted: the values are looked up by name, and no
-- name is looked up twice.
pub named-Distinct :
    (isalnum : ℕ → Bool) (query out : Text) (how : MakeArgs)
    → convert_paramstyle isalnum named query ≡ ok (out, how)
    → (names : List Text) × (how ≡ by_name names) × Distinct names
unfolding convert_paramstyle
named-Distinct isalnum query out how e =
    let (s, p, q) = >>=-eq-ok (scan isalnum (initial named) query) _ e in
    let (is_named, closed) = named_scan isalnum query s p in
    (s.placeholders, ground arith, scan-Distinct isalnum query (initial named) s tt p)
