-- ===== src/Paramstyle/Template/Scan.antt =====
-- The scanner on the pieces of a template, one piece after the other.
use mathlib.Core.List.{head?, append_assoc, append-nil}
use amazon_redshift_python_d.Prelude.{
  ℕ, ◌≡◌, ◌∙◌, inl, inr, refl, ap, Bool, true, false, Option, none, some, List, [], ◌∷◌, ◌++◌,
  arith, ◌==◌, Bool-cases, All,
}
use amazon_redshift_python_d.Prelude.Result.{ok}
use amazon_redshift_python_d.Prelude.Text.{Text}
use amazon_redshift_python_d.Paramstyle.{
  named, State, outside, inside_sq, inside_qi, inside_es, inside_pn, inside_co, Scanner, is_char,
  dollar, index_of, scan, by_name, convert_paramstyle, step,
}
use amazon_redshift_python_d.Paramstyle.Template.{
  Piece, plain, quoted, ident, comment, param, render_piece, render, number_of, names_after, expand,
  names_of, is_name_char, EndsName, IsPiece, IsTemplate,
}

module _ (isalnum : ℕ → Bool) where
  -- The scanner between pieces, and in the state `st`.
  abbrev in_state : State → Option Text → List Text → Text → Option ℕ → Scanner
  in_state st current names out prev = record {
    style = named;
    state = st;
    in_quote_escape = false;
    in_param_escape = false;
    placeholders = names;
    current = current;
    output = out;
    next_param = 1;
    prev_c = prev;
  }

  abbrev between : List Text → Text → Option ℕ → Scanner
  between = in_state outside none

  push_char : (out b : Text) (c : ℕ) → (out ++ (c ∷ [])) ++ b ≡ out ++ (c ∷ b)
  push_char out b c = rw append_assoc

  sq_body :
      (b rest : Text) (names : List Text) (out : Text) (prev : Option ℕ)
      → All (λ c. ((c == b'\'') ≡ false) × ((c == b'\\') ≡ false)) b
      → is_char (head? rest) b'\'' ≡ false
      → scan isalnum (in_state inside_sq none names out prev) (b ++ (b'\'' ∷ rest))
        ≡ scan isalnum (between names (out ++ (b ++ (b'\'' ∷ []))) (some b'\'')) rest
  unfolding scan step
  sq_body [] rest names out prev plain_b next = rw next
  sq_body (c ∷ b) rest names out prev (pc, pb) next =
      rw (pc.0, sq_body b rest names (out ++ (c ∷ [])) (some c) pb next, push_char)

  es_body :
      (b rest : Text) (names : List Text) (out : Text) (prev : Option ℕ)
      → All (λ c. ((c == b'\'') ≡ false) × ((c == b'\\') ≡ false)) b
      → is_char prev b'\\' ≡ false
      → scan isalnum (in_state inside_es none names out prev) (b ++ (b'\'' ∷ rest))
        ≡ scan isalnum (between names (out ++ (b ++ (b'\'' ∷ []))) (some b'\'')) rest
  unfolding scan step
  es_body [] rest names out prev plain_b before = rw before
  es_body (c ∷ b) rest names out prev (pc, pb) before =
      rw (pc.0, es_body b rest names (out ++ (c ∷ [])) (some c) pb pc.1, push_char)

  qi_body :
      (b rest : Text) (names : List Text) (out : Text) (prev : Option ℕ)
      → All (λ c. (c == b'"') ≡ false) b
      → scan isalnum (in_state inside_qi none names out prev) (b ++ (b'"' ∷ rest))
        ≡ scan isalnum (between names (out ++ (b ++ (b'"' ∷ []))) (some b'"')) rest
  unfolding scan step
  qi_body [] rest names out prev plain_b = refl
  qi_body (c ∷ b) rest names out prev (pc, pb) =
      rw (pc, qi_body b rest names (out ++ (c ∷ [])) (some c) pb, push_char)

  co_body :
      (b rest : Text) (names : List Text) (out : Text) (prev : Option ℕ)
      → All (λ c. (c == b'\n') ≡ false) b
      → scan isalnum (in_state inside_co none names out prev) (b ++ (b'\n' ∷ rest))
        ≡ scan isalnum (between names (out ++ (b ++ (b'\n' ∷ []))) (some b'\n')) rest
  unfolding scan step
  co_body [] rest names out prev plain_b = refl
  co_body (c ∷ b) rest names out prev (pc, pb) =
      rw (pc, co_body b rest names (out ++ (c ∷ [])) (some c) pb, push_char)

  abbrev last_char : ℕ → Text → ℕ
  last_char c [] = c
  last_char c (d ∷ ds) = last_char d ds

  -- The scanner behind a name.
  behind_name : List Text → Text → Text → ℕ → Scanner
  unfolding number_of names_after index_of
  behind_name names out n last =
      between (names_after names n (index_of n names))
        (out ++ dollar (number_of names (index_of n names))) (some last)

  pn_end :
      (c : ℕ) (rest acc : Text) (names : List Text) (out : Text) (prev : Option ℕ)
      → EndsName isalnum (head? rest)
      → scan isalnum (in_state inside_pn (some acc) names out prev) (c ∷ rest)
        ≡ scan isalnum (behind_name names out (acc ++ (c ∷ [])) c) rest
  unfolding scan step behind_name
  pn_end c rest acc names out prev ends = ground arith

  pn_body :
      (c : ℕ) (cs rest acc : Text) (names : List Text) (out : Text) (prev : Option ℕ)
      → All (λ d. (is_name_char isalnum d ≡ true) × ((d == b':') ≡ false)) (c ∷ cs)
      → EndsName isalnum (head? rest)
      → scan isalnum (in_state inside_pn (some acc) names out prev) (c ∷ cs ++ rest)
        ≡ scan isalnum (behind_name names out (acc ++ (c ∷ cs)) (last_char c cs)) rest
  pn_body c [] rest acc names out prev (pc, _) ends = pn_end c rest acc names out prev ends
  pn_body c (d ∷ cs) rest acc names out prev (pc, (pd, pcs)) ends =
      goes_on
      ∙ (pn_body d cs rest (acc ++ (c ∷ [])) names out (some c) (pd, pcs) ends ∙ rw push_char)
    where
      goes_on :
          scan isalnum (in_state inside_pn (some acc) names out prev) (c ∷ d ∷ cs ++ rest)
          ≡ scan isalnum
              (in_state inside_pn (some (acc ++ (c ∷ []))) names out (some c))
              (d ∷ cs ++ rest)
      goes_on = unfold scan step in rw pd.0

  last_char_not_colon :
      (c : ℕ) (cs : Text)
      → All (λ d. (is_name_char isalnum d ≡ true) × ((d == b':') ≡ false)) (c ∷ cs)
      → (last_char c cs == b':') ≡ false
  last_char_not_colon c [] (pc, _) = pc.1
  last_char_not_colon c (d ∷ cs) (pc, pcs) = last_char_not_colon d cs pcs

  -- One piece: what it adds to the names and to the output.
  abbrev Passes : Piece → Text → List Text → Text → Option ℕ → List Text → Text → Type 0
  Passes p rest names out prev names' added =
      (prev' : Option ℕ) × (is_char prev' b':' ≡ false)
      × (scan isalnum (between names out prev) (render_piece p rest)
          ≡ scan isalnum (between names' (out ++ added) prev') rest)

  pass_quoted :
      (b rest : Text) (names : List Text) (out : Text) (prev : Option ℕ)
      → IsPiece isalnum (quoted b) rest
      → Passes (quoted b) rest names out prev names (b'\'' ∷ (b ++ (b'\'' ∷ [])))
  unfolding scan step
  pass_quoted b rest names out prev (pb, next) = elim (Bool-cases (is_char prev b'E')) [
    | inl e ↦ (
      some b'\'',
      refl,
      rw e (es_body b rest names (out ++ (b'\'' ∷ [])) (some b'\'') pb refl ∙ rw push_char),
    )
    | inr e ↦ (
      some b'\'',
      refl,
      rw e (sq_body b rest names (out ++ (b'\'' ∷ [])) (some b'\'') pb next ∙ rw push_char),
    )
  ]

  pass_comment :
      (b rest : Text) (names : List Text) (out : Text) (prev : Option ℕ)
      → IsPiece isalnum (comment b) rest
      → Passes (comment b) rest names out prev names (b'-' ∷ b'-' ∷ (b ++ (b'\n' ∷ [])))
  unfolding scan step
  pass_comment b rest names out prev pb = elim (Bool-cases (is_char prev b'-')) [
    | inl e ↦ (
      some b'\n',
      refl,
      rw e (
          co_body (b'-' ∷ b) rest names (out ++ (b'-' ∷ [])) (some b'-') (refl, pb) ∙ rw push_char),
    )
    | inr e ↦ (
      some b'\n',
      refl,
      rw e (
          co_body b rest names ((out ++ (b'-' ∷ [])) ++ (b'-' ∷ [])) (some b'-') pb
          ∙ rw (push_char, push_char)),
    )
  ]

  pass_ident :
      (b rest : Text) (names : List Text) (out : Text) (prev : Option ℕ)
      → IsPiece isalnum (ident b) rest
      → Passes (ident b) rest names out prev names (b'"' ∷ (b ++ (b'"' ∷ [])))
  unfolding scan step
  pass_ident b rest names out prev pb =
      (some b'"', refl, qi_body b rest names (out ++ (b'"' ∷ [])) (some b'"') pb ∙ rw push_char)

  pass_plain :
      (c : ℕ) (rest : Text) (names : List Text) (out : Text) (prev : Option ℕ)
      → IsPiece isalnum (plain c) rest
      → Passes (plain c) rest names out prev names (c ∷ [])
  unfolding scan step
  pass_plain c rest names out prev (sq, qi, dash, colon) = (some c, colon, rw (sq, qi, dash, colon))

  pass_param :
      (n rest : Text) (names : List Text) (out : Text) (prev : Option ℕ)
      → is_char prev b':' ≡ false
      → IsPiece isalnum (param n) rest
      → Passes
          (param n)
          rest
          names
          out
          prev
          (names_after names n (index_of n names))
          (dollar (number_of names (index_of n names)))
  unfolding scan step
  pass_param [] rest names out prev before (name, ends) = absurd name
  pass_param (c ∷ cs) rest names out prev before ((eq, chars), ends) = (
    some (last_char c cs),
    last_char_not_colon c cs chars,
    rw (chars.0.1, eq, before)
        (unfold behind_name in pn_body c cs rest [] names out (some b':') chars ends),
  )

  -- The scan of a whole template, from any names and output.
  abbrev Scans : List Piece → List Text → Text → Option ℕ → Type 0
  Scans ps names out prev =
      (prev' : Option ℕ) × (scan isalnum (between names out prev) (render ps)
        ≡ ok (between (names_of names ps) (out ++ expand names ps) prev'))

  join :
      (p : Piece) (ps : List Piece) (names : List Text) (out : Text) (prev : Option ℕ)
      (names' : List Text) (added : Text) (pass : Passes p (render ps) names out prev names' added)
      → Scans ps names' (out ++ added) pass.0
      → names_of names (p ∷ ps) ≡ names_of names' ps
      → expand names (p ∷ ps) ≡ added ++ expand names' ps
      → Scans (p ∷ ps) names out prev
  unfolding render
  join p ps names out prev names' added (prev', colon, first) (prev'', rest) en ee =
      (prev'', first ∙ (rest ∙ rw (en, ee, append_assoc)))

  closing : (b rest : Text) (c : ℕ) → b ++ (c ∷ rest) ≡ (b ++ (c ∷ [])) ++ rest
  closing b rest c = rw append_assoc

  template_scan :
      (ps : List Piece) (names : List Text) (out : Text) (prev : Option ℕ)
      → IsTemplate isalnum ps
      → is_char prev b':' ≡ false
      → Scans ps names out prev
  template_scan [] names out prev t before =
      (prev, unfold scan render expand names_of in rw append-nil)
  template_scan (plain c ∷ ps) names out prev (tp, tps) before =
      let pass = pass_plain c (render ps) names out prev tp in
      join (plain c) ps names out prev names (c ∷ []) pass
        (template_scan ps names (out ++ (c ∷ [])) pass.0 tps pass.1) (unfold names_of in refl)
        (unfold expand in refl)
  template_scan (quoted b ∷ ps) names out prev (tp, tps) before =
      let pass = pass_quoted b (render ps) names out prev tp in
      let added : Text = b'\'' ∷ (b ++ (b'\'' ∷ [])) in
      join (quoted b) ps names out prev names added pass
        (template_scan ps names (out ++ added) pass.0 tps pass.1) (unfold names_of in refl)
        (unfold expand in ap (λ t. b'\'' ∷ t) (closing b (expand names ps) b'\''))
  template_scan (ident b ∷ ps) names out prev (tp, tps) before =
      let pass = pass_ident b (render ps) names out prev tp in
      let added : Text = b'"' ∷ (b ++ (b'"' ∷ [])) in
      join (ident b) ps names out prev names added pass
        (template_scan ps names (out ++ added) pass.0 tps pass.1) (unfold names_of in refl)
        (unfold expand in ap (λ t. b'"' ∷ t) (closing b (expand names ps) b'"'))
  template_scan (comment b ∷ ps) names out prev (tp, tps) before =
      let pass = pass_comment b (render ps) names out prev tp in
      let added : Text = b'-' ∷ b'-' ∷ (b ++ (b'\n' ∷ [])) in
      join (comment b) ps names out prev names added pass
        (template_scan ps names (out ++ added) pass.0 tps pass.1) (unfold names_of in refl)
        (unfold expand in ap (λ t. b'-' ∷ b'-' ∷ t) (closing b (expand names ps) b'\n'))
  template_scan (param n ∷ ps) names out prev (tp, tps) before =
      let pass = pass_param n (render ps) names out prev before tp in
      let added : Text = dollar (number_of names (index_of n names)) in
      let names' : List Text = names_after names n (index_of n names) in
      join (param n) ps names out prev names' added pass
        (template_scan ps names' (out ++ added) pass.0 tps pass.1) (unfold names_of in refl)
        (unfold expand in refl)

-- On a template, `convert_paramstyle` in the style `named` keeps everything but the parameters
-- verbatim (quoted strings, quoted identifiers and comments included), replaces each parameter by
-- `$` and the number of its name, and has the values looked up by the names in the order of their
-- first places.
pub convert_paramstyle-template :
    (isalnum : ℕ → Bool) (ps : List Piece)
    → IsTemplate isalnum ps
    → convert_paramstyle isalnum named (render ps) ≡ ok (expand [] ps, by_name (names_of [] ps))
unfolding convert_paramstyle
convert_paramstyle-template isalnum ps t =
    let (prev, scans) = template_scan isalnum ps [] [] none t refl in rw scans
