-- ===== src/Types/Args/Shape.antt =====
-- The lengths of an array that array_check_dimensions accepts, and the number of its elements.
use native.Mathlib.Nat.{suc-mul}
use amazon_redshift_python_d.Prelude.{
  ℕ, suc, ◌+◌, ◌*◌, ◌≡◌, refl, ap, ◌∙◌, Bool, true, false, ◌&&◌, ◌||◌, List, [], ◌∷◌, ◌++◌, arith,
  ◌==◌, if◌then◌else◌, length, length-append, All, inl, inr, Bool-cases, ==_iff,
}
use amazon_redshift_python_d.Prelude.Int.{ℤ}
use amazon_redshift_python_d.Prelude.Result.{
  Result, ok, err, >>=-eq-ok, ok-injective, type_error, array_content_not_homogenous,
  array_dimensions_not_consistent,
}
use amazon_redshift_python_d.Prelude.Text.{Bytes}
use amazon_redshift_python_d.Types.Args.{
  Scalar, PyValue, PyValues, scalar, list_value, tuple_value, end, item, ParamFunc, null_bytes,
  none_value, bool_value, int_value, float_value, str_value, bytes_value, pg_text, pg_varchar,
  decimal_value, date_value, time_value, enum_value, naive_datetime, aware_datetime, timedelta,
  interval, pg_json, pg_tsvector, pg_enum, unmapped,
}
use amazon_redshift_python_d.Types.Args.Arrays.{
  any_list, array_check_dimensions, array_dim_lengths, array_flatten, check_item, check_items,
  check_scalar, check_value, count, flatten_item, py_len, same_lengths,
}
use amazon_redshift_python_d.Types.Args.Inspect.{is_none, of_type, send_element, send_elements}

abbrev pub product : List ℕ → ℕ
product [] = 1
product (n ∷ ns) = n * product ns

-- An element that `len` does not take.
abbrev Plain : PyValue → Type 0
Plain (scalar v) = check_scalar v ≡ err type_error
Plain (list_value vs) = ⊥
Plain (tuple_value vs) = ⊥

same_lengths-eq : (ms ns : List ℕ) → same_lengths ms ns ≡ true → ms ≡ ns
unfolding same_lengths
same_lengths-eq [] [] e = refl
same_lengths-eq [] (n ∷ ns) e = cc
same_lengths-eq (m ∷ ms) [] e = cc
same_lengths-eq (m ∷ ms) (n ∷ ns) e = ground (arith, same_lengths-eq ms ns)

-- What an accepted element tells of its lengths.
check_item-same :
    (n : ℕ) (inner : List ℕ) (v : PyValue) (r : Result (List ℕ)) (t : Unit {0})
    → check_item n inner v r ≡ ok t
    → (r ≡ ok inner) × (py_len v ≡ ok n)
unfolding check_item
check_item-same n inner v r t e =
    let (ls, e1, rest) = >>=-eq-ok r _ e in
    let (m, e2, rest2) = >>=-eq-ok (py_len v) _ rest in
    let (p, q) = both ls m rest2 in (e1 ∙ ap ok q, e2 ∙ ap ok p)
  where
    both :
        (ls : List ℕ) (m : ℕ)
        → (if m == n && same_lengths ls inner then ok tt else err array_dimensions_not_consistent)
          ≡ ok t
        → (m ≡ n) × (ls ≡ inner)
    both ls m e = elim (Bool-cases (m == n)) [
      | inl p ↦ elim (Bool-cases (same_lengths ls inner)) [
        | inl q ↦ ((==_iff m n).0 p, same_lengths-eq ls inner q)
        | inr q ↦ ground arith
      ]
      | inr p ↦ ground arith
    ]

-- Without lists the elements are those of the first level.
length-flat : (vs : PyValues) → any_list vs ≡ false → length (array_flatten vs) ≡ count vs
unfolding array_flatten any_list
length-flat end e = refl
length-flat (item (list_value ws) vs) e = cc
length-flat (item (tuple_value ws) vs) e = ap suc (length-flat vs e)
length-flat (item (scalar v) vs) e = ap suc (length-flat vs e)

All-append : {A : Type 0} (P : A → Type 0) (xs ys : List A) → All P (xs ++ ys) → All P xs × All P ys
All-append P [] ys h = (tt, h)
All-append P (x ∷ xs) ys (p, h) = let (a, b) = All-append P xs ys h in ((p, a), b)

-- The lengths that the check found are those of the header, and their product counts the elements.
abbrev Counted : PyValues → List ℕ → Type 0
Counted vs ls =
    (array_dim_lengths vs ≡ count vs ∷ ls) × (length (array_flatten vs) ≡ count vs * product ls)

one_more : (c p : ℕ) → p + c * p ≡ suc c * p
one_more c p = omega (arith, suc-mul c p)

no_more : (p : ℕ) → 0 ≡ 0 * p
no_more p = omega arith

flat_level :
    (b : Bool) (ls : List ℕ)
    → (if b then err array_dimensions_not_consistent else ok []) ≡ ok ls
    → ([] ≡ ls) × (b ≡ false)
flat_level true ls e = cc
flat_level false ls e = (ok-injective [] ls e, refl)

mutual
  unfolding array_check_dimensions array_dim_lengths array_flatten

  pub check-Counted :
      (vs : PyValues) (ls : List ℕ)
      → array_check_dimensions vs ≡ ok ls
      → All Plain (array_flatten vs)
      → Counted vs ls
  check-Counted end ls e plain = (ap (λ l. 0 ∷ l) (ok-injective [] ls e), omega arith)
  check-Counted (item (list_value ws) vs) ls e plain =
      let (inner, e1, r1) = >>=-eq-ok (array_check_dimensions ws) _ e in
      let (t, e2, r2) = >>=-eq-ok (check_item (count ws) inner (list_value ws) _) _ r1 in
      let (u, e3, r3) = >>=-eq-ok (check_items (count ws) inner vs) _ r2 in
      let (p, q) = All-append Plain (array_flatten ws) (array_flatten vs) plain in
      let (dims, elements) = check-Counted ws inner e1 p in
      let same : count ws ∷ inner ≡ ls = ok-injective (count ws ∷ inner) ls r3 in
      (
        ap (λ l. suc (count vs) ∷ l) (dims ∙ same),
        rw
            (
              ← same,
              length-append (array_flatten ws) (array_flatten vs),
              elements,
              items-Counted vs (count ws) inner u e3 q,
            )
            (one_more (count vs) (count ws * product inner)),
      )
  check-Counted (item (tuple_value ws) vs) ls e (p, plain) = absurd p
  check-Counted (item (scalar v) vs) ls e (p, plain) =
      let (same, none_there) = flat_level (any_list vs) ls e in
      (rw (← same) refl, rw (← same, length-flat vs none_there) (omega arith))

  items-Counted :
      (vs : PyValues) (n : ℕ) (inner : List ℕ) (t : Unit {0})
      → check_items n inner vs ≡ ok t
      → All Plain (array_flatten vs)
      → length (array_flatten vs) ≡ count vs * (n * product inner)
  items-Counted end n inner t e plain = no_more (n * product inner)
  items-Counted (item v vs) n inner t e plain =
      let (p, q) = All-append Plain (flatten_item v) (array_flatten vs) plain in
      let (u, e1, rest) = >>=-eq-ok (check_item n inner v (check_value v)) _ e in
      let (lengths, len) = check_item-same n inner v (check_value v) u e1 in
      rw
        (
          length-append (flatten_item v) (array_flatten vs),
          value-Counted v n inner lengths len p,
          items-Counted vs n inner t rest q,
        )
        (one_more (count vs) (n * product inner))

  value-Counted :
      (v : PyValue) (n : ℕ) (inner : List ℕ)
      → check_value v ≡ ok inner
      → py_len v ≡ ok n
      → All Plain (flatten_item v)
      → length (flatten_item v) ≡ n * product inner
  value-Counted (list_value ws) n inner e1 e2 plain =
      rw (← ok-injective (count ws) n e2) (check-Counted ws inner e1 plain).1
  value-Counted (tuple_value ws) n inner e1 e2 (p, plain) = absurd p
  value-Counted (scalar v) n inner e1 e2 (p, plain) = cc

-- An element that is sent is None or of the array's type, and has no length.
sent-Plain :
    (func : ParamFunc) (v : Scalar)
    → (is_none v || of_type func v) ≡ true
    → check_scalar v ≡ err type_error
unfolding of_type check_scalar
sent-Plain func none_value e = refl
sent-Plain func (bool_value b) e = refl
sent-Plain func (int_value z) e = refl
sent-Plain func (float_value w) e = refl
sent-Plain func (str_value t) e = cc
sent-Plain func (bytes_value bs) e = cc
sent-Plain func (pg_text t) e = cc
sent-Plain func (pg_varchar t) e = cc
sent-Plain func (decimal_value t) e = refl
sent-Plain func (date_value t) e = refl
sent-Plain func (time_value t) e = refl
sent-Plain func (enum_value t) e = refl
sent-Plain func (naive_datetime z) e = refl
sent-Plain func (aware_datetime z) e = refl
sent-Plain func (timedelta z) e = refl
sent-Plain func (interval x y z) e = refl
sent-Plain func (pg_json t) e = refl
sent-Plain func (pg_tsvector t) e = refl
sent-Plain func (pg_enum t) e = refl
sent-Plain func unmapped e = refl

send_element-Plain :
    (float_micros : ℤ → ℤ) (func : ParamFunc) (v : PyValue) (bs : Bytes)
    → send_element float_micros func v ≡ ok bs
    → Plain v
unfolding send_element
send_element-Plain float_micros func (list_value vs) bs e = cc
send_element-Plain float_micros func (tuple_value vs) bs e = cc
send_element-Plain float_micros func (scalar v) bs e =
    sent-Plain func v (either (is_none v) (of_type func v) _ bs e)
  where
    either :
        (a b : Bool) (r : Result Bytes) (bs : Bytes)
        → (if a then ok null_bytes else if b then r else err array_content_not_homogenous) ≡ ok bs
        → (a || b) ≡ true
    either true b r bs e = refl
    either false true r bs e = refl
    either false false r bs e = cc

pub send_elements-Plain :
    (float_micros : ℤ → ℤ) (func : ParamFunc) (vs : List PyValue) (bs : Bytes)
    → send_elements float_micros func vs ≡ ok bs
    → All Plain vs
unfolding send_elements
send_elements-Plain float_micros func [] bs e = tt
send_elements-Plain float_micros func (v ∷ vs) bs e =
    let (b, e1, rest) = >>=-eq-ok (send_element float_micros func v) _ e in
    let (c, e2, last) = >>=-eq-ok (send_elements float_micros func vs) _ rest in
    (send_element-Plain float_micros func v b e1, send_elements-Plain float_micros func vs c e2)
