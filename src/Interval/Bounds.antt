-- ===== src/Interval/Bounds.antt =====
-- The bounds of an Interval's attributes.
use mathlib.Core.Path.{subst}
use amazon_redshift_python_d.Prelude.{
  ℕ, ◌≡◌, refl, true, Option, none, some, List, [], ◌∷◌, Bool-cases, inl, inr,
}
use amazon_redshift_python_d.Prelude.Int.{ℤ}
use amazon_redshift_python_d.Prelude.Result.{Result, ok, err, ◌>>=◌, >>=-eq-ok, ok-injective}
use amazon_redshift_python_d.Types.Args.{PyValue}
use amazon_redshift_python_d.Types.Params.{within}
use amazon_redshift_python_d.Interval.{
  Interval, Attribute, bounded, in_range, max_int4, max_int8, new_interval, set_attribute, set_days,
  set_microseconds, set_months,
}

pub record IsBounded (v : Interval) : Type 0 where
  pub microseconds : within max_int8 v.microseconds ≡ true
  pub days : within max_int4 v.days ≡ true
  pub months : within max_int4 v.months ≡ true

-- Assignments one after the other: one that raises leaves the interval as it is.
abbrev kept : Interval → Result Interval → Interval
kept v (ok w) = w
kept v (err e) = v

unfoldable pub set_all : List (Attribute × PyValue) → Interval → Interval
set_all [] v = v
set_all ((a, value) ∷ rest) v = set_all rest (kept v (set_attribute a value v))

bounded-within : (limit : ℕ) (o : Option ℤ) (z : ℤ) → bounded limit o ≡ ok z → within limit z ≡ true
bounded-within limit none z e = cc
bounded-within limit (some y) z e = elim (Bool-cases (within limit y)) [
  | inl yes' ↦ cc
  | inr no' ↦ cc
]

in_range-within :
    (limit : ℕ) (value : PyValue) (z : ℤ) → in_range limit value ≡ ok z → within limit z ≡ true
unfolding in_range
in_range-within limit value z e = bounded-within limit _ z e

new_interval-IsBounded :
    (microseconds days months : PyValue) (v : Interval)
    → new_interval microseconds days months ≡ ok v
    → IsBounded v
unfolding new_interval
new_interval-IsBounded microseconds days months v e =
    let (m, e1, r1) = >>=-eq-ok (in_range max_int8 microseconds) _ e in
    let (d, e2, r2) = >>=-eq-ok (in_range max_int4 days) _ r1 in
    let (n, e3, r3) = >>=-eq-ok (in_range max_int4 months) _ r2 in
    made v m d n (in_range-within max_int8 microseconds m e1) (in_range-within max_int4 days d e2)
      (in_range-within max_int4 months n e3) r3
  where
    made :
        (v : Interval) (m d n : ℤ)
        → within max_int8 m ≡ true
        → within max_int4 d ≡ true
        → within max_int4 n ≡ true
        → ok (record { microseconds = m; days = d; months = n }) ≡ ok v
        → IsBounded v
    made v m d n p q r e =
        subst IsBounded (ok-injective _ v e) (record { microseconds = p; days = q; months = r })

given :
    (r : Result ℤ) (f : ℤ → Interval) (v : Interval)
    → ((z : ℤ) → r ≡ ok z → IsBounded (f z))
    → IsBounded v
    → IsBounded (kept v (r >>= λ z. ok (f z)))
given (ok z) f v new b = new z refl
given (err e) f v new b = b

set_attribute-IsBounded :
    (a : Attribute) (value : PyValue) (v : Interval)
    → IsBounded v
    → IsBounded (kept v (set_attribute a value v))
unfolding set_attribute
set_attribute-IsBounded set_microseconds value v b =
    given _ (λ z. record v { microseconds = z }) v
      (λ z e. record {
        microseconds = in_range-within max_int8 value z e;
        days = b.days;
        months = b.months;
      })
      b
set_attribute-IsBounded set_days value v b =
    given _ (λ z. record v { days = z }) v
      (λ z e. record {
        microseconds = b.microseconds;
        days = in_range-within max_int4 value z e;
        months = b.months;
      })
      b
set_attribute-IsBounded set_months value v b =
    given _ (λ z. record v { months = z }) v
      (λ z e. record {
        microseconds = b.microseconds;
        days = b.days;
        months = in_range-within max_int4 value z e;
      })
      b

set_all-kept :
    (sets : List (Attribute × PyValue)) (v : Interval) → IsBounded v → IsBounded (set_all sets v)
unfolding set_all
set_all-kept [] v b = b
set_all-kept ((a, value) ∷ rest) v b =
    set_all-kept rest (kept v (set_attribute a value v)) (set_attribute-IsBounded a value v b)

-- An Interval that was made, whatever was assigned to its attributes since, has microseconds between
-- -2^63 and 2^63 and days and months between -2^31 and 2^31, all excluded.
pub set_all-IsBounded :
    (microseconds days months : PyValue) (v : Interval) (sets : List (Attribute × PyValue))
    → new_interval microseconds days months ≡ ok v
    → IsBounded (set_all sets v)
set_all-IsBounded microseconds days months v sets e =
    set_all-kept sets v (new_interval-IsBounded microseconds days months v e)
