-- ===== src/Prelude/Keeps.antt =====
-- Predicates on the state that an action keeps, whether it returns or raises.
use amazon_redshift_python_d.Prelude.{Bool, true, false, if◌then◌else◌}
use amazon_redshift_python_d.Prelude.Result.{Exception, Result, ok, err}
use amazon_redshift_python_d.Prelude.Action.{
  Action, continue, raise, lift, self, modify, finally_do, except_do, handle_error, ◌>>=◌, ◌>>◌,
}

pub data Keeps {S A : Type 0} (P : S → Type 0) (m : Action S A) : Type 0 where
  each : ((s : S) → P s → P (m s).1) → Keeps P m

module _ {S : Type 0} {P : S → Type 0} where
  pub Keeps_lem : {A : Type 0} {m : Action S A} → Keeps P m → (s : S) → P s → P (m s).1
  Keeps_lem (each f) = f

  pub lift-Keeps : {A : Type 0} (r : Result A) → Keeps P (lift r)
  lift-Keeps r = each (λ s p. p)

  pub raise-Keeps : {A : Type 0} (e : Exception) → Keeps P (raise {A = A} e)
  raise-Keeps e = each (λ s p. p)

  pub self-Keeps : Keeps P self
  self-Keeps = each (λ s p. p)

  continued :
      {A B : Type 0} (r : Result A) (s : S) (f : A → Action S B)
      → P s
      → ((a : A) → Keeps P (f a))
      → P (continue r s f).1
  continued (ok a) s f p keeps = Keeps_lem (keeps a) s p
  continued (err e) s f p keeps = p

  pub bind-Keeps :
      {A B : Type 0} {m : Action S A} {f : A → Action S B}
      → Keeps P m
      → ((a : A) → Keeps P (f a))
      → Keeps P (m >>= f)
  bind-Keeps {m = m} {f = f} (each first) rest =
      each (λ s p. continued (m s).0 (m s).1 f (first s p) rest)

  pub then-Keeps :
      {A B : Type 0} {m : Action S A} {k : Action S B} → Keeps P m → Keeps P k → Keeps P (m >> k)
  then-Keeps {m = m} {k = k} (each first) rest =
      each (λ s p. continued (m s).0 (m s).1 (λ _. k) (first s p) (λ _. rest))

  pub if-Keeps :
      {A : Type 0} (b : Bool) {x y : Action S A}
      → Keeps P x
      → Keeps P y
      → Keeps P (if b then x else y)
  if-Keeps true p q = p
  if-Keeps false p q = q

  pub modify-Keeps : {f : S → S} → ((s : S) → P s → P (f s)) → Keeps P (modify f)
  modify-Keeps keeps = each keeps

pub finally_do-Keeps :
    {S A : Type 0} {P : S → Type 0} (m : Action S A) (cleanup : S → S)
    → Keeps P m
    → ((s : S) → P s → P (cleanup s))
    → Keeps P (finally_do m cleanup)
finally_do-Keeps m cleanup (each keeps) clean = each (λ s p. clean (m s).1 (keeps s p))

pub except_do-Keeps :
    {S A : Type 0} {P : S → Type 0} (m : Action S A) (handler : Exception → Action S A)
    → Keeps P m
    → ((e : Exception) → Keeps P (handler e))
    → Keeps P (except_do m handler)
except_do-Keeps {S} {A} {P} m handler (each keeps) handles =
    each (λ s p. handled (m s).0 (m s).1 (keeps s p))
  where
    handled : (r : Result A) (s : S) → P s → P (handle_error r s handler).1
    handled (ok a) s p = p
    handled (err e) s p = Keeps_lem (handles e) s p

pub ruleset keeping = (bind-Keeps, then-Keeps, if-Keeps, lift-Keeps, raise-Keeps, self-Keeps)

-- From `P` an action returns in `Q` of its result, or raises in `E`.
abbrev pub Ends : {S A : Type 0} → (A → S → Type 0) → (S → Type 0) → Result A → S → Type 0
Ends Q E (ok a) s = Q a s
Ends Q E (err e) s = E s

pub data Leads {S A : Type 0} (P : S → Type 0) (Q : A → S → Type 0) (E : S → Type 0)
    (m : Action S A) : Type 0 where
  leads : ((s : S) → P s → Ends Q E (m s).0 (m s).1) → Leads P Q E m

pub Leads_lem :
    {S A : Type 0} {P E : S → Type 0} {Q : A → S → Type 0} {m : Action S A}
    → Leads P Q E m
    → (s : S) → P s
    → Ends Q E (m s).0 (m s).1
Leads_lem (leads f) = f

ended :
    {S A B : Type 0} {E : S → Type 0} (Q : A → S → Type 0) (R : B → S → Type 0) (r : Result A)
    (s : S) (f : A → Action S B)
    → Ends Q E r s
    → ((a : A) → Leads (Q a) R E (f a))
    → Ends R E (continue r s f).0 (continue r s f).1
ended Q R (ok a) s f h next = Leads_lem (next a) s h
ended Q R (err e) s f h next = h

module _ {S : Type 0} {P E : S → Type 0} where
  pub bind-Leads :
      {A B : Type 0} {Q : A → S → Type 0} {R : B → S → Type 0} {m : Action S A} {f : A → Action S B}
      → Leads P Q E m
      → ((a : A) → Leads (Q a) R E (f a))
      → Leads P R E (m >>= f)
  bind-Leads {Q = Q} {R = R} {m = m} {f = f} (leads g) next =
      leads (λ s p. ended {E = E} Q R (m s).0 (m s).1 f (g s p) next)

  kept-Ends :
      {A : Type 0} (r : Result A) (s : S) → P s → ((t : S) → P t → E t) → Ends (λ (a : A). P) E r s
  kept-Ends (ok a) s p weaken = p
  kept-Ends (err e) s p weaken = weaken s p

  pub Keeps-Leads :
      {A : Type 0} {m : Action S A} → Keeps P m → ((s : S) → P s → E s) → Leads P (λ a. P) E m
  Keeps-Leads {m = m} (each keeps) weaken =
      leads (λ s p. kept-Ends (m s).0 (m s).1 (keeps s p) weaken)
