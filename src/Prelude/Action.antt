-- ===== src/Prelude/Action.antt =====
-- Methods that mutate an object and may raise: what was written before a raise stays written, so the
-- state comes back beside the exception too.
use amazon_redshift_python_d.Prelude.Result.{Exception, Result, ok, err}

abbrev pub Action {ℓ} : Type ℓ → Type ℓ → Type ℓ
Action S A = S → Result A × S

module _ {ℓ} {S A : Type ℓ} where
  abbrev pub pure : A → Action S A
  pure a s = (ok a, s)

  abbrev pub raise : Exception → Action S A
  raise e s = (err e, s)

  abbrev pub lift : Result A → Action S A
  lift r s = (r, s)

module _ {ℓ} {S A B : Type ℓ} where
  abbrev pub continue : Result A → S → (A → Action S B) → Result B × S
  continue (ok a) s f = f a s
  continue (err e) s f = (err e, s)

  infixl 10 ◌>>=◌ ◌>>◌
  abbrev pub ◌>>=◌ : Action S A → (A → Action S B) → Action S B
  ◌>>=◌ m f s = let (r, s') = m s in continue r s' f

  abbrev pub ◌>>◌ : Action S A → Action S B → Action S B
  ◌>>◌ m k s = let (r, s') = m s in continue r s' (λ _. k)

-- The object itself, to read its attributes.
module _ {ℓ} {S : Type ℓ} where
  abbrev pub self : Action S S
  self s = (ok s, s)

  abbrev pub modify : (S → S) → Action S (Unit {ℓ})
  modify f s = (ok tt, f s)

-- The same without `do`, for the modules whose `do` blocks are those of `Result`.
module _ {ℓ} {S A : Type ℓ} where
  abbrev pub with_self : (S → Action S A) → Action S A
  with_self f = self >>= f

  abbrev pub then_do : Action S (Unit {ℓ}) → Action S A → Action S A
  then_do m k = m >> k

module _ {ℓ} {S A B : Type ℓ} where
  abbrev pub with_result : Result A → (A → Action S B) → Action S B
  with_result r f = lift r >>= f

-- try … finally, and try … except
module _ {ℓ} {S A : Type ℓ} where
  abbrev pub finally_do : Action S A → (S → S) → Action S A
  finally_do m cleanup s = let (r, s') = m s in (r, cleanup s')

  abbrev pub handle_error : Result A → S → (Exception → Action S A) → Result A × S
  handle_error (ok a) s handler = (ok a, s)
  handle_error (err e) s handler = handler e s

  abbrev pub except_do : Action S A → (Exception → Action S A) → Action S A
  except_do m handler s = let (r, s') = m s in handle_error r s' handler
