-- ===== src/Iam/Saml/Refresh.antt =====
-- The role that is assumed: `refresh`.
use mathlib.Core.Path.{subst}
use amazon_redshift_python_d.Prelude.{
  ◌≡◌, refl, sym, ap, ◌∙◌, Bool, true, false, Option, none, some, List, [], ◌∷◌, ◌++◌, ◌⊎◌, inl,
  inr, ◌+◌, if◌then◌else◌,
}
use amazon_redshift_python_d.Prelude.Action.{Action, lift, raise, self, except_do}
use amazon_redshift_python_d.Prelude.Dict.{dict_get}
use amazon_redshift_python_d.Prelude.Keeps.{
  Keeps, each, lift-Keeps, Ends, Leads, Leads_lem, leads, bind-Leads, Keeps-Leads,
}
use amazon_redshift_python_d.Prelude.Result.{Exception, Result, ok, err, interface_error, key_error}
use amazon_redshift_python_d.Prelude.Text.{Text, codes}
use amazon_redshift_python_d.Iam.Properties.{Attr, absent, flag, is_true, number, text, texts}
use amazon_redshift_python_d.Iam.Saml.Assertion.{Document, read_metadata, read_roles}
use amazon_redshift_python_d.Iam.Saml.Provider.{
  SamlOutside, SamlCred, SamlProvider, StsCred, ask_assertion, assume, choose_role, role_with,
  keep_cred, refresh,
}
use amazon_redshift_python_d.Iam.Saml.Roles.{IsPaired, read_roles-IsPaired}

-- The preferred role, if there is one.
pub Preferred : Attr → Text → Type 0
Preferred preferred role = (is_true preferred ≡ false) ⊎ (preferred ≡ text role)

-- One of the roles, with its provider.
role_with-found :
    (missing : Exception) (wanted : Text) (roles : List (Text × Text)) (role principal : Text)
    → role_with missing wanted roles ≡ ok (role, principal)
    → (dict_get role roles ≡ some principal) × (wanted ≡ role)
unfolding role_with
role_with-found missing wanted roles role principal e = found (dict_get wanted roles) refl e
  where
    found :
        (o : Option Text)
        → dict_get wanted roles ≡ o
        → elim o as (λ o. Result (Text × Text)) [
          | none ↦ err missing
          | some provider ↦ ok (wanted, provider)
        ]
          ≡ ok (role, principal)
        → (dict_get role roles ≡ some principal) × (wanted ≡ role)
    found none known e = absurd (cc e)
    found (some provider) known e =
        let same : wanted ≡ role = cc e in
        let value : provider ≡ principal = cc e in
        (subst (λ r. dict_get r roles ≡ some principal) same (known ∙ ap some value), same)

any_role :
    (preferred : Attr) (chosen : Text) (roles : List (Text × Text)) (role principal : Text)
    (b : Bool)
    → is_true preferred ≡ b
    → (if b
        then err (interface_error "Preferred role not found in SamlAssertion")
        else role_with key_error chosen roles)
      ≡ ok (role, principal)
    → (dict_get role roles ≡ some principal) × Preferred preferred role
unfolding Preferred
any_role preferred chosen roles role principal true truth e = absurd (cc e)
any_role preferred chosen roles role principal false truth e =
    ((role_with-found key_error chosen roles role principal e).0, inl truth)

choose_role-found :
    (F : SamlOutside) (preferred : Attr) (roles : List (Text × Text)) (role principal : Text)
    → choose_role F preferred roles ≡ ok (role, principal)
    → (dict_get role roles ≡ some principal) × Preferred preferred role
unfolding choose_role Preferred
choose_role-found F preferred [] role principal e = absurd (cc e)
choose_role-found F (text (c ∷ wanted)) (r ∷ roles) role principal e =
    let (found, same) = role_with-found _ (c ∷ wanted) (r ∷ roles) role principal e in
    (found, inr (ap text same))
choose_role-found F (text []) (r ∷ roles) role principal e =
    any_role (text []) _ (r ∷ roles) role principal _ refl e
choose_role-found F absent (r ∷ roles) role principal e =
    any_role absent _ (r ∷ roles) role principal _ refl e
choose_role-found F (flag b) (r ∷ roles) role principal e =
    any_role (flag b) _ (r ∷ roles) role principal _ refl e
choose_role-found F (number z) (r ∷ roles) role principal e =
    any_role (number z) _ (r ∷ roles) role principal _ refl e
choose_role-found F (texts ts) (r ∷ roles) role principal e =
    any_role (texts ts) _ (r ∷ roles) role principal _ refl e

lift-Leads :
    {A : Type 0} (P : SamlProvider → Type 0) (r : Result A)
    → Leads P (λ a l. P l × (r ≡ ok a)) (λ l. Unit {0}) (lift r)
lift-Leads P (ok a) = leads (λ l h. (h, refl))
lift-Leads P (err e) = leads (λ l h. tt)

self-Leads : {P : SamlProvider → Type 0} → Leads P (λ q l. P l × (q ≡ l)) (λ l. Unit {0}) self
self-Leads = leads (λ l h. (h, refl))

-- The calls that have been made, of the provider `p`.
module _ (F : SamlOutside) (p : SamlProvider) where
  Unchanged : SamlProvider → Type 0
  Unchanged l = (l.assumed ≡ p.assumed) × (l.preferred_role ≡ p.preferred_role)

  -- A role and its provider from the assertion have been added to those assumed.
  Assumed : SamlProvider → Type 0
  Assumed l =
      (role : Text) × (principal : Text) × (assertion : Text) × (doc : Document) × (l.assumed
        ≡ p.assumed ++ ((role, principal) ∷ []))
      × (F.get_saml_assertion p.calls ≡ ok assertion)
      × (F.soup assertion ≡ ok doc)
      × IsPaired F.unicode (doc (codes "Attribute")) role principal
      × Preferred p.preferred_role role

  asked-Leads :
      Leads
        (λ l. l ≡ p)
        (λ assertion l. Unchanged l × (F.get_saml_assertion p.calls ≡ ok assertion))
        (λ l. Unit {0})
        (ask_assertion F)
  unfolding ask_assertion Unchanged
  asked-Leads = leads (λ l same. answered l same (F.get_saml_assertion l.calls) refl)
    where
      answered :
          (l : SamlProvider)
          → l ≡ p
          → (r : Result Text) → F.get_saml_assertion l.calls ≡ r
          → let tried : Action SamlProvider Text =
              except_do (lift r) (λ e. raise (interface_error "Get saml assertion failed")) in
            let left = tried (record l { calls = l.calls + 1 }) in
            Ends
              (λ assertion l. Unchanged l × (F.get_saml_assertion p.calls ≡ ok assertion))
              (λ l. Unit {0})
              left.0
              left.1
      answered l same (ok assertion) e = (
        (ap (λ x. x.assumed) same, ap (λ x. x.preferred_role) same),
        ap (λ x. F.get_saml_assertion x.calls) (sym same) ∙ e,
      )
      answered l same (err x) e = tt

  Assumed-Leads :
      (assertion : Text) (doc : Document) (roles : List (Text × Text)) (q : SamlProvider)
      (chosen : Text × Text)
      → Leads
          (λ l.
            ((((Unchanged l × (F.get_saml_assertion p.calls ≡ ok assertion))
                  × (F.soup assertion ≡ ok doc))
                × (read_roles F.unicode (doc (codes "Attribute")) [] ≡ ok roles))
              × (q ≡ l))
            × (choose_role F q.preferred_role roles ≡ ok chosen))
          (λ sts. Assumed)
          (λ l. Unit {0})
          (assume F assertion chosen)
  unfolding assume Unchanged Assumed
  Assumed-Leads assertion doc roles q (role, principal) =
      leads (λ l (((((unchanged, asked), read), is_roles), same), chosen).
        let (found, preferred) = choose_role-found F q.preferred_role roles role principal chosen in
        went l (F.assume_role role principal assertion) (
          role,
          principal,
          assertion,
          doc,
          ap (λ xs. xs ++ ((role, principal) ∷ [])) unchanged.0,
          asked,
          read,
          read_roles-IsPaired F.unicode (doc (codes "Attribute")) roles role principal is_roles
              found,
          subst (λ v. Preferred v role) (ap (λ x. x.preferred_role) same ∙ unchanged.1) preferred,
        ))
    where
      went :
          (l : SamlProvider) (r : Result StsCred)
          → Assumed (record l { assumed = l.assumed ++ ((role, principal) ∷ []) })
          → Ends
              (λ sts. Assumed)
              (λ l. Unit {0})
              r
              (record l { assumed = l.assumed ++ ((role, principal) ∷ []) })
      went l (ok sts) h = h
      went l (err e) h = tt

  keep_cred-Keeps : (cred : SamlCred) → Keeps Assumed (keep_cred F cred)
  unfolding keep_cred Assumed
  keep_cred-Keeps cred = each (λ l h. h)

  refresh-Leads : Leads (λ l. l ≡ p) (λ (t : Unit {0}). Assumed) (λ l. Unit {0}) (refresh F)
  unfolding refresh
  refresh-Leads = bind-Leads asked-Leads (λ assertion.
      bind-Leads (lift-Leads _ (F.soup assertion)) (λ doc.
        bind-Leads (lift-Leads _ (read_roles F.unicode (doc (codes "Attribute")) [])) (λ roles.
          bind-Leads self-Leads (λ q.
            bind-Leads (lift-Leads _ (choose_role F q.preferred_role roles)) (λ chosen.
              bind-Leads (Assumed-Leads assertion doc roles q chosen) (λ sts.
                bind-Leads (Keeps-Leads (lift-Keeps (read_metadata F.unicode doc)) (λ l h. tt))
                  (λ metadata.
                    Keeps-Leads (keep_cred-Keeps (record { sts = sts; metadata = metadata }))
                      (λ l h. tt))))))))

-- When refresh returns, exactly one role has been assumed, with a provider, and one value of a Role
-- attribute of the assertion names both: each is a part of it between commas, stripped, with the form of
-- a role or of a SAML provider. It is the preferred role, if there is one.
pub refresh-IsPaired :
    (F : SamlOutside) (p after : SamlProvider)
    → refresh F p ≡ (ok tt, after)
    → (role : Text) × (principal : Text) × (assertion : Text) × (doc : Document) × (after.assumed
        ≡ p.assumed ++ ((role, principal) ∷ []))
      × (F.get_saml_assertion p.calls ≡ ok assertion)
      × (F.soup assertion ≡ ok doc)
      × IsPaired F.unicode (doc (codes "Attribute")) role principal
      × Preferred p.preferred_role role
unfolding Assumed
refresh-IsPaired F p after done =
    subst (λ x. Ends (λ (t : Unit {0}). Assumed F p) (λ l. Unit {0}) x.0 x.1) done
      (Leads_lem (refresh-Leads F p) p refl)
