-- ===== src/Iam/SameKey.antt =====
-- `get_credentials_cache_key` puts the groups in order; its key does not change by that.
use mathlib.Core.Path.{subst}
use amazon_redshift_python_d.Prelude.{
  ℕ, ◌≡◌, refl, sym, ap, ◌∙◌, Bool, true, false, ◌&&◌, Option, none, some, List, [], ◌∷◌, map,
  arith, ◌==◌, inl, inr, Bool-cases, if◌then◌else◌, ltb,
}
use amazon_redshift_python_d.Prelude.Action.{continue, ◌>>=◌}
use amazon_redshift_python_d.Prelude.Dict.{
  dict_set-same, dict_get, dict_get-dict_set-eq, dict_get-dict_set-ne,
}
use amazon_redshift_python_d.Prelude.Keeps.{Keeps_lem}
use amazon_redshift_python_d.Prelude.Result.{Result, ok, err, attribute_error}
use amazon_redshift_python_d.Prelude.Text.{Text, codes, text_eq}
use amazon_redshift_python_d.Iam.CacheKey.{
  get_credentials_cache_key, insert_text, join_with, key_of, sort_groups, sorted, text_le,
}
use amazon_redshift_python_d.Iam.Login.{Provider, info_attr, info_put}
use amazon_redshift_python_d.Iam.Reads.{key_of-Keeps}
use amazon_redshift_python_d.Iam.Properties.{
  Attr, Info, absent, text, texts, flag, number, get, put,
}

-- Sorting.
swap :
    (c d : ℕ) (x y : Bool)
    → (if c == d then x else ltb c d) ≡ false
    → (x ≡ false → y ≡ true)
    → (if d == c then y else ltb d c) ≡ true
swap c d x y e f = ground arith

text_le_total : (s t : Text) → text_le s t ≡ false → text_le t s ≡ true
unfolding text_le
text_le_total [] t e = cc e
text_le_total (c ∷ s) [] e = refl
text_le_total (c ∷ s) (d ∷ t) e = swap c d (text_le s t) (text_le t s) e (text_le_total s t)

ordered : List Text → Bool
ordered [] = true
ordered (t ∷ []) = true
ordered (t ∷ (u ∷ us)) = text_le t u && ordered (u ∷ us)

both : (a b : Bool) → a && b ≡ true → (a ≡ true) × (b ≡ true)
both true b e = (refl, e)
both false b e = cc e

-- The least is put in front.
insert_text-ordered :
    (t : Text) (ts : List Text) → ordered (t ∷ ts) ≡ true → insert_text t ts ≡ t ∷ ts
unfolding ordered insert_text
insert_text-ordered t [] e = refl
insert_text-ordered t (u ∷ us) e = rw (both (text_le t u) (ordered (u ∷ us)) e).0 refl

ordered_tail : (t : Text) (ts : List Text) → ordered (t ∷ ts) ≡ true → ordered ts ≡ true
unfolding ordered
ordered_tail t [] e = refl
ordered_tail t (u ∷ us) e = (both _ _ e).1

ordered-insert_text :
    (t : Text) (ts : List Text) → ordered ts ≡ true → ordered (insert_text t ts) ≡ true
unfolding ordered insert_text
ordered-insert_text t [] e = refl
ordered-insert_text t (u ∷ []) e = elim (Bool-cases (text_le t u)) [
  | inl first ↦ rw (first, first) refl
  | inr second ↦ rw (second, text_le_total t u second) refl
]
ordered-insert_text t (u ∷ (v ∷ vs)) e =
    let rest = ordered-insert_text t (v ∷ vs) (both _ _ e).1 in
    elim (Bool-cases (text_le t u)) [
      | inl first ↦ rw (first, first) e
      | inr second ↦ elim (Bool-cases (text_le t v)) [
        | inl next ↦ rw (second, next, text_le_total t u second, next) (both _ _ e).1
        | inr last ↦
            rw (second, last, (both (text_le u v) (ordered (v ∷ vs)) e).0)
              (subst (λ b. ordered (if b then t ∷ (v ∷ vs) else v ∷ insert_text t vs) ≡ true) last
                rest)
      ]
    ]

ordered-sorted : (ts : List Text) → ordered (sorted ts) ≡ true
unfolding ordered sorted
ordered-sorted [] = refl
ordered-sorted (t ∷ ts) = ordered-insert_text t (sorted ts) (ordered-sorted ts)

sorted-ordered : (ts : List Text) → ordered ts ≡ true → sorted ts ≡ ts
unfolding sorted
sorted-ordered [] e = refl
sorted-ordered (t ∷ ts) e =
    ap (insert_text t) (sorted-ordered ts (ordered_tail t ts e)) ∙ insert_text-ordered t ts e

-- The groups are in the order that they are put in, and nothing else has changed.
Settled : Info → Result Text → Info → Type 0
Settled i (err e) j = Unit {0}
Settled i (ok joined) j =
    ((key : Text) → text_eq (codes "db_groups") key ≡ false → dict_get key j ≡ dict_get key i)
    × ((groups : Attr) × ((dict_get (codes "db_groups") j ≡ some groups)
          × (sort_groups groups j ≡ (ok joined, j))))

sort_groups-ordered :
    (ts : List Text) (j : Info)
    → ordered ts ≡ true
    → dict_get (codes "db_groups") j ≡ some (texts ts)
    → sort_groups (texts ts) j ≡ (ok (join_with (codes ",") ts), j)
unfolding sort_groups info_put put
sort_groups-ordered [] j o e = refl
sort_groups-ordered (t ∷ ts) j o e =
    rw (sorted-ordered (t ∷ ts) o, dict_set-same (codes "db_groups") (texts (t ∷ ts)) j e) refl

put-sorted-Settled :
    (ts : List Text) (i : Info)
    → Settled i
        (ok (join_with (codes ",") (sorted ts)))
        (put (codes "db_groups") (texts (sorted ts)) i)
unfolding Settled put
put-sorted-Settled ts i =
    let e = dict_get-dict_set-eq (codes "db_groups") (texts (sorted ts)) i in
    (
      λ key other. dict_get-dict_set-ne key (codes "db_groups") (texts (sorted ts)) i other,
      (texts (sorted ts), (e, sort_groups-ordered (sorted ts) _ (ordered-sorted ts) e)),
    )

sort_groups-Settled :
    (groups : Attr) (i : Info)
    → dict_get (codes "db_groups") i ≡ some groups
    → Settled i (sort_groups groups i).0 (sort_groups groups i).1
unfolding Settled sort_groups info_put put
sort_groups-Settled absent i e = tt
sort_groups-Settled (flag b) i e = tt
sort_groups-Settled (number z) i e = tt
sort_groups-Settled (texts []) i e = (λ key other. refl, (texts [], (e, refl)))
sort_groups-Settled (texts (t ∷ ts)) i e = put-sorted-Settled (t ∷ ts) i
sort_groups-Settled (text []) i e = (λ key other. refl, (text [], (e, refl)))
sort_groups-Settled (text (c ∷ cs)) i e = put-sorted-Settled (map (λ c. c ∷ []) (c ∷ cs)) i

-- What a key leaves: the rest of the properties, and groups that give the same key.
Kept : (List Text → Text) → Provider → Info → Result Text → Info → Type 0
Kept repr provider i (err e) j = Unit {0}
Kept repr provider i (ok key) j =
    ((name : Text) → text_eq (codes "db_groups") name ≡ false → dict_get name j ≡ dict_get name i)
    × (get_credentials_cache_key repr provider j ≡ (ok key, j))

module _ (repr : List Text → Text) (provider : Provider) where
  -- The rest of the key only reads.
  keyed :
      (i j : Info) (joined : Text) (r : Result Text) (l : Info)
      → Settled i (ok joined) j
      → key_of repr provider joined j ≡ (r, l)
      → Kept repr provider i r l
  unfolding Kept Settled get_credentials_cache_key info_attr get
  keyed i j joined (err e) l settled done = tt
  keyed i j joined (ok key) l (rest, (groups, (found, again))) done =
      let stays : l ≡ j =
        ap (λ x. x.1) (sym done)
        ∙ Keeps_lem (key_of-Keeps {P = λ x. x ≡ j} repr provider joined) j refl in
      subst (λ l. Kept repr provider i (ok key) l) (sym stays)
        (rest, rw (get, found, again) (done ∙ ap (λ x. (ok key, x)) stays))

  -- With groups of any kind.
  key-Kept :
      (i : Info)
      → Kept repr provider i
          (get_credentials_cache_key repr provider i).0
          (get_credentials_cache_key repr provider i).1
  unfolding get_credentials_cache_key info_attr get Kept
  key-Kept i = first (dict_get (codes "db_groups") i) refl
    where
      sorted_then :
          (r : Result Text) (j : Info)
          → Settled i r j
          → Kept repr provider i
              (continue r j (key_of repr provider)).0
              (continue r j (key_of repr provider)).1
      sorted_then (err e) j s = tt
      sorted_then (ok joined) j s = keyed i j joined _ _ s refl

      first :
          (o : Option Attr)
          → dict_get (codes "db_groups") i ≡ o
          → let read : Result Attr = elim o [ none ↦ err attribute_error | some v ↦ ok v ] in
            let run = continue read i (λ groups. sort_groups groups >>= key_of repr provider) in
            Kept repr provider i run.0 run.1
      first none e = tt
      first (some groups) e = sorted_then _ _ (sort_groups-Settled groups i e)

-- When get_credentials_cache_key returns a key, it leaves every attribute but db_groups as it was, and
-- run again on what it leaves it returns the same key and changes nothing.
pub get_credentials_cache_key-again :
    (repr : List Text → Text) (provider : Provider) (i j : Info) (key name : Text)
    → get_credentials_cache_key repr provider i ≡ (ok key, j)
    → text_eq (codes "db_groups") name ≡ false
    → (dict_get name j ≡ dict_get name i)
      × (get_credentials_cache_key repr provider j ≡ (ok key, j))
unfolding Kept
get_credentials_cache_key-again repr provider i j key name done other =
    let (rest, again) : Kept repr provider i (ok key) j =
      subst (λ x. Kept repr provider i x.0 x.1) done (key-Kept repr provider i) in
    (rest name other, again)
