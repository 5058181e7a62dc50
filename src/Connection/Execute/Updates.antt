-- ===== src/Connection/Execute/Updates.antt =====
-- The updates of `_caches`: which statements of a process are cached behind each of them.
use amazon_redshift_python_d.Prelude.{
  ℕ, zero, suc, ◌≤◌, ◌≡◌, ◌⊎◌, inl, inr, refl, ap, Bool, true, false, List, [], ◌∷◌, ◌++◌, ◌==◌,
  if◌then◌else◌, length, Bool-cases, ==_iff,
}
use amazon_redshift_python_d.Paramstyle.{Style, qmark, numeric, named, format, pyformat}
use amazon_redshift_python_d.Connection.{Cache, Caches}
use amazon_redshift_python_d.Connection.Execute.{
  cache_of, find_pid, style_eq, update_cache, update_pid,
}
use amazon_redshift_python_d.Connection.Execute.Tracking.{
  Entry, caches_for, Shrunk, nothing, kept, cleared, added, Shrunk-refl, Grown, here, first, there,
}
use amazon_redshift_python_d.Connection.Messages.{clear_at, clear_caches}

-- The statements of a cache are as before, or there are none.
abbrev pub Smaller : Cache → Cache → Type 0
Smaller k k' = (k'.ps ≡ k.ps) ⊎ (k'.ps ≡ [])

cons-Shrunk :
    (k k' : Cache) {ks ls : List Cache} → Smaller k k' → Shrunk ks ls → Shrunk (k ∷ ks) (k' ∷ ls)
cons-Shrunk k k' (inl e) s = kept e s
cons-Shrunk k k' (inr e) s = cleared e s

find_pid-clear_at :
    (pid j : ℕ) (pids : List (ℕ × Cache))
    → Smaller (find_pid pid pids) (find_pid pid (clear_at j pids))
unfolding find_pid clear_at
find_pid-clear_at pid j [] = inl refl
find_pid-clear_at pid zero ((p, k) ∷ rest) = elim (Bool-cases (p == pid)) [
  | inl e ↦ rw e (inr refl)
  | inr e ↦ rw e (inl refl)
]
find_pid-clear_at pid (suc j) ((p, k) ∷ rest) = elim (Bool-cases (p == pid)) [
  | inl e ↦ rw e (inl refl)
  | inr e ↦ rw e (find_pid-clear_at pid j rest)
]

pub clear_caches-Shrunk :
    (pid i j : ℕ) (caches : Caches)
    → Shrunk (caches_for pid caches) (caches_for pid (clear_caches i j caches))
unfolding clear_caches
clear_caches-Shrunk pid i j [] = nothing
clear_caches-Shrunk pid zero j ((style, pids) ∷ rest) =
    cons-Shrunk _ _ (find_pid-clear_at pid j pids) (Shrunk-refl (caches_for pid rest))
clear_caches-Shrunk pid (suc i) j ((style, pids) ∷ rest) =
    kept refl (clear_caches-Shrunk pid i j rest)

style_eq_refl : (s : Style) → style_eq s s ≡ true
unfolding style_eq
style_eq_refl qmark = refl
style_eq_refl numeric = refl
style_eq_refl named = refl
style_eq_refl format = refl
style_eq_refl pyformat = refl

module _ (f : Cache → Cache) (pid : ℕ) where
  find_pid-update_pid :
      (pids : List (ℕ × Cache)) → find_pid pid (update_pid pid f pids) ≡ f (find_pid pid pids)
  unfolding find_pid update_pid
  find_pid-update_pid [] = rw ((==_iff pid pid).1 refl) refl
  find_pid-update_pid ((p, k) ∷ rest) = elim (Bool-cases (p == pid)) [
    | inl e ↦ simp e
    | inr e ↦ simp (e, find_pid-update_pid rest)
  ]

  find_pid-update_pid_other :
      (q : ℕ) (pids : List (ℕ × Cache))
      → (pid == q) ≡ false
      → find_pid q (update_pid pid f pids) ≡ find_pid q pids
  unfolding find_pid update_pid
  find_pid-update_pid_other q [] other = simp other
  find_pid-update_pid_other q ((p, k) ∷ rest) other = elim (Bool-cases (p == pid)) [
    | inl e ↦ let same : p ≡ pid = (==_iff p pid).0 e in rw (e, same, other) refl
    | inr e ↦ elim (Bool-cases (p == q)) [
      | inl d ↦ simp (e, d)
      | inr d ↦ simp (e, d, find_pid-update_pid_other q rest other)
    ]
  ]

  pub find_pid-Smaller :
      (q : ℕ) (pids : List (ℕ × Cache))
      → ((k : Cache) → Smaller k (f k))
      → Smaller (find_pid q pids) (find_pid q (update_pid pid f pids))
  find_pid-Smaller q pids smaller = elim (Bool-cases (pid == q)) [
    | inl e ↦
        let same : pid ≡ q = (==_iff pid q).0 e in
        rw (← same, find_pid-update_pid pids) (smaller (find_pid pid pids))
    | inr e ↦ rw (find_pid-update_pid_other q pids e) (inl refl)
  ]

  nothing_there :
      (q : ℕ)
      → Smaller (find_pid q []) (find_pid q (update_pid pid f []))
      → (find_pid q (update_pid pid f [])).ps ≡ []
  unfolding find_pid
  nothing_there q (inl e) = e
  nothing_there q (inr e) = e

  -- A change that keeps or clears the statements of a process.
  Shrunk-at :
      (q : ℕ) (style : Style) (caches : Caches)
      → ((pids : List (ℕ × Cache)) → Smaller (find_pid q pids) (find_pid q (update_pid pid f pids)))
      → Shrunk (caches_for q caches) (caches_for q (update_cache style pid f caches))
  unfolding update_cache
  Shrunk-at q style [] smaller = added (nothing_there q (smaller []))
  Shrunk-at q style ((s, pids) ∷ rest) smaller = elim (Bool-cases (style_eq s style)) [
    | inl e ↦ rw e (cons-Shrunk _ _ (smaller pids) (Shrunk-refl (caches_for q rest)))
    | inr e ↦ rw e (kept refl (Shrunk-at q style rest smaller))
  ]

  pub update_cache-Shrunk :
      (q : ℕ) (style : Style) (caches : Caches)
      → ((k : Cache) → Smaller k (f k))
      → Shrunk (caches_for q caches) (caches_for q (update_cache style pid f caches))
  update_cache-Shrunk q style caches smaller =
      Shrunk-at q style caches (λ pids. find_pid-Smaller q pids smaller)

  -- The statements of the other processes stay.
  pub update_cache-others :
      (q : ℕ) (style : Style) (caches : Caches)
      → (pid == q) ≡ false
      → Shrunk (caches_for q caches) (caches_for q (update_cache style pid f caches))
  update_cache-others q style caches other =
      Shrunk-at q style caches
        (λ pids. inl (ap (λ k. k.ps) (find_pid-update_pid_other q pids other)))

  pub cache_of-update_cache :
      (style : Style) (caches : Caches)
      → cache_of style pid (update_cache style pid f caches) ≡ f (cache_of style pid caches)
  unfolding cache_of update_cache
  cache_of-update_cache style [] = rw (style_eq_refl style) (find_pid-update_pid [])
  cache_of-update_cache style ((s, pids) ∷ rest) = elim (Bool-cases (style_eq s style)) [
    | inl e ↦ simp (e, find_pid-update_pid pids)
    | inr e ↦ simp (e, cache_of-update_cache style rest)
  ]

-- One more statement in the cache of a style and a process.
abbrev pub with_entry : Entry → Cache → Cache
with_entry e k = record k { ps = k.ps ++ (e ∷ []) }

few_then :
    (b : Bool) (x y : Cache) (n : ℕ)
    → b ≡ true
    → length (if b then x else y).ps ≤ n
    → length x.ps ≤ n
few_then true x y n e h = h
few_then false x y n e h = cc

few_else :
    (b : Bool) (x y : Cache) (n : ℕ)
    → b ≡ false
    → length (if b then x else y).ps ≤ n
    → length y.ps ≤ n
few_else true x y n e h = cc
few_else false x y n e h = h

pub with_entry-Grown :
    (e : Entry) (n pid : ℕ) (style : Style) (caches : Caches)
    → length (cache_of style pid caches).ps ≤ n
    → Grown e n
        (caches_for pid caches)
        (caches_for pid (update_cache style pid (with_entry e) caches))
unfolding find_pid update_cache cache_of
with_entry-Grown e n pid style [] few = first (rw (find_pid-update_pid (with_entry e) pid []) refl)
with_entry-Grown e n pid style ((s, pids) ∷ rest) few = elim (Bool-cases (style_eq s style)) [
  | inl same ↦ rw same (
      here (few_then (style_eq s style) _ (cache_of style pid rest) n same few)
        (rw (find_pid-update_pid (with_entry e) pid pids) refl))
  | inr other ↦ rw other (
      there (
        with_entry-Grown e n pid style rest
          (few_else (style_eq s style) (find_pid pid pids) _ n other few)))
]
