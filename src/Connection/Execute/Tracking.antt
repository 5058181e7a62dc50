-- ===== src/Connection/Execute/Tracking.antt =====
-- The caches of the statements: what a change of one cache does to the statements that are cached.
use amazon_redshift_python_d.Prelude.{
  ℕ, suc, ◌≤◌, ◌<◌, ◌≡◌, ◌≢◌, refl, ap, List, [], ◌∷◌, ◌++◌, map, arith, length, All, length-append,
}
use amazon_redshift_python_d.Prelude.Text.{Text}
use amazon_redshift_python_d.Types.Args.{Param}
use amazon_redshift_python_d.Connection.{Cache, Caches}
use amazon_redshift_python_d.Connection.Execute.{cached_ids, find_pid, num_at}
use amazon_redshift_python_d.Connection.Messages.{statement_ids}

abbrev pub Entry : Type 0
Entry = (Text × List Param) × ℕ

-- The caches of a process, one for each style.
abbrev pub caches_for : ℕ → Caches → List Cache
caches_for pid [] = []
caches_for pid ((s, pids) ∷ rest) = find_pid pid pids ∷ caches_for pid rest

abbrev pub ids : List Cache → List ℕ
ids [] = []
ids (k ∷ ks) = statement_ids k ++ ids ks

pub cached_ids-ids :
    (pid : ℕ) (caches : Caches) → cached_ids pid caches ≡ ids (caches_for pid caches)
unfolding cached_ids
cached_ids-ids pid [] = refl
cached_ids-ids pid ((s, pids) ∷ rest) =
    ap (λ l. statement_ids (find_pid pid pids) ++ l) (cached_ids-ids pid rest)

-- Statements are kept, cleared or not there yet.
pub data Shrunk : List Cache → List Cache → Type 0 where
  nothing : Shrunk [] []
  kept :
      {k k' : Cache} {ks ls : List Cache} → k'.ps ≡ k.ps → Shrunk ks ls → Shrunk (k ∷ ks) (k' ∷ ls)
  cleared :
      {k k' : Cache} {ks ls : List Cache} → k'.ps ≡ [] → Shrunk ks ls → Shrunk (k ∷ ks) (k' ∷ ls)
  added : {k' : Cache} → k'.ps ≡ [] → Shrunk [] (k' ∷ [])

pub Shrunk-refl : (ks : List Cache) → Shrunk ks ks
Shrunk-refl [] = nothing
Shrunk-refl (k ∷ ks) = kept refl (Shrunk-refl ks)

-- One statement more, in one of the caches, which had `n` at most.
pub data Grown (e : Entry) (n : ℕ) : List Cache → List Cache → Type 0 where
  here :
      {k k' : Cache} {ks : List Cache}
      → length k.ps ≤ n
      → k'.ps ≡ k.ps ++ (e ∷ [])
      → Grown e n (k ∷ ks) (k' ∷ ks)
  first : {k' : Cache} → k'.ps ≡ e ∷ [] → Grown e n [] (k' ∷ [])
  there : {k : Cache} {ks ls : List Cache} → Grown e n ks ls → Grown e n (k ∷ ks) (k ∷ ls)

-- No two statements have the same number.
abbrev pub Distinct : List ℕ → List ℕ → Type 0
Distinct nums [] = Unit {0}
Distinct nums (s ∷ ss) = All (λ t. num_at nums s ≢ num_at nums t) ss × Distinct nums ss

-- No cache holds more than `max + 1` statements, the cached statements exist, and no two of a process
-- have the same number.
pub record Sound (nums : List ℕ) (max : ℕ) (ks : List Cache) : Type 0 where
  pub small : All (λ k. length k.ps ≤ suc max) ks
  pub known : All (λ s. s < length nums) (ids ks)
  pub distinct : Distinct nums (ids ks)

All-append : {A : Type 0} (P : A → Type 0) (xs ys : List A) → All P (xs ++ ys) → All P xs × All P ys
All-append P [] ys h = (tt, h)
All-append P (x ∷ xs) ys (p, h) = let (a, b) = All-append P xs ys h in ((p, a), b)

append-All : {A : Type 0} (P : A → Type 0) (xs ys : List A) → All P xs → All P ys → All P (xs ++ ys)
append-All P [] ys a b = b
append-All P (x ∷ xs) ys (p, a) b = (p, append-All P xs ys a b)

-- A property of the cached statements that is left where some are cleared.
pub All-Shrunk :
    (P : ℕ → Type 0) {ks ls : List Cache} → Shrunk ks ls → All P (ids ks) → All P (ids ls)
unfolding statement_ids
All-Shrunk P nothing h = tt
All-Shrunk P (kept {k} {k'} {ks} {ls} e s) h =
    let (a, b) = All-append P (statement_ids k) (ids ks) h in
    rw e (append-All P (statement_ids k) (ids ls) a (All-Shrunk P s b))
All-Shrunk P (cleared {k} {k'} {ks} {ls} e s) h =
    rw e (All-Shrunk P s (All-append P (statement_ids k) (ids ks) h).1)
All-Shrunk P (added e) h = rw e tt

small-Shrunk :
    (max : ℕ) {ks ls : List Cache}
    → Shrunk ks ls
    → All (λ k. length k.ps ≤ suc max) ks
    → All (λ k. length k.ps ≤ suc max) ls
small-Shrunk max nothing h = tt
small-Shrunk max (kept e s) (p, h) = (rw e p, small-Shrunk max s h)
small-Shrunk max (cleared e s) (p, h) = (rw e (omega arith), small-Shrunk max s h)
small-Shrunk max (added e) h = (rw e (omega arith), tt)

pub All-map :
    {A : Type 0} (P Q : A → Type 0) (xs : List A) → ((x : A) → P x → Q x) → All P xs → All Q xs
All-map P Q [] f h = tt
All-map P Q (x ∷ xs) f (p, h) = (f x p, All-map P Q xs f h)

module _ (nums : List ℕ) where
  -- The numbers of two groups of statements differ.
  abbrev Apart : List ℕ → List ℕ → Type 0
  Apart xs ys = All (λ s. All (λ t. num_at nums s ≢ num_at nums t) ys) xs

  split-Distinct :
      (xs ys : List ℕ)
      → Distinct nums (xs ++ ys)
      → Distinct nums xs × Distinct nums ys × Apart xs ys
  split-Distinct [] ys d = (tt, d, tt)
  split-Distinct (x ∷ xs) ys (a, d) =
      let (d1, d2, apart) = split-Distinct xs ys d in
      let (a1, a2) = All-append (λ t. num_at nums x ≢ num_at nums t) xs ys a in
      ((a1, d1), d2, (a2, apart))

  join-Distinct :
      (xs ys : List ℕ)
      → Distinct nums xs
      → Distinct nums ys
      → Apart xs ys
      → Distinct nums (xs ++ ys)
  join-Distinct [] ys d1 d2 apart = d2
  join-Distinct (x ∷ xs) ys (a1, d1) d2 (a2, apart) =
      (append-All (λ t. num_at nums x ≢ num_at nums t) xs ys a1 a2, join-Distinct xs ys d1 d2 apart)

  Distinct-Shrunk :
      {ks ls : List Cache} → Shrunk ks ls → Distinct nums (ids ks) → Distinct nums (ids ls)
  unfolding statement_ids
  Distinct-Shrunk nothing d = tt
  Distinct-Shrunk (kept {k} {k'} {ks} {ls} e s) d =
      let (d1, d2, apart) = split-Distinct (statement_ids k) (ids ks) d in
      rw e (
        join-Distinct (statement_ids k) (ids ls) d1 (Distinct-Shrunk s d2) (
          All-map (λ x. All (λ t. num_at nums x ≢ num_at nums t) (ids ks))
            (λ x. All (λ t. num_at nums x ≢ num_at nums t) (ids ls)) (statement_ids k)
            (λ x a. All-Shrunk (λ t. num_at nums x ≢ num_at nums t) s a) apart))
  Distinct-Shrunk (cleared {k} {k'} {ks} {ls} e s) d =
      rw e (Distinct-Shrunk s (split-Distinct (statement_ids k) (ids ks) d).1)
  Distinct-Shrunk (added e) d = rw e tt

  All-Grown :
      (P : ℕ → Type 0) (e : Entry) (n : ℕ) {ks ls : List Cache}
      → Grown e n ks ls
      → P e.1
      → All P (ids ks)
      → All P (ids ls)
  unfolding statement_ids
  All-Grown P e n (here {k} {k'} {ks} le grown) p h =
      let (a, b) = All-append P (statement_ids k) (ids ks) h in
      rw grown (append-All P _ (ids ks) (All-snoc k.ps a) b)
    where
      All-snoc :
          (es : List Entry)
          → All P (map (λ (x : Entry). x.1) es)
          → All P (map (λ (x : Entry). x.1) (es ++ (e ∷ [])))
      All-snoc [] h = (p, tt)
      All-snoc (x ∷ es) (q, h) = (q, All-snoc es h)
  All-Grown P e n (first grown) p h = rw grown (p, tt)
  All-Grown P e n (there {k} {ks} {ls} g) p h =
      let (a, b) = All-append P (statement_ids k) (ids ks) h in
      append-All P (statement_ids k) (ids ls) a (All-Grown P e n g p b)

  -- The new number is above those of the others.
  abbrev Below : ℕ → List ℕ → Type 0
  Below sid ss = All (λ s. num_at nums s < num_at nums sid) ss

  Distinct-snoc :
      (e : Entry) (es : List Entry)
      → Distinct nums (map (λ (x : Entry). x.1) es)
      → Below e.1 (map (λ (x : Entry). x.1) es)
      → Distinct nums (map (λ (x : Entry). x.1) (es ++ (e ∷ [])))
  Distinct-snoc e [] d below = (tt, tt)
  Distinct-snoc e (x ∷ es) (a, d) (lt, below) = (All-snoc es a, Distinct-snoc e es d below)
    where
      All-snoc :
          (es : List Entry)
          → All (λ t. num_at nums x.1 ≢ num_at nums t) (map (λ (x : Entry). x.1) es)
          → All (λ t. num_at nums x.1 ≢ num_at nums t) (map (λ (x : Entry). x.1) (es ++ (e ∷ [])))
      All-snoc [] h = (omega arith, tt)
      All-snoc (y ∷ es) (q, h) = (q, All-snoc es h)

  Apart-snoc :
      (e : Entry) (es : List Entry) (ys : List ℕ)
      → Apart (map (λ (x : Entry). x.1) es) ys
      → Below e.1 ys
      → Apart (map (λ (x : Entry). x.1) (es ++ (e ∷ []))) ys
  Apart-snoc e [] ys a below =
      (All-map _ (λ t. num_at nums e.1 ≢ num_at nums t) ys (λ t lt. omega arith) below, tt)
  Apart-snoc e (x ∷ es) ys (p, a) below = (p, Apart-snoc e es ys a below)

  Distinct-Grown :
      (e : Entry) (n : ℕ) {ks ls : List Cache}
      → Grown e n ks ls
      → Distinct nums (ids ks)
      → Below e.1 (ids ks)
      → Distinct nums (ids ls)
  unfolding statement_ids
  Distinct-Grown e n (here {k} {k'} {ks} le grown) d below =
      let (d1, d2, apart) = split-Distinct (statement_ids k) (ids ks) d in
      let (b1, b2) = All-append _ (statement_ids k) (ids ks) below in
      rw grown (
        join-Distinct _ (ids ks) (Distinct-snoc e k.ps d1 b1) d2
          (Apart-snoc e k.ps (ids ks) apart b2))
  Distinct-Grown e n (first grown) d below = rw grown (tt, tt)
  Distinct-Grown e n (there {k} {ks} {ls} g) d below =
      let (d1, d2, apart) = split-Distinct (statement_ids k) (ids ks) d in
      let (b1, b2) = All-append _ (statement_ids k) (ids ks) below in
      join-Distinct (statement_ids k) (ids ls) d1 (Distinct-Grown e n g d2 b2)
        (apart_grown (statement_ids k) apart b1)
    where
      apart_grown : (xs : List ℕ) → Apart xs (ids ks) → Below e.1 xs → Apart xs (ids ls)
      apart_grown [] a b = tt
      apart_grown (x ∷ xs) (a, as') (lt, b) = (
        All-Grown (λ t. num_at nums x ≢ num_at nums t) e n g (omega arith) a,
        apart_grown xs as' b,
      )

small-Grown :
    (e : Entry) (n : ℕ) {ks ls : List Cache}
    → Grown e n ks ls
    → All (λ k. length k.ps ≤ suc n) ks
    → All (λ k. length k.ps ≤ suc n) ls
small-Grown e n (here {k} {k'} le grown) (p, h) =
    (rw grown (omega (arith, length-append k.ps (e ∷ []))), h)
small-Grown e n (first grown) h = (rw grown (omega arith), tt)
small-Grown e n (there g) (p, h) = (p, small-Grown e n g h)

pub Sound-Grown :
    (nums : List ℕ) (e : Entry) (max : ℕ) {ks ls : List Cache}
    → Grown e max ks ls
    → Sound nums max ks
    → e.1 < length nums
    → All (λ s. num_at nums s < num_at nums e.1) (ids ks)
    → Sound nums max ls
Sound-Grown nums e max g h exists below = record {
  small = small-Grown e max g h.small;
  known = All-Grown nums (λ t. t < length nums) e max g exists h.known;
  distinct = Distinct-Grown nums e max g h.distinct below;
}

pub Sound-Shrunk :
    (nums : List ℕ) (max : ℕ) {ks ls : List Cache}
    → Shrunk ks ls
    → Sound nums max ks
    → Sound nums max ls
Sound-Shrunk nums max s h = record {
  small = small-Shrunk max s h.small;
  known = All-Shrunk (λ t. t < length nums) s h.known;
  distinct = Distinct-Shrunk nums s h.distinct;
}
