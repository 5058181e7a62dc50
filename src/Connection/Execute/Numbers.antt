-- ===== src/Connection/Execute/Numbers.antt =====
-- The numbers of the statements: those that are there keep theirs, and a new one is above them all.
use amazon_redshift_python_d.Prelude.{
  ℕ, zero, suc, ◌≤◌, ◌<◌, ◌≡◌, ◌≢◌, refl, List, [], ◌∷◌, ◌++◌, map, arith, length, All,
  length-append,
}
use amazon_redshift_python_d.Connection.{Cache, Caches}
use amazon_redshift_python_d.Connection.Execute.{
  cached_ids, fresh_num, maximum, num_at, statement_nums,
}
use amazon_redshift_python_d.Connection.Execute.Tracking.{All-map, Distinct, Sound, ids}

-- More statements change nothing for those that are there.
pub num_at-append :
    (nums more : List ℕ) (s : ℕ) → s < length nums → num_at (nums ++ more) s ≡ num_at nums s
unfolding num_at
num_at-append [] more s lt = absurd (omega arith)
num_at-append (n ∷ nums) more zero lt = refl
num_at-append (n ∷ nums) more (suc s) lt = num_at-append nums more s (omega arith)

pub num_at-last : (nums : List ℕ) (n : ℕ) → num_at (nums ++ (n ∷ [])) (length nums) ≡ n
unfolding num_at
num_at-last [] n = refl
num_at-last (m ∷ nums) n = num_at-last nums n

Distinct-append :
    (nums more ss : List ℕ)
    → All (λ s. s < length nums) ss
    → Distinct nums ss
    → Distinct (nums ++ more) ss
Distinct-append nums more [] known d = tt
Distinct-append nums more (s ∷ ss) (lt, known) (a, d) =
    (apart ss known a, Distinct-append nums more ss known d)
  where
    apart :
        (ss : List ℕ)
        → All (λ t. t < length nums) ss
        → All (λ t. num_at nums s ≢ num_at nums t) ss
        → All (λ t. num_at (nums ++ more) s ≢ num_at (nums ++ more) t) ss
    apart [] k a = tt
    apart (t ∷ ts) (lt', k) (ne, a) =
        (rw (num_at-append nums more s lt, num_at-append nums more t lt') ne, apart ts k a)

pub Sound-append :
    (nums more : List ℕ) (max : ℕ) (ks : List Cache)
    → Sound nums max ks
    → Sound (nums ++ more) max ks
Sound-append nums more max ks h = record {
  small = h.small;
  known =
      All-map (λ s. s < length nums) (λ s. s < length (nums ++ more)) (ids ks)
        (λ s lt. omega (arith, length-append nums more)) h.known;
  distinct = Distinct-append nums more (ids ks) h.known h.distinct;
}

maximum-le : (ns : List ℕ) → All (λ n. n ≤ maximum ns) ns
unfolding maximum
maximum-le [] = tt
maximum-le (n ∷ ns) = (
  ground arith,
  All-map (λ m. m ≤ maximum ns) (λ m. m ≤ maximum (n ∷ ns)) ns (λ m le. ground arith)
      (maximum-le ns),
)

All-of-map :
    {A : Type 0} (P : ℕ → Type 0) (f : A → ℕ) (xs : List A)
    → All P (map f xs)
    → All (λ x. P (f x)) xs
All-of-map P f [] h = tt
All-of-map P f (x ∷ xs) (p, h) = (p, All-of-map P f xs h)

-- The number of a new statement is above the numbers of all statements of the process that are
-- cached, in whatever style.
pub fresh_num-above :
    (nums : List ℕ) (pid : ℕ) (caches : Caches)
    → All (λ s. num_at nums s < fresh_num nums pid caches) (cached_ids pid caches)
unfolding fresh_num statement_nums
fresh_num-above nums pid caches =
    All-of-map (λ n. n < fresh_num nums pid caches) (num_at nums) (cached_ids pid caches)
      (All-map (λ n. n ≤ maximum (map (num_at nums) (cached_ids pid caches)))
        (λ n. n < fresh_num nums pid caches) (map (num_at nums) (cached_ids pid caches))
        (λ n le. omega arith) (maximum-le (map (num_at nums) (cached_ids pid caches))))
