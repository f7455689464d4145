-- ===== src/Goldbach/Counts.antt =====
-- The counts of lab_threads/pthreads-sync-code/goldbach/goldbach.c: of each even number, the primes
-- up to its half whose difference to it is a prime.
use cs.Base.{
  ℕ, zero, suc, ◌+◌, ◌-◌, ◌*◌, ◌/◌, ◌%◌, ◌<◌, ◌≤◌, ◌≡◌, ◌↔◌, refl, sym, ap, ◌∙◌, Bool, true, false,
  ◌&&◌, List, [], ◌∷◌, arith, ◌==◌, leb, ltb, if◌then◌else◌, inl, inr, Bool-cases, get_or, set,
  length, length-set, replicate,
}
use cs.Base.Family.{bit}
use cs.Goldbach.{sieve, count_up, pair_loop, compute_goldbach, min, range, thread_loop, gb_count}
use cs.Goldbach.Sieve.{IsPrime, sieve-IsPrime}

get_or-set_nat :
    (xs : List ℕ) (i j v : ℕ)
    → i < length xs
    → get_or (set xs i v) j 0 ≡ (if i == j then v else get_or xs j 0)
get_or-set_nat [] i j v h = elim h [ ]
get_or-set_nat (x ∷ xs) zero zero v h = refl
get_or-set_nat (x ∷ xs) zero (suc j) v h = ground arith
get_or-set_nat (x ∷ xs) (suc i) zero v h = ground arith
get_or-set_nat (x ∷ xs) (suc i) (suc j) v h = ground (arith, get_or-set_nat xs i j v)

-- How many of the numbers p1, ..., p1 + k - 1 are left by the sieve with their difference to n.
pub pairs : List Bool → ℕ → ℕ → ℕ → ℕ
pairs primes n zero p1 = 0
pairs primes n (suc k) p1 =
    bit (get_or primes p1 false && get_or primes (n - p1) false) + pairs primes n k (p1 + 1)

length-pair_loop :
    (primes : List Bool) (n k p1 : ℕ) (counts : List ℕ)
    → length (pair_loop primes n k p1 counts) ≡ length counts
unfolding pair_loop
length-pair_loop primes n zero p1 counts = refl
length-pair_loop primes n (suc k) p1 counts = ground (
  arith,
  length-pair_loop primes n k (p1 + 1) (count_up (n / 2) counts),
  length-pair_loop primes n k (p1 + 1) counts,
  length-set counts (n / 2) (get_or counts (n / 2) 0 + 1),
)

pair_loop-pairs :
    (primes : List Bool) (n k p1 j : ℕ) (counts : List ℕ)
    → n / 2 < length counts
    → get_or (pair_loop primes n k p1 counts) j 0
      ≡ (if n / 2 == j then pairs primes n k p1 else 0) + get_or counts j 0
unfolding pair_loop pairs
pair_loop-pairs primes n zero p1 j counts h = ground arith
pair_loop-pairs primes n (suc k) p1 j counts h = ground (
  arith,
  pair_loop-pairs primes n k (p1 + 1) j (count_up (n / 2) counts),
  pair_loop-pairs primes n k (p1 + 1) j counts,
  length-set counts (n / 2) (get_or counts (n / 2) 0 + 1),
  get_or-set_nat counts (n / 2) j (get_or counts (n / 2) 0 + 1),
)

-- The pairs of an even number, up to its half.
abbrev pub pairs_of : List Bool → ℕ → ℕ
pairs_of primes n = pairs primes n (n / 2 - 1) 2

-- The number 2 * j is in a range.
abbrev within : ℕ → ℕ → ℕ → Bool
within n end j = leb n (2 * j) && leb (2 * j) end

length-compute_goldbach :
    (k : ℕ) (primes : List Bool) (n end : ℕ) (counts : List ℕ)
    → length (compute_goldbach k primes n end counts) ≡ length counts
unfolding compute_goldbach
length-compute_goldbach zero primes n end counts = refl
length-compute_goldbach (suc k) primes n end counts =
    let next = pair_loop primes n (n / 2 - 1) 2 counts in
    ground (
      arith,
      length-compute_goldbach k primes (n + 2) end next,
      length-pair_loop primes n (n / 2 - 1) 2 counts,
    )

le_end : (n end : ℕ) → leb n end ≡ true → n ≤ end
le_end n end h = ground arith

compute_goldbach-pairs :
    (k : ℕ) (primes : List Bool) (n end j : ℕ) (counts : List ℕ)
    → end < n + 2 * k
    → n % 2 ≡ 0
    → end / 2 < length counts
    → get_or (compute_goldbach k primes n end counts) j 0
      ≡ (if within n end j then pairs_of primes (2 * j) else 0) + get_or counts j 0
unfolding compute_goldbach
compute_goldbach-pairs zero primes n end j counts fuel even room = ground arith
compute_goldbach-pairs (suc k) primes n end j counts fuel even room =
    let next = pair_loop primes n (n / 2 - 1) 2 counts in
    elim (Bool-cases (leb n end)) [
      | inr out ↦ rw out (ground arith)
      | inl more ↦
          let rest =
            compute_goldbach-pairs k primes (n + 2) end j next (omega arith) (omega arith)
              (omega (arith, length-pair_loop primes n (n / 2 - 1) 2 counts, le_end n end more)) in
          let here =
            pair_loop-pairs primes n (n / 2 - 1) 2 j counts (omega (arith, le_end n end more)) in
          rw more (elim (Bool-cases (n / 2 == j)) [
            | inl same ↦
                let whole : n ≡ 2 * j = ground arith in
                ground (arith, rest, here, ap (pairs_of primes) whole)
            | inr other ↦ ground (arith, rest, here)
          ])
    ]

length-replicate {ℓ} : {A : Type ℓ} (n : ℕ) (a : A) → length (replicate n a) ≡ n
length-replicate zero a = refl
length-replicate (suc n) a = ap suc (length-replicate n a)

get_or-replicate-zero : (n j : ℕ) → get_or (replicate n zero) j 0 ≡ 0
get_or-replicate-zero zero j = refl
get_or-replicate-zero (suc n) zero = refl
get_or-replicate-zero (suc n) (suc j) = get_or-replicate-zero n j

range_even : (max_n : ℕ) → (range max_n % 2 ≡ 0) × (max_n < 10 * range max_n + 10)
unfolding range
range_even max_n = (ground arith, ground arith)

-- A number is in the first of the ranges or in those behind it.
joined :
    (start r w max_n j found old end : ℕ)
    → start % 2 ≡ 0
    → r % 2 ≡ 0
    → end ≡ start + r + 2 + w
    → (if leb (start + r + 2) (2 * j) && (ltb (2 * j) (start + r + 2 + w) && leb (2 * j) max_n)
          then found
          else 0)
        + ((if within start (min max_n (start + r)) j then found else 0) + old)
      ≡ (if leb start (2 * j) && (ltb (2 * j) end && leb (2 * j) max_n) then found else 0) + old
joined start r w max_n j found old end even even' e = ground arith

-- The ranges of k threads, from `start` on.
thread_loop-pairs :
    (k max_n start : ℕ) (primes : List Bool) (j : ℕ) (counts : List ℕ)
    → start % 2 ≡ 0
    → 2 ≤ start
    → max_n / 2 < length counts
    → get_or (thread_loop k max_n start primes counts) j 0
      ≡ (if leb start (2 * j) && (ltb (2 * j) (start + k * (range max_n + 2)) && leb (2 * j) max_n)
          then pairs_of primes (2 * j)
          else 0)
        + get_or counts j 0
unfolding thread_loop
thread_loop-pairs zero max_n start primes j counts even two room = ground arith
thread_loop-pairs (suc k) max_n start primes j counts even two room =
    let end = min max_n (start + range max_n) in
    let le : end ≤ max_n = ground arith in
    let next = compute_goldbach (max_n + 1) primes start end counts in
    let here =
      compute_goldbach-pairs (max_n + 1) primes start end j counts (omega arith) even
        (omega arith) in
    let rest =
      thread_loop-pairs k max_n (start + range max_n + 2) primes j next
        (omega (arith, (range_even max_n).0)) (omega arith)
        (omega (arith, length-compute_goldbach (max_n + 1) primes start end counts)) in
    rest
    ∙ ap
        (λ c.
          (if leb (start + range max_n + 2) (2 * j)
              && (ltb (2 * j) (start + range max_n + 2 + k * (range max_n + 2))
                  && leb (2 * j) max_n)
            then pairs_of primes (2 * j)
            else 0)
          + c)
        here
    ∙ joined start (range max_n) (k * (range max_n + 2)) max_n j (pairs_of primes (2 * j))
        (get_or counts j 0) _ even (range_even max_n).0 (omega arith)

-- How many of the numbers p, ..., p + k - 1 are prime with their difference to n prime.
pub prime_pairs : (ℕ → Bool) → ℕ → ℕ → ℕ → ℕ
prime_pairs is_prime n zero p = 0
prime_pairs is_prime n (suc k) p =
    bit (is_prime p && is_prime (n - p)) + prime_pairs is_prime n k (p + 1)

Bool-iff : (a b : Bool) → ((a ≡ true) ↔ (b ≡ true)) → a ≡ b
Bool-iff true b h = sym (h.0 refl)
Bool-iff false true h = h.1 refl
Bool-iff false false h = refl

module _ (max_n : ℕ) (is_prime : ℕ → Bool)
    (decides : (n : ℕ) → n ≤ max_n → (is_prime n ≡ true) ↔ IsPrime n) where
  sieve-is_prime : (n : ℕ) → n ≤ max_n → get_or (sieve max_n) n false ≡ is_prime n
  sieve-is_prime n le =
      let left = sieve-IsPrime max_n n le in
      let right = decides n le in
      Bool-iff _ _ ((λ e. right.1 (left.0 e)), (λ e. left.1 (right.0 e)))

  pairs-prime_pairs :
      (n k p : ℕ)
      → n ≤ max_n
      → p + k ≤ n + 1
      → pairs (sieve max_n) n k p ≡ prime_pairs is_prime n k p
  unfolding pairs prime_pairs
  pairs-prime_pairs n zero p le h = refl
  pairs-prime_pairs n (suc k) p le h =
      rw
        (
          sieve-is_prime p (omega arith),
          sieve-is_prime (n - p) (omega arith),
          pairs-prime_pairs n k (p + 1) le (omega arith),
        )
        refl

  -- For an array of any size, when is_prime decides the primes up to max_n and 2 * j is from 4 on and
  -- at most max_n, the count that the threads leave for 2 * j is the number of primes p from 2 to j
  -- for which 2 * j - p is prime.
  pub gb_count-prime_pairs :
      (j : ℕ)
      → 2 ≤ j
      → 2 * j ≤ max_n
      → get_or (gb_count max_n) j 0 ≡ prime_pairs is_prime (2 * j) (j - 1) 2
  unfolding gb_count
  gb_count-prime_pairs j two le =
      let half : 2 * j / 2 ≡ j = omega arith in
      thread_loop-pairs 10 max_n 4 (sieve max_n) j (replicate (max_n / 2 + 1) 0) refl (omega arith)
        (omega (arith, length-replicate {0} (max_n / 2 + 1) zero))
      ∙ ground (
        arith,
        (range_even max_n).1,
        get_or-replicate-zero (max_n / 2 + 1) j,
        ap (λ h. pairs (sieve max_n) (2 * j) (h - 1) 2) half,
        pairs-prime_pairs (2 * j) (j - 1) 2 le (omega arith),
      )
