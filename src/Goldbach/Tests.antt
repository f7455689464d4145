-- ===== src/Goldbach/Tests.antt =====
-- The sieve of lab_threads/pthreads-sync-code/goldbach/goldbach.c up to 30, and at a prime.
use cs.Base.{◌≡◌, ◌↔◌, refl, true, false, [], ◌∷◌, arith, get_or}
use cs.Goldbach.Counts.{prime_pairs, gb_count-prime_pairs}
use cs.Goldbach.{sieve, gb_count}
use cs.Goldbach.Sieve.{IsPrime, sieve-IsPrime}

sieve_twelve :
    sieve 12
    ≡ false ∷ false ∷ true ∷ true ∷ false ∷ true ∷ false ∷ true ∷ false ∷ false ∷ false ∷ true
      ∷ false ∷ []
unfolding sieve
sieve_twelve = refl

sieve-IsPrime_example : (get_or (sieve 30) 29 false ≡ true) ↔ IsPrime 29
sieve-IsPrime_example = sieve-IsPrime 30 29 (omega arith)

-- Ten is 3 + 7 and 5 + 5.
gb_count_ten : get_or (gb_count 20) 5 0 ≡ 2
unfolding gb_count
gb_count_ten = refl

gb_count-prime_pairs_example :
    get_or (gb_count 20) 5 0 ≡ prime_pairs (λ n. get_or (sieve 20) n false) 10 4 2
gb_count-prime_pairs_example =
    gb_count-prime_pairs 20 (λ n. get_or (sieve 20) n false) (λ n le. sieve-IsPrime 20 n le) 5
      (omega arith) (omega arith)
