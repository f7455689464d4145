-- ===== src/Goldbach.antt =====
-- The sieve of lab_threads/pthreads-sync-code/goldbach/goldbach.c, over an array of any size, and the
-- counts that its threads make. That `p <= sqrt(maxN)` is read as p * p <= maxN.
pub mod Counts
pub mod Marks
pub mod Rounds
pub mod Sieve
mod Tests
use cs.Base.{
  ℕ, zero, suc, ◌+◌, ◌-◌, ◌*◌, ◌/◌, ◌%◌, Bool, true, false, ◌&&◌, List, [], ◌∷◌, ◌==◌, ltb, leb,
  if◌then◌else◌, get_or, set, replicate,
}

-- `primes[i] = true` for all of the array, and then `primes[0] = primes[1] = false`.
unfoldable pub all_true : ℕ → List Bool
all_true max_n = set (set (replicate (max_n + 1) true) 0 false) 1 false

-- `for (int i = p * p; i <= maxN; i += p) primes[i] = false`
unfoldable pub mark_loop : ℕ → ℕ → ℕ → ℕ → List Bool → List Bool
mark_loop zero max_n p i primes = primes
mark_loop (suc k) max_n p i primes =
    let rest = mark_loop k max_n p (i + p) (set primes i false) in
    if leb i max_n then rest else primes

unfoldable pub mark_multiples : ℕ → ℕ → List Bool → List Bool
unfolding mark_loop
mark_multiples max_n p primes =
    if get_or primes p false then mark_loop (max_n + 1) max_n p (p * p) primes else primes

-- The loop over `p`.
unfoldable pub sieve_loop : ℕ → ℕ → ℕ → List Bool → List Bool
unfolding mark_multiples
sieve_loop zero max_n p primes = primes
sieve_loop (suc k) max_n p primes =
    let rest = sieve_loop k max_n (p + 1) (mark_multiples max_n p primes) in
    if leb (p * p) max_n then rest else primes

unfoldable pub sieve : ℕ → List Bool
unfolding sieve_loop all_true
sieve max_n = sieve_loop (max_n + 1) max_n 2 (all_true max_n)

-- `gb_count[n / 2]++`
unfoldable pub count_up : ℕ → List ℕ → List ℕ
count_up i counts = set counts i (get_or counts i 0 + 1)

-- The loop over `p1`, with `k` rounds left.
unfoldable pub pair_loop : List Bool → ℕ → ℕ → ℕ → List ℕ → List ℕ
unfolding count_up
pair_loop primes n zero p1 counts = counts
pair_loop primes n (suc k) p1 counts = pair_loop primes n k (p1 + 1) (
    if get_or primes p1 false && get_or primes (n - p1) false
    then count_up (n / 2) counts
    else counts)

-- The loop over `n`, from `start` to `end`.
unfoldable pub compute_goldbach : ℕ → List Bool → ℕ → ℕ → List ℕ → List ℕ
unfolding pair_loop
compute_goldbach zero primes n end counts = counts
compute_goldbach (suc k) primes n end counts =
    let rest = compute_goldbach k primes (n + 2) end (pair_loop primes n (n / 2 - 1) 2 counts) in
    if leb n end then rest else counts

abbrev pub min : ℕ → ℕ → ℕ
min a b = if ltb a b then a else b

-- `int range = maxN / 10; if (range & 1) range++`
unfoldable pub range : ℕ → ℕ
range max_n = let r = max_n / 10 in if r % 2 == 1 then r + 1 else r

-- The loop that starts the threads. Each thread writes the counts of its own numbers and reads
-- nothing that another writes, so that they stand one behind the other here.
unfoldable pub thread_loop : ℕ → ℕ → ℕ → List Bool → List ℕ → List ℕ
unfolding compute_goldbach
thread_loop zero max_n start primes counts = counts
thread_loop (suc k) max_n start primes counts =
    thread_loop k max_n (start + range max_n + 2) primes
      (compute_goldbach (max_n + 1) primes start (min max_n (start + range max_n)) counts)

unfoldable pub multi_threaded_goldback : ℕ → List Bool → List ℕ → List ℕ
unfolding thread_loop range
multi_threaded_goldback max_n primes counts = thread_loop 10 max_n 4 primes counts

-- `main`: the sieve, and the counts of all even numbers, from 0.
unfoldable pub gb_count : ℕ → List ℕ
unfolding sieve multi_threaded_goldback
gb_count max_n = multi_threaded_goldback max_n (sieve max_n) (replicate (max_n / 2 + 1) 0)
