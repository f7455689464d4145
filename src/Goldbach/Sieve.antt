-- ===== src/Goldbach/Sieve.antt =====
-- The numbers that the sieve of lab_threads/pthreads-sync-code/goldbach/goldbach.c leaves are the
-- primes.
use native.Mathlib.Nat.{mul-le-mul_left, mul-le-mul, mul_comm}
use cs.Base.{
  ℕ, zero, suc, ◌+◌, ◌*◌, ◌<◌, ◌≤◌, ◌≡◌, ◌≢◌, ◌↔◌, inl, inr, refl, ◌∙◌, subst, Bool, true, false,
  List, arith, ◌==◌, leb, ltb, if◌then◌else◌, Bool-cases, get_or, set, replicate,
}
use cs.Goldbach.{all_true, mark_multiples, sieve_loop, sieve}
use cs.Goldbach.Marks.{get_or-set}
use cs.Goldbach.Rounds.{Struck, Sieved, marked-Sieved, unmarked-Sieved, le-mul}

-- A number from 2 on that is no product of two such.
pub record IsPrime (n : ℕ) : Type 0 where
  pub from_two : 2 ≤ n
  pub irreducible : (d k : ℕ) → n ≡ d * k → 2 ≤ d → d ≡ n

mark_multiples-Sieved :
    (max_n p : ℕ) (xs : List Bool)
    → 2 ≤ p
    → p ≤ max_n
    → Sieved max_n p xs
    → Sieved max_n (p + 1) (mark_multiples max_n p xs)
unfolding mark_multiples
mark_multiples-Sieved max_n p xs two le v = elim (Bool-cases (get_or xs p false)) [
  | inl left ↦ rw left (marked-Sieved max_n p xs two v left)
  | inr gone ↦ rw gone (unmarked-Sieved max_n p xs two le v gone)
]

-- The array at the end of the loop.
record Ended (max_n : ℕ) (xs : List Bool) : Type 0 where
  p : ℕ
  past : max_n < p * p
  sieved : Sieved max_n p xs

sieve_loop-Ended :
    (k max_n p : ℕ) (xs : List Bool)
    → 2 ≤ p
    → max_n < k + p
    → Sieved max_n p xs
    → Ended max_n (sieve_loop k max_n p xs)
unfolding sieve_loop
sieve_loop-Ended zero max_n p xs two enough v = record {
  p = p;
  past = omega (arith, le-mul p p (omega arith));
  sieved = v;
}
sieve_loop-Ended (suc k) max_n p xs two enough v = elim (Bool-cases (leb (p * p) max_n)) [
  | inr past ↦ rw past (record { p = p; past = ground arith; sieved = v })
  | inl within ↦
      let fits : p * p ≤ max_n = ground arith in
      rw within (
        sieve_loop-Ended k max_n (p + 1) (mark_multiples max_n p xs) (omega arith) (omega arith)
          (mark_multiples-Sieved max_n p xs two (omega (arith, le-mul p p (omega arith))) v))
]

get_or-replicate : (n j : ℕ) → get_or (replicate n true) j false ≡ ltb j n
get_or-replicate zero zero = refl
get_or-replicate zero (suc j) = ground arith
get_or-replicate (suc n) zero = ground arith
get_or-replicate (suc n) (suc j) = ground (arith, get_or-replicate n j)

get_or-all_true :
    (max_n j : ℕ)
    → get_or (all_true max_n) j false
      ≡ (if 1 == j then false else if 0 == j then false else ltb j (max_n + 1))
unfolding all_true
get_or-all_true max_n j =
    rw
      (
        get_or-set (set (replicate (max_n + 1) true) 0 false) 1 j,
        get_or-set (replicate (max_n + 1) true) 0 j,
        get_or-replicate (max_n + 1) j,
      )
      refl

all_true-Sieved : (max_n : ℕ) → Sieved max_n 2 (all_true max_n)
all_true-Sieved max_n = record {
  small = λ j e. (ground (arith, get_or-all_true max_n j), ground (arith, get_or-all_true max_n j));
  kept = λ j e s. omega (arith, s.below, s.from_two);
  struck = λ j lo hi e. absurd (ground (arith, get_or-all_true max_n j));
}

-- Of two factors from 2 on, one is no larger than the other.
Struck-composite : (q j d k : ℕ) → j < q * q → j ≡ d * k → 2 ≤ d → 2 ≤ k → Struck q j
Struck-composite q j d k past e two two' = elim (Bool-cases (leb d k)) [
  | inl le ↦ divisor d k e two (ground arith)
  | inr gt ↦ divisor k d (e ∙ mul_comm d k) two' (ground arith)
]
  where
    divisor : (a b : ℕ) → j ≡ a * b → 2 ≤ a → a ≤ b → Struck q j
    divisor a b e lo le =
        let square : a * a ≤ a * b = mul-le-mul_left a le in
        record {
          d = a;
          k = b;
          product = e;
          from_two = lo;
          below = elim (Bool-cases (ltb a q)) [
            | inl less ↦ ground arith
            | inr not ↦
                let far : q * q ≤ a * a =
                  mul-le-mul {n₁ = q} {m₁ = q} {n₂ = a} {m₂ = a} (ground arith) (ground arith) in
                absurd (omega arith)
          ];
          smaller = omega arith;
        }

cofactor_two : (j d k : ℕ) → j ≡ d * k → 2 ≤ j → d ≢ j → 2 ≤ k
cofactor_two j d zero e lo ne = absurd (omega arith)
cofactor_two j d (suc zero) e lo ne = absurd (ne (omega arith))
cofactor_two j d (suc (suc k)) e lo ne = omega arith

-- In the array of the sieve, as large as it may be, a number is left exactly when it is prime.
pub sieve-IsPrime : (max_n j : ℕ) → j ≤ max_n → (get_or (sieve max_n) j false ≡ true) ↔ IsPrime j
unfolding sieve
sieve-IsPrime max_n j le = (λ e. left e, λ is. stays is)
  where
    at_end : Ended max_n (sieve max_n)
    at_end =
        sieve_loop-Ended (max_n + 1) max_n 2 (all_true max_n) (omega arith) (omega arith)
          (all_true-Sieved max_n)

    left : get_or (sieve max_n) j false ≡ true → IsPrime j
    left e = record {
      from_two = (at_end.sieved.small j e).0;
      irreducible = λ d k product two. elim (Bool-cases (d == j)) [
        | inl same ↦ ground arith
        | inr other ↦ absurd (
            at_end.sieved.kept j e (
              Struck-composite at_end.p j d k (omega (arith, at_end.past)) product two
                (cofactor_two j d k product (at_end.sieved.small j e).0 (λ same. ground arith))))
      ];
    }

    stays : IsPrime j → get_or (sieve max_n) j false ≡ true
    stays is = elim (Bool-cases (get_or (sieve max_n) j false)) [
      | inl e ↦ e
      | inr e ↦
          let s = at_end.sieved.struck j is.from_two le e in
          let same : s.d ≡ j = is.irreducible s.d s.k s.product s.from_two in
          let square : j * j ≤ j = subst (λ d. d * d ≤ j) same s.smaller in
          absurd (omega (arith, mul-le-mul_left {m = 2} j is.from_two, is.from_two))
    ]
