-- ===== src/Goldbach/Rounds.antt =====
-- One round of the sieve of lab_threads/pthreads-sync-code/goldbach/goldbach.c: the numbers that are
-- struck out have a divisor below the round's.
use native.Mathlib.Nat.{mul-le-mul_left, mul-lt-mul_of_pos_left, mul_assoc}
use cs.Base.{
  ℕ, ◌+◌, ◌-◌, ◌*◌, ◌<◌, ◌≤◌, ◌≡◌, inl, inr, refl, ap, ◌∙◌, subst, Bool, true, false, List, arith,
  ◌==◌, ltb, Bool-cases, get_or,
}
use cs.Goldbach.{mark_loop}
use cs.Goldbach.Marks.{mark_loop-false, mark_loop-hit, mark_loop-miss}

-- A divisor from 2 on and below p, no larger than the other factor.
pub record Struck (p j : ℕ) : Type 0 where
  pub d : ℕ
  pub k : ℕ
  pub product : j ≡ d * k
  pub from_two : 2 ≤ d
  pub below : d < p
  pub smaller : d * d ≤ j

-- The array before the round of p.
pub record Sieved (max_n p : ℕ) (xs : List Bool) : Type 0 where
  pub small : (j : ℕ) → get_or xs j false ≡ true → (2 ≤ j) × (j ≤ max_n)
  pub kept : (j : ℕ) → get_or xs j false ≡ true → ¬ Struck p j
  pub struck : (j : ℕ) → 2 ≤ j → j ≤ max_n → get_or xs j false ≡ false → Struck p j

Struck-suc : {p j : ℕ} → Struck p j → Struck (p + 1) j
Struck-suc s = record {
  d = s.d;
  k = s.k;
  product = s.product;
  from_two = s.from_two;
  below = omega (arith, s.below);
  smaller = s.smaller;
}

Bool-not : (b : Bool) → ¬ (b ≡ true) → b ≡ false
Bool-not true h = absurd (h refl)
Bool-not false h = refl

factor_le : (p k : ℕ) → 0 < p → p * p ≤ p * k → p ≤ k
factor_le p k pos le = elim (Bool-cases (ltb k p)) [
  | inl less ↦
      absurd (omega (arith, mul-lt-mul_of_pos_left {m = k} {n = p} {k = p} (ground arith) pos))
  | inr not ↦ ground arith
]

pub le-mul : (p m : ℕ) → 1 ≤ p → m ≤ m * p
le-mul p m h = omega (arith, mul-le-mul_left m h)

-- A number that has a divisor p has one of p's.
Struck-below : (p j : ℕ) → Struck p p → Struck (p + 1) j → Struck p j
Struck-below p j by s = elim (Bool-cases (s.d == p)) [
  | inr other ↦ record {
    d = s.d;
    k = s.k;
    product = s.product;
    from_two = s.from_two;
    below = ground (arith, s.below);
    smaller = s.smaller;
  }
  | inl same ↦
      let here : s.d ≡ p = ground arith in
      let square : p * p ≤ j = subst (λ d. d * d ≤ j) here s.smaller in
      record {
        d = by.d;
        k = by.k * s.k;
        product = s.product ∙ ap (λ d. d * s.k) (here ∙ by.product) ∙ mul_assoc by.d by.k s.k;
        from_two = by.from_two;
        below = by.below;
        smaller =
            omega (arith, by.smaller, le-mul p p (omega (arith, by.from_two, by.below)), square);
      }
]

-- p is left: its multiples from p * p on are struck out.
pub marked-Sieved :
    (max_n p : ℕ) (xs : List Bool)
    → 2 ≤ p
    → Sieved max_n p xs
    → get_or xs p false ≡ true
    → Sieved max_n (p + 1) (mark_loop (max_n + 1) max_n p (p * p) xs)
marked-Sieved max_n p xs two v prime = record {
  small = λ j e. v.small j (left j e);
  kept = λ j e s. still j e s;
  struck = λ j lo hi e. elim (mark_loop-miss (max_n + 1) max_n p (p * p) j xs e) [
    | inl was ↦ Struck-suc (v.struck j lo hi was)
    | inr (m, at) ↦ record {
      d = p;
      k = p + m;
      product = omega arith;
      from_two = two;
      below = omega arith;
      smaller = omega arith;
    }
  ];
}
  where
    left :
        (j : ℕ)
        → get_or (mark_loop (max_n + 1) max_n p (p * p) xs) j false ≡ true
        → get_or xs j false ≡ true
    left j e = elim (Bool-cases (get_or xs j false)) [
      | inl h ↦ h
      | inr h ↦ cc (mark_loop-false (max_n + 1) max_n p (p * p) j xs h)
    ]

    still :
        (j : ℕ)
        → get_or (mark_loop (max_n + 1) max_n p (p * p) xs) j false ≡ true
        → ¬ Struck (p + 1) j
    still j e s = elim (Bool-cases (s.d == p)) [
      | inr other ↦ v.kept j (left j e) (record {
        d = s.d;
        k = s.k;
        product = s.product;
        from_two = s.from_two;
        below = ground (arith, s.below);
        smaller = s.smaller;
      })
      | inl same ↦
          let here : s.d ≡ p = ground arith in
          let at : j ≡ p * s.k = s.product ∙ ap (λ d. d * s.k) here in
          let le : p ≤ s.k =
            factor_le p s.k (omega arith)
              (subst (λ d. d * d ≤ p * s.k) here (subst (λ n. s.d * s.d ≤ n) at s.smaller)) in
          let m : ℕ = s.k - p in
          let sum : s.k ≡ p + m = omega arith in
          let whole : j ≡ p * p + m * p = at ∙ ap (λ k. p * k) sum ∙ omega arith in
          let few : m ≤ m * p = le-mul p m (omega arith) in
          cc (
            mark_loop-hit (max_n + 1) max_n p (p * p) m j xs
              (omega (arith, (v.small j (left j e)).1)) whole (v.small j (left j e)).1)
    ]

-- p is struck out: so are its multiples, by a divisor of p.
pub unmarked-Sieved :
    (max_n p : ℕ) (xs : List Bool)
    → 2 ≤ p
    → p ≤ max_n
    → Sieved max_n p xs
    → get_or xs p false ≡ false
    → Sieved max_n (p + 1) xs
unmarked-Sieved max_n p xs two le v gone =
    let by = v.struck p two le gone in
    record {
      small = v.small;
      kept = λ j e s. v.kept j e (Struck-below p j by s);
      struck = λ j lo hi e. Struck-suc (v.struck j lo hi e);
    }
