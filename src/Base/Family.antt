-- ===== src/Base/Family.antt =====
-- Threads as a function from an index to a state: the update of one, and how many of the first `n`
-- satisfy a test.
use Prim.Native.Nat.{ℕ, zero, suc, ◌+◌, ◌-◌, ◌<◌, ◌≤◌}
use mathlib.Core.Path.{◌≡◌, refl, subst}
use mathlib.Core.Bool.{Bool, true, false}
use mathlib.Core.Logic.{◌≢◌, inl, inr}
use native.Mathlib.Omega.{arith}
use cs.Base.Tests.{◌==◌, if◌then◌else◌, Bool-cases, ==→eq}

-- The number of a test.
abbrev pub bit : Bool → ℕ
bit true = 1
bit false = 0

module _ {ℓ} {A : Type ℓ} where
  abbrev pub update : (ℕ → A) → ℕ → A → ℕ → A
  update f i a j = if i == j then a else f j

  unfoldable pub count : (A → Bool) → ℕ → (ℕ → A) → ℕ
  count p zero f = 0
  count p (suc n) f = bit (p (f n)) + count p n f

  count-update_out :
      (p : A → Bool) (n : ℕ) (f : ℕ → A) (i : ℕ) (a : A)
      → n ≤ i
      → count p n (update f i a) ≡ count p n f
  unfolding count
  count-update_out p zero f i a h = refl
  count-update_out p (suc n) f i a h = ground (arith, count-update_out p n f i a)

  -- One thread moves: the count changes by that thread alone.
  pub count-update :
      (p : A → Bool) (n : ℕ) (f : ℕ → A) (i : ℕ) (a : A)
      → i < n
      → count p n (update f i a) + bit (p (f i)) ≡ count p n f + bit (p a)
  unfolding count
  count-update p zero f i a h = elim h [ ]
  count-update p (suc n) f i a h = elim (Bool-cases (i == n)) [
    | inl last ↦ ground (arith, count-update_out p n f i a)
    | inr below ↦ ground (arith, count-update p n f i a)
  ]

  pub count-none : (p : A → Bool) (f : ℕ → A) → count p 0 f ≡ 0
  unfolding count
  count-none p f = refl

  pub count-push :
      (p : A → Bool) (n : ℕ) (f : ℕ → A) (a : A)
      → count p (suc n) (update f n a) ≡ bit (p a) + count p n f
  unfolding count
  count-push p n f a = ground (arith, count-update_out p n f n a)

  pub count-pred :
      (p : A → Bool) (n : ℕ) (f : ℕ → A)
      → 0 < n
      → count p n f ≡ bit (p (f (n - 1))) + count p (n - 1) f
  unfolding count
  count-pred p zero f h = elim h [ ]
  count-pred p (suc n) f h = let e : suc n - 1 ≡ n = omega arith in rw e refl

  -- A thread that passes the test makes the count positive.
  pub count-pos :
      (p : A → Bool) (n : ℕ) (f : ℕ → A) (i : ℕ) → i < n → p (f i) ≡ true → 0 < count p n f
  unfolding count
  count-pos p zero f i h e = elim h [ ]
  count-pos p (suc n) f i h e = elim (Bool-cases (i == n)) [
    | inl last ↦ ground arith
    | inr below ↦ ground (arith, count-pos p n f i)
  ]

  -- A change of every thread that the test does not see.
  pub count-map :
      (p : A → Bool) (g : A → A) (n : ℕ) (f : ℕ → A)
      → ((a : A) → p (g a) ≡ p a)
      → count p n (λ k. g (f k)) ≡ count p n f
  unfolding count
  count-map p g zero f same = refl
  count-map p g (suc n) f same = ground (arith, same (f n), count-map p g n f same)

  -- A positive count comes from a thread.
  pub count-some :
      (p : A → Bool) (n : ℕ) (f : ℕ → A) → 0 < count p n f → (i : ℕ) × (i < n) × (p (f i) ≡ true)
  unfolding count
  count-some p zero f h = elim h [ ]
  count-some p (suc n) f h = elim (Bool-cases (p (f n))) [
    | inl here ↦ (n, omega arith, here)
    | inr not ↦ let (i, lt, e) = count-some p n f (ground arith) in (i, omega arith, e)
  ]

  pub count-zero :
      (p : A → Bool) (n : ℕ) (f : ℕ → A) → ((i : ℕ) → p (f i) ≡ false) → count p n f ≡ 0
  unfolding count
  count-zero p zero f none = refl
  count-zero p (suc n) f none = ground (arith, none n, count-zero p n f none)

  pub count-le : (p : A → Bool) (n : ℕ) (f : ℕ → A) → count p n f ≤ n
  unfolding count
  count-le p zero f = omega arith
  count-le p (suc n) f = ground (arith, count-le p n f)

  -- A full count comes from every thread.
  pub count-all :
      (p : A → Bool) (n : ℕ) (f : ℕ → A) (i : ℕ) → n ≤ count p n f → i < n → p (f i) ≡ true
  unfolding count
  count-all p zero f i full h = elim h [ ]
  count-all p (suc n) f i full h = elim (Bool-cases (i == n)) [
    | inl last ↦ ground (arith, count-le p n f)
    | inr below ↦ ground (arith, count-le p n f, count-all p n f i)
  ]

  -- Two threads that pass the test count twice.
  pub count-two :
      (p : A → Bool) (n : ℕ) (f : ℕ → A) (i j : ℕ)
      → i < j
      → j < n
      → p (f i) ≡ true
      → p (f j) ≡ true
      → 1 < count p n f
  unfolding count
  count-two p zero f i j l h a b = elim h [ ]
  count-two p (suc n) f i j l h a b = elim (Bool-cases (j == n)) [
    | inl last ↦ ground (arith, count-pos p n f i)
    | inr below ↦ ground (arith, count-two p n f i j)
  ]

-- A property of each thread when one of them moves.
pub update-all {ℓ κ} :
    {A : Type ℓ} (P : ℕ → A → Type κ) (f : ℕ → A) (i : ℕ) (a : A)
    → P i a
    → ((j : ℕ) → i ≢ j → P j (f j))
    → (j : ℕ) → P j (update f i a j)
update-all P f i a own others j = elim (Bool-cases (i == j)) [
  | inl e ↦ rw e (subst (λ k. P k a) (==→eq i j e) own)
  | inr e ↦ rw e (others j (λ same. ground arith))
]
