-- ===== src/Goldbach/Marks.antt =====
-- What one prime strikes out in lab_threads/pthreads-sync-code/goldbach/goldbach.c: the numbers from
-- i on, in steps of p.
use cs.Base.{
  ℕ, zero, suc, ◌+◌, ◌*◌, ◌<◌, ◌≤◌, ◌≡◌, ◌⊎◌, inl, inr, refl, Bool, false, List, [], ◌∷◌, arith,
  ◌==◌, leb, if◌then◌else◌, Bool-cases, get_or, set, length, length-set,
}
use cs.Goldbach.{mark_loop}

pub get_or-set :
    (xs : List Bool) (i j : ℕ)
    → get_or (set xs i false) j false ≡ (if i == j then false else get_or xs j false)
get_or-set [] i j = ground arith
get_or-set (x ∷ xs) zero zero = refl
get_or-set (x ∷ xs) zero (suc j) = ground arith
get_or-set (x ∷ xs) (suc i) zero = ground arith
get_or-set (x ∷ xs) (suc i) (suc j) = ground (arith, get_or-set xs i j)

pub length-mark_loop :
    (k max_n p i : ℕ) (xs : List Bool) → length (mark_loop k max_n p i xs) ≡ length xs
unfolding mark_loop
length-mark_loop zero max_n p i xs = refl
length-mark_loop (suc k) max_n p i xs =
    ground (arith, length-mark_loop k max_n p (i + p) (set xs i false), length-set xs i false)

-- What is struck out stays so.
pub mark_loop-false :
    (k max_n p i j : ℕ) (xs : List Bool)
    → get_or xs j false ≡ false
    → get_or (mark_loop k max_n p i xs) j false ≡ false
unfolding mark_loop
mark_loop-false zero max_n p i j xs h = h
mark_loop-false (suc k) max_n p i j xs h =
    ground (arith, mark_loop-false k max_n p (i + p) j (set xs i false), get_or-set xs i j)

-- Each multiple is struck out.
pub mark_loop-hit :
    (k max_n p i m j : ℕ) (xs : List Bool)
    → m < k
    → j ≡ i + m * p
    → j ≤ max_n
    → get_or (mark_loop k max_n p i xs) j false ≡ false
unfolding mark_loop
mark_loop-hit zero max_n p i m j xs h e le = elim h [ ]
mark_loop-hit (suc k) max_n p i zero j xs h e le =
    let same : j ≡ i = omega arith in
    ground (arith, mark_loop-false k max_n p (i + p) j (set xs i false), get_or-set xs i j)
mark_loop-hit (suc k) max_n p i (suc m) j xs h e le =
    let next : j ≡ (i + p) + m * p = omega arith in
    let within : i ≤ max_n = omega arith in
    ground (arith, mark_loop-hit k max_n p (i + p) m j (set xs i false) (omega arith) next le)

-- And nothing else is.
pub mark_loop-miss :
    (k max_n p i j : ℕ) (xs : List Bool)
    → get_or (mark_loop k max_n p i xs) j false ≡ false
    → (get_or xs j false ≡ false) ⊎ ((m : ℕ) × (j ≡ i + m * p))
unfolding mark_loop
mark_loop-miss zero max_n p i j xs h = inl h
mark_loop-miss (suc k) max_n p i j xs h = elim (Bool-cases (leb i max_n)) [
  | inr out ↦ inl (rw out at h)
  | inl within ↦ elim (mark_loop-miss k max_n p (i + p) j (set xs i false) (rw within at h)) [
    | inr (m, e) ↦ inr (suc m, omega arith)
    | inl e ↦ elim (Bool-cases (i == j)) [
      | inl same ↦ inr (0, ground arith)
      | inr other ↦ inl (ground (arith, get_or-set xs i j))
    ]
  ]
]
