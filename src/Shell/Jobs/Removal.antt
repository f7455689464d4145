-- ===== src/Shell/Jobs/Removal.antt =====
-- The jobs in `child_process` of lab_shell/my_shell.c, and the children that have ended.
use cs.Base.{
  ℕ, zero, suc, ◌+◌, ◌≤◌, ◌≡◌, refl, sym, ap, ◌∙◌, Bool, true, false, List, [], ◌∷◌, ◌++◌, ◌==◌,
  if◌then◌else◌, get_or, set, length, arith, inl, inr, Bool-cases, lt→ltb, ◌^◌, length-append,
}
use mathlib.Core.Path.{ap₂}
use mathlib.Core.List.{append_assoc}
use cs.Shell.Jobs.{Jobs, rounds, shift_loop, remove_loop, update_child_process_array, reap}

get_or-append : (xs ys : List ℕ) (y : ℕ) → get_or (xs ++ y ∷ ys) (length xs) 0 ≡ y
get_or-append [] ys y = refl
get_or-append (x ∷ xs) ys y = get_or-append xs ys y

set-append : (xs ys : List ℕ) (y z : ℕ) → set (xs ++ y ∷ ys) (length xs) z ≡ xs ++ z ∷ ys
set-append [] ys y z = refl
set-append (x ∷ xs) ys y z = ap (λ l. x ∷ l) (set-append xs ys y z)

get_or-append_next :
    (xs ys : List ℕ) (p y i : ℕ) → i ≡ length xs + 1 → get_or (xs ++ p ∷ y ∷ ys) i 0 ≡ y
get_or-append_next [] ys p y i e = rw e refl
get_or-append_next (x ∷ xs) ys p y zero e = absurd (omega arith)
get_or-append_next (x ∷ xs) ys p y (suc i) e = get_or-append_next xs ys p y i (omega arith)

-- The entries behind `p` move up by one, and the last stays where it is too.
abbrev pub last : ℕ → List ℕ → ℕ
last p [] = p
last p (y ∷ ys) = last y ys

shift_loop-append :
    (ys xs rest : List ℕ) (p : ℕ)
    → shift_loop (length ys) (length xs) (xs ++ (p ∷ (ys ++ rest)))
      ≡ xs ++ (ys ++ (last p ys ∷ rest))
unfolding shift_loop
shift_loop-append [] xs rest p = refl
shift_loop-append (y ∷ ys) xs rest p =
    ap (λ l. shift_loop (length ys) (length xs + 1) l)
      (ap (λ z. set (xs ++ p ∷ y ∷ (ys ++ rest)) (length xs) z)
          (get_or-append_next xs (ys ++ rest) p y (length xs + 1) refl)
        ∙ set-append xs (y ∷ (ys ++ rest)) p y)
    ∙ ap₂ (λ n l. shift_loop (length ys) n l) (sym (length-append xs (y ∷ [])))
        (sym (append_assoc xs (y ∷ []) (y ∷ (ys ++ rest))))
    ∙ shift_loop-append ys (xs ++ y ∷ []) rest y
    ∙ append_assoc xs (y ∷ []) (ys ++ (last y ys ∷ rest))

-- The jobs without the first that is `pid`, or all of them.
abbrev pub erase : ℕ → List ℕ → List ℕ
erase pid [] = []
erase pid (k ∷ ks) = if k == pid then ks else k ∷ erase pid ks

abbrev pub has : ℕ → List ℕ → Bool
has pid [] = false
has pid (k ∷ ks) = if k == pid then true else has pid ks

remove_loop-append :
    (pid : ℕ) (ks xs rest : List ℕ)
    → has pid ks ≡ true
    → (z : ℕ) × (remove_loop pid (length ks) (length xs) (xs ++ (ks ++ rest))
        ≡ xs ++ (erase pid ks ++ (z ∷ rest)))
unfolding remove_loop
remove_loop-append pid [] xs rest there = cc
remove_loop-append pid (k ∷ ks) xs rest there = elim (Bool-cases (k == pid)) [
  | inl hit ↦ rw (get_or-append xs (ks ++ rest) k, hit) (last k ks, shift_loop-append ks xs rest k)
  | inr miss ↦
      let behind : has pid ks ≡ true = ground (arith, there, miss) in
      let (z, is) = remove_loop-append pid ks (xs ++ k ∷ []) rest behind in
      rw (get_or-append xs (ks ++ rest) k, miss)
        (
          z,
          ap₂ (λ n l. remove_loop pid (length ks) n l) (sym (length-append xs (k ∷ [])))
                (sym (append_assoc xs (k ∷ []) (ks ++ rest)))
              ∙ is
              ∙ append_assoc xs (k ∷ []) (erase pid ks ++ (z ∷ rest)),
        )
]

-- The entries up to the index are `ks`.
pub record Holds (jobs : Jobs) (ks : List ℕ) : Type 0 where
  pub counted : jobs.child_process_idx ≡ length ks
  pub few : length ks ≤ 64
  pub unused : List ℕ
  pub room : length ks + length unused ≡ 64
  pub stand : jobs.child_process ≡ ks ++ unused

length-erase : (pid : ℕ) (ks : List ℕ) → has pid ks ≡ true → length (erase pid ks) + 1 ≡ length ks
length-erase pid [] there = cc
length-erase pid (k ∷ ks) there = ground (arith, length-erase pid ks)

rounds_small : (n : ℕ) → n ≤ 64 → rounds n ≡ n
unfolding rounds
rounds_small n few = rw (lt→ltb n (2 ^ 31) (omega arith)) refl

update_child_process_array-Holds :
    (pid : ℕ) (jobs : Jobs) (ks : List ℕ)
    → Holds jobs ks
    → has pid ks ≡ true
    → Holds (update_child_process_array pid jobs) (erase pid ks)
unfolding update_child_process_array
update_child_process_array-Holds pid jobs ks h there =
    let (z, is) = remove_loop-append pid ks [] h.unused there in
    let fewer = length-erase pid ks there in
    record {
      counted = omega (arith, h.counted, h.few, fewer);
      few = omega (arith, h.few);
      unused = z ∷ h.unused;
      room = omega (arith, h.room, fewer);
      stand = rw (h.counted, h.stand, rounds_small (length ks) h.few) is;
    }

-- Every child that has ended is a job, the later ones among what the earlier ones leave.
abbrev pub AreJobs : List ℕ → List ℕ → Type 0
AreJobs [] ks = Unit {0}
AreJobs (pid ∷ pids) ks = (has pid ks ≡ true) × AreJobs pids (erase pid ks)

abbrev pub erase_all : List ℕ → List ℕ → List ℕ
erase_all [] ks = ks
erase_all (pid ∷ pids) ks = erase_all pids (erase pid ks)

-- When the entries of child_process up to its index are the jobs ks, 64 at most, and each child
-- that waitpid gives is a job that is left, the entries up to the index are afterwards ks without
-- those children, in order.
pub reap-Holds :
    (pids : List ℕ) (jobs : Jobs) (ks : List ℕ)
    → Holds jobs ks
    → AreJobs pids ks
    → Holds (reap pids jobs) (erase_all pids ks)
unfolding reap
reap-Holds [] jobs ks h are = h
reap-Holds (pid ∷ pids) jobs ks h (there, are) =
    reap-Holds pids (update_child_process_array pid jobs) (erase pid ks)
      (update_child_process_array-Holds pid jobs ks h there) are
