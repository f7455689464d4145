-- ===== src/Philosophers/Safety.antt =====
-- The states that the philosophers can reach.
use cs.Base.{
  ℕ, ◌<◌, ◌≡◌, refl, subst, Bool, true, false, not, ◌&&◌, ◌||◌, inl, inr, arith, ◌==◌, Bool-cases,
  ==→eq,
}
use cs.Base.Family.{update}
use cs.Philosophers.{
  left, right, Pc, thinking, asleep, woken, is_eating, is_asleep, System, can_take_forks,
  make_hungry, test_forks, take_forks, put_forks, Step, takes, tests, puts, spurious, init, Reach,
  start, later,
}
use cs.Philosophers.Table.{
  left-right, right-left, left-below, right-below, left-ne, right-ne, apart, fed, agrees,
  can_take_forks-apart, can_take_forks-fed, can_take_forks-agrees,
}

-- In the loop of take_forks.
abbrev waits : Pc → Bool
waits asleep = true
waits woken = true
waits _ = false

abbrev served : System → ℕ → Bool
served s k = not (waits (s.pc k)) || fed s k

record Inv (s : System) (k : ℕ) : Type 0 where
  a : apart s k ≡ true
  g : agrees s k ≡ true
  f : served s k ≡ true

can_take_forks-served :
    (s : System) (p k : ℕ) → served s k ≡ true → served (can_take_forks s p) k ≡ true
unfolding can_take_forks
can_take_forks-served s p k h = ground arith

can_take_forks-Inv :
    (s : System) (p : ℕ) → p < 5 → (k : ℕ) → k < 5 → Inv s k → Inv (can_take_forks s p) k
can_take_forks-Inv s p hp k hk v = record {
  a = can_take_forks-apart s p hp k hk v.a;
  g = can_take_forks-agrees s p k v.g;
  f = can_take_forks-served s p k v.f;
}

test_forks-Inv : (s : System) (i : ℕ) → fed s i ≡ true → (k : ℕ) → Inv s k → Inv (test_forks s i) k
unfolding test_forks
test_forks-Inv s i h k v = elim (Bool-cases (i == k)) [
  | inl same ↦ let e = ==→eq i k same in ground (arith, e)
  | inr other ↦ ground arith
]

-- A thinker that was marked is marked again.
taken-marks :
    (s : System) (i k : ℕ)
    → i < 5
    → apart s i ≡ true
    → apart s (left i) ≡ true
    → s.state k ≡ true
    → (can_take_forks (make_hungry s i) i).state k ≡ true
unfolding can_take_forks
taken-marks s i k hi own before h = ground (arith, right-left i hi, left-ne i hi, right-ne i hi)

fed-marks :
    (s t : System) (k : ℕ)
    → ((j : ℕ) → s.state j ≡ true → t.state j ≡ true)
    → fed s k ≡ true
    → fed t k ≡ true
fed-marks s t k more h = ground (arith, more k, more (left k), more (right k))

make_hungry-apart : (s : System) (i k : ℕ) → apart s k ≡ true → apart (make_hungry s i) k ≡ true
make_hungry-apart s i k h = ground arith

make_hungry-agrees :
    (s : System) (i k : ℕ)
    → s.pc i ≡ thinking
    → agrees s k ≡ true
    → agrees (make_hungry s i) k ≡ true
make_hungry-agrees s i k e h = elim (Bool-cases (i == k)) [
  | inl same ↦ let at = ==→eq i k same in ground (arith, at, e)
  | inr other ↦ ground arith
]

-- The places in the loop are the same behind the test.
can_take_forks-waits : (s : System) (p k : ℕ) → waits ((can_take_forks s p).pc k) ≡ waits (s.pc k)
unfolding can_take_forks
can_take_forks-waits s p k = elim (Bool-cases (p == k)) [
  | inl same ↦ let at = ==→eq p k same in ground (arith, at)
  | inr other ↦ ground arith
]

take_forks-Inv :
    (s : System) (i : ℕ)
    → i < 5
    → s.pc i ≡ thinking
    → ((k : ℕ) → k < 5 → Inv s k)
    → (k : ℕ) → k < 5
    → Inv (take_forks s i) k
unfolding take_forks
take_forks-Inv s i hi e v k hk =
    let h = make_hungry s i in
    let t = can_take_forks h i in
    test_forks-Inv t i (can_take_forks-fed h i) k (record {
      a = can_take_forks-apart h i hi k hk (make_hungry-apart s i k (v k hk).a);
      g = can_take_forks-agrees h i k (make_hungry-agrees s i k e (v k hk).g);
      f = ground (
        arith,
        (v k hk).f,
        can_take_forks-waits h i k,
        fed-marks s t k (λ j m. taken-marks s i j hi (v i hi).a (v (left i) (left-below i)).a m),
      );
    })

-- The table when philosopher i has put its forks down, before its neighbours are looked at.
abbrev put_down : System → ℕ → System
put_down s i = record { state = update s.state i false; pc = update s.pc i thinking }

put_down-fed :
    (s : System) (i k : ℕ)
    → i < 5
    → k < 5
    → served s k ≡ true
    → (left i == k) ≡ false
    → (right i == k) ≡ false
    → served (put_down s i) k ≡ true
put_down-fed s i k hi hk h l r = ground (arith, left-right k hk, right-left k hk)

fed-served : (s : System) (k : ℕ) → fed s k ≡ true → served s k ≡ true
fed-served s k h = ground arith

looked_at : (s : System) (p k : ℕ) → (p == k) ≡ true → fed (can_take_forks s p) k ≡ true
looked_at s p k same =
    subst (λ j. fed (can_take_forks s p) j ≡ true) (==→eq p k same) (can_take_forks-fed s p)

put_forks-Inv :
    (s : System) (i : ℕ)
    → i < 5
    → ((k : ℕ) → k < 5 → Inv s k)
    → (k : ℕ) → k < 5
    → Inv (put_forks s i) k
unfolding put_forks
put_forks-Inv s i hi v k hk =
    let d = put_down s i in
    let t = can_take_forks d (left i) in
    record {
      a =
          can_take_forks-apart t (right i) (right-below i) k hk
            (can_take_forks-apart d (left i) (left-below i) k hk (ground (arith, (v k hk).a)));
      g =
          can_take_forks-agrees t (right i) k
            (can_take_forks-agrees d (left i) k (ground (arith, (v k hk).g)));
      f = elim (Bool-cases (right i == k)) [
        | inl at_right ↦
            fed-served (can_take_forks t (right i)) k (looked_at t (right i) k at_right)
        | inr r ↦ can_take_forks-served t (right i) k (elim (Bool-cases (left i == k)) [
          | inl at_left ↦ fed-served t k (looked_at d (left i) k at_left)
          | inr l ↦ can_take_forks-served d (left i) k (put_down-fed s i k hi hk (v k hk).f l r)
        ])
      ];
    }

Step-Inv : {s t : System} → Step s t → ((k : ℕ) → k < 5 → Inv s k) → (k : ℕ) → k < 5 → Inv t k
Step-Inv {s} (takes i h e) v k hk = take_forks-Inv s i h e v k hk
Step-Inv {s} (tests i h e) v k hk = test_forks-Inv s i (ground (arith, (v i h).f, e)) k (v k hk)
Step-Inv {s} (puts i h e) v k hk = put_forks-Inv s i h v k hk
Step-Inv {s} (spurious i h e) v k hk = elim (Bool-cases (i == k)) [
  | inl same ↦ let at = ==→eq i k same in ground (arith, (v k hk).a, (v k hk).g, (v k hk).f, at, e)
  | inr other ↦ ground (arith, (v k hk).a, (v k hk).g, (v k hk).f)
]

Reach-Inv : {s : System} → Reach s → (k : ℕ) → k < 5 → Inv s k
unfolding init
Reach-Inv start k h = record { a = refl; g = refl; f = refl }
Reach-Inv (later r st) k h = Step-Inv st (Reach-Inv r) k h

-- In a state that the philosophers reach, no philosopher eats together with the one on its right, and if
-- one sleeps in take_forks, a philosopher beside it is marked EATING.
pub right-apart :
    {s : System} (i : ℕ)
    → Reach s
    → i < 5
    → ((is_eating (s.pc i) && is_eating (s.pc (right i))) ≡ false)
      × ((is_asleep (s.pc i) && not (s.state (left i) || s.state (right i))) ≡ false)
right-apart {s} i r h =
    let v = Reach-Inv r i h in
    let w = Reach-Inv r (right i) (right-below i) in ground (arith, v.a, v.g, v.f, w.g)
