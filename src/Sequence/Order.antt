-- ===== src/Sequence/Order.antt =====
-- The order in which the threads of sequence.c and seq.c print.
use cs.Base.{
  ℕ, zero, suc, ◌+◌, ◌%◌, ◌≡◌, refl, sym, ◌∙◌, inl, inr, Bool, true, false, ◌||◌, ◌&&◌, Bool-cases,
  List, [], ◌∷◌, ◌++◌, ◌==◌, arith, ==→eq,
}
use cs.Sequence.{
  thread_count, Pc, ready, holds, asleep, is_awake, signalled, MainPc, signals, joins, Program,
  sequence, seq, System, wake, thread_round, Step, locks, goes_round, spurious, main_resets,
  main_signals, init, Reach, start, later,
}

-- The thread whose turn it is does not sleep, unless main is to wake it.
abbrev is_signals : MainPc → Bool
is_signals signals = true
is_signals _ = false

abbrev attended : System → Bool
attended s = is_awake (s.pc s.turn) || (is_signals s.main && (s.turn == 0))

signalled-awake : (p : Pc) → is_awake (signalled p) ≡ true
signalled-awake ready = refl
signalled-awake holds = refl
signalled-awake asleep = refl

wake-awake : (p : Program) (t : ℕ) (pc : ℕ → Pc) → is_awake (wake p t pc t) ≡ true
wake-awake sequence t pc = signalled-awake (pc t)
wake-awake seq t pc = ground (arith, signalled-awake (pc t))

Step-attended : {p : Program} {s t : System} → attended s ≡ true → Step p s t → attended t ≡ true
unfolding thread_round
Step-attended v (locks i below is free) = ground (arith, v)
Step-attended {p} {s} v (goes_round i below has) = elim (Bool-cases (s.turn == i)) [
  | inl mine ↦
      rw (thread_round, mine)
        (let awake = wake-awake p ((s.turn + 1) % thread_count) s.pc in ground (arith, awake))
  | inr other ↦ rw (thread_round, other) ground (arith, v, other)
]
Step-attended v (spurious i below is) = ground (arith, v)
Step-attended v (main_resets is) = ground arith
Step-attended {p} {s} v (main_signals is) =
    let before : is_awake (s.pc s.turn) || (s.turn == 0) ≡ true = ground (arith, v) in
    let zero_awake = signalled-awake (s.pc 0) in
    elim (Bool-cases (0 == s.turn)) [
      | inl same ↦ rw same (ground (arith, zero_awake))
      | inr other ↦ rw other (ground (arith, before, other))
    ]

Reach-attended : {p : Program} {s : System} → Reach p s → attended s ≡ true
unfolding init
Reach-attended start = refl
Reach-attended (later r step) = Step-attended (Reach-attended r) step

-- 0, 1, 2, 0, and so on, n numbers.
abbrev pub cycle : ℕ → List ℕ
cycle zero = []
cycle (suc n) = cycle n ++ (n % thread_count) ∷ []

record Ordered (s : System) : Type 0 where
  n : ℕ
  printed : s.printed ≡ cycle n
  turn : s.turn ≡ n % thread_count
  main : s.main ≡ joins

Step-Ordered : {s t : System} → Ordered s → Step sequence s t → Ordered t
unfolding thread_round
Step-Ordered v (locks i below is free) = record {
  n = v.n;
  printed = v.printed;
  turn = v.turn;
  main = v.main;
}
Step-Ordered {s} v (goes_round i below has) = elim (Bool-cases (s.turn == i)) [
  | inl mine ↦
      rw (thread_round, mine)
        (record {
          n = suc v.n;
          printed =
              (let e : i ≡ v.n % thread_count = sym (==→eq s.turn i mine) ∙ v.turn in
                rw (v.printed, e) refl);
          turn = omega (arith, v.turn);
          main = v.main;
        })
  | inr other ↦
      rw (thread_round, other)
        (record { n = v.n; printed = v.printed; turn = v.turn; main = v.main })
]
Step-Ordered v (spurious i below is) = record {
  n = v.n;
  printed = v.printed;
  turn = v.turn;
  main = v.main;
}
Step-Ordered v (main_resets is) = absurd (cc)
Step-Ordered v (main_signals is) = absurd (cc)

Reach-Ordered : {s : System} → Reach sequence s → Ordered s
unfolding init
Reach-Ordered start = record { n = 0; printed = refl; turn = refl; main = refl }
Reach-Ordered (later r step) = Step-Ordered (Reach-Ordered r) step

-- Whatever the order of the steps, the threads of sequence.c have printed the first n numbers of 0, 1, 2, 0,
-- and so on, for some n, it is the turn of the thread n modulo 3, and that thread does not wait.
pub printed-cycle :
    {s : System}
    → Reach sequence s
    → (n : ℕ) × (s.printed ≡ cycle n)
      × (s.turn ≡ n % thread_count)
      × (is_awake (s.pc s.turn) ≡ true)
printed-cycle {s} r =
    let v = Reach-Ordered r in
    let attends = Reach-attended r in
    let awake = rw v.main at attends in (v.n, v.printed, v.turn, ground (arith, awake))
