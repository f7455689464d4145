-- ===== src/Sequence/Tests.antt =====
-- Runs of sequence.c and seq.c.
use cs.Base.{ℕ, ◌%◌, ◌≡◌, refl, true, [], ◌∷◌, arith}
use cs.Base.Family.{update}
use cs.Sequence.{
  thread_count, holds, is_awake, signalled, Program, sequence, seq, joins, System, thread_round,
  locks, goes_round, main_resets, main_signals, init, Reach, start, later,
}
use cs.Sequence.Order.{cycle, printed-cycle}

abbrev locked : ℕ → System → System
locked i s = record s { pc = update s.pc i holds; is_held = true }

-- The first thread has printed, and waits.
abbrev one_printed : Program → System
one_printed p = thread_round p 0 (thread_round p 0 (locked 0 (init p)))

one_printed_Reach : (p : Program) → Reach p (one_printed p)
unfolding init thread_round
one_printed_Reach sequence =
    later (later (later start (locks 0 (omega arith) refl refl)) (goes_round 0 (omega arith) refl))
      (goes_round 0 (omega arith) refl)
one_printed_Reach seq =
    later (later (later start (locks 0 (omega arith) refl refl)) (goes_round 0 (omega arith) refl))
      (goes_round 0 (omega arith) refl)

printed-cycle_example :
    (n : ℕ) × ((one_printed sequence).printed ≡ cycle n)
    × ((one_printed sequence).turn ≡ n % thread_count)
    × (is_awake ((one_printed sequence).pc (one_printed sequence).turn) ≡ true)
printed-cycle_example = printed-cycle (one_printed_Reach sequence)

-- main of seq.c sets the turn back, and the first thread prints again.
abbrev set_back : System → System
set_back s = record s { turn = 0; pc = update s.pc 0 (signalled (s.pc 0)); main = joins }

abbrev printed_again : System
printed_again = thread_round seq 0 (locked 0 (set_back (one_printed seq)))

printed_again_Reach : Reach seq printed_again
unfolding init thread_round
printed_again_Reach =
    later
      (later (later (later (one_printed_Reach seq) (main_resets refl)) (main_signals refl))
        (locks 0 (omega arith) refl refl))
      (goes_round 0 (omega arith) refl)

same_printed_twice : printed_again.printed ≡ 0 ∷ 0 ∷ []
unfolding init thread_round
same_printed_twice = refl
