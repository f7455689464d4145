-- ===== src/Philosophers/Tests.antt =====
-- Runs of the philosophers, and the witness.
use cs.Base.{◌≡◌, refl, true, false, not, ◌&&◌, ◌||◌, arith}
use cs.Philosophers.{
  left, right, thinking, asleep, is_eating, is_asleep, System, take_forks, put_forks, init, Reach,
  start, later, takes,
}
use cs.Philosophers.Safety.{right-apart}

-- Philosopher 0 eats, and 1 waits for it.
abbrev one_waits : System
unfolding init take_forks
one_waits = take_forks (take_forks init 0) 1

one_waits-Reach : Reach one_waits
unfolding init take_forks left right
one_waits-Reach = later (later start (takes 0 (omega arith) refl)) (takes 1 (omega arith) refl)

-- When philosopher 0 puts its forks down, 4, who thinks, is marked EATING, so that 3 has to wait though
-- nobody eats.
abbrev thinker_marked : System
unfolding init take_forks put_forks
thinker_marked = take_forks (put_forks (take_forks init 0) 0) 3

thinker_marked-waits :
    (thinker_marked.pc 4 ≡ thinking)
    × ((thinker_marked.state 4 ≡ true) × (thinker_marked.pc 3 ≡ asleep))
unfolding init take_forks put_forks left right
thinker_marked-waits = (refl, (refl, refl))

right-apart_example :
    ((is_eating (one_waits.pc 1) && is_eating (one_waits.pc (right 1))) ≡ false)
    × ((is_asleep (one_waits.pc 1) && not (one_waits.state (left 1) || one_waits.state (right 1)))
        ≡ false)
right-apart_example = right-apart 1 one_waits-Reach (omega arith)
