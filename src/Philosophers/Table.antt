-- ===== src/Philosophers/Table.antt =====
-- What one call of can_take_forks does to the invariant of the table.
use cs.Base.{ℕ, ◌<◌, ◌≡◌, ◌≢◌, Bool, true, not, ◌&&◌, ◌||◌, arith}
use cs.Philosophers.{left, right, is_eating, is_asleep, System, can_take_forks}

pub left-right : (i : ℕ) → i < 5 → left (right i) ≡ i
unfolding left right
left-right i h = omega arith

pub right-left : (i : ℕ) → i < 5 → right (left i) ≡ i
unfolding left right
right-left i h = omega arith

pub left-below : (i : ℕ) → left i < 5
unfolding left
left-below i = omega arith

pub right-below : (i : ℕ) → right i < 5
unfolding right
right-below i = omega arith

pub left-ne : (i : ℕ) → i < 5 → left i ≢ i
unfolding left
left-ne i h = omega arith

pub right-ne : (i : ℕ) → i < 5 → right i ≢ i
unfolding right
right-ne i h = omega arith

-- No neighbour of one that eats is marked as eating.
abbrev pub apart : System → ℕ → Bool
apart s k = not (s.state k && s.state (right k))

-- A philosopher is marked, or a neighbour of it.
abbrev pub fed : System → ℕ → Bool
fed s k = s.state k || (s.state (left k) || s.state (right k))

-- Who eats is marked, and who sleeps is not.
abbrev pub agrees : System → ℕ → Bool
agrees s k =
    (s.state k || not (is_eating (s.pc k))) && (not (s.state k) || not (is_asleep (s.pc k)))

pub can_take_forks-apart :
    (s : System) (p : ℕ)
    → p < 5
    → (k : ℕ) → k < 5
    → apart s k ≡ true
    → apart (can_take_forks s p) k ≡ true
unfolding can_take_forks
can_take_forks-apart s p hp k hk h =
    ground (arith, left-right k hk, right-left p hp, right-ne p hp, left-ne p hp)

pub can_take_forks-marks :
    (s : System) (p k : ℕ) → s.state k ≡ true → (can_take_forks s p).state k ≡ true
unfolding can_take_forks
can_take_forks-marks s p k h = ground arith

pub can_take_forks-fed : (s : System) (p : ℕ) → fed (can_take_forks s p) p ≡ true
unfolding can_take_forks
can_take_forks-fed s p = ground arith

pub can_take_forks-keeps :
    (s : System) (p k : ℕ) → fed s k ≡ true → fed (can_take_forks s p) k ≡ true
unfolding can_take_forks
can_take_forks-keeps s p k h = ground arith

pub can_take_forks-agrees :
    (s : System) (p k : ℕ) → agrees s k ≡ true → agrees (can_take_forks s p) k ≡ true
unfolding can_take_forks
can_take_forks-agrees s p k h = ground arith
