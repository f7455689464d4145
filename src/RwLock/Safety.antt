-- ===== src/RwLock/Safety.antt =====
-- The states that threads can reach with lab_nw/kv-server-pool-rwlock/rwlock.c.
use cs.Base.{ℕ, ◌+◌, ◌<◌, ◌≡◌, ◌⊎◌, inl, inr, Bool, true, false, ◌||◌, arith, ltb, Bool-cases}
use cs.Base.Family.{count, count-pos, count-two, count-some}
use cs.RwLock.{
  reader_unlock, Pc, asleep_read, reading, asleep_write, writing, is_reading, is_writing,
  is_asleep_read, is_asleep_write, is_at_write, System, Reach,
}
use cs.RwLock.Invariant.{Inv, Reach-Inv}

-- Whether a thread has the lock.
abbrev pub inside : Pc → Bool
inside reading = true
inside writing = true
inside _ = false

inside_cases : (p : Pc) → inside p ≡ true → (is_reading p ≡ true) ⊎ (is_writing p ≡ true)
inside_cases p h = ground arith

-- In a state that n threads reach by the steps of the lock, if thread i writes and thread j reads
-- or writes, both below n, then i and j are the same.
pub writing_alone :
    {n : ℕ} {s : System} (i j : ℕ)
    → Reach n s
    → i < n
    → j < n
    → s.pc i ≡ writing
    → inside (s.pc j) ≡ true
    → i ≡ j
writing_alone {n} {s} i j r hi hj wi inj = elim (inside_cases (s.pc j) inj) [
  | inl reads ↦ absurd (
      ground (
        arith,
        v.apart,
        v.readers,
        v.writers,
        count-pos is_reading n s.pc j hj reads,
        count-pos is_writing n s.pc i hi (ground arith),
      ))
  | inr writes ↦
      ground (arith, v.writers, count-two is_writing n s.pc i j, count-two is_writing n s.pc j i)
]
  where
    v : Inv n s.lock s.pc
    v = Reach-Inv r

-- In a state that n threads reach by the steps of the lock in which a thread below n reads,
-- reader_count is the number of threads that read, and ReaderUnlock makes it one less.
reader_unlock-exact :
    {n : ℕ} {s : System} (i : ℕ)
    → Reach n s
    → i < n
    → s.pc i ≡ reading
    → (s.lock.reader_count ≡ count is_reading n s.pc)
      × ((reader_unlock s.lock).0.reader_count + 1 ≡ s.lock.reader_count)
unfolding reader_unlock
reader_unlock-exact {n} {s} i r h e =
    ground (arith, (Reach-Inv r).readers, count-pos is_reading n s.pc i h)

-- A thread that has the lock or stands at the test of WriterLock, if the counts see one.
pub someone_awake :
    (n : ℕ) (pc : ℕ → Pc)
    → 0 < count is_reading n pc + count is_writing n pc + count is_at_write n pc
    → (j : ℕ) × (j < n) × ((inside (pc j) || is_at_write (pc j)) ≡ true)
someone_awake n pc h = elim (Bool-cases (ltb 0 (count is_at_write n pc))) [
  | inl woken ↦ let (j, lt, e) = count-some is_at_write n pc (ground arith) in (j, lt, ground arith)
  | inr not ↦ elim (Bool-cases (ltb 0 (count is_writing n pc))) [
    | inl w ↦ let (j, lt, e) = count-some is_writing n pc (ground arith) in (j, lt, ground arith)
    | inr free ↦ let (j, lt, e) = count-some is_reading n pc (ground arith) in (j, lt, ground arith)
  ]
]

-- In a state that n threads reach by the steps of the lock, if a thread below n sleeps in
-- ReaderLock or WriterLock, some thread below n has the lock or stands at the test of WriterLock.
pub no_lost_wakeup :
    {n : ℕ} {s : System} (i : ℕ)
    → Reach n s
    → i < n
    → (s.pc i ≡ asleep_read) ⊎ (s.pc i ≡ asleep_write)
    → (j : ℕ) × (j < n) × ((inside (s.pc j) || is_at_write (s.pc j)) ≡ true)
no_lost_wakeup {n} {s} i r h (inl asleep) =
    let v = Reach-Inv r in
    someone_awake n s.pc
      (ground (arith, v.waiting_readers, v.writers, count-pos is_asleep_read n s.pc i h))
no_lost_wakeup {n} {s} i r h (inr asleep) =
    let v = Reach-Inv r in
    someone_awake n s.pc (
      ground (arith, v.waiting_writers, v.readers, v.writers, count-pos is_asleep_write n s.pc i h))
