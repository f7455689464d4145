-- ===== src/WriterPref/Safety.antt =====
-- The states that threads can reach with rwlock-writer-pref.cpp.
use cs.Base.{
  ℕ, ◌+◌, ◌<◌, ◌≤◌, ◌≡◌, ◌⊎◌, inl, inr, Bool, true, false, ◌||◌, ◌&&◌, Option, none, some, arith,
  ◌==◌, ltb,
}
use cs.Base.Family.{count, count-pos}
use cs.RwLock.{
  Lock, asleep_read, asleep_write, is_reading, is_writing, is_asleep_read, is_asleep_write,
  is_at_write, System,
}
use cs.RwLock.Safety.{inside, someone_awake}
use cs.WriterPref.{reader_lock, writer_lock, Reach}
use cs.WriterPref.Invariant.{writers_of, Reach-Inv}

-- Whether a test lets the thread in.
abbrev pub admits : Option Lock → Bool
admits none = false
admits (some l) = true

-- In a state that n threads reach by the steps of the lock, at most one of them writes, and none reads
-- while one writes; ReaderLock lets a thread in exactly when none of them writes or is in
-- WriterLock, asleep or awake; and the test of WriterLock exactly when none of them reads or writes.
pub locks-admits :
    {n : ℕ} {s : System}
    → Reach n s
    → (count is_writing n s.pc ≤ 1)
      × ((ltb 0 (count is_writing n s.pc) && ltb 0 (count is_reading n s.pc)) ≡ false)
      × (admits (reader_lock s.lock) ≡ (writers_of n s.pc == 0))
      × (admits (writer_lock s.lock) ≡ (count is_reading n s.pc + count is_writing n s.pc == 0))
unfolding reader_lock writer_lock
locks-admits {n} {s} r =
    let v = Reach-Inv r in ground (arith, v.readers, v.writers, v.apart, v.called)

-- In a state that n threads reach by the steps of the lock, if a thread below n sleeps in
-- ReaderLock or WriterLock, some thread below n has the lock or stands at the test of WriterLock.
asleep-someone_awake :
    {n : ℕ} {s : System} (i : ℕ)
    → Reach n s
    → i < n
    → (s.pc i ≡ asleep_read) ⊎ (s.pc i ≡ asleep_write)
    → (j : ℕ) × (j < n) × ((inside (s.pc j) || is_at_write (s.pc j)) ≡ true)
asleep-someone_awake {n} {s} i r h (inl asleep) =
    let v = Reach-Inv r in
    someone_awake n s.pc (
      ground (
        arith,
        v.waiting_readers,
        v.waiting_writers,
        v.readers,
        v.writers,
        v.called,
        count-pos is_asleep_read n s.pc i h,
      ))
asleep-someone_awake {n} {s} i r h (inr asleep) =
    let v = Reach-Inv r in
    someone_awake n s.pc (
      ground (arith, v.waiting_writers, v.readers, v.writers, count-pos is_asleep_write n s.pc i h))
