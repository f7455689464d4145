-- ===== src/RwLock.antt =====
-- The readers-writer lock of lab_nw/kv-server-pool-rwlock/rwlock.c, and `n` threads that use it. A
-- thread holds the mutex from its test to its wait or return, so that a section is one step.
pub mod Invariant
pub mod Safety
mod Tests
use cs.Base.{
  ℕ, ◌+◌, ◌-◌, ◌<◌, ◌≡◌, Bool, true, false, ◌||◌, Option, none, some, ◌==◌, ltb, if◌then◌else◌,
}
use cs.Base.Family.{update, count}

-- `struct read_write_lock` less its mutex and conditions.
pub record Lock : Type 0 where
  pub reader_count : ℕ
  pub writer_count : ℕ
  pub writer_writing : Bool

unfoldable pub initialize : Lock
initialize = record { reader_count = 0; writer_count = 0; writer_writing = false }

-- One test of the loop in `ReaderLock`: `none` waits on `can_read`.
unfoldable pub reader_lock : Lock → Option Lock
reader_lock l =
    if l.writer_writing then none else some (record l { reader_count = l.reader_count + 1 })

-- One test of the loop in `WriterLock`: `none` waits on `can_write`.
unfoldable pub writer_lock : Lock → Option Lock
writer_lock l =
    if ltb 0 l.reader_count || l.writer_writing
    then none
    else some (record l { writer_writing = true })

-- What an unlock signals: all that wait on `can_read`, and one that waits on `can_write`.
pub record Wake : Type 0 where
  pub all_readers : Bool
  pub one_writer : Bool

-- `reader_count--`: that it is positive here is part of the invariant.
unfoldable pub reader_unlock : Lock → Lock × Wake
reader_unlock l =
    let left = l.reader_count - 1 in
    (record l { reader_count = left }, record { all_readers = false; one_writer = left == 0 })

unfoldable pub writer_unlock : Lock → Lock × Wake
writer_unlock l = (
  record l { writer_writing = false },
  record { all_readers = true; one_writer = l.reader_count == 0 },
)

-- Where a thread stands: between calls, at the test of a loop, asleep in a wait, or with the lock.
pub data Pc : Type 0 where
  idle : Pc
  at_read : Pc
  asleep_read : Pc
  reading : Pc
  at_write : Pc
  asleep_write : Pc
  writing : Pc

abbrev pub is_reading : Pc → Bool
is_reading reading = true
is_reading _ = false

abbrev pub is_writing : Pc → Bool
is_writing writing = true
is_writing _ = false

abbrev pub is_asleep_read : Pc → Bool
is_asleep_read asleep_read = true
is_asleep_read _ = false

abbrev pub is_asleep_write : Pc → Bool
is_asleep_write asleep_write = true
is_asleep_write _ = false

abbrev pub is_at_write : Pc → Bool
is_at_write at_write = true
is_at_write _ = false

pub record System : Type 0 where
  pub lock : Lock
  pub pc : ℕ → Pc

-- `pthread_cond_broadcast(&can_read)`
abbrev pub rouse : Bool → Pc → Pc
rouse true asleep_read = at_read
rouse _ p = p

abbrev pub roused : Wake → (ℕ → Pc) → ℕ → Pc
roused w pc k = rouse w.all_readers (pc k)

-- The signal on `can_write` wakes one of the writers that wait, if there is one.
pub data Signalled (n : ℕ) (w : Wake) (pc : ℕ → Pc) : (ℕ → Pc) → Type 0 where
  unheard : (w.one_writer ≡ true → count is_asleep_write n pc ≡ 0) → Signalled n w pc (roused w pc)
  heard :
      (j : ℕ)
      → w.one_writer ≡ true
      → j < n
      → pc j ≡ asleep_write
      → Signalled n w pc (update (roused w pc) j at_write)

pub data Step (n : ℕ) (s : System) : System → Type 0 where
  ask_read : (i : ℕ) → i < n → s.pc i ≡ idle → Step n s (record s { pc = update s.pc i at_read })
  ask_write : (i : ℕ) → i < n → s.pc i ≡ idle → Step n s (record s { pc = update s.pc i at_write })
  read_enters :
      (i : ℕ) {l : Lock}
      → i < n
      → s.pc i ≡ at_read
      → reader_lock s.lock ≡ some l
      → Step n s (record { lock = l; pc = update s.pc i reading })
  read_waits :
      (i : ℕ)
      → i < n
      → s.pc i ≡ at_read
      → reader_lock s.lock ≡ none
      → Step n s (record s { pc = update s.pc i asleep_read })
  write_enters :
      (i : ℕ) {l : Lock}
      → i < n
      → s.pc i ≡ at_write
      → writer_lock s.lock ≡ some l
      → Step n s (record { lock = l; pc = update s.pc i writing })
  write_waits :
      (i : ℕ)
      → i < n
      → s.pc i ≡ at_write
      → writer_lock s.lock ≡ none
      → Step n s (record s { pc = update s.pc i asleep_write })
  read_leaves :
      (i : ℕ) {q : ℕ → Pc}
      → i < n
      → s.pc i ≡ reading
      → Signalled n (reader_unlock s.lock).1 (update s.pc i idle) q
      → Step n s (record { lock = (reader_unlock s.lock).0; pc = q })
  write_leaves :
      (i : ℕ) {q : ℕ → Pc}
      → i < n
      → s.pc i ≡ writing
      → Signalled n (writer_unlock s.lock).1 (update s.pc i idle) q
      → Step n s (record { lock = (writer_unlock s.lock).0; pc = q })
  -- a wait may also end with no signal
  spurious_read :
      (i : ℕ) → i < n → s.pc i ≡ asleep_read → Step n s (record s { pc = update s.pc i at_read })
  spurious_write :
      (i : ℕ) → i < n → s.pc i ≡ asleep_write → Step n s (record s { pc = update s.pc i at_write })

abbrev pub init : System
init = record { lock = initialize; pc = λ _. idle }

pub data Reach (n : ℕ) : System → Type 0 where
  start : Reach n init
  later : {s t : System} → Reach n s → Step n s t → Reach n t
