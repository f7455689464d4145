-- ===== src/WriterPref.antt =====
-- The lock of lab_threads/pthreads-sync-code/rwlock/rwlock-writer-pref.cpp, in which a writer that waits
-- keeps readers out, and `n` threads that use it. The state, the places of a thread and the signals
-- are those of RwLock; a section from taking the mutex to a wait or a return is one step.
pub mod Invariant
pub mod Safety
mod Tests
use cs.Base.{
  ℕ, ◌+◌, ◌-◌, ◌<◌, ◌≡◌, Bool, true, false, not, ◌||◌, Option, none, some, ◌==◌, ltb, if◌then◌else◌,
}
use cs.Base.Family.{update}
use cs.RwLock.{
  Lock, Wake, Pc, idle, at_read, asleep_read, reading, at_write, asleep_write, writing, System,
  Signalled,
}

unfoldable pub initialize : Lock
initialize = record { reader_count = 0; writer_count = 0; writer_writing = false }

-- One test of the loop in `ReaderLock`: `none` waits on `can_read`.
unfoldable pub reader_lock : Lock → Option Lock
reader_lock l =
    if ltb 0 l.writer_count || l.writer_writing
    then none
    else some (record l { reader_count = l.reader_count + 1 })

-- What `WriterLock` does before its loop.
unfoldable pub writer_arrives : Lock → Lock
writer_arrives l = record l { writer_count = l.writer_count + 1 }

-- One test of the loop in `WriterLock`: `none` waits on `can_write`.
unfoldable pub writer_lock : Lock → Option Lock
writer_lock l =
    if ltb 0 l.reader_count || l.writer_writing
    then none
    else some (record l { writer_writing = true })

-- `reader_count--`: that it is positive here is part of the invariant, as is `writer_count` below.
unfoldable pub reader_unlock : Lock → Lock × Wake
reader_unlock l =
    let left = l.reader_count - 1 in
    (record l { reader_count = left }, record { all_readers = false; one_writer = left == 0 })

unfoldable pub writer_unlock : Lock → Lock × Wake
writer_unlock l =
    let left = l.writer_count - 1 in
    (
      record l { writer_writing = false; writer_count = left },
      record { all_readers = left == 0; one_writer = not (left == 0) },
    )

-- A thread that calls `WriterLock` raises the count and makes its first test in one section.
pub data Step (n : ℕ) (s : System) : System → Type 0 where
  ask_read : (i : ℕ) → i < n → s.pc i ≡ idle → Step n s (record s { pc = update s.pc i at_read })
  read_enters :
      (i : ℕ) {l : Lock}
      → i < n
      → s.pc i ≡ at_read
      → reader_lock s.lock ≡ some l
      → Step n s (record { lock = l; pc = update s.pc i reading })
  read_waits :
      (i : ℕ)
      → i < n
      → s.pc i ≡ at_read
      → reader_lock s.lock ≡ none
      → Step n s (record s { pc = update s.pc i asleep_read })
  write_enters :
      (i : ℕ) {l : Lock}
      → i < n
      → s.pc i ≡ idle
      → writer_lock (writer_arrives s.lock) ≡ some l
      → Step n s (record { lock = l; pc = update s.pc i writing })
  write_waits :
      (i : ℕ)
      → i < n
      → s.pc i ≡ idle
      → writer_lock (writer_arrives s.lock) ≡ none
      → Step n s (record { lock = writer_arrives s.lock; pc = update s.pc i asleep_write })
  woken_enters :
      (i : ℕ) {l : Lock}
      → i < n
      → s.pc i ≡ at_write
      → writer_lock s.lock ≡ some l
      → Step n s (record { lock = l; pc = update s.pc i writing })
  woken_waits :
      (i : ℕ)
      → i < n
      → s.pc i ≡ at_write
      → writer_lock s.lock ≡ none
      → Step n s (record s { pc = update s.pc i asleep_write })
  read_leaves :
      (i : ℕ) {q : ℕ → Pc}
      → i < n
      → s.pc i ≡ reading
      → Signalled n (reader_unlock s.lock).1 (update s.pc i idle) q
      → Step n s (record { lock = (reader_unlock s.lock).0; pc = q })
  write_leaves :
      (i : ℕ) {q : ℕ → Pc}
      → i < n
      → s.pc i ≡ writing
      → Signalled n (writer_unlock s.lock).1 (update s.pc i idle) q
      → Step n s (record { lock = (writer_unlock s.lock).0; pc = q })
  -- a wait may also end with no signal
  spurious_read :
      (i : ℕ) → i < n → s.pc i ≡ asleep_read → Step n s (record s { pc = update s.pc i at_read })
  spurious_write :
      (i : ℕ) → i < n → s.pc i ≡ asleep_write → Step n s (record s { pc = update s.pc i at_write })

abbrev pub init : System
init = record { lock = initialize; pc = λ _. idle }

pub data Reach (n : ℕ) : System → Type 0 where
  start : Reach n init
  later : {s t : System} → Reach n s → Step n s t → Reach n t
