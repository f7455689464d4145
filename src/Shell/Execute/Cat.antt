-- ===== src/Shell/Execute/Cat.antt =====
-- The built-in cat of lab_shell/my_shell.c.
use cs.Base.{
  ℕ, zero, suc, ◌+◌, ◌<◌, ◌≡◌, refl, false, Option, none, some, List, [], ◌∷◌, ◌++◌, map, length,
  eq→==, arith, Bytes, codes,
}
use cs.Shell.Jobs.{Jobs}
use cs.Shell.Execute.{
  Read, got, ended, failed, Kernel, Effect, wrote, complained, copy_loop, cat_loop, done,
  execute_command,
}

-- The reads from the i-th on give the pieces, and then the end.
abbrev pub ReadsTo : (ℕ → Read) → ℕ → List Bytes → Type 0
ReadsTo reads i [] = reads i ≡ ended
ReadsTo reads i (p ∷ ps) = (reads i ≡ got p) × ReadsTo reads (i + 1) ps

copy_loop-all :
    (fuel : ℕ) (k : Kernel) (reads : ℕ → Read) (i : ℕ) (ps : List Bytes)
    → ((bs : Bytes) → k.write bs ≡ some (length bs))
    → ReadsTo reads i ps
    → length ps < fuel
    → copy_loop fuel k reads i ≡ some (record { is_short = false; effects = map wrote ps })
unfolding copy_loop
copy_loop-all zero k reads i ps whole to enough = elim enough [ ]
copy_loop-all (suc fuel) k reads i [] whole to enough = rw (copy_loop, to)
copy_loop-all (suc fuel) k reads i (p ∷ ps) whole to enough = rw (
  copy_loop,
  to.0,
  whole p,
  eq→== (length p) (length p) refl,
  copy_loop-all fuel k reads (i + 1) ps whole to.1 (omega arith),
)

-- A file by its name: what its reads give, or none if it cannot be opened.
abbrev pub IsFile : ℕ → Kernel → Bytes × Option (List Bytes) → Type 0
IsFile fuel k (name, none) = k.open_file name ≡ none
IsFile fuel k (name, some ps) =
    (reads : ℕ → Read) × (k.open_file name ≡ some reads) × ReadsTo reads 0 ps × (length ps < fuel)

abbrev pub AreFiles : ℕ → Kernel → List (Bytes × Option (List Bytes)) → Type 0
AreFiles fuel k [] = Unit
AreFiles fuel k (f ∷ fs) = IsFile fuel k f × AreFiles fuel k fs

-- What cat does for a file, and for files.
abbrev pub shown_one : Option (List Bytes) → List Effect
shown_one none = complained ∷ []
shown_one (some ps) = map wrote ps

abbrev pub shown : List (Bytes × Option (List Bytes)) → List Effect
shown [] = []
shown (f ∷ fs) = shown_one f.1 ++ shown fs

abbrev pub names : List (Bytes × Option (List Bytes)) → List Bytes
names = map (λ f. f.0)

cat_loop-shown :
    (fuel : ℕ) (k : Kernel) (fs : List (Bytes × Option (List Bytes)))
    → ((bs : Bytes) → k.write bs ≡ some (length bs))
    → AreFiles fuel k fs
    → cat_loop fuel k (names fs) ≡ some (shown fs)
unfolding cat_loop
cat_loop-shown fuel k [] whole are = refl
cat_loop-shown fuel k ((name, none) ∷ fs) whole are =
    rw (cat_loop, are.0, cat_loop-shown fuel k fs whole are.1)
cat_loop-shown fuel k ((name, some ps) ∷ fs) whole ((reads, e, to, enough), are) = rw (
  cat_loop,
  e,
  copy_loop-all fuel k reads 0 ps whole to enough,
  cat_loop-shown fuel k fs whole are,
)

-- When every write takes all its bytes, and the fuel exceeds the number of pieces that the reads of each
-- file give, cat of one file or more writes the pieces of each file that can be opened, file after
-- file, with a complaint in the place of each that cannot; the jobs stay.
pub execute_command-cat :
    (fuel : ℕ) (k : Kernel) (f : Bytes × Option (List Bytes))
    (fs : List (Bytes × Option (List Bytes))) (jobs : Jobs)
    → ((bs : Bytes) → k.write bs ≡ some (length bs))
    → AreFiles fuel k (f ∷ fs)
    → execute_command fuel k (codes "cat" ∷ names (f ∷ fs)) jobs ≡ some (done (shown (f ∷ fs)) jobs)
unfolding execute_command
execute_command-cat fuel k f fs jobs whole are = rw (cat_loop-shown fuel k (f ∷ fs) whole are)

copy_loop-failed :
    (fuel : ℕ) (k : Kernel) (reads : ℕ → Read) (i : ℕ)
    → ((j : ℕ) → reads j ≡ failed)
    → k.write_beyond ≡ none
    → copy_loop fuel k reads i ≡ none
unfolding copy_loop
copy_loop-failed zero k reads i fails beyond = refl
copy_loop-failed (suc fuel) k reads i fails beyond =
    rw (copy_loop, fails i, beyond, copy_loop-failed fuel k reads (i + 1) fails beyond)

cat_loop-failed :
    (fuel : ℕ) (k : Kernel) (name : Bytes) (more : List Bytes) (reads : ℕ → Read)
    → k.open_file name ≡ some reads
    → ((j : ℕ) → reads j ≡ failed)
    → k.write_beyond ≡ none
    → cat_loop fuel k (name ∷ more) ≡ none
unfolding cat_loop
cat_loop-failed fuel k name more reads e fails beyond =
    rw (cat_loop, e, copy_loop-failed fuel k reads 0 fails beyond)

-- cat of a file whose reads fail, such as a directory, never ends, whatever the fuel: the -1 that read
-- returns is a number of bytes without a sign, and the write of as many bytes fails with the same number.
execute_command-cat_failed :
    (fuel : ℕ) (k : Kernel) (name : Bytes) (more : List Bytes) (reads : ℕ → Read) (jobs : Jobs)
    → k.open_file name ≡ some reads
    → ((j : ℕ) → reads j ≡ failed)
    → k.write_beyond ≡ none
    → execute_command fuel k (codes "cat" ∷ name ∷ more) jobs ≡ none
unfolding execute_command
execute_command-cat_failed fuel k name more reads jobs e fails beyond =
    rw (cat_loop-failed fuel k name more reads e fails beyond)
