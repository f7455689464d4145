-- ===== src/Shell/Execute/Table.antt =====
-- The jobs of lab_shell/my_shell.c over a round of the loop of main.
use mathlib.Core.Option
use mathlib.Core.List.{append_assoc, append-nil}
use cs.Base.{
  ℕ, zero, suc, ◌+◌, ◌^◌, ◌<◌, ◌≡◌, refl, ap, ◌⊎◌, inl, inr, Bool, true, false, not, Option, none,
  some, List, [], ◌∷◌, ◌++◌, leb, length, length-append, set, Bool-cases, Option-cases, lt→ltb,
  arith, Bytes, codes, eq_bytes,
}
use cs.Shell.Jobs.{Jobs}
use cs.Shell.Jobs.Removal.{Holds}
use cs.Shell.Line.{Action, run, pipeline, overrun}
use cs.Shell.Execute.{
  Read, got, ended, failed, Kernel, Effect, wrote, complained, moved, killed, started, waited,
  piped, Copied, is_all, and_then, copy_loop, cat_loop, cat, complain_if, kept, is_none, put_child,
  Outcome, done, run_background, run_pipe, fork_loop, background, change_dir, run_program,
  execute_command, run_action, after, run_actions,
}

-- The children that were started in the background.
abbrev pub starts : List Effect → List ℕ
starts [] = []
starts (started command f ∷ es) = kept f ∷ starts es
starts (_ ∷ es) = starts es

starts-append : (es fs : List Effect) → starts (es ++ fs) ≡ starts es ++ starts fs
starts-append [] fs = refl
starts-append (started command f ∷ es) fs = ap (λ ks. kept f ∷ ks) (starts-append es fs)
starts-append (wrote bs ∷ es) fs = starts-append es fs
starts-append (complained ∷ es) fs = starts-append es fs
starts-append (moved d ∷ es) fs = starts-append es fs
starts-append (killed ∷ es) fs = starts-append es fs
starts-append (waited command f ∷ es) fs = starts-append es fs
starts-append (piped commands ∷ es) fs = starts-append es fs

starts-complain_if : (b : Bool) → starts (complain_if b) ≡ []
starts-complain_if true = refl
starts-complain_if false = refl

-- An execution that starts no child.
abbrev IsQuiet : Option (List Effect) → Type 0
IsQuiet none = Unit
IsQuiet (some es) = starts es ≡ []

abbrev effects_of : Option Copied → Option (List Effect)
effects_of = Option.map (λ (c : Copied). c.effects)

Read-cases : (r : Read) → (r ≡ ended) ⊎ ((r ≡ failed) ⊎ ((bs : Bytes) × (r ≡ got bs)))
Read-cases (got bs) = inr (inr (bs, refl))
Read-cases ended = inl refl
Read-cases failed = inr (inl refl)

and_then-IsQuiet :
    (bs : Bytes) (o : Option Copied)
    → IsQuiet (effects_of o)
    → IsQuiet (effects_of (and_then (wrote bs ∷ []) o))
and_then-IsQuiet bs none q = tt
and_then-IsQuiet bs (some c) q = q

append-IsQuiet :
    (es : List Effect) (o : Option (List Effect))
    → starts es ≡ []
    → IsQuiet o
    → IsQuiet (Option.map (λ fs. es ++ fs) o)
append-IsQuiet es none q p = tt
append-IsQuiet es (some fs) q p = rw (starts-append es fs, q, p)

copy_loop-IsQuiet :
    (fuel : ℕ) (k : Kernel) (reads : ℕ → Read) (i : ℕ)
    → IsQuiet (effects_of (copy_loop fuel k reads i))
unfolding copy_loop
copy_loop-IsQuiet zero k reads i = tt
copy_loop-IsQuiet (suc fuel) k reads i = elim (Read-cases (reads i)) [
  | inl e ↦ rw (copy_loop, e) refl
  | inr (inl e) ↦ elim (Option-cases k.write_beyond) [
    | inl none_written ↦ rw (copy_loop, e, none_written) (copy_loop-IsQuiet fuel k reads (i + 1))
    | inr (n, some_written) ↦ rw (copy_loop, e, some_written) refl
  ]
  | inr (inr (bs, e)) ↦ elim (Bool-cases (is_all (k.write bs) bs)) [
    | inl whole ↦
        rw (copy_loop, e, whole)
          (and_then-IsQuiet bs (copy_loop fuel k reads (i + 1))
            (copy_loop-IsQuiet fuel k reads (i + 1)))
    | inr short ↦ rw (copy_loop, e, short) refl
  ]
]

cat_loop-IsQuiet : (fuel : ℕ) (k : Kernel) (names : List Bytes) → IsQuiet (cat_loop fuel k names)
unfolding cat_loop
cat_loop-IsQuiet fuel k [] = refl
cat_loop-IsQuiet fuel k (name ∷ names) = elim (Option-cases (k.open_file name)) [
  | inl e ↦
      rw (cat_loop, e)
        (append-IsQuiet (complained ∷ []) (cat_loop fuel k names) refl
          (cat_loop-IsQuiet fuel k names))
  | inr (reads, e) ↦ elim (Option-cases (copy_loop fuel k reads 0)) [
    | inl over ↦ rw (cat_loop, e, over) tt
    | inr (c, ends) ↦
        let quiet : starts c.effects ≡ [] = rw ends at (copy_loop-IsQuiet fuel k reads 0) in
        elim (Bool-cases c.is_short) [
          | inl short ↦ rw (cat_loop, e, ends, short) quiet
          | inr whole ↦
              rw (cat_loop, e, ends, whole)
                (append-IsQuiet c.effects (cat_loop fuel k names) quiet
                  (cat_loop-IsQuiet fuel k names))
        ]
  ]
]

cat-IsQuiet : (fuel : ℕ) (k : Kernel) (names : List Bytes) → IsQuiet (cat fuel k names)
unfolding cat
cat-IsQuiet fuel k [] = copy_loop-IsQuiet fuel k k.stdin 0
cat-IsQuiet fuel k (name ∷ names) = cat_loop-IsQuiet fuel k (name ∷ names)

-- The jobs of an outcome are those before it, and then the children that it started.
abbrev pub Grows : List ℕ → Option Outcome → Type 0
Grows ks none = Unit
Grows ks (some o) = Holds o.jobs (ks ++ starts o.effects)

quiet-Grows :
    (ks : List ℕ) (es : List Effect) (jobs : Jobs)
    → Holds jobs ks
    → starts es ≡ []
    → Grows ks (some (done es jobs))
quiet-Grows ks es jobs h q = rw (q, append-nil ks) h

set-append_end :
    (ks unused : List ℕ) (z v : ℕ) → set (ks ++ z ∷ unused) (length ks) v ≡ (ks ++ v ∷ []) ++ unused
set-append_end [] unused z v = refl
set-append_end (k ∷ ks) unused z v = ap (λ xs. k ∷ xs) (set-append_end ks unused z v)

some_room :
    (n : ℕ) (us : List ℕ) → n + length us ≡ 64 → n < 64 → (z : ℕ) × (zs : List ℕ) × (us ≡ z ∷ zs)
some_room n [] e lt = absurd (omega arith)
some_room n (z ∷ zs) e lt = (z, zs, refl)

-- A child more, where there is room.
pub put_child-Holds :
    (pid : ℕ) (jobs : Jobs) (ks : List ℕ)
    → Holds jobs ks
    → length ks < 64
    → (j : Jobs) × (put_child pid jobs ≡ some j) × Holds j (ks ++ pid ∷ [])
unfolding put_child
put_child-Holds pid jobs ks h room =
    let (z, zs, e) = some_room (length ks) h.unused h.room room in
    let table = set jobs.child_process jobs.child_process_idx pid in
    (
      record { child_process = table; child_process_idx = jobs.child_process_idx + 1 },
      rw (lt→ltb jobs.child_process_idx 64 (omega (arith, h.counted))),
      record {
        counted = omega (arith, h.counted, length-append ks (pid ∷ []));
        few = omega (arith, length-append ks (pid ∷ []));
        unused = zs;
        room = omega (arith, length-append ks (pid ∷ []), h.room, ap length e);
        stand = rw (h.counted, h.stand, e) (set-append_end ks zs z pid);
      },
    )

run_background-Grows :
    (k : Kernel) (command : List Bytes) (jobs : Jobs) (ks : List ℕ)
    → Holds jobs ks
    → Grows ks (run_background k command jobs)
unfolding run_background
run_background-Grows k command jobs ks h = elim (Bool-cases (leb 64 jobs.child_process_idx)) [
  | inl full ↦
      rw (full, lt→ltb jobs.child_process_idx (2 ^ 31) (omega (arith, h.counted, h.few)))
        (quiet-Grows ks (complained ∷ []) jobs h refl)
  | inr free ↦
      let (j, e, more) = put_child-Holds (kept k.fork) jobs ks h (ground (arith, h.counted)) in
      rw (free, e, starts-complain_if (is_none k.fork)) more
]

change_dir-starts : (k : Kernel) (args : List Bytes) → starts (change_dir k args) ≡ []
change_dir-starts k [] = starts-complain_if (not (k.chdir k.home))
change_dir-starts k (d ∷ ds) = starts-complain_if (not (k.chdir (some d)))

run_program-Grows :
    (k : Kernel) (tokens : List Bytes) (o : Option (List Bytes)) (jobs : Jobs) (ks : List ℕ)
    → Holds jobs ks
    → Grows ks (run_program k tokens o jobs)
run_program-Grows k tokens none jobs ks h =
    quiet-Grows ks (waited tokens k.fork ∷ complain_if (is_none k.fork)) jobs h
      (starts-complain_if (is_none k.fork))
run_program-Grows k tokens (some command) jobs ks h = run_background-Grows k command jobs ks h

quiet_option-Grows :
    (ks : List ℕ) (o : Option (List Effect)) (jobs : Jobs)
    → Holds jobs ks
    → IsQuiet o
    → Grows ks (Option.map (λ es. done es jobs) o)
quiet_option-Grows ks none jobs h q = tt
quiet_option-Grows ks (some es) jobs h q = quiet-Grows ks es jobs h q

execute_command-Grows :
    (fuel : ℕ) (k : Kernel) (tokens : List Bytes) (jobs : Jobs) (ks : List ℕ)
    → Holds jobs ks
    → Grows ks (execute_command fuel k tokens jobs)
unfolding execute_command
execute_command-Grows fuel k [] jobs ks h = quiet-Grows ks [] jobs h refl
execute_command-Grows fuel k (name ∷ args) jobs ks h =
    elim (Bool-cases (eq_bytes name (codes "cd"))) [
      | inl cd ↦ rw cd (quiet-Grows ks (change_dir k args) jobs h (change_dir-starts k args))
      | inr no_cd ↦ elim (Bool-cases (eq_bytes name (codes "exit"))) [
        | inl exit ↦ rw (no_cd, exit, append-nil ks) h
        | inr no_exit ↦ elim (Bool-cases (eq_bytes name (codes "cat"))) [
          | inl is_cat ↦
              rw (no_cd, no_exit, is_cat)
                (quiet_option-Grows ks (cat fuel k args) jobs h (cat-IsQuiet fuel k args))
          | inr no_cat ↦
              rw (no_cd, no_exit, no_cat)
                (run_program-Grows k (name ∷ args) (background (name ∷ args)) jobs ks h)
        ]
      ]
    ]

run_pipe-Grows :
    (k : Kernel) (commands : List (List Bytes)) (jobs : Jobs) (ks : List ℕ)
    → Holds jobs ks
    → Grows ks (some (run_pipe k commands jobs))
unfolding run_pipe
run_pipe-Grows k commands jobs ks h = elim (Bool-cases (fork_loop k 0 commands).is_whole) [
  | inl whole ↦ rw (whole, append-nil ks) h
  | inr broken ↦ rw (broken, append-nil ks) h
]

pub run_action-Grows :
    (fuel : ℕ) (k : Kernel) (a : Action) (jobs : Jobs) (ks : List ℕ)
    → Holds jobs ks
    → Grows ks (run_action fuel k a jobs)
unfolding run_action
run_action-Grows fuel k (run tokens) jobs ks h = execute_command-Grows fuel k tokens jobs ks h
run_action-Grows fuel k (pipeline commands) jobs ks h = run_pipe-Grows k commands jobs ks h
run_action-Grows fuel k overrun jobs ks h = tt

after-Grows :
    (ks : List ℕ) (es : List Effect) (o : Option Outcome)
    → Grows (ks ++ starts es) o
    → Grows ks (after es o)
after-Grows ks es none g = tt
after-Grows ks es (some o) g =
    rw (starts-append es o.effects, ← append_assoc ks (starts es) (starts o.effects)) g

pub run_actions-Grows :
    (fuel : ℕ) (kernels : ℕ → Kernel) (i : ℕ) (actions : List Action) (jobs : Jobs) (ks : List ℕ)
    → Holds jobs ks
    → Grows ks (run_actions fuel kernels i actions jobs)
unfolding run_actions
run_actions-Grows fuel kernels i [] jobs ks h = quiet-Grows ks [] jobs h refl
run_actions-Grows fuel kernels i (a ∷ actions) jobs ks h =
    let first = run_action-Grows fuel (kernels i) a jobs ks h in
    elim (Option-cases (run_action fuel (kernels i) a jobs)) [
      | inl e ↦ rw (run_actions, e) tt
      | inr (o, e) ↦
          let held : Grows ks (some o) = rw e at first in
          elim (Bool-cases o.is_over) [
            | inl over ↦ rw (run_actions, e, over) held
            | inr on ↦
                rw (run_actions, e, on)
                  (after-Grows ks o.effects (run_actions fuel kernels (i + 1) actions o.jobs) (
                    run_actions-Grows fuel kernels (i + 1) actions o.jobs (ks ++ starts o.effects)
                      held))
          ]
    ]
