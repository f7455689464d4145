-- ===== src/Shell/Session/Lines.antt =====
-- The history over a session of temp.c, and in the next one.
use mathlib.Core.Option
use cs.Base.{
  ℕ, ◌+◌, ◌<◌, ◌≤◌, ◌≡◌, refl, sym, ◌∙◌, subst, inl, inr, Bool, ◌||◌, true, false, Option, none,
  some, List, [], ◌∷◌, ◌++◌, ◌==◌, ltb, drop, length, if◌then◌else◌, Bool-cases, Option-cases,
  arith, Bytes, codes, eq_bytes,
}
use cs.Shell.Jobs.{reap, Jobs}
use cs.Shell.Line.{Action, run, pipeline, overrun, run_line, tokenize}
use cs.Shell.History.{
  max_history_size, max_input_size, newline, History, cut_newline, is_skipped, save_history,
}
use cs.Shell.History.Ring.{Shows, push_line, add_to_history-Shows}
use cs.Shell.History.Saved.{OneLine, IsEntry, Entries, save_history-load_history}
use cs.Shell.Execute.{Kernel, run_background, fork_loop}
use cs.Shell.Session.{
  Deed, saved, Shell, Turn, get_history_filepath, free_history, save, background, run_program,
  exits, execute_command, free_all, freed_round, round_frees, run_pipe, run_action, after,
  run_actions, is_blank, remember, Input, main_round, main_loop, end_session, load, main_session,
}

-- What a history of the lines `xs` is after a line, and after lines.
abbrev pub remembered_one : Bytes → List Bytes → List Bytes
remembered_one line xs =
    if is_blank line
    then xs
    else if is_skipped (cut_newline line)
    then xs
    else push_line xs (cut_newline line)

abbrev pub remembered : List Input → List Bytes → List Bytes
remembered [] xs = xs
remembered (i ∷ rest) xs = remembered rest (remembered_one i.line xs)

remember-Shows :
    (line : Bytes) (h : History) (xs : List Bytes)
    → Shows h xs
    → Shows (remember line h) (remembered_one line xs)
remember-Shows line h xs v = elim (Bool-cases (is_blank line)) [
  | inl blank ↦ rw blank v
  | inr other ↦ rw other (add_to_history-Shows h xs line v)
]

-- A turn that does not end the shell leaves the history.
abbrev Keeps : History → Option Turn → Type 0
Keeps h none = Unit
Keeps h (some t) = t.is_over ≡ false → t.shell.history ≡ h

run_program-Keeps :
    (k : Kernel) (tokens : List Bytes) (o : Option (List Bytes)) (s : Shell)
    → Keeps s.history (run_program k tokens o s)
run_program-Keeps k tokens none s = λ on. refl
run_program-Keeps k tokens (some command) s =
    elim (Option-cases (run_background k command s.jobs)) [
      | inl e ↦ rw e tt
      | inr (o, e) ↦ rw e (λ on. refl)
    ]

exits-Keeps : (h : History) (s : Shell) (o : Option (List Deed)) → Keeps h (Option.map (exits s) o)
exits-Keeps h s none = tt
exits-Keeps h s (some ds) = λ on. cc

execute_command-Keeps :
    (opens : Bytes → Bool) (k : Kernel) (tokens : List Bytes) (s : Shell)
    → Keeps s.history (execute_command opens k tokens s)
unfolding execute_command
execute_command-Keeps opens k [] s = λ on. refl
execute_command-Keeps opens k (name ∷ args) s = elim (Bool-cases (eq_bytes name (codes "cd"))) [
  | inl cd ↦ rw cd (λ on. refl)
  | inr no_cd ↦ elim (Bool-cases (eq_bytes name (codes "history"))) [
    | inl history ↦ rw (no_cd, history) (λ on. refl)
    | inr no_history ↦ elim (Bool-cases (eq_bytes name (codes "exit"))) [
      | inl exit ↦
          rw (no_cd, no_history, exit) (exits-Keeps s.history s (save opens k.home s.history))
      | inr no_exit ↦
          rw (no_cd, no_history, no_exit)
            (run_program-Keeps k (name ∷ args) (background (name ∷ args)) s)
    ]
  ]
]

run_action-Keeps :
    (opens : Bytes → Bool) (k : Kernel) (a : Action) (s : Shell)
    → Keeps s.history (run_action opens k a s)
unfolding run_action run_pipe
run_action-Keeps opens k (run tokens) s = execute_command-Keeps opens k tokens s
run_action-Keeps opens k (pipeline commands) s =
    elim (Bool-cases (fork_loop k 0 commands).is_whole) [
      | inl whole ↦ rw whole (λ on. refl)
      | inr broken ↦ rw broken (λ on. cc)
    ]
run_action-Keeps opens k overrun s = tt

freed_round-Keeps :
    (h : History) (bs : List ℕ) (o : Option Turn) → Keeps h o → Keeps h (freed_round bs o)
freed_round-Keeps h bs none keeps = tt
freed_round-Keeps h bs (some t) keeps = elim (Bool-cases t.is_over) [
  | inl over ↦ simp over (λ on. cc)
  | inr on ↦ elim (Option-cases (free_all [] bs)) [
    | inl twice ↦ simp (on, twice) tt
    | inr (freed, once) ↦ simp (on, once) (λ _. keeps on)
  ]
]

after-Keeps :
    (h g : History) (ds : List Deed) (o : Option Turn) → g ≡ h → Keeps g o → Keeps h (after ds o)
after-Keeps h g ds none e keeps = tt
after-Keeps h g ds (some t) e keeps = λ on. keeps on ∙ e

run_actions-Keeps :
    (opens : Bytes → Bool) (kernels : ℕ → Kernel) (i : ℕ) (actions : List Action) (s : Shell)
    → Keeps s.history (run_actions opens kernels i actions s)
unfolding run_actions
run_actions-Keeps opens kernels i [] s = λ on. refl
run_actions-Keeps opens kernels i (a ∷ rest) s =
    let first = run_action-Keeps opens (kernels i) a s in
    elim (Option-cases (run_action opens (kernels i) a s)) [
      | inl e ↦ rw (run_actions, e) tt
      | inr (t, e) ↦
          let kept : Keeps s.history (some t) = rw e at first in
          elim (Bool-cases t.is_over) [
            | inl over ↦ rw (run_actions, e, over) (λ on. cc)
            | inr on ↦
                rw (run_actions, e, on)
                  (after-Keeps s.history t.shell.history t.deeds
                    (run_actions opens kernels (i + 1) rest t.shell) (kept on)
                    (run_actions-Keeps opens kernels (i + 1) rest t.shell))
          ]
    ]

main_round-Keeps :
    (opens : Bytes → Bool) (i : Input) (s : Shell)
    → Keeps (remember i.line s.history) (main_round opens i s)
unfolding main_round
main_round-Keeps opens i s = elim (Option-cases (tokenize i.line)) [
  | inl e ↦ rw (main_round, e) tt
  | inr (ts, e) ↦
      let s1 : Shell = record { history = remember i.line s.history; jobs = reap i.pids s.jobs } in
      rw (main_round, e)
        (freed_round-Keeps (remember i.line s.history) (round_frees ts)
          (run_actions opens i.kernels 0 (run_line ts) s1)
          (run_actions-Keeps opens i.kernels 0 (run_line ts) s1))
]

-- The loop of main, if it comes to the end of the input.
abbrev ShowsAfter : List Bytes → Option Turn → Type 0
ShowsAfter xs none = Unit
ShowsAfter xs (some t) = t.is_over ≡ false → Shows t.shell.history xs

after-ShowsAfter :
    (xs : List Bytes) (ds : List Deed) (o : Option Turn)
    → ShowsAfter xs o
    → ShowsAfter xs (after ds o)
after-ShowsAfter xs ds none v = tt
after-ShowsAfter xs ds (some t) v = v

main_loop-ShowsAfter :
    (opens : Bytes → Bool) (is : List Input) (s : Shell) (xs : List Bytes)
    → Shows s.history xs
    → ShowsAfter (remembered is xs) (main_loop opens is s)
unfolding main_loop
main_loop-ShowsAfter opens [] s xs v = λ on. v
main_loop-ShowsAfter opens (i ∷ rest) s xs v =
    let first = main_round-Keeps opens i s in
    elim (Option-cases (main_round opens i s)) [
      | inl e ↦ rw (main_loop, e) tt
      | inr (t, e) ↦
          let kept : Keeps (remember i.line s.history) (some t) = rw e at first in
          elim (Bool-cases t.is_over) [
            | inl over ↦ rw (main_loop, e, over) (λ on. cc)
            | inr on ↦
                rw (main_loop, e, on)
                  (after-ShowsAfter (remembered rest (remembered_one i.line xs)) t.deeds
                    (main_loop opens rest t.shell)
                    (main_loop-ShowsAfter opens rest t.shell (remembered_one i.line xs) (
                      subst (λ h. Shows h (remembered_one i.line xs)) (sym (kept on))
                        (remember-Shows i.line s.history xs v))))
          ]
    ]

-- The lines that are kept can be saved.
Entries-append : (xs ys : List Bytes) → Entries xs → Entries ys → Entries (xs ++ ys)
Entries-append [] ys a b = b
Entries-append (x ∷ xs) ys a b = (a.0, Entries-append xs ys a.1 b)

Entries-drop_one : (xs : List Bytes) → Entries xs → Entries (drop 1 xs)
Entries-drop_one [] a = tt
Entries-drop_one (x ∷ []) a = tt
Entries-drop_one (x ∷ y ∷ xs) a = a.1

cut_newline-IsOneLine : (line : Bytes) → OneLine (cut_newline line)
unfolding cut_newline
cut_newline-IsOneLine [] = tt
cut_newline-IsOneLine (b ∷ bs) = elim (Bool-cases ((b == newline) || (b == 0))) [
  | inl end ↦ rw end tt
  | inr other ↦ rw other (
    (λ e. absurd (ground (arith, other, e))),
    (λ e. absurd (ground (arith, other, e))),
    cut_newline-IsOneLine bs,
  )
]

length-cut_newline : (line : Bytes) → length (cut_newline line) ≤ length line
unfolding cut_newline
length-cut_newline [] = omega arith
length-cut_newline (b ∷ bs) = ground (arith, length-cut_newline bs)

push_line-Entries :
    (xs : List Bytes) (t : Bytes) → Entries xs → IsEntry t → Entries (push_line xs t)
unfolding push_line
push_line-Entries xs t es is = elim (Bool-cases (ltb (length xs) max_history_size)) [
  | inl room ↦ rw room (Entries-append xs (t ∷ []) es (is, tt))
  | inr full ↦ rw full (Entries-append (drop 1 xs) (t ∷ []) (Entries-drop_one xs es) (is, tt))
]

-- What `fgets` can give: 1023 bytes at most.
abbrev pub AreRead : List Input → Type 0
AreRead [] = Unit
AreRead (i ∷ rest) = (length i.line < max_input_size) × AreRead rest

remembered_one-Entries :
    (line : Bytes) (xs : List Bytes)
    → length line < max_input_size
    → Entries xs
    → Entries (remembered_one line xs)
remembered_one-Entries line xs short es = elim (Bool-cases (is_blank line)) [
  | inl blank ↦ rw blank es
  | inr other ↦ elim (Bool-cases (is_skipped (cut_newline line))) [
    | inl skip ↦ rw (other, skip) es
    | inr kept ↦
        rw (other, kept)
          (push_line-Entries xs (cut_newline line) es (record {
            one_line = cut_newline-IsOneLine line;
            kept = kept;
            short = omega (arith, length-cut_newline line);
          }))
  ]
]

remembered-Entries :
    (is : List Input) (xs : List Bytes) → AreRead is → Entries xs → Entries (remembered is xs)
remembered-Entries [] xs are es = es
remembered-Entries (i ∷ rest) xs are es =
    remembered-Entries rest (remembered_one i.line xs) are.1
      (remembered_one-Entries i.line xs are.0 es)

end_session-saved :
    (opens : Bytes → Bool) (home path : Bytes) (t : Turn) (bytes : Bytes)
    → t.is_over ≡ false
    → get_history_filepath (some home) ≡ some path
    → opens path ≡ true
    → save_history t.shell.history ≡ some bytes
    → end_session opens (some home) t
      ≡ some (record t {
        deeds = t.deeds ++ saved path bytes ∷ [];
        shell = record t.shell { history = free_history t.shell.history };
      })
unfolding end_session save
end_session-saved opens home path t bytes on at can written = rw (on, save, at, can, written)

-- When the history that is loaded from the file, if there is one, shows the lines xs, which add_to_history
-- can have kept, and the loop of main comes to the end of an input of lines of at most 1023 bytes, with no
-- access out of bounds, no block freed twice and no exit, and the file can be opened to be written, the session ends, and
-- writes a file that, loaded by the next session, shows xs and then the lines that are neither blank nor
-- "history", of all these the last twenty.
pub main_session-Shows :
    (files : Bytes → Option Bytes) (opens : Bytes → Bool) (home path : Bytes) (is : List Input)
    (jobs : Jobs) (xs : List Bytes) (t : Turn)
    → Shows (load files (some home)) xs
    → Entries xs
    → AreRead is
    → main_loop opens is (record { history = load files (some home); jobs = jobs }) ≡ some t
    → t.is_over ≡ false
    → get_history_filepath (some home) ≡ some path
    → opens path ≡ true
    → (r : Turn) × (bytes : Bytes) × (main_session files opens (some home) is jobs ≡ some r)
      × (r.deeds ≡ t.deeds ++ saved path bytes ∷ [])
      × Shows (load (λ p. some bytes) (some home)) (remembered is xs)
unfolding main_session load
main_session-Shows files opens home path is jobs xs t v es are e on at can =
    let s : Shell = record { history = load files (some home); jobs = jobs } in
    let loop = main_loop-ShowsAfter opens is s xs v in
    let shows : Shows t.shell.history (remembered is xs) = (rw e at loop) on in
    let (bytes, written, again) =
      save_history-load_history shows (remembered-Entries is xs are es) in
    let ended : Turn = record t {
      deeds = t.deeds ++ saved path bytes ∷ [];
      shell = record t.shell { history = free_history t.shell.history };
    } in
    (
      ended,
      bytes,
      rw (main_session, e) (end_session-saved opens home path t bytes on at can written),
      refl,
      rw (load, at) again,
    )
