-- ===== src/Shell/History/Saved.antt =====
-- `save_history` and then `load_history` of temp.c.
use cs.Base.{
  ℕ, zero, suc, ◌+◌, ◌-◌, ◌<◌, ◌≤◌, ◌≡◌, ◌≢◌, refl, sym, ap, ◌∙◌, subst, inl, inr, true, false,
  some, List, [], ◌∷◌, ◌++◌, map, arith, ltb, lt→ltb, Bool-cases, length, Bytes, length-append,
}
use mathlib.Core.List.{append_assoc, append-nil}
use cs.Shell.History.{
  max_history_size, newline, max_input_size, History, no_history, cut_newline, is_skipped,
  add_to_history, write_lines, print_history, save_history, fgets, load_loop, load_history,
}
use cs.Shell.History.Ring.{
  Shows, push_line, no_history-Shows, add_to_history-Shows, print_history-Shows,
}

-- No byte of a line is a newline or zero.
abbrev pub OneLine : Bytes → Type 0
OneLine [] = Unit {0}
OneLine (b ∷ bs) = (b ≢ newline) × (b ≢ 0) × OneLine bs

-- A line that `add_to_history` can have kept: what `fgets` read, less its newline, and not skipped.
pub record IsEntry (t : Bytes) : Type 0 where
  pub one_line : OneLine t
  pub kept : is_skipped t ≡ false
  pub short : length t < max_input_size

abbrev pub Entries : List Bytes → Type 0
Entries [] = Unit {0}
Entries (t ∷ ts) = IsEntry t × Entries ts

abbrev lines : List Bytes → Bytes
lines [] = []
lines (t ∷ ts) = t ++ (newline ∷ lines ts)

write_lines-some : (ts : List Bytes) → write_lines (map some ts) ≡ some (lines ts)
write_lines-some [] = refl
write_lines-some (t ∷ ts) = rw (write_lines-some ts)

cut_newline-OneLine :
    (t : Bytes) (rest : Bytes) → OneLine t → cut_newline (t ++ (newline ∷ rest)) ≡ t
unfolding cut_newline
cut_newline-OneLine [] rest o = refl
cut_newline-OneLine (b ∷ bs) rest o = ground (arith, o.0, o.1, cut_newline-OneLine bs rest o.2)

cut_newline_self : (t : Bytes) → OneLine t → cut_newline t ≡ t
unfolding cut_newline
cut_newline_self [] o = refl
cut_newline_self (b ∷ bs) o = ground (arith, o.0, o.1, cut_newline_self bs o.2)

-- With room for the newline `fgets` reads the whole line.
fgets-line :
    (n : ℕ) (t rest : Bytes)
    → OneLine t
    → length t < n
    → fgets n (t ++ (newline ∷ rest)) ≡ (t ++ (newline ∷ []), rest)
unfolding fgets
fgets-line zero t rest o h = absurd (omega arith)
fgets-line (suc n) [] rest o h = refl
fgets-line (suc n) (b ∷ bs) rest o h = ground (arith, o.0, fgets-line n bs rest o.2)

-- With no room for it, the newline is left behind.
fgets_full :
    (t rest : Bytes) → OneLine t → fgets (length t) (t ++ (newline ∷ rest)) ≡ (t, newline ∷ rest)
unfolding fgets
fgets_full [] rest o = refl
fgets_full (b ∷ bs) rest o = ground (arith, o.0, fgets_full bs rest o.2)

fgets-full_at :
    (n : ℕ) (t rest : Bytes)
    → OneLine t
    → length t ≡ n
    → fgets n (t ++ (newline ∷ rest)) ≡ (t, newline ∷ rest)
fgets-full_at n t rest o e =
    subst (λ m. fgets m (t ++ (newline ∷ rest)) ≡ (t, newline ∷ rest)) e (fgets_full t rest o)

push_line-room :
    (xs : List Bytes) (t : Bytes) → length xs < max_history_size → push_line xs t ≡ xs ++ t ∷ []
unfolding push_line
push_line-room xs t h = rw (lt→ltb (length xs) max_history_size h)

add_to_history-entry :
    (h : History) (ys : List Bytes) (line t : Bytes)
    → Shows h ys
    → IsEntry t
    → length ys < max_history_size
    → cut_newline line ≡ t
    → Shows (add_to_history h line) (ys ++ t ∷ [])
add_to_history-entry h ys line t v is room cut =
    subst (λ zs. Shows (add_to_history h line) zs) (rw (cut, is.kept, push_line-room ys t room))
      (add_to_history-Shows h ys line v)

add_to_history-blank :
    (h : History) (ys : List Bytes) → Shows h ys → Shows (add_to_history h (newline ∷ [])) ys
unfolding is_skipped cut_newline
add_to_history-blank h ys v = add_to_history-Shows h ys (newline ∷ []) v

-- Reading one line of the file back: a step of the loop, or two where `fgets` has no room for the
-- newline.
module _ (rest : Bytes) (h : History) (ys : List Bytes) (v : Shows h ys) where
  short_line :
      (fuel : ℕ) (b : ℕ) (bs : Bytes)
      → IsEntry (b ∷ bs)
      → length ys < max_history_size
      → length (b ∷ bs) < max_input_size - 1
      → (h1 : History) × (load_loop (suc fuel) ((b ∷ bs) ++ (newline ∷ rest)) h
          ≡ load_loop fuel rest h1)
        × Shows h1 (ys ++ (b ∷ bs) ∷ [])
  unfolding load_loop
  short_line fuel b bs is room short = (
    add_to_history h ((b ∷ bs) ++ (newline ∷ [])),
    ap (λ r. load_loop fuel r.1 (add_to_history h r.0))
        (fgets-line (max_input_size - 1) (b ∷ bs) rest is.one_line short),
    add_to_history-entry h ys ((b ∷ bs) ++ (newline ∷ [])) (b ∷ bs) v is room
        (cut_newline-OneLine (b ∷ bs) [] is.one_line),
  )

  full_line :
      (fuel : ℕ) (b : ℕ) (bs : Bytes)
      → IsEntry (b ∷ bs)
      → length ys < max_history_size
      → length (b ∷ bs) ≡ max_input_size - 1
      → (h1 : History) × (load_loop (suc (suc fuel)) ((b ∷ bs) ++ (newline ∷ rest)) h
          ≡ load_loop fuel rest h1)
        × Shows h1 (ys ++ (b ∷ bs) ∷ [])
  unfolding load_loop
  full_line fuel b bs is room full = (
    add_to_history (add_to_history h (b ∷ bs)) (newline ∷ []),
    ap (λ r. load_loop (suc fuel) r.1 (add_to_history h r.0))
          (fgets-full_at (max_input_size - 1) (b ∷ bs) rest is.one_line full)
        ∙ ap (λ r. load_loop fuel r.1 (add_to_history (add_to_history h (b ∷ bs)) r.0))
            (fgets-line (max_input_size - 1) [] rest tt (omega arith)),
    add_to_history-blank (add_to_history h (b ∷ bs)) (ys ++ (b ∷ bs) ∷ []) (
        add_to_history-entry h ys (b ∷ bs) (b ∷ bs) v is room
          (cut_newline_self (b ∷ bs) is.one_line)),
  )

blank_skipped : is_skipped [] ≡ true
unfolding is_skipped
blank_skipped = refl

load_loop-Shows :
    (xs ys : List Bytes) (fuel : ℕ) (h : History)
    → Entries xs
    → Shows h ys
    → length ys + length xs ≤ max_history_size
    → length (lines xs) ≤ fuel
    → Shows (load_loop fuel (lines xs) h) (ys ++ xs)
unfolding load_loop
load_loop-Shows [] ys fuel h es v room enough = rw (append-nil ys) v
load_loop-Shows ([] ∷ xs) ys fuel h es v room enough =
    absurd (grind (arith, es.0.kept, blank_skipped))
load_loop-Shows ((b ∷ bs) ∷ xs) ys zero h es v room enough = absurd (omega arith)
load_loop-Shows ((b ∷ bs) ∷ xs) ys (suc zero) h es v room enough =
    absurd (omega (arith, enough, length-append bs (newline ∷ lines xs)))
load_loop-Shows ((b ∷ bs) ∷ xs) ys (suc (suc fuel)) h es v room enough =
    let longer = length-append bs (newline ∷ lines xs) in
    let more = length-append ys ((b ∷ bs) ∷ []) in
    elim (Bool-cases (ltb (length (b ∷ bs)) (max_input_size - 1))) [
      | inl short ↦
          let (h1, step, v1) =
            short_line (lines xs) h ys v (suc fuel) b bs es.0 (omega arith) (ground arith) in
          subst (λ g. Shows g (ys ++ (b ∷ bs) ∷ xs)) (sym step)
            (subst (λ zs. Shows (load_loop (suc fuel) (lines xs) h1) zs)
              (append_assoc ys ((b ∷ bs) ∷ []) xs)
              (load_loop-Shows xs (ys ++ (b ∷ bs) ∷ []) (suc fuel) h1 es.1 v1 (omega arith)
                (omega arith)))
      | inr full ↦
          let short = es.0.short in
          let (h1, step, v1) =
            full_line (lines xs) h ys v fuel b bs es.0 (omega arith) (ground arith) in
          subst (λ g. Shows g (ys ++ (b ∷ bs) ∷ xs)) (sym step)
            (subst (λ zs. Shows (load_loop fuel (lines xs) h1) zs)
              (append_assoc ys ((b ∷ bs) ∷ []) xs)
              (load_loop-Shows xs (ys ++ (b ∷ bs) ∷ []) fuel h1 es.1 v1 (omega arith)
                (omega arith)))
    ]

-- A history that shows the lines xs, each of one line with no zero byte, kept by add_to_history and
-- shorter than 1024 bytes, is saved in a file from which a new process loads a history that shows xs.
pub save_history-load_history :
    {h : History} {xs : List Bytes}
    → Shows h xs
    → Entries xs
    → (file : Bytes) × (save_history h ≡ some file) × Shows (load_history file) xs
unfolding save_history load_history print_history
save_history-load_history {h} {xs} v es = (
  lines xs,
  ap write_lines (print_history-Shows v) ∙ write_lines-some xs,
  load_loop-Shows xs [] (length (lines xs)) no_history es no_history-Shows
      (omega (arith, v.counted, v.few)) (omega arith),
)
