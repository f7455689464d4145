-- ===== src/JobShell/Eval/Dispatch.antt =====
-- What `evalCommand` of lab_shell/shell/eval.c does for a line, by its words.
use cs.Base.{
  ℕ, suc, ◌<◌, ◌≡◌, refl, sym, ap, ◌∙◌, inl, inr, Bool, true, false, ◌&&◌, ◌||◌, Option, none, some,
  List, [], ◌∷◌, ◌++◌, arith, ◌==◌, ltb, if◌then◌else◌, Bool-cases, length, Bytes, eq_bytes,
  eq_bytes_refl, length-append, lt→ltb,
}
use cs.JobShell.Line.{
  space, is_redirection, is_append, check_redirection_mode, check_append_redirection_mode,
}
use cs.JobShell.Line.Words.{words, split_command_into_tokens-words}
use cs.JobShell.Eval.{
  redirect, background, starts_with, first_of, cut_loop, but_last, last_is, exit_word, and_sign,
  eval_builtin, eval_tokens, eval_command,
}

-- A token that ends no command.
abbrev pub IsPlain : Bytes → Type 0
IsPlain t = (is_redirection t ≡ false) × (is_append t ≡ false)

abbrev pub ArePlain : List Bytes → Type 0
ArePlain [] = Unit {0}
ArePlain (t ∷ ts) = IsPlain t × ArePlain ts

check_redirection_mode-append :
    (xs : List Bytes) (op : Bytes) (ys : List Bytes)
    → is_redirection op ≡ true
    → check_redirection_mode (xs ++ op ∷ ys) ≡ true
unfolding check_redirection_mode
check_redirection_mode-append [] op ys is = rw is refl
check_redirection_mode-append (x ∷ xs) op ys is =
    ground (arith, check_redirection_mode-append xs op ys is)

cut_loop-append :
    (xs : List Bytes) (op : Bytes) (ys : List Bytes)
    → ArePlain xs
    → is_redirection op ≡ true
    → cut_loop is_redirection (xs ++ op ∷ ys) ≡ (xs, first_of ys)
unfolding cut_loop
cut_loop-append [] op ys plain is = rw is refl
cut_loop-append (x ∷ xs) op ys plain is = rw (plain.0.0, cut_loop-append xs op ys plain.1 is) refl

eval_command-words : (command : Bytes) → eval_command command ≡ eval_tokens command (words command)
unfolding eval_command
eval_command-words command = rw (eval_command, split_command_into_tokens-words command) refl

-- A line that does not begin with "exit" and whose words are some that are no redirection
-- operator, then > or 1>, then a file, and any more, is the command of the first words with the
-- file as its output; the words behind the file are dropped.
eval_command-redirect :
    (command : Bytes) (xs : List Bytes) (op file : Bytes) (rest : List Bytes)
    → starts_with exit_word command ≡ false
    → words command ≡ xs ++ op ∷ file ∷ rest
    → ArePlain xs
    → is_redirection op ≡ true
    → eval_command command ≡ some (redirect false xs file)
unfolding eval_tokens
eval_command-redirect command xs op file rest stays split plain is =
    eval_command-words command
    ∙ rw
        (
          split,
          stays,
          check_redirection_mode-append xs op (file ∷ rest) is,
          cut_loop-append xs op (file ∷ rest) plain is,
        )
        refl

no_redirection :
    (xs : List Bytes) (t : Bytes)
    → ArePlain xs
    → IsPlain t
    → check_redirection_mode (xs ++ t ∷ []) ≡ false
unfolding check_redirection_mode
no_redirection [] t plain last = rw last.0 refl
no_redirection (x ∷ xs) t plain last = rw (plain.0.0, no_redirection xs t plain.1 last) refl

no_append :
    (xs : List Bytes) (t : Bytes)
    → ArePlain xs
    → IsPlain t
    → check_append_redirection_mode (xs ++ t ∷ []) ≡ false
unfolding check_append_redirection_mode
no_append [] t plain last = rw last.1 refl
no_append (x ∷ xs) t plain last = rw (plain.0.1, no_append xs t plain.1 last) refl

last_is-append : (xs : List Bytes) (t : Bytes) → last_is t (xs ++ t ∷ []) ≡ true
unfolding last_is
last_is-append [] t = eq_bytes_refl t
last_is-append (x ∷ []) t = last_is-append [] t
last_is-append (x ∷ (y ∷ ys)) t = last_is-append (y ∷ ys) t

but_last-append : (xs : List Bytes) (t : Bytes) → but_last (xs ++ t ∷ []) ≡ xs
but_last-append [] t = refl
but_last-append (x ∷ []) t = refl
but_last-append (x ∷ (y ∷ ys)) t = ap (λ l. x ∷ l) (but_last-append (y ∷ ys) t)

and_sign-IsPlain : IsPlain and_sign
unfolding is_redirection is_append cs.Base.eq_bytes
and_sign-IsPlain = (refl, refl)

-- A line that does not begin with "exit" and whose words are some, one at least, that are no
-- redirection operator, and then &, is the command of the first words in the background.
pub eval_command-background :
    (command : Bytes) (x : Bytes) (xs : List Bytes)
    → starts_with exit_word command ≡ false
    → words command ≡ (x ∷ xs) ++ and_sign ∷ []
    → ArePlain (x ∷ xs)
    → eval_command command ≡ some (background (x ∷ xs))
unfolding eval_tokens
eval_command-background command x xs stays split plain =
    eval_command-words command
    ∙ rw
        (
          split,
          stays,
          no_redirection (x ∷ xs) and_sign plain and_sign-IsPlain,
          no_append (x ∷ xs) and_sign plain and_sign-IsPlain,
          last_is-append (x ∷ xs) and_sign,
          lt→ltb 1 (length ((x ∷ xs) ++ and_sign ∷ []))
              (omega (arith, length-append (x ∷ xs) (and_sign ∷ []))),
          but_last-append (x ∷ xs) and_sign,
        )
        refl

-- A line of spaces does not begin with "exit".
blank_starts : (command : Bytes) → words command ≡ [] → starts_with exit_word command ≡ false
unfolding starts_with
blank_starts [] blank = refl
blank_starts (b ∷ bs) blank = elim (Bool-cases (b == space)) [
  | inl sp ↦ ground (arith, sp)
  | inr letter ↦ cc (rw letter at blank)
]

-- A line with no words, such as one of spaces, makes evalCommand compare a token that is NULL: a
-- fault.
pub eval_command-blank : (command : Bytes) → words command ≡ [] → eval_command command ≡ none
unfolding eval_tokens eval_builtin check_redirection_mode check_append_redirection_mode
eval_command-blank command blank =
    eval_command-words command ∙ rw (blank, blank_starts command blank) refl
