-- ===== src/JobShell/Completion/Matches.antt =====
-- What the two generators of completion.c list between them, without their static variables:
-- `executables` for a first word and `names` for the others.
use cs.Base.{
  ◌==◌, ℕ, zero, suc, ◌+◌, ◌<◌, ◌≡◌, refl, ap, ◌∙◌, sym, Bool, false, Option, none, some, List, [],
  ◌∷◌, ◌++◌, ◌==◌, map, length, if◌then◌else◌, ne→==, Bytes, Lacks, arith, Bool-cases, ◌⊎◌, inl,
  inr, subst,
}
use cs.JobShell.Completion.{
  Files, dot, Match, read_dir, PathState, open_first, start_path, is_command, next_command,
  complete_command_executable, NameState, start_name, is_filename, under, append_character,
  next_name, complete_filename, rl_completion_matches, command_completion,
}
use cs.JobShell.Completion.Texts.{
  joined, AreItems, strtok_loop-joined, text_of, last_slash-none, last_slash-some,
}

-- The names that pass.
unfoldable keep : (Bytes → Bool) → List Bytes → List Bytes
keep test [] = []
keep test (e ∷ es) = if test e then e ∷ keep test es else keep test es

-- The executables whose name begins with `text`, in the directories before the first that cannot be
-- opened.
unfoldable executables : Files → Bytes → List Bytes → List Bytes
unfolding keep
executables fs text [] = []
executables fs text (d ∷ ds) = elim (fs.opendir d) [
  | none ↦ []
  | some es ↦ keep (is_command fs text d) es ++ executables fs text ds
]

-- The directory of a text, and the name that is listed for a name in it.
abbrev opened : Option Bytes → Bytes
opened none = dot
opened (some d) = d ++ b'/' ∷ []

abbrev dir_of : Option Bytes → Option Bytes
dir_of none = none
dir_of (some d) = some (d ++ b'/' ∷ [])

abbrev candidate : Files → Option Bytes → Bytes → Match
candidate fs dir_path name = (under dir_path name, some (append_character fs (under dir_path name)))

-- What is still to be listed.
unfoldable content : Files → Bytes → List Bytes → Option (List Bytes) → List Bytes
unfolding keep executables
content fs text [] dir = []
content fs text (d ∷ ds) none = []
content fs text (d ∷ ds) (some es) = keep (is_command fs text d) es ++ executables fs text ds

-- A call of a generator gives the first of `xs` and leaves the rest to list.
abbrev Yields : {A S : Type 0} → (S → List A) → Option (A × S) → List A → Type 0
Yields {A} {S} left o xs =
    ((o ≡ none) × (xs ≡ [])) ⊎ ((a : A) × (s : S) × (o ≡ some (a, s)) × (xs ≡ a ∷ left s))

-- A generator that yields at each call is called until all its matches are listed.
rl_completion_matches-all :
    {S : Type 0} (left : S → List Match) (generator : ℕ → S → Option (Match × S))
    (goes : (k : ℕ) (r : S) → Yields left (generator (suc k) r) (left r)) (fuel n : ℕ) (s : S)
    (ms : List Match)
    → Yields left (generator n s) ms
    → length ms < fuel
    → rl_completion_matches fuel generator n s ≡ some ms
unfolding rl_completion_matches
rl_completion_matches-all left generator goes zero n s ms first enough = elim enough [ ]
rl_completion_matches-all left generator goes (suc fuel) n s ms (inl (e, nil)) enough =
    rw (rl_completion_matches, e, nil)
rl_completion_matches-all left generator goes (suc fuel) n s ms (inr (m, r, e, more)) enough =
    let next : n + 1 ≡ suc n = omega arith in
    let fits : length (left r) < fuel = ground (arith, enough, more) in
    rw
      (
        rl_completion_matches,
        e,
        next,
        rl_completion_matches-all left generator goes fuel (suc n) r (left r) (goes n r) fits,
      )
      (ap some (sym more))

read_dir-keep :
    (test : Bytes → Bool) (es : List Bytes) → Yields (keep test) (read_dir test es) (keep test es)
unfolding read_dir keep
read_dir-keep test [] = inl (refl, refl)
read_dir-keep test (e ∷ es) = elim (Bool-cases (test e)) [
  | inl pass ↦ inr (e, es, rw (read_dir, pass), rw (keep, pass))
  | inr fail ↦ rw (read_dir, keep, fail) (read_dir-keep test es)
]

next_command-stuck :
    (fs : Files) (text : Bytes) (ds : List Bytes) → next_command fs text ds none ≡ none
unfolding next_command
next_command-stuck fs text [] = refl
next_command-stuck fs text (d ∷ ds) = next_command-stuck fs text ds

-- What a first word is completed to.
abbrev plain : List Bytes → List Match
plain = map (λ name. (name, none))

executables-content :
    (fs : Files) (text : Bytes) (ds : List Bytes)
    → executables fs text ds ≡ content fs text ds (open_first fs ds)
unfolding executables content
executables-content fs text [] = refl
executables-content fs text (d ∷ ds) = elim (fs.opendir d) [ none ↦ refl | some es ↦ refl ]

abbrev left : Files → Bytes → PathState → List Match
left fs text s = plain (content fs text s.dirs s.dir)

next_command-content :
    (fs : Files) (text : Bytes) (ds : List Bytes) (dir : Option (List Bytes))
    → Yields (left fs text) (next_command fs text ds dir) (plain (content fs text ds dir))
unfolding next_command content
next_command-content fs text [] dir = inl (refl, refl)
next_command-content fs text (d ∷ ds) none = inl (next_command-stuck fs text ds, refl)
next_command-content fs text (d ∷ ds) (some es) = elim (read_dir-keep (is_command fs text d) es) [
  | inl (e, nil) ↦
      rw (next_command, content, e, nil, executables-content fs text ds)
        (next_command-content fs text ds (open_first fs ds))
  | inr (m, rest, e, more) ↦ inr (
    (m, none),
    record { dirs = d ∷ ds; dir = some rest },
    rw (next_command, e),
    rw (content, more),
  )
]

unfoldable names_content : Files → NameState → Option (List Bytes) → List Match
unfolding keep
names_content fs s none = []
names_content fs s (some es) = map (candidate fs s.dir_path) (keep (is_filename s.file_prefix) es)

next_name-content :
    (fs : Files) (s : NameState) (dir : Option (List Bytes))
    → Yields (λ r. names_content fs r r.dir) (next_name fs s dir) (names_content fs s dir)
unfolding next_name names_content
next_name-content fs s none = inl (refl, refl)
next_name-content fs s (some es) = elim (read_dir-keep (is_filename s.file_prefix) es) [
  | inl (e, nil) ↦ inl (rw (next_name, e), rw (names_content, nil))
  | inr (m, rest, e, more) ↦ inr (
    candidate fs s.dir_path m,
    record s { dir = some rest },
    rw (next_name, e),
    rw (names_content, more),
  )
]

-- PATH, if it is set, and the directories that are searched.
abbrev pub path_of : Option (List Bytes) → Option Bytes
path_of none = none
path_of (some ds) = some (joined ds)

abbrev searched : Option (List Bytes) → List Bytes
searched none = dot ∷ []
searched (some ds) = ds ++ dot ∷ []

abbrev pub IsPath : Option (List Bytes) → Type 0
IsPath none = Unit
IsPath (some ds) = AreItems ds

abbrev names : Files → Option Bytes → Bytes → List Match
names fs dir f =
    names_content fs (record { dir_path = dir_of dir; file_prefix = f; dir = none })
      (fs.opendir (opened dir))

-- What the first word or another one, of a directory and a name, is completed to.
unfoldable pub completions : Files → Option (List Bytes) → Option Bytes → Bytes → ℕ → List Match
unfolding executables names_content
completions fs path dir f start =
    if start == 0 then plain (executables fs (text_of dir f) (searched path)) else names fs dir f

start_path-searched :
    (fs : Files) (path : Option (List Bytes))
    → IsPath path
    → start_path fs (path_of path)
      ≡ record { dirs = searched path; dir = open_first fs (searched path) }
unfolding start_path
start_path-searched fs none is = refl
start_path-searched fs (some ds) is = rw (start_path, strtok_loop-joined ds is)

start_name-text_of :
    (fs : Files) (dir : Option Bytes) (f : Bytes)
    → Lacks b'/' f
    → start_name fs (text_of dir f)
      ≡ record { dir_path = dir_of dir; file_prefix = f; dir = fs.opendir (opened dir) }
unfolding start_name
start_name-text_of fs none f lacks = rw (start_name, last_slash-none f lacks)
start_name-text_of fs (some d) f lacks = rw (start_name, last_slash-some d f lacks)

later : (k : ℕ) → (suc k == 0) ≡ false
later k = ne→== (suc k) 0 (omega arith)

start_path-content :
    (fs : Files) (text : Bytes) (path : Option (List Bytes))
    → IsPath path
    → left fs text (start_path fs (path_of path)) ≡ plain (executables fs text (searched path))
start_path-content fs text path is =
    ap (left fs text) (start_path-searched fs path is)
    ∙ ap plain (sym (executables-content fs text (searched path)))

-- When PATH has colons between directories that are not empty, the completion of a text, that is a
-- directory's name and a slash, or nothing, and then a name without a slash, lists, called often
-- enough, for a first word the executables whose name begins with the text, in the directories of
-- PATH and then in the current one, up to the first that cannot be opened; and for another word the
-- names in the directory that begin with the name, each with the directory before it, and with a
-- slash to append if it is a directory and a space if not.
pub command_completion-completions :
    (fuel : ℕ) (fs : Files) (path : Option (List Bytes)) (dir : Option Bytes) (f : Bytes)
    (start : ℕ) (s : PathState) (t : NameState)
    → IsPath path
    → Lacks b'/' f
    → length (completions fs path dir f start) < fuel
    → command_completion fuel fs (path_of path) (text_of dir f) start s t
      ≡ some (completions fs path dir f start)
unfolding command_completion completions complete_command_executable complete_filename
command_completion-completions fuel fs path dir f zero s t is lacks enough =
    let text = text_of dir f in
    let s1 = start_path fs (path_of path) in
    rl_completion_matches-all (left fs text) (complete_command_executable fs (path_of path) text)
      (λ k r. rw (later k) (next_command-content fs text r.dirs r.dir)) fuel 0 s
      (completions fs path dir f 0)
      (subst (λ ms. Yields (left fs text) (next_command fs text s1.dirs s1.dir) ms)
        (start_path-content fs text path is) (next_command-content fs text s1.dirs s1.dir))
      enough
command_completion-completions fuel fs path dir f (suc start) s t is lacks enough =
    let text = text_of dir f in
    let t1 = start_name fs text in
    rw (command_completion, later start)
      (rl_completion_matches-all (λ r. names_content fs r r.dir) (complete_filename fs text)
        (λ k r. rw (later k) (next_name-content fs r r.dir)) fuel 0 t (names fs dir f)
        (subst (λ ms. Yields (λ r. names_content fs r r.dir) (next_name fs t1 t1.dir) ms)
          (ap (λ r. names_content fs r r.dir) (start_name-text_of fs dir f lacks))
          (next_name-content fs t1 t1.dir))
        (rw (later start) at enough))
