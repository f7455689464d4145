-- ===== src/Shell/Line/Commands.antt =====
-- The commands of a line, and the loop of `main` in lab_shell/my_shell.c on them.
use cs.Base.{
  arith, subst, leb, ◌≤◌, ◌-◌, if◌then◌else◌, length, length-append, ◌+◌, ◌<◌, ◌≡◌, refl, ap, ◌∙◌,
  sym, true, false, List, [], ◌∷◌, ◌++◌, Bytes, map, eq_bytes,
}
use mathlib.Core.List.{append_assoc, append-nil}
use cs.Shell.Line.{
  max_num_tokens, Action, overrun, has_slots, fits, fits_end, run, pipeline, Split, and_token,
  bar_token, split_token, split_loop, run_line,
}

abbrev pub IsPlain : Bytes → Type 0
IsPlain t = (eq_bytes t and_token ≡ false) × (eq_bytes t bar_token ≡ false)

-- A command: tokens that are neither `&&` nor `|`.
abbrev pub IsCommand : List Bytes → Type 0
IsCommand [] = Unit {0}
IsCommand (t ∷ ts) = IsPlain t × IsCommand ts

abbrev pub AreCommands : List (List Bytes) → Type 0
AreCommands [] = Unit {0}
AreCommands (c ∷ cs) = IsCommand c × AreCommands cs

-- Each command of the list with the operator behind it, and then `last`.
abbrev pub joined : Bytes → List (List Bytes) → List Bytes → List Bytes
joined op [] last = last
joined op (c ∷ cs) last = c ++ (op ∷ joined op cs last)

length-joined :
    (op oq : Bytes) (cs : List (List Bytes)) (last : List Bytes)
    → length (joined op cs last) ≡ length (joined oq cs last)
length-joined op oq [] last = refl
length-joined op oq (c ∷ cs) last = omega (
  arith,
  length-joined op oq cs last,
  length-append c (op ∷ joined op cs last),
  length-append c (oq ∷ joined oq cs last),
)

length-joined_last :
    (op : Bytes) (cs : List (List Bytes)) (last : List Bytes)
    → length last ≤ length (joined op cs last)
length-joined_last op [] last = omega arith
length-joined_last op (c ∷ cs) last =
    omega (arith, length-joined_last op cs last, length-append c (op ∷ joined op cs last))

-- There are slots for what is left of the line.
abbrev Room : List Bytes → Split → Type 0
Room rest s = length s.command + length s.pipe_commands + length rest < max_num_tokens

Room-command :
    (c rest : List Bytes) (s : Split)
    → Room (c ++ rest) s
    → Room rest (record s { command = s.command ++ c })
Room-command c rest s room = omega (arith, room, length-append c rest, length-append s.command c)

Room-bar :
    (rest : List Bytes) (s : Split)
    → Room (bar_token ∷ rest) s
    → Room rest (record {
      command = [];
      pipe_commands = s.pipe_commands ++ s.command ∷ [];
      pipe_command = true;
    })
Room-bar rest s room = omega (arith, room, length-append s.pipe_commands (s.command ∷ []))

split_loop-command :
    (c rest : List Bytes) (s : Split)
    → IsCommand c
    → Room (c ++ rest) s
    → split_loop (c ++ rest) s ≡ split_loop rest (record s { command = s.command ++ c })
unfolding split_loop split_token
split_loop-command [] rest s is room = rw (append-nil s.command) refl
split_loop-command (t ∷ ts) rest s is room =
    let slots : has_slots 0 s ≡ true = ground (arith, room) in
    let more =
      split_loop-command ts rest (record s { command = s.command ++ t ∷ [] }) is.1
        (Room-command (t ∷ []) (ts ++ rest) s room) in
    rw (is.0.1, slots, is.0.0, more, append_assoc s.command (t ∷ []) ts) refl

split_loop-and :
    (rest : List Bytes) (s : Split)
    → Room (and_token ∷ rest) s
    → split_loop (and_token ∷ rest) s ≡ run s.command ∷ split_loop rest (record s { command = [] })
unfolding split_loop split_token eq_bytes
split_loop-and rest s room =
    let slots : fits and_token s ≡ true = ground (arith, room) in rw slots refl

split_loop-bar :
    (rest : List Bytes) (s : Split)
    → Room (bar_token ∷ rest) s
    → split_loop (bar_token ∷ rest) s
      ≡ split_loop rest (record {
        command = [];
        pipe_commands = s.pipe_commands ++ s.command ∷ [];
        pipe_command = true;
      })
unfolding split_loop split_token eq_bytes
split_loop-bar rest s room =
    let slots : fits bar_token s ≡ true = ground (arith, room) in rw slots refl

split_loop-ands :
    (cs : List (List Bytes)) (rest : List Bytes) (s : Split)
    → AreCommands cs
    → s.command ≡ []
    → Room (joined and_token cs rest) s
    → split_loop (joined and_token cs rest) s ≡ map run cs ++ split_loop rest s
split_loop-ands [] rest s are start room = refl
split_loop-ands (c ∷ cs) rest s are start room =
    let behind = Room-command c (and_token ∷ joined and_token cs rest) s room in
    split_loop-command c (and_token ∷ joined and_token cs rest) s are.0 room
    ∙ split_loop-and (joined and_token cs rest) (record s { command = s.command ++ c }) behind
    ∙ rw
        (
          start,
          split_loop-ands cs rest (record s { command = [] }) are.1 refl (omega (arith, behind)),
          sym start,
        )
        refl

abbrev piping : List (List Bytes) → Split
piping ps = record { command = []; pipe_commands = ps; pipe_command = true }

split_loop-bars :
    (cs : List (List Bytes)) (rest : List Bytes) (ps : List (List Bytes))
    → AreCommands cs
    → Room (joined bar_token cs rest) (piping ps)
    → (split_loop (joined bar_token cs rest) (piping ps) ≡ split_loop rest (piping (ps ++ cs)))
      × Room rest (piping (ps ++ cs))
split_loop-bars [] rest ps are room = rw (append-nil ps) (refl, room)
split_loop-bars (c ∷ cs) rest ps are room =
    let s = piping ps in
    let behind = Room-command c (bar_token ∷ joined bar_token cs rest) s room in
    let (more, left) =
      split_loop-bars cs rest (ps ++ c ∷ []) are.1
        (Room-bar (joined bar_token cs rest) (record s { command = c }) behind) in
    let e = append_assoc ps (c ∷ []) cs in
    (
      split_loop-command c (bar_token ∷ joined bar_token cs rest) s are.0 room
          ∙ split_loop-bar (joined bar_token cs rest) (record s { command = c }) behind
          ∙ more
          ∙ ap (λ qs. split_loop rest (piping qs)) e,
      subst (λ qs. Room rest (piping qs)) e left,
    )

abbrev start : Split
start = record { command = []; pipe_commands = []; pipe_command = false }

-- The first command of a pipe and those up to `rest`.
split_loop-pipe :
    (c : List Bytes) (cs : List (List Bytes)) (rest : List Bytes)
    → IsCommand c
    → AreCommands cs
    → Room (joined bar_token (c ∷ cs) rest) start
    → (split_loop (joined bar_token (c ∷ cs) rest) start ≡ split_loop rest (piping (c ∷ cs)))
      × Room rest (piping (c ∷ cs))
split_loop-pipe c cs rest is are room =
    let behind = Room-command c (bar_token ∷ joined bar_token cs rest) start room in
    let (more, left) =
      split_loop-bars cs rest (c ∷ []) are
        (Room-bar (joined bar_token cs rest) (record start { command = c }) behind) in
    (
      split_loop-command c (bar_token ∷ joined bar_token cs rest) start is room
          ∙ split_loop-bar (joined bar_token cs rest) (record start { command = c }) behind
          ∙ more,
      left,
    )

-- A command at the end of the line.
split_loop-last :
    (c : List Bytes) (s : Split)
    → IsCommand c
    → Room c s
    → split_loop c s ≡ split_loop [] (record s { command = s.command ++ c })
split_loop-last c s is room =
    ap (λ l. split_loop l s) (sym (append-nil c))
    ∙ split_loop-command c [] s is (subst (λ l. Room l s) (sym (append-nil c)) room)

-- What is executed for a pipe of n commands.
abbrev pub pipe_of : List (List Bytes) → Action
pipe_of cs = if leb (length cs) (max_num_tokens - 1) then pipeline cs else overrun

split_loop-pipe_of :
    (cs : List (List Bytes)) (d : List Bytes)
    → IsCommand d
    → Room d (piping cs)
    → split_loop d (piping cs) ≡ pipe_of (cs ++ d ∷ []) ∷ []
unfolding split_loop
split_loop-pipe_of cs d is room =
    let n = length-append cs (d ∷ []) in
    split_loop-last d (piping cs) is room ∙ ground (arith, room, n)

run_line-ands :
    (cs : List (List Bytes)) (c : List Bytes)
    → AreCommands cs
    → IsCommand c
    → length (joined and_token cs c) < max_num_tokens
    → run_line (joined and_token cs c) ≡ map run cs ++ run c ∷ []
unfolding run_line split_loop
run_line-ands cs c are is few =
    let room : Room c start = omega (arith, few, length-joined_last and_token cs c) in
    let slots : fits_end (record start { command = c }) ≡ true = ground (arith, room) in
    split_loop-ands cs c start are refl (omega (arith, few))
    ∙ ap (λ l. map run cs ++ l) (split_loop-last c start is room ∙ rw slots refl)

run_line-bars :
    (c : List Bytes) (cs : List (List Bytes)) (d : List Bytes)
    → IsCommand c
    → AreCommands cs
    → IsCommand d
    → length (joined bar_token (c ∷ cs) d) < max_num_tokens
    → run_line (joined bar_token (c ∷ cs) d) ≡ pipe_of ((c ∷ cs) ++ d ∷ []) ∷ []
unfolding run_line
run_line-bars c cs d is are is_d few =
    let (e, left) = split_loop-pipe c cs d is are (omega (arith, few)) in
    e ∙ split_loop-pipe_of (c ∷ cs) d is_d left

-- Two commands or more, of tokens that are neither && nor |, in a line of fewer than 64 tokens, are
-- executed one by one, in order, when && stands between them, and as one pipe, in order, when | stands between
-- them, if they are 63 at most; if they are more, the pointer behind the last is written beyond
-- pipe_commands.
pub run_line-joined :
    (c : List Bytes) (cs : List (List Bytes)) (d : List Bytes)
    → IsCommand c
    → AreCommands cs
    → IsCommand d
    → length (joined bar_token (c ∷ cs) d) < max_num_tokens
    → (run_line (joined and_token (c ∷ cs) d) ≡ map run (c ∷ cs) ++ run d ∷ [])
      × (run_line (joined bar_token (c ∷ cs) d) ≡ pipe_of ((c ∷ cs) ++ d ∷ []) ∷ [])
run_line-joined c cs d is are is_d few = (
  run_line-ands (c ∷ cs) d (is, are) is_d
      (omega (arith, few, length-joined and_token bar_token (c ∷ cs) d)),
  run_line-bars c cs d is are is_d few,
)

-- In a line of one command or more with | between them, then | d && e, with tokens that are
-- neither && nor | in the commands, and fewer than 64 in all, d is executed first and alone, and then one pipe with e in
-- its place, if that has 63 commands at most.
run_line-bar_and :
    (c : List Bytes) (cs : List (List Bytes)) (d e : List Bytes)
    → IsCommand c
    → AreCommands cs
    → IsCommand d
    → IsCommand e
    → length (joined bar_token (c ∷ cs) (d ++ (and_token ∷ e))) < max_num_tokens
    → run_line (joined bar_token (c ∷ cs) (d ++ (and_token ∷ e)))
      ≡ run d ∷ pipe_of ((c ∷ cs) ++ e ∷ []) ∷ []
unfolding run_line
run_line-bar_and c cs d e is are is_d is_e few =
    let s = piping (c ∷ cs) in
    let (first, left) = split_loop-pipe c cs (d ++ (and_token ∷ e)) is are (omega (arith, few)) in
    let behind = Room-command d (and_token ∷ e) s left in
    first
    ∙ split_loop-command d (and_token ∷ e) s is_d left
    ∙ split_loop-and e (record s { command = d }) behind
    ∙ ap (λ l. run d ∷ l) (split_loop-pipe_of (c ∷ cs) e is_e (omega (arith, behind)))
