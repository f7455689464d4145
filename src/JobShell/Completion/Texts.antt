-- ===== src/JobShell/Completion/Texts.antt =====
-- The texts that the generators take apart: the directories of PATH between colons, and a directory
-- before the last slash.
use mathlib.Core.List.{append_assoc, append-nil}
use cs.Base.{◌≡◌, refl, ◌≢◌, Option, none, some, List, [], ◌∷◌, ◌++◌, ne→==, Bytes, codes, Lacks}
use cs.JobShell.Completion.{dot, strtok_loop, last_slash}

-- The directories joined by colons, as PATH has them.
abbrev pub joined : List Bytes → Bytes
joined [] = []
joined (d ∷ []) = d
joined (d ∷ e ∷ ds) = d ++ b':' ∷ joined (e ∷ ds)

-- Neither empty nor with a colon.
abbrev pub AreItems : List Bytes → Type 0
AreItems [] = Unit
AreItems (d ∷ ds) = (d ≢ []) × (Lacks b':' d × AreItems ds)

strtok_loop-append :
    (item d s : Bytes) → Lacks b':' d → strtok_loop item (d ++ s) ≡ strtok_loop (item ++ d) s
unfolding strtok_loop
strtok_loop-append item [] s lacks = rw (append-nil item)
strtok_loop-append item (c ∷ d) s lacks = rw (
  ne→== c b':' lacks.0,
  strtok_loop-append (item ++ c ∷ []) d s lacks.1,
  append_assoc item (c ∷ []) d,
)

strtok_loop-colon :
    (d s : Bytes) → d ≢ [] → Lacks b':' d → strtok_loop [] (d ++ b':' ∷ s) ≡ d ∷ strtok_loop [] s
unfolding strtok_loop
strtok_loop-colon [] s some_byte lacks = elim (some_byte refl) [ ]
strtok_loop-colon (b ∷ d) s some_byte lacks = strtok_loop-append [] (b ∷ d) (b':' ∷ s) lacks

pub strtok_loop-joined :
    (ds : List Bytes) → AreItems ds → strtok_loop [] (joined ds ++ codes ":.") ≡ ds ++ dot ∷ []
unfolding strtok_loop
strtok_loop-joined [] items = refl
strtok_loop-joined (d ∷ []) items = strtok_loop-colon d dot items.0 items.1.0
strtok_loop-joined (d ∷ e ∷ ds) items = rw (
  append_assoc d (b':' ∷ joined (e ∷ ds)) (codes ":."),
  strtok_loop-colon d (joined (e ∷ ds) ++ codes ":.") items.0 items.1.0,
  strtok_loop-joined (e ∷ ds) items.1.1,
)

-- A text of a directory, if one is written before a slash, and a name.
abbrev pub text_of : Option Bytes → Bytes → Bytes
text_of none f = f
text_of (some d) f = d ++ b'/' ∷ f

pub last_slash-none : (f : Bytes) → Lacks b'/' f → last_slash f ≡ none
unfolding last_slash
last_slash-none [] lacks = refl
last_slash-none (c ∷ f) lacks = rw (last_slash, last_slash-none f lacks.1, ne→== c b'/' lacks.0)

pub last_slash-some :
    (d f : Bytes) → Lacks b'/' f → last_slash (d ++ b'/' ∷ f) ≡ some (d ++ b'/' ∷ [], f)
unfolding last_slash
last_slash-some [] f lacks = rw (last_slash, last_slash-none f lacks)
last_slash-some (c ∷ d) f lacks = rw (last_slash, last_slash-some d f lacks)
