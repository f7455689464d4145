-- ===== src/JobShell/Line/Tests.antt =====
-- A line of lab_shell/shell, split.
use cs.Base.{◌≡◌, some, [], ◌∷◌, Bytes}
use cs.JobShell.Line.{split_command_into_tokens}
use cs.JobShell.Line.Words.{split_command_into_tokens-words}

abbrev two_words : Bytes
two_words = 32 ∷ b'l' ∷ b's' ∷ 32 ∷ 32 ∷ b'a' ∷ []

split_command_into_tokens-words_example :
    split_command_into_tokens two_words ≡ some ((b'l' ∷ b's' ∷ []) ∷ (b'a' ∷ []) ∷ [])
split_command_into_tokens-words_example = split_command_into_tokens-words two_words
