-- ===== src/JobShell/Eval/Tests.antt =====
-- Lines of lab_shell/shell, and rounds of its loop.
use cs.Base.{◌≡◌, refl, true, false, none, some, List, [], ◌∷◌, Bytes, arith}
use cs.JobShell.Jobs.{ok}
use cs.JobShell.Jobs.Segments.{IsJobs}
use cs.JobShell.Line.{is_redirection, is_append, gt}
use cs.JobShell.Eval.{background, starts_with, exit_word, eval_command, Shell, Round, main_round}
use cs.JobShell.Eval.Dispatch.{ArePlain, eval_command-background, eval_command-blank}
use cs.JobShell.Eval.Rounds.{performed, erase_all, main_round-IsJobs}

abbrev ls : Bytes
ls = b'l' ∷ b's' ∷ []

ls-ArePlain : ArePlain (ls ∷ [])
unfolding is_redirection is_append cs.Base.eq_bytes
ls-ArePlain = ((refl, refl), tt)

gt-redirects : is_redirection gt ≡ true
unfolding is_redirection cs.Base.eq_bytes
gt-redirects = refl

abbrev redirected : Bytes
redirected = b'l' ∷ b's' ∷ 32 ∷ b'>' ∷ 32 ∷ b'f' ∷ []

redirected-stays : starts_with exit_word redirected ≡ false
unfolding starts_with
redirected-stays = refl

abbrev in_background : Bytes
in_background = b'l' ∷ b's' ∷ 32 ∷ b'&' ∷ []

in_background-stays : starts_with exit_word in_background ≡ false
unfolding starts_with
in_background-stays = refl

in_background-command : eval_command in_background ≡ some (background (ls ∷ []))
in_background-command =
    eval_command-background in_background ls [] in_background-stays refl ls-ArePlain

-- A line of two spaces makes evalCommand read through NULL.
eval_command-spaces : eval_command (32 ∷ 32 ∷ []) ≡ none
eval_command-spaces = eval_command-blank (32 ∷ 32 ∷ []) refl

abbrev started : Shell
started = record {
  jobs = record { head = 0; tail = 0; current_job_id = 0; previous_job_id = 0; heap = λ _. none };
  background_job_id = 1;
}

abbrev round : Round
round = record { ended = []; line = some in_background; ended_later = []; fresh = 5; pid = 100 }

main_round-IsJobs_example :
    (t : Shell) × (main_round 1 round started ≡ ok (some t))
    × IsJobs t.jobs (performed 5 100 1 (background (ls ∷ [])) (erase_all [] (erase_all [] [])))
main_round-IsJobs_example =
    main_round-IsJobs 1 round started [] b'l' (b's' ∷ 32 ∷ b'&' ∷ []) (background (ls ∷ [])) refl
      (omega arith) tt tt (λ e. absurd (omega arith)) refl refl in_background-command refl
