-- ===== src/Shell/Tests.antt =====
-- The theorems on shells at some lines, with blanks trimmed.
use hazelcast_commandline_cl.Prelude.{
  ℕ, ◌≡◌, refl, false, Option, some, none, List, [], ◌∷◌, ◌++◌, Text, codes, equal, if◌then◌else◌,
  ◌==◌, arith,
}
use hazelcast_commandline_cl.Shell.Reading.{
  Input, Runner, end_line, is_skipped, run_text, scan_lines, read_text_basic, start,
}
use hazelcast_commandline_cl.Shell.Statements.{texts_in, statements, filled, run_each}
use hazelcast_commandline_cl.Shell.Statements.Interactive.{start-run_each}
use hazelcast_commandline_cl.Shell.Statements.Oneshot.{
  run_until_error, read_text_basic-run_until_error,
}
use hazelcast_commandline_cl.Strings.Split.{has_prefix}

abbrev trim_left : Text → Text
trim_left [] = []
trim_left (c ∷ s) = let rest = trim_left s in if c == 32 then rest else c ∷ s

abbrev before_blanks : ℕ → Text → Text
before_blanks c [] = if c == 32 then [] else c ∷ []
before_blanks c (d ∷ s) = c ∷ d ∷ s

abbrev trim_right : Text → Text
trim_right [] = []
trim_right (c ∷ s) = before_blanks c (trim_right s)

abbrev input : Input
input = record { trim_space = λ s. trim_right (trim_left s); comment_prefix = codes "--" }

-- The world holds the texts that were run.
abbrev runner : Runner (List Text) Text
runner = record {
  text_fn = λ text w.
      (if equal text (codes "\\exit") then some (codes "exit") else none, w ++ (text ∷ []));
  echo_line = λ line text w. w;
  ignore_errors = false;
  echo = false;
  add_to_history = λ text w. w;
  is_exit = λ e. equal e (codes "exit");
  is_user_cancelled = λ e. false;
  print_error = λ e w. w;
}

abbrev lines : List Text
lines =
    codes "select"
    ∷ codes "1;"
    ∷ codes "-- note"
    ∷ codes "\\map \\"
    ∷ codes "size"
    ∷ codes "\\exit"
    ∷ codes "select"
    ∷ []

ran : read_text_basic input runner lines [] ≡ (
  some (codes "exit"),
  (codes "select" ++ (10 ∷ codes "1;")) ∷ codes "\\map size" ∷ codes "\\exit" ∷ [],
)
unfolding read_text_basic scan_lines run_text end_line is_skipped has_prefix equal
ran = refl

read_text_basic-run_until_error_example :
    read_text_basic input runner lines [] ≡ run_until_error input runner (statements input lines) []
read_text_basic-run_until_error_example = read_text_basic-run_until_error input runner lines [] refl

start-run_each_example :
    start input runner 8 false lines []
    ≡ run_each input runner
        (filled input (texts_in input input.trim_space false [] false lines).ended)
        []
start-run_each_example = start-run_each input runner 8 false lines [] (omega arith)

-- A runner on which a blank text does nothing.
abbrev run_filled : Text → List Text → Option Text × List Text
run_filled [] w = (none, w)
run_filled (c ∷ text) w = (
  if equal (c ∷ text) (codes "\\exit") then some (codes "exit") else none,
  w ++ ((c ∷ text) ∷ []),
)

abbrev quiet_runner : Runner (List Text) Text
quiet_runner = record {
  text_fn = run_filled;
  echo_line = λ line text w. w;
  ignore_errors = false;
  echo = false;
  add_to_history = λ text w. w;
  is_exit = λ e. equal e (codes "exit");
  is_user_cancelled = λ e. false;
  print_error = λ e w. w;
}

-- A comment between two statements, a blank line, and a statement of two lines.
abbrev ended_lines : List Text
ended_lines = codes "select" ∷ codes "1;" ∷ codes "-- note" ∷ [] ∷ codes "\\map size" ∷ []
