-- ===== src/Shell/Reading.antt =====
-- base/commands/shell_script_common.go: `makeEndLineFunc`; clc/shell/oneshot_shell.go:
-- `readTextBasic`; clc/shell/shell.go: `readTextReadline` and `Start`. The lines of the input are a
-- list. strings.TrimSpace is a parameter; the text function and the outputs are steps on a world.
use hazelcast_commandline_cl.Prelude.{
  ℕ, zero, suc, Bool, true, false, ◌&&◌, ◌||◌, not, Option, some, none, List, [], ◌∷◌, ◌++◌, Text,
  codes, if◌then◌else◌, ◌==◌,
}
use hazelcast_commandline_cl.Strings.Split.{has_prefix}

-- strings.HasSuffix with one byte, and line[:len(line)-1]
abbrev pub ends_with : ℕ → Text → Bool
ends_with c [] = false
ends_with c (x ∷ []) = x == c
ends_with c (x ∷ y ∷ s) = ends_with c (y ∷ s)

abbrev pub without_last : Text → Text
without_last [] = []
without_last (x ∷ []) = []
without_last (x ∷ y ∷ s) = x ∷ without_last (y ∷ s)

abbrev pub is_blank_text : Text → Bool
is_blank_text [] = true
is_blank_text (x ∷ s) = false

-- What an EndLineFn returns, and clcMultilineContinue behind it.
pub record EndLine : Type 0 where
  pub text : Text
  pub end : Bool
  pub continues : Bool

pub record Input : Type 0 where
  pub trim_space : Text → Text
  pub comment_prefix : Text

pub record Runner (World Error : Type 0) : Type 0 where
  pub text_fn : Text → World → Option Error × World
  -- the oneshot shell: its echo, and its options
  pub echo_line : ℕ → Text → World → World
  pub ignore_errors : Bool
  pub echo : Bool
  -- the interactive shell: its history, and what it does with an error
  pub add_to_history : Text → World → World
  pub is_exit : Error → Bool
  pub is_user_cancelled : Error → Bool
  pub print_error : Error → World → World

module _ (i : Input) where
  abbrev pub is_clc_command : Text → Bool
  is_clc_command line = has_prefix (i.trim_space line) (codes "\\")

  abbrev pub command_line : Text → EndLine
  command_line line =
      if ends_with b'\\' line
      then record { text = without_last line; end = false; continues = true }
      else record { text = line; end = true; continues = true }

  abbrev pub sql_line : Text → EndLine
  sql_line line =
      if has_prefix (i.trim_space line) (codes "help")
        || has_prefix (i.trim_space line) (codes "\\")
        || ends_with b';' (i.trim_space line)
      then record { text = line; end = true; continues = false }
      else record { text = line ++ (10 ∷ []); end = false; continues = false }

  -- The function that makeEndLineFunc returns.
  unfoldable pub end_line : Bool → Text → Bool → EndLine
  end_line continues line multiline =
      if is_clc_command line || multiline && continues then command_line line else sql_line line

  abbrev pub is_comment : Text → Bool
  is_comment pt = not (is_blank_text i.comment_prefix) && has_prefix pt i.comment_prefix

  -- A line that is skipped, outside a statement.
  unfoldable pub is_skipped : Bool → Text → Bool
  is_skipped multiline p =
      not multiline && (is_blank_text (i.trim_space p) || is_comment (i.trim_space p))

  -- The variables of readTextBasic.
  pub record Scan : Type 0 where
    pub sb : Text
    pub multiline : Bool
    pub continues : Bool
    pub line : ℕ
    pub multiline_start : ℕ
    pub prev_multiline : Bool

  -- sb, multiline and the others, after a line that is not skipped.
  abbrev pub after_line : Scan → EndLine → Scan
  after_line s r = record {
    sb = s.sb ++ r.text;
    multiline = not r.end;
    continues = r.continues;
    line = s.line;
    multiline_start = if not s.multiline && not r.end then s.line else s.multiline_start;
    prev_multiline = s.multiline;
  }

  abbrev pub next_line : Scan → Scan
  next_line s = record {
    sb = s.sb;
    multiline = s.multiline;
    continues = s.continues;
    line = suc s.line;
    multiline_start = s.multiline_start;
    prev_multiline = s.prev_multiline;
  }

  abbrev pub reset : Scan → Scan
  reset s = record {
    sb = [];
    multiline = s.multiline;
    continues = s.continues;
    line = s.line;
    multiline_start = s.multiline_start;
    prev_multiline = s.prev_multiline;
  }

  abbrev pub first_scan : Scan
  first_scan = record {
    sb = [];
    multiline = false;
    continues = false;
    line = 0;
    multiline_start = 0;
    prev_multiline = false;
  }

  module _ {World Error : Type 0} (r : Runner World Error) where
    abbrev pub echo_text : Scan → World → World
    echo_text s w =
        if r.echo
        then r.echo_line (if s.prev_multiline then s.multiline_start else s.line) s.sb w
        else w

    abbrev pub unless_ignored : Option Error × World → Option Error × World
    unless_ignored (none, w) = (none, w)
    unless_ignored (some e, w) = (if r.ignore_errors then none else some e, w)

    -- Echo and run the text that was gathered.
    unfoldable pub run_text : Scan → World → Option Error × World
    run_text s w = unless_ignored (r.text_fn s.sb (echo_text s w))

    abbrev pub unless_error :
        Option Error × World → (World → Option Error × World) → Option Error × World
    unless_error (some e, w) next = (some e, w)
    unless_error (none, w) next = next w

    abbrev pub choose :
        Bool
        → (World → Option Error × World)
        → (World → Option Error × World)
        → World
        → Option Error × World
    choose true f g w = f w
    choose false f g w = g w

    -- The loop of readTextBasic, and what is left behind it.
    unfoldable pub scan_lines : List Text → Scan → World → Option Error × World
    scan_lines [] s = choose (is_blank_text s.sb) (λ w. (none, w)) (run_text s)
    scan_lines (p ∷ ps) s =
        let s₁ = after_line (next_line s) (end_line s.continues p s.multiline) in
        choose (is_skipped s.multiline p) (scan_lines ps (next_line s)) (
          choose s₁.multiline (scan_lines ps s₁)
            (λ w. unless_error (run_text s₁ w) (scan_lines ps (reset s₁))))

    -- OneshotShell.readTextBasic
    unfoldable pub read_text_basic : List Text → World → Option Error × World
    read_text_basic lines = scan_lines lines first_scan

  -- Shell.readTextReadline, from `sb` and `multiline` on: the text, and the lines that are left; at
  -- the end of the input, `none`.
  unfoldable pub read_text_readline :
      Bool → Text → Bool → List Text → Option (Text × Bool × List Text)
  read_text_readline continues sb multiline [] = none
  read_text_readline continues sb multiline (p ∷ ps) = elim (is_skipped multiline p) [
    | true ↦ read_text_readline continues sb multiline ps
    | false ↦
        let r = end_line continues (if multiline then p else i.trim_space p) multiline in
        elim r.end [
          | true ↦ some (sb ++ r.text, r.continues, ps)
          | false ↦ read_text_readline r.continues (sb ++ r.text) true ps
        ]
  ]

  module _ {World Error : Type 0} (r : Runner World Error) where
    -- An error is printed, unless the user cancelled; exit ends the loop.
    abbrev pub report : Error → World → World
    report e w = if r.is_user_cancelled e then w else r.print_error e w

    -- After a text was run, and after one was read, with the rounds to come.
    abbrev pub after_text : Option Error × World → (World → Option World) → Option World
    after_text (none, w) next = next w
    after_text (some e, w) next = if r.is_exit e then some w else next (report e w)

    abbrev pub run_read : Text → (World → Option World) → World → Option World
    run_read [] next w = next w
    run_read (x ∷ text) next w =
        after_text (r.text_fn (x ∷ text) (r.add_to_history (x ∷ text) w)) next

    abbrev pub after_read :
        Option (Text × Bool × List Text)
        → (Bool → List Text → World → Option World)
        → World
        → Option World
    after_read none next w = some w
    after_read (some (text, continues, rest)) next w = run_read text (next continues rest) w

    -- Shell.Start, for a number of rounds; `none` is a loop that goes on.
    unfoldable pub start : ℕ → Bool → List Text → World → Option World
    start zero continues lines w = none
    start (suc n) continues lines w =
        after_read (read_text_readline continues [] false lines) (start n) w
