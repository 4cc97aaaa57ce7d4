-- ===== src/Shell/Statements.antt =====
-- The statements that lines hold, and that the two shells run them.
pub mod Interactive
pub mod Oneshot
use hazelcast_commandline_cl.Prelude.{
  ℕ, zero, suc, ◌+◌, ◌<◌, ◌≤◌, ◌≡◌, refl, sym, ap, ◌∙◌, subst, Bool, true, false, not, Option, some,
  none, List, [], ◌∷◌, ◌++◌, Text, All, length, if◌then◌else◌, Bool-cases, inl, inr, arith,
}
use hazelcast_commandline_cl.Shell.Reading.{
  EndLine, Input, Runner, end_line, is_skipped, is_blank_text, Scan, after_line, next_line, reset,
  first_scan, echo_text, unless_ignored, run_text, unless_error, scan_lines, read_text_basic,
  read_text_readline, report, after_text, run_read, after_read, start,
}

module _ (i : Input) where
  -- The texts that lines hold, and behind them what is gathered of one that is not ended.
  pub record Texts : Type 0 where
    pub ended : List Text
    pub unended : Text

  abbrev cons_text : Text → Texts → Texts
  cons_text text ts = record { ended = text ∷ ts.ended; unended = ts.unended }

  -- `first` is applied to the first line of each text.
  unfoldable pub texts_in : (Text → Text) → Bool → Text → Bool → List Text → Texts
  texts_in first continues sb multiline [] = record { ended = []; unended = sb }
  texts_in first continues sb multiline (p ∷ ps) = elim (is_skipped i multiline p) [
    | true ↦ texts_in first continues sb multiline ps
    | false ↦
        let r = end_line i continues (if multiline then p else first p) multiline in
        elim r.end [
          | true ↦ cons_text (sb ++ r.text) (texts_in first r.continues [] false ps)
          | false ↦ texts_in first r.continues (sb ++ r.text) true ps
        ]
  ]

  -- The texts that the oneshot shell runs of lines.
  abbrev pub with_unended : Texts → List Text
  with_unended ts = if is_blank_text ts.unended then ts.ended else ts.ended ++ (ts.unended ∷ [])

  abbrev pub statements : List Text → List Text
  statements lines = with_unended (texts_in (λ p. p) false [] false lines)

  abbrev keep_text : Text → List Text → List Text
  keep_text [] ts = ts
  keep_text (x ∷ text) ts = (x ∷ text) ∷ ts

  -- The texts that are not blank.
  abbrev pub filled : List Text → List Text
  filled [] = []
  filled (text ∷ texts) = keep_text text (filled texts)

  module _ {World Error : Type 0} (r : Runner World Error) where
    -- The texts are run in their order, until one leaves the shell.
    abbrev pub run_each : List Text → World → Option World
    run_each [] w = some w
    run_each (text ∷ texts) w =
        after_text i r (r.text_fn text (r.add_to_history text w)) (run_each texts)

    run_read-keep_text :
        (text : Text) (texts : List Text) (next : World → Option World)
        → ((w : World) → next w ≡ run_each texts w)
        → (w : World) → run_read i r text next w ≡ run_each (keep_text text texts) w
    run_read-keep_text [] texts next h w = h w
    run_read-keep_text (x ∷ text) texts next h w =
        go (r.text_fn (x ∷ text) (r.add_to_history (x ∷ text) w))
      where
        go : (o : Option Error × World) → after_text i r o next ≡ after_text i r o (run_each texts)
        go (none, w₁) = h w₁
        go (some e, w₁) = elim (Bool-cases (r.is_exit e)) [
          | inl exits ↦ rw exits
          | inr stays ↦ rw stays (h (report i r e w₁))
        ]
