-- ===== src/Shell/Statements/Interactive.antt =====
-- The interactive shell runs the texts that are not blank.
use hazelcast_commandline_cl.Prelude.{
  ℕ, zero, suc, ◌<◌, ◌≡◌, refl, Bool, true, false, Option, some, none, List, [], ◌∷◌, ◌++◌, Text,
  length, if◌then◌else◌, Bool-cases, inl, inr, arith,
}
use hazelcast_commandline_cl.Shell.Reading.{
  Input, Runner, end_line, is_skipped, read_text_readline, after_read, start,
}
use hazelcast_commandline_cl.Shell.Statements.{
  Texts, texts_in, filled, run_each, run_read-keep_text,
}

module _ (i : Input) where
  -- What one read leaves of the texts in the lines.
  abbrev Follows : Option (Text × Bool × List Text) → Texts i → List Text → Type 0
  Follows none ts lines = ts.ended ≡ []
  Follows (some (text, continues, rest)) ts lines =
      (ts.ended ≡ text ∷ (texts_in i i.trim_space continues [] false rest).ended)
      × (length rest < length lines)

  Follows-longer :
      (o : Option (Text × Bool × List Text)) (ts : Texts i) (p : Text) (lines : List Text)
      → Follows o ts lines
      → Follows o ts (p ∷ lines)
  Follows-longer none ts p lines h = h
  Follows-longer (some (text, continues, rest)) ts p lines h = (h.0, omega (arith, h.1))

  read_text_readline-Follows :
      (continues : Bool) (sb : Text) (multiline : Bool) (lines : List Text)
      → Follows
          (read_text_readline i continues sb multiline lines)
          (texts_in i i.trim_space continues sb multiline lines)
          lines
  unfolding read_text_readline texts_in
  read_text_readline-Follows continues sb multiline [] = refl
  read_text_readline-Follows continues sb multiline (p ∷ ps) =
      elim (Bool-cases (is_skipped i multiline p)) [
        | inl skipped ↦
            rw (skipped, Follows, texts_in)
              (Follows-longer _ _ p ps (read_text_readline-Follows continues sb multiline ps))
        | inr read ↦
            let r = end_line i continues (if multiline then p else i.trim_space p) multiline in
            elim (Bool-cases r.end) [
              | inl ends ↦
                  rw (read, Follows, texts_in) (rw (ends, Follows, texts_in) (refl, omega arith))
              | inr goes_on ↦
                  rw (read, Follows, texts_in)
                    (rw (goes_on, Follows, texts_in)
                      (Follows-longer _ _ p ps
                        (read_text_readline-Follows r.continues (sb ++ r.text) true ps)))
            ]
      ]

  module _ {World Error : Type 0} (r : Runner World Error) where
    abbrev Runs : (Bool → List Text → World → Option World) → ℕ → Type 0
    Runs next n =
        (continues : Bool) (lines : List Text) (w : World)
        → length lines < n
        → next continues lines w
          ≡ run_each i r (filled i (texts_in i i.trim_space continues [] false lines).ended) w

    after_read-Runs :
        (n : ℕ) (next : Bool → List Text → World → Option World) (lines : List Text) (w : World)
        (o : Option (Text × Bool × List Text)) (ts : Texts i)
        → Runs next n
        → Follows o ts lines
        → length lines < suc n
        → after_read i r o next w ≡ run_each i r (filled i ts.ended) w
    after_read-Runs n next lines w none ts ih h short = rw h
    after_read-Runs n next lines w (some (text, continues, rest)) ts ih h short = rw h.0 (
        run_read-keep_text i r text _ (next continues rest)
          (λ w₁. ih continues rest w₁ (omega (arith, h.1, short))) w)

    -- When it has more rounds than there are lines, the loop of the interactive shell ends with the
    -- input, or with a text that exits: it has run, in their order, the texts that the lines hold,
    -- without those that are blank and one that is not ended.
    pub start-run_each :
        (n : ℕ) (continues : Bool) (lines : List Text) (w : World)
        → length lines < n
        → start i r n continues lines w
          ≡ run_each i r (filled i (texts_in i i.trim_space continues [] false lines).ended) w
    unfolding start
    start-run_each zero continues lines w short = ground arith
    start-run_each (suc n) continues lines w short =
        after_read-Runs n (start i r n) lines w _ _ (start-run_each n)
          (read_text_readline-Follows continues [] false lines) short
