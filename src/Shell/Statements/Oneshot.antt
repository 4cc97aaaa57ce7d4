-- ===== src/Shell/Statements/Oneshot.antt =====
-- The oneshot shell runs all texts, and the two shells agree.
use hazelcast_commandline_cl.Prelude.{
  ◌≡◌, refl, sym, ap, ◌∙◌, Bool, true, false, not, Option, some, none, List, [], ◌∷◌, ◌++◌, Text,
  if◌then◌else◌, Bool-cases, inl, inr,
}
use hazelcast_commandline_cl.Shell.Reading.{
  Input, Runner, end_line, is_skipped, is_blank_text, Scan, after_line, next_line, reset,
  first_scan, unless_ignored, run_text, unless_error, choose, scan_lines, read_text_basic,
}
use hazelcast_commandline_cl.Shell.Statements.{Texts, cons_text, texts_in, with_unended, statements}

module _ (i : Input) where
  with_unended-cons_text :
      (text : Text) (ts : Texts i) → with_unended i (cons_text i text ts) ≡ text ∷ with_unended i ts
  with_unended-cons_text text ts = go (is_blank_text ts.unended)
    where
      go :
          (b : Bool)
          → (if b then text ∷ ts.ended else (text ∷ ts.ended) ++ (ts.unended ∷ []))
            ≡ text ∷ (if b then ts.ended else ts.ended ++ (ts.unended ∷ []))
      go true = refl
      go false = refl

  abbrev texts_from : Bool → Text → Bool → List Text → Texts i
  texts_from = texts_in i (λ p. p)

  -- The texts in lines of which the first is not skipped, and is not changed.
  texts_in-skipped :
      (first : Text → Text) (continues : Bool) (sb : Text) (multiline : Bool) (p : Text)
      (ps : List Text)
      → is_skipped i multiline p ≡ true
      → texts_in i first continues sb multiline (p ∷ ps)
        ≡ texts_in i first continues sb multiline ps
  unfolding texts_in
  texts_in-skipped first continues sb multiline p ps skipped = rw (skipped, texts_in)

  texts_in-ended :
      (first : Text → Text) (continues : Bool) (sb : Text) (multiline : Bool) (p : Text)
      (ps : List Text)
      → first p ≡ p
      → is_skipped i multiline p ≡ false
      → (end_line i continues p multiline).end ≡ true
      → texts_in i first continues sb multiline (p ∷ ps)
        ≡ cons_text i
            (sb ++ (end_line i continues p multiline).text)
            (texts_in i first (end_line i continues p multiline).continues [] false ps)
  unfolding texts_in
  texts_in-ended first continues sb true p ps fixed read ends = rw (read, texts_in) (rw ends)
  texts_in-ended first continues sb false p ps fixed read ends =
      rw (read, texts_in)
        (rw (fixed, texts_in)
          (rw ends (
            ap
              (λ q.
                cons_text i (sb ++ (end_line i continues q false).text)
                  (texts_in i first (end_line i continues q false).continues [] false ps))
              fixed)))

  texts_in-goes_on :
      (first : Text → Text) (continues : Bool) (sb : Text) (multiline : Bool) (p : Text)
      (ps : List Text)
      → first p ≡ p
      → is_skipped i multiline p ≡ false
      → (end_line i continues p multiline).end ≡ false
      → texts_in i first continues sb multiline (p ∷ ps)
        ≡ texts_in i first
            (end_line i continues p multiline).continues
            (sb ++ (end_line i continues p multiline).text)
            true
            ps
  unfolding texts_in
  texts_in-goes_on first continues sb true p ps fixed read goes_on =
      rw (read, texts_in) (rw goes_on)
  texts_in-goes_on first continues sb false p ps fixed read goes_on =
      rw (read, texts_in)
        (rw (fixed, texts_in)
          (rw goes_on (
            ap
              (λ q.
                texts_in i first (end_line i continues q false).continues
                  (sb ++ (end_line i continues q false).text) true ps)
              fixed)))

  module _ {World Error : Type 0} (r : Runner World Error) where
    -- The texts are run in their order, until an error that is not ignored.
    abbrev pub run_until_error : List Text → World → Option Error × World
    run_until_error [] w = (none, w)
    run_until_error (text ∷ texts) w =
        unless_error i r (unless_ignored i r (r.text_fn text w)) (run_until_error texts)

    unless_error-next :
        (o : Option Error × World) (next next' : World → Option Error × World)
        → ((w : World) → next w ≡ next' w)
        → unless_error i r o next ≡ unless_error i r o next'
    unless_error-next (none, w) next next' h = h w
    unless_error-next (some e, w) next next' h = refl

    unless_error-last : (o : Option Error × World) → o ≡ unless_error i r o (λ w. (none, w))
    unless_error-last (none, w) = refl
    unless_error-last (some e, w) = refl

    run_text-quiet :
        (s : Scan i) (w : World)
        → r.echo ≡ false
        → run_text i r s w ≡ unless_ignored i r (r.text_fn s.sb w)
    unfolding run_text
    run_text-quiet s w quiet = rw quiet

    abbrev Runs : List Text → Type 0
    Runs lines =
        (s : Scan i) (w : World)
        → scan_lines i r lines s w
          ≡ run_until_error (with_unended i (texts_from s.continues s.sb s.multiline lines)) w

    scan_lines-Runs : (lines : List Text) → r.echo ≡ false → Runs lines
    unfolding scan_lines texts_in
    scan_lines-Runs [] quiet s w = elim (Bool-cases (is_blank_text s.sb)) [
      | inl blank ↦ rw (blank, texts_in, choose)
      | inr text ↦
          rw (text, texts_in, choose)
            (run_text-quiet s w quiet ∙ unless_error-last (unless_ignored i r (r.text_fn s.sb w)))
    ]
    scan_lines-Runs (p ∷ ps) quiet s w =
        let s₁ = after_line i (next_line i s) (end_line i s.continues p s.multiline) in
        let on_end =
          λ (w₁ : World). unless_error i r (run_text i r s₁ w₁) (scan_lines i r ps (reset i s₁)) in
        let ended_after = λ (multiline : Bool) (w₁ : World).
          run_until_error (with_unended i (texts_from s₁.continues [] multiline ps)) w₁ in
        let on_line = choose i r s₁.multiline (scan_lines i r ps s₁) on_end in
        elim (Bool-cases (is_skipped i s.multiline p)) [
          | inl skipped ↦
              ap (λ b. choose i r b (scan_lines i r ps (next_line i s)) on_line w) skipped
              ∙ scan_lines-Runs ps quiet (next_line i s) w
              ∙ ap (λ ts. run_until_error (with_unended i ts) w)
                  (sym (texts_in-skipped (λ q. q) s.continues s.sb s.multiline p ps skipped))
          | inr read ↦
              ap (λ b. choose i r b (scan_lines i r ps (next_line i s)) on_line w) read
              ∙ elim (Bool-cases (end_line i s.continues p s.multiline).end) [
                | inl ends ↦
                    ap (λ b. choose i r (not b) (scan_lines i r ps s₁) on_end w) ends
                    ∙ ap (λ o. unless_error i r o (scan_lines i r ps (reset i s₁)))
                        (run_text-quiet s₁ w quiet)
                    ∙ unless_error-next (unless_ignored i r (r.text_fn s₁.sb w))
                        (scan_lines i r ps (reset i s₁)) (ended_after false)
                        (λ w₁.
                          scan_lines-Runs ps quiet (reset i s₁) w₁
                          ∙ ap (λ b. ended_after (not b) w₁) ends)
                    ∙ ap (λ l. run_until_error l w)
                        (sym (
                          ap (with_unended i) (
                            texts_in-ended (λ q. q) s.continues s.sb s.multiline p ps refl read
                              ends)
                          ∙ with_unended-cons_text s₁.sb (texts_from s₁.continues [] false ps)))
                | inr goes_on ↦
                    ap (λ b. choose i r (not b) (scan_lines i r ps s₁) on_end w) goes_on
                    ∙ scan_lines-Runs ps quiet s₁ w
                    ∙ ap
                        (λ b.
                          run_until_error
                            (with_unended i (texts_from s₁.continues s₁.sb (not b) ps)) w)
                        goes_on
                    ∙ ap (λ ts. run_until_error (with_unended i ts) w)
                        (sym (
                          texts_in-goes_on (λ q. q) s.continues s.sb s.multiline p ps refl read
                            goes_on))
              ]
        ]

    -- With the echo off, the oneshot shell has run, in their order, the texts that the lines hold, and
    -- one that is not ended if it is not blank, until the first error that is not ignored; that error
    -- is its result.
    pub read_text_basic-run_until_error :
        (lines : List Text) (w : World)
        → r.echo ≡ false
        → read_text_basic i r lines w ≡ run_until_error (statements i lines) w
    unfolding read_text_basic
    read_text_basic-run_until_error lines w quiet = scan_lines-Runs lines quiet (first_scan i) w
