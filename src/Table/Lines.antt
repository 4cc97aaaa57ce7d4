-- ===== src/Table/Lines.antt =====
-- The lines of a cell hold its runes in their order, and fit the column.
use hazelcast_commandline_cl.Prelude.{
  ℕ, suc, ◌≤◌, ◌≡◌, refl, ap, ◌∙◌, true, some, List, [], ◌∷◌, ◌++◌, Text, length, ltb, leb, ◌==◌,
  if◌then◌else◌, All, min, arith, Bool-cases, inl, inr, append_assoc, length-append,
}
use hazelcast_commandline_cl.Prelude.Int.{pos}
use hazelcast_commandline_cl.Table.{split_from, split_lines}

abbrev pub concat : List Text → Text
concat [] = []
concat (t ∷ ts) = t ++ concat ts

abbrev pub without_breaks : Text → Text
without_breaks [] = []
without_breaks (r ∷ s) = if r == b'\n' then without_breaks s else (r ∷ without_breaks s)

-- The lines of `split_from` from a line that fits.
record Broken (width : ℕ) (line text : Text) (lines : List Text) : Type 0 where
  pub fit : All (λ l. length l ≤ width) lines
  pub hold : concat lines ≡ line ++ without_breaks text

split_from-Broken :
    (width : ℕ) (line text : Text)
    → 1 ≤ width
    → length line ≤ width
    → Broken width line text (split_from width line text)
unfolding split_from
split_from-Broken width [] [] w h = record { fit = tt; hold = refl }
split_from-Broken width (r ∷ line) [] w h =
    let some_left : ltb 0 (length (r ∷ line)) ≡ true = ground arith in
    rw some_left (record { fit = (h, tt); hold = refl })
split_from-Broken width line (r ∷ text) w h = elim (Bool-cases (r == b'\n')) [
  | inl break ↦
      let b = split_from-Broken width [] text w (omega arith) in
      rw break (record { fit = (h, b.fit); hold = rw break (ap (λ t. line ++ t) b.hold) })
  | inr rune ↦ elim (Bool-cases (leb width (length line))) [
    | inl full ↦
        let b = split_from-Broken width (r ∷ []) text w (omega arith) in
        rw (rune, full) (record { fit = (h, b.fit); hold = rw rune (ap (λ t. line ++ t) b.hold) })
    | inr room ↦
        let short : suc (length line) ≤ width = ground arith in
        let b =
          split_from-Broken width (line ++ (r ∷ [])) text w
            (omega (arith, length-append line (r ∷ []))) in
        rw (rune, room)
          (record {
            fit = b.fit;
            hold = rw rune (b.hold ∙ append_assoc line (r ∷ []) (without_breaks text));
          })
  ]
]

-- With a positive width, the text is split without a panic into lines that are no longer than the
-- width, nor than 65535, and that together hold all runes of the text but the line breaks, in order.
pub split_lines-concat :
    (text : Text) (n : ℕ)
    → (lines : List Text) × (split_lines text (pos (suc n)) ≡ some lines)
      × All (λ l. length l ≤ min (suc n) 65535) lines
      × (concat lines ≡ without_breaks text)
unfolding split_lines
split_lines-concat text n =
    let width = if ltb 65535 (suc n) then 65535 else suc n in
    let bound : width ≡ min (suc n) 65535 = ground arith in
    let b = split_from-Broken width [] text (ground arith) (ground arith) in
    (_, refl, rw (← bound) b.fit, b.hold)
