-- ===== src/Table.antt =====
-- internal/table/table.go: `splitLines`, which breaks the text of a cell into lines. A text is its runes.
pub mod Lines
mod Tests
use hazelcast_commandline_cl.Prelude.{
  ℕ, zero, suc, Option, some, none, List, [], ◌∷◌, ◌++◌, Text, length, ltb, leb, ◌==◌,
  if◌then◌else◌,
}
use hazelcast_commandline_cl.Prelude.Int.{ℤ, pos, negsuc}

-- The loop over the runes, with `line[:cursor]` as the line so far.
unfoldable pub split_from : ℕ → Text → Text → List Text
split_from max_width line [] = if ltb 0 (length line) then (line ∷ []) else []
split_from max_width line (r ∷ text) =
    let after_break = split_from max_width [] text in
    let after_full = split_from max_width (r ∷ []) text in
    let longer = split_from max_width (line ++ (r ∷ [])) text in
    if r == b'\n'
    then (line ∷ after_break)
    else if leb max_width (length line)
    then (line ∷ after_full)
    else longer

-- `none` is the panic on a width that is zero, or of `make` on a negative one.
unfoldable pub split_lines : Text → ℤ → Option (List Text)
unfolding split_from
split_lines text (pos zero) = none
split_lines text (pos (suc n)) =
    some (split_from (if ltb 65535 (suc n) then 65535 else suc n) [] text)
split_lines text (negsuc n) = none
