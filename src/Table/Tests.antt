-- ===== src/Table/Tests.antt =====
-- The theorem on lines at a concrete text.
use hazelcast_commandline_cl.Prelude.{
  ◌≡◌, ◌≤◌, refl, some, List, [], ◌∷◌, Text, codes, length, All, min,
}
use hazelcast_commandline_cl.Prelude.Int.{pos}
use hazelcast_commandline_cl.Table.{split_lines}
use hazelcast_commandline_cl.Table.Lines.{concat, without_breaks, split_lines-concat}

abbrev cell : Text
cell = 97 ∷ 98 ∷ 99 ∷ 10 ∷ 100 ∷ []

two_wide : split_lines cell (pos 2) ≡ some (codes "ab" ∷ codes "c" ∷ codes "d" ∷ [])
unfolding split_lines
two_wide = refl

split_lines-concat_example :
    (lines : List Text) × (split_lines cell (pos 2) ≡ some lines)
    × All (λ l. length l ≤ min 2 65535) lines
    × (concat lines ≡ without_breaks cell)
split_lines-concat_example = split_lines-concat cell 1
