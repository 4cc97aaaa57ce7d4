-- ===== src/Str/Tests.antt =====
-- The theorem on SplitByComma at a concrete text, with a trim that drops spaces.
use hazelcast_commandline_cl.Prelude.{
  ◌≡◌, refl, true, some, [], ◌∷◌, Text, codes, equal, ◌==◌, if◌then◌else◌,
}
use hazelcast_commandline_cl.Strings.Split.{split}
use hazelcast_commandline_cl.Str.{split_by_comma}
use hazelcast_commandline_cl.Str.InPlace.{kept_pieces, split_by_comma-kept_pieces}

abbrev trim : Text → Text
trim [] = []
trim (c ∷ s) = if c == b' ' then trim s else (c ∷ trim s)

trimmed : split_by_comma trim (codes "a, ,b") true ≡ some (codes "a" ∷ codes "b" ∷ [])
unfolding split_by_comma
trimmed = refl

split_by_comma-kept_pieces_example : split_by_comma trim (codes "a, ,b") true ≡ (
    if equal (codes "a, ,b") []
    then some []
    else some (kept_pieces trim true (split b',' (codes "a, ,b"))))
split_by_comma-kept_pieces_example = split_by_comma-kept_pieces trim true (codes "a, ,b")
