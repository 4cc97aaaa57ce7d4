-- ===== src/Str.antt =====
-- internal/str/str.go: `SplitByComma`, which trims and filters the pieces in the slice that it ranges
-- over. `trim_space` is strings.TrimSpace; an index out of range is `none`.
pub mod InPlace
mod Tests
use hazelcast_commandline_cl.Prelude.{
  ℕ, zero, suc, Bool, true, false, not, ◌||◌, Option, some, none, List, [], ◌∷◌, Text, equal,
  length, take, if◌then◌else◌, ◌>>=◌,
}
use hazelcast_commandline_cl.Strings.Split.{split}

-- ls[i]
abbrev pub get_piece : List Text → ℕ → Option Text
get_piece [] i = none
get_piece (t ∷ ts) zero = some t
get_piece (t ∷ ts) (suc i) = get_piece ts i

-- ls[i] = s
abbrev pub set_piece : List Text → ℕ → Text → Option (List Text)
set_piece [] i s = none
set_piece (t ∷ ts) zero s = some (s ∷ ts)
set_piece (t ∷ ts) (suc i) s = set_piece ts i s >>= λ rest. some (t ∷ rest)

module _ (trim_space : Text → Text) where
  -- The loop at index `i`, with the number of pieces left: the slice and `idx` after it.
  unfoldable pub keep_from : Bool → ℕ → ℕ → ℕ → List Text → Option (List Text × ℕ)
  unfolding equal
  keep_from remove_empty zero i idx ls = some (ls, idx)
  keep_from remove_empty (suc n) i idx ls = get_piece ls i >>= λ piece.
      if not (equal (trim_space piece) []) || not remove_empty
      then (set_piece ls idx (trim_space piece) >>= λ ls₁.
          keep_from remove_empty n (suc i) (suc idx) ls₁)
      else keep_from remove_empty n (suc i) idx ls

  -- A nil slice is the empty list.
  unfoldable pub split_by_comma : Text → Bool → Option (List Text)
  unfolding equal split keep_from
  split_by_comma str remove_empty =
      if equal str []
      then some []
      else keep_from remove_empty (length (split b',' str)) 0 0 (split b',' str) >>= λ r.
          some (take r.1 r.0)
