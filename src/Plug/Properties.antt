-- ===== src/Plug/Properties.antt =====
-- internal/plug/types.go: `Properties`, a stack of maps. The slice is a list, the bottom map first. A
-- map is a list of pairs, of which the first one with a key counts. `p.ps` is the map of `p.pss` that
-- it was last set to, so it is an index of `p.pss`. An index out of range is `none`.
pub mod Scopes
use hazelcast_commandline_cl.Prelude.{
  ℕ, zero, suc, ◌-◌, Bool, true, false, Option, some, none, List, [], ◌∷◌, ◌++◌, Text, equal,
  length, take, if◌then◌else◌, ◌==◌, ◌>>=◌,
}

abbrev pub PropMap : Type 0 → Type 0
PropMap Value = List (Text × Value)

pub record Properties (Value : Type 0) : Type 0 where
  pub stack : List (PropMap Value)
  pub current : ℕ

module _ {Value : Type 0} where
  -- ps[name]
  unfoldable pub lookup : Text → PropMap Value → Option Value
  unfolding equal
  lookup name [] = none
  lookup name ((key, v) ∷ m) = if equal key name then some v else lookup name m

  abbrev pub new_properties : Properties Value
  new_properties = record { stack = [] ∷ []; current = 0 }

  -- pss[i][name] = value
  abbrev pub put_at : ℕ → Text → Value → List (PropMap Value) → Option (List (PropMap Value))
  put_at i name value [] = none
  put_at zero name value (m ∷ stack) = some (((name, value) ∷ m) ∷ stack)
  put_at (suc i) name value (m ∷ stack) = put_at i name value stack >>= λ rest. some (m ∷ rest)

  unfoldable pub push : Properties Value → Properties Value
  push p = record { stack = p.stack ++ ([] ∷ []); current = length (p.stack ++ ([] ∷ [])) - 1 }

  -- The slice is cut before the index of its new last map is taken: with one map left, this panics.
  unfoldable pub pop : Properties Value → Option (Properties Value)
  pop p =
      if length p.stack == 0
      then some p
      else if length p.stack - 1 == 0
      then none
      else some
          (record { stack = take (length p.stack - 1) p.stack; current = length p.stack - 1 - 1 })

  unfoldable pub set : Text → Value → Properties Value → Option (Properties Value)
  set name value p = put_at p.current name value p.stack >>= λ stack₁.
      some (record { stack = stack₁; current = p.current })

  -- The loop of `Get`, from the top map down.
  unfoldable pub lookup_in : Text → List (PropMap Value) → Option Value
  unfolding lookup
  lookup_in name [] = none
  lookup_in name (m ∷ stack) = elim (lookup_in name stack) [
    | some v ↦ some v
    | none ↦ lookup name m
  ]

  unfoldable pub get : Text → Properties Value → Option Value
  unfolding lookup_in
  get name p = lookup_in name p.stack

  -- The pairs of a map are written to `m` one by one.
  abbrev pub put_all : PropMap Value → PropMap Value → PropMap Value
  put_all [] m = m
  put_all (kv ∷ kvs) m = kv ∷ put_all kvs m

  abbrev pub all_from : List (PropMap Value) → PropMap Value → PropMap Value
  all_from [] m = m
  all_from (ps ∷ stack) m = all_from stack (put_all ps m)

  unfoldable pub all : Properties Value → PropMap Value
  all p = all_from p.stack []
