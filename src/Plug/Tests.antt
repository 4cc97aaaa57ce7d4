-- ===== src/Plug/Tests.antt =====
-- The theorems on properties at a concrete stack.
use hazelcast_commandline_cl.Prelude.{ℕ, ◌≡◌, refl, some, none, List, [], ◌∷◌, Text, codes}
use hazelcast_commandline_cl.Plug.Properties.{
  Properties, new_properties, lookup, push, pop, get, all,
}
use hazelcast_commandline_cl.Plug.Properties.Scopes.{
  new_properties-IsValid, set_all, last_value, or_else, pop-set_all-push, lookup-all,
}

abbrev flags : List (Text × ℕ)
flags = (codes "format", 1) ∷ (codes "quiet", 2) ∷ (codes "format", 3) ∷ []

pop-set_all-push_example :
    (q : Properties ℕ) × (set_all flags (push new_properties) ≡ some q)
    × (pop q ≡ some new_properties)
    × ((name : Text) → get name q ≡ or_else (last_value name flags) (get name new_properties))
pop-set_all-push_example = pop-set_all-push flags new_properties new_properties-IsValid

abbrev two_maps : Properties ℕ
two_maps = record { stack = ((codes "a", 1) ∷ []) ∷ ((codes "a", 2) ∷ []) ∷ []; current = 1 }

lookup-all_example : lookup (codes "a") (all two_maps) ≡ get (codes "a") two_maps
lookup-all_example = lookup-all (codes "a") two_maps

-- Pop on the map of NewProperties is a panic.
pop_panics : pop {Value = ℕ} new_properties ≡ none
unfolding pop
pop_panics = refl
