-- ===== src/Output/OrderedSet/Tests.antt =====
-- The theorem on the ordered set at concrete operations.
use hazelcast_commandline_cl.Prelude.{◌≡◌, refl, Bool, List, [], ◌∷◌, length, ◌==◌, ==_iff}
use hazelcast_commandline_cl.Output.OrderedSet.{
  add, delete, new_ordered_set, items, len, contains_item,
}
use hazelcast_commandline_cl.Output.OrderedSet.Live.{is_member}
use hazelcast_commandline_cl.Output.OrderedSet.Refines.{
  Operation, add_item, delete_item, apply_all, apply_all_list, apply_all-apply_all_list,
}
use Prim.Native.Nat.{ℕ}

abbrev equals : ℕ → ℕ → Bool
equals a b = a == b

-- An item that is deleted and added again goes to the end.
abbrev operations : List (Operation ℕ)
operations = add_item 4 ∷ add_item 7 ∷ add_item 4 ∷ delete_item 4 ∷ add_item 4 ∷ delete_item 9 ∷ []

items_after : items (apply_all equals operations new_ordered_set).1 ≡ 7 ∷ 4 ∷ []
unfolding items add delete
items_after = refl

apply_all-apply_all_list_example :
    ((apply_all equals operations new_ordered_set).0 ≡ (apply_all_list equals operations []).0)
    × (items (apply_all equals operations new_ordered_set).1
        ≡ (apply_all_list equals operations []).1)
    × (len (apply_all equals operations new_ordered_set).1
        ≡ length (apply_all_list equals operations []).1)
    × ((x : ℕ)
        → contains_item equals x (apply_all equals operations new_ordered_set).1
          ≡ is_member equals x (apply_all_list equals operations []).1)
apply_all-apply_all_list_example = apply_all-apply_all_list equals ==_iff operations
