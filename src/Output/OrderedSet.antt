-- ===== src/Output/OrderedSet.antt =====
-- internal/output/ordered_set.go. `T` is a type with a Boolean equality. A Go map is the list of its
-- pairs: the code looks keys up, deletes them and counts them, and never iterates over a map.
mod Live
pub mod Refines
mod Tests
use hazelcast_commandline_cl.Prelude.{
  ℕ, suc, ◌≡◌, ◌↔◌, Bool, true, false, Option, some, none, List, [], ◌∷◌, ◌++◌, length, ◌==◌,
  if◌then◌else◌,
}

module _ {ℓ} {T : Type ℓ} (equals : T → T → Bool) where
  -- m[key]
  abbrev pub find : T → List (T × ℕ) → Option ℕ
  find item [] = none
  find item ((key, index) ∷ m) = if equals key item then some index else find item m

  -- delete(m, key)
  abbrev pub delete_key : T → List (T × ℕ) → List (T × ℕ)
  delete_key item [] = []
  delete_key item ((key, index) ∷ m) =
      if equals key item then delete_key item m else ((key, index) ∷ delete_key item m)

-- A set of indices, which only grows.
abbrev pub has_index : ℕ → List ℕ → Bool
has_index index [] = false
has_index index (i ∷ is) = if i == index then true else has_index index is

pub record OrderedSet {ℓ} (T : Type ℓ) : Type ℓ where
  pub ordered_items : List T
  pub item_set : List (T × ℕ)
  pub deleted_indices : List ℕ

abbrev pub new_ordered_set {ℓ} : {T : Type ℓ} → OrderedSet T
new_ordered_set = record { ordered_items = []; item_set = []; deleted_indices = [] }

-- The loop of `Items` from an index on.
abbrev pub items_from {ℓ} : {T : Type ℓ} → ℕ → List ℕ → List T → List T
items_from index deleted [] = []
items_from index deleted (item ∷ items) =
    if has_index index deleted
    then items_from (suc index) deleted items
    else (item ∷ items_from (suc index) deleted items)

unfoldable pub items {ℓ} : {T : Type ℓ} → OrderedSet T → List T
items s = items_from 0 s.deleted_indices s.ordered_items

unfoldable pub len {ℓ} : {T : Type ℓ} → OrderedSet T → ℕ
len s = length s.item_set

module _ {ℓ} {T : Type ℓ} (equals : T → T → Bool) where
  -- `Add` and `Delete`, once the item is looked up.
  abbrev pub add_found : T → OrderedSet T → Option ℕ → Bool × OrderedSet T
  add_found item s (some index) = (false, s)
  add_found item s none = (
    true,
    record {
      ordered_items = s.ordered_items ++ (item ∷ []);
      item_set = s.item_set ++ ((item, length s.ordered_items) ∷ []);
      deleted_indices = s.deleted_indices;
    },
  )

  abbrev pub delete_found : T → OrderedSet T → Option ℕ → Bool × OrderedSet T
  delete_found item s (some index) = (
    true,
    record {
      ordered_items = s.ordered_items;
      item_set = delete_key equals item s.item_set;
      deleted_indices = index ∷ s.deleted_indices;
    },
  )
  delete_found item s none = (false, s)

  unfoldable pub add : T → OrderedSet T → Bool × OrderedSet T
  add item s = add_found item s (find equals item s.item_set)

  unfoldable pub delete : T → OrderedSet T → Bool × OrderedSet T
  delete item s = delete_found item s (find equals item s.item_set)

  abbrev pub is_found : Option ℕ → Bool
  is_found (some index) = true
  is_found none = false

  unfoldable pub contains_item : T → OrderedSet T → Bool
  contains_item item s = is_found (find equals item s.item_set)
