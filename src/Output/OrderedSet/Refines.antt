-- ===== src/Output/OrderedSet/Refines.antt =====
-- The ordered set is the list of its items, without repetition, in the order they were added.
use hazelcast_commandline_cl.Prelude.{
  ℕ, ◌≡◌, ◌↔◌, refl, ap, sym, ◌∙◌, Bool, true, false, Option, some, none, List, [], ◌∷◌, ◌++◌,
  length, arith, length-append, length-map, if◌then◌else◌,
}
use hazelcast_commandline_cl.Output.OrderedSet.{
  OrderedSet, find, delete_key, new_ordered_set, items, len, add, delete, contains_item, add_found,
  delete_found, is_found,
}
use hazelcast_commandline_cl.Output.OrderedSet.Live.{
  live, delete_index, Below, is_member, without, keys, NoRepeat, map-live, find-live, Below-le,
  live-Ascending, delete_index-live, has_index-Below, live-append, find-is_member,
  delete_key-without, delete_key-delete_index, NoRepeat-delete_key, NoRepeat-append,
}
use mathlib.Core.Path.{ap₂}
use mathlib.Core.List.{map-append}

pub data Operation {ℓ} (T : Type ℓ) : Type ℓ where
  add_item delete_item : T → Operation T

module _ {ℓ} {T : Type ℓ} (equals : T → T → Bool) where
  abbrev pub apply : Operation T → OrderedSet T → Bool × OrderedSet T
  apply (add_item x) s = add equals x s
  apply (delete_item x) s = delete equals x s

  -- The answers of a sequence of operations, and the set after them.
  abbrev pub apply_all : List (Operation T) → OrderedSet T → List Bool × OrderedSet T
  apply_all [] s = ([], s)
  apply_all (op ∷ ops) s =
      let (answer, s₁) = apply op s in
      let (answers, s₂) = apply_all ops s₁ in (answer ∷ answers, s₂)

  -- The same on a list of items: a new item goes to the end, and a deleted one is taken out.
  abbrev pub apply_list : Operation T → List T → Bool × List T
  apply_list (add_item x) l = if is_member equals x l then (false, l) else (true, l ++ (x ∷ []))
  apply_list (delete_item x) l =
      if is_member equals x l then (true, without equals x l) else (false, l)

  abbrev pub apply_all_list : List (Operation T) → List T → List Bool × List T
  apply_all_list [] l = ([], l)
  apply_all_list (op ∷ ops) l =
      let (answer, l₁) = apply_list op l in
      let (answers, l₂) = apply_all_list ops l₁ in (answer ∷ answers, l₂)

  record IsValid (s : OrderedSet T) : Type ℓ where
    pub indexed : s.item_set ≡ live 0 s.deleted_indices s.ordered_items
    pub distinct : NoRepeat equals s.item_set
    pub below : Below (length s.ordered_items) s.deleted_indices

  items-keys : (s : OrderedSet T) → IsValid s → items s ≡ keys equals s.item_set
  unfolding items
  items-keys s v =
      sym (map-live 0 s.deleted_indices s.ordered_items) ∙ ap (keys equals) (sym v.indexed)

  -- What one operation does: the list's answer and items, and a valid set.
  record Implements (outcome : Bool × OrderedSet T) (wanted : Bool × List T) : Type ℓ where
    pub answers : outcome.0 ≡ wanted.0
    pub has_items : items outcome.1 ≡ wanted.1
    pub valid : IsValid outcome.1

  module _ (equals_iff : (a b : T) → (equals a b ≡ true) ↔ (a ≡ b)) (s : OrderedSet T)
      (v : IsValid s) where
    is_member-items : (x : T) → is_member equals x (items s) ≡ contains_item equals x s
    unfolding contains_item
    is_member-items x =
        ap (is_member equals x) (items-keys s v) ∙ find-is_member equals x s.item_set

    added-IsValid :
        (x : T)
        → find equals x s.item_set ≡ none
        → IsValid (record {
          ordered_items = s.ordered_items ++ (x ∷ []);
          item_set = s.item_set ++ ((x, length s.ordered_items) ∷ []);
          deleted_indices = s.deleted_indices;
        })
    added-IsValid x h = record {
      indexed =
          ap (λ m. m ++ ((x, length s.ordered_items) ∷ [])) v.indexed
          ∙ sym (
              live-append 0 (length s.ordered_items) s.deleted_indices s.ordered_items x
                (omega arith) (has_index-Below _ s.deleted_indices v.below));
      distinct = NoRepeat-append equals equals_iff x _ s.item_set v.distinct h;
      below =
          Below-le _ _ s.deleted_indices (omega (arith, length-append s.ordered_items (x ∷ [])))
            v.below;
    }

    deleted-IsValid :
        (x : T) (index : ℕ)
        → find equals x s.item_set ≡ some index
        → IsValid (record {
          ordered_items = s.ordered_items;
          item_set = delete_key equals x s.item_set;
          deleted_indices = index ∷ s.deleted_indices;
        })
    deleted-IsValid x index h = record {
      indexed =
          delete_key-delete_index equals equals_iff x index 0 s.item_set
            (rw v.indexed (live-Ascending 0 s.deleted_indices s.ordered_items)) v.distinct h
          ∙ ap (delete_index index) v.indexed
          ∙ sym (delete_index-live 0 index s.deleted_indices s.ordered_items);
      distinct = NoRepeat-delete_key equals equals_iff x s.item_set v.distinct;
      below = (
        omega (
          arith,
          find-live equals x index 0 s.deleted_indices s.ordered_items
              (sym (ap (find equals x) v.indexed) ∙ h),
        ),
        v.below,
      );
    }

    is_member-found :
        (x : T) (found : Option ℕ)
        → find equals x s.item_set ≡ found
        → is_member equals x (items s) ≡ is_found equals found
    unfolding contains_item
    is_member-found x found h = is_member-items x ∙ ap (is_found equals) h

    add-Implements :
        (x : T) (found : Option ℕ)
        → find equals x s.item_set ≡ found
        → Implements (add_found equals x s found) (apply_list (add_item x) (items s))
    add-Implements x none h =
        let valid₁ = added-IsValid x h in
        rw (is_member-found x none h) (record {
          answers = refl;
          has_items =
              items-keys _ valid₁
              ∙ map-append (λ e. e.0) s.item_set ((x, length s.ordered_items) ∷ [])
              ∙ ap (λ l. l ++ (x ∷ [])) (sym (items-keys s v));
          valid = valid₁;
        })
    add-Implements x (some index) h =
        rw (is_member-found x (some index) h)
          (record { answers = refl; has_items = refl; valid = v })

    delete-Implements :
        (x : T) (found : Option ℕ)
        → find equals x s.item_set ≡ found
        → Implements (delete_found equals x s found) (apply_list (delete_item x) (items s))
    delete-Implements x none h =
        rw (is_member-found x none h) (record { answers = refl; has_items = refl; valid = v })
    delete-Implements x (some index) h =
        let valid₁ = deleted-IsValid x index h in
        rw (is_member-found x (some index) h) (record {
          answers = refl;
          has_items =
              items-keys _ valid₁
              ∙ delete_key-without equals x s.item_set
              ∙ ap (without equals x) (sym (items-keys s v));
          valid = valid₁;
        })

  module _ (equals_iff : (a b : T) → (equals a b ≡ true) ↔ (a ≡ b)) where
    apply-Implements :
        (op : Operation T) (s : OrderedSet T)
        → IsValid s
        → Implements (apply op s) (apply_list op (items s))
    unfolding add delete
    apply-Implements (add_item x) s v = add-Implements equals_iff s v x _ refl
    apply-Implements (delete_item x) s v = delete-Implements equals_iff s v x _ refl

    record Agrees (outcome : List Bool × OrderedSet T) (wanted : List Bool × List T) : Type ℓ where
      pub same_answers : outcome.0 ≡ wanted.0
      pub same_items : items outcome.1 ≡ wanted.1
      pub still_valid : IsValid outcome.1

    apply_all-Agrees :
        (ops : List (Operation T)) (s : OrderedSet T)
        → IsValid s
        → Agrees (apply_all ops s) (apply_all_list ops (items s))
    apply_all-Agrees [] s v = record { same_answers = refl; same_items = refl; still_valid = v }
    apply_all-Agrees (op ∷ ops) s v =
        let first = apply-Implements op s v in
        let rest = apply_all-Agrees ops (apply op s).1 first.valid in
        record {
          same_answers =
              ap₂ (λ a more. a ∷ more) first.answers
                (rest.same_answers ∙ ap (λ l. (apply_all_list ops l).0) first.has_items);
          same_items = rest.same_items ∙ ap (λ l. (apply_all_list ops l).1) first.has_items;
          still_valid = rest.still_valid;
        }

    -- If `equals` is equality: from the empty set, any sequence of Add and Delete gives the answers
    -- of a list without repetition, and leaves the set with that list's items in their order, its
    -- length, and its members.
    pub apply_all-apply_all_list :
        (ops : List (Operation T))
        → ((apply_all ops new_ordered_set).0 ≡ (apply_all_list ops []).0)
          × (items (apply_all ops new_ordered_set).1 ≡ (apply_all_list ops []).1)
          × (len (apply_all ops new_ordered_set).1 ≡ length (apply_all_list ops []).1)
          × ((x : T)
              → contains_item equals x (apply_all ops new_ordered_set).1
                ≡ is_member equals x (apply_all_list ops []).1)
    unfolding items len
    apply_all-apply_all_list ops =
        let empty : IsValid new_ordered_set = record {
          indexed = refl;
          distinct = tt;
          below = tt;
        } in
        let all = apply_all-Agrees ops new_ordered_set empty in
        let s = (apply_all ops new_ordered_set).1 in
        (
          all.same_answers,
          all.same_items,
          sym (length-map s.item_set (λ e. e.0))
              ∙ ap length (sym (items-keys s all.still_valid) ∙ all.same_items),
          λ x.
              sym (is_member-items equals_iff s all.still_valid x)
              ∙ ap (is_member equals x) all.same_items,
        )
