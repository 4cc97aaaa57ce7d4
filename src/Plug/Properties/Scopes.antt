-- ===== src/Plug/Properties/Scopes.antt =====
-- What is set between Push and Pop is seen until the Pop, and gone after it.
use mathlib.Core.Path.{ap₂}
use hazelcast_commandline_cl.Prelude.{
  suc, ◌-◌, ◌≡◌, refl, ap, sym, ◌∙◌, Bool, true, false, Option, some, none, List, [], ◌∷◌, ◌++◌,
  Text, equal, length, take, if◌then◌else◌, ◌==◌, ◌>>=◌, arith, length-append,
}
use hazelcast_commandline_cl.Plug.Properties.{
  PropMap, Properties, lookup, new_properties, put_at, push, pop, set, lookup_in, get, put_all,
  all_from, all,
}

module _ {Value : Type 0} where
  -- There is a map, and the current one is the last.
  pub record IsValid (p : Properties Value) : Type 0 where
    pub below : List (PropMap Value)
    pub top : PropMap Value
    pub stack_is : p.stack ≡ below ++ (top ∷ [])
    pub current_is : p.current ≡ length below

  put_at-append :
      (below : List (PropMap Value)) (top : PropMap Value) (name : Text) (value : Value)
      → put_at (length below) name value (below ++ (top ∷ []))
        ≡ some (below ++ (((name, value) ∷ top) ∷ []))
  put_at-append [] top name value = refl
  put_at-append (m ∷ below) top name value = rw (put_at-append below top name value)

  take-append :
      (below : List (PropMap Value)) (rest : List (PropMap Value))
      → take (length below) (below ++ rest) ≡ below
  take-append [] rest = refl
  take-append (m ∷ below) rest = ap (◌∷◌ m) (take-append below rest)

  abbrev pub or_else : Option Value → Option Value → Option Value
  or_else (some v) b = some v
  or_else none b = b

  or_else_assoc : (a b c : Option Value) → or_else (or_else a b) c ≡ or_else a (or_else b c)
  or_else_assoc (some v) b c = refl
  or_else_assoc none b c = refl

  or_else-none : (a : Option Value) → or_else a none ≡ a
  or_else-none (some v) = refl
  or_else-none none = refl

  lookup_in-cons :
      (name : Text) (m : PropMap Value) (stack : List (PropMap Value))
      → lookup_in name (m ∷ stack) ≡ or_else (lookup_in name stack) (lookup name m)
  unfolding lookup_in
  lookup_in-cons name m stack = go (lookup_in name stack)
    where
      go :
          (o : Option Value)
          → (elim o as (λ x. Option Value) [ some v ↦ some v | none ↦ lookup name m ])
            ≡ or_else o (lookup name m)
      go (some v) = refl
      go none = refl

  lookup_in-append :
      (name : Text) (below : List (PropMap Value)) (top : PropMap Value)
      → lookup_in name (below ++ (top ∷ [])) ≡ or_else (lookup name top) (lookup_in name below)
  unfolding lookup_in
  lookup_in-append name [] top = sym (or_else-none (lookup name top))
  lookup_in-append name (m ∷ below) top =
      lookup_in-cons name m (below ++ (top ∷ []))
      ∙ ap (λ o. or_else o (lookup name m)) (lookup_in-append name below top)
      ∙ or_else_assoc (lookup name top) (lookup_in name below) (lookup name m)
      ∙ ap (or_else (lookup name top)) (sym (lookup_in-cons name m below))

  pub new_properties-IsValid : IsValid new_properties
  new_properties-IsValid = record { below = []; top = []; stack_is = refl; current_is = refl }

  -- The properties with `p`'s maps below, and a current map on top.
  abbrev above : Properties Value → PropMap Value → Properties Value
  above p top = record { stack = p.stack ++ (top ∷ []); current = length p.stack }

  push-above : (p : Properties Value) → push p ≡ above p []
  unfolding push
  push-above p =
      ap (λ n. record { stack = p.stack ++ ([] ∷ []); current = n })
        (omega (arith, length-append p.stack ([] ∷ [])))

  set-above :
      (name : Text) (value : Value) (p : Properties Value) (top : PropMap Value)
      → set name value (above p top) ≡ some (above p ((name, value) ∷ top))
  unfolding set
  set-above name value p top =
      ap (λ o. o >>= λ stack₁. some (record { stack = stack₁; current = length p.stack }))
        (put_at-append p.stack top name value)

  pop-above : (p : Properties Value) (top : PropMap Value) → IsValid p → pop (above p top) ≡ some p
  unfolding pop
  pop-above p top v =
      let long : length (p.stack ++ (top ∷ [])) ≡ suc (length p.stack) =
        omega (arith, length-append p.stack (top ∷ [])) in
      let some_below : length p.stack ≡ suc (length v.below) =
        ap length v.stack_is ∙ omega (arith, length-append v.below (v.top ∷ [])) in
      let cut : length (p.stack ++ (top ∷ [])) - 1 ≡ length p.stack = omega (arith, long) in
      let not_empty : (length (p.stack ++ (top ∷ [])) == 0) ≡ false = ground (arith, long) in
      let not_last : (length (p.stack ++ (top ∷ [])) - 1 == 0) ≡ false =
        ground (arith, long, some_below) in
      rw not_empty (
        rw not_last (
          ap₂ (λ st n. some (record { stack = st; current = n }))
            (ap (λ n. take n (p.stack ++ (top ∷ []))) cut ∙ take-append p.stack (top ∷ []))
            (omega (arith, long, some_below, v.current_is))))

  -- Several values, one after the other.
  abbrev pub set_all : List (Text × Value) → Properties Value → Option (Properties Value)
  set_all [] p = some p
  set_all ((name, value) ∷ kvs) p = set name value p >>= λ q. set_all kvs q

  -- The value that was set last for a name.
  abbrev pub last_value : Text → List (Text × Value) → Option Value
  last_value name [] = none
  last_value name ((key, value) ∷ kvs) =
      or_else (last_value name kvs) (if equal key name then some value else none)

  abbrev top_after : List (Text × Value) → PropMap Value → PropMap Value
  top_after [] top = top
  top_after (kv ∷ kvs) top = top_after kvs (kv ∷ top)

  set_all-above :
      (kvs : List (Text × Value)) (p : Properties Value) (top : PropMap Value)
      → set_all kvs (above p top) ≡ some (above p (top_after kvs top))
  set_all-above [] p top = refl
  set_all-above ((name, value) ∷ kvs) p top =
      ap (λ o. o >>= λ q. set_all kvs q) (set-above name value p top)
      ∙ set_all-above kvs p ((name, value) ∷ top)

  lookup-cons :
      (name key : Text) (value : Value) (m : PropMap Value)
      → lookup name ((key, value) ∷ m)
        ≡ or_else (if equal key name then some value else none) (lookup name m)
  unfolding lookup
  lookup-cons name key value m = go (equal key name)
    where
      go :
          (b : Bool)
          → (if b then some value else lookup name m)
            ≡ or_else (if b then some value else none) (lookup name m)
      go true = refl
      go false = refl

  lookup-top_after :
      (name : Text) (kvs : List (Text × Value)) (top : PropMap Value)
      → lookup name (top_after kvs top) ≡ or_else (last_value name kvs) (lookup name top)
  lookup-top_after name [] top = refl
  lookup-top_after name ((key, value) ∷ kvs) top =
      lookup-top_after name kvs ((key, value) ∷ top)
      ∙ ap (or_else (last_value name kvs)) (lookup-cons name key value top)
      ∙ sym (
          or_else_assoc (last_value name kvs) (if equal key name then some value else none)
            (lookup name top))

  -- In a stack with its current map on top, values that are set after a Push are found by Get, the
  -- last one of a name, and other names as before; the next Pop restores the stack that was pushed.
  pub pop-set_all-push :
      (kvs : List (Text × Value)) (p : Properties Value)
      → IsValid p
      → (q : Properties Value) × (set_all kvs (push p) ≡ some q)
        × (pop q ≡ some p)
        × ((name : Text) → get name q ≡ or_else (last_value name kvs) (get name p))
  unfolding get lookup
  pop-set_all-push kvs p v =
      let top = top_after kvs [] in
      (
        above p top,
        ap (set_all kvs) (push-above p) ∙ set_all-above kvs p [],
        pop-above p top v,
        λ name.
            lookup_in-append name p.stack top
            ∙ ap (λ o. or_else o (lookup_in name p.stack))
                (lookup-top_after name kvs [] ∙ or_else-none (last_value name kvs)),
      )

  lookup-put_all :
      (name : Text) (kvs m : PropMap Value)
      → lookup name (put_all kvs m) ≡ or_else (lookup name kvs) (lookup name m)
  unfolding lookup
  lookup-put_all name [] m = refl
  lookup-put_all name ((key, value) ∷ kvs) m =
      lookup-cons name key value (put_all kvs m)
      ∙ ap (or_else (if equal key name then some value else none)) (lookup-put_all name kvs m)
      ∙ sym (
          or_else_assoc (if equal key name then some value else none) (lookup name kvs)
            (lookup name m))
      ∙ ap (λ o. or_else o (lookup name m)) (sym (lookup-cons name key value kvs))

  lookup-all_from :
      (name : Text) (stack : List (PropMap Value)) (m : PropMap Value)
      → lookup name (all_from stack m) ≡ or_else (lookup_in name stack) (lookup name m)
  unfolding lookup_in
  lookup-all_from name [] m = refl
  lookup-all_from name (ps ∷ stack) m =
      lookup-all_from name stack (put_all ps m)
      ∙ ap (or_else (lookup_in name stack)) (lookup-put_all name ps m)
      ∙ sym (or_else_assoc (lookup_in name stack) (lookup name ps) (lookup name m))
      ∙ ap (λ o. or_else o (lookup name m)) (sym (lookup_in-cons name ps stack))

  -- The map that All makes has, for every name, the value that Get finds.
  pub lookup-all : (name : Text) (p : Properties Value) → lookup name (all p) ≡ get name p
  unfolding all get lookup
  lookup-all name p = lookup-all_from name p.stack [] ∙ or_else-none (lookup_in name p.stack)
