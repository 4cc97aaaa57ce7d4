-- ===== src/Cmd/Args/Checked.antt =====
-- Once `ArgsFunc` has accepted the arguments, `makeKeywordArgs` can fail only to convert one of them.
use mathlib.Core.Path.{ap₂}
use hazelcast_commandline_cl.Prelude.{
  ℕ, zero, suc, ◌+◌, ◌-◌, ◌≤◌, ◌<◌, ◌≡◌, refl, sym, ap, ◌∙◌, subst, Bool, true, false, ◌&&◌, Option,
  some, none, List, [], ◌∷◌, Text, length, ltb, ◌==◌, All, arith, Bool-cases, ==_iff, inl, inr,
  if◌then◌else◌,
}
use hazelcast_commandline_cl.Cmd.Args.{
  ArgSpec, ArgError, ArgValue, Keywords, keywords, failed, converting, panic, max_int,
  add_with_overflow, add_int, less_than_int, are_valid, check_count, check_args, convert_arg,
  convert_slice_arg, slice_from, arg_at, end_of_args, range_arg, keyword_args_from,
  make_keyword_args,
}
use hazelcast_commandline_cl.Cmd.Args.Saturates.{sum_of_minima, add_int-eq, less_than_int-ltb}

-- Neither a missing or superfluous argument, nor a panic.
abbrev pub OnlyConverts : Keywords → Type 0
OnlyConverts (keywords kw) = Unit
OnlyConverts (failed (converting title)) = Unit
OnlyConverts (failed _) = ⊥

slice_from-some :
    (i : ℕ) (args : List Text)
    → i ≤ length args
    → (arg : List Text) × (slice_from i args ≡ some arg) × (length arg + i ≡ length args)
slice_from-some zero args h = (args, refl, omega arith)
slice_from-some (suc i) [] h = absurd (omega arith)
slice_from-some (suc i) (a ∷ args) h =
    let (arg, e, l) = slice_from-some i args (omega arith) in (arg, e, omega arith)

arg_at-some :
    (i : ℕ) (args : List Text) → i < length args → (arg : Text) × (arg_at i args ≡ some arg)
arg_at-some i [] h = absurd (omega arith)
arg_at-some zero (a ∷ args) h = (a, refl)
arg_at-some (suc i) (a ∷ args) h = arg_at-some i args (omega arith)

if-none :
    {A : Type 0} (b : Bool) (a : A) (o : Option A)
    → (if b then some a else o) ≡ none
    → (b ≡ false) × (o ≡ none)
if-none true a o h = cc
if-none false a o h = (refl, h)

else-none :
    {A : Type 0} (b : Bool) (a : A) (o : Option A)
    → (if b then o else some a) ≡ none
    → (b ≡ true) × (o ≡ none)
else-none true a o h = (refl, h)
else-none false a o h = cc

and-parts : (a b c : Bool) → (a && b && c) ≡ true → (a ≡ true) × (b ≡ true) × (c ≡ true)
and-parts a b c h = ground arith

module _ (trim_space : Text → Text) where
  end_of_args-OnlyConverts :
      (count max_cnt : ℕ) (kw : List (Text × ArgValue))
      → ltb max_cnt count ≡ false
      → OnlyConverts (end_of_args trim_space count max_cnt kw)
  end_of_args-OnlyConverts count max_cnt kw h = rw h tt

  range_arg-OnlyConverts :
      (s : ArgSpec) (arg : List Text) (count max_cnt : ℕ) (kw : List (Text × ArgValue))
      → ltb (length arg) s.min_count ≡ false
      → ltb s.max_count (length arg) ≡ false
      → ltb max_cnt count ≡ false
      → OnlyConverts (range_arg trim_space s arg count max_cnt kw)
  unfolding range_arg
  range_arg-OnlyConverts s arg count max_cnt kw few many top =
      rw (few, many) (go (convert_slice_arg trim_space arg s.type_of))
    where
      go :
          (o : Option ArgValue)
          → OnlyConverts (elim o as (λ x. Keywords) [
            | none ↦ failed (converting s.title)
            | some vs ↦ end_of_args trim_space count max_cnt ((s.key, vs) ∷ kw)
          ])
      go none = tt
      go (some vs) = end_of_args-OnlyConverts count max_cnt _ top

  last_arg-OnlyConverts :
      (s : ArgSpec) (args : List Text) (i max_cnt : ℕ) (kw : List (Text × ArgValue))
      (o : Option ArgValue)
      → ltb max_cnt (length args) ≡ false
      → OnlyConverts (elim o as (λ x. Keywords) [
        | none ↦ failed (converting s.title)
        | some v ↦ keyword_args_from trim_space [] args (suc i) max_cnt ((s.key, v) ∷ kw)
      ])
  unfolding keyword_args_from
  last_arg-OnlyConverts s args i max_cnt kw none h = tt
  last_arg-OnlyConverts s args i max_cnt kw (some v) h =
      end_of_args-OnlyConverts (length args) max_cnt _ h

  next_arg-OnlyConverts :
      (s : ArgSpec) (specs : List ArgSpec) (args : List Text) (i max_cnt : ℕ)
      (kw : List (Text × ArgValue)) (o : Option ArgValue)
      → ((kw₁ : List (Text × ArgValue))
          → OnlyConverts (keyword_args_from trim_space specs args (suc i) max_cnt kw₁))
      → OnlyConverts (elim o as (λ x. Keywords) [
        | none ↦ failed (converting s.title)
        | some v ↦ keyword_args_from trim_space specs args (suc i) max_cnt ((s.key, v) ∷ kw)
      ])
  next_arg-OnlyConverts s specs args i max_cnt kw none h = tt
  next_arg-OnlyConverts s specs args i max_cnt kw (some v) h = h _

  -- The loop at index `i`, with `i` arguments taken.
  keyword_args_from-OnlyConverts :
      (specs : List ArgSpec) (args : List Text) (i : ℕ) (kw : List (Text × ArgValue))
      → length args ≤ max_int
      → i ≤ length args
      → All (λ s. 1 ≤ s.max_count) specs
      → i + sum_of_minima specs ≤ max_int
      → are_valid specs ≡ true
      → check_count specs (length args) i i ≡ none
      → OnlyConverts (keyword_args_from trim_space specs args i i kw)
  unfolding keyword_args_from
  keyword_args_from-OnlyConverts [] args i kw size le pos fits valid check =
      end_of_args-OnlyConverts (length args) i kw (if-none (ltb i (length args)) _ _ check).0
  keyword_args_from-OnlyConverts (s ∷ []) args i kw size le pos fits valid check =
      let least = add_int-eq i s.min_count (omega (arith, fits)) in
      let (short, check₁) =
        if-none (less_than_int (length args) (add_int i s.min_count)) _ _ check in
      let enough : ltb (length args) (i + s.min_count) ≡ false =
        sym (less_than_int-ltb (length args) (i + s.min_count) (omega (arith, fits)))
        ∙ ap (less_than_int (length args)) (sym least)
        ∙ short in
      let (top, _) = if-none (ltb (add_with_overflow i s.max_count) (length args)) _ _ check₁ in
      elim (Bool-cases (ltb 0 (s.max_count - s.min_count))) [
        | inl range ↦
            let (arg, e, l) = slice_from-some i args le in
            rw (OnlyConverts, range)
              (rw (OnlyConverts, e)
                (range_arg-OnlyConverts s arg (length args) _ kw (ground arith) (ground arith) top))
        | inr one ↦
            let (arg, e) = arg_at-some i args (ground (arith, pos.0)) in
            rw (OnlyConverts, one)
              (rw (OnlyConverts, e)
                (last_arg-OnlyConverts s args i _ kw (convert_arg arg s.type_of) top))
      ]
  keyword_args_from-OnlyConverts (s ∷ t ∷ specs) args i kw size le pos fits valid check =
      let (one_min, one_max, valid₁) =
        and-parts (s.min_count == 1) (s.max_count == 1) (are_valid (t ∷ specs)) valid in
      let least = add_int-eq i s.min_count (omega (arith, fits)) in
      let (short, check₁) =
        if-none (less_than_int (length args) (add_int i s.min_count)) _ _ check in
      let enough : ltb (length args) (i + s.min_count) ≡ false =
        sym (less_than_int-ltb (length args) (i + s.min_count) (omega (arith, fits)))
        ∙ ap (less_than_int (length args)) (sym least)
        ∙ short in
      let one_low : s.min_count ≡ 1 = (==_iff s.min_count 1).0 one_min in
      let one_high : s.max_count ≡ 1 = (==_iff s.max_count 1).0 one_max in
      let room : suc i ≤ length args = ground (arith, one_low) in
      let (arg, e) = arg_at-some i args room in
      let low : add_int i s.min_count ≡ suc i = least ∙ omega (arith, one_low) in
      let high : add_with_overflow i s.max_count ≡ suc i = ground (arith, one_high) in
      let no_range : ltb 0 (s.max_count - s.min_count) ≡ false =
        ground (arith, one_low, one_high) in
      let check₂ : check_count (t ∷ specs) (length args) (suc i) (suc i) ≡ none =
        sym (ap₂ (check_count (t ∷ specs) (length args)) low high) ∙ check₁ in
      rw (OnlyConverts, no_range)
        (rw (OnlyConverts, e)
          (next_arg-OnlyConverts s (t ∷ specs) args i _ kw (convert_arg arg s.type_of) (λ kw₁.
            subst (λ m. OnlyConverts (keyword_args_from trim_space (t ∷ specs) args (suc i) m kw₁))
              (sym high)
              (keyword_args_from-OnlyConverts (t ∷ specs) args (suc i) kw₁ size room pos.1
                (omega (arith, fits, one_low)) valid₁ check₂))))

  -- If every specification takes an argument or more, the sum of the minima and the number of the
  -- arguments are `int`s, and `ArgsFunc` accepts the arguments, then `makeKeywordArgs` gives the values,
  -- or fails to convert one: it neither panics nor finds an argument missing or superfluous, as its
  -- comments say.
  pub make_keyword_args-OnlyConverts :
      (no_args : List Text → Option ArgError) (specs : List ArgSpec) (args : List Text)
      → ((rest : List Text) → no_args rest ≡ none → rest ≡ [])
      → All (λ s. 1 ≤ s.max_count) specs
      → sum_of_minima specs ≤ max_int
      → length args ≤ max_int
      → check_args no_args specs args ≡ none
      → OnlyConverts (make_keyword_args trim_space args specs)
  unfolding check_args make_keyword_args
  make_keyword_args-OnlyConverts no_args [] args none_left pos fits size check =
      subst (λ a. OnlyConverts (keyword_args_from trim_space [] a 0 0 []))
        (sym (none_left args check)) (end_of_args-OnlyConverts 0 0 [] refl)
  make_keyword_args-OnlyConverts no_args (s ∷ specs) args none_left pos fits size check =
      let (valid, count) = else-none (are_valid (s ∷ specs)) panic _ check in
      keyword_args_from-OnlyConverts (s ∷ specs) args 0 [] size (omega arith) pos
        (omega (arith, fits)) valid count
