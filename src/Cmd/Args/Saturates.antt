-- ===== src/Cmd/Args/Saturates.antt =====
-- The greatest number of arguments is the sum of the specifications' maxima, or `math.MaxInt`.
use hazelcast_commandline_cl.Prelude.{
  ℕ, ◌+◌, ◌≤◌, ◌≡◌, Option, some, none, List, [], ◌∷◌, Text, length, ltb, min, arith, if◌then◌else◌,
  Bool-cases, inl, inr, true, ap, sym, ◌∙◌, All, ◌↔◌,
}
use hazelcast_commandline_cl.Cmd.Args.{
  ArgSpec, ArgError, max_int, add_with_overflow, add_int, less_than_int, panic, are_valid,
  check_args, check_count,
}

pub add_with_overflow-min :
    (a b : ℕ) → a ≤ max_int → b ≤ max_int → add_with_overflow a b ≡ min (a + b) max_int
add_with_overflow-min a b ha hb = ground arith

abbrev pub sum_of_maxima : List ArgSpec → ℕ
sum_of_maxima [] = 0
sum_of_maxima (s ∷ specs) = s.max_count + sum_of_maxima specs

abbrev pub sum_of_minima : List ArgSpec → ℕ
sum_of_minima [] = 0
sum_of_minima (s ∷ specs) = s.min_count + sum_of_minima specs

-- The sum, or the greatest `int` if it is smaller.
abbrev pub saturated : ℕ → ℕ
saturated n = min n max_int

pub add_int-eq : (a b : ℕ) → a + b ≤ max_int → add_int a b ≡ a + b
add_int-eq a b h = omega (arith, h)

pub less_than_int-ltb : (count n : ℕ) → n ≤ max_int → less_than_int count n ≡ ltb count n
less_than_int-ltb count n h = ground (arith, h)

check_count-bounds :
    (specs : List ArgSpec) (count min_cnt max_cnt : ℕ)
    → All (λ s. s.max_count ≤ max_int) specs
    → min_cnt + sum_of_minima specs ≤ max_int
    → max_cnt ≤ max_int
    → min_cnt ≤ count
    → (check_count specs count min_cnt max_cnt ≡ none) ↔ (
        (min_cnt + sum_of_minima specs ≤ count)
        × (count ≤ saturated (max_cnt + sum_of_maxima specs)))
check_count-bounds [] count min_cnt max_cnt all fits top low = ground arith
check_count-bounds (s ∷ specs) count min_cnt max_cnt all fits top low =
    let sum = add_with_overflow-min max_cnt s.max_count top all.0 in
    let least = add_int-eq min_cnt s.min_count (omega (arith, fits)) in
    rw (least, less_than_int-ltb count (min_cnt + s.min_count) (omega (arith, fits)))
      (elim (Bool-cases (ltb count (min_cnt + s.min_count))) [
        | inl short ↦ rw short (λ h. cc, λ b. absurd (ground arith))
        | inr enough ↦
            let ih =
              check_count-bounds specs count (min_cnt + s.min_count)
                (add_with_overflow max_cnt s.max_count) all.1 (omega (arith, fits))
                (omega (arith, sum)) (ground arith) in
            rw enough (
              λ h. let (a, b) = ih.0 h in (omega (arith, a), omega (arith, b, sum)),
              λ b. ih.1 (omega (arith, b.0), omega (arith, b.1, sum)),
            )
      ])

-- If the maxima of the specifications are `int`s, the sum of their minima is one too, and only the
-- last one takes a range, ArgsFunc accepts the arguments exactly if there are at least the sum of the
-- minima of them, and at most the sum of the maxima, or `math.MaxInt` if that is less: the sum of the
-- maxima does not overflow.
pub check_args-bounds :
    (no_args : List Text → Option ArgError) (s : ArgSpec) (specs : List ArgSpec) (args : List Text)
    → All (λ t. t.max_count ≤ max_int) (s ∷ specs)
    → sum_of_minima (s ∷ specs) ≤ max_int
    → are_valid (s ∷ specs) ≡ true
    → (check_args no_args (s ∷ specs) args ≡ none) ↔ (
        (sum_of_minima (s ∷ specs) ≤ length args)
        × (length args ≤ saturated (sum_of_maxima (s ∷ specs))))
unfolding check_args
check_args-bounds no_args s specs args all fits valid =
    let b =
      check_count-bounds (s ∷ specs) (length args) 0 0 all (omega (arith, fits)) (omega arith)
        (omega arith) in
    (
      λ h.
          let (x, y) = b.0 (
            ap (λ v. if v then check_count (s ∷ specs) (length args) 0 0 else some panic)
              (sym valid)
            ∙ h) in
          (omega (arith, x), omega (arith, y)),
      λ h.
          ap (λ v. if v then check_count (s ∷ specs) (length args) 0 0 else some panic) valid
          ∙ b.1 (omega (arith, h.0), omega (arith, h.1)),
    )
