-- ===== src/Version.antt =====
-- internal/version.go: comparison of server versions. A version is its bytes; a panic of `mustAtoi`
-- or on an unknown operator is `none`.
pub mod Order
pub mod Check
mod Tests
use hazelcast_commandline_cl.Prelude.{
  ℕ, ◌-◌, Bool, true, false, not, Option, some, none, List, [], ◌∷◌, ◌++◌, Text, codes, equal,
  length, replicate, ltb, ◌==◌, if◌then◌else◌, ◌>>=◌, take,
}
use hazelcast_commandline_cl.Prelude.Int.{ℤ, ltb_ℤ}
use hazelcast_commandline_cl.Strings.Split.{split, contains, before_first}
use hazelcast_commandline_cl.Strings.Numbers.{parse_int}

-- The results -1, 0 and 1 of `compareVersions(left, right)`.
pub data Sign : Type 0 where
  before same after : Sign

unfoldable pub strip_suffix : Text → Bool × Text
unfolding contains before_first
strip_suffix version =
    let has_suffix = contains version b'-' in
    (has_suffix, if has_suffix then before_first b'-' version else version)

-- `strconv.Atoi`
unfoldable pub must_atoi : Text → Option ℤ
unfolding parse_int
must_atoi = parse_int 10

-- `minV` is not the longer one.
unfoldable pub equalize_versions : List Text → List Text → List Text
equalize_versions min_v max_v = min_v ++ replicate (length max_v - length min_v) (codes "0")

-- The loop over both lists of numbers: `none` inside is a tie.
unfoldable pub compare_numbers : List Text → List Text → Option (Option Sign)
unfolding must_atoi
compare_numbers left [] = some none
compare_numbers [] (r ∷ right) = none
compare_numbers (l ∷ left) (r ∷ right) = do
  rn ← must_atoi r
  ln ← must_atoi l
  let rest = compare_numbers left right
  if ltb_ℤ rn ln then some (some after) else if ltb_ℤ ln rn then some (some before) else rest

-- A version with a suffix, such as 5.4-beta1, is prior to the one without.
unfoldable pub compare_suffixes : Bool → Bool → Sign
compare_suffixes true true = same
compare_suffixes true false = before
compare_suffixes false true = after
compare_suffixes false false = same

unfoldable pub compare_versions : Text → Text → Option Sign
unfolding strip_suffix split equalize_versions compare_numbers compare_suffixes
compare_versions left right = do
  let (left_has_suffix, l) = strip_suffix left
  let (right_has_suffix, r) = strip_suffix right
  let left_nums = split b'.' l
  let right_nums = split b'.' r
  let right_nums₁ =
      if ltb (length right_nums) (length left_nums)
      then equalize_versions right_nums left_nums
      else right_nums
  let left_nums₁ =
      if ltb (length left_nums) (length right_nums)
      then equalize_versions left_nums right_nums
      else left_nums
  decided ← compare_numbers left_nums₁ right_nums₁
  elim decided [ some s ↦ some s | none ↦ some (compare_suffixes left_has_suffix right_has_suffix) ]

-- The loop of `looselyEqual` over the numbers of the right version.
unfoldable pub same_numbers : List Text → List Text → Option Bool
unfolding must_atoi
same_numbers left [] = some true
same_numbers [] (r ∷ right) = none
same_numbers (l ∷ left) (r ∷ right) = do
  rn ← must_atoi r
  ln ← must_atoi l
  let rest = same_numbers left right
  if ltb_ℤ rn ln then some false else if ltb_ℤ ln rn then some false else rest

unfoldable pub loosely_equal : Text → Text → Option Bool
unfolding strip_suffix split equalize_versions same_numbers
loosely_equal left right = do
  let left_nums = split b'.' (strip_suffix left).1
  let right_nums = split b'.' (strip_suffix right).1
  let left_nums₁ =
      if ltb (length left_nums) (length right_nums)
      then equalize_versions left_nums right_nums
      else left_nums
  same_numbers left_nums₁ right_nums

-- `compareVersions(left, right) OP 0`
abbrev pub holds_sign : Text → Sign → Option Bool
holds_sign operator s =
    if equal operator (codes "=")
    then some (elim s [ same ↦ true | _ ↦ false ])
    else if equal operator (codes "!=")
    then some (elim s [ same ↦ false | _ ↦ true ])
    else if equal operator (codes ">")
    then some (elim s [ after ↦ true | _ ↦ false ])
    else if equal operator (codes ">=")
    then some (elim s [ before ↦ false | _ ↦ true ])
    else if equal operator (codes "<")
    then some (elim s [ before ↦ true | _ ↦ false ])
    else if equal operator (codes "<=")
    then some (elim s [ after ↦ false | _ ↦ true ])
    else none

abbrev pub is_comparison : Text → Bool
is_comparison operator = elim (holds_sign operator same) [ none ↦ false | some _ ↦ true ]

unfoldable pub check_version : Text → Text → Text → Option Bool
unfolding compare_versions loosely_equal
check_version left operator right =
    if equal operator (codes "~")
    then loosely_equal left right
    else if is_comparison operator
    then (compare_versions left right >>= λ s. holds_sign operator s)
    else none
