-- ===== src/Version/Tests.antt =====
-- The theorems on versions at concrete versions.
use hazelcast_commandline_cl.Prelude.{◌≡◌, refl, some, [], ◌∷◌, codes}
use hazelcast_commandline_cl.Prelude.Int.{pos}
use hazelcast_commandline_cl.Strings.Split.{split}
use hazelcast_commandline_cl.Version.{
  before, same, strip_suffix, must_atoi, compare_versions, check_version,
}
use hazelcast_commandline_cl.Version.Order.{
  numbers, order_numbers, sign_of, rank, compare_versions-order_numbers,
}
use hazelcast_commandline_cl.Version.Check.{
  check_version-swap, loosely_equal-begins_with, OneHolds, begins_with,
}

beta_numbers : numbers (codes "5.4-beta1") ≡ some (pos 5 ∷ pos 4 ∷ [])
unfolding split strip_suffix must_atoi
beta_numbers = refl

patch_numbers : numbers (codes "5.4.0") ≡ some (pos 5 ∷ pos 4 ∷ pos 0 ∷ [])
unfolding split strip_suffix must_atoi
patch_numbers = refl

compare_versions-order_numbers_example :
    compare_versions (codes "5.4-beta1") (codes "5.4.0")
    ≡ some (
        order_numbers
          (pos 5 ∷ pos 4 ∷ [])
          (pos 5 ∷ pos 4 ∷ pos 0 ∷ [])
          (sign_of (rank (codes "5.4-beta1")) (rank (codes "5.4.0")) same))
compare_versions-order_numbers_example =
    compare_versions-order_numbers (codes "5.4-beta1") (codes "5.4.0") _ _ beta_numbers
      patch_numbers

beta_before : compare_versions (codes "5.4-beta1") (codes "5.4.0") ≡ some before
unfolding compare_versions
beta_before = refl

check_version-swap_example :
    (check_version (codes "5.4-beta1") (codes "<") (codes "5.4.0")
      ≡ check_version (codes "5.4.0") (codes ">") (codes "5.4-beta1"))
    × (check_version (codes "5.4-beta1") (codes "<=") (codes "5.4.0")
        ≡ check_version (codes "5.4.0") (codes ">=") (codes "5.4-beta1"))
    × (check_version (codes "5.4-beta1") (codes "=") (codes "5.4.0")
        ≡ check_version (codes "5.4.0") (codes "=") (codes "5.4-beta1"))
    × (check_version (codes "5.4-beta1") (codes "!=") (codes "5.4.0")
        ≡ check_version (codes "5.4.0") (codes "!=") (codes "5.4-beta1"))
    × OneHolds (codes "5.4-beta1") (codes "5.4.0")
check_version-swap_example =
    check_version-swap (codes "5.4-beta1") (codes "5.4.0") _ _ beta_numbers patch_numbers

loosely_equal-begins_with_example :
    check_version (codes "5.4-beta1") (codes "~") (codes "5.4.0")
    ≡ some (begins_with (pos 5 ∷ pos 4 ∷ []) (pos 5 ∷ pos 4 ∷ pos 0 ∷ []))
loosely_equal-begins_with_example =
    loosely_equal-begins_with (codes "5.4-beta1") (codes "5.4.0") _ _ beta_numbers patch_numbers
