-- ===== src/Cmd/Tests.antt =====
-- The theorems on arguments at the specifications of a command with a key and any number of values.
use hazelcast_commandline_cl.Prelude.{
  ◌≡◌, ◌≤◌, ◌↔◌, refl, Option, some, none, List, [], ◌∷◌, Text, codes, length, arith,
}
use hazelcast_commandline_cl.Cmd.Args.{
  ArgSpec, ArgError, string, string_slice, max_int, at_most, keywords, string_value, strings_value,
  check_args, make_keyword_args, keyword_args_from, convert_arg, convert_slice_arg, range_arg,
  parse_key_value, key_values_of,
}
use hazelcast_commandline_cl.Cmd.Args.Checked.{OnlyConverts, make_keyword_args-OnlyConverts}
use hazelcast_commandline_cl.Cmd.Args.Saturates.{
  sum_of_minima, sum_of_maxima, saturated, check_args-bounds,
}

abbrev key_spec : ArgSpec
key_spec = record {
  key = codes "key";
  title = codes "key";
  type_of = string;
  min_count = 1;
  max_count = 1;
}

abbrev values_spec : ArgSpec
values_spec = record {
  key = codes "values";
  title = codes "values";
  type_of = string_slice;
  min_count = 1;
  max_count = max_int;
}

abbrev specs : List ArgSpec
specs = key_spec ∷ values_spec ∷ []

abbrev args : List Text
args = codes "k" ∷ codes "a" ∷ codes "b" ∷ []

-- cobra.NoArgs
abbrev no_args : List Text → Option ArgError
no_args [] = none
no_args (a ∷ rest) = some (at_most 0)

no_args-none : (rest : List Text) → no_args rest ≡ none → rest ≡ []
no_args-none [] h = refl
no_args-none (a ∷ rest) h = cc

accepted : check_args no_args specs args ≡ none
unfolding check_args
accepted = refl

make_keyword_args-OnlyConverts_example : OnlyConverts (make_keyword_args (λ t. t) args specs)
make_keyword_args-OnlyConverts_example =
    make_keyword_args-OnlyConverts (λ t. t) no_args specs args no_args-none
      (omega arith, (omega arith, tt)) (omega arith) (omega arith) accepted

converted :
    make_keyword_args (λ t. t) args specs
    ≡ keywords (
        (codes "values", strings_value (codes "a" ∷ codes "b" ∷ []))
        ∷ (codes "key", string_value (codes "k"))
        ∷ [])
unfolding make_keyword_args keyword_args_from convert_arg convert_slice_arg range_arg
converted = refl

check_args-bounds_example :
    (check_args no_args specs args ≡ none)
    ↔ ((sum_of_minima specs ≤ length args) × (length args ≤ saturated (sum_of_maxima specs)))
check_args-bounds_example =
    check_args-bounds no_args key_spec (values_spec ∷ []) args (omega arith, (omega arith, tt))
      (omega arith) refl

-- A pair without an equals sign is kept as the pair of two blank texts.
blank_pair :
    key_values_of (λ t. t) (codes "a=b" ∷ codes "c" ∷ []) ≡ (codes "a", codes "b") ∷ ([], []) ∷ []
unfolding key_values_of parse_key_value
blank_pair = refl

-- Where the sum of the minima is not an `int`, it wraps, and too few arguments are accepted.
abbrev wide_spec : ArgSpec
wide_spec = record {
  key = codes "values";
  title = codes "values";
  type_of = string_slice;
  min_count = max_int;
  max_count = max_int;
}

wrapped : check_args no_args (key_spec ∷ wide_spec ∷ []) (codes "k" ∷ []) ≡ none
unfolding check_args
wrapped = refl
