-- ===== src/Cmd/Args.antt =====
-- clc/cmd/command_context.go: the argument specifications and `ArgsFunc`; clc/cmd/exec_context.go:
-- `makeKeywordArgs`. The numbers of a specification are not negative; `int` has 64 bits. The sum of
-- the minima, which wraps, is its bit pattern.
pub mod Checked
pub mod Saturates
use hazelcast_commandline_cl.Prelude.{
  ℕ, zero, suc, ◌+◌, ◌-◌, ◌%◌, ◌^◌, Bool, true, false, ◌&&◌, Option, some, none, List, [], ◌∷◌,
  ◌++◌, Text, length, drop, ltb, leb, ◌==◌, if◌then◌else◌, ◌>>=◌,
}
use hazelcast_commandline_cl.Prelude.Int.{ℤ}
use hazelcast_commandline_cl.Strings.Split.{contains, before_first}
use hazelcast_commandline_cl.Strings.Numbers.{parse_int}

pub data ArgType : Type 0 where
  none_type string string_slice int64 int64_slice key_value_slice : ArgType

pub record ArgSpec : Type 0 where
  pub key : Text
  pub title : Text
  pub type_of : ArgType
  pub min_count : ℕ
  pub max_count : ℕ

-- `math.MaxInt`
abbrev pub max_int : ℕ
max_int = 2 ^ 63 - 1

-- `addWithOverflow`
abbrev pub add_with_overflow : ℕ → ℕ → ℕ
add_with_overflow a b = if ltb (max_int - b) a then max_int else a + b

-- `AddStringArg` and `AddInt64Arg`
abbrev pub add_one_arg : ArgType → Text → Text → List ArgSpec → List ArgSpec
add_one_arg type key title specs =
    specs
    ++ (record { key = key; title = title; type_of = type; min_count = 1; max_count = 1 } ∷ [])

-- `AddStringSliceArg` and `AddKeyValueSliceArg`; `none` is a panic.
abbrev pub add_slice_arg : ArgType → Text → Text → ℕ → ℕ → List ArgSpec → Option (List ArgSpec)
add_slice_arg type key title min_count max_count specs =
    if ltb max_count min_count
    then none
    else some (
        specs
        ++ (record {
          key = key;
          title = title;
          type_of = type;
          min_count = min_count;
          max_count = max_count;
        }
            ∷ []))

pub data ArgError : Type 0 where
  required : Text → ArgError
  at_most at_least : ℕ → ArgError
  unexpected_arguments invalid_spec : ArgError
  converting : Text → ArgError
  panic : ArgError

-- The specifications that `ArgsFunc` does not panic on: only the last one may take a range.
abbrev pub are_valid : List ArgSpec → Bool
are_valid [] = true
are_valid (s ∷ []) = true
are_valid (s ∷ t ∷ specs) = s.min_count == 1 && s.max_count == 1 && are_valid (t ∷ specs)

-- `a + b` of two `int`s, on bit patterns
abbrev pub add_int : ℕ → ℕ → ℕ
add_int a b = (a + b) % 2 ^ 64

-- A number of arguments is less than the `int` with this bit pattern; a negative one is not greater.
abbrev pub less_than_int : ℕ → ℕ → Bool
less_than_int count bits = if ltb max_int bits then false else ltb count bits

-- The function that `ArgsFunc` returns, in its loop, for `count` arguments.
abbrev pub check_count : List ArgSpec → ℕ → ℕ → ℕ → Option ArgError
check_count [] count min_cnt max_cnt = if ltb max_cnt count then some (at_most max_cnt) else none
check_count (s ∷ specs) count min_cnt max_cnt =
    let rest =
      check_count specs count (add_int min_cnt s.min_count)
        (add_with_overflow max_cnt s.max_count) in
    if less_than_int count (add_int min_cnt s.min_count) then some (required s.title) else rest

-- `ArgsFunc`, applied to the arguments; `no_args` is cobra.NoArgs.
unfoldable pub check_args :
    (List Text → Option ArgError) → List ArgSpec → List Text → Option ArgError
check_args no_args [] args = no_args args
check_args no_args (s ∷ specs) args =
    if are_valid (s ∷ specs) then check_count (s ∷ specs) (length args) 0 0 else some panic

pub data ArgValue : Type 0 where
  string_value : Text → ArgValue
  int64_value : ℤ → ArgValue
  strings_value : List Text → ArgValue
  int64s_value : List ℤ → ArgValue
  key_values_value : List (Text × Text) → ArgValue

unfoldable pub convert_arg : Text → ArgType → Option ArgValue
unfolding parse_int
convert_arg value string = some (string_value value)
convert_arg value int64 = parse_int 10 value >>= λ v. some (int64_value v)
convert_arg value _ = none

abbrev pub int64s_of : List Text → Option (List ℤ)
int64s_of [] = some []
int64s_of (v ∷ values) = parse_int 10 v >>= λ i. int64s_of values >>= λ is. some (i ∷ is)

-- The text behind the first occurrence of a byte that is there.
abbrev pub after_byte : ℕ → Text → Text
after_byte sep [] = []
after_byte sep (c ∷ s) = if c == sep then s else after_byte sep s

module _ (trim_space : Text → Text) where
  -- str.ParseKeyValue
  unfoldable pub parse_key_value : Text → Text × Text
  unfolding contains before_first
  parse_key_value s =
      if contains s b'='
      then (trim_space (before_first b'=' s), trim_space (after_byte b'=' s))
      else ([], [])

  -- A pair with a blank key leaves the zero value in its place.
  abbrev pub key_value_of : Text × Text → Text × Text
  key_value_of ([], v) = ([], [])
  key_value_of (c ∷ k, v) = (c ∷ k, v)

  unfoldable pub key_values_of : List Text → List (Text × Text)
  unfolding parse_key_value
  key_values_of [] = []
  key_values_of (kv ∷ values) = key_value_of (parse_key_value kv) ∷ key_values_of values

  unfoldable pub convert_slice_arg : List Text → ArgType → Option ArgValue
  unfolding key_values_of
  convert_slice_arg values string_slice = some (strings_value values)
  convert_slice_arg values int64_slice = int64s_of values >>= λ is. some (int64s_value is)
  convert_slice_arg values key_value_slice = some (key_values_value (key_values_of values))
  convert_slice_arg values _ = none

-- values[i:] and values[i]; `none` is a panic.
abbrev pub slice_from : ℕ → List Text → Option (List Text)
slice_from zero values = some values
slice_from (suc i) [] = none
slice_from (suc i) (v ∷ values) = slice_from i values

abbrev pub arg_at : ℕ → List Text → Option Text
arg_at i [] = none
arg_at zero (v ∷ values) = some v
arg_at (suc i) (v ∷ values) = arg_at i values

pub data Keywords : Type 0 where
  keywords : List (Text × ArgValue) → Keywords
  failed : ArgError → Keywords

module _ (trim_space : Text → Text) where
  -- After the loop.
  abbrev pub end_of_args : ℕ → ℕ → List (Text × ArgValue) → Keywords
  end_of_args count max_cnt kw =
      if ltb max_cnt count then failed unexpected_arguments else keywords kw

  -- The last specification, with a range, on the arguments from its place on.
  unfoldable pub range_arg : ArgSpec → List Text → ℕ → ℕ → List (Text × ArgValue) → Keywords
  unfolding convert_slice_arg
  range_arg s arg count max_cnt kw =
      if ltb (length arg) s.min_count
      then failed (at_least s.min_count)
      else if ltb s.max_count (length arg)
      then failed (at_most s.max_count)
      else elim (convert_slice_arg trim_space arg s.type_of) [
        | none ↦ failed (converting s.title)
        | some vs ↦ end_of_args count max_cnt ((s.key, vs) ∷ kw)
      ]

  -- The loop of `makeKeywordArgs` from index `i` on.
  unfoldable pub keyword_args_from :
      List ArgSpec → List Text → ℕ → ℕ → List (Text × ArgValue) → Keywords
  unfolding convert_arg range_arg
  keyword_args_from [] args i max_cnt kw = end_of_args (length args) max_cnt kw
  keyword_args_from (s ∷ specs) args i max_cnt kw =
      let max_cnt₁ = add_with_overflow max_cnt s.max_count in
      elim (ltb 0 (s.max_count - s.min_count)) [
        | true ↦ elim specs [
          | [] ↦ elim (slice_from i args) [
            | none ↦ failed panic
            | some arg ↦ range_arg s arg (length args) max_cnt₁ kw
          ]
          | t ∷ rest ↦ failed invalid_spec
        ]
        | false ↦ elim (arg_at i args) [
          | none ↦ failed (required s.title)
          | some arg ↦ elim (convert_arg arg s.type_of) [
            | none ↦ failed (converting s.title)
            | some v ↦ keyword_args_from specs args (suc i) max_cnt₁ ((s.key, v) ∷ kw)
          ]
        ]
      ]

  -- makeKeywordArgs
  unfoldable pub make_keyword_args : List Text → List ArgSpec → Keywords
  unfolding keyword_args_from
  make_keyword_args args specs = keyword_args_from specs args 0 0 []
