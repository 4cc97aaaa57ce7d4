-- ===== src/Jobs/Ids.antt =====
-- base/commands/job/common.go: `idToString` and `stringToID`. An identifier is a signed number; an
-- index out of range of the buffer is `none`.
mod Fill
mod Digits
pub mod RoundTrip
use hazelcast_commandline_cl.Prelude.{
  ℕ, zero, suc, ◌+◌, ◌-◌, ◌/◌, ◌%◌, Bool, true, false, Option, some, none, List, [], ◌∷◌, ◌++◌,
  Text, codes, ltb, ◌==◌, ◌||◌, if◌then◌else◌, ◌>>=◌,
}
use hazelcast_commandline_cl.Prelude.Int.{ℤ, pos, negsuc}
use hazelcast_commandline_cl.Strings.Numbers.{parse_int, hex_reversed}

-- `strconv.FormatInt(id, 16)` from its last byte on, as the loop reads it.
abbrev pub hex_from_last : ℤ → Text
hex_from_last (pos n) = hex_reversed n
hex_from_last (negsuc n) = hex_reversed (suc n) ++ (b'-' ∷ [])

-- buf[j] = c
abbrev pub set_byte : Text → ℕ → ℕ → Option Text
set_byte [] j c = none
set_byte (b ∷ buf) zero c = some (c ∷ buf)
set_byte (b ∷ buf) (suc j) c = set_byte buf j c >>= λ rest. some (b ∷ rest)

-- `j--`, twice behind a dash; `none` is -1.
abbrev pub next_index : ℕ → Option ℕ
next_index j =
    if j == 15 || j == 10 || j == 5 then some (j - 2) else if j == 0 then none else some (j - 1)

-- The loop of `idToString` over the bytes, from the last one.
unfoldable pub fill : Option ℕ → Text → Text → Option Text
fill j buf [] = some buf
fill none buf (c ∷ hex) = none
fill (some j) buf (c ∷ hex) = set_byte buf j c >>= λ buf₁. fill (next_index j) buf₁ hex

unfoldable pub id_to_string : ℤ → Option Text
unfolding fill
id_to_string id = fill (some 18) (codes "0000-0000-0000-0000") (hex_from_last id)

-- strings.Replace(s, "-", "", -1)
unfoldable pub without_dashes : Text → Text
without_dashes [] = []
without_dashes (c ∷ s) = let rest = without_dashes s in if c == b'-' then rest else (c ∷ rest)

-- The second try of `stringToID`, after an error of the first.
abbrev pub or_hex : Text → Option ℤ → Option ℤ
or_hex s (some i) = some i
or_hex s none = parse_int 16 (without_dashes s)

-- `none` is an error.
unfoldable pub string_to_id : Text → Option ℤ
string_to_id s = or_hex s (parse_int 10 s)
