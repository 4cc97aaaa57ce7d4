-- ===== src/Strings/Numbers.antt =====
-- strconv.ParseInt(s, base, 64) for the bases 10 and 16, and strconv.FormatInt(n, 16), on bytes.
use Prim.Native.Nat.{◌-◌}
use hazelcast_commandline_cl.Prelude.{
  ℕ, zero, suc, ◌+◌, ◌*◌, ◌/◌, ◌%◌, ◌^◌, ◌&&◌, Option, some, none, [], ◌∷◌, Text, ◌==◌, leb, ltb,
  if◌then◌else◌, ◌>>=◌,
}
use hazelcast_commandline_cl.Prelude.Int.{ℤ, pos, neg}

-- The value of a digit, in a base up to 36; letters of either case.
unfoldable pub digit_value : ℕ → Option ℕ
digit_value c =
    if leb b'0' c && leb c b'9'
    then some (c - b'0')
    else if leb b'a' c && leb c b'z'
    then some (c - b'a' + 10)
    else if leb b'A' c && leb c b'Z'
    then some (c - b'A' + 10)
    else none

-- `none` on a byte that is no digit of the base.
unfoldable pub digits : ℕ → ℕ → Text → Option ℕ
unfolding digit_value
digits base n [] = some n
digits base n (c ∷ s) =
    digit_value c >>= λ d. if ltb d base then digits base (n * base + d) s else none

-- ParseUint without the bound: at least one digit.
unfoldable pub natural : ℕ → Text → Option ℕ
unfolding digits
natural base [] = none
natural base (c ∷ s) = digits base 0 (c ∷ s)

-- An optional sign, digits, and a value that fits an int64.
unfoldable pub parse_int : ℕ → Text → Option ℤ
unfolding natural
parse_int base [] = none
parse_int base (c ∷ s) =
    if c == b'-'
    then (natural base s >>= λ n. if leb n (2 ^ 63) then some (neg n) else none)
    else if c == b'+'
    then (natural base s >>= λ n. if ltb n (2 ^ 63) then some (pos n) else none)
    else natural base (c ∷ s) >>= λ n. if ltb n (2 ^ 63) then some (pos n) else none

-- A digit of FormatInt in base 16.
abbrev pub hex_digit : ℕ → ℕ
hex_digit d = if ltb d 10 then b'0' + d else b'a' + (d - 10)

-- The digits above the last one, the lowest first; 16 of them hold any 64-bit value.
abbrev pub higher_digits : ℕ → ℕ → Text
higher_digits zero n = []
higher_digits (suc fuel) n =
    let rest = higher_digits fuel (n / 16) in if n == 0 then [] else (hex_digit (n % 16) ∷ rest)

-- FormatInt(n, 16) from its last byte on.
unfoldable pub hex_reversed : ℕ → Text
hex_reversed n = hex_digit (n % 16) ∷ higher_digits 15 (n / 16)
