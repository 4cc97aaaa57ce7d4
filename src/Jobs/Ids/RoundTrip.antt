-- ===== src/Jobs/Ids/RoundTrip.antt =====
-- An identifier that is not negative is read back from its string.
use hazelcast_commandline_cl.Prelude.{
  ℕ, ◌+◌, ◌*◌, ◌^◌, ◌<◌, ◌≡◌, refl, ap, ◌∙◌, true, Option, some, none, [], ◌∷◌, ◌++◌, Text, take,
  drop, All, ◌==◌, ltb, if◌then◌else◌, ◌>>=◌, arith, Bool-cases, ==_iff, inl, inr,
}
use hazelcast_commandline_cl.Prelude.Int.{ℤ, pos}
use hazelcast_commandline_cl.Strings.Split.{contains}
use hazelcast_commandline_cl.Strings.Numbers.{digit_value, digits, natural, parse_int, hex_reversed}
use hazelcast_commandline_cl.Jobs.Ids.{id_to_string, string_to_id, or_hex}
use hazelcast_commandline_cl.Jobs.Ids.Fill.{
  grouped, padded, fill-grouped, NoSign, without_dashes-grouped,
}
use hazelcast_commandline_cl.Jobs.Ids.Digits.{length-hex_reversed, padded-NoSign, padded-digits}

-- A dash is no digit.
digits-dash : (base n : ℕ) (s : Text) → contains s b'-' ≡ true → digits base n s ≡ none
unfolding digits digit_value contains
digits-dash base n [] h = cc
digits-dash base n (c ∷ s) h = elim (Bool-cases (c == b'-')) [
  | inl dash ↦ rw ((==_iff c b'-').0 dash)
  | inr other ↦ go (digit_value c) (λ k. digits-dash base k s (rw other at h))
]
  where
    go :
        (v : Option ℕ)
        → ((k : ℕ) → digits base k s ≡ none)
        → (v >>= λ d. if ltb d base then digits base (n * base + d) s else none) ≡ none
    go none ih = refl
    go (some d) ih = elim (Bool-cases (ltb d base)) [
      | inl small ↦ rw small (ih (n * base + d))
      | inr big ↦ rw big
    ]

abbrev in_range : Option ℕ → Option ℤ
in_range o = o >>= λ n. if ltb n (2 ^ 63) then some (pos n) else none

in_range_lem : (n : ℕ) → n < 2 ^ 63 → in_range (some n) ≡ some (pos n)
in_range_lem n h = let fits : ltb n (2 ^ 63) ≡ true = ground arith in rw fits

-- A text that begins with no sign is read as digits.
parse_int-digits :
    (base c : ℕ) (s : Text) → NoSign c → parse_int base (c ∷ s) ≡ in_range (digits base 0 (c ∷ s))
unfolding parse_int natural
parse_int-digits base c s h = rw (h.0) (rw (h.1))

contains-append : (s t : Text) (c : ℕ) → contains t c ≡ true → contains (s ++ t) c ≡ true
unfolding contains
contains-append [] t c h = h
contains-append (x ∷ s) t c h = elim (Bool-cases (x == c)) [
  | inl same ↦ rw same
  | inr other ↦ rw other (contains-append s t c h)
]

string_to_id-grouped :
    (c n : ℕ) (s : Text)
    → All NoSign (c ∷ s)
    → digits 16 0 (c ∷ s) ≡ some n
    → n < 2 ^ 63
    → string_to_id (grouped 3 (c ∷ s)) ≡ some (pos n)
unfolding string_to_id contains
string_to_id-grouped c n s h d small =
    let rest = take 3 s ++ (b'-' ∷ grouped 2 (drop 3 s)) in
    ap (or_hex (c ∷ rest)) (
      parse_int-digits 10 c rest h.0
      ∙ ap in_range (
          digits-dash 10 0 (c ∷ rest)
            (contains-append (c ∷ take 3 s) (b'-' ∷ grouped 2 (drop 3 s)) b'-' refl)))
    ∙ ap (parse_int 16) (without_dashes-grouped 3 (c ∷ s) h)
    ∙ parse_int-digits 16 c s h.0
    ∙ ap in_range d
    ∙ in_range_lem n small

snoc-cons : (s : Text) (x : ℕ) → (c : ℕ) × (t : Text) × (s ++ (x ∷ []) ≡ c ∷ t)
snoc-cons [] x = (x, [], refl)
snoc-cons (c ∷ s) x = (c, s ++ (x ∷ []), refl)

append-cons :
    (s t : Text) → (c : ℕ) × (u : Text) × (t ≡ c ∷ u) → (c : ℕ) × (u : Text) × (s ++ t ≡ c ∷ u)
append-cons [] t h = h
append-cons (c ∷ s) t h = (c, s ++ t, refl)

padded-cons : (n : ℕ) → (c : ℕ) × (s : Text) × (padded (hex_reversed n) ≡ c ∷ s)
unfolding hex_reversed
padded-cons n = append-cons _ _ (snoc-cons _ _)

-- An identifier from 0 up to the greatest 64-bit integer is printed without an index error, and
-- is read back from what is printed.
pub string_to_id-id_to_string :
    (n : ℕ)
    → n < 2 ^ 63
    → (s : Text) × (id_to_string (pos n) ≡ some s) × (string_to_id s ≡ some (pos n))
unfolding id_to_string
string_to_id-id_to_string n h =
    let (c, s, e) = padded-cons n in
    (
      grouped 3 (padded (hex_reversed n)),
      fill-grouped (hex_reversed n) (length-hex_reversed n),
      rw e (string_to_id-grouped c n s (rw e at (padded-NoSign n)) (rw e at (padded-digits n h)) h),
    )
