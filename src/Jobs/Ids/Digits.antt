-- ===== src/Jobs/Ids/Digits.antt =====
-- The sixteen digits of an identifier: they are no signs, and are read as the identifier.
use mathlib.Core.Option.{some-injective}
use hazelcast_commandline_cl.Prelude.{
  ℕ, zero, suc, ◌+◌, ◌-◌, ◌*◌, ◌/◌, ◌%◌, ◌^◌, ◌≤◌, ◌<◌, ◌≡◌, refl, ap, sym, ◌∙◌, Bool, true, false,
  Option, some, none, [], ◌∷◌, ◌++◌, Text, length, replicate, All, ◌==◌, ltb, if◌then◌else◌, ◌>>=◌,
  arith, Bool-cases, ==_iff, append-nil, append_assoc, inl, inr,
}
use hazelcast_commandline_cl.Strings.Numbers.{
  digit_value, digits, hex_digit, higher_digits, hex_reversed,
}
use hazelcast_commandline_cl.Jobs.Ids.Fill.{reversed, padded, NoSign}

digit_value-hex_digit : (d : ℕ) → d < 16 → digit_value (hex_digit d) ≡ some d
unfolding digit_value
digit_value-hex_digit d h = ground arith

hex_digit-NoSign : (d : ℕ) → d < 16 → NoSign (hex_digit d)
hex_digit-NoSign d h = (ground arith, ground arith)

if-some :
    (b : Bool) (o : Option ℕ) (m : ℕ) → (if b then o else none) ≡ some m → (b ≡ true) × (o ≡ some m)
if-some true o m h = (refl, h)
if-some false o m h = cc

digits-cons :
    (base n m c : ℕ) (s : Text)
    → digits base n (c ∷ s) ≡ some m
    → (d : ℕ) × (digit_value c ≡ some d)
      × (ltb d base ≡ true)
      × (digits base (n * base + d) s ≡ some m)
unfolding digits
digits-cons base n m c s = go (digit_value c)
  where
    go :
        (v : Option ℕ)
        → (v >>= λ d. if ltb d base then digits base (n * base + d) s else none) ≡ some m
        → (d : ℕ) × (v ≡ some d) × (ltb d base ≡ true) × (digits base (n * base + d) s ≡ some m)
    go none h = cc
    go (some d) h = let (small, rest) = if-some (ltb d base) _ m h in (d, refl, small, rest)

digits-step :
    (base n d c : ℕ) (s : Text)
    → digit_value c ≡ some d
    → ltb d base ≡ true
    → digits base n (c ∷ s) ≡ digits base (n * base + d) s
unfolding digits
digits-step base n d c s v small = rw v (rw small)

digits-append :
    (base n m d c : ℕ) (s : Text)
    → digits base n s ≡ some m
    → digit_value c ≡ some d
    → ltb d base ≡ true
    → digits base n (s ++ (c ∷ [])) ≡ some (m * base + d)
unfolding digits
digits-append base n m d c [] h v small =
    digits-step base n d c [] v small ∙ ap (λ k. some (k * base + d)) (some-injective n m h)
digits-append base n m d c (x ∷ s) h v small =
    let (e, at_x, below, rest) = digits-cons base n m x s h in
    digits-step base n e x (s ++ (c ∷ [])) at_x below
    ∙ digits-append base (n * base + e) m d c s rest v small

digits-zeros : (k : ℕ) → digits 16 0 (replicate k b'0') ≡ some 0
unfolding digits digit_value
digits-zeros zero = refl
digits-zeros (suc k) = digits-zeros k

length-higher_digits : (fuel n : ℕ) → length (higher_digits fuel n) ≤ fuel
length-higher_digits zero n = omega arith
length-higher_digits (suc fuel) n = elim (Bool-cases (n == 0)) [
  | inl end ↦ rw end (omega arith)
  | inr more ↦ rw more (omega (arith, length-higher_digits fuel (n / 16)))
]

-- 16 ^ fuel
abbrev limit : ℕ → ℕ
limit zero = 1
limit (suc fuel) = 16 * limit fuel

zeros-only : (k n : ℕ) → n ≡ 0 → digits 16 0 (replicate k b'0' ++ []) ≡ some n
zeros-only k n h = rw append-nil (digits-zeros k ∙ ap some (sym h))

-- One more digit at the end.
add_digit :
    (fuel k n : ℕ)
    → digits 16 0 (replicate k b'0' ++ reversed (higher_digits fuel (n / 16))) ≡ some (n / 16)
    → digits 16 0 (replicate k b'0' ++ reversed (hex_digit (n % 16) ∷ higher_digits fuel (n / 16)))
      ≡ some n
add_digit fuel k n h =
    ap (digits 16 0) (
      sym (
        append_assoc (replicate k b'0') (reversed (higher_digits fuel (n / 16)))
          (hex_digit (n % 16) ∷ [])))
    ∙ digits-append 16 0 (n / 16) (n % 16) (hex_digit (n % 16)) _ h
        (digit_value-hex_digit (n % 16) (omega arith)) (ground arith)
    ∙ ap some (omega arith)

-- The zeros and the digits of `n` are read as `n`.
digits-higher_digits :
    (fuel n k : ℕ)
    → n < limit fuel
    → digits 16 0 (replicate k b'0' ++ reversed (higher_digits fuel n)) ≡ some n
digits-higher_digits zero n k h = zeros-only k n (omega arith)
digits-higher_digits (suc fuel) n k h = elim (Bool-cases (n == 0)) [
  | inl end ↦ rw end (zeros-only k n ((==_iff n 0).0 end))
  | inr more ↦ rw more (add_digit fuel k n (digits-higher_digits fuel (n / 16) k (omega arith)))
]

pub length-hex_reversed : (n : ℕ) → length (hex_reversed n) ≤ 16
unfolding hex_reversed
length-hex_reversed n = omega (arith, length-higher_digits 15 (n / 16))

higher_digits-NoSign : (fuel n : ℕ) → All NoSign (higher_digits fuel n)
higher_digits-NoSign zero n = tt
higher_digits-NoSign (suc fuel) n = elim (Bool-cases (n == 0)) [
  | inl end ↦ rw end tt
  | inr more ↦ rw more (hex_digit-NoSign (n % 16) (omega arith), higher_digits-NoSign fuel (n / 16))
]

All-append : (s t : Text) → All NoSign s → All NoSign t → All NoSign (s ++ t)
All-append [] t hs ht = ht
All-append (c ∷ s) t hs ht = (hs.0, All-append s t hs.1 ht)

All-reversed : (s : Text) → All NoSign s → All NoSign (reversed s)
All-reversed [] h = tt
All-reversed (c ∷ s) h = All-append (reversed s) (c ∷ []) (All-reversed s h.1) (h.0, tt)

All-zeros : (k : ℕ) → All NoSign (replicate k b'0')
All-zeros zero = tt
All-zeros (suc k) = ((refl, refl), All-zeros k)

pub padded-NoSign : (n : ℕ) → All NoSign (padded (hex_reversed n))
unfolding hex_reversed
padded-NoSign n =
    All-append (replicate (16 - length (hex_reversed n)) b'0') (reversed (hex_reversed n))
      (All-zeros _)
      (All-reversed (hex_reversed n)
        (hex_digit-NoSign (n % 16) (omega arith), higher_digits-NoSign 15 (n / 16)))

pub padded-digits : (n : ℕ) → n < 2 ^ 63 → digits 16 0 (padded (hex_reversed n)) ≡ some n
unfolding hex_reversed
padded-digits n h =
    add_digit 15 _ n (digits-higher_digits 15 (n / 16) (16 - length (hex_reversed n)) (omega arith))
