-- ===== src/Version/Check.antt =====
-- What the operators of `CheckVersion` say of each other, and what `~` tests.
use mathlib.Core.Option.{some-injective}
use hazelcast_commandline_cl.Prelude.{
  ℕ, zero, suc, ◌-◌, ◌≤◌, ◌≡◌, refl, ap, sym, ◌∙◌, Bool, true, false, not, Option, some, List, [],
  ◌∷◌, ◌++◌, Text, codes, length, replicate, ltb, if◌then◌else◌, ◌>>=◌, arith, append-nil, ◌⊎◌, inl,
  inr, Bool-cases, equal,
}
use hazelcast_commandline_cl.Prelude.Int.{ℤ, pos, ltb_ℤ}
use hazelcast_commandline_cl.Strings.Split.{split}
use hazelcast_commandline_cl.Version.{
  Sign, before, same, after, strip_suffix, equalize_versions, compare_versions, check_version,
  loosely_equal, same_numbers,
}
use hazelcast_commandline_cl.Version.Order.{
  numbers, read_numbers, read_numbers-cons, order_numbers, opposite, opposite-order_numbers,
  opposite-sign_of, rank, compare_versions-order_numbers, pad-Padded, pad, read_numbers-append,
  read_numbers-zeros,
}

module _ (left right : Text) (ls rs : List ℤ) (hl : numbers left ≡ some ls)
    (hr : numbers right ≡ some rs) where
  compare_versions-swap :
      compare_versions right left ≡ (compare_versions left right >>= λ s. some (opposite s))
  compare_versions-swap = rw (compare_versions-order_numbers left right ls rs hl hr) (
      compare_versions-order_numbers right left rs ls hr hl
      ∙ ap some (
          sym (
            opposite-order_numbers ls rs _
            ∙ ap (order_numbers rs ls) (opposite-sign_of (rank left) (rank right) same))))

  compare_versions-some : (s : Sign) × (compare_versions left right ≡ some s)
  compare_versions-some = (_, compare_versions-order_numbers left right ls rs hl hr)

-- Exactly one of `<`, `=` and `>` holds; `!=`, `<=` and `>=` are the negations of `=`, `>` and `<`.
pub record OneHolds (left right : Text) : Type 0 where
  pub less : Bool
  pub equal_to : Bool
  pub greater : Bool
  pub less_is : check_version left (codes "<") right ≡ some less
  pub equal_is : check_version left (codes "=") right ≡ some equal_to
  pub greater_is : check_version left (codes ">") right ≡ some greater
  pub unequal_is : check_version left (codes "!=") right ≡ some (not equal_to)
  pub at_most_is : check_version left (codes "<=") right ≡ some (not greater)
  pub at_least_is : check_version left (codes ">=") right ≡ some (not less)
  pub one :
      (less ∷ equal_to ∷ greater ∷ [] ≡ true ∷ false ∷ false ∷ [])
      ⊎ (less ∷ equal_to ∷ greater ∷ [] ≡ false ∷ true ∷ false ∷ [])
      ⊎ (less ∷ equal_to ∷ greater ∷ [] ≡ false ∷ false ∷ true ∷ [])

check_version_swapped :
    (left right : Text) (s : Sign)
    → compare_versions left right ≡ some s
    → compare_versions right left ≡ some (opposite s)
    → (check_version left (codes "<") right ≡ check_version right (codes ">") left)
      × (check_version left (codes "<=") right ≡ check_version right (codes ">=") left)
      × (check_version left (codes "=") right ≡ check_version right (codes "=") left)
      × (check_version left (codes "!=") right ≡ check_version right (codes "!=") left)
      × OneHolds left right
unfolding check_version equal
check_version_swapped left right before e f = (
  rw e (rw f),
  rw e (rw f),
  rw e (rw f),
  rw e (rw f),
  record {
    less = true;
    equal_to = false;
    greater = false;
    less_is = rw e;
    equal_is = rw e;
    greater_is = rw e;
    unequal_is = rw e;
    at_most_is = rw e;
    at_least_is = rw e;
    one = inl refl;
  },
)
check_version_swapped left right same e f = (
  rw e (rw f),
  rw e (rw f),
  rw e (rw f),
  rw e (rw f),
  record {
    less = false;
    equal_to = true;
    greater = false;
    less_is = rw e;
    equal_is = rw e;
    greater_is = rw e;
    unequal_is = rw e;
    at_most_is = rw e;
    at_least_is = rw e;
    one = inr (inl refl);
  },
)
check_version_swapped left right after e f = (
  rw e (rw f),
  rw e (rw f),
  rw e (rw f),
  rw e (rw f),
  record {
    less = false;
    equal_to = false;
    greater = true;
    less_is = rw e;
    equal_is = rw e;
    greater_is = rw e;
    unequal_is = rw e;
    at_most_is = rw e;
    at_least_is = rw e;
    one = inr (inr refl);
  },
)

-- If every piece of both versions is a number: `<` holds of two versions exactly when `>` holds of
-- them swapped, `<=` when `>=` does, `=` and `!=` are symmetric, exactly one of `<`, `=`, `>` holds,
-- and `!=`, `<=` and `>=` are the negations of `=`, `>` and `<`.
pub check_version-swap :
    (left right : Text) (ls rs : List ℤ)
    → numbers left ≡ some ls
    → numbers right ≡ some rs
    → (check_version left (codes "<") right ≡ check_version right (codes ">") left)
      × (check_version left (codes "<=") right ≡ check_version right (codes ">=") left)
      × (check_version left (codes "=") right ≡ check_version right (codes "=") left)
      × (check_version left (codes "!=") right ≡ check_version right (codes "!=") left)
      × OneHolds left right
check_version-swap left right ls rs hl hr =
    let (s, e) = compare_versions-some left right ls rs hl hr in
    check_version_swapped left right s e (rw e at (compare_versions-swap left right ls rs hl hr))

abbrev pub same_number : ℤ → ℤ → Bool
same_number l r = if ltb_ℤ r l then false else if ltb_ℤ l r then false else true

-- The right numbers are those of the left, which go on with zeros.
abbrev pub begins_with : List ℤ → List ℤ → Bool
begins_with ls [] = true
begins_with [] (r ∷ rs) = if same_number (pos 0) r then begins_with [] rs else false
begins_with (l ∷ ls) (r ∷ rs) = if same_number l r then begins_with ls rs else false

begins_with-zeros :
    (k : ℕ) (ls rs : List ℤ) → begins_with (ls ++ replicate k (pos 0)) rs ≡ begins_with ls rs
begins_with-zeros k ls [] = refl
begins_with-zeros zero ls (r ∷ rs) = rw append-nil
begins_with-zeros (suc k) [] (r ∷ rs) =
    ap (λ b. if same_number (pos 0) r then b else false) (begins_with-zeros k [] rs)
begins_with-zeros (suc k) (l ∷ ls) (r ∷ rs) =
    ap (λ b. if same_number l r then b else false) (begins_with-zeros (suc k) ls rs)

same_numbers-if :
    (a b : Bool) (d : Option Bool) (c : Bool)
    → d ≡ some c
    → (if a then some false else if b then some false else d)
      ≡ some (if (if a then false else if b then false else true) then c else false)
same_numbers-if true b d c h = refl
same_numbers-if false true d c h = refl
same_numbers-if false false d c h = h

same_numbers-begins_with :
    (left right : List Text) (ls rs : List ℤ)
    → length right ≤ length left
    → read_numbers left ≡ some ls
    → read_numbers right ≡ some rs
    → same_numbers left right ≡ some (begins_with ls rs)
unfolding same_numbers
same_numbers-begins_with left [] ls rs e hl hr =
    ap (λ x. some (begins_with ls x)) (some-injective [] rs hr)
same_numbers-begins_with [] (r ∷ right) ls rs e hl hr = absurd (omega arith)
same_numbers-begins_with (l ∷ left) (r ∷ right) ls rs e hl hr =
    let (ln, lms, al, bl, cl) = read_numbers-cons l left ls hl in
    let (rn, rms, ar, br, cr) = read_numbers-cons r right rs hr in
    rw (ar, cl, cr)
      (rw al (
        same_numbers-if (ltb_ℤ rn ln) (ltb_ℤ ln rn) (same_numbers left right) _
          (same_numbers-begins_with left right lms rms (omega arith) bl br)))

-- The loop of `looselyEqual` on the left numbers as they are padded.
same_numbers-pad :
    (xs ys : List Text) (ls rs : List ℤ)
    → read_numbers xs ≡ some ls
    → read_numbers ys ≡ some rs
    → same_numbers (pad xs ys) ys ≡ some (begins_with ls rs)
unfolding equalize_versions
same_numbers-pad xs ys ls rs hl hr =
    let l = pad-Padded xs ys ls hl in
    let long : length ys ≤ length (pad xs ys) = omega (arith, l.long) in
    elim (Bool-cases (ltb (length xs) (length ys))) [
      | inl short ↦
          let k = length ys - length xs in
          rw short (
            same_numbers-begins_with (xs ++ replicate k (codes "0")) ys (ls ++ replicate k (pos 0))
              rs (rw short at long)
              (read_numbers-append xs (replicate k (codes "0")) ls _ hl (read_numbers-zeros k)) hr
            ∙ ap some (begins_with-zeros k ls rs))
      | inr long_enough ↦
          rw long_enough (same_numbers-begins_with xs ys ls rs (rw long_enough at long) hl hr)
    ]

-- `left ~ right` holds exactly if the numbers of the right version begin those of the left one,
-- which goes on with zeros; suffixes play no part. Every piece has to be a number.
pub loosely_equal-begins_with :
    (left right : Text) (ls rs : List ℤ)
    → numbers left ≡ some ls
    → numbers right ≡ some rs
    → check_version left (codes "~") right ≡ some (begins_with ls rs)
unfolding check_version loosely_equal equal
loosely_equal-begins_with left right ls rs hl hr =
    let xs = split b'.' (strip_suffix left).1 in
    let ys = split b'.' (strip_suffix right).1 in same_numbers-pad xs ys ls rs hl hr
