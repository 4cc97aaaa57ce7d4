-- ===== src/Version/Order.antt =====
-- The comparison is the order of the versions' numbers, the shorter list continued by zeros.
use hazelcast_commandline_cl.Prelude.{
  ℕ, zero, suc, ◌-◌, ◌≡◌, refl, ap, sym, ◌∙◌, Bool, true, false, Option, some, none, List, [], ◌∷◌,
  ◌++◌, Text, codes, length, replicate, ltb, if◌then◌else◌, ◌>>=◌, arith, append-nil, length-append,
  length-replicate, max, ltb→lt, inl, inr, Bool-cases,
}
use hazelcast_commandline_cl.Prelude.Int.{ℤ, pos, negsuc, ltb_ℤ}
use hazelcast_commandline_cl.Strings.Split.{split, contains}
use hazelcast_commandline_cl.Version.{
  Sign, before, same, after, strip_suffix, must_atoi, equalize_versions, compare_numbers,
  compare_suffixes, compare_versions,
}

-- The numbers of a version, if each piece is one.
abbrev pub read_numbers : List Text → Option (List ℤ)
read_numbers [] = some []
read_numbers (t ∷ ts) = must_atoi t >>= λ n. read_numbers ts >>= λ ns. some (n ∷ ns)

abbrev pub numbers : Text → Option (List ℤ)
numbers v = read_numbers (split b'.' (strip_suffix v).1)

abbrev pub sign_of : ℤ → ℤ → Sign → Sign
sign_of l r rest = if ltb_ℤ r l then after else if ltb_ℤ l r then before else rest

-- Lexicographic order of number lists that go on with zeros; `rest` decides a tie.
abbrev pub order_numbers : List ℤ → List ℤ → Sign → Sign
order_numbers [] [] rest = rest
order_numbers [] (r ∷ rs) rest = sign_of (pos 0) r (order_numbers [] rs rest)
order_numbers (l ∷ ls) [] rest = sign_of l (pos 0) (order_numbers ls [] rest)
order_numbers (l ∷ ls) (r ∷ rs) rest = sign_of l r (order_numbers ls rs rest)

abbrev pub opposite : Sign → Sign
opposite before = after
opposite same = same
opposite after = before

pub opposite-sign_of : (l r : ℤ) (s : Sign) → opposite (sign_of l r s) ≡ sign_of r l (opposite s)
opposite-sign_of (pos a) (pos b) s = ground arith
opposite-sign_of (pos a) (negsuc b) s = refl
opposite-sign_of (negsuc a) (pos b) s = refl
opposite-sign_of (negsuc a) (negsuc b) s = ground arith

pub opposite-order_numbers :
    (ls rs : List ℤ) (s : Sign)
    → opposite (order_numbers ls rs s) ≡ order_numbers rs ls (opposite s)
opposite-order_numbers [] [] s = refl
opposite-order_numbers [] (r ∷ rs) s =
    opposite-sign_of (pos 0) r (order_numbers [] rs s)
    ∙ ap (sign_of r (pos 0)) (opposite-order_numbers [] rs s)
opposite-order_numbers (l ∷ ls) [] s =
    opposite-sign_of l (pos 0) (order_numbers ls [] s)
    ∙ ap (sign_of (pos 0) l) (opposite-order_numbers ls [] s)
opposite-order_numbers (l ∷ ls) (r ∷ rs) s =
    opposite-sign_of l r (order_numbers ls rs s) ∙ ap (sign_of r l) (opposite-order_numbers ls rs s)

-- What the loop and the suffix test make of a decision.
abbrev decide_by : Option (Option Sign) → Sign → Option Sign
decide_by d s = d >>= λ o. elim o [ some t ↦ some t | none ↦ some s ]

pub read_numbers-cons :
    (t : Text) (ts : List Text) (ns : List ℤ)
    → read_numbers (t ∷ ts) ≡ some ns
    → (n : ℤ) × (ms : List ℤ) × (must_atoi t ≡ some n) × (read_numbers ts ≡ some ms) × (ns ≡ n ∷ ms)
read_numbers-cons t ts ns = go (must_atoi t) (read_numbers ts)
  where
    go :
        (a : Option ℤ) (b : Option (List ℤ))
        → (a >>= λ n. b >>= λ ms. some (n ∷ ms)) ≡ some ns
        → (n : ℤ) × (ms : List ℤ) × (a ≡ some n) × (b ≡ some ms) × (ns ≡ n ∷ ms)
    go none b h = cc
    go (some n) none h = cc
    go (some n) (some ms) h = (n, ms, refl, refl, cc)

decide_by-if :
    (a b : Bool) (d : Option (Option Sign)) (s t : Sign)
    → decide_by d s ≡ some t
    → decide_by (if a then some (some after) else if b then some (some before) else d) s
      ≡ some (if a then after else if b then before else t)
decide_by-if true b d s t h = refl
decide_by-if false true d s t h = refl
decide_by-if false false d s t h = h

-- On lists of one length the loop is the order.
compare_numbers-order :
    (left right : List Text) (ls rs : List ℤ) (s : Sign)
    → length left ≡ length right
    → read_numbers left ≡ some ls
    → read_numbers right ≡ some rs
    → decide_by (compare_numbers left right) s ≡ some (order_numbers ls rs s)
unfolding compare_numbers
compare_numbers-order [] [] ls rs s e hl hr = cc
compare_numbers-order [] (r ∷ right) ls rs s e hl hr = absurd (omega arith)
compare_numbers-order (l ∷ left) [] ls rs s e hl hr = absurd (omega arith)
compare_numbers-order (l ∷ left) (r ∷ right) ls rs s e hl hr =
    let (ln, lms, al, bl, cl) = read_numbers-cons l left ls hl in
    let (rn, rms, ar, br, cr) = read_numbers-cons r right rs hr in
    rw (ar, cl, cr)
      (rw al (
        decide_by-if (ltb_ℤ rn ln) (ltb_ℤ ln rn) (compare_numbers left right) s _
          (compare_numbers-order left right lms rms s (omega arith) bl br)))

pub read_numbers-append :
    (left right : List Text) (ls rs : List ℤ)
    → read_numbers left ≡ some ls
    → read_numbers right ≡ some rs
    → read_numbers (left ++ right) ≡ some (ls ++ rs)
read_numbers-append [] right ls rs hl hr =
    hr ∙ ap (λ (o : Option (List ℤ)). o >>= λ x. some (x ++ rs)) hl
read_numbers-append (t ∷ left) right ls rs hl hr =
    let (n, ms, a, b, c) = read_numbers-cons t left ls hl in
    rw a (rw (read_numbers-append left right ms rs b hr) (ap (λ x. some (x ++ rs)) (sym c)))

pub read_numbers-zeros :
    (k : ℕ) → read_numbers (replicate k (codes "0")) ≡ some (replicate k (pos 0))
unfolding must_atoi
read_numbers-zeros zero = refl
read_numbers-zeros (suc k) = rw (read_numbers-zeros k)

order_numbers-zeros :
    (k : ℕ) (ls rs : List ℤ) (s : Sign)
    → order_numbers (ls ++ replicate k (pos 0)) rs s ≡ order_numbers ls rs s
order_numbers-zeros zero ls rs s = rw append-nil
order_numbers-zeros (suc k) [] [] s = order_numbers-zeros k [] [] s
order_numbers-zeros (suc k) [] (r ∷ rs) s = ap (sign_of (pos 0) r) (order_numbers-zeros k [] rs s)
order_numbers-zeros (suc k) (l ∷ ls) [] s =
    ap (sign_of l (pos 0)) (order_numbers-zeros (suc k) ls [] s)
order_numbers-zeros (suc k) (l ∷ ls) (r ∷ rs) s =
    ap (sign_of l r) (order_numbers-zeros (suc k) ls rs s)

opposite-opposite : (s : Sign) → opposite (opposite s) ≡ s
opposite-opposite before = refl
opposite-opposite same = refl
opposite-opposite after = refl

-- Lists that the order cannot tell apart on the left, it cannot on the right.
order_numbers-right :
    (a b : List ℤ)
    → ((rs : List ℤ) (s : Sign) → order_numbers a rs s ≡ order_numbers b rs s)
    → (ls : List ℤ) (s : Sign) → order_numbers ls a s ≡ order_numbers ls b s
order_numbers-right a b h ls s =
    sym (opposite-opposite (order_numbers ls a s))
    ∙ ap opposite
        (opposite-order_numbers ls a s ∙ h ls (opposite s) ∙ sym (opposite-order_numbers ls b s))
    ∙ opposite-opposite (order_numbers ls b s)

abbrev pub pad : List Text → List Text → List Text
pad xs ys = if ltb (length xs) (length ys) then equalize_versions xs ys else xs

pub record Padded (xs ys : List Text) (ns : List ℤ) : Type 0 where
  pub padded : List ℤ
  pub reads : read_numbers (pad xs ys) ≡ some padded
  pub same_order : (rs : List ℤ) (s : Sign) → order_numbers padded rs s ≡ order_numbers ns rs s
  pub long : length (pad xs ys) ≡ max (length xs) (length ys)

pub pad-Padded : (xs ys : List Text) (ns : List ℤ) → read_numbers xs ≡ some ns → Padded xs ys ns
unfolding equalize_versions
pad-Padded xs ys ns h = elim (Bool-cases (ltb (length xs) (length ys))) [
  | inl short ↦
      let k = length ys - length xs in
      record {
        padded = ns ++ replicate k (pos 0);
        reads =
            rw short
              (read_numbers-append xs (replicate k (codes "0")) ns _ h (read_numbers-zeros k));
        same_order = order_numbers-zeros k ns;
        long = rw short (
            omega (
              arith,
              length-append xs (replicate k (codes "0")),
              length-replicate k (codes "0"),
              ltb→lt _ _ short,
            ));
      }
  | inr long_enough ↦ record {
    padded = ns;
    reads = rw long_enough h;
    same_order = λ rs s. refl;
    long = rw long_enough (ground arith);
  }
]

-- A version with a suffix comes before the one without.
abbrev pub rank : Text → ℤ
rank v = if contains v b'-' then pos 0 else pos 1

compare_suffixes-rank :
    (a b : Bool)
    → compare_suffixes a b ≡ sign_of (if a then pos 0 else pos 1) (if b then pos 0 else pos 1) same
unfolding compare_suffixes
compare_suffixes-rank true true = refl
compare_suffixes-rank true false = refl
compare_suffixes-rank false true = refl
compare_suffixes-rank false false = refl

-- If every piece of both versions is a number, the comparison returns, and its result is the order
-- of the numbers, with missing ones read as zero; in a tie, a version with a suffix comes before one
-- without, and otherwise the two are the same.
pub compare_versions-order_numbers :
    (left right : Text) (ls rs : List ℤ)
    → numbers left ≡ some ls
    → numbers right ≡ some rs
    → compare_versions left right
      ≡ some (order_numbers ls rs (sign_of (rank left) (rank right) same))
unfolding compare_versions strip_suffix
compare_versions-order_numbers left right ls rs hl hr =
    let xs = split b'.' (strip_suffix left).1 in
    let ys = split b'.' (strip_suffix right).1 in
    let l = pad-Padded xs ys ls hl in
    let r = pad-Padded ys xs rs hr in
    let tie = compare_suffixes (contains left b'-') (contains right b'-') in
    compare_numbers-order (pad xs ys) (pad ys xs) l.padded r.padded tie
      (omega (arith, l.long, r.long)) l.reads r.reads
    ∙ ap some (
        l.same_order r.padded tie
        ∙ order_numbers-right r.padded rs r.same_order ls tie
        ∙ ap (order_numbers ls rs)
            (compare_suffixes-rank (contains left b'-') (contains right b'-')))
