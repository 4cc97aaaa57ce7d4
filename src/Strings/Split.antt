-- ===== src/Strings/Split.antt =====
-- strings.Split at a one-byte separator, strings.Join, strings.Contains of one byte,
-- strings.SplitN(s, sep, 2)[0], strings.HasPrefix and strings.TrimPrefix.
use hazelcast_commandline_cl.Prelude.{
  ℕ, ◌≡◌, refl, ap, sym, ◌∙◌, Bool, true, false, ◌&&◌, ◌||◌, List, [], ◌∷◌, ◌++◌, Text, All, ◌==◌,
  if◌then◌else◌, arith, Bool-cases, inl, inr, ==_iff,
}

-- The first piece gets one more byte in front.
abbrev pub onto_first : ℕ → List Text → List Text
onto_first c [] = (c ∷ []) ∷ []
onto_first c (t ∷ ts) = (c ∷ t) ∷ ts

unfoldable pub split : ℕ → Text → List Text
split sep [] = [] ∷ []
split sep (c ∷ s) = let rest = split sep s in if c == sep then [] ∷ rest else onto_first c rest

unfoldable pub join : ℕ → List Text → Text
join sep [] = []
join sep (t ∷ []) = t
join sep (t ∷ u ∷ ts) = t ++ (sep ∷ join sep (u ∷ ts))

unfoldable pub contains : Text → ℕ → Bool
contains [] c = false
contains (x ∷ s) c = x == c || contains s c

unfoldable pub before_first : ℕ → Text → Text
before_first sep [] = []
before_first sep (c ∷ s) = let rest = before_first sep s in if c == sep then [] else c ∷ rest

unfoldable pub has_prefix : Text → Text → Bool
has_prefix s [] = true
has_prefix [] (p ∷ ps) = false
has_prefix (c ∷ s) (p ∷ ps) = c == p && has_prefix s ps

pub split-contains : (sep : ℕ) (s : Text) → contains s sep ≡ false → split sep s ≡ s ∷ []
unfolding split contains
split-contains sep [] h = refl
split-contains sep (c ∷ s) h = ground (arith, split-contains sep s)

split-append :
    (sep : ℕ) (t s : Text) → contains t sep ≡ false → split sep (t ++ (sep ∷ s)) ≡ t ∷ split sep s
unfolding split contains
split-append sep [] s h = ground arith
split-append sep (c ∷ t) s h = ground (arith, split-append sep t s)

-- Splitting undoes joining, if no piece holds the separator and there is a piece.
pub split-join :
    (sep : ℕ) (t : Text) (ts : List Text)
    → All (λ s. contains s sep ≡ false) (t ∷ ts)
    → split sep (join sep (t ∷ ts)) ≡ t ∷ ts
unfolding join
split-join sep t [] h = split-contains sep t h.0
split-join sep t (u ∷ ts) h =
    split-append sep t (join sep (u ∷ ts)) h.0 ∙ ap (◌∷◌ t) (split-join sep u ts h.1)

split-cons : (sep : ℕ) (s : Text) → (t : Text) × (ts : List Text) × (split sep s ≡ t ∷ ts)
unfolding split
split-cons sep [] = ([], [], refl)
split-cons sep (c ∷ s) =
    let (t, ts, e) = split-cons sep s in
    elim (Bool-cases (c == sep)) [
      | inl same ↦ ([], split sep s, rw same)
      | inr other ↦ (c ∷ t, ts, rw other (rw e))
    ]

join-onto_first :
    (sep c : ℕ) (t : Text) (ts : List Text)
    → join sep (onto_first c (t ∷ ts)) ≡ c ∷ join sep (t ∷ ts)
unfolding join
join-onto_first sep c t [] = refl
join-onto_first sep c t (u ∷ ts) = refl

-- Joining undoes splitting.
pub join-split : (sep : ℕ) (s : Text) → join sep (split sep s) ≡ s
unfolding split join
join-split sep [] = refl
join-split sep (c ∷ s) =
    let (t, ts, e) = split-cons sep s in
    let ih : join sep (t ∷ ts) ≡ s = rw e at (join-split sep s) in
    elim (Bool-cases (c == sep)) [
      | inl same ↦
          rw same
            (rw e (ap (λ x. x ∷ join sep (t ∷ ts)) (sym ((==_iff c sep).0 same)) ∙ ap (◌∷◌ c) ih))
      | inr other ↦ rw other (rw e (join-onto_first sep c t ts ∙ ap (◌∷◌ c) ih))
    ]
