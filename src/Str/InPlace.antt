-- ===== src/Str/InPlace.antt =====
-- Filtering in place is filtering.
use hazelcast_commandline_cl.Prelude.{
  ℕ, suc, ◌≡◌, refl, ap, sym, ◌∙◌, Bool, not, ◌||◌, Option, some, List, [], ◌∷◌, ◌++◌, Text, equal,
  length, take, if◌then◌else◌, ◌>>=◌, Bool-cases, inl, inr, append_assoc, append-nil, length-append,
  arith,
}
use hazelcast_commandline_cl.Strings.Split.{split}
use hazelcast_commandline_cl.Str.{get_piece, set_piece, keep_from, split_by_comma}

get_piece-append : (xs ys : List Text) (y : Text) → get_piece (xs ++ (y ∷ ys)) (length xs) ≡ some y
get_piece-append [] ys y = refl
get_piece-append (x ∷ xs) ys y = get_piece-append xs ys y

set_piece-append :
    (xs ys : List Text) (y s : Text)
    → set_piece (xs ++ (y ∷ ys)) (length xs) s ≡ some (xs ++ (s ∷ ys))
set_piece-append [] ys y s = refl
set_piece-append (x ∷ xs) ys y s = rw (set_piece-append xs ys y s)

take-append : (xs ys : List Text) → take (length xs) (xs ++ ys) ≡ xs
take-append [] ys = refl
take-append (x ∷ xs) ys = ap (◌∷◌ x) (take-append xs ys)

module _ (trim_space : Text → Text) (remove_empty : Bool) where
  abbrev pub is_kept : Text → Bool
  unfolding equal
  is_kept piece = not (equal (trim_space piece) []) || not remove_empty

  -- The trimmed pieces, without the empty ones if they are removed.
  abbrev pub kept_pieces : List Text → List Text
  kept_pieces [] = []
  kept_pieces (t ∷ ts) = if is_kept t then (trim_space t ∷ kept_pieces ts) else kept_pieces ts

  abbrev taken : Option (List Text × ℕ) → Option (List Text)
  taken o = o >>= λ r. some (take r.1 r.0)

  -- Writing the next piece behind `kept` leaves a gap of the same length.
  set_piece-gap :
      (kept gap rest : List Text) (t s : Text)
      → (gap₁ : List Text) × (set_piece (kept ++ (gap ++ (t ∷ rest))) (length kept) s
          ≡ some ((kept ++ (s ∷ [])) ++ (gap₁ ++ rest)))
        × (length gap₁ ≡ length gap)
  set_piece-gap kept [] rest t s =
      ([], set_piece-append kept rest t s ∙ ap some (sym (append_assoc kept (s ∷ []) rest)), refl)
  set_piece-gap kept (g ∷ gap) rest t s = (
    gap ++ (t ∷ []),
    set_piece-append kept (gap ++ (t ∷ rest)) g s
        ∙ ap some (
            ap (λ l. kept ++ (s ∷ l)) (sym (append_assoc gap (t ∷ []) rest))
            ∙ sym (append_assoc kept (s ∷ []) ((gap ++ (t ∷ [])) ++ rest))),
    omega (arith, length-append gap (t ∷ [])),
  )

  same_loop :
      (n i j idx idx₁ : ℕ) (ls ls₁ : List Text)
      → i ≡ j
      → idx ≡ idx₁
      → ls ≡ ls₁
      → taken (keep_from trim_space remove_empty n i idx ls)
        ≡ taken (keep_from trim_space remove_empty n j idx₁ ls₁)
  same_loop n i j idx idx₁ ls ls₁ a b c =
      ap (λ k. taken (keep_from trim_space remove_empty n k idx ls)) a
      ∙ ap (λ k. taken (keep_from trim_space remove_empty n j k ls)) b
      ∙ ap (λ l. taken (keep_from trim_space remove_empty n j idx₁ l)) c

  -- The rest of a round, once the piece is tested.
  abbrev tested : ℕ → ℕ → ℕ → List Text → Text → Bool → Option (List Text × ℕ)
  tested n i idx ls s b =
      if b
      then (set_piece ls idx s >>= λ ls₁. keep_from trim_space remove_empty n (suc i) (suc idx) ls₁)
      else keep_from trim_space remove_empty n (suc i) idx ls

  -- One round of the loop, on the piece that it reads.
  keep_from-step :
      (n i idx : ℕ) (ls : List Text) (t : Text)
      → get_piece ls i ≡ some t
      → keep_from trim_space remove_empty (suc n) i idx ls
        ≡ tested n i idx ls (trim_space t) (is_kept t)
  unfolding keep_from
  keep_from-step n i idx ls t h = rw h

  -- The loop with `kept` written, `gap` read and passed over, and `rest` not read yet.
  keep_from-kept_pieces :
      (rest kept gap : List Text)
      → taken (
          keep_from trim_space remove_empty
            (length rest)
            (length (kept ++ gap))
            (length kept)
            (kept ++ (gap ++ rest)))
        ≡ some (kept ++ kept_pieces rest)
  unfolding keep_from
  keep_from-kept_pieces [] kept gap = ap some (take-append kept (gap ++ []) ∙ sym (append-nil kept))
  keep_from-kept_pieces (t ∷ rest) kept gap =
      let n = length rest in
      let ls = kept ++ (gap ++ (t ∷ rest)) in
      let read : get_piece ls (length (kept ++ gap)) ≡ some t =
        ap (λ l. get_piece l (length (kept ++ gap))) (sym (append_assoc kept gap (t ∷ rest)))
        ∙ get_piece-append (kept ++ gap) rest t in
      ap taken (keep_from-step n (length (kept ++ gap)) (length kept) ls t read)
      ∙ elim (Bool-cases (is_kept t)) [
        | inl keep ↦
            let (gap₁, written, same) = set_piece-gap kept gap rest t (trim_space t) in
            let kept₁ = kept ++ (trim_space t ∷ []) in
            ap (λ b. taken (tested n (length (kept ++ gap)) (length kept) ls (trim_space t) b)) keep
            ∙ ap
                (λ o. taken (
                  o >>= λ ls₁.
                  keep_from trim_space remove_empty n (suc (length (kept ++ gap)))
                    (suc (length kept)) ls₁))
                written
            ∙ same_loop n _ (length (kept₁ ++ gap₁)) _ (length kept₁) _ (kept₁ ++ (gap₁ ++ rest))
                (omega (
                  arith,
                  same,
                  length-append kept gap,
                  length-append kept₁ gap₁,
                  length-append kept (trim_space t ∷ []),
                ))
                (omega (arith, length-append kept (trim_space t ∷ []))) refl
            ∙ keep_from-kept_pieces rest kept₁ gap₁
            ∙ ap some (
                append_assoc kept (trim_space t ∷ []) (kept_pieces rest)
                ∙ ap
                    (λ b.
                      kept ++ (if b then (trim_space t ∷ kept_pieces rest) else kept_pieces rest))
                    (sym keep))
        | inr drop ↦
            ap (λ b. taken (tested n (length (kept ++ gap)) (length kept) ls (trim_space t) b)) drop
            ∙ same_loop n _ (length (kept ++ (gap ++ (t ∷ [])))) _ (length kept) _
                (kept ++ ((gap ++ (t ∷ [])) ++ rest))
                (omega (
                  arith,
                  length-append kept gap,
                  length-append kept (gap ++ (t ∷ [])),
                  length-append gap (t ∷ []),
                ))
                refl (ap (λ l. kept ++ l) (sym (append_assoc gap (t ∷ []) rest)))
            ∙ keep_from-kept_pieces rest kept (gap ++ (t ∷ []))
            ∙ ap some (
                ap
                  (λ b. kept ++ (if b then (trim_space t ∷ kept_pieces rest) else kept_pieces rest))
                  (sym drop))
      ]

  -- SplitByComma never indexes out of range: it returns no pieces for the empty text, and otherwise
  -- the trimmed pieces between the commas in their order, without the empty ones if these are
  -- removed. So writing to the slice that it ranges over does no harm.
  pub split_by_comma-kept_pieces :
      (str : Text)
      → split_by_comma trim_space str remove_empty
        ≡ (if equal str [] then some [] else some (kept_pieces (split b',' str)))
  unfolding split_by_comma
  split_by_comma-kept_pieces str =
      ap (λ o. if equal str [] then some [] else o) (keep_from-kept_pieces (split b',' str) [] [])
