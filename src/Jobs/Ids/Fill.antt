-- ===== src/Jobs/Ids/Fill.antt =====
-- What the loop of `idToString` leaves in the buffer: groups of four digits, zeros in front.
use hazelcast_commandline_cl.Prelude.{
  ℕ, zero, suc, ◌-◌, ◌≤◌, ◌≡◌, refl, ap, ◌∙◌, false, some, [], ◌∷◌, ◌++◌, Text, codes, length, take,
  drop, replicate, All, ◌==◌, arith,
}
use hazelcast_commandline_cl.Jobs.Ids.{fill, without_dashes}

abbrev pub reversed : Text → Text
reversed [] = []
reversed (c ∷ s) = reversed s ++ (c ∷ [])

-- Groups of four, a dash between them: `k` dashes.
abbrev pub grouped : ℕ → Text → Text
grouped zero s = s
grouped (suc k) s = take 4 s ++ (b'-' ∷ grouped k (drop 4 s))

abbrev pub padded : Text → Text
padded from_last = replicate (16 - length from_last) b'0' ++ reversed from_last

pub fill-grouped :
    (hs : Text)
    → length hs ≤ 16
    → fill (some 18) (codes "0000-0000-0000-0000") hs ≡ some (grouped 3 (padded hs))
unfolding fill
fill-grouped ([]) bound = refl
fill-grouped (a ∷ []) bound = refl
fill-grouped (a ∷ b ∷ []) bound = refl
fill-grouped (a ∷ b ∷ c ∷ []) bound = refl
fill-grouped (a ∷ b ∷ c ∷ d ∷ []) bound = refl
fill-grouped (a ∷ b ∷ c ∷ d ∷ e ∷ []) bound = refl
fill-grouped (a ∷ b ∷ c ∷ d ∷ e ∷ f ∷ []) bound = refl
fill-grouped (a ∷ b ∷ c ∷ d ∷ e ∷ f ∷ g ∷ []) bound = refl
fill-grouped (a ∷ b ∷ c ∷ d ∷ e ∷ f ∷ g ∷ h ∷ []) bound = refl
fill-grouped (a ∷ b ∷ c ∷ d ∷ e ∷ f ∷ g ∷ h ∷ i ∷ []) bound = refl
fill-grouped (a ∷ b ∷ c ∷ d ∷ e ∷ f ∷ g ∷ h ∷ i ∷ j ∷ []) bound = refl
fill-grouped (a ∷ b ∷ c ∷ d ∷ e ∷ f ∷ g ∷ h ∷ i ∷ j ∷ k ∷ []) bound = refl
fill-grouped (a ∷ b ∷ c ∷ d ∷ e ∷ f ∷ g ∷ h ∷ i ∷ j ∷ k ∷ l ∷ []) bound = refl
fill-grouped (a ∷ b ∷ c ∷ d ∷ e ∷ f ∷ g ∷ h ∷ i ∷ j ∷ k ∷ l ∷ m ∷ []) bound = refl
fill-grouped (a ∷ b ∷ c ∷ d ∷ e ∷ f ∷ g ∷ h ∷ i ∷ j ∷ k ∷ l ∷ m ∷ n ∷ []) bound = refl
fill-grouped (a ∷ b ∷ c ∷ d ∷ e ∷ f ∷ g ∷ h ∷ i ∷ j ∷ k ∷ l ∷ m ∷ n ∷ o ∷ []) bound = refl
fill-grouped (a ∷ b ∷ c ∷ d ∷ e ∷ f ∷ g ∷ h ∷ i ∷ j ∷ k ∷ l ∷ m ∷ n ∷ o ∷ p ∷ []) bound = refl
fill-grouped (a ∷ b ∷ c ∷ d ∷ e ∷ f ∷ g ∷ h ∷ i ∷ j ∷ k ∷ l ∷ m ∷ n ∷ o ∷ p ∷ q ∷ hs) bound =
    absurd (omega arith)

-- A byte that is no sign.
abbrev pub NoSign : ℕ → Type 0
NoSign c = ((c == b'-') ≡ false) × ((c == b'+') ≡ false)

pub without_dashes-NoSign : (s : Text) → All NoSign s → without_dashes s ≡ s
unfolding without_dashes
without_dashes-NoSign [] h = refl
without_dashes-NoSign (c ∷ s) h = rw h.0.0 (ap (◌∷◌ c) (without_dashes-NoSign s h.1))

without_dashes-take :
    (n : ℕ) (s t : Text)
    → All NoSign s
    → without_dashes (take n s ++ (b'-' ∷ t)) ≡ take n s ++ without_dashes t
unfolding without_dashes
without_dashes-take zero s t h = refl
without_dashes-take (suc n) [] t h = refl
without_dashes-take (suc n) (c ∷ s) t h = rw h.0.0 (ap (◌∷◌ c) (without_dashes-take n s t h.1))

All-drop : (n : ℕ) (s : Text) → All NoSign s → All NoSign (drop n s)
All-drop zero s h = h
All-drop (suc n) [] h = tt
All-drop (suc n) (c ∷ s) h = All-drop n s h.1

take-drop : (n : ℕ) (s : Text) → take n s ++ drop n s ≡ s
take-drop zero s = refl
take-drop (suc n) [] = refl
take-drop (suc n) (c ∷ s) = ap (◌∷◌ c) (take-drop n s)

pub without_dashes-grouped : (k : ℕ) (s : Text) → All NoSign s → without_dashes (grouped k s) ≡ s
without_dashes-grouped zero s h = without_dashes-NoSign s h
without_dashes-grouped (suc k) s h =
    without_dashes-take 4 s (grouped k (drop 4 s)) h
    ∙ ap (λ t. take 4 s ++ t) (without_dashes-grouped k (drop 4 s) (All-drop 4 s h))
    ∙ take-drop 4 s
