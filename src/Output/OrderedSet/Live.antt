-- ===== src/Output/OrderedSet/Live.antt =====
-- The items of the ordered set that are not deleted, as pairs of an item and its index.
use mathlib.Core.Option.{some-injective, some-ne-none}
use hazelcast_commandline_cl.Prelude.{
  ℕ, suc, ◌+◌, ◌≤◌, ◌<◌, ◌≡◌, ◌↔◌, inl, inr, refl, ap, sym, ◌∙◌, Bool, true, false, some, none,
  List, [], ◌∷◌, ◌++◌, map, length, ◌==◌, ==_iff, if◌then◌else◌, All, arith, Bool-cases, subst,
}
use hazelcast_commandline_cl.Output.OrderedSet.{find, delete_key, has_index, items_from, is_found}

-- The items that are not deleted, with their indices.
abbrev pub live {ℓ} : {T : Type ℓ} → ℕ → List ℕ → List T → List (T × ℕ)
live index deleted [] = []
live index deleted (item ∷ items) =
    if has_index index deleted
    then live (suc index) deleted items
    else ((item, index) ∷ live (suc index) deleted items)

abbrev pub delete_index {ℓ} : {T : Type ℓ} → ℕ → List (T × ℕ) → List (T × ℕ)
delete_index index [] = []
delete_index index ((item, i) ∷ m) =
    if i == index then delete_index index m else ((item, i) ∷ delete_index index m)

-- The indices grow, from `k` on.
abbrev pub Ascending {ℓ} : {T : Type ℓ} → ℕ → List (T × ℕ) → Type 0
Ascending k [] = Unit
Ascending k ((item, i) ∷ m) = (k ≤ i) × Ascending (suc i) m

abbrev pub Below : ℕ → List ℕ → Type 0
Below n is = All (λ i. i < n) is

pub has_index-Below : (n : ℕ) (is : List ℕ) → Below n is → has_index n is ≡ false
has_index-Below n [] h = refl
has_index-Below n (i ∷ is) h =
    let away : (i == n) ≡ false = ground (arith, h.0) in rw away (has_index-Below n is h.1)

pub Below-le : (n m : ℕ) (is : List ℕ) → n ≤ m → Below n is → Below m is
Below-le n m [] h b = tt
Below-le n m (i ∷ is) h b = (omega (arith, b.0), Below-le n m is h b.1)

module _ {ℓ} {T : Type ℓ} where
  pub map-live :
      (k : ℕ) (deleted : List ℕ) (xs : List T)
      → map (λ e. e.0) (live k deleted xs) ≡ items_from k deleted xs
  map-live k deleted [] = refl
  map-live k deleted (x ∷ xs) = elim (Bool-cases (has_index k deleted)) [
    | inl gone ↦ rw gone (map-live (suc k) deleted xs)
    | inr here ↦ rw here (ap (◌∷◌ x) (map-live (suc k) deleted xs))
  ]

  Ascending-le : (j k : ℕ) (m : List (T × ℕ)) → j ≤ k → Ascending k m → Ascending j m
  Ascending-le j k [] h a = tt
  Ascending-le j k ((x, i) ∷ m) h a = (omega (arith, a.0), a.1)

  pub live-Ascending : (k : ℕ) (deleted : List ℕ) (xs : List T) → Ascending k (live k deleted xs)
  live-Ascending k deleted [] = tt
  live-Ascending k deleted (x ∷ xs) = elim (Bool-cases (has_index k deleted)) [
    | inl gone ↦
        rw gone (Ascending-le k (suc k) _ (omega arith) (live-Ascending (suc k) deleted xs))
    | inr here ↦ rw here (omega arith, live-Ascending (suc k) deleted xs)
  ]

  pub delete_index-live :
      (k index : ℕ) (deleted : List ℕ) (xs : List T)
      → live k (index ∷ deleted) xs ≡ delete_index index (live k deleted xs)
  delete_index-live k index deleted [] = refl
  delete_index-live k index deleted (x ∷ xs) =
      let ih = delete_index-live (suc k) index deleted xs in
      elim (Bool-cases (index == k)) [
        | inl same ↦
            let back : (k == index) ≡ true = ground arith in
            elim (Bool-cases (has_index k deleted)) [
              | inl gone ↦ rw (same, gone) ih
              | inr here ↦ rw (same, here) (rw back ih)
            ]
        | inr other ↦
            let back : (k == index) ≡ false = ground arith in
            elim (Bool-cases (has_index k deleted)) [
              | inl gone ↦ rw (other, gone) ih
              | inr here ↦ rw (other, here) (rw back (ap (◌∷◌ (x, k)) ih))
            ]
      ]

  delete_index-Ascending :
      (i k : ℕ) (m : List (T × ℕ)) → i < k → Ascending k m → delete_index i m ≡ m
  delete_index-Ascending i k [] h a = refl
  delete_index-Ascending i k ((x, j) ∷ m) h a =
      let away : (j == i) ≡ false = ground (arith, a.0) in
      rw away (ap (◌∷◌ (x, j)) (delete_index-Ascending i (suc j) m (omega (arith, a.0)) a.1))

  pub live-append :
      (k n : ℕ) (deleted : List ℕ) (xs : List T) (x : T)
      → n ≡ k + length xs
      → has_index n deleted ≡ false
      → live k deleted (xs ++ (x ∷ [])) ≡ live k deleted xs ++ ((x, n) ∷ [])
  live-append k n deleted [] x e h = let same : n ≡ k = omega arith in rw (← same) (rw h)
  live-append k n deleted (y ∷ xs) x e h = elim (Bool-cases (has_index k deleted)) [
    | inl gone ↦ rw gone (live-append (suc k) n deleted xs x (omega arith) h)
    | inr here ↦ rw here (ap (◌∷◌ (y, k)) (live-append (suc k) n deleted xs x (omega arith) h))
  ]

module _ {ℓ} {T : Type ℓ} (equals : T → T → Bool) where
  -- The abstract set: a list without repetition.
  abbrev pub is_member : T → List T → Bool
  is_member x [] = false
  is_member x (y ∷ ys) = if equals y x then true else is_member x ys

  abbrev pub without : T → List T → List T
  without x [] = []
  without x (y ∷ ys) = if equals y x then without x ys else (y ∷ without x ys)

  abbrev pub keys : {T : Type ℓ} → List (T × ℕ) → List T
  keys m = map (λ e. e.0) m

  -- No key stands twice.
  abbrev pub NoRepeat : List (T × ℕ) → Type 0
  NoRepeat [] = Unit
  NoRepeat ((x, i) ∷ m) = (find equals x m ≡ none) × NoRepeat m

  pub find-is_member :
      (x : T) (m : List (T × ℕ)) → is_member x (keys m) ≡ is_found equals (find equals x m)
  find-is_member x [] = refl
  find-is_member x ((y, i) ∷ m) = elim (Bool-cases (equals y x)) [
    | inl same ↦ rw same
    | inr other ↦ rw other (find-is_member x m)
  ]

  pub delete_key-without :
      (x : T) (m : List (T × ℕ)) → keys (delete_key equals x m) ≡ without x (keys m)
  delete_key-without x [] = refl
  delete_key-without x ((y, i) ∷ m) = elim (Bool-cases (equals y x)) [
    | inl same ↦ rw same (delete_key-without x m)
    | inr other ↦ rw other (ap (◌∷◌ y) (delete_key-without x m))
  ]

  delete_key-absent :
      (x : T) (m : List (T × ℕ)) → find equals x m ≡ none → delete_key equals x m ≡ m
  delete_key-absent x [] h = refl
  delete_key-absent x ((y, i) ∷ m) h = elim (Bool-cases (equals y x)) [
    | inl same ↦ absurd (some-ne-none _ (rw same at h))
    | inr other ↦ rw other (ap (◌∷◌ (y, i)) (delete_key-absent x m (rw other at h)))
  ]

  find-Ascending :
      (x : T) (i k : ℕ) (m : List (T × ℕ)) → Ascending k m → find equals x m ≡ some i → k ≤ i
  find-Ascending x i k [] a h = cc
  find-Ascending x i k ((y, j) ∷ m) a h = elim (Bool-cases (equals y x)) [
    | inl same ↦ omega (arith, a.0, some-injective j i (rw same at h))
    | inr other ↦ omega (arith, a.0, find-Ascending x i (suc j) m a.1 (rw other at h))
  ]

  -- An index that is found is an index of the list.
  pub find-live :
      (x : T) (i k : ℕ) (deleted : List ℕ) (xs : List T)
      → find equals x (live k deleted xs) ≡ some i
      → i < k + length xs
  find-live x i k deleted [] h = cc
  find-live x i k deleted (y ∷ xs) h = elim (Bool-cases (has_index k deleted)) [
    | inl gone ↦ omega (arith, find-live x i (suc k) deleted xs (rw gone at h))
    | inr here ↦ elim (Bool-cases (equals y x)) [
      | inl same ↦ omega (arith, some-injective k i (rw same at (rw here at h)))
      | inr other ↦ omega (arith, find-live x i (suc k) deleted xs (rw other at (rw here at h)))
    ]
  ]

  module _ (equals_iff : (a b : T) → (equals a b ≡ true) ↔ (a ≡ b)) where
    -- Deleting a key is deleting its index.
    pub delete_key-delete_index :
        (x : T) (i k : ℕ) (m : List (T × ℕ))
        → Ascending k m
        → NoRepeat m
        → find equals x m ≡ some i
        → delete_key equals x m ≡ delete_index i m
    delete_key-delete_index x i k [] a r h = cc
    delete_key-delete_index x i k ((y, j) ∷ m) a r h = elim (Bool-cases (equals y x)) [
      | inl same ↦
          let at_i : j ≡ i = some-injective j i (rw same at h) in
          let here : (j == i) ≡ true = (==_iff j i).1 at_i in
          let absent : find equals x m ≡ none =
            subst (λ z. find equals z m ≡ none) ((equals_iff y x).0 same) r.0 in
          rw (same, here)
            (delete_key-absent x m absent
              ∙ sym (delete_index-Ascending i (suc j) m (omega arith) a.1))
      | inr other ↦
          let h₁ : find equals x m ≡ some i = rw other at h in
          let later = find-Ascending x i (suc j) m a.1 h₁ in
          let away : (j == i) ≡ false = ground arith in
          rw (other, away) (ap (◌∷◌ (y, j)) (delete_key-delete_index x i (suc j) m a.1 r.1 h₁))
    ]

    find-delete_key :
        (x y : T) (m : List (T × ℕ))
        → find equals y m ≡ none
        → find equals y (delete_key equals x m) ≡ none
    find-delete_key x y [] h = refl
    find-delete_key x y ((z, j) ∷ m) h = elim (Bool-cases (equals z y)) [
      | inl same ↦ absurd (some-ne-none _ (rw same at h))
      | inr other ↦
          let ih = find-delete_key x y m (rw other at h) in
          elim (Bool-cases (equals z x)) [
            | inl gone ↦ rw gone ih
            | inr here ↦ rw here (rw other ih)
          ]
    ]

    pub NoRepeat-delete_key :
        (x : T) (m : List (T × ℕ)) → NoRepeat m → NoRepeat (delete_key equals x m)
    NoRepeat-delete_key x [] r = tt
    NoRepeat-delete_key x ((y, j) ∷ m) r = elim (Bool-cases (equals y x)) [
      | inl gone ↦ rw gone (NoRepeat-delete_key x m r.1)
      | inr here ↦ rw here (find-delete_key x y m r.0, NoRepeat-delete_key x m r.1)
    ]

    find-append :
        (x y : T) (n : ℕ) (m : List (T × ℕ))
        → find equals y m ≡ none
        → equals x y ≡ false
        → find equals y (m ++ ((x, n) ∷ [])) ≡ none
    find-append x y n [] h e = rw e
    find-append x y n ((z, j) ∷ m) h e = elim (Bool-cases (equals z y)) [
      | inl same ↦ absurd (some-ne-none _ (rw same at h))
      | inr other ↦ rw other (find-append x y n m (rw other at h) e)
    ]

    equals-sym : (a b : T) → equals a b ≡ false → equals b a ≡ false
    equals-sym a b h = elim (Bool-cases (equals b a)) [
      | inl same ↦ cc (h, (equals_iff a b).1 (sym ((equals_iff b a).0 same)))
      | inr other ↦ other
    ]

    pub NoRepeat-append :
        (x : T) (n : ℕ) (m : List (T × ℕ))
        → NoRepeat m
        → find equals x m ≡ none
        → NoRepeat (m ++ ((x, n) ∷ []))
    NoRepeat-append x n [] r h = (refl, tt)
    NoRepeat-append x n ((y, j) ∷ m) r h = elim (Bool-cases (equals y x)) [
      | inl same ↦ absurd (some-ne-none _ (rw same at h))
      | inr other ↦ (
        find-append x y n m r.0 (equals-sym y x other),
        NoRepeat-append x n m r.1 (rw other at h),
      )
    ]
