-- ===== src/Repository/Sort/Laws.antt =====
-- Laws of ORDER BY and of the list functions that the queries combine with it.
use insider_one.Prelude.{
  ℕ, zero, suc, ◌≡◌, refl, inl, inr, Bool, true, false, ◌||◌, List, [], ◌∷◌, arith, All, Pairs,
  exists, take, drop, keep_if, Bool-cases,
}
use insider_one.Repository.Sort.{insert_by, sort_by}

module _ {ℓ} {A : Type ℓ} (before : A → A → Bool) where
  exists-insert_by :
      (q : A → Bool) (x : A) (ys : List A) → exists q (insert_by before x ys) ≡ (q x || exists q ys)
  unfolding insert_by
  exists-insert_by q x [] = refl
  exists-insert_by q x (y ∷ ys) = ground (arith, exists-insert_by q x ys)

  -- Sorting keeps what there is.
  pub exists-sort_by : (q : A → Bool) (xs : List A) → exists q (sort_by before xs) ≡ exists q xs
  unfolding sort_by
  exists-sort_by q [] = refl
  exists-sort_by q (x ∷ xs) =
      ground (arith, exists-insert_by q x (sort_by before xs), exists-sort_by q xs)

  All-insert_by {κ} :
      (P : A → Type κ) (x : A) (ys : List A) → P x → All P ys → All P (insert_by before x ys)
  unfolding insert_by
  All-insert_by P x [] p h = (p, tt)
  All-insert_by P x (y ∷ ys) p h = elim (Bool-cases (before x y)) [
    | inl e ↦ rw e (p, h)
    | inr e ↦ rw e (h.0, All-insert_by P x ys p h.1)
  ]

  pub All-sort_by {κ} : (P : A → Type κ) (xs : List A) → All P xs → All P (sort_by before xs)
  unfolding sort_by
  All-sort_by P [] h = tt
  All-sort_by P (x ∷ xs) h = All-insert_by P x (sort_by before xs) h.0 (All-sort_by P xs h.1)

  All-of_insert_by {κ} :
      (P : A → Type κ) (x : A) (ys : List A) → All P (insert_by before x ys) → P x × All P ys
  unfolding insert_by
  All-of_insert_by P x [] h = h
  All-of_insert_by P x (y ∷ ys) h = elim (Bool-cases (before x y)) [
    | inl e ↦ rw e at h
    | inr e ↦
        let k : All P (y ∷ insert_by before x ys) = rw e at h in
        let (px, pys) = All-of_insert_by P x ys k.1 in (px, (k.0, pys))
  ]

  pub All-of_sort_by {κ} : (P : A → Type κ) (xs : List A) → All P (sort_by before xs) → All P xs
  unfolding sort_by
  All-of_sort_by P [] h = tt
  All-of_sort_by P (x ∷ xs) h =
      let (px, rest) = All-of_insert_by P x (sort_by before xs) h in (px, All-of_sort_by P xs rest)

  module _ (total : (a b : A) → before a b ≡ false → before b a ≡ true)
      (trans : (a b c : A) → before a b ≡ true → before b c ≡ true → before a c ≡ true) where
    before-All :
        (x y : A) (ys : List A)
        → before x y ≡ true
        → All (λ z. before y z ≡ true) ys
        → All (λ z. before x z ≡ true) ys
    before-All x y [] e h = tt
    before-All x y (z ∷ zs) e h = (trans x y z e h.0, before-All x y zs e h.1)

    insert_by-IsSorted :
        (x : A) (ys : List A)
        → Pairs (λ a b. before a b ≡ true) ys
        → Pairs (λ a b. before a b ≡ true) (insert_by before x ys)
    unfolding insert_by
    insert_by-IsSorted x [] h = (tt, tt)
    insert_by-IsSorted x (y ∷ ys) h = elim (Bool-cases (before x y)) [
      | inl e ↦ rw e ((e, before-All x y ys e h.0), h)
      | inr e ↦ rw e (
        All-insert_by (λ z. before y z ≡ true) x ys (total x y e) h.0,
        insert_by-IsSorted x ys h.1,
      )
    ]

    -- The result is in order.
    pub sort_by-IsSorted : (xs : List A) → Pairs (λ a b. before a b ≡ true) (sort_by before xs)
    unfolding sort_by
    sort_by-IsSorted [] = tt
    sort_by-IsSorted (x ∷ xs) = insert_by-IsSorted x (sort_by before xs) (sort_by-IsSorted xs)

module _ {ℓ} {A : Type ℓ} where
  pub exists_of_take :
      (q : A → Bool) (n : ℕ) (xs : List A) → exists q (take n xs) ≡ true → exists q xs ≡ true
  exists_of_take q zero xs h = cc
  exists_of_take q (suc n) [] h = h
  exists_of_take q (suc n) (x ∷ xs) h = ground (arith, exists_of_take q n xs)

  pub All-of_take-drop {κ} :
      (P : A → Type κ) (n : ℕ) (xs : List A) → All P (take n xs) → All P (drop n xs) → All P xs
  All-of_take-drop P zero xs h k = k
  All-of_take-drop P (suc n) [] h k = tt
  All-of_take-drop P (suc n) (x ∷ xs) h k = (h.0, All-of_take-drop P n xs h.1 k)

  pub All-drop {κ} : (P : A → Type κ) (n : ℕ) (xs : List A) → All P xs → All P (drop n xs)
  All-drop P zero xs h = h
  All-drop P (suc n) [] h = tt
  All-drop P (suc n) (x ∷ xs) h = All-drop P n xs h.1

  consed {κ} :
      (R : A → A → Type κ) (x : A) (front back : List A)
      → All (R x) back
      → All (λ b. All (λ a. R a b) front) back
      → All (λ b. All (λ a. R a b) (x ∷ front)) back
  consed R x front [] h k = tt
  consed R x front (b ∷ back) h k = ((h.0, k.0), consed R x front back h.1 k.1)

  nothing {κ} : (R : A → A → Type κ) (back : List A) → All (λ b. All (λ a. R a b) []) back
  nothing R [] = tt
  nothing R (b ∷ back) = (tt, nothing R back)

  -- In a list of related pairs the front is related to the back.
  pub take-before-drop {κ} :
      (R : A → A → Type κ) (n : ℕ) (xs : List A)
      → Pairs R xs
      → All (λ b. All (λ a. R a b) (take n xs)) (drop n xs)
  take-before-drop R zero xs h = nothing R xs
  take-before-drop R (suc n) [] h = tt
  take-before-drop R (suc n) (x ∷ xs) h =
      consed R x (take n xs) (drop n xs) (All-drop (R x) n xs h.0) (take-before-drop R n xs h.1)

  -- What holds of all that pass a test.
  pub All-of_keep_if {κ} :
      (P : A → Type κ) (p : A → Bool) (xs : List A)
      → All P (keep_if p xs)
      → All (λ x. p x ≡ true → P x) xs
  All-of_keep_if P p [] h = tt
  All-of_keep_if P p (x ∷ xs) h = elim (Bool-cases (p x)) [
    | inl e ↦ let k : All P (x ∷ keep_if p xs) = rw e at h in (λ _. k.0, All-of_keep_if P p xs k.1)
    | inr e ↦ let k : All P (keep_if p xs) = rw e at h in (λ e'. cc, All-of_keep_if P p xs k)
  ]

  pub All-keep_if {κ} :
      (P : A → Type κ) (p : A → Bool) (xs : List A)
      → All P xs
      → All (λ x. (p x ≡ true) × P x) (keep_if p xs)
  All-keep_if P p [] h = tt
  All-keep_if P p (x ∷ xs) h = elim (Bool-cases (p x)) [
    | inl e ↦ rw e ((e, h.0), All-keep_if P p xs h.1)
    | inr e ↦ rw e (All-keep_if P p xs h.1)
  ]
