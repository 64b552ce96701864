-- ===== src/Table.antt =====
-- A table as the list of its rows: the first row of an order that satisfies a condition
-- (`ORDER BY … LIMIT 1`), and an update by primary key. Rows that the order does not tell apart are
-- taken in the order of the table.
pub mod Keys
use noc_report.Common.{
  ℕ, zero, suc, ◌+◌, ◌≤◌, ◌<◌, ◌≡◌, refl, sym, ◌⊎◌, inl, inr, Bool, true, false, Option, none, some,
  List, [], ◌∷◌, arith, Among, if◌then◌else◌, Bool-cases, Option-cases, All, All-imp, All₂, ◌==◌,
  length,
}
use mathlib.Core.Path.{subst}

module _ {A : Type 0} where
  module _ (before : A → A → Bool) where
    abbrev pub preferred : A → Option A → A
    preferred x none = x
    preferred x (some y) = if before y x then y else x

    unfoldable pub first_where : (A → Bool) → List A → Option A
    first_where p [] = none
    first_where p (x ∷ xs) =
        let rest = first_where p xs in if p x then some (preferred x rest) else rest

    same : (x y : A) → some x ≡ some y → x ≡ y
    same x y h = cc

    preferred_either :
        (P : A → Type 0) (x : A) (rest : Option A) (row : A)
        → some (preferred x rest) ≡ some row
        → P x
        → ((y : A) → rest ≡ some y → P y)
        → P row
    preferred_either P x none row h px pr = subst P (same x row h) px
    preferred_either P x (some y) row h px pr = elim (Bool-cases (before y x)) [
      | inl earlier ↦ subst P (same y row (rw earlier at h)) (pr y refl)
      | inr later ↦ subst P (same x row (rw later at h)) px
    ]

    module _ (p : A → Bool) where
      -- What holds of every row that satisfies the condition holds of the first one.
      pub first_where-All :
          (P : A → Type 0) (xs : List A)
          → All (λ x. p x ≡ true → P x) xs
          → (row : A) → first_where p xs ≡ some row
          → P row
      unfolding first_where
      first_where-All P [] all row h = cc
      first_where-All P (x ∷ xs) all row h = elim (Bool-cases (p x)) [
        | inl yes_x ↦
            preferred_either P x (first_where p xs) row (rw yes_x at h) (all.0 yes_x)
              (first_where-All P xs all.1)
        | inr no_x ↦ first_where-All P xs all.1 row (rw no_x at h)
      ]

      pub first_where-satisfies :
          (xs : List A) (row : A) → first_where p xs ≡ some row → p row ≡ true
      first_where-satisfies xs row h = first_where-All (λ x. p x ≡ true) xs (always xs) row h
        where
          always : (ys : List A) → All (λ x. p x ≡ true → p x ≡ true) ys
          always [] = tt
          always (y ∷ ys) = (λ q. q, always ys)

      -- The first row is a row of the table.
      pub first_where-Among : (xs : List A) (row : A) → first_where p xs ≡ some row → Among row xs
      unfolding first_where
      first_where-Among [] row h = cc
      first_where-Among (x ∷ xs) row h = elim (Bool-cases (p x)) [
        | inl yes_x ↦
            preferred_either (λ y. Among y (x ∷ xs)) x (first_where p xs) row (rw yes_x at h)
              (inl refl) (λ y q. inr (first_where-Among xs y q))
        | inr no_x ↦ inr (first_where-Among xs row (rw no_x at h))
      ]

      pub first_where-none : (xs : List A) → first_where p xs ≡ none → All (λ x. p x ≡ false) xs
      unfolding first_where
      first_where-none [] h = tt
      first_where-none (x ∷ xs) h = elim (Bool-cases (p x)) [
        | inl yes_x ↦ cc (rw yes_x at h)
        | inr no_x ↦ (no_x, first_where-none xs (rw no_x at h))
      ]

  unfoldable pub count : (A → Bool) → List A → ℕ
  count p [] = 0
  count p (x ∷ xs) = (if p x then 1 else 0) + count p xs

  pub count_le-length : (p : A → Bool) (xs : List A) → count p xs ≤ length xs
  unfolding count
  count_le-length p [] = omega arith
  count_le-length p (x ∷ xs) = ground (arith, count_le-length p xs)

  module _ (key : A → ℕ) where
    unfoldable pub update_row : ℕ → (A → A) → List A → List A
    update_row id f [] = []
    update_row id f (x ∷ xs) = (if key x == id then f x else x) ∷ update_row id f xs

    pub update_row-identity : (id : ℕ) (xs : List A) → update_row id (λ x. x) xs ≡ xs
    unfolding update_row
    update_row-identity id [] = refl
    update_row-identity id (x ∷ xs) = elim (Bool-cases (key x == id)) [
      | inl same_key ↦ rw same_key (rw (update_row-identity id xs) refl)
      | inr other ↦ rw other (rw (update_row-identity id xs) refl)
    ]

    pub update_row-All₂ :
        (R S : A → A → Type 0) (Q : A → Type 0) (id : ℕ) (f : A → A) (xs ys : List A)
        → ((x y : A) → Q y → R x y → S x (if key y == id then f y else y))
        → All Q ys
        → All₂ R xs ys
        → All₂ S xs (update_row id f ys)
    unfolding update_row
    update_row-All₂ R S Q id f [] [] step q h = tt
    update_row-All₂ R S Q id f [] (y ∷ ys) step q h = elim h [ ]
    update_row-All₂ R S Q id f (x ∷ xs) [] step q h = elim h [ ]
    update_row-All₂ R S Q id f (x ∷ xs) (y ∷ ys) step q h =
        (step x y q.0 h.0, update_row-All₂ R S Q id f xs ys step q.1 h.1)

    module _ (before : A → A → Bool) (p q : A → Bool) (row : A) (f : A → A)
        (weaker : (x : A) → q (if key x == key row then f x else x) ≡ true → p x ≡ true) where
      count-update_row : (xs : List A) → count q (update_row (key row) f xs) ≤ count p xs
      unfolding count update_row
      count-update_row [] = omega arith
      count-update_row (x ∷ xs) = ground (arith, weaker x, count-update_row xs)

      later_selected :
          (x : A) (rest : Option A)
          → (key x == key row) ≡ false
          → some (preferred before x rest) ≡ some row
          → rest ≡ some row
      later_selected x none other h = ground arith
      later_selected x (some y) other h = ground arith

      -- A row that stops satisfying the condition leaves fewer that do.
      pub count_selected :
          (xs : List A)
          → ((x : A) → key x ≡ key row → q (f x) ≡ false)
          → first_where before p xs ≡ some row
          → count q (update_row (key row) f xs) < count p xs
      unfolding count update_row first_where
      count_selected [] stops h = ground arith
      count_selected (x ∷ xs) stops h = ground (
        arith,
        weaker x,
        count-update_row xs,
        stops x,
        count_selected xs stops,
        later_selected x (first_where before p xs),
      )
