-- ===== src/Table/Keys.antt =====
-- Tables in which no two rows share a primary key.
use noc_report.Common.{
  ℕ, ◌≡◌, ◌≢◌, refl, sym, ◌∙◌, Bool, some, List, [], ◌∷◌, All, All-imp, ◌==◌, if◌then◌else◌, arith,
}
use mathlib.Core.Path.{subst}
use noc_report.Table.{first_where, first_where-All, update_row}

module _ {A : Type 0} (key : A → ℕ) where
  abbrev pub HasKeys : List A → Type 0
  HasKeys [] = Unit
  HasKeys (x ∷ xs) = All (λ y. key y ≢ key x) xs × HasKeys xs

  -- The row is the only one with its key.
  abbrev pub IsOnly : List A → A → Type 0
  IsOnly xs row = All (λ x. key x ≡ key row → x ≡ row) xs

  All-IsOnly : (xs : List A) → HasKeys xs → All (IsOnly xs) xs
  All-IsOnly [] h = tt
  All-IsOnly (x ∷ xs) h =
      ((λ _. refl, All-imp _ _ xs (λ y ne q. absurd (ne q)) h.0), go xs h.0 (All-IsOnly xs h.1))
    where
      go :
          (ys : List A)
          → All (λ y. key y ≢ key x) ys
          → All (IsOnly xs) ys
          → All (IsOnly (x ∷ xs)) ys
      go [] ne only = tt
      go (y ∷ ys) ne only = ((λ q. absurd (ne.0 (sym q)), only.0), go ys ne.1 only.1)

  pub first_where-IsOnly :
      (before : A → A → Bool) (p : A → Bool) (xs : List A)
      → HasKeys xs
      → (row : A) → first_where before p xs ≡ some row
      → IsOnly xs row
  first_where-IsOnly before p xs h =
      first_where-All before p (IsOnly xs) xs (All-imp _ _ xs (λ x only _. only) (All-IsOnly xs h))

  module _ (id : ℕ) (f : A → A) (keeps : (x : A) → key (f x) ≡ key x) where
    same_key : (y : A) → key y ≡ key (if key y == id then f y else y)
    same_key y = ground (arith, keeps y)

    keys_apart :
        (i : ℕ) (xs : List A)
        → All (λ y. key y ≢ i) xs
        → All (λ y. key y ≢ i) (update_row key id f xs)
    unfolding update_row
    keys_apart i [] h = tt
    keys_apart i (x ∷ xs) h = (λ q. h.0 (same_key x ∙ q), keys_apart i xs h.1)

    pub update_row-HasKeys : (xs : List A) → HasKeys xs → HasKeys (update_row key id f xs)
    unfolding update_row
    update_row-HasKeys [] h = tt
    update_row-HasKeys (x ∷ xs) h = (
      subst (λ k. All (λ y. key y ≢ k) (update_row key id f xs)) (same_key x)
          (keys_apart (key x) xs h.0),
      update_row-HasKeys xs h.1,
    )
