-- ===== src/Json.antt =====
-- JSON documents, as `json.loads` returns them: job messages, broker bodies, artifacts. A number that
-- is no integer is kept by its text.
use text.Mathlib.Text.{◌==◌}
use text.Mathlib.TextEquality.{eq_iff}
use noc_report.Common.{
  ◌==◌ as nat_eq, true, not, ◌≡◌, refl, arith, ℕ, String, Bool, false, Option, none, some, ◌||◌,
  if◌then◌else◌,
}

mutual
  pub data Json : Type 0 where
    null : Json
    bool : Bool → Json
    num : ℕ → Json
    neg : ℕ → Json
    real : String → Json
    str : String → Json
    arr : Items → Json
    obj : Fields → Json

  pub data Items : Type 0 where
    nil : Items
    cons : Json → Items → Items

  pub data Fields : Type 0 where
    end : Fields
    field : String → Json → Fields → Fields

-- The truth of a value. A number that is equal to an integer counts as that integer.
abbrev pub is_truthy : Json → Bool
is_truthy null = false
is_truthy (bool b) = b
is_truthy (num n) = not (nat_eq n 0)
is_truthy (neg n) = true
is_truthy (real s) = true
is_truthy (str s) = not (s == "")
is_truthy (arr nil) = false
is_truthy (arr (cons j js)) = true
is_truthy (obj end) = false
is_truthy (obj (field k j d)) = true

-- `d.get(k)`.
unfoldable pub get : String → Fields → Option Json
get k end = none
get k (field j v d) = if j == k then some v else get k d

-- `d.get(k)`, a missing key being `None`.
abbrev pub get_or_null : String → Fields → Json
get_or_null k d = elim (get k d) [ none ↦ null | some j ↦ j ]

-- `a or b`.
abbrev pub or_else : Json → Json → Json
or_else a b = if is_truthy a then a else b

-- `k in d`.
unfoldable pub has_key : String → Fields → Bool
has_key k end = false
has_key k (field j v d) = j == k || has_key k d

-- `d[k] = v`: a new key goes last.
unfoldable pub put : String → Json → Fields → Fields
put k v end = field k v end
put k v (field j w d) = if j == k then field k v d else field j w (put k v d)

pub get-put :
    (k j : String) (v : Json) (d : Fields)
    → get k (put j v d) ≡ (if j == k then some v else get k d)
unfolding get put
get-put k j v end = refl
get-put k j v (field i w d) = ground (arith, get-put k j v d, eq_iff i j, eq_iff i k, eq_iff j k)
