-- ===== src/Document/Depth.antt =====
-- How many nested calls of `_parse_blocks` a raw block needs.
use Prim.Native.Nat.{max}
use text.Mathlib.Text.{◌==◌ as str_eq}
use noc_report.Common.{
  ◌≡◌, refl, sym, ◌∙◌, inl, inr, arith, ℕ, zero, suc, ◌≤◌, String, Bool, true, false, Option, none,
  some, List, [], ◌∷◌, All, Bool-cases, Option-cases,
}
use noc_report.Json.{
  Json, null, bool, num, neg, real, str, arr, obj, Items, nil, cons, Fields, end, field, get,
  get_or_null,
}
use noc_report.Document.{Block}
use noc_report.Document.Reading.{
  each_of, get_or, keys, list_of, as_bilingual_text, as_bilingual_find_list, parse_blocks,
  parse_optional_block, parse_analysis_reference, parse_raw, parse_block,
}

unfoldable mutual
  pub depth : Json → ℕ
  depth (arr js) = suc (depth_items js)
  depth (obj d) = suc (depth_fields d)
  depth _ = 0

  pub depth_items : Items → ℕ
  depth_items nil = 0
  depth_items (cons j js) = max (depth j) (depth_items js)

  pub depth_fields : Fields → ℕ
  depth_fields end = 0
  depth_fields (field k j d) = max (depth j) (depth_fields d)

depth-get : (k : String) (d : Fields) (j : Json) → get k d ≡ some j → depth j ≤ depth_fields d
unfolding get depth
depth-get k end j h = absurd (ground arith)
depth-get k (field i v d) j h = elim (Bool-cases (str_eq i k)) [
  | inl e ↦ let same : v ≡ j = ground arith in rw (sym same) (omega arith)
  | inr e ↦ let below : get k d ≡ some j = ground arith in omega (arith, depth-get k d j below)
]

depth-get_or_null : (k : String) (d : Fields) → depth (get_or_null k d) ≤ depth_fields d
unfolding depth
depth-get_or_null k d = elim (Option-cases (get k d)) [
  | inl e ↦ rw (get_or_null, e) (omega arith)
  | inr (j, e) ↦ rw (get_or_null, e) (depth-get k d j e)
]

depth-get_or :
    (n : ℕ) (k : String) (v : Json) (d : Fields)
    → depth v ≤ n
    → depth_fields d ≤ n
    → depth (get_or k v d) ≤ n
depth-get_or n k v d h l = elim (Option-cases (get k d)) [
  | inl e ↦ rw (get_or, e) h
  | inr (j, e) ↦ rw (get_or, e) (omega (arith, depth-get k d j e))
]

Shallow : ℕ → Json → Type 0
Shallow n j = depth j ≤ n

list_of-Shallow : (n : ℕ) (js : Items) → depth_items js ≤ n → All (Shallow n) (list_of js)
unfolding depth Shallow
list_of-Shallow n nil h = tt
list_of-Shallow n (cons j js) h = (omega arith, list_of-Shallow n js (omega arith))

keys-Shallow : (n : ℕ) (d : Fields) → All (Shallow n) (keys d)
unfolding depth Shallow
keys-Shallow n end = tt
keys-Shallow n (field k j d) = (omega arith, keys-Shallow n d)

-- Two readers that agree up to a depth read a block alike whose fields have that depth.
module _ (py_str : Json → String) (py_int : Json → Option Json) (r q : Json → Option Block) (n : ℕ)
    (same : (j : Json) → depth j ≤ n → r j ≡ q j) where
  each_of-same : (xs : List Json) → All (Shallow n) xs → each_of r xs ≡ each_of q xs
  unfolding Shallow
  each_of-same [] h = refl
  each_of-same (x ∷ xs) h = rw (same x h.0, each_of-same xs h.1) refl

  parse_blocks-same :
      (j : Json) → depth j ≤ suc n → parse_blocks py_str py_int r j ≡ parse_blocks py_str py_int q j
  unfolding depth Shallow
  parse_blocks-same (arr js) h =
      rw (each_of-same (list_of js) (list_of-Shallow n js (omega arith))) refl
  parse_blocks-same (obj d) h = rw (each_of-same (keys d) (keys-Shallow n d)) refl
  parse_blocks-same (str s) h = elim (Bool-cases (str_eq s "")) [
    | inl e ↦ rw e refl
    | inr e ↦ rw (e, each_of-same (str s ∷ []) (omega arith, tt)) refl
  ]
  parse_blocks-same null h = refl
  parse_blocks-same (bool b) h = refl
  parse_blocks-same (num b) h = refl
  parse_blocks-same (neg b) h = refl
  parse_blocks-same (real b) h = refl

  parse_optional_block-same :
      {A : Type 0} (narrow : Block → Option A) (j : Json)
      → depth j ≤ n
      → parse_optional_block py_str py_int r narrow j
        ≡ parse_optional_block py_str py_int q narrow j
  parse_optional_block-same narrow (obj d) h = rw (same (obj d) h) refl
  parse_optional_block-same narrow null h = refl
  parse_optional_block-same narrow (bool b) h = refl
  parse_optional_block-same narrow (num b) h = refl
  parse_optional_block-same narrow (neg b) h = refl
  parse_optional_block-same narrow (real b) h = refl
  parse_optional_block-same narrow (str b) h = refl
  parse_optional_block-same narrow (arr b) h = refl

  parse_analysis_reference-same :
      (d : Fields)
      → depth_fields d ≤ n
      → parse_analysis_reference py_str py_int r d ≡ parse_analysis_reference py_str py_int q d
  unfolding parse_analysis_reference depth
  parse_analysis_reference-same d h =
      let below : (k : String) → depth (get_or_null k d) ≤ n =
        λ k. omega (arith, depth-get_or_null k d) in
      let blocks = get_or "children" (get_or "blocks" (arr nil) d) d in
      let shallow : depth blocks ≤ suc n =
        depth-get_or (suc n) "children" (get_or "blocks" (arr nil) d) d
          (depth-get_or (suc n) "blocks" (arr nil) d (omega arith) (omega arith)) (omega arith) in
      let text = as_bilingual_text in
      let finds = as_bilingual_find_list in
      rw
        (
          parse_blocks-same blocks shallow,
          parse_optional_block-same text (get_or_null "summary" d) (below "summary"),
          parse_optional_block-same finds (get_or_null "key_finds" d) (below "key_finds"),
          parse_optional_block-same finds (get_or_null "secondary_finds" d)
              (below "secondary_finds"),
          parse_optional_block-same text (get_or_null "likely_cause" d) (below "likely_cause"),
          parse_optional_block-same text (get_or_null "recommended_action" d)
              (below "recommended_action"),
        )
        refl

  parse_raw-same :
      (d : Fields) → depth_fields d ≤ n → parse_raw py_str py_int r d ≡ parse_raw py_str py_int q d
  unfolding parse_raw
  parse_raw-same d h = rw (parse_analysis_reference-same d h) refl

-- A raw block that is no dict raises, whatever the depth.
abbrev is_dict : Json → Bool
is_dict (obj d) = true
is_dict _ = false

parse_block-no_dict :
    (py_str : Json → String) (py_int : Json → Option Json) (n : ℕ) (j : Json)
    → is_dict j ≡ false
    → parse_block py_str py_int n j ≡ none
unfolding parse_block
parse_block-no_dict py_str py_int zero j h = refl
parse_block-no_dict py_str py_int (suc n) (obj d) h = absurd (ground arith)
parse_block-no_dict py_str py_int (suc n) null h = refl
parse_block-no_dict py_str py_int (suc n) (bool b) h = refl
parse_block-no_dict py_str py_int (suc n) (num b) h = refl
parse_block-no_dict py_str py_int (suc n) (neg b) h = refl
parse_block-no_dict py_str py_int (suc n) (real b) h = refl
parse_block-no_dict py_str py_int (suc n) (str b) h = refl
parse_block-no_dict py_str py_int (suc n) (arr b) h = refl

-- Any number of nested calls that is at least the depth of the raw block gives what any other such
-- number gives.
pub parse_block-depth :
    (py_str : Json → String) (py_int : Json → Option Json) (n m : ℕ) (j : Json)
    → depth j ≤ n
    → depth j ≤ m
    → parse_block py_str py_int n j ≡ parse_block py_str py_int m j
unfolding parse_block depth
parse_block-depth py_str py_int (suc n) (suc m) (obj d) h k =
    parse_raw-same py_str py_int (parse_block py_str py_int n) (parse_block py_str py_int m)
      (depth_fields d) (λ j l. parse_block-depth py_str py_int n m j (omega arith) (omega arith)) d
      (omega arith)
parse_block-depth py_str py_int zero m (obj d) h k = absurd (omega arith)
parse_block-depth py_str py_int (suc n) zero (obj d) h k = absurd (omega arith)
parse_block-depth py_str py_int n m null h k =
    parse_block-no_dict py_str py_int n null refl
    ∙ sym (parse_block-no_dict py_str py_int m null refl)
parse_block-depth py_str py_int n m (bool b) h k =
    parse_block-no_dict py_str py_int n (bool b) refl
    ∙ sym (parse_block-no_dict py_str py_int m (bool b) refl)
parse_block-depth py_str py_int n m (num b) h k =
    parse_block-no_dict py_str py_int n (num b) refl
    ∙ sym (parse_block-no_dict py_str py_int m (num b) refl)
parse_block-depth py_str py_int n m (neg b) h k =
    parse_block-no_dict py_str py_int n (neg b) refl
    ∙ sym (parse_block-no_dict py_str py_int m (neg b) refl)
parse_block-depth py_str py_int n m (real b) h k =
    parse_block-no_dict py_str py_int n (real b) refl
    ∙ sym (parse_block-no_dict py_str py_int m (real b) refl)
parse_block-depth py_str py_int n m (str b) h k =
    parse_block-no_dict py_str py_int n (str b) refl
    ∙ sym (parse_block-no_dict py_str py_int m (str b) refl)
parse_block-depth py_str py_int n m (arr b) h k =
    parse_block-no_dict py_str py_int n (arr b) refl
    ∙ sym (parse_block-no_dict py_str py_int m (arr b) refl)
