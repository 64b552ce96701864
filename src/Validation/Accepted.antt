-- ===== src/Validation/Accepted.antt =====
-- What holds of a log analysis that the checks accept.
use noc_report.Common.{
  ◌≡◌, ◌⊎◌, inl, inr, refl, sym, ap, ◌∙◌, arith, ℕ, ◌≤◌, String, true, false, ◌||◌, Option, none,
  some, List, [], ◌∷◌, ◌++◌, All, Bool-cases,
}
use noc_report.Json.{Json, null, num, str, arr, obj, Items, nil, cons, Fields, get_or_null}
use noc_report.Document.Reading.{list_of}
use noc_report.Composition.{dicts_of}
use noc_report.Composition.Plan.{is_in, has_duplicates}
use noc_report.Composition.Run.{>>=-some, if-some, some-same}
use noc_report.Validation.{Text}
use noc_report.Validation.Finds.{
  Seen, texts_of, distinct_texts, pattern_ids, meets, is_unquantified, is_null, valid_count,
  valid_numbers, text_id, agrees, accepts, check_finding, check_findings,
}

-- The id and the pattern ids of a finding.
abbrev pub id_text : Json → String
id_text (str s) = s
id_text _ = ""

abbrev pub or_empty : Option (List String) → List String
or_empty none = []
or_empty (some ss) = ss

abbrev pub patterns_of : Fields → List String
patterns_of d = or_empty (pattern_ids (get_or_null "pattern_ids" d))

-- The ids of the findings, and all their pattern ids, in front of the ones given, last finding first.
unfoldable pub names_onto : List Fields → List String → List String
names_onto [] seen = seen
names_onto (d ∷ ds) seen = names_onto ds (id_text (get_or_null "id" d) ∷ seen)

unfoldable pub patterns_onto : List Fields → List String → List String
patterns_onto [] seen = seen
patterns_onto (d ∷ ds) seen = patterns_onto ds (patterns_of d ++ seen)

-- A finding claims no count and no percentage and is marked as unquantified, or it claims a count of at
-- most the total and a percentage that agrees with both.
abbrev pub IsCounted : Text → ℕ → Fields → Type 0
IsCounted t total d =
    ((is_unquantified (patterns_of d) ≡ true)
      × (get_or_null "count" d ≡ null)
      × (get_or_null "percentage" d ≡ null))
    ⊎ ((c : ℕ) × (get_or_null "count" d ≡ num c)
        × (c ≤ total)
        × (agrees t (get_or_null "percentage" d) c total ≡ true))

is_in-++ : (x : String) (xs ys : List String) → is_in x (xs ++ ys) ≡ (is_in x xs || is_in x ys)
unfolding is_in
is_in-++ x [] ys = refl
is_in-++ x (y ∷ xs) ys = ground (arith, is_in-++ x xs ys)

has_duplicates-++ :
    (xs ys : List String)
    → has_duplicates xs ≡ false
    → has_duplicates ys ≡ false
    → meets ys xs ≡ false
    → has_duplicates (xs ++ ys) ≡ false
unfolding has_duplicates
has_duplicates-++ [] ys h k m = k
has_duplicates-++ (x ∷ xs) ys h k m =
    let rest : has_duplicates (xs ++ ys) ≡ false =
      has_duplicates-++ xs ys (ground (arith, h)) k (ground (arith, m)) in
    ground (arith, rest, is_in-++ x xs ys, h, m)

distinct_texts-distinct :
    (ss rs : List String) → distinct_texts ss ≡ some rs → has_duplicates rs ≡ false
distinct_texts-distinct [] rs h = absurd (ground (arith, h))
distinct_texts-distinct (s ∷ ss) rs h = elim (Bool-cases (has_duplicates (s ∷ ss))) [
  | inl e ↦ let broken : none ≡ some rs = rw e at h in absurd (ground (arith, broken))
  | inr e ↦
      let same : some (s ∷ ss) ≡ some rs = rw e at h in rw (sym (some-same (s ∷ ss) rs same)) e
]

pattern_ids-distinct :
    (j : Json) (ss : List String) → pattern_ids j ≡ some ss → has_duplicates ss ≡ false
unfolding pattern_ids
pattern_ids-distinct (arr js) ss h =
    let (rs, e, h1) = >>=-some (texts_of js) _ ss h in distinct_texts-distinct rs ss h1
pattern_ids-distinct _ ss h = absurd (ground (arith, h))

text_id-text : (t : Text) (j : Json) (s : String) → text_id t j ≡ some s → id_text j ≡ s
text_id-text t (str r) s h = ground (arith, h)
text_id-text t _ s h = absurd (ground (arith, h))

module _ (t : Text) (total : ℕ) where
  -- What was seen has no repetition.
  abbrev pub Distinct : Seen → Type 0
  Distinct seen = (has_duplicates seen.finding_ids ≡ false) × (has_duplicates seen.ids ≡ false)

  valid_count-counted :
      (physical count percentage : Json)
      → valid_count t total physical count percentage ≡ true
      → (c : ℕ) × (count ≡ num c) × (c ≤ total) × (agrees t percentage c total ≡ true)
  valid_count-counted physical (num c) percentage h =
      (c, refl, ground (arith, h), ground (arith, h))
  valid_count-counted physical _ percentage h = absurd (ground (arith, h))

  is_null-null : (j : Json) → is_null j ≡ true → j ≡ null
  is_null-null null h = refl
  is_null-null _ h = absurd (ground (arith, h))

  valid_numbers-IsCounted :
      (d : Fields) → valid_numbers t total (patterns_of d) d ≡ true → IsCounted t total d
  unfolding valid_numbers
  valid_numbers-IsCounted d h = elim (Bool-cases (is_unquantified (patterns_of d))) [
    | inl e ↦ inl (
      e,
      is_null-null (get_or_null "count" d) (ground (arith, h, e)),
      is_null-null (get_or_null "percentage" d) (ground (arith, h, e)),
    )
    | inr e ↦ inr (
        valid_count-counted (get_or_null "physical_entry_count" d) (get_or_null "count" d)
          (get_or_null "percentage" d) (ground (arith, h, e)))
  ]

  -- What one finding that is accepted leaves.
  abbrev Step : Fields → Seen → Seen → Type 0
  Step d seen seen' =
      (seen'.finding_ids ≡ id_text (get_or_null "id" d) ∷ seen.finding_ids)
      × (seen'.ids ≡ patterns_of d ++ seen.ids)
      × Distinct seen'
      × IsCounted t total d

  check_finding-Step :
      (d : Fields) (seen seen' : Seen)
      → Distinct seen
      → check_finding t total (obj d) seen ≡ some seen'
      → Step d seen seen'
  unfolding check_finding accepts has_duplicates
  check_finding-Step d seen seen' g h =
      let (id, i, h1) = >>=-some (text_id t (get_or_null "id" d)) _ seen' h in
      let (ps, p, h2) = >>=-some (pattern_ids (get_or_null "pattern_ids" d)) _ seen' h1 in
      let next : Seen = record { ids = ps ++ seen.ids; finding_ids = id ∷ seen.finding_ids } in
      let (ok, h3) = if-some (accepts t total seen id ps d) (some next) seen' h2 in
      let named = text_id-text t (get_or_null "id" d) id i in
      let listed : patterns_of d ≡ ps = rw p refl in
      let fresh : is_in id seen.finding_ids ≡ false = ground (arith, ok) in
      let unmet : meets seen.ids ps ≡ false = ground (arith, ok) in
      let counted : valid_numbers t total ps d ≡ true = ground (arith, ok) in
      let ids = has_duplicates-++ ps seen.ids (pattern_ids-distinct _ ps p) g.1 unmet in
      let names : has_duplicates (id ∷ seen.finding_ids) ≡ false = ground (arith, fresh, g.0) in
      rw (sym (some-same next seen' h3))
        (rw named refl, rw listed refl, (names, ids), valid_numbers-IsCounted d (rw listed counted))

  -- What a list of findings that are accepted leaves.
  abbrev pub Steps : List Fields → Seen → Seen → Type 0
  Steps ds seen seen' =
      (seen'.finding_ids ≡ names_onto ds seen.finding_ids)
      × (seen'.ids ≡ patterns_onto ds seen.ids)
      × Distinct seen'
      × All (IsCounted t total) ds

  pub check_findings-Steps :
      (js : Items) (seen seen' : Seen)
      → Distinct seen
      → check_findings t total js seen ≡ some seen'
      → Steps (dicts_of (list_of js)) seen seen'
  unfolding check_findings check_finding names_onto patterns_onto
  check_findings-Steps nil seen seen' g h = rw (sym (some-same seen seen' h)) (refl, refl, g, tt)
  check_findings-Steps (cons (obj d) js) seen seen' g h =
      let (next, e, h1) = >>=-some (check_finding t total (obj d) seen) _ seen' h in
      let s = check_finding-Step d seen next g e in
      let r = check_findings-Steps js next seen' s.2 h1 in
      (
        r.0 ∙ ap (names_onto (dicts_of (list_of js))) s.0,
        r.1 ∙ ap (patterns_onto (dicts_of (list_of js))) s.1,
        r.2,
        (s.3, r.3),
      )
  check_findings-Steps (cons _ js) seen seen' g h = absurd (ground (arith, h))
