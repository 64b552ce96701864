-- ===== src/LegacyReport/Assembly.antt =====
-- A result that passes the checks is assembled.
use noc_report.Common.{
  ◌≡◌, refl, inl, inr, arith, ℕ, suc, String, Bool, true, false, not, ◌&&◌, Option, none, some,
  is_none, Option-cases,
}
use noc_report.Json.{Json, null, arr, obj, Items, nil, cons, Fields, get, get_or_null, or_else}
use noc_report.Document.Reading.{◌>>=◌, each_of, get_or, list_of}
use noc_report.Composition.{Library}
use noc_report.Composition.Presentation.{stat_of}
use noc_report.LegacyReport.{
  legacy_find, legacy_find_lists, analysis_of, legacy_heading, section_screenshots, legacy_analysis,
  legacy_evidence, each_section, build_daily_report_document,
}
use noc_report.LegacyReport.Checks.{
  is_integer, null_or, is_filled, valid_find, valid_finds, valid_find_list, valid_some_finds,
  valid_analysis, valid_section, valid_sections, valid_section_list, validate_merged_daily_report,
}

-- The call returns.
abbrev Returns : {A : Type 0} → Option A → Type 0
Returns m = is_none m ≡ false

Returns-bind :
    {A B : Type 0} (m : Option A) (f : A → Option B)
    → Returns m
    → ((a : A) → Returns (f a))
    → Returns (m >>= f)
Returns-bind none f h k = absurd (ground (arith, h))
Returns-bind (some a) f h k = k a

-- Each section names its screenshots by bucket and object key.
abbrev pub has_screenshots : Json → Bool
has_screenshots (obj d) = not (is_none (section_screenshots d))
has_screenshots _ = true

abbrev pub all_have_screenshots : Items → Bool
all_have_screenshots nil = true
all_have_screenshots (cons j js) = has_screenshots j && all_have_screenshots js

module _ (lib : Library) (is_unit : String → Bool)
    (commas : (j : Json) → is_integer j ≡ true → is_none (lib.with_commas j) ≡ false) where
  stat_of-Returns :
      (count percentage : Json)
      → null_or is_integer count ≡ true
      → Returns (stat_of lib count percentage)
  stat_of-Returns null percentage h = refl
  stat_of-Returns count null h = Returns-bind (lib.with_commas count) _ (commas count h) (λ s. refl)
  stat_of-Returns count percentage h =
      Returns-bind (lib.with_commas count) _ (commas count h) (λ s. refl)

  legacy_find-Returns :
      (zh : Bool) (j : Json)
      → valid_find lib.is_blank is_unit j ≡ true
      → Returns (legacy_find lib zh j)
  unfolding legacy_find valid_find
  legacy_find-Returns zh (obj d) h =
      Returns-bind (stat_of lib (get_or_null "count" d) (get_or_null "percentage" d)) _
        (stat_of-Returns (get_or_null "count" d) (get_or_null "percentage" d) (ground (arith, h)))
        (λ s. refl)
  legacy_find-Returns zh _ h = absurd (ground (arith, h))

  each_find-Returns :
      (zh : Bool) (js : Items)
      → valid_finds lib.is_blank is_unit js ≡ true
      → Returns (each_of (legacy_find lib zh) (list_of js))
  unfolding valid_finds
  each_find-Returns zh nil h = refl
  each_find-Returns zh (cons j js) h =
      Returns-bind (legacy_find lib zh j) _ (legacy_find-Returns zh j (ground (arith, h))) (λ f.
        Returns-bind (each_of (legacy_find lib zh) (list_of js)) _
          (each_find-Returns zh js (ground (arith, h))) (λ fs. refl))

  legacy_find_lists-Returns :
      (zh en : String) (v : Json)
      → valid_find_list lib.is_blank is_unit v ≡ true
      → Returns (legacy_find_lists lib zh en (or_else v (arr nil)))
  unfolding legacy_find_lists
  legacy_find_lists-Returns zh en (arr nil) h = refl
  legacy_find_lists-Returns zh en (arr (cons j js)) h =
      Returns-bind (each_of (legacy_find lib true) (list_of (cons j js))) _
        (each_find-Returns true (cons j js) h)
        (λ f.
          Returns-bind (each_of (legacy_find lib false) (list_of (cons j js))) _
            (each_find-Returns false (cons j js) h) (λ g. refl))
  legacy_find_lists-Returns zh en _ h = absurd (ground (arith, h))

  valid_some_finds-list :
      (v : Json)
      → valid_some_finds lib.is_blank is_unit v ≡ true
      → valid_find_list lib.is_blank is_unit v ≡ true
  valid_some_finds-list (arr (cons j js)) h = h
  valid_some_finds-list (arr nil) h = absurd (ground (arith, h))
  valid_some_finds-list _ h = absurd (ground (arith, h))

  analysis_of-Returns :
      (d : Fields) (title v : Json)
      → null_or (valid_analysis lib.is_blank is_unit) v ≡ true
      → Returns (section_screenshots d)
      → Returns (analysis_of lib d title v)
  unfolding valid_analysis
  analysis_of-Returns d title null h s = refl
  analysis_of-Returns d title (obj a) h s =
      let first = get_or_null "key_finds" a in
      let key : valid_some_finds lib.is_blank is_unit first ≡ true = ground (arith, h) in
      let secondary : valid_find_list lib.is_blank is_unit (get_or_null "secondary_finds" a)
          ≡ true =
        ground (arith, h) in
      Returns-bind (section_screenshots d) _ s (λ shots.
        Returns-bind (legacy_find_lists lib _ _ (or_else first (arr nil))) _
          (legacy_find_lists-Returns _ _ first (valid_some_finds-list first key))
          (λ f.
            Returns-bind
              (legacy_find_lists lib _ _ (or_else (get_or_null "secondary_finds" a) (arr nil))) _
              (legacy_find_lists-Returns _ _ (get_or_null "secondary_finds" a) secondary)
              (λ g. refl)))
  analysis_of-Returns d title _ h s = absurd (ground (arith, h))

  filled-Returns :
      (k : String) (d : Fields)
      → is_filled lib.is_blank is_unit (get_or_null k d) ≡ true
      → Returns (get k d)
  filled-Returns k d h = elim (Option-cases (get k d)) [
    | inr (j, e) ↦ rw e refl
    | inl e ↦ absurd (ground (arith, rw (get_or_null, e) at h))
  ]

  module _ (i : ℕ) (d : Fields) (valid : valid_section lib.is_blank is_unit (obj d) ≡ true)
      (shots : has_screenshots (obj d) ≡ true) where
    shots-Returns : Returns (section_screenshots d)
    shots-Returns = ground arith

    legacy_evidence-Returns : Returns (legacy_evidence lib i d)
    unfolding legacy_evidence valid_section
    legacy_evidence-Returns =
        Returns-bind (get "incident_display_id" d) _
          (filled-Returns "incident_display_id" d (ground (arith, valid)))
          (λ display.
            Returns-bind (get "status" d) _ (filled-Returns "status" d (ground (arith, valid)))
              (λ status. Returns-bind (section_screenshots d) _ shots-Returns (λ s.
                Returns-bind (get "title" d) _ (filled-Returns "title" d (ground (arith, valid)))
                  (λ t. refl))))

    legacy_analysis-Returns : Returns (legacy_analysis lib i d)
    unfolding legacy_analysis valid_section
    legacy_analysis-Returns =
        Returns-bind (get "incident_display_id" d) _
          (filled-Returns "incident_display_id" d (ground (arith, valid)))
          (λ display.
            Returns-bind (get "title" d) _ (filled-Returns "title" d (ground (arith, valid)))
              (λ title.
                Returns-bind
                  (analysis_of lib d (legacy_heading lib i title) (get_or_null "analysis" d)) _
                  (analysis_of-Returns d (legacy_heading lib i title) (get_or_null "analysis" d)
                    (ground (arith, valid)) shots-Returns)
                  (λ a. refl)))

  each_section-Returns :
      {A : Type 0} (f : ℕ → Fields → Option A) (i : ℕ) (js : Items)
      → ((n : ℕ) (d : Fields)
          → valid_section lib.is_blank is_unit (obj d) ≡ true
          → has_screenshots (obj d) ≡ true
          → Returns (f n d))
      → valid_sections lib.is_blank is_unit js ≡ true
      → all_have_screenshots js ≡ true
      → Returns (each_section f i (list_of js))
  unfolding each_section valid_sections valid_section
  each_section-Returns f i nil g v s = refl
  each_section-Returns f i (cons (obj d) js) g v s =
      Returns-bind (f i d) _ (g i d (ground (arith, v)) (ground (arith, s))) (λ a.
        Returns-bind (each_section f (suc i) (list_of js)) _
          (each_section-Returns f (suc i) js g (ground (arith, v)) (ground (arith, s)))
          (λ rest. refl))
  each_section-Returns f i (cons _ js) g v s = absurd (ground (arith, v))

get_or-arr :
    (k : String) (v : Json) (d : Fields) (js : Items)
    → get_or_null k d ≡ arr js
    → get_or k v d ≡ arr js
get_or-arr k v d js h = elim (Option-cases (get k d)) [
  | inl e ↦ absurd (ground (arith, rw (get_or_null, e) at h))
  | inr (j, e) ↦ rw (get_or, e) (rw (get_or_null, e) at h)
]

-- A result of the historical shape that passes the checks, and whose sections name their screenshots by
-- bucket and object key, is assembled into a document: where integers can be printed with commas,
-- nothing in the assembly raises.
pub build_daily_report_document_returns :
    (lib : Library) (is_unit : String → Bool) (d : Fields) (sections : Items)
    → ((j : Json) → is_integer j ≡ true → is_none (lib.with_commas j) ≡ false)
    → validate_merged_daily_report lib.is_blank is_unit d ≡ true
    → get_or_null "sections" d ≡ arr sections
    → all_have_screenshots sections ≡ true
    → is_none (build_daily_report_document lib d) ≡ false
unfolding build_daily_report_document validate_merged_daily_report
build_daily_report_document_returns lib is_unit d sections commas valid named shots =
    let listed : valid_section_list lib.is_blank is_unit (get_or_null "sections" d) ≡ true =
      ground (arith, valid) in
    let all : valid_sections lib.is_blank is_unit sections ≡ true = rw named at listed in
    let js = list_of sections in
    rw (get_or-arr "sections" (arr nil) d sections named) (
      Returns-bind (each_section (legacy_evidence lib) 1 js) _
        (each_section-Returns lib is_unit commas (legacy_evidence lib) 1 sections
          (legacy_evidence-Returns lib is_unit commas) all shots)
        (λ evidence.
          Returns-bind (each_section (legacy_analysis lib) 1 js) _
            (each_section-Returns lib is_unit commas (legacy_analysis lib) 1 sections
              (legacy_analysis-Returns lib is_unit commas) all shots)
            (λ analyses.
              Returns-bind (get "title" d) _
                (filled-Returns lib is_unit commas "title" d (ground (arith, valid)))
                (λ title. refl))))
