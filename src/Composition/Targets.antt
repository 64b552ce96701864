-- ===== src/Composition/Targets.antt =====
-- The links of a report: where the navigation and the incident blocks point to.
use text.Mathlib.Text.{◌==◌ as str_eq}
use text.Mathlib.TextEquality.{eq_iff}
use noc_report.Common.{
  ◌≡◌, ◌⊎◌, inl, inr, refl, sym, arith, ℕ, suc, String, Bool, true, some, List, [], ◌∷◌, All,
  All-imp, Exists, Exists-imp, Among, Bool-cases, Option-cases, if◌then◌else◌,
}
use noc_report.Json.{Json, null, bool, num, neg, real, str, arr, obj, Fields, is_truthy}
use noc_report.Document.{IncidentEvidence, AnalysisReference, Blocks, ReportDocument}
use noc_report.Document.Preview.{is_null}
use noc_report.Composition.{Library}
use noc_report.Composition.Blocks.{incident_block}
use noc_report.Composition.Plan.{Dict, lookup, assign, id_of}
use noc_report.Composition.Layout.{
  has_target, assign_named, targets, navigation, incident_blocks, target_of,
}
use noc_report.Composition.Compose.{compose_report}
use noc_report.Composition.Coverage.{incident_block-facts}
use noc_report.Composition.Prose.{parsed_plan-IsProse}
use noc_report.Composition.Shape.{
  gather, incident_in, analysis_in, entries_in, incidents_of-layout, analyses_of-layout,
  entries_of-layout,
}
use noc_report.Composition.Run.{>>=-some, compose_report-Run}

-- Some analysis that is shown has this bookmark.
abbrev pub IsBookmark : List (AnalysisReference × Blocks) → Json → Type 0
IsBookmark refs target =
    Exists (λ a. (a.0.bookmark ≡ target) × (is_truthy a.0.available ≡ true)) refs

-- Some analysis of the incident is shown and has this bookmark.
abbrev pub IsAnalysisOf : List (AnalysisReference × Blocks) → Json → Json → Type 0
IsAnalysisOf refs id target =
    Exists
      (λ a. (a.0.incident_id ≡ id) × (a.0.bookmark ≡ target) × (is_truthy a.0.available ≡ true))
      refs

pub lookup-assign :
    {A : Type 0} (k j : String) (a : A) (d : Dict A)
    → lookup k (assign j a d) ≡ (if str_eq j k then some a else lookup k d)
unfolding lookup assign
lookup-assign k j a [] = refl
lookup-assign k j a ((i, b) ∷ d) =
    ground (arith, lookup-assign k j a d, eq_iff i j, eq_iff i k, eq_iff j k)

pub All-Among : {A : Type 0} (xs : List A) → All (λ x. Among x xs) xs
All-Among [] = tt
All-Among (x ∷ xs) =
    (inl refl, All-imp (λ y. Among y xs) (λ y. Among y (x ∷ xs)) xs (λ y h. inr h) (All-Among xs))

module _ (Q : String → Json → Type 0) where
  assign-lookup :
      (id : String) (target : Json) (known : Dict Json)
      → Q id target
      → ((k : String) (t : Json) → lookup k known ≡ some t → Q k t)
      → (k : String) (t : Json) → lookup k (assign id target known) ≡ some t
      → Q k t
  assign-lookup id target known q g k t e = elim (Bool-cases (str_eq id k)) [
    | inl same ↦
        let key : id ≡ k = ground (arith, eq_iff id k, same) in
        let value : target ≡ t = ground (arith, lookup-assign k id target known, same, e) in
        rw (sym key, sym value) q
    | inr other ↦ g k t (ground (arith, lookup-assign k id target known, other, e))
  ]

  assign_named-lookup :
      (id target : Json) (known : Dict Json)
      → ((name : String) → id ≡ str name → Q name target)
      → ((k : String) (t : Json) → lookup k known ≡ some t → Q k t)
      → (k : String) (t : Json) → lookup k (assign_named id target known) ≡ some t
      → Q k t
  assign_named-lookup (str name) target known q g k t e =
      assign-lookup name target known (q name refl) g k t e
  assign_named-lookup null target known q g k t e = g k t e
  assign_named-lookup (bool b) target known q g k t e = g k t e
  assign_named-lookup (num b) target known q g k t e = g k t e
  assign_named-lookup (neg b) target known q g k t e = g k t e
  assign_named-lookup (real b) target known q g k t e = g k t e
  assign_named-lookup (arr b) target known q g k t e = g k t e
  assign_named-lookup (obj b) target known q g k t e = g k t e

  -- What holds of every analysis that is shown holds of what the targets name.
  targets-lookup :
      (refs : List (AnalysisReference × Blocks)) (known : Dict Json)
      → All
          (λ a.
            (id : String)
            → a.0.incident_id ≡ str id
            → is_truthy a.0.available ≡ true
            → Q id a.0.bookmark)
          refs
      → ((k : String) (t : Json) → lookup k known ≡ some t → Q k t)
      → (k : String) (t : Json) → lookup k (targets refs known) ≡ some t
      → Q k t
  unfolding targets
  targets-lookup [] known h g k t e = g k t e
  targets-lookup ((a, c) ∷ refs) known h g k t e = elim (Bool-cases (has_target a)) [
    | inl shown ↦
        let present : is_truthy a.available ≡ true = ground (arith, shown) in
        let next = assign_named a.incident_id a.bookmark known in
        let q : (name : String) → a.incident_id ≡ str name → Q name a.bookmark =
          λ name n. h.0 name n present in
        targets-lookup refs next h.1 (assign_named-lookup a.incident_id a.bookmark known q g) k t
          (rw shown at e)
    | inr hidden ↦ targets-lookup refs known h.1 g k t (rw hidden at e)
  ]

-- A target belongs to an analysis that is shown.
targets-IsAnalysisOf :
    (refs : List (AnalysisReference × Blocks)) (k : String) (t : Json)
    → lookup k (targets refs []) ≡ some t
    → IsAnalysisOf refs (str k) t
unfolding lookup
targets-IsAnalysisOf refs =
    targets-lookup (λ k t. IsAnalysisOf refs (str k) t) refs []
      (All-imp (λ a. Among a refs) _ refs
        (λ a among id named shown.
          Exists-imp (λ b. a ≡ b) _ refs (λ b same. rw (sym same) (named, refl, shown)) among)
        (All-Among refs))
      (λ k t e. absurd (ground (arith, e)))

-- An incident block that links to nothing, or to an analysis of its incident.
abbrev pub HasLink : List (AnalysisReference × Blocks) → IncidentEvidence → Type 0
HasLink refs b =
    (is_null b.navigation_target ≡ true) ⊎ IsAnalysisOf refs b.incident_id b.navigation_target

module _ (lib : Library) (refs : List (AnalysisReference × Blocks)) where
  navigation-IsBookmark :
      (n : ℕ) (ds : List Fields)
      → All (λ e. IsBookmark refs e.target) (navigation lib (targets refs []) n ds)
  unfolding navigation
  navigation-IsBookmark n [] = tt
  navigation-IsBookmark n (d ∷ ds) = elim (Option-cases (lookup (id_of lib d) (targets refs []))) [
    | inl e ↦ rw e (navigation-IsBookmark (suc n) ds)
    | inr (t, e) ↦ rw e (
      Exists-imp _ _ refs (λ a h. (h.1, h.2)) (targets-IsAnalysisOf refs (id_of lib d) t e),
      navigation-IsBookmark (suc n) ds,
    )
  ]

  target_of-HasLink :
      (d : Fields)
      → (is_null (target_of lib (targets refs []) d) ≡ true)
        ⊎ IsAnalysisOf refs (str (id_of lib d)) (target_of lib (targets refs []) d)
  target_of-HasLink d = elim (Option-cases (lookup (id_of lib d) (targets refs []))) [
    | inl e ↦ inl (rw (target_of, e) refl)
    | inr (t, e) ↦ inr (rw (target_of, e) (targets-IsAnalysisOf refs (id_of lib d) t e))
  ]

  incident_blocks-HasLink :
      (canonical : Bool) (n : ℕ) (ds : List Fields) (bs : List IncidentEvidence)
      → incident_blocks lib canonical (targets refs []) n ds ≡ some bs
      → All (HasLink refs) bs
  unfolding incident_blocks
  incident_blocks-HasLink canonical n [] bs h = let e : [] ≡ bs = ground arith in rw (sym e) tt
  incident_blocks-HasLink canonical n (d ∷ ds) bs h =
      let target = target_of lib (targets refs []) d in
      let (b, made, h1) = >>=-some (incident_block lib canonical d n target) _ bs h in
      let (rest, below, h2) =
        >>=-some (incident_blocks lib canonical (targets refs []) (suc n) ds) _ bs h1 in
      let e : b ∷ rest ≡ bs = ground arith in
      let f = incident_block-facts lib canonical d n target b made in
      rw (sym e) (
        rw (f.0, f.3) (target_of-HasLink d),
        incident_blocks-HasLink canonical (suc n) ds rest below,
      )

-- Of the top-level blocks of a report that is composed, each entry of the navigation points to the
-- bookmark of a top-level analysis block, and each incident block points to nothing or to the bookmark of
-- a top-level analysis block of its own incident. Blocks that the stored presentation of an analysis nests
-- inside one of these are not restricted.
pub compose_report-links :
    (lib : Library) (plan snapshot : Fields) (doc : ReportDocument)
    → compose_report lib (obj plan) snapshot ≡ some doc
    → All (λ e. IsBookmark (gather analysis_in doc.blocks) e.target) (gather entries_in doc.blocks)
      × All (HasLink (gather analysis_in doc.blocks)) (gather incident_in doc.blocks)
compose_report-links lib plan snapshot doc h =
    let r = compose_report-Run lib plan snapshot doc h in
    let entries = navigation lib (targets r.analyses []) 1 r.alerts in
    let prose = parsed_plan-IsProse lib r.frozen r.policy plan r.parsed r.plan_read in
    rw
      (
        sym r.document,
        analyses_of-layout entries r.evidence r.parsed.summary r.analyses prose,
        entries_of-layout entries r.evidence r.parsed.summary r.analyses prose,
        incidents_of-layout entries r.evidence r.parsed.summary r.analyses prose,
      )
      (
        navigation-IsBookmark lib r.analyses 1 r.alerts,
        incident_blocks-HasLink lib r.analyses r.policy.canonical 1 r.alerts r.evidence
            r.evidence_read,
      )
