-- ===== src/Composition/Origin.antt =====
-- Where the analysis blocks of a report come from (`_analysis_block`,
-- bridge/noc_bridge/report_composition.py).
use noc_report.Common.{
  ◌≡◌, ◌⊎◌, inl, inr, refl, sym, ap, arith, ℕ, suc, String, Bool, Option, none, some, is_none, List,
  [], ◌∷◌, ◌&&◌, All, Exists, Exists-imp, Among, Bool-cases,
}
use noc_report.Json.{Json, null, num, str, Fields, get, get_or_null, is_truthy}
use noc_report.Document.{AnalysisReference, Blocks, no_blocks, block, heading}
use noc_report.Composition.{Library, as_dict, incident_screenshots}
use noc_report.Composition.Blocks.{
  unavailable, available_analysis, analysis_block, frozen, node_matches, fragment_of,
  without_children, children_or_fragment,
}
use noc_report.Composition.Presentation.{build_analysis_presentation}
use noc_report.Composition.Plan.{Dict, Parsed, id_of}
use noc_report.Composition.Select.{analysis_blocks, run_of}
use noc_report.Composition.Coverage.{get-id_of}
use noc_report.Composition.Run.{>>=-some, some-same}

-- The analysis block is about this incident: its id, no run or its frozen run, and no screenshots or its
-- own.
abbrev pub IsAnalysis : Library → Fields → AnalysisReference → Type 0
IsAnalysis lib d a =
    (a.incident_id ≡ str (id_of lib d))
    × ((a.analysis_run_id ≡ null) ⊎ (a.analysis_run_id ≡ str (run_of lib d)))
    × ((incident_screenshots d ≡ some a.screenshots) ⊎ (a.screenshots ≡ []))

-- The blocks in an analysis are made of nothing but this incident: none, or its frozen analysis as it is
-- presented.
abbrev pub IsFrozenContent : Library → Fields → Blocks → Type 0
IsFrozenContent lib d bs =
    (bs ≡ no_blocks)
    ⊎ ((fragment : Json) × (presented : Blocks) × (children : Blocks) × (fragment_of lib d
          ≡ some fragment)
        × (build_analysis_presentation lib (get_or_null "analysis" d)
              (get_or_null "analysis_presentation_contract" d)
            ≡ some presented)
        × (children_or_fragment lib fragment presented ≡ some children)
        × (bs ≡ block (heading (record { text = str "Log Analysis"; level = num 3 })) children))

-- An analysis with its blocks, of this incident.
abbrev pub IsAnalysisWith : Library → Fields → AnalysisReference × Blocks → Type 0
IsAnalysisWith lib d (a, bs) = IsAnalysis lib d a × IsFrozenContent lib d bs

pub along : {A : Type 0} (P : A → Type 0) {x : A} (a : A) → some x ≡ some a → P x → P a
along P {x} a e p = rw (sym (some-same x a e)) p

module _ (lib : Library) where
  unavailable-IsAnalysis :
      (d : Fields) (n : ℕ) (run : Json) (why : String) (a : AnalysisReference)
      → unavailable lib d n run why ≡ some a
      → (run ≡ null) ⊎ (run ≡ str (run_of lib d))
      → IsAnalysis lib d a
  unfolding unavailable
  unavailable-IsAnalysis d n run why a h r =
      let (id, i, h1) = >>=-some (get "id" d) _ a h in
      along (IsAnalysis lib d) a h1 (ap str (sym (get-id_of lib d id i)), r, inr refl)

  available_analysis-IsAnalysis :
      (d : Fields) (n : ℕ) (fragment : Json) (a : AnalysisReference × Blocks)
      → fragment_of lib d ≡ some fragment
      → available_analysis lib d n fragment ≡ some a
      → IsAnalysisWith lib d a
  unfolding available_analysis
  available_analysis-IsAnalysis d n fragment a f h =
      let (presented, p, h1) =
        >>=-some
          (build_analysis_presentation lib (get_or_null "analysis" d)
            (get_or_null "analysis_presentation_contract" d))
          _ a h in
      let (children, c, h2) = >>=-some (children_or_fragment lib fragment presented) _ a h1 in
      let (shots, s, h3) = >>=-some (incident_screenshots d) _ a h2 in
      let (id, i, h4) = >>=-some (get "id" d) _ a h3 in
      along (λ (x : AnalysisReference × Blocks). IsAnalysisWith lib d x) a h4
        (
          (ap str (sym (get-id_of lib d id i)), inr refl, inl s),
          inr (fragment, presented, children, f, p, c, refl),
        )

  without_children-IsAnalysis :
      (d : Fields) (n : ℕ) (run : Json) (why : String) (a : AnalysisReference × Blocks)
      → without_children lib (unavailable lib d n run why) ≡ some a
      → (run ≡ null) ⊎ (run ≡ str (run_of lib d))
      → IsAnalysisWith lib d a
  without_children-IsAnalysis d n run why a h r =
      let (b, u, h1) = >>=-some (unavailable lib d n run why) _ a h in
      along (λ (x : AnalysisReference × Blocks). IsAnalysisWith lib d x) a h1
        (unavailable-IsAnalysis d n run why b u r, inl refl)

  frozen-IsAnalysis :
      (d : Fields) (n : ℕ) (fragment : Option Json) (a : AnalysisReference × Blocks)
      → fragment_of lib d ≡ fragment
      → frozen lib d n fragment ≡ some a
      → IsAnalysisWith lib d a
  frozen-IsAnalysis d n none a f h = absurd (ground arith)
  frozen-IsAnalysis d n (some fragment) a f h =
      elim (Bool-cases
        (is_none (as_dict fragment) && is_none (as_dict (get_or_null "analysis" d)))) [
          | inl e ↦
              without_children-IsAnalysis d n (str (run_of lib d))
                "The frozen analysis has no report export." a (rw e at h) (inr refl)
          | inr e ↦ available_analysis-IsAnalysis d n fragment a f (rw e at h)
        ]

  analysis_block-IsAnalysis :
      (d : Fields) (asked : Option Fields) (n : ℕ) (a : AnalysisReference × Blocks)
      → analysis_block lib d asked n ≡ some a
      → IsAnalysisWith lib d a
  unfolding analysis_block
  analysis_block-IsAnalysis d asked n a h = elim (Bool-cases (node_matches lib asked d)) [
    | inr f ↦ let broken : none ≡ some a = rw f at h in absurd (ground (arith, broken))
    | inl f ↦ elim (Bool-cases (is_truthy (get_or_null "analysis_run_id" d))) [
      | inr g ↦
          without_children-IsAnalysis d n null "No log analysis available for this incident." a
            (rw (f, g) at h) (inl refl)
      | inl g ↦ frozen-IsAnalysis d n (fragment_of lib d) a refl (rw (f, g) at h)
    ]
  ]

  pub analysis_blocks-IsAnalysis :
      (narrative : Bool) (s : Parsed) (known : Dict ℕ) (i : ℕ) (ds : List Fields)
      (refs : List (AnalysisReference × Blocks)) (js : List Fields)
      → All (λ d. Among d js) ds
      → analysis_blocks lib narrative s known i ds ≡ some refs
      → All (λ a. Exists (λ d. IsAnalysisWith lib d a) js) refs
  unfolding analysis_blocks
  analysis_blocks-IsAnalysis narrative s known i [] refs js q h = along (All _) refs h tt
  analysis_blocks-IsAnalysis narrative s known i (d ∷ ds) refs js q h =
      let (a, made, h1) = >>=-some (analysis_block lib d _ _) _ refs h in
      let (rest, below, h2) =
        >>=-some (analysis_blocks lib narrative s known (suc i) ds) _ refs h1 in
      let about = analysis_block-IsAnalysis d _ _ a made in
      along (All (λ a. Exists (λ d. IsAnalysisWith lib d a) js)) refs h2 (
        Exists-imp (λ c. d ≡ c) _ js (λ c same. rw (sym same) about) q.0,
        analysis_blocks-IsAnalysis narrative s known (suc i) ds rest js q.1 below,
      )
