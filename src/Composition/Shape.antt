-- ===== src/Composition/Shape.antt =====
-- What stands in a document: the incident blocks, the analyses and the entries of the navigation,
-- gathered from its sections.
use noc_report.Common.{
  ◌≡◌, refl, ap, ◌∙◌, arith, String, Bool, true, false, ◌||◌, List, [], ◌∷◌, ◌++◌,
}
use noc_report.Json.{num, str}
use noc_report.Document.{
  IncidentEvidence, AnalysisReference, NavigationEntry, Block, Blocks, no_blocks, block, heading,
  page_break, alert_navigation, incident_evidence, analysis_reference,
}
use noc_report.Composition.Layout.{
  section, with_navigation, with_incidents, with_all, with_analyses, layout,
}
use noc_report.Composition.Prose.{is_prose, IsProse}

++-nil : {A : Type 0} (xs : List A) → xs ++ [] ≡ xs
++-nil [] = refl
++-nil (x ∷ xs) = ap (λ l. x ∷ l) (++-nil xs)

unfoldable pub gather : {A : Type 0} → (Block → List A) → Blocks → List A
gather f no_blocks = []
gather f (block b bs) = f b ++ gather f bs

abbrev pub incident_in : Block → List IncidentEvidence
incident_in (incident_evidence b) = b ∷ []
incident_in _ = []

abbrev pub analysis_in : Block → List (AnalysisReference × Blocks)
analysis_in (analysis_reference b children) = (b, children) ∷ []
analysis_in _ = []

abbrev pub entries_in : Block → List NavigationEntry
entries_in (alert_navigation es) = es
entries_in _ = []

-- A block that none of the three comes from.
abbrev is_break : Block → Bool
is_break page_break = true
is_break b = false

abbrev is_quiet : Block → Bool
is_quiet b = is_break b || is_prose b

abbrev top : String → Block
top title = heading (record { text = str title; level = num 1 })

IsQuiet : {A : Type 0} → (Block → List A) → Type 0
IsQuiet f = (b : Block) → is_quiet b ≡ true → f b ≡ []

module _ {A : Type 0} (f : Block → List A) (quiet : IsQuiet f) where
  gather-prose :
      (summary : List Block) (rest : Blocks)
      → IsProse summary
      → gather f (with_all summary rest) ≡ gather f rest
  unfolding gather IsQuiet
  gather-prose [] rest h = refl
  gather-prose (b ∷ bs) rest h =
      let quiet_too : is_quiet b ≡ true = ground (arith, h.0) in
      rw (quiet b quiet_too, gather-prose bs rest h.1) refl

  gather-incidents :
      (evidence : List IncidentEvidence) (r q : Blocks)
      → gather f r ≡ gather f q
      → gather f (with_incidents evidence r) ≡ gather f (with_incidents evidence q)
  unfolding gather
  gather-incidents [] r q h = h
  gather-incidents (b ∷ bs) r q h = rw (gather-incidents bs r q h) refl

  gather-navigation :
      (es : List NavigationEntry) (r q : Blocks)
      → gather f r ≡ gather f q
      → gather f (with_navigation es r) ≡ gather f (with_navigation es q)
  unfolding gather
  gather-navigation [] r q h = h
  gather-navigation (e ∷ es) r q h = rw h refl

  gather-layout :
      (es : List NavigationEntry) (evidence : List IncidentEvidence) (summary : List Block)
      (analyses : List (AnalysisReference × Blocks))
      → IsProse summary
      → gather f (layout es evidence summary analyses)
        ≡ gather f (with_navigation es (with_incidents evidence (with_analyses analyses no_blocks)))
  unfolding gather IsQuiet
  gather-layout es evidence summary analyses h =
      let last = with_analyses analyses no_blocks in
      let closing = block page_break (section "Log Analysis" last) in
      let below = block page_break (section "General Summary" (with_all summary closing)) in
      let inner : gather f below ≡ gather f last =
        rw
          (
            quiet page_break refl,
            quiet (top "General Summary") refl,
            gather-prose summary closing h,
            quiet page_break refl,
            quiet (top "Log Analysis") refl,
          )
          refl in
      rw (quiet (top "Alerts") refl) (
        gather-navigation es (with_incidents evidence below) (with_incidents evidence last)
          (gather-incidents evidence below last inner))

incident_in-IsQuiet : IsQuiet incident_in
unfolding IsQuiet
incident_in-IsQuiet (incident_evidence b) h = absurd (ground (arith, h))
incident_in-IsQuiet b h = refl

analysis_in-IsQuiet : IsQuiet analysis_in
unfolding IsQuiet
analysis_in-IsQuiet (analysis_reference b children) h = absurd (ground (arith, h))
analysis_in-IsQuiet b h = refl

entries_in-IsQuiet : IsQuiet entries_in
unfolding IsQuiet
entries_in-IsQuiet (alert_navigation es) h = absurd (ground (arith, h))
entries_in-IsQuiet b h = refl

-- Each of the three sections by itself.
incident_in-analyses :
    (refs : List (AnalysisReference × Blocks))
    → gather incident_in (with_analyses refs no_blocks) ≡ []
unfolding gather
incident_in-analyses [] = refl
incident_in-analyses ((a, c) ∷ refs) = incident_in-analyses refs

entries_in-analyses :
    (refs : List (AnalysisReference × Blocks))
    → gather entries_in (with_analyses refs no_blocks) ≡ []
unfolding gather
entries_in-analyses [] = refl
entries_in-analyses ((a, c) ∷ refs) = entries_in-analyses refs

analysis_in-analyses :
    (refs : List (AnalysisReference × Blocks))
    → gather analysis_in (with_analyses refs no_blocks) ≡ refs
unfolding gather
analysis_in-analyses [] = refl
analysis_in-analyses ((a, c) ∷ refs) = ap (λ l. (a, c) ∷ l) (analysis_in-analyses refs)

incident_in-incidents :
    (es : List IncidentEvidence) (rest : Blocks)
    → gather incident_in rest ≡ []
    → gather incident_in (with_incidents es rest) ≡ es
unfolding gather
incident_in-incidents [] rest h = h
incident_in-incidents (e ∷ es) rest h = ap (λ l. e ∷ l) (incident_in-incidents es rest h)

entries_in-incidents :
    (es : List IncidentEvidence) (rest : Blocks)
    → gather entries_in (with_incidents es rest) ≡ gather entries_in rest
unfolding gather
entries_in-incidents [] rest = refl
entries_in-incidents (e ∷ es) rest = entries_in-incidents es rest

analysis_in-incidents :
    (es : List IncidentEvidence) (rest : Blocks)
    → gather analysis_in (with_incidents es rest) ≡ gather analysis_in rest
unfolding gather
analysis_in-incidents [] rest = refl
analysis_in-incidents (e ∷ es) rest = analysis_in-incidents es rest

incident_in-navigation :
    (es : List NavigationEntry) (rest : Blocks)
    → gather incident_in (with_navigation es rest) ≡ gather incident_in rest
unfolding gather
incident_in-navigation [] rest = refl
incident_in-navigation (e ∷ es) rest = refl

analysis_in-navigation :
    (es : List NavigationEntry) (rest : Blocks)
    → gather analysis_in (with_navigation es rest) ≡ gather analysis_in rest
unfolding gather
analysis_in-navigation [] rest = refl
analysis_in-navigation (e ∷ es) rest = refl

entries_in-navigation :
    (es : List NavigationEntry) (rest : Blocks)
    → gather entries_in rest ≡ []
    → gather entries_in (with_navigation es rest) ≡ es
unfolding gather
entries_in-navigation [] rest h = h
entries_in-navigation (e ∷ es) rest h = rw h (++-nil (e ∷ es))

module _ (es : List NavigationEntry) (evidence : List IncidentEvidence) (summary : List Block)
    (refs : List (AnalysisReference × Blocks)) (prose : IsProse summary) where
  pub incidents_of-layout : gather incident_in (layout es evidence summary refs) ≡ evidence
  incidents_of-layout =
      gather-layout incident_in incident_in-IsQuiet es evidence summary refs prose
      ∙ incident_in-navigation es (with_incidents evidence (with_analyses refs no_blocks))
      ∙ incident_in-incidents evidence (with_analyses refs no_blocks) (incident_in-analyses refs)

  pub analyses_of-layout : gather analysis_in (layout es evidence summary refs) ≡ refs
  analyses_of-layout =
      gather-layout analysis_in analysis_in-IsQuiet es evidence summary refs prose
      ∙ analysis_in-navigation es (with_incidents evidence (with_analyses refs no_blocks))
      ∙ analysis_in-incidents evidence (with_analyses refs no_blocks)
      ∙ analysis_in-analyses refs

  pub entries_of-layout : gather entries_in (layout es evidence summary refs) ≡ es
  entries_of-layout =
      gather-layout entries_in entries_in-IsQuiet es evidence summary refs prose
      ∙ entries_in-navigation es (with_incidents evidence (with_analyses refs no_blocks))
          (entries_in-incidents evidence (with_analyses refs no_blocks) ∙ entries_in-analyses refs)
