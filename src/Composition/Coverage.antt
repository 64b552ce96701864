-- ===== src/Composition/Coverage.antt =====
-- Which incidents a report shows, in which order and under which numbers.
use noc_report.Common.{
  ◌≡◌, refl, sym, arith, ℕ, suc, Bool, none, some, List, [], ◌∷◌, ap, if◌then◌else◌,
}
use noc_report.Json.{Json, null, bool, num, neg, real, str, arr, obj, Fields, get, get_or_null}
use noc_report.Document.{IncidentEvidence}
use noc_report.Composition.{
  Library, alert_heading, incident_screenshots, dicts_of, evidence_metadata, incident_metadata,
  incident_log_file,
}
use noc_report.Composition.Blocks.{incident_block, incident_links}
use noc_report.Composition.Plan.{Dict, Frozen, id_of, register, collect}
use noc_report.Composition.Run.{>>=-some}

-- The blocks show these incidents, each once and in this order, numbered from n, with the
-- screenshots that the snapshot has of them.
unfoldable pub Shows : Library → ℕ → List Fields → List IncidentEvidence → Type 0
Shows lib n [] [] = Unit
Shows lib n (d ∷ ds) (b ∷ bs) =
    (b.incident_id ≡ str (id_of lib d))
    × (b.heading ≡ alert_heading lib "Incident" n d)
    × (incident_screenshots d ≡ some b.screenshots)
    × Shows lib (suc n) ds bs
Shows lib n _ _ = ⊥

module _ (lib : Library) where
  pub get-id_of : (d : Fields) (id : Json) → get "id" d ≡ some id → id_of lib d ≡ lib.to_str id
  get-id_of d id i = rw (id_of, get_or_null, i) refl

  pub incident_block-facts :
      (canonical : Bool) (d : Fields) (n : ℕ) (target : Json) (b : IncidentEvidence)
      → incident_block lib canonical d n target ≡ some b
      → (b.incident_id ≡ str (id_of lib d))
        × (b.heading ≡ alert_heading lib "Incident" n d)
        × (incident_screenshots d ≡ some b.screenshots)
        × (b.navigation_target ≡ target)
  unfolding incident_block
  incident_block-facts canonical d n target b h =
      let (shots, s, h1) = >>=-some (incident_screenshots d) _ b h in
      let (id, i, h2) = >>=-some (get "id" d) _ b h1 in
      let made : IncidentEvidence = record {
        heading = alert_heading lib "Incident" n d;
        incident_id = str (lib.to_str id);
        metadata = if canonical then evidence_metadata lib d else incident_metadata lib d;
        link = none;
        links = incident_links canonical d;
        log_file = incident_log_file d;
        screenshots = shots;
        navigation_target = target;
      } in
      let e : made ≡ b = ground arith in rw (sym e) (ap str (sym (get-id_of d id i)), refl, s, refl)

  pub collect-unique :
      (js : List Json) (index : Dict Fields) (f : Frozen)
      → collect lib js index ≡ some f
      → dicts_of js ≡ f.unique
  unfolding collect
  collect-unique [] index f h =
      let e : record { index = index; unique = [] } ≡ f = ground arith in rw (sym e) refl
  collect-unique (obj d ∷ js) index f h =
      let (index', r, h1) = >>=-some (register lib d index) _ f h in
      let (g, rest, h2) = >>=-some (collect lib js index') _ f h1 in
      let e : record g { unique = d ∷ g.unique } ≡ f = ground arith in
      rw (sym e) (ap (λ l. d ∷ l) (collect-unique js index' g rest))
  collect-unique (null ∷ js) index f h = absurd (ground arith)
  collect-unique (bool b ∷ js) index f h = absurd (ground arith)
  collect-unique (num b ∷ js) index f h = absurd (ground arith)
  collect-unique (neg b ∷ js) index f h = absurd (ground arith)
  collect-unique (real b ∷ js) index f h = absurd (ground arith)
  collect-unique (str b ∷ js) index f h = absurd (ground arith)
  collect-unique (arr b ∷ js) index f h = absurd (ground arith)
