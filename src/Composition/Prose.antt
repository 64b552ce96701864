-- ===== src/Composition/Prose.antt =====
-- What a plan brings into a report: headings, paragraphs, texts in two languages and dividers.
use noc_report.Common.{
  ◌≡◌, refl, sym, arith, Bool, true, false, ◌&&◌, Option, none, some, List, [], ◌∷◌, ◌++◌, All,
  if◌then◌else◌,
}
use noc_report.Json.{
  Json, null, bool, num, neg, real, str, arr, obj, Fields, get, get_or_null, or_else, has_key,
}
use noc_report.Document.{Block, heading, paragraph, divider, bilingual_text}
use noc_report.Document.Reading.{◌>>=◌, get_or, elements}
use noc_report.Composition.{Library, text_of}
use noc_report.Composition.Plan.{
  is_kind, is_one, is_in, top_level_headings, lookup, id_of, analysed_incident, add_analysis,
  Frozen, Parsed, heading_node, incident_node, analysis_node, parse_node, parse, nothing_parsed,
  narrative_summary,
}
use noc_report.Composition.Select.{Policy, listed_plan, parsed_plan}
use noc_report.Composition.Run.{>>=-some}

abbrev pub is_prose : Block → Bool
is_prose (heading b) = true
is_prose (paragraph b) = true
is_prose (bilingual_text b) = true
is_prose divider = true
is_prose _ = false

abbrev pub IsProse : List Block → Type 0
IsProse bs = All (λ b. is_prose b ≡ true) bs

IsProse-snoc :
    (bs : List Block) (b : Block) → IsProse bs → is_prose b ≡ true → IsProse (bs ++ (b ∷ []))
IsProse-snoc [] b h e = (e, tt)
IsProse-snoc (c ∷ bs) b h e = (h.0, IsProse-snoc bs b h.1 e)

-- A step of the loop that returns keeps the summary prose.
Keeps : Option Parsed → Type 0
Keeps m = (s : Parsed) → m ≡ some s → IsProse s.summary

Keeps-if : (c : Bool) (m n : Option Parsed) → Keeps m → Keeps n → Keeps (if c then m else n)
Keeps-if true m n h k = h
Keeps-if false m n h k = k

Keeps-some : (s : Parsed) → IsProse s.summary → Keeps (some s)
unfolding Keeps
Keeps-some s h s' e = let same : s ≡ s' = ground arith in rw (sym same) h

Keeps-none : Keeps none
unfolding Keeps
Keeps-none s e = absurd (ground arith)

Keeps-bind :
    {A : Type 0} (m : Option A) (f : A → Option Parsed) → ((a : A) → Keeps (f a)) → Keeps (m >>= f)
Keeps-bind none f h = Keeps-none
Keeps-bind (some a) f h = h a

Keeps-block :
    (s : Parsed) (b : Block)
    → IsProse s.summary
    → is_prose b ≡ true
    → Keeps (some (record s { summary = s.summary ++ (b ∷ []) }))
Keeps-block s b h e =
    Keeps-some (record s { summary = s.summary ++ (b ∷ []) }) (IsProse-snoc s.summary b h e)

module _ (lib : Library) (frozen : Frozen) where
  parse_node-Keeps :
      (node : Json) (s : Parsed) → IsProse s.summary → Keeps (parse_node lib frozen node s)
  unfolding parse_node heading_node incident_node analysis_node
  parse_node-Keeps (obj node) s h =
      Keeps-if (is_kind "heading" node) _ _
        (Keeps-bind (get "text" node) _ (λ raw.
          Keeps-bind (lib.to_int (get_or "level" (num 1) node)) _ (λ level.
            let t = lib.to_str raw in
            Keeps-if (is_in t top_level_headings && is_one level) _ _ (Keeps-some s h)
              (Keeps-block s (heading (record { text = str t; level = level })) h refl))))
        (Keeps-if (is_kind "paragraph" node) _ _
          (Keeps-block s
            (paragraph
              (record { text = str (text_of lib "text" node); style = get_or_null "style" node }))
            h refl)
          (Keeps-if (is_kind "bilingual_generated_text" node) _ _
            (Keeps-block s
              (bilingual_text (record {
                text_zh = str (text_of lib "zh" node);
                text_en = str (text_of lib "en" node);
                heading_zh = or_else (get_or_null "heading_zh" node) (str "Chinese Summary");
                heading_en = or_else (get_or_null "heading_en" node) (str "English Summary");
              }))
              h refl)
            (Keeps-if (is_kind "incident_reference" node) _ _
              (Keeps-bind (lookup (text_of lib "incident_id" node) frozen.index) _ (λ d.
                Keeps-some (record s { incident_refs = s.incident_refs ++ (id_of lib d ∷ []) }) h))
              (Keeps-if (is_kind "analysis_reference" node) _ _
                (Keeps-bind (analysed_incident lib frozen node) _
                  (λ d. Keeps-some (add_analysis lib node d s) h))
                (Keeps-if (is_kind "divider" node) _ _ (Keeps-block s divider h refl)
                  (Keeps-if (is_kind "page_break" node) _ _ (Keeps-some s h) Keeps-none))))))
  parse_node-Keeps null s h = Keeps-none
  parse_node-Keeps (bool b) s h = Keeps-none
  parse_node-Keeps (num b) s h = Keeps-none
  parse_node-Keeps (neg b) s h = Keeps-none
  parse_node-Keeps (real b) s h = Keeps-none
  parse_node-Keeps (str b) s h = Keeps-none
  parse_node-Keeps (arr b) s h = Keeps-none

  parse-Keeps :
      (nodes : List Json) (s : Parsed) → IsProse s.summary → Keeps (parse lib frozen nodes s)
  unfolding parse Keeps
  parse-Keeps [] s h s'' e = Keeps-some s h s'' e
  parse-Keeps (node ∷ nodes) s h s'' e =
      let (s', step, rest) = >>=-some (parse_node lib frozen node s) _ s'' e in
      parse-Keeps nodes s' (parse_node-Keeps node s h s' step) s'' rest

  listed_plan-Keeps : (raw : Json) → Keeps (listed_plan lib frozen raw)
  listed_plan-Keeps (arr js) =
      Keeps-bind (elements (arr js)) _ (λ nodes. parse-Keeps nodes nothing_parsed tt)
  listed_plan-Keeps null = Keeps-none
  listed_plan-Keeps (bool b) = Keeps-none
  listed_plan-Keeps (num b) = Keeps-none
  listed_plan-Keeps (neg b) = Keeps-none
  listed_plan-Keeps (real b) = Keeps-none
  listed_plan-Keeps (str b) = Keeps-none
  listed_plan-Keeps (obj b) = Keeps-none

  pub parsed_plan-IsProse :
      (policy : Policy) (plan : Fields) (s : Parsed)
      → parsed_plan lib policy frozen plan ≡ some s
      → IsProse s.summary
  unfolding parsed_plan Keeps
  parsed_plan-IsProse policy plan =
      Keeps-if (has_key "general_summary" plan) _ _
        (Keeps-bind (narrative_summary lib (get_or_null "general_summary" plan)) _
          (λ t. Keeps-some (record nothing_parsed { summary = bilingual_text t ∷ [] }) (refl, tt)))
        (Keeps-if policy.canonical _ _ Keeps-none (listed_plan-Keeps (get_or_null "blocks" plan)))
