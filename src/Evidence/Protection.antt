-- ===== src/Evidence/Protection.antt =====
-- What keeps a piece of evidence.
use text.Mathlib.Text.{◌==◌ as str_eq}
use text.Mathlib.TextEquality.{eq_iff}
use noc_report.Common.{
  ℕ, String, ◌≡◌, refl, ◌⊎◌, inl, inr, ◌↔◌, Bool, true, some, List, [], ◌∷◌, arith, any, Exists,
  Bool-cases, ◌==◌,
}
use noc_report.Json.{Json, arr, obj, Items, nil, cons, Fields, end, field, get}
use noc_report.Evidence.{
  names, Texts, py_str, contains_evidence_id, any_value, any_item, References, references_for,
}

-- The documents inside a document, itself among them.
mutual
  pub data Inside (j : Json) : Json → Type 0 where
    itself : Inside j j
    in_object : (d : Fields) → InValue j d → Inside j (obj d)
    in_array : (js : Items) → InItem j js → Inside j (arr js)

  pub data InValue (j : Json) : Fields → Type 0 where
    first_value : (k : String) (v : Json) (d : Fields) → Inside j v → InValue j (field k v d)
    later_value : (k : String) (v : Json) (d : Fields) → InValue j d → InValue j (field k v d)

  pub data InItem (j : Json) : Items → Type 0 where
    first_item : (v : Json) (js : Items) → Inside j v → InItem j (cons v js)
    later_item : (v : Json) (js : Items) → InItem j js → InItem j (cons v js)

module _ (t : Texts) (id : String) where
  -- An object inside the document names the evidence.
  abbrev pub Names : Json → Type 0
  Names j = (d : Fields) × Inside (obj d) j × (py_str t (get "evidence_id" d) ≡ id)

  mutual
    unfolding contains_evidence_id

    found : (j : Json) → contains_evidence_id t id j ≡ true → Names j
    found (obj d) h = elim (Bool-cases (str_eq (py_str t (get "evidence_id" d)) id)) [
      | inl here ↦ (d, itself, (eq_iff (py_str t (get "evidence_id" d)) id).0 here)
      | inr deeper ↦ let (e, i, q) = found_value d (ground arith) in (e, in_object d i, q)
    ]
    found (arr js) h = let (e, i, q) = found_item js h in (e, in_array js i, q)
    found _ h = cc

    found_value :
        (d : Fields)
        → any_value t id d ≡ true
        → (e : Fields) × InValue (obj e) d × (py_str t (get "evidence_id" e) ≡ id)
    found_value end h = cc
    found_value (field k v d) h = elim (Bool-cases (contains_evidence_id t id v)) [
      | inl here ↦ let (e, i, q) = found v here in (e, first_value k v d i, q)
      | inr later ↦ let (e, i, q) = found_value d (ground arith) in (e, later_value k v d i, q)
    ]

    found_item :
        (js : Items)
        → any_item t id js ≡ true
        → (e : Fields) × InItem (obj e) js × (py_str t (get "evidence_id" e) ≡ id)
    found_item nil h = cc
    found_item (cons v js) h = elim (Bool-cases (contains_evidence_id t id v)) [
      | inl here ↦ let (e, i, q) = found v here in (e, first_item v js i, q)
      | inr later ↦ let (e, i, q) = found_item js (ground arith) in (e, later_item v js i, q)
    ]

  mutual
    unfolding contains_evidence_id

    holds :
        (e : Json)
        → contains_evidence_id t id e ≡ true
        → (j : Json) → Inside e j
        → contains_evidence_id t id j ≡ true
    holds e q _ itself = q
    holds e q _ (in_object d i) = ground (arith, holds_value e q d i)
    holds e q _ (in_array js i) = holds_item e q js i

    holds_value :
        (e : Json)
        → contains_evidence_id t id e ≡ true
        → (d : Fields) → InValue e d
        → any_value t id d ≡ true
    holds_value e q _ (first_value k v d i) = ground (arith, holds e q v i)
    holds_value e q _ (later_value k v d i) = ground (arith, holds_value e q d i)

    holds_item :
        (e : Json)
        → contains_evidence_id t id e ≡ true
        → (js : Items) → InItem e js
        → any_item t id js ≡ true
    holds_item e q _ (first_item v js i) = ground (arith, holds e q v i)
    holds_item e q _ (later_item v js i) = ground (arith, holds_item e q js i)

  named_here :
      (d : Fields) → py_str t (get "evidence_id" d) ≡ id → contains_evidence_id t id (obj d) ≡ true
  unfolding contains_evidence_id
  named_here d q = ground (arith, (eq_iff (py_str t (get "evidence_id" d)) id).1 q)

  -- A snapshot contains the evidence exactly if one of the objects inside it, at any depth, itself
  -- among them, has the text of its id under `evidence_id`.
  pub contains_evidence_id_lem : (j : Json) → (contains_evidence_id t id j ≡ true) ↔ Names j
  contains_evidence_id_lem j = (found j, λ (e, i, q). holds (obj e) (named_here e q) j i)

any-Exists :
    {A : Type 0} (p : A → Bool) (P : A → Type 0) (xs : List A)
    → ((x : A) → (p x ≡ true) ↔ P x)
    → (any p xs ≡ true) ↔ Exists P xs
any-Exists p P [] e = (λ h. cc, λ h. absurd h)
any-Exists p P (x ∷ xs) e = (
  λ h. elim (Bool-cases (p x)) [
    | inl here ↦ inl ((e x).0 here)
    | inr there ↦ inr ((any-Exists p P xs e).0 (ground arith))
  ],
  λ h. elim h [
    | inl here ↦ rw ((e x).1 here) refl
    | inr there ↦ elim (Bool-cases (p x)) [
      | inl here ↦ rw here refl
      | inr other ↦ rw other ((any-Exists p P xs e).1 there)
    ]
  ],
)

-- An OCR run or an analysis run reads the evidence, or a report snapshot names it.
abbrev pub IsProtected : Texts → References → ℕ → Type 0
IsProtected t r id =
    Exists (λ e. e ≡ id) r.ocr_runs
    ⊎ Exists (λ e. e ≡ some id) r.analysis_runs
    ⊎ Exists (Names t (t.uuid_text id)) r.snapshots

module _ (t : Texts) (r : References) (id : ℕ) where
  by_ocr : (any (λ e. e == id) r.ocr_runs ≡ true) ↔ Exists (λ e. e ≡ id) r.ocr_runs
  by_ocr = any-Exists _ _ r.ocr_runs (λ e. (λ h. ground arith, λ h. ground arith))

  by_analysis : (any (names id) r.analysis_runs ≡ true) ↔ Exists (λ e. e ≡ some id) r.analysis_runs
  by_analysis = any-Exists _ _ r.analysis_runs (λ e. (λ h. ground arith, λ h. ground arith))

  by_snapshot :
      (any (contains_evidence_id t (t.uuid_text id)) r.snapshots ≡ true)
      ↔ Exists (Names t (t.uuid_text id)) r.snapshots
  by_snapshot = any-Exists _ _ r.snapshots (contains_evidence_id_lem t (t.uuid_text id))

  pub references_for-none : references_for t r id ≡ [] → ¬ IsProtected t r id
  unfolding references_for
  references_for-none h (inl p) = ground (arith, by_ocr.1 p)
  references_for-none h (inr (inl p)) = ground (arith, by_analysis.1 p)
  references_for-none h (inr (inr p)) = ground (arith, by_snapshot.1 p)

  pub references_for-some :
      (s : String) (ss : List String) → references_for t r id ≡ s ∷ ss → IsProtected t r id
  unfolding references_for
  references_for-some s ss h = elim (Bool-cases (any (λ e. e == id) r.ocr_runs)) [
    | inl ocr ↦ inl (by_ocr.0 ocr)
    | inr no_ocr ↦ elim (Bool-cases (any (names id) r.analysis_runs)) [
      | inl run ↦ inr (inl (by_analysis.0 run))
      | inr no_run ↦ inr (inr (by_snapshot.0 (ground arith)))
    ]
  ]
