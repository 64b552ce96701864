-- ===== src/Composition/Frozen.antt =====
-- A property of the incidents of a snapshot holds of every incident that the composition looks up or
-- selects.
use text.Mathlib.Text.{◌==◌ as str_eq}
use noc_report.Common.{
  ◌≡◌, inl, inr, sym, arith, String, Bool, none, some, is_none, List, [], ◌∷◌, ◌++◌, All,
  Bool-cases,
}
use noc_report.Json.{
  Json, null, bool, num, neg, real, str, arr, obj, Fields, get_or_null, is_truthy,
}
use noc_report.Document.Reading.{each_of}
use noc_report.Composition.{Library, dicts_of}
use noc_report.Composition.Plan.{Dict, lookup, is_in, Frozen, id_of, register, add_key, collect}
use noc_report.Composition.Select.{keep, selected}
use noc_report.Composition.Run.{>>=-some, some-same, if-some}

module _ (Q : Fields → Type 0) where
  abbrev pub Holds : Dict Fields → Type 0
  Holds index = All (λ e. Q e.1) index

  Holds-snoc :
      (index : Dict Fields) (k : String) (d : Fields)
      → Holds index
      → Q d
      → Holds (index ++ ((k, d) ∷ []))
  Holds-snoc [] k d h q = (q, tt)
  Holds-snoc (e ∷ index) k d h q = (h.0, Holds-snoc index k d h.1 q)

  add_key-Holds :
      (lib : Library) (k : String) (d : Fields) (index i : Dict Fields)
      → Holds index
      → Q d
      → add_key lib k d index ≡ some i
      → Holds i
  add_key-Holds lib k d index i h q e =
      let (c, s) = if-some (is_none (lookup k index)) (some (index ++ ((k, d) ∷ []))) i e in
      rw (sym (some-same (index ++ ((k, d) ∷ [])) i s)) (Holds-snoc index k d h q)

  register-Holds :
      (lib : Library) (d : Fields) (index i : Dict Fields)
      → Holds index
      → Q d
      → register lib d index ≡ some i
      → Holds i
  unfolding register
  register-Holds lib d index i h q e = elim (Bool-cases (is_truthy (get_or_null "id" d))) [
    | inr f ↦ let broken : none ≡ some i = rw f at e in absurd (ground (arith, broken))
    | inl f ↦
        let (named, n, e1) = >>=-some (add_key lib (id_of lib d) d index) _ i (rw f at e) in
        let holds = add_key-Holds lib (id_of lib d) d index named h q n in
        elim (Bool-cases (is_truthy (get_or_null "display_id" d))) [
          | inl g ↦
              add_key-Holds lib (lib.to_str (get_or_null "display_id" d)) d named i holds q
                (rw g at e1)
          | inr g ↦ let same : named ≡ i = some-same named i (rw g at e1) in rw (sym same) holds
        ]
  ]

  pub collect-Holds :
      (lib : Library) (js : List Json) (index : Dict Fields) (f : Frozen)
      → Holds index
      → All Q (dicts_of js)
      → collect lib js index ≡ some f
      → Holds f.index
  unfolding collect
  collect-Holds lib [] index f h q e =
      let same : record { index = index; unique = [] } ≡ f = ground arith in rw (sym same) h
  collect-Holds lib (obj d ∷ js) index f h q e =
      let (i, r, e1) = >>=-some (register lib d index) _ f e in
      let (g, rest, e2) = >>=-some (collect lib js i) _ f e1 in
      let same : record g { unique = d ∷ g.unique } ≡ f = ground arith in
      rw (sym same) (collect-Holds lib js i g (register-Holds lib d index i h q.0 r) q.1 rest)
  collect-Holds lib (null ∷ js) index f h q e = absurd (ground arith)
  collect-Holds lib (bool b ∷ js) index f h q e = absurd (ground arith)
  collect-Holds lib (num b ∷ js) index f h q e = absurd (ground arith)
  collect-Holds lib (neg b ∷ js) index f h q e = absurd (ground arith)
  collect-Holds lib (real b ∷ js) index f h q e = absurd (ground arith)
  collect-Holds lib (str b ∷ js) index f h q e = absurd (ground arith)
  collect-Holds lib (arr b ∷ js) index f h q e = absurd (ground arith)

  pub lookup-Holds :
      (k : String) (index : Dict Fields) (d : Fields) → Holds index → lookup k index ≡ some d → Q d
  unfolding lookup
  lookup-Holds k [] d h e = absurd (ground arith)
  lookup-Holds k ((j, c) ∷ index) d h e = elim (Bool-cases (str_eq j k)) [
    | inl f ↦ let same : c ≡ d = ground arith in rw (sym same) h.0
    | inr f ↦ lookup-Holds k index d h.1 (rw f at e)
  ]

  pub keep-Holds : (p : Fields → Bool) (ds : List Fields) → All Q ds → All Q (keep p ds)
  keep-Holds p [] h = tt
  keep-Holds p (d ∷ ds) h = elim (Bool-cases (p d)) [
    | inl e ↦ rw e (h.0, keep-Holds p ds h.1)
    | inr e ↦ rw e (keep-Holds p ds h.1)
  ]

  pub each_of-Holds :
      (index : Dict Fields) (ks : List String) (ds : List Fields)
      → Holds index
      → each_of (λ k. lookup k index) ks ≡ some ds
      → All Q ds
  each_of-Holds index [] ds h e = let same : [] ≡ ds = ground arith in rw (sym same) tt
  each_of-Holds index (k ∷ ks) ds h e =
      let (d, f, e1) = >>=-some (lookup k index) _ ds e in
      let (rest, g, e2) = >>=-some (each_of (λ j. lookup j index) ks) _ ds e1 in
      let same : d ∷ rest ≡ ds = ground arith in
      rw (sym same) (lookup-Holds k index d h f, each_of-Holds index ks rest h g)

  pub selected-Holds :
      (f : Frozen) (seen ids : List String) (ds : List Fields)
      → Holds f.index
      → selected f seen ids ≡ some ds
      → All Q ds
  unfolding selected
  selected-Holds f seen [] ds h e = let same : [] ≡ ds = ground arith in rw (sym same) tt
  selected-Holds f seen (id ∷ ids) ds h e = elim (Bool-cases (is_in id seen)) [
    | inl again ↦ selected-Holds f seen ids ds h (rw again at e)
    | inr fresh ↦
        let (d, g, e1) = >>=-some (lookup id f.index) _ ds (rw fresh at e) in
        let (rest, r, e2) = >>=-some (selected f (id ∷ seen) ids) _ ds e1 in
        let same : d ∷ rest ≡ ds = ground arith in
        rw (sym same) (lookup-Holds id f.index d h g, selected-Holds f (id ∷ seen) ids rest h r)
  ]
