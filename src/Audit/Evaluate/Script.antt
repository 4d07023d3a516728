-- ===== src/Audit/Evaluate/Script.antt =====
-- Every statement of a script is accounted for in the report, in order and under its own index.
use delta_scope.Prelude.{
  ℕ, zero, suc, ◌+◌, ◌≡◌, refl, sym, ap, ◌∙◌, inl, inr, List, [], ◌∷◌, ◌++◌, Text, none, some,
  length, length-append, map, map-append, subst, append_assoc, append-nil, arith, All, All-append,
  Option-cases, length-map,
}
use mathlib.Core.Path.{ap₂}
use delta_scope.Spec.{Statement, UnsupportedDetail}
use delta_scope.Rule.{Finding, StatementEvaluation, Result, ok, err, ◌>>=◌, Result-cases}
use delta_scope.Rule.Registry.{
  Registry, Polls, later, evaluate_statement_detailed, evaluate_global, loaded_statement_rule_count,
}
use delta_scope.Report.{StatementResult, Report, aggregate}
use delta_scope.Report.Counts.{map-aggregate, aggregate-All}
use delta_scope.Audit.Explain.{CatalogEntry, enrich_findings}
use delta_scope.Audit.Evaluate.{
  Progress, start, evaluate_from, evaluate_statements, record_evaluation, record_unsupported,
  finish, statement_result, place_finding, locate_finding, unsupported_item,
}

-- The statements that the rules see, and the positions of the others.
pub supported_of : List Statement → List Statement
supported_of [] = []
supported_of (s ∷ ss) =
    let rest = supported_of ss in elim s.unsupported [ none ↦ s ∷ rest | some item ↦ rest ]

pub unsupported_positions : ℕ → List Statement → List ℕ
unsupported_positions i [] = []
unsupported_positions i (s ∷ ss) =
    let rest = unsupported_positions (i + 1) ss in
    elim s.unsupported [ none ↦ rest | some item ↦ i ∷ rest ]

-- 0, 1, up to below the number.
abbrev pub positions : ℕ → List ℕ
positions zero = []
positions (suc n) = positions n ++ n ∷ []

abbrev pub raw_sqls : List StatementResult → List Text
raw_sqls rs = map (λ r. r.raw_sql) rs

abbrev pub indexes : List StatementResult → List ℕ
indexes rs = map (λ r. r.index) rs

abbrev pub item_indexes : List UnsupportedDetail → List ℕ
item_indexes items = map (λ u. u.index) items

abbrev pub statement_sqls : List Statement → List Text
statement_sqls ss = map (λ s. s.raw_sql) ss

-- The findings of a result carry its index and kind.
abbrev pub IsLabelled : StatementResult → Type 0
IsLabelled r = All (λ f. (f.statement_index ≡ r.index) × (f.statement_kind ≡ r.kind)) r.findings

record Ran (idx : ℕ) (ss : List Statement) (p p' : Progress) : Type 0 where
  raws : raw_sqls p'.results ≡ raw_sqls p.results ++ statement_sqls (supported_of ss)
  items : item_indexes p'.unsupported ≡ item_indexes p.unsupported ++ unsupported_positions idx ss
  indexed :
      indexes p.results ≡ positions (length p.results)
      → indexes p'.results ≡ positions (length p'.results)
  labelled : All IsLabelled p.results → All IsLabelled p'.results

labelled_findings :
    (entries : List CatalogEntry) (index : ℕ) (statement : Statement) (fs : List Finding)
    → All
        (λ f. (f.statement_index ≡ index) × (f.statement_kind ≡ statement.kind))
        (map
          (locate_finding statement)
          (enrich_findings entries (map (place_finding index statement) fs) (some statement)))
unfolding place_finding locate_finding enrich_findings
labelled_findings entries index statement [] = tt
labelled_findings entries index statement (f ∷ fs) =
    ((refl, refl), labelled_findings entries index statement fs)

module _ (s : Statement) (ss : List Statement) where
  supported_of-none : s.unsupported ≡ none → supported_of (s ∷ ss) ≡ s ∷ supported_of ss
  unfolding supported_of
  supported_of-none e = simp e

  supported_of-some :
      {item : UnsupportedDetail}
      → s.unsupported ≡ some item
      → supported_of (s ∷ ss) ≡ supported_of ss
  unfolding supported_of
  supported_of-some e = simp e

  unsupported_positions-none :
      (i : ℕ)
      → s.unsupported ≡ none
      → unsupported_positions i (s ∷ ss) ≡ unsupported_positions (i + 1) ss
  unfolding unsupported_positions
  unsupported_positions-none i e = simp e

  unsupported_positions-some :
      (i : ℕ) {item : UnsupportedDetail}
      → s.unsupported ≡ some item
      → unsupported_positions i (s ∷ ss) ≡ i ∷ unsupported_positions (i + 1) ss
  unfolding unsupported_positions
  unsupported_positions-some i e = simp e

-- One more item at the end, seen through a projection.
map_last {ℓ κ} :
    {A : Type ℓ} {B : Type κ} (f : A → B) (xs : List A) (x : A) (ys zs : List B)
    → zs ≡ map f (xs ++ x ∷ []) ++ ys
    → zs ≡ map f xs ++ f x ∷ ys
map_last f xs x ys zs e =
    e ∙ ap (λ t. t ++ ys) (map-append f xs (x ∷ [])) ∙ append_assoc (map f xs) (f x ∷ []) ys

module _ (entries : List CatalogEntry) (registry : Registry) where
  statement_result_lem :
      (index : ℕ) (s : Statement) (eval : StatementEvaluation)
      → ((statement_result entries registry index s eval).index ≡ index)
        × ((statement_result entries registry index s eval).raw_sql ≡ s.raw_sql)
        × IsLabelled (statement_result entries registry index s eval)
  unfolding statement_result
  statement_result_lem index s eval = (refl, refl, labelled_findings entries index s eval.findings)

  indexed_last :
      (rs : List StatementResult) (r : StatementResult)
      → r.index ≡ length rs
      → indexes rs ≡ positions (length rs)
      → indexes (rs ++ r ∷ []) ≡ positions (length (rs ++ r ∷ []))
  indexed_last rs r e h =
      let size : suc (length rs) ≡ length (rs ++ r ∷ []) =
        omega (arith, length-append rs (r ∷ [])) in
      map-append (λ (x : StatementResult). x.index) rs (r ∷ [])
      ∙ ap₂ (λ t n. t ++ n ∷ []) h e
      ∙ ap positions size

  Ran-record :
      (idx : ℕ) (s : Statement) (ss : List Statement) (eval : StatementEvaluation) (p p' : Progress)
      → s.unsupported ≡ none
      → Ran (idx + 1) ss (record_evaluation entries registry s eval p) p'
      → Ran idx (s ∷ ss) p p'
  unfolding record_evaluation
  Ran-record idx s ss eval p p' e h =
      let result = statement_result entries registry (length p.results) s eval in
      let (index, raw, labelled) = statement_result_lem (length p.results) s eval in
      record {
        raws =
            map_last (λ (r : StatementResult). r.raw_sql) p.results result _ _ h.raws
            ∙ ap (λ t. raw_sqls p.results ++ t ∷ statement_sqls (supported_of ss)) raw
            ∙ ap (λ t. raw_sqls p.results ++ statement_sqls t) (sym (supported_of-none s ss e));
        items =
            h.items
            ∙ ap (λ t. item_indexes p.unsupported ++ t)
                (sym (unsupported_positions-none s ss idx e));
        indexed = λ i. h.indexed (indexed_last p.results result index i);
        labelled = λ l. h.labelled (All-append IsLabelled p.results _ l (labelled, tt));
      }

  Ran-unsupported :
      (idx : ℕ) (s : Statement) (ss : List Statement) (item : UnsupportedDetail) (p p' : Progress)
      → s.unsupported ≡ some item
      → Ran (idx + 1) ss (record_unsupported entries registry idx s item p) p'
      → Ran idx (s ∷ ss) p p'
  unfolding record_unsupported unsupported_item
  Ran-unsupported idx s ss item p p' e h = record {
    raws =
        h.raws ∙ ap (λ t. raw_sqls p.results ++ statement_sqls t) (sym (supported_of-some s ss e));
    items =
        map_last (λ (u : UnsupportedDetail). u.index) p.unsupported _ _ _ h.items
        ∙ ap (λ t. item_indexes p.unsupported ++ t) (sym (unsupported_positions-some s ss idx e));
    indexed = h.indexed;
    labelled = h.labelled;
  }

  evaluate_from-none :
      (polls : Polls) (idx : ℕ) (s : Statement) (ss : List Statement) (p : Progress)
      → s.unsupported ≡ none
      → evaluate_from entries registry polls idx (s ∷ ss) p ≡ (
          evaluate_statement_detailed polls registry s >>= λ eval.
          evaluate_from entries registry
            (later (loaded_statement_rule_count registry) polls)
            (idx + 1)
            ss
            (record_evaluation entries registry s eval p))
  unfolding evaluate_from
  evaluate_from-none polls idx s ss p e = simp e

  evaluate_from-some :
      (polls : Polls) (idx : ℕ) (s : Statement) (ss : List Statement) (p : Progress)
      {item : UnsupportedDetail}
      → s.unsupported ≡ some item
      → evaluate_from entries registry polls idx (s ∷ ss) p
        ≡ evaluate_from entries registry polls
            (idx + 1)
            ss
            (record_unsupported entries registry idx s item p)
  unfolding evaluate_from
  evaluate_from-some polls idx s ss p e = simp e

  Ran-nil : (idx : ℕ) (p : Progress) → Ran idx [] p p
  unfolding supported_of unsupported_positions
  Ran-nil idx p = record {
    raws = sym (append-nil _);
    items = sym (append-nil _);
    indexed = λ h. h;
    labelled = λ h. h;
  }

  done :
      (polls : Polls) (idx : ℕ) (p p' : Progress) (rest : Polls)
      → evaluate_from entries registry polls idx [] p ≡ ok (p', rest)
      → p ≡ p'
  unfolding evaluate_from
  done polls idx p p' rest h =
      ap (λ (q : Result (Progress × Polls)). elim q [ ok t ↦ t.0 | err e ↦ p ]) h

  evaluate_from-Ran :
      (polls : Polls) (idx : ℕ) (ss : List Statement) (p p' : Progress) (rest : Polls)
      → evaluate_from entries registry polls idx ss p ≡ ok (p', rest)
      → Ran idx ss p p'
  evaluate_from-Ran polls idx [] p p' rest h =
      subst (Ran idx [] p) (done polls idx p p' rest h) (Ran-nil idx p)
  evaluate_from-Ran polls idx (s ∷ ss) p p' rest h = elim (Option-cases s.unsupported) [
    | inr (item, e) ↦ Ran-unsupported idx s ss item p p' e (
        evaluate_from-Ran polls (idx + 1) ss (record_unsupported entries registry idx s item p) p'
          rest (sym (evaluate_from-some polls idx s ss p e) ∙ h))
    | inl e ↦ elim (Result-cases (evaluate_statement_detailed polls registry s)) [
      | inl (bad, failed) ↦ let h' = rw (evaluate_from-none polls idx s ss p e, failed) at h in cc
      | inr (eval, good) ↦ Ran-record idx s ss eval p p' e (
          evaluate_from-Ran (later (loaded_statement_rule_count registry) polls) (idx + 1) ss
            (record_evaluation entries registry s eval p) p' rest
            (rw (evaluate_from-none polls idx s ss p e, good) at h))
    ]
  ]

  finished :
      (polls : Polls) (statements : List Statement) {report : Report}
      → evaluate_statements entries registry polls statements ≡ ok report
      → (p : Progress) × (fs : List Finding) × Ran 0 statements start p
        × (report ≡ finish entries registry p fs)
  unfolding evaluate_statements
  finished polls statements {report} h =
      elim (Result-cases (evaluate_from entries registry polls 0 statements start)) [
        | inl (bad, failed) ↦ let h' = rw failed at h in cc
        | inr ((p, rest), good) ↦ elim (Result-cases (evaluate_global rest registry p.supported)) [
          | inl (bad, failed) ↦ let h' = rw (good, failed) at h in cc
          | inr (fs, found) ↦
              let h' = rw (good, found) at h in
              (
                p,
                fs,
                evaluate_from-Ran polls 0 statements start p rest good,
                ap (λ (r : Result Report). elim r [ ok t ↦ t | err e ↦ report ]) (sym h'),
              )
        ]
      ]

-- How a report accounts for the statements of its script.
pub record IsAccount (statements : List Statement) (report : Report) : Type 0 where
  -- a result for each supported statement, in order
  pub results : raw_sqls report.statements ≡ statement_sqls (supported_of statements)
  -- an item for each other one, under its position in the script
  pub items : item_indexes report.unsupported ≡ unsupported_positions 0 statements
  -- results are numbered by position, and their findings carry the number and the kind
  pub indexed : indexes report.statements ≡ positions (length report.statements)
  pub labelled : All IsLabelled report.statements

finish-IsAccount :
    (entries : List CatalogEntry) (registry : Registry) (statements : List Statement) (p : Progress)
    (fs : List Finding)
    → Ran 0 statements start p
    → IsAccount statements (finish entries registry p fs)
unfolding finish
finish-IsAccount entries registry statements p fs h =
    let gs = enrich_findings entries fs none in
    let size : length p.results ≡ length (aggregate p.results gs).statements =
      sym (length-map (λ (r : StatementResult). r.index) p.results)
      ∙ ap length (sym (map-aggregate (λ r. r.index) (λ s e. refl) p.results gs))
      ∙ length-map (λ (r : StatementResult). r.index) _ in
    record {
      results = map-aggregate (λ r. r.raw_sql) (λ s e. refl) p.results gs ∙ h.raws;
      items = h.items;
      indexed =
          map-aggregate (λ r. r.index) (λ s e. refl) p.results gs
          ∙ h.indexed refl
          ∙ ap positions size;
      labelled = aggregate-All IsLabelled (λ s e q. q) p.results gs (h.labelled tt);
    }

-- An evaluation that succeeds accounts for every statement of the script: a result for each
-- supported one in order, an unsupported item under its position for each other one, and findings
-- that carry the number and the kind of their result.
pub evaluate_statements-IsAccount :
    (entries : List CatalogEntry) (registry : Registry) (polls : Polls)
    (statements : List Statement) {report : Report}
    → evaluate_statements entries registry polls statements ≡ ok report
    → IsAccount statements report
evaluate_statements-IsAccount entries registry polls statements h =
    let (p, fs, ran, e) = finished entries registry polls statements h in
    subst (IsAccount statements) (sym e) (finish-IsAccount entries registry statements p fs ran)
