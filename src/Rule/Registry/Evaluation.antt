-- ===== src/Rule/Registry/Evaluation.antt =====
-- What the evaluation of one statement returns, in its plain and its detailed form.
use delta_scope.Prelude.{
  suc, ◌≡◌, refl, sym, ap, ◌∙◌, true, false, List, [], ◌∷◌, ◌++◌, Text, comparable_text, arith,
  append_assoc, append-nil, Bool-cases, inl, inr,
}
use delta_scope.Spec.{Statement}
use delta_scope.Rule.{Finding, StatementEvaluation, Result, ok, err, ◌>>=◌, cancelled, Result-cases}
use delta_scope.Rule.Registry.{
  StatementRule, Registry, Polls, normalize_finding_rule_ids, infer_skip_reason, evaluate_rules,
  evaluate_statement, evaluate_detailed_from, evaluate_statement_detailed, add_skipped, add_applied,
  empty_evaluation,
}

-- The findings that stand before those of a run.
prepend : List Finding → Result (List Finding) → Result (List Finding)
prepend fs r = r >>= λ more. ok (fs ++ more)

prepend-nil : (r : Result (List Finding)) → prepend [] r ≡ r
unfolding prepend
prepend-nil (ok fs) = refl
prepend-nil (err e) = refl

prepend-prepend :
    (fs gs : List Finding) (r : Result (List Finding))
    → prepend (fs ++ gs) r ≡ prepend fs (prepend gs r)
unfolding prepend
prepend-prepend fs gs (ok hs) = ap ok (append_assoc fs gs hs)
prepend-prepend fs gs (err e) = refl

abbrev findings_of : Result StatementEvaluation → Result (List Finding)
findings_of r = r >>= λ eval. ok eval.findings

findings-add_skipped :
    (id : Text) (statement : Statement) (eval : StatementEvaluation)
    → (add_skipped id (infer_skip_reason id statement) eval).findings ≡ eval.findings
unfolding infer_skip_reason
findings-add_skipped id statement eval = ground arith

-- What a rule that applies returns, under its own ID.
abbrev pub named_findings : StatementRule → Statement → Result (List Finding)
named_findings r statement = r.evaluate statement >>= normalize_finding_rule_ids r.id

module _ (statement : Statement) where
  evaluate_rules_found :
      (polls : Polls) (r : StatementRule) (rs : List StatementRule)
      → polls 0 ≡ false
      → r.applies_to statement ≡ true
      → evaluate_rules polls (r ∷ rs) statement ≡ (
          named_findings r statement >>= λ fs.
          prepend fs (evaluate_rules (λ i. polls (suc i)) rs statement))
  unfolding evaluate_rules prepend
  evaluate_rules_found polls r rs p q =
      rw (p, q)
        (elim (Result-cases (r.evaluate statement)) [
          | inl (e, found) ↦ rw found refl
          | inr (fs, found) ↦ rw found refl
        ])

  pub detailed_found :
      (eval : StatementEvaluation) (polls : Polls) (r : StatementRule) (rs : List StatementRule)
      → polls 0 ≡ false
      → r.applies_to statement ≡ true
      → evaluate_detailed_from eval polls (r ∷ rs) statement ≡ (
          named_findings r statement >>= λ fs.
          evaluate_detailed_from (add_applied r.id fs eval) (λ i. polls (suc i)) rs statement)
  unfolding evaluate_detailed_from
  detailed_found eval polls r rs p q =
      rw (p, q)
        (elim (Result-cases (r.evaluate statement)) [
          | inl (e, found) ↦ rw found refl
          | inr (fs, found) ↦ rw found refl
        ])

  pub detailed_skipped :
      (eval : StatementEvaluation) (polls : Polls) (r : StatementRule) (rs : List StatementRule)
      → polls 0 ≡ false
      → r.applies_to statement ≡ false
      → evaluate_detailed_from eval polls (r ∷ rs) statement
        ≡ evaluate_detailed_from
            (add_skipped r.id (infer_skip_reason r.id statement) eval)
            (λ i. polls (suc i))
            rs
            statement
  unfolding evaluate_detailed_from
  detailed_skipped eval polls r rs p q = rw (p, q) refl

  pub detailed_cancelled :
      (eval : StatementEvaluation) (polls : Polls) (r : StatementRule) (rs : List StatementRule)
      → polls 0 ≡ true
      → evaluate_detailed_from eval polls (r ∷ rs) statement ≡ err cancelled
  unfolding evaluate_detailed_from
  detailed_cancelled eval polls r rs p = rw p refl

  evaluate_rules_skipped :
      (polls : Polls) (r : StatementRule) (rs : List StatementRule)
      → polls 0 ≡ false
      → r.applies_to statement ≡ false
      → evaluate_rules polls (r ∷ rs) statement ≡ evaluate_rules (λ i. polls (suc i)) rs statement
  unfolding evaluate_rules
  evaluate_rules_skipped polls r rs p q = rw (p, q) refl

  evaluate_rules_cancelled :
      (polls : Polls) (r : StatementRule) (rs : List StatementRule)
      → polls 0 ≡ true
      → evaluate_rules polls (r ∷ rs) statement ≡ err cancelled
  unfolding evaluate_rules
  evaluate_rules_cancelled polls r rs p = rw p refl

  findings_step :
      (eval : StatementEvaluation) (polls : Polls) (r : StatementRule) (rs : List StatementRule)
      → ((e : StatementEvaluation)
          → findings_of (evaluate_detailed_from e (λ i. polls (suc i)) rs statement)
            ≡ prepend e.findings (evaluate_rules (λ i. polls (suc i)) rs statement))
      → findings_of (evaluate_detailed_from eval polls (r ∷ rs) statement)
        ≡ prepend eval.findings (evaluate_rules polls (r ∷ rs) statement)
  findings_step eval polls r rs ih = elim (Bool-cases (polls 0)) [
    | inl p ↦
        rw (detailed_cancelled eval polls r rs p, evaluate_rules_cancelled polls r rs p)
          (unfold prepend in refl)
    | inr p ↦ elim (Bool-cases (r.applies_to statement)) [
      | inr q ↦
          rw (detailed_skipped eval polls r rs p q, evaluate_rules_skipped polls r rs p q)
            (ih _ ∙ ap (λ fs. prepend fs _) (findings-add_skipped r.id statement eval))
      | inl q ↦
          rw (detailed_found eval polls r rs p q, evaluate_rules_found polls r rs p q)
            (elim (Result-cases (named_findings r statement)) [
              | inl (e, bad) ↦ rw bad (unfold prepend in refl)
              | inr (fs, good) ↦ rw good (ih _ ∙ prepend-prepend eval.findings fs _)
            ])
    ]
  ]

  evaluate_detailed_from-findings :
      (eval : StatementEvaluation) (polls : Polls) (rs : List StatementRule)
      → findings_of (evaluate_detailed_from eval polls rs statement)
        ≡ prepend eval.findings (evaluate_rules polls rs statement)
  evaluate_detailed_from-findings eval polls [] =
      unfold evaluate_detailed_from evaluate_rules prepend in ap ok (sym (append-nil eval.findings))
  evaluate_detailed_from-findings eval polls (r ∷ rs) =
      findings_step eval polls r rs (λ e. evaluate_detailed_from-findings e (λ i. polls (suc i)) rs)

-- The two evaluations agree: the plain one returns the findings of the detailed one, and the same
-- error where there is one.
pub evaluate_statement-eq-detailed :
    (polls : Polls) (r : Registry) (statement : Statement)
    → evaluate_statement polls r statement
      ≡ (evaluate_statement_detailed polls r statement >>= λ eval. ok eval.findings)
unfolding evaluate_statement evaluate_statement_detailed
evaluate_statement-eq-detailed polls r statement = sym (
    evaluate_detailed_from-findings statement empty_evaluation polls r.statement_rules
    ∙ prepend-nil _)
