-- ===== src/Rule/Registry/Owners.antt =====
-- Who is named in the result of a detailed evaluation: findings by the rules that applied, skipped
-- rules by their dialect.
use delta_scope.Prelude.{
  subst, any_of_member, suc, ◌≡◌, refl, sym, ◌∙◌, Bool, true, false, not, ◌&&◌, List, [], ◌∷◌, ◌++◌,
  Text, comparable_text, text_beq_iff, ◌==◌, ==_refl, contains, contains-append, arith, All,
  All-append, All-imp, any, Bool-cases, inl, inr, has_prefix, codes,
}
use delta_scope.Spec.{Statement, is_postgresql}
use delta_scope.Rule.{Finding, StatementEvaluation, ok, Result-cases}
use delta_scope.Rule.Registry.{
  StatementRule, Registry, Polls, normalize_finding_rule_ids, infer_skip_reason,
  evaluate_detailed_from, evaluate_statement_detailed, add_skipped, add_applied, empty_evaluation,
}
use delta_scope.Rule.Registry.Evaluation.{
  named_findings, detailed_found, detailed_skipped, detailed_cancelled,
}

pub normalize_finding_rule_ids-owner :
    (id : Text) (fs : List Finding) {gs : List Finding}
    → normalize_finding_rule_ids id fs ≡ ok gs
    → All (λ g. g.rule_id ≡ id) gs
unfolding normalize_finding_rule_ids
normalize_finding_rule_ids-owner id [] h = ground arith
normalize_finding_rule_ids-owner id (f ∷ fs) h =
    elim (Result-cases (normalize_finding_rule_ids id fs)) [
      | inl (e, bad) ↦ ground arith
      | inr (gs, good) ↦
          let tail = normalize_finding_rule_ids-owner id fs good in
          ground (arith, text_beq_iff f.rule_id id)
    ]

named_findings-owner :
    (r : StatementRule) (statement : Statement) {gs : List Finding}
    → named_findings r statement ≡ ok gs
    → All (λ g. g.rule_id ≡ r.id) gs
named_findings-owner r statement h = elim (Result-cases (r.evaluate statement)) [
  | inl (e, bad) ↦ let h' = rw bad at h in cc
  | inr (fs, good) ↦ normalize_finding_rule_ids-owner r.id fs (rw good at h)
]

abbrev Owned : StatementEvaluation → Type 0
Owned eval = All (λ f. contains f.rule_id eval.applied_rule_ids ≡ true) eval.findings

add_applied-Owned :
    (id : Text) (fs : List Finding) (eval : StatementEvaluation)
    → Owned eval
    → All (λ f. f.rule_id ≡ id) fs
    → Owned (add_applied id fs eval)
add_applied-Owned id fs eval h k =
    All-append _ eval.findings fs
      (All-imp eval.findings
        (λ f p. ground (arith, contains-append f.rule_id eval.applied_rule_ids (id ∷ []))) h)
      (All-imp fs
        (λ f p. ground (
          arith,
          contains-append f.rule_id eval.applied_rule_ids (id ∷ []),
          text_beq_iff f.rule_id id,
        ))
        k)

detailed_nil :
    (statement : Statement) (eval : StatementEvaluation) (polls : Polls)
    {final : StatementEvaluation}
    → evaluate_detailed_from eval polls [] statement ≡ ok final
    → eval ≡ final
unfolding evaluate_detailed_from
detailed_nil statement eval polls h = cc

-- One rule at a time: an invariant of the evaluation that each applied and each skipped rule keeps.
module _ (statement : Statement) (P : StatementEvaluation → Type 0) where
  abbrev Keeps : StatementRule → Type 0
  Keeps r =
      ((eval : StatementEvaluation) (fs : List Finding)
        → P eval
        → r.applies_to statement ≡ true
        → All (λ f. f.rule_id ≡ r.id) fs
        → P (add_applied r.id fs eval))
      × ((eval : StatementEvaluation)
          → P eval
          → r.applies_to statement ≡ false
          → P (add_skipped r.id (infer_skip_reason r.id statement) eval))

  detailed_inv :
      (eval : StatementEvaluation) (polls : Polls) (rs : List StatementRule)
      {final : StatementEvaluation}
      → P eval
      → All Keeps rs
      → evaluate_detailed_from eval polls rs statement ≡ ok final
      → P final
  detailed_inv eval polls [] p _ h = subst P (detailed_nil statement eval polls h) p
  detailed_inv eval polls (r ∷ rs) p ((applied, skipped), keep) h = elim (Bool-cases (polls 0)) [
    | inl stop ↦ let h' = rw (detailed_cancelled statement eval polls r rs stop) at h in cc
    | inr go ↦ elim (Bool-cases (r.applies_to statement)) [
      | inr q ↦
          detailed_inv _ (λ i. polls (suc i)) rs (skipped eval p q) keep
            (sym (detailed_skipped statement eval polls r rs go q) ∙ h)
      | inl q ↦ elim (Result-cases (named_findings r statement)) [
        | inl (e, bad) ↦ let h' = rw (detailed_found statement eval polls r rs go q, bad) at h in cc
        | inr (fs, good) ↦
            detailed_inv (add_applied r.id fs eval) (λ i. polls (suc i)) rs
              (applied eval fs p q (named_findings-owner r statement good)) keep
              (rw (detailed_found statement eval polls r rs go q, good) at h)
      ]
    ]
  ]

-- Some registered rule with this ID applies, or does not apply, to the statement.
abbrev pub applies : Registry → Statement → Text → Bool
applies r statement id = any (λ rule. rule.id == id && rule.applies_to statement) r.statement_rules

abbrev pub declines : Registry → Statement → Text → Bool
declines r statement id =
    any (λ rule. rule.id == id && not (rule.applies_to statement)) r.statement_rules

-- What the detailed evaluation of a statement promises about its parts.
pub record IsAttributed (r : Registry) (statement : Statement) (eval : StatementEvaluation)
    : Type 0 where
  -- every finding carries the ID of a rule that applied
  pub owned : All (λ f. contains f.rule_id eval.applied_rule_ids ≡ true) eval.findings
  -- every applied ID is that of a registered rule that applies
  pub applied : All (λ id. applies r statement id ≡ true) eval.applied_rule_ids
  -- every skipped rule is a registered PostgreSQL DDL rule that does not apply, on another dialect
  pub skipped :
      All
        (λ s.
          (declines r statement s.rule_id ≡ true)
          × (has_prefix s.rule_id (codes "ddl.pg.") ≡ true)
          × (is_postgresql statement.dialect ≡ false))
        eval.skipped

applied-last :
    (r : Registry) (statement : Statement) (ids : List Text) (id : Text)
    → All (λ x. applies r statement x ≡ true) ids
    → applies r statement id ≡ true
    → All (λ x. applies r statement x ≡ true) (ids ++ id ∷ [])
applied-last r statement ids id h p = All-append _ ids (id ∷ []) h (p, tt)

add_skipped-IsAttributed :
    (r : Registry) (statement : Statement) (id : Text) (eval : StatementEvaluation)
    → IsAttributed r statement eval
    → declines r statement id ≡ true
    → IsAttributed r statement (add_skipped id (infer_skip_reason id statement) eval)
unfolding infer_skip_reason
add_skipped-IsAttributed r statement id eval h p =
    elim (Bool-cases (has_prefix id (codes "ddl.pg.") && not (is_postgresql statement.dialect))) [
      | inr e ↦ rw e h
      | inl e ↦ rw e (record {
        owned = h.owned;
        applied = h.applied;
        skipped = All-append _ eval.skipped _ h.skipped ((p, ground arith, ground arith), tt);
      })
    ]

-- In a detailed evaluation that succeeds every finding carries the ID of a rule that applied, every
-- applied ID is that of a registered rule that applies, and every skipped rule is a registered
-- PostgreSQL DDL rule that does not apply to this statement of another dialect.
pub evaluate_statement_detailed-IsAttributed :
    (polls : Polls) (r : Registry) (statement : Statement) {eval : StatementEvaluation}
    → evaluate_statement_detailed polls r statement ≡ ok eval
    → IsAttributed r statement eval
unfolding evaluate_statement_detailed
evaluate_statement_detailed-IsAttributed polls r statement h =
    let start : IsAttributed r statement empty_evaluation = record {
      owned = tt;
      applied = tt;
      skipped = tt;
    } in
    let keep : All (Keeps statement (IsAttributed r statement)) r.statement_rules =
      All-imp r.statement_rules
        (λ rule f. (
          λ eval fs k q own. record {
            owned = add_applied-Owned rule.id fs eval k.owned own;
            applied =
                applied-last r statement eval.applied_rule_ids rule.id k.applied
                  (f (λ x. x.id == rule.id && x.applies_to statement) (rw (==_refl rule.id) q));
            skipped = k.skipped;
          },
          λ eval k q. add_skipped-IsAttributed r statement rule.id eval k (
              f (λ x. x.id == rule.id && not (x.applies_to statement))
                (rw (==_refl rule.id, q) refl)),
        ))
        (any_of_member r.statement_rules) in
    detailed_inv statement (IsAttributed r statement) empty_evaluation polls r.statement_rules start
      keep h
