-- ===== src/Rule/Registry/Tests.antt =====
-- A small registry, its rules and their evaluation.
use delta_scope.Prelude.{◌≡◌, refl, true, false, [], ◌∷◌, codes, text_beq, has_prefix, none}
use delta_scope.Spec.{Statement, mysql, is_postgresql}
use delta_scope.Rule.{Finding, notice, ok, ◌>>=◌, StatementEvaluation, dialect_mismatch}
use delta_scope.Rule.Registry.{
  StatementRule, GlobalRule, Registry, new_registry, register_statement, register_global,
  evaluate_statement, evaluate_statement_detailed, Polls, normalize_finding_rule_ids,
  infer_skip_reason,
}
use delta_scope.Rule.Registry.Ids.{
  IsConsistent, register_statement-IsConsistent, register_global-IsConsistent,
}
use delta_scope.Rule.Registry.Evaluation.{evaluate_statement-eq-detailed}
use delta_scope.Rule.Registry.Owners.{IsAttributed, evaluate_statement_detailed-IsAttributed}

abbrev found : Finding
found = record {
  rule_id = [];
  level = notice;
  message = codes "m";
  statement_index = 0;
  statement_kind = [];
  location = none;
  suggestion = [];
  metadata = [];
  explanation = none;
}

abbrev common_rule : StatementRule
common_rule = record { id = codes "dml.x"; applies_to = λ s. true; evaluate = λ s. ok (found ∷ []) }

abbrev pg_rule : StatementRule
pg_rule = record {
  id = codes "ddl.pg.y";
  applies_to = λ s. is_postgresql s.dialect;
  evaluate = λ s. ok (found ∷ []);
}

abbrev global_rule : GlobalRule
global_rule = record { id = codes "g"; evaluate_all = λ ss. ok [] }

abbrev one : Registry
one = record new_registry { statement_rules = common_rule ∷ []; statement_ids = codes "dml.x" ∷ [] }

abbrev both : Registry
both = record new_registry {
  statement_rules = common_rule ∷ pg_rule ∷ [];
  statement_ids = codes "ddl.pg.y" ∷ codes "dml.x" ∷ [];
}

abbrev statement : Statement
statement = record {
  kind = codes "dml";
  dialect = mysql;
  raw_sql = codes "q";
  normalized_sql = [];
  line = 1;
  column = 1;
  metadata = none;
  dml = none;
  unsupported = none;
}

abbrev running : Polls
running i = false

IsConsistent-one : IsConsistent one
unfolding text_beq
IsConsistent-one = record {
  unique = (refl, tt);
  global_unique = tt;
  named = refl;
  global_named = refl;
  known = λ x. refl;
  global_known = λ x. refl;
}

registered : register_statement one pg_rule ≡ ok both
unfolding register_statement text_beq
registered = refl

register_statement-IsConsistent_example : IsConsistent both
register_statement-IsConsistent_example =
    register_statement-IsConsistent one pg_rule IsConsistent-one registered

global_registered :
    register_global one global_rule
    ≡ ok (record one { global_rules = global_rule ∷ []; global_ids = codes "g" ∷ [] })
unfolding register_global text_beq
global_registered = refl

register_global-IsConsistent_example :
    IsConsistent (record one { global_rules = global_rule ∷ []; global_ids = codes "g" ∷ [] })
register_global-IsConsistent_example =
    register_global-IsConsistent one global_rule IsConsistent-one global_registered

evaluate_statement-eq-detailed_example :
    evaluate_statement running both statement
    ≡ (evaluate_statement_detailed running both statement >>= λ eval. ok eval.findings)
evaluate_statement-eq-detailed_example = evaluate_statement-eq-detailed running both statement

abbrev evaluation : StatementEvaluation
evaluation = record {
  findings = record found { rule_id = codes "dml.x" } ∷ [];
  skipped = record { rule_id = codes "ddl.pg.y"; reason = dialect_mismatch } ∷ [];
  applied_rule_ids = codes "dml.x" ∷ [];
}

evaluated : evaluate_statement_detailed running both statement ≡ ok evaluation
unfolding evaluate_statement_detailed is_postgresql text_beq has_prefix normalize_finding_rule_ids
    infer_skip_reason
evaluated = refl

evaluate_statement_detailed-IsAttributed_example : IsAttributed both statement evaluation
evaluate_statement_detailed-IsAttributed_example =
    evaluate_statement_detailed-IsAttributed running both statement evaluated
