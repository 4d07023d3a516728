-- ===== src/Audit/Evaluate/Tests.antt =====
-- A script of two statements, one of them unsupported.
use delta_scope.Prelude.{◌≡◌, refl, true, false, List, [], ◌∷◌, codes, Option, none, some, text_beq}
use delta_scope.Spec.{Statement, UnsupportedDetail, mysql}
use delta_scope.Rule.{Finding, Result, ok, err, notice}
use delta_scope.Rule.Registry.{
  Registry, new_registry, evaluate_statement_detailed, evaluate_global, loaded_statement_rule_count,
}
use delta_scope.Report.{Report, empty_report}
use delta_scope.Audit.Evaluate.{evaluate_statements}
use delta_scope.Audit.Evaluate.Script.{IsAccount, evaluate_statements-IsAccount}

abbrev detail : UnsupportedDetail
detail = record { index = 0; feature = codes "f"; sql = []; reason = codes "r"; metadata = [] }

abbrev statement : Option UnsupportedDetail → Statement
statement u = record {
  kind = codes "dml";
  dialect = mysql;
  raw_sql = codes "q";
  normalized_sql = [];
  line = 1;
  column = 1;
  metadata = none;
  dml = none;
  unsupported = u;
}

abbrev found : Finding
found = record {
  rule_id = [];
  level = notice;
  message = codes "m";
  statement_index = 0;
  statement_kind = [];
  location = none;
  suggestion = codes "s";
  metadata = [];
  explanation = none;
}

abbrev registry : Registry
registry = record new_registry {
  statement_rules =
      record { id = codes "a"; applies_to = λ s. true; evaluate = λ s. ok (found ∷ []) } ∷ [];
  statement_ids = codes "a" ∷ [];
}

abbrev script : List Statement
script = statement (some detail) ∷ statement none ∷ []

abbrev report_of : Result Report → Report
report_of (ok r) = r
report_of (err e) = empty_report

evaluated :
    evaluate_statements [] registry (λ i. false) script
    ≡ ok (report_of (evaluate_statements [] registry (λ i. false) script))
unfolding evaluate_statements evaluate_statement_detailed evaluate_global
    loaded_statement_rule_count text_beq
evaluated = refl

evaluate_statements-IsAccount_example :
    IsAccount script (report_of (evaluate_statements [] registry (λ i. false) script))
evaluate_statements-IsAccount_example =
    evaluate_statements-IsAccount [] registry (λ i. false) script evaluated
