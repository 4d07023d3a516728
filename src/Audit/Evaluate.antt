-- ===== src/Audit/Evaluate.antt =====
-- internal/application/audit/evaluate.go: the rules are run over every supported statement of a
-- script, then over the script, and the findings become a report. The two maps of the loop are
-- lists in the order in which their keys were first set.
pub mod Script
mod Tests
use delta_scope.Prelude.{
  ℕ, zero, suc, ◌+◌, Bool, true, false, ◌&&◌, ◌||◌, List, [], ◌∷◌, ◌++◌, Text, comparable_text,
  ◌==◌, text_beq, ltb, nat_beq, if◌then◌else◌, Option, none, some, length, map, contains, sort_by,
  by_last,
}
use delta_scope.Spec.{Statement, UnsupportedDetail, ImpactEstimate, Dml}
use delta_scope.Rule.{Finding, Location, SkippedRule, StatementEvaluation, Result, ok, err, ◌>>=◌}
use delta_scope.Rule.Registry.{
  Registry, Polls, later, evaluate_statement_detailed, evaluate_global, loaded_statement_rule_count,
}
use delta_scope.Report.{StatementResult, Report, RuleSummary, aggregate}
use delta_scope.Audit.Explain.{CatalogEntry, enrich_findings}

-- The variables of the loop.
pub record Progress : Type 0 where
  pub results : List StatementResult
  pub unsupported : List UnsupportedDetail
  pub supported : List Statement
  pub applied_ids : List Text
  pub skipped : List SkippedRule

abbrev pub start : Progress
start = record { results = []; unsupported = []; supported = []; applied_ids = []; skipped = [] }

-- `reportImpact`; the copy of its slices is not observable.
report_impact : Statement → Option ImpactEstimate
report_impact s = elim s.dml [ none ↦ none | some d ↦ d.impact ]

abbrev add_id : Text → List Text → List Text
add_id id ids = if contains id ids then ids else ids ++ id ∷ []

add_ids : List Text → List Text → List Text
add_ids [] ids = ids
add_ids (id ∷ more) ids = add_ids more (add_id id ids)

abbrev skipped_ids : List SkippedRule → List Text
skipped_ids skipped = map (λ s. s.rule_id) skipped

add_skips : List SkippedRule → List SkippedRule → List SkippedRule
add_skips [] known = known
add_skips (s ∷ more) known =
    add_skips more (if contains s.rule_id (skipped_ids known) then known else known ++ s ∷ [])

-- The entry for an unsupported statement: its index in the script, and its SQL if it has none.
unsupported_item : ℕ → Statement → UnsupportedDetail → UnsupportedDetail
unsupported_item idx statement item = record item {
  index = idx;
  sql = if text_beq item.sql [] then statement.raw_sql else item.sql;
}

place_finding : ℕ → Statement → Finding → Finding
place_finding index statement f = record f {
  statement_index = index;
  statement_kind = statement.kind;
}

locate_finding : Statement → Finding → Finding
locate_finding statement f =
    let own : Option Location =
      some (record { line = statement.line; column = statement.column }) in
    record f {
      location = elim f.location [
        | some l ↦ some l
        | none ↦ if ltb 0 statement.line || ltb 0 statement.column then own else none
      ];
    }

module _ (entries : List CatalogEntry) (registry : Registry) where
  statement_result : ℕ → Statement → StatementEvaluation → StatementResult
  unfolding place_finding locate_finding report_impact
  statement_result index statement eval = record {
    index = index;
    kind = statement.kind;
    raw_sql = statement.raw_sql;
    normalized_sql = statement.normalized_sql;
    findings = map (locate_finding statement) (
        enrich_findings entries (map (place_finding index statement) eval.findings)
          (some statement));
    impact = report_impact statement;
    explanation = none;
  }

  -- One supported statement, after its rules have run.
  record_evaluation : Statement → StatementEvaluation → Progress → Progress
  unfolding statement_result add_ids add_skips
  record_evaluation statement eval p = record {
    results = p.results ++ statement_result (length p.results) statement eval ∷ [];
    unsupported = p.unsupported;
    supported = p.supported ++ statement ∷ [];
    applied_ids = add_ids eval.applied_rule_ids p.applied_ids;
    skipped = add_skips eval.skipped p.skipped;
  }

  record_unsupported : ℕ → Statement → UnsupportedDetail → Progress → Progress
  unfolding unsupported_item
  record_unsupported idx statement item p = record p {
    unsupported = p.unsupported ++ unsupported_item idx statement item ∷ [];
  }

  -- The loop, with the polls of the context that are left.
  evaluate_from : Polls → ℕ → List Statement → Progress → Result (Progress × Polls)
  evaluate_from polls idx [] p = ok (p, polls)
  evaluate_from polls idx (s ∷ ss) p = elim s.unsupported [
    | some item ↦ evaluate_from polls (idx + 1) ss (record_unsupported idx s item p)
    | none ↦ do
      eval ← evaluate_statement_detailed polls registry s
      evaluate_from (later (loaded_statement_rule_count registry) polls) (idx + 1) ss
          (record_evaluation s eval p)
  ]

  rule_summary : Progress → Option RuleSummary
  rule_summary p =
      let loaded = loaded_statement_rule_count registry in
      if ltb 0 loaded
      then some (record {
        loaded = loaded;
        applicable = length p.applied_ids;
        skipped = sort_by (by_last (λ s. s.rule_id)) p.skipped;
      })
      else none

  finish : Progress → List Finding → Report
  unfolding rule_summary
  finish p global_findings =
      record (aggregate p.results (enrich_findings entries global_findings none)) {
        unsupported = p.unsupported;
        rule_summary = rule_summary p;
      }

  -- `EvaluateStatements`
  pub evaluate_statements : Polls → List Statement → Result Report
  unfolding evaluate_from record_evaluation record_unsupported finish
  evaluate_statements polls statements = do
    (p, rest) ← evaluate_from polls 0 statements start
    global_findings ← evaluate_global rest registry p.supported
    ok (finish p global_findings)
