-- ===== src/Report/Tests.antt =====
-- A small report and its action summary.
use delta_scope.Prelude.{
  ◌≤◌, ◌≡◌, true, List, [], ◌∷◌, ◌++◌, codes, Text, All, none, IsSorted, length, map, contains,
  Unique, any, if◌then◌else◌, ltb, ◌&&◌, comparable_text,
}
use delta_scope.Rule.{Finding, Level, notice, warning, blocker}
use delta_scope.Report.{Report, StatementResult, aggregate, reject, review, pass}
use delta_scope.Report.Counts.{
  summary-aggregate, verdict-aggregate, verdict-aggregate_mono, count, is_blocker, is_warning,
  is_notice, all_findings, severity,
}
use delta_scope.Report.Actions.{Entry, build_action_summary, more_urgent, groups_of}
use delta_scope.Report.Actions.Groups.{has_finding, report_findings, IsGroup, groups_of_lem}
use delta_scope.Report.Actions.Order.{
  IsItem, build_action_summary-IsItem, build_action_summary-limit,
}

abbrev finding : Text → Level → Finding
finding id level = record {
  rule_id = id;
  level = level;
  message = codes "m";
  statement_index = 0;
  statement_kind = codes "dml";
  location = none;
  suggestion = [];
  metadata = [];
  explanation = none;
}

abbrev statement : StatementResult
statement = record {
  index = 0;
  kind = codes "dml";
  raw_sql = codes "q";
  normalized_sql = [];
  findings = finding (codes "b") notice ∷ finding (codes "a") warning ∷ [];
  impact = none;
  explanation = none;
}

abbrev global : List Finding
global = finding (codes "b") blocker ∷ []

abbrev report : Report
report = aggregate (statement ∷ []) global

abbrev entries : List Entry
entries = record { rule_id = codes "a"; summary = codes "s"; suggestion = [] } ∷ []

summary-aggregate_example : report.summary ≡ record {
  statements = 1;
  blockers = count is_blocker (all_findings (statement ∷ []) global);
  warnings = count is_warning (all_findings (statement ∷ []) global);
  notices = count is_notice (all_findings (statement ∷ []) global);
}
summary-aggregate_example = summary-aggregate (statement ∷ []) global

verdict-aggregate_example : report.verdict ≡ (
    if any is_blocker (all_findings (statement ∷ []) global)
    then reject
    else if any is_warning (all_findings (statement ∷ []) global)
    then review
    else pass)
verdict-aggregate_example = verdict-aggregate (statement ∷ []) global

verdict-aggregate_mono_example :
    severity (aggregate (statement ∷ []) []).verdict
    ≤ severity (aggregate (statement ∷ []) ([] ++ global)).verdict
verdict-aggregate_mono_example = verdict-aggregate_mono (statement ∷ []) [] global

groups_of_lem_example :
    All (IsGroup (report_findings report)) (groups_of report)
    × Unique (map (λ p. p.0) (groups_of report))
    × All
        (λ f. contains f.rule_id (map (λ p. p.0) (groups_of report)) ≡ true)
        (report_findings report)
groups_of_lem_example = groups_of_lem report

build_action_summary-IsItem_example :
    All (IsItem (report_findings report)) (build_action_summary report entries 1).items
    × IsSorted more_urgent (build_action_summary report entries 1).items
build_action_summary-IsItem_example = build_action_summary-IsItem report entries 1

build_action_summary-limit_example :
    (ids : List Text) × Unique ids
    × ((id : Text) → contains id ids ≡ has_finding id (report_findings report))
    × ((build_action_summary report entries 1).total_items ≡ length ids)
    × (length (build_action_summary report entries 1).items
        ≡ (if ltb 0 1 && ltb 1 (length ids) then 1 else length ids))
build_action_summary-limit_example = build_action_summary-limit report entries 1
