-- ===== src/Report.antt =====
-- internal/domain/report/result.go: the audit result, its counts, verdict and explanations. A
-- report's impact has the fields of the statement's estimate.
pub mod Counts
pub mod Actions
mod Tests
use Prim.Native.Nat.{◌/◌, ◌%◌}
use delta_scope.Prelude.{
  ℕ, zero, suc, ◌+◌, Bool, true, false, List, [], ◌∷◌, ◌++◌, Text, text_beq, nat_beq, ltb,
  if◌then◌else◌, codes, Option, none, some, length, map,
}
use delta_scope.Utf8.{trim_space}
use delta_scope.Spec.{ImpactEstimate, UnsupportedDetail, Diagnostic}
use delta_scope.Rule.{Finding, SkippedRule, Level, blocker, warning, notice, other_level}

-- `unset_verdict` is the empty string of a zero result.
pub data Verdict : Type 0 where
  unset_verdict pass review reject : Verdict

pub record Explanation : Type 0 where
  pub summary : Text
  pub reasons : List Text

pub record StatementResult : Type 0 where
  pub index : ℕ
  pub kind : Text
  pub raw_sql : Text
  pub normalized_sql : Text
  pub findings : List Finding
  pub impact : Option ImpactEstimate
  pub explanation : Option Explanation

pub record RuleSummary : Type 0 where
  pub loaded : ℕ
  pub applicable : ℕ
  pub skipped : List SkippedRule

pub record Summary : Type 0 where
  pub statements : ℕ
  pub blockers : ℕ
  pub warnings : ℕ
  pub notices : ℕ

pub record Report : Type 0 where
  pub verdict : Verdict
  pub summary : Summary
  pub statements : List StatementResult
  pub global_findings : List Finding
  pub unsupported : List UnsupportedDetail
  pub explanation : Option Explanation
  pub rule_summary : Option RuleSummary
  pub diagnostics : List Diagnostic

abbrev pub empty_report : Report
empty_report = record {
  verdict = unset_verdict;
  summary = record { statements = 0; blockers = 0; warnings = 0; notices = 0 };
  statements = [];
  global_findings = [];
  unsupported = [];
  explanation = none;
  rule_summary = none;
  diagnostics = [];
}

-- `%d` of a number that is not negative; the fuel is the number itself and one more.
decimal_from : ℕ → ℕ → Text → Text
decimal_from zero n acc = acc
decimal_from (suc fuel) n acc =
    let digit = b'0' + n % 10 in
    let rest = decimal_from fuel (n / 10) (digit ∷ acc) in if ltb n 10 then digit ∷ acc else rest

unfoldable pub decimal : ℕ → Text
unfolding decimal_from
decimal n = decimal_from (suc n) n []

-- `collectFindingMessages`: the trimmed messages that are not empty.
pub collect_finding_messages : List Finding → List Text
collect_finding_messages [] = []
collect_finding_messages (f ∷ fs) =
    let message = trim_space f.message in
    let rest = collect_finding_messages fs in if text_beq message [] then rest else message ∷ rest

explain_findings : ℕ → List Finding → Option Explanation
unfolding decimal collect_finding_messages
explain_findings index [] = none
explain_findings index (f ∷ fs) = some (record {
  summary =
      codes "Statement "
      ++ decimal (index + 1)
      ++ codes " has "
      ++ decimal (length (f ∷ fs))
      ++ codes " finding(s)";
  reasons = collect_finding_messages (f ∷ fs);
})

-- `buildStatementExplanation`
build_statement_explanation : StatementResult → Option Explanation
unfolding explain_findings
build_statement_explanation statement = explain_findings statement.index statement.findings

abbrev pub statement_findings : List StatementResult → List Finding
statement_findings [] = []
statement_findings (s ∷ ss) = s.findings ++ statement_findings ss

-- `buildResultExplanation`
build_result_explanation : ℕ → List Finding → Option Explanation
unfolding decimal collect_finding_messages
build_result_explanation statements [] = none
build_result_explanation statements (f ∷ fs) = some (record {
  summary =
      codes "Audit produced "
      ++ decimal (length (f ∷ fs))
      ++ codes " finding(s) across "
      ++ decimal statements
      ++ codes " statement(s)";
  reasons = collect_finding_messages (f ∷ fs);
})

-- The counting loop of `Aggregate`, one finding at a time.
count_level : Level → Summary → Summary
count_level blocker s = record s { blockers = s.blockers + 1 }
count_level warning s = record s { warnings = s.warnings + 1 }
count_level notice s = record s { notices = s.notices + 1 }
count_level (other_level l) s = s

count_findings : Summary → List Finding → Summary
unfolding count_level
count_findings s [] = s
count_findings s (f ∷ fs) = count_findings (count_level f.level s) fs

pub verdict_of : Summary → Verdict
verdict_of s = if ltb 0 s.blockers then reject else if ltb 0 s.warnings then review else pass

abbrev explain_statement : StatementResult → Option Explanation → StatementResult
explain_statement s (some e) = s
explain_statement s none = record s { explanation = build_statement_explanation s }

-- `Aggregate`
unfoldable pub aggregate : List StatementResult → List Finding → Report
unfolding build_statement_explanation build_result_explanation count_findings verdict_of
aggregate statements findings =
    let explained = map (λ s. explain_statement s s.explanation) statements in
    let all_findings = statement_findings statements ++ findings in
    let counted =
      count_findings
        (record { statements = length statements; blockers = 0; warnings = 0; notices = 0 })
        all_findings in
    record {
      verdict = verdict_of counted;
      summary = counted;
      statements = explained;
      global_findings = findings;
      unsupported = [];
      explanation = build_result_explanation (length statements) all_findings;
      rule_summary = none;
      diagnostics = [];
    }
