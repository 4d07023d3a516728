-- ===== src/Rule/Registry.antt =====
-- internal/domain/rule/registry.go: registration and evaluation of rules, in registration order.
-- A context is what its `Err()` answers at each poll, counted from 0; an evaluation takes the polls
-- from its own start on.
pub mod Ids
pub mod Evaluation
pub mod Owners
mod Tests
use delta_scope.Prelude.{
  ℕ, zero, suc, Bool, true, false, not, ◌&&◌, ◌||◌, List, [], ◌∷◌, ◌++◌, Text, comparable_text,
  ◌==◌, if◌then◌else◌, contains, has_prefix, codes, Option, none, some, length,
}
use delta_scope.Spec.{Statement, Dialect, is_postgresql}
use delta_scope.Rule.{
  Finding, SkipReason, dialect_mismatch, SkippedRule, StatementEvaluation, Error, empty_rule_id,
  duplicate_rule_id, rule_id_mismatch, cancelled, Result, ok, err, ◌>>=◌,
}

pub record StatementRule : Type 0 where
  pub id : Text
  pub applies_to : Statement → Bool
  pub evaluate : Statement → Result (List Finding)

pub record GlobalRule : Type 0 where
  pub id : Text
  pub evaluate_all : List Statement → Result (List Finding)

-- The two maps of known IDs are the lists of their keys.
pub record Registry : Type 0 where
  pub statement_rules : List StatementRule
  pub global_rules : List GlobalRule
  pub statement_ids : List Text
  pub global_ids : List Text

abbrev pub new_registry : Registry
new_registry = record {
  statement_rules = [];
  global_rules = [];
  statement_ids = [];
  global_ids = [];
}

-- `RegisterStatement`: the registry after the call, and the error if there is one.
unfoldable pub register_statement : Registry → StatementRule → Result Registry
register_statement r rule =
    if rule.id == []
    then err empty_rule_id
    else if contains rule.id r.statement_ids
    then err (duplicate_rule_id rule.id)
    else ok (record r {
      statement_rules = r.statement_rules ++ rule ∷ [];
      statement_ids = rule.id ∷ r.statement_ids;
    })

-- `RegisterGlobal`
pub register_global : Registry → GlobalRule → Result Registry
register_global r rule =
    if rule.id == []
    then err empty_rule_id
    else if contains rule.id r.global_ids
    then err (duplicate_rule_id rule.id)
    else ok (record r {
      global_rules = r.global_rules ++ rule ∷ [];
      global_ids = rule.id ∷ r.global_ids;
    })

-- `Contains`; `none` is the nil receiver.
pub contains_id : Option Registry → Text → Bool
contains_id none id = false
contains_id (some r) id = contains id r.statement_ids || contains id r.global_ids

unfoldable pub loaded_statement_rule_count : Registry → ℕ
loaded_statement_rule_count r = length r.statement_rules

-- `normalizeFindingRuleIDs`
unfoldable pub normalize_finding_rule_ids : Text → List Finding → Result (List Finding)
normalize_finding_rule_ids id [] = ok []
normalize_finding_rule_ids id (f ∷ fs) =
    let rest = normalize_finding_rule_ids id fs in
    if f.rule_id == []
    then (rest >>= λ gs. ok (record f { rule_id = id } ∷ gs))
    else if f.rule_id == id
    then (rest >>= λ gs. ok (f ∷ gs))
    else err (rule_id_mismatch id f.rule_id)

-- `inferSkipReason`; `none` is the empty reason.
unfoldable pub infer_skip_reason : Text → Statement → Option SkipReason
infer_skip_reason id statement =
    if has_prefix id (codes "ddl.pg.") && not (is_postgresql statement.dialect)
    then some dialect_mismatch
    else none

abbrev pub Polls : Type 0
Polls = ℕ → Bool

abbrev pub later : ℕ → Polls → Polls
later zero polls = polls
later (suc n) polls = later n (λ i. polls (suc i))

-- The loop of `EvaluateStatement`.
evaluate_rules : Polls → List StatementRule → Statement → Result (List Finding)
evaluate_rules polls [] statement = ok []
evaluate_rules polls (r ∷ rs) statement =
    let rest = evaluate_rules (λ i. polls (suc i)) rs statement in
    if polls 0 then err cancelled else if not (r.applies_to statement) then rest else (do
      found ← r.evaluate statement
      named ← normalize_finding_rule_ids r.id found
      more ← rest
      ok (named ++ more))

pub evaluate_statement : Polls → Registry → Statement → Result (List Finding)
unfolding evaluate_rules
evaluate_statement polls r statement = evaluate_rules polls r.statement_rules statement

-- The loop of `EvaluateGlobal`.
evaluate_global_rules : Polls → List GlobalRule → List Statement → Result (List Finding)
evaluate_global_rules polls [] statements = ok []
evaluate_global_rules polls (r ∷ rs) statements =
    let rest = evaluate_global_rules (λ i. polls (suc i)) rs statements in
    if polls 0 then err cancelled else (do
      found ← r.evaluate_all statements
      named ← normalize_finding_rule_ids r.id found
      more ← rest
      ok (named ++ more))

unfoldable pub evaluate_global : Polls → Registry → List Statement → Result (List Finding)
unfolding evaluate_global_rules normalize_finding_rule_ids
evaluate_global polls r statements = evaluate_global_rules polls r.global_rules statements

abbrev pub add_skipped : Text → Option SkipReason → StatementEvaluation → StatementEvaluation
add_skipped id none eval = eval
add_skipped id (some reason) eval = record eval {
  skipped = eval.skipped ++ record { rule_id = id; reason = reason } ∷ [];
}

abbrev pub add_applied : Text → List Finding → StatementEvaluation → StatementEvaluation
add_applied id fs eval = record eval {
  findings = eval.findings ++ fs;
  applied_rule_ids = eval.applied_rule_ids ++ id ∷ [];
}

abbrev pub empty_evaluation : StatementEvaluation
empty_evaluation = record { findings = []; skipped = []; applied_rule_ids = [] }

-- The loop of `EvaluateStatementDetailed`, over the evaluation that it builds.
pub evaluate_detailed_from :
    StatementEvaluation → Polls → List StatementRule → Statement → Result StatementEvaluation
evaluate_detailed_from eval polls [] statement = ok eval
evaluate_detailed_from eval polls (r ∷ rs) statement =
    let skip =
      evaluate_detailed_from (add_skipped r.id (infer_skip_reason r.id statement) eval)
        (λ i. polls (suc i)) rs statement in
    if polls 0 then err cancelled else if not (r.applies_to statement) then skip else (do
      found ← r.evaluate statement
      named ← normalize_finding_rule_ids r.id found
      evaluate_detailed_from (add_applied r.id named eval) (λ i. polls (suc i)) rs statement)

unfoldable pub evaluate_statement_detailed :
    Polls → Registry → Statement → Result StatementEvaluation
unfolding evaluate_detailed_from normalize_finding_rule_ids infer_skip_reason
evaluate_statement_detailed polls r statement =
    evaluate_detailed_from empty_evaluation polls r.statement_rules statement
