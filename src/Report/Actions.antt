-- ===== src/Report/Actions.antt =====
-- internal/domain/report/action_summary.go: the findings of a report grouped by rule and ordered by
-- urgency. The map of groups and the order in which its keys were made are one list of pairs in
-- that order; the pointer that `upsertActionGroup` returns is an update in place.
pub mod Groups
pub mod Order
use delta_scope.Prelude.{
  ℕ, zero, suc, ◌+◌, Bool, true, false, not, ◌&&◌, List, [], ◌∷◌, ◌++◌, Text, comparable_text,
  comparable_nat, ◌==◌, text_beq, ltb, if◌then◌else◌, codes, Option, none, some, length, map, take,
  contains, by_nat, by_nat_down, by_last, sort_by,
}
use delta_scope.Utf8.{trim_space}
use delta_scope.Rule.{Finding, Level, blocker, warning, notice, other_level}
use delta_scope.Report.{Report, StatementResult}

-- The fields of a catalog entry that the summary reads.
pub record Entry : Type 0 where
  pub rule_id : Text
  pub summary : Text
  pub suggestion : Text

pub record ActionItem : Type 0 where
  pub rule_id : Text
  pub level : Level
  pub count : ℕ
  pub summary : Text
  pub suggestion : Text
  pub statement_indexes : List ℕ
  pub has_global_findings : Bool
  pub explain_command : Text

pub record ActionSummary : Type 0 where
  pub items : List ActionItem
  pub total_items : ℕ

pub record ActionGroup : Type 0 where
  pub level : Level
  pub best_rank : ℕ
  pub count : ℕ
  pub statement_index_set : List ℕ
  pub has_global : Bool
  pub first_message : Text
  pub has_message : Bool
  pub fallback_suggestion : Text
  pub has_fallback_suggest : Bool

-- `levelRank`
pub level_rank : Level → ℕ
level_rank blocker = 0
level_rank warning = 1
level_rank notice = 2
level_rank (other_level l) = 3

abbrev pub new_group : ActionGroup
new_group = record {
  level = other_level [];
  best_rank = 4;
  count = 0;
  statement_index_set = [];
  has_global = false;
  first_message = [];
  has_message = false;
  fallback_suggestion = [];
  has_fallback_suggest = false;
}

-- `recordFinding`
record_finding : Finding → ActionGroup → ActionGroup
unfolding level_rank
record_finding finding g =
    let rank = level_rank finding.level in
    let better = ltb rank g.best_rank in
    let suggests =
      not g.has_fallback_suggest && not (text_beq (trim_space finding.suggestion) []) in
    record g {
      count = g.count + 1;
      best_rank = if better then rank else g.best_rank;
      level = if better then finding.level else g.level;
      first_message = if g.has_message then g.first_message else finding.message;
      has_message = true;
      fallback_suggestion = if suggests then finding.suggestion else g.fallback_suggestion;
      has_fallback_suggest = if suggests then true else g.has_fallback_suggest;
    }

-- `recordStatementIndex`
record_statement_index : ℕ → ActionGroup → ActionGroup
record_statement_index index g =
    if contains index g.statement_index_set
    then g
    else record g { statement_index_set = index ∷ g.statement_index_set }

abbrev pub Groups : Type 0
Groups = List (Text × ActionGroup)

-- `upsertActionGroup`, and the changes that its caller makes to the group.
pub upsert : Text → (ActionGroup → ActionGroup) → Groups → Groups
upsert id change [] = (id, change new_group) ∷ []
upsert id change ((key, g) ∷ groups) =
    if key == id then (key, change g) ∷ groups else (key, g) ∷ upsert id change groups

-- The two loops over findings, and the loop over statements with its 1-based index.
pub group_statement : ℕ → List Finding → Groups → Groups
unfolding record_finding record_statement_index
group_statement index [] groups = groups
group_statement index (f ∷ fs) groups =
    group_statement index fs
      (upsert f.rule_id (λ g. record_statement_index index (record_finding f g)) groups)

pub group_statements : ℕ → List StatementResult → Groups → Groups
unfolding group_statement
group_statements index [] groups = groups
group_statements index (s ∷ ss) groups =
    group_statements (index + 1) ss (group_statement (index + 1) s.findings groups)

pub group_global : List Finding → Groups → Groups
unfolding record_finding
group_global [] groups = groups
group_global (f ∷ fs) groups =
    group_global fs
      (upsert f.rule_id (λ g. record (record_finding f g) { has_global = true }) groups)

-- `entryByID`: a later entry of one ID replaces an earlier one.
entry_by_id : List Entry → Text → Option Entry
entry_by_id [] id = none
entry_by_id (e ∷ es) id = elim (entry_by_id es id) [
  | some found ↦ some found
  | none ↦ if e.rule_id == id then some e else none
]

-- `sortedStatementIndexes`: `sort.Ints` of the set.
sorted_statement_indexes : List ℕ → List ℕ
sorted_statement_indexes set = sort_by ltb set

abbrev or_else : Text → Text → Text
or_else preferred fallback = if text_beq preferred [] then fallback else preferred

abbrev described : Option Entry → (Entry → Text) → Text → Text
described none field fallback = fallback
described (some e) field fallback = or_else (field e) fallback

-- `toActionItem`
pub to_action_item : List Entry → Text × ActionGroup → ActionItem
unfolding entry_by_id sorted_statement_indexes
to_action_item entries (id, g) =
    let entry = entry_by_id entries id in
    record {
      rule_id = id;
      level = g.level;
      count = g.count;
      summary = described entry (λ e. e.summary) g.first_message;
      suggestion = described entry (λ e. e.suggestion) g.fallback_suggestion;
      statement_indexes = sorted_statement_indexes g.statement_index_set;
      has_global_findings = g.has_global;
      explain_command = codes "deltascope rules explain " ++ id;
    }

-- The comparator of `sortActionItems`.
abbrev pub more_urgent : ActionItem → ActionItem → Bool
more_urgent =
    by_nat (λ i. level_rank i.level) (by_nat_down (λ i. i.count) (by_last (λ i. i.rule_id)))

pub sort_action_items : List ActionItem → List ActionItem
sort_action_items items = sort_by more_urgent items

pub groups_of : Report → Groups
unfolding group_statements group_global
groups_of result = group_global result.global_findings (group_statements 0 result.statements [])

-- `BuildActionSummary`; a limit of 0 stands for every limit that is not positive.
unfoldable pub build_action_summary : Report → List Entry → ℕ → ActionSummary
unfolding groups_of to_action_item sort_action_items
build_action_summary result entries limit =
    let items = sort_action_items (map (to_action_item entries) (groups_of result)) in
    let total = length items in
    record {
      items = if ltb 0 limit && ltb limit total then take limit items else items;
      total_items = total;
    }
