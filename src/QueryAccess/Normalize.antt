-- ===== src/QueryAccess/Normalize.antt =====
-- internal/domain/queryaccess/normalize.go: folding and validation of states, the order and the
-- deduplication of the result's lists, and the reasons of identity failures.
pub mod Folding
pub mod Canonical
use delta_scope.Prelude.{
  Bool, true, false, not, List, [], ◌∷◌, ◌++◌, Text, comparable_text, ◌==◌, text_beq, if◌then◌else◌,
  Option, none, some, contains, sort_by, by_text, by_last,
}
use delta_scope.QueryAccess.{
  Mode, strict_mode, projection_only, other_mode, ReadClassification, read_only, not_read_only,
  indeterminate, other_classification, Admission, admissible, rejected, indeterminate_admission,
  other_admission, IdentityFailure, failure_unavailable, failure_unknown, failure_error,
  failure_ambiguous, failure_coercion_gap, other_failure, IdentityStatus, status_resolved,
  status_unknown, status_ambiguous, status_coercion_gap, status_lookup_failed, status_unavailable,
  other_status, UsageContext, ReasonCode, reason_identity_resolver_unavailable,
  reason_identity_unknown, reason_identity_lookup_failed, reason_identity_ambiguous,
  reason_identity_coercion_gap, WarningCode, RelationReference, ColumnReference, OutputColumn,
  Requirement, Unresolved, AccessResult,
}

-- `ErrInvalidMode`, `ErrInvalidAdmission` and `ErrUnknownAdmission`, with what they quote.
pub data ValidationError : Type 0 where
  invalid_mode : Mode → ValidationError
  invalid_admission : ReadClassification → ValidationError
  unknown_admission : Admission → ValidationError

-- `NormalizeMode`
normalize_mode : Mode → Mode
normalize_mode (other_mode []) = strict_mode
normalize_mode m = m

-- The functions that return an `error` return an option, where `none` is nil.
unfoldable pub validate_mode : Mode → Option ValidationError
validate_mode (other_mode m) = some (invalid_mode (other_mode m))
validate_mode m = none

-- The loop of `FoldReadClassification`, with `hasIndeterminate`.
fold_from : Bool → List ReadClassification → ReadClassification
fold_from has_indeterminate [] = if has_indeterminate then indeterminate else read_only
fold_from has_indeterminate (not_read_only ∷ cs) = not_read_only
fold_from has_indeterminate (indeterminate ∷ cs) = fold_from true cs
fold_from has_indeterminate (read_only ∷ cs) = fold_from has_indeterminate cs
fold_from has_indeterminate (other_classification t ∷ cs) = fold_from has_indeterminate cs

unfoldable pub fold_read_classification : List ReadClassification → ReadClassification
unfolding fold_from
fold_read_classification [] = indeterminate
fold_read_classification (c ∷ cs) = fold_from false (c ∷ cs)

unfoldable pub validate_admission : ReadClassification → Admission → Option ValidationError
validate_admission read_only admissible = none
validate_admission rc admissible = some (invalid_admission rc)
validate_admission rc (other_admission a) = some (unknown_admission (other_admission a))
validate_admission rc adm = none

-- `SortRelations` and the other sorts of the result.
unfoldable pub sort_relations : List RelationReference → List RelationReference
sort_relations = sort_by (
    by_text (λ r. r.schema)
      (by_text (λ r. r.name) (by_text (λ r. r.alias) (by_last (λ r. r.kind)))))

-- `usageKey`: the usages, joined with commas.
usage_key : List UsageContext → Text
usage_key [] = []
usage_key (u ∷ []) = u
usage_key (u ∷ v ∷ us) = u ++ b',' ∷ usage_key (v ∷ us)

unfoldable pub sort_columns : List ColumnReference → List ColumnReference
unfolding usage_key
sort_columns = sort_by (
    by_text (λ c. c.schema)
      (by_text (λ c. c.table) (by_text (λ c. c.column) (by_last (λ c. usage_key c.usages)))))

unfoldable pub sort_requirements : List Requirement → List Requirement
sort_requirements = sort_by (by_text (λ r. r.object) (by_last (λ r. r.privilege)))

unfoldable pub sort_unresolved : List Unresolved → List Unresolved
sort_unresolved = sort_by (by_text (λ u. u.reference) (by_last (λ u. u.reason)))

sort_outputs : List OutputColumn → List OutputColumn
sort_outputs = sort_by (by_last (λ o. o.name))

unfoldable pub sort_reason_codes : List ReasonCode → List ReasonCode
sort_reason_codes = sort_by (by_last (λ c. c))

unfoldable pub sort_warning_codes : List WarningCode → List WarningCode
sort_warning_codes = sort_by (by_last (λ c. c))

-- The loops of `DeduplicateUsages` and `DeduplicateReasonCodes`, with the keys of `seen`.
unfoldable pub deduplicate_from : List Text → List Text → List Text
deduplicate_from seen [] = []
deduplicate_from seen (c ∷ cs) =
    let skipped = deduplicate_from seen cs in
    let kept = c ∷ deduplicate_from (c ∷ seen) cs in if contains c seen then skipped else kept

deduplicate_usages : List UsageContext → List UsageContext
unfolding deduplicate_from
deduplicate_usages = deduplicate_from []

unfoldable pub deduplicate_reason_codes : List ReasonCode → List ReasonCode
unfolding deduplicate_from
deduplicate_reason_codes = deduplicate_from []

-- `NormalizeReasonCodes`
unfoldable pub normalize_reason_codes : List ReasonCode → List ReasonCode
normalize_reason_codes codes = sort_reason_codes (deduplicate_reason_codes codes)

-- `ValidateResult` of a result that is there: the first error.
unfoldable pub validate_result : AccessResult → Option ValidationError
unfolding validate_mode validate_admission
validate_result r = elim (validate_admission r.read_classification r.admission) [
  | some e ↦ some e
  | none ↦ validate_mode r.mode
]

unfoldable pub format_relation_key : Text → Text → Text
format_relation_key schema name = if text_beq schema [] then name else schema ++ b'.' ∷ name

unfoldable pub format_column_key : Text → Text → Text → Text
format_column_key schema table column =
    let key = table ++ b'.' ∷ column in if text_beq schema [] then key else schema ++ b'.' ∷ key

-- The maps from bounded statuses and failures to reasons; `none` is the result false.
reason_for_identity_failure : IdentityFailure → Option ReasonCode
reason_for_identity_failure failure_unavailable = some reason_identity_resolver_unavailable
reason_for_identity_failure failure_unknown = some reason_identity_unknown
reason_for_identity_failure failure_error = some reason_identity_lookup_failed
reason_for_identity_failure failure_ambiguous = some reason_identity_ambiguous
reason_for_identity_failure failure_coercion_gap = some reason_identity_coercion_gap
reason_for_identity_failure (other_failure t) = none

unfoldable pub valid_identity_status : IdentityStatus → Bool
valid_identity_status (other_status t) = false
valid_identity_status s = true

pub identity_status_is_fail_closed : IdentityStatus → Bool
identity_status_is_fail_closed status_resolved = false
identity_status_is_fail_closed s = true

identity_status_to_failure : IdentityStatus → Option IdentityFailure
identity_status_to_failure status_unavailable = some failure_unavailable
identity_status_to_failure status_unknown = some failure_unknown
identity_status_to_failure status_lookup_failed = some failure_error
identity_status_to_failure status_ambiguous = some failure_ambiguous
identity_status_to_failure status_coercion_gap = some failure_coercion_gap
identity_status_to_failure status_resolved = none
identity_status_to_failure (other_status t) = none

pub reason_for_identity_status : IdentityStatus → Option ReasonCode
unfolding identity_status_to_failure reason_for_identity_failure
reason_for_identity_status s = elim (identity_status_to_failure s) [
  | none ↦ none
  | some f ↦ reason_for_identity_failure f
]
