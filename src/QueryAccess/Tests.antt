-- ===== src/QueryAccess/Tests.antt =====
-- Runs of the query access analysis on a small query, and the theorems at it.
use delta_scope.Prelude.{
  ◌≡◌, refl, ◌≢◌, true, false, ◌&&◌, List, [], ◌∷◌, arith, Text, codes, some, All, contains, inr,
  ◌⊎◌, comparable_text, text_beq, sort_by,
}
use delta_scope.QueryAccess.{
  strict_mode, projection_only, read_only, not_read_only, indeterminate, admissible,
  indeterminate_admission, status_ambiguous, relation_view, reason_identity_ambiguous,
  reason_view_expansion_required, RelationReference, ColumnReference, OutputColumn, Requirement,
  Unresolved, AccessResult, ReasonCode,
}
use delta_scope.QueryAccess.Normalize.{
  validate_mode, fold_read_classification, normalize_reason_codes, reason_for_identity_status,
  valid_identity_status, identity_status_is_fail_closed, validate_result, validate_admission,
  sort_relations, sort_columns, sort_requirements, sort_unresolved, sort_warning_codes,
  sort_reason_codes, deduplicate_reason_codes, deduplicate_from,
}
use delta_scope.QueryAccess.Normalize.Folding.{
  fold_read_classification_lem, is_some, reason_for_identity_status_lem,
}
use delta_scope.QueryAccess.Normalize.Canonical.{normalize_reason_codes_canonical}
use delta_scope.QueryAccess.Requirements.{
  build_requirements, build_unbound_names, unresolved_requirement, all_sources,
}
use delta_scope.QueryAccess.Requirements.Steps.{has}
use delta_scope.QueryAccess.Requirements.Coverage.{
  IsReadIn, IsColumnIn, IsCovered, build_requirements-strict, build_requirements-projection,
}
use delta_scope.QueryAccess.State.{
  conclude, final_state, normalize_final_state, settle_state, ensure_indeterminate_reason,
  reclassify_after_resolution, has_wildcard_unresolved, recompute_admission, has_view, block,
  view_barrier, unqualified_barrier, has_function_call_reason_code,
}
use delta_scope.QueryAccess.State.Contract.{IsContract, conclude-IsContract, conclude-admissible}
use delta_scope.QueryAccess.State.Stable.{normalize_final_state_idempotent}
use delta_scope.QueryAccess.State.Barriers.{barriers-view}

abbrev relation : Text → Text → RelationReference
relation schema kind = record {
  schema = schema;
  name = codes "orders";
  alias = [];
  kind = kind;
  permission_required = true;
  unbound = false;
}

abbrev amount : ColumnReference
amount = record {
  schema = codes "app";
  table = codes "orders";
  column = codes "amount";
  usages = codes "projection" ∷ [];
  unbound = false;
}

abbrev total : OutputColumn
total = record { name = codes "total"; sources = codes "app.orders.amount" ∷ [] }

abbrev missing : Unresolved
missing = record { reference = codes "x"; reason = codes "ambiguous_reference" }

abbrev query : RelationReference → AccessResult
query rel = record {
  dialect = codes "postgresql";
  mode = strict_mode;
  read_classification = indeterminate;
  admission = indeterminate_admission;
  reason_codes = [];
  relations = rel ∷ [];
  referenced_columns = amount ∷ [];
  outputs = total ∷ [];
  requirements = [];
  unresolved = [];
  warnings = [];
}

abbrev table_query : AccessResult
table_query = query (relation (codes "app") (codes "table"))

abbrev view_query : AccessResult
view_query = query (relation (codes "app") relation_view)

abbrev same_text : Text → Text
same_text t = t

conclude-IsContract_example :
    (result : AccessResult) × (conclude true true table_query ≡ inr result) × IsContract result
unfolding validate_mode
conclude-IsContract_example = conclude-IsContract true true table_query refl

abbrev promoted : AccessResult
promoted = record table_query { read_classification = read_only; admission = admissible }

conclude-admissible_example :
    (table_query.unresolved ≡ [])
    × ((table_query.read_classification ≡ read_only)
        ⊎ ((table_query.read_classification ≡ indeterminate)
            × (true ≡ true)
            × (true ≡ true)
            × (table_query.reason_codes ≡ [])))
unfolding conclude final_state normalize_final_state settle_state ensure_indeterminate_reason
    reclassify_after_resolution has_wildcard_unresolved recompute_admission normalize_reason_codes
    sort_reason_codes deduplicate_reason_codes deduplicate_from sort_relations sort_columns
    sort_requirements sort_unresolved sort_warning_codes validate_result validate_admission
    validate_mode text_beq sort_by
conclude-admissible_example = conclude-admissible true true table_query promoted refl refl

abbrev blocked : ReasonCode → AccessResult → AccessResult
blocked code r = record r { reason_codes = code ∷ [] }

barriers-view_example : (blocked reason_view_expansion_required view_query).admission ≢ admissible
unfolding conclude final_state normalize_final_state settle_state ensure_indeterminate_reason
    reclassify_after_resolution has_wildcard_unresolved recompute_admission normalize_reason_codes
    sort_reason_codes deduplicate_reason_codes deduplicate_from sort_relations sort_columns
    sort_requirements sort_unresolved sort_warning_codes validate_result validate_admission
    validate_mode has_view block view_barrier unqualified_barrier has_function_call_reason_code
    text_beq sort_by
barriers-view_example =
    barriers-view [] false true true view_query (blocked reason_view_expansion_required view_query)
      refl refl refl

fold_read_classification_lem_example :
    fold_read_classification (read_only ∷ not_read_only ∷ indeterminate ∷ []) ≡ not_read_only
fold_read_classification_lem_example =
    fold_read_classification_lem (read_only ∷ not_read_only ∷ indeterminate ∷ [])

reason_for_identity_status_lem_example :
    (is_some (reason_for_identity_status status_ambiguous)
      ≡ (valid_identity_status status_ambiguous && identity_status_is_fail_closed status_ambiguous))
    × (reason_for_identity_status status_ambiguous ≡ some reason_identity_ambiguous
        → reason_for_identity_status status_ambiguous ≡ some reason_identity_ambiguous
        → status_ambiguous ≡ status_ambiguous)
reason_for_identity_status_lem_example =
    reason_for_identity_status_lem status_ambiguous status_ambiguous reason_identity_ambiguous

abbrev two_reasons : List ReasonCode
two_reasons = codes "b" ∷ codes "a" ∷ []

abbrev three_reasons : List ReasonCode
three_reasons = codes "a" ∷ codes "b" ∷ codes "a" ∷ []

same_reasons : (x : ReasonCode) → contains x two_reasons ≡ contains x three_reasons
same_reasons x = ground arith

normalize_reason_codes_canonical_example :
    normalize_reason_codes two_reasons ≡ normalize_reason_codes three_reasons
normalize_reason_codes_canonical_example =
    normalize_reason_codes_canonical two_reasons three_reasons same_reasons

build_requirements-strict_example :
    (reqs : List Requirement) × (build_requirements same_text strict_mode table_query.relations
        (amount ∷ [])
        (total ∷ [])
        (missing ∷ [])
      ≡ inr (reqs, []))
    × All (IsReadIn reqs) table_query.relations
    × All (IsColumnIn (build_unbound_names same_text table_query.relations) reqs) (amount ∷ [])
    × All (λ u. has (unresolved_requirement u) reqs ≡ true) (missing ∷ [])
build_requirements-strict_example =
    build_requirements-strict same_text table_query.relations (amount ∷ []) (total ∷ [])
      (missing ∷ [])

build_requirements-projection_example :
    (reqs : List Requirement) × (warnings : List Text) × (build_requirements same_text
        projection_only table_query.relations
        (amount ∷ [])
        (total ∷ [])
        (missing ∷ [])
      ≡ inr (reqs, warnings))
    × All (IsReadIn reqs) table_query.relations
    × All
        (IsCovered same_text (build_unbound_names same_text table_query.relations) reqs)
        (all_sources (total ∷ []))
    × All (λ u. has (unresolved_requirement u) reqs ≡ true) (missing ∷ [])
build_requirements-projection_example =
    build_requirements-projection same_text table_query.relations (amount ∷ []) (total ∷ [])
      (missing ∷ [])

normalize_final_state_idempotent_example :
    normalize_final_state (normalize_final_state table_query) ≡ normalize_final_state table_query
normalize_final_state_idempotent_example = normalize_final_state_idempotent table_query
