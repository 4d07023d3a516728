-- ===== src/QueryAccess/State.antt =====
-- internal/application/queryaccess/service.go: the barriers of Service.Analyze on the extracted
-- result, and its end, from the normalization of the reasons to the validated result. The
-- extraction, the metadata and the effect proof come before; their outcome is in the arguments.
pub mod Contract
pub mod Stable
pub mod Barriers
use delta_scope.Prelude.{
  Bool, true, false, not, ◌&&◌, ◌||◌, List, [], ◌∷◌, ◌++◌, Text, codes, comparable_text, ◌==◌,
  text_beq, if◌then◌else◌, Option, none, some, any, map, ltb, length, ◌⊎◌, inl, inr,
}
use delta_scope.QueryAccess.{
  Mode, ReadClassification, read_only, not_read_only, indeterminate, other_classification,
  Admission, admissible, rejected, indeterminate_admission, other_admission, relation_view,
  relation_cte, relation_derived, ReasonCode, reason_indeterminate, reason_schema_unavailable,
  reason_unproven_operator_effect, reason_unproven_function_effect, reason_unproven_cast_effect,
  reason_unqualified_relation_blocked, reason_view_expansion_required, RelationReference,
  ColumnReference, Unresolved, AccessResult,
}
use delta_scope.QueryAccess.Normalize.{
  ValidationError, validate_result, sort_relations, sort_columns, sort_requirements,
  sort_unresolved, sort_warning_codes, normalize_reason_codes,
}

-- A base relation without a schema: neither a CTE nor a derived table.
abbrev pub unqualified : RelationReference → Bool
unqualified rel =
    rel.schema == [] && not (rel.kind == relation_cte) && not (rel.kind == relation_derived)

-- `hasUnqualifiedRelation`
unfoldable pub has_unqualified_relation : List RelationReference → Bool
has_unqualified_relation [] = false
has_unqualified_relation (rel ∷ rels) = unqualified rel || has_unqualified_relation rels

-- The search for a view, in `Analyze` and in `orchestratePromotionProof`.
unfoldable pub has_view : List RelationReference → Bool
has_view [] = false
has_view (rel ∷ rels) = rel.kind == relation_view || has_view rels

unfoldable pub has_function_call_reason_code : List ReasonCode → Bool
has_function_call_reason_code [] = false
has_function_call_reason_code (c ∷ cs) =
    c == codes "function_call" || has_function_call_reason_code cs

-- What both barriers do to the state.
unfoldable pub block : AccessResult → AccessResult
block r = elim r.read_classification [
  | not_read_only ↦ record r { admission = rejected }
  | _ ↦ record r { read_classification = indeterminate; admission = indeterminate_admission }
]

abbrev pub add_reason : ReasonCode → AccessResult → AccessResult
add_reason code r = record r { reason_codes = r.reason_codes ++ code ∷ [] }

-- Analyze, before the metadata is resolved: unqualified base relations are unbound and recorded as
-- unresolved.
unfoldable pub mark_unqualified : AccessResult → AccessResult
unfolding has_unqualified_relation
mark_unqualified r = record r {
  relations =
      map (λ rel. if unqualified rel then record rel { unbound = true } else rel) r.relations;
  unresolved =
      r.unresolved
      ++ record {
        reference = codes "unqualified_relation";
        reason = reason_unqualified_relation_blocked;
      }
        ∷ [];
}

-- `if hasView`
unfoldable pub view_barrier : AccessResult → AccessResult
unfolding has_view block
view_barrier r =
    if has_view r.relations then add_reason reason_view_expansion_required (block r) else r

abbrev pub unbind : ColumnReference → ColumnReference
unbind col = if col.schema == [] then record col { unbound = true } else col

-- `if hasUnqualified`, after the metadata is resolved.
unfoldable pub unqualified_barrier : Bool → AccessResult → AccessResult
unfolding block
unqualified_barrier has_unqualified r =
    if has_unqualified
    then add_reason reason_unqualified_relation_blocked
        (block (record r { referenced_columns = map unbind r.referenced_columns }))
    else r

-- `if hasFunctionCallReasonCode`
abbrev pub note_function_effect : AccessResult → AccessResult
note_function_effect r =
    if has_function_call_reason_code r.reason_codes
    then add_reason (codes "unknown_function_effect") r
    else r

-- `Analyze`, between the resolution of the metadata and the requirements.
abbrev pub barriers : Bool → AccessResult → AccessResult
barriers has_unqualified r =
    note_function_effect (unqualified_barrier has_unqualified (view_barrier r))

-- `removeUnprovenEffectReasons` and `removeBuiltinSemanticReason`
abbrev pub keep_reasons : List ReasonCode → List ReasonCode → List ReasonCode
keep_reasons removed [] = []
keep_reasons removed (c ∷ cs) =
    let kept = keep_reasons removed cs in if any (λ d. c == d) removed then kept else c ∷ kept

abbrev pub unproven_effects : List ReasonCode
unproven_effects =
    reason_unproven_operator_effect ∷ reason_unproven_function_effect ∷ reason_unproven_cast_effect
    ∷ []

unfoldable pub remove_unproven_effect_reasons : List ReasonCode → List ReasonCode
remove_unproven_effect_reasons = keep_reasons unproven_effects

abbrev pub function_effects : List ReasonCode
function_effects = codes "unknown_function_effect" ∷ codes "function_call" ∷ []

unfoldable pub remove_builtin_semantic_reason : List ReasonCode → List ReasonCode
remove_builtin_semantic_reason = keep_reasons function_effects

-- `recomputeAdmission`
unfoldable pub recompute_admission : ReadClassification → List Unresolved → Admission
recompute_admission not_read_only us = rejected
recompute_admission read_only [] = admissible
recompute_admission rc us = indeterminate_admission

abbrev reason_of_unresolved : List Unresolved → List ReasonCode
reason_of_unresolved [] = []
reason_of_unresolved (u ∷ us) =
    let rest = reason_of_unresolved us in if u.reason == [] then rest else u.reason ∷ rest

-- `ensureIndeterminateReason`, as the reasons that the result has afterwards.
unfoldable pub ensure_indeterminate_reason : List ReasonCode → List Unresolved → List ReasonCode
ensure_indeterminate_reason (c ∷ cs) us = c ∷ cs
ensure_indeterminate_reason [] us = elim (reason_of_unresolved us) [
  | [] ↦ reason_indeterminate ∷ []
  | c ∷ cs ↦ c ∷ cs
]

abbrev pub make_indeterminate : AccessResult → AccessResult
make_indeterminate r = record r {
  read_classification = indeterminate;
  admission = indeterminate_admission;
  reason_codes = ensure_indeterminate_reason r.reason_codes r.unresolved;
}

-- The switch of `normalizeFinalState`, on a result that is there.
unfoldable pub settle_state : AccessResult → AccessResult
unfolding ensure_indeterminate_reason
settle_state r = elim r.read_classification [
  | not_read_only ↦ record r { admission = rejected }
  | read_only ↦ elim r.admission [
    | indeterminate_admission ↦ make_indeterminate r
    | _ ↦ record r { admission = admissible }
  ]
  | _ ↦ make_indeterminate r
]

unfoldable pub normalize_final_state : AccessResult → AccessResult
unfolding settle_state
normalize_final_state r =
    let settled = settle_state r in
    record settled { reason_codes = normalize_reason_codes settled.reason_codes }

-- `hasWildcardUnresolved`; the second reason is `ReasonUnresolvedWildcard` of resolve.go.
unfoldable pub has_wildcard_unresolved : List Unresolved → Bool
has_wildcard_unresolved [] = false
has_wildcard_unresolved (u ∷ us) =
    (u.reason == reason_schema_unavailable || u.reason == codes "unresolved_wildcard")
    || has_wildcard_unresolved us

-- `reclassifyAfterResolution`
unfoldable pub reclassify_after_resolution :
    ReadClassification → List ReasonCode → List Unresolved → Bool → Bool → ReadClassification
unfolding has_wildcard_unresolved
reclassify_after_resolution indeterminate cs us has_resolver allows_promotion =
    if not has_resolver
    then indeterminate
    else if not allows_promotion
    then indeterminate
    else if ltb 0 (length cs)
    then indeterminate
    else if has_wildcard_unresolved us
    then indeterminate
    else read_only
reclassify_after_resolution rc cs us has_resolver allows_promotion = rc

-- `Analyze`, from the normalization of the reasons on: the state before `normalizeFinalState`.
abbrev pub reclassified : Bool → Bool → AccessResult → AccessResult
reclassified has_resolver allows_promotion r =
    let reasons = normalize_reason_codes r.reason_codes in
    let classification =
      reclassify_after_resolution r.read_classification reasons r.unresolved has_resolver
        allows_promotion in
    record r {
      reason_codes = reasons;
      read_classification = classification;
      admission = recompute_admission classification r.unresolved;
      relations = sort_relations r.relations;
      referenced_columns = sort_columns r.referenced_columns;
      requirements = sort_requirements r.requirements;
      unresolved = sort_unresolved r.unresolved;
      warnings = sort_warning_codes r.warnings;
    }

unfoldable pub final_state : Bool → Bool → AccessResult → AccessResult
final_state has_resolver allows_promotion r =
    normalize_final_state (reclassified has_resolver allows_promotion r)

-- `Analyze`, from `ValidateResult` on.
abbrev pub validated : AccessResult → ValidationError ⊎ AccessResult
validated result = elim (validate_result result) [ some e ↦ inl e | none ↦ inr result ]

-- The end of `Analyze`: the final state, and its validation.
unfoldable pub conclude : Bool → Bool → AccessResult → ValidationError ⊎ AccessResult
conclude has_resolver allows_promotion r = validated (final_state has_resolver allows_promotion r)
