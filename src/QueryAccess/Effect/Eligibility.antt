-- ===== src/QueryAccess/Effect/Eligibility.antt =====
-- internal/application/queryaccess/phase1_effect_eligibility.go and count_integer_one_proof.go: which
-- candidates may be proven. `strings.ToLower` and `strings.EqualFold` are parameters.
use delta_scope.Prelude.{
  pos, comparable_int, is_negative, ◌==◌, comparable_text, Bool, true, false, not, ◌&&◌, ◌||◌, List,
  [], ◌∷◌, Text, text_beq, codes, Option, none, some, if◌then◌else◌,
}
use delta_scope.QueryAccess.{
  Mode, strict_mode, ReasonCode, reason_unproven_function_effect, reason_unproven_cast_effect,
  reason_identity_lookup_failed, relation_table, RelationReference, Requirement, AccessResult,
}
use delta_scope.QueryAccess.Normalize.{format_relation_key}
use delta_scope.QueryAccess.Effect.{
  operator_kind, function_kind, cast_kind, unknown_kind, other_kind, EffectCandidate, is_function,
  canonical_name,
}

-- The two functions of package strings that fold letters.
pub record Folding : Type 0 where
  pub to_lower : Text → Text
  pub equal_fold : Text → Text → Bool

abbrev pub is_empty {ℓ} : {A : Type ℓ} → List A → Bool
is_empty [] = true
is_empty (x ∷ xs) = false

abbrev pub has_one {ℓ} : {A : Type ℓ} → List A → Bool
has_one (x ∷ []) = true
has_one _ = false

-- The only text of a list, where there is one.
abbrev pub the_one : List Text → Text
the_one (t ∷ []) = t
the_one _ = []

abbrev pub is_one : Text → List Text → Bool
is_one t ts = has_one ts && text_beq (the_one ts) t

-- The loop of `scalarFunctionEligible`, with `hasColumn`.
abbrev columns_and_constants : Bool → List Text → Bool
columns_and_constants has_column [] = has_column
columns_and_constants has_column (kind ∷ kinds) =
    let with_column = columns_and_constants true kinds in
    let without_column = columns_and_constants has_column kinds in
    if kind == codes "column"
    then with_column
    else if kind == codes "const"
    then without_column
    else false

abbrev pub is_strict : Mode → Bool
is_strict strict_mode = true
is_strict _ = false

abbrev covers_table : RelationReference → Requirement → Bool
covers_table rel req =
    text_beq req.object (format_relation_key rel.schema rel.name)
    && text_beq req.privilege (codes "read_table")

module _ (folding : Folding) where
  open folding use {to_lower, equal_fold}

  -- `isCountStar`
  unfoldable pub is_count_star : EffectCandidate → Bool
  is_count_star c =
      equal_fold (canonical_name c) (codes "count")
      && is_one (codes "star") c.operand_kinds
      && is_empty c.operand_column_refs

  -- `isWindowRankingFunction`
  unfoldable pub is_window_ranking_function : EffectCandidate → Bool
  is_window_ranking_function c =
      let name = to_lower (canonical_name c) in
      name == codes "row_number" || name == codes "rank" || name == codes "dense_rank"

  -- `IsExactCountIntegerOneCandidate`
  unfoldable pub is_exact_count_integer_one : EffectCandidate → Bool
  is_exact_count_integer_one c =
      if not (is_function c.kind)
        || c.explicit_schema
        || c.is_quoted
        || c.ambiguous
        || not c.canonical
        || c.unqualified_relation
        || not (has_one c.name_path)
        || not (has_one c.original_name_path)
        || not (text_beq (the_one c.name_path) (to_lower (the_one c.name_path)))
        || not (equal_fold (the_one c.name_path) (codes "count"))
        || not (equal_fold (the_one c.original_name_path) (codes "count"))
      then false
      else if not (c.arity == pos 1)
          || not (is_one (codes "integer_one") c.operand_kinds)
          || not (is_empty c.operand_column_refs)
          || not (is_empty c.target_type_path)
      then false
      else not c.has_window
        && not c.has_filter
        && not c.has_distinct
        && not c.has_agg_order
        && not c.has_within_group
        && not c.has_frame
        && not c.has_named_window
        && not c.has_window_partition
        && not c.has_window_order
        && is_empty c.window_partition_kinds
        && is_empty c.window_order_kinds
        && is_empty c.window_frame_kinds

  -- `scalarFunctionEligible`
  unfoldable pub scalar_function_eligible : EffectCandidate → Bool
  scalar_function_eligible c =
      if c.is_aggregate || c.has_window || c.has_filter || c.has_distinct
      then false
      else if is_empty c.operand_kinds
      then false
      else columns_and_constants false c.operand_kinds

  -- The case of arity 1 of `phase1FunctionEligible`.
  unfoldable pub unary_function_eligible : EffectCandidate → Bool
  unfolding is_exact_count_integer_one
  unary_function_eligible c =
      if c.has_window
      then false
      else if not (has_one c.operand_kinds)
      then false
      else if the_one c.operand_kinds == codes "column"
      then has_one c.operand_column_refs
      else if the_one c.operand_kinds == codes "const"
      then false
      else if the_one c.operand_kinds == codes "integer_one"
      then is_exact_count_integer_one c
      else false

  -- `phase1FunctionEligible`
  unfoldable pub phase1_function_eligible : EffectCandidate → Bool
  unfolding is_count_star is_window_ranking_function unary_function_eligible
      scalar_function_eligible
  phase1_function_eligible c =
      if is_negative c.arity
        || c.has_filter
        || c.has_distinct
        || c.has_agg_order
        || c.has_within_group
      then false
      else if c.has_frame
      then false
      else if c.arity == pos 0
      then is_count_star c
        || (c.has_window
            && is_window_ranking_function c
            && is_empty c.operand_kinds
            && is_empty c.operand_column_refs)
      else if c.arity == pos 1
      then unary_function_eligible c
      else if c.has_window
      then false
      else scalar_function_eligible c

  -- `validatePhase1PureEffectCandidates`: the reason of the first candidate that is not eligible.
  unfoldable pub validate_phase1_candidates : List EffectCandidate → Option ReasonCode
  unfolding phase1_function_eligible
  validate_phase1_candidates [] = none
  validate_phase1_candidates (c ∷ cs) =
      let rest = validate_phase1_candidates cs in
      elim c.kind [
        | operator_kind ↦ rest
        | function_kind ↦
            if not (phase1_function_eligible c) then some reason_unproven_function_effect else rest
        | cast_kind ↦ some reason_unproven_cast_effect
        | unknown_kind ↦ some reason_identity_lookup_failed
        | other_kind t ↦ some reason_identity_lookup_failed
      ]

  -- `hasExactCountIntegerOneCandidate`
  pub has_exact_count_integer_one : List EffectCandidate → Bool
  has_exact_count_integer_one [] = false
  has_exact_count_integer_one (c ∷ cs) =
      is_exact_count_integer_one c || has_exact_count_integer_one cs

  -- The one relation, the one requirement and the one candidate.
  abbrev one_table : List RelationReference → List Requirement → List EffectCandidate → Bool
  one_table (rel ∷ []) (req ∷ []) (c ∷ []) =
      if not (is_exact_count_integer_one c)
      then false
      else if not (text_beq rel.kind relation_table)
          || not rel.permission_required
          || rel.unbound
          || text_beq rel.schema []
          || text_beq rel.name []
      then false
      else covers_table rel req
  one_table _ _ _ = false

  -- `countIntegerOneRequirementsComplete`
  pub count_integer_one_complete :
      AccessResult → List Requirement → List EffectCandidate → Bool → Bool
  count_integer_one_complete result requirements candidates exact_statement =
      if not exact_statement
        || not (text_beq result.dialect (codes "postgresql"))
        || not (is_strict result.mode)
        || not (is_empty result.referenced_columns)
        || not (is_empty result.unresolved)
      then false
      else one_table result.relations requirements candidates
