-- ===== src/QueryAccess/Builtin/Gateway.antt =====
-- internal/application/queryaccess/builtin_semantic_gateway.go: whether the calls of a MySQL or TiDB
-- query are native ones of its profile, and its requirements complete.
use delta_scope.Prelude.{
  ℕ, suc, pos, int_lt, is_negative, comparable_int, comparable_text, ◌==◌, Bool, true, false, not,
  ◌&&◌, ◌||◌, List, [], ◌∷◌, ◌++◌, Text, text_beq, codes, none, some, nat_beq, length, any,
  if◌then◌else◌, reverse, has_prefix,
}
use delta_scope.QueryAccess.{relation_table, RelationReference, Requirement, AccessResult}
use delta_scope.QueryAccess.Normalize.{format_relation_key, format_column_key}
use delta_scope.QueryAccess.Effect.{EffectCandidate, OperandColumnRef, is_function}
use delta_scope.QueryAccess.Effect.Eligibility.{Folding, is_empty, has_one, the_one, is_strict}
use delta_scope.QueryAccess.Profile.{
  AnalysisProfile, empty_profile, profile_beq, validate_analysis_profile,
}
use delta_scope.QueryAccess.Builtin.{
  aggregate_class, window_class, scalar_class, other_class, is_aggregate_class, is_window_class,
  is_scalar_class, BuiltinEntry, BuiltinRegistry, manifest_of,
}

-- `candidateOrdinalsClosed`: the ordinals are the positions; so none is repeated.
abbrev closed_from : ℕ → List EffectCandidate → Bool
closed_from i [] = true
closed_from i (c ∷ cs) = c.ordinal == pos i && closed_from (suc i) cs

unfoldable pub ordinals_closed : List EffectCandidate → Bool
ordinals_closed [] = false
ordinals_closed (c ∷ cs) = closed_from 0 (c ∷ cs)

-- `candidateName`
abbrev pub candidate_name : EffectCandidate → Text
candidate_name c = the_one c.name_path

-- `candidateCallClassMatches`
unfoldable pub call_class_matches : EffectCandidate → BuiltinEntry → Bool
call_class_matches c e = elim e.call_class [
  | aggregate_class ↦ c.parser_classification == codes "aggregate"
  | window_class ↦ c.parser_classification == codes "window"
  | scalar_class ↦
      c.parser_classification == codes "generic" || c.parser_classification == codes "keyword"
  | other_class t ↦ false
]

-- `candidateArityMatches`
unfoldable pub arity_matches : EffectCandidate → BuiltinEntry → Bool
arity_matches c e =
    if int_lt (pos 0) e.min_arity
    then not (int_lt c.arity e.min_arity)
      && not (int_lt (pos 0) e.max_arity && int_lt e.max_arity c.arity)
    else c.arity == e.arity

-- The operand kinds against those of the entry, the last of which stands for all further ones.
abbrev repeats : Text → List Text → Bool
repeats last [] = true
repeats last (k ∷ ks) = k == last && repeats last ks

abbrev kinds_fit : List Text → List Text → Bool
kinds_fit ks [] = is_empty ks
kinds_fit [] (e ∷ es) = true
kinds_fit (k ∷ ks) (e ∷ []) = k == e && repeats e ks
kinds_fit (k ∷ ks) (e ∷ e' ∷ es) = k == e && kinds_fit ks (e' ∷ es)

abbrev same_kinds : List Text → List Text → Bool
same_kinds [] [] = true
same_kinds (k ∷ ks) (e ∷ es) = k == e && same_kinds ks es
same_kinds _ _ = false

-- `candidateOperandKindsMatch`
unfoldable pub operand_kinds_match : EffectCandidate → BuiltinEntry → Bool
operand_kinds_match c e =
    if int_lt (pos 0) e.min_arity
    then not (int_lt (pos (length c.operand_kinds)) e.min_arity)
      && pos (length c.operand_kinds) == c.arity
      && not (is_empty e.operand_kinds)
      && kinds_fit c.operand_kinds e.operand_kinds
    else same_kinds c.operand_kinds e.operand_kinds

-- `candidateModifiersAllowed`
unfoldable pub modifiers_allowed : EffectCandidate → BuiltinEntry → Bool
modifiers_allowed c e =
    if c.has_filter && not e.allow_filter
      || c.has_distinct && not e.allow_distinct
      || c.has_agg_order && not e.allow_agg_order
      || c.has_within_group && not e.allow_within_group
      || c.has_frame && not e.allow_frame
      || c.has_named_window && not e.allow_named_window
      || c.has_window_partition && not e.allow_window_partition
      || c.has_window_order && not e.allow_window_order
    then false
    else if e.require_window_partition && not c.has_window_partition
    then false
    else if e.require_window_order && not c.has_window_order
    then false
    else if is_aggregate_class e.call_class && c.has_window
    then false
    else if is_window_class e.call_class && not c.has_window
    then false
    else if is_scalar_class e.call_class
        && (c.has_window || c.is_aggregate || c.has_filter || c.has_distinct || c.has_agg_order
            || c.has_within_group || c.has_frame || c.has_named_window || c.has_window_partition
            || c.has_window_order)
    then false
    else if not c.has_window_partition && not (is_empty c.window_partition_kinds)
        || not c.has_window_order && not (is_empty c.window_order_kinds)
        || not c.has_frame && not (is_empty c.window_frame_kinds)
    then false
    else not (c.has_frame && not (nat_beq (length c.window_frame_kinds) 2))

abbrev count_columns : List Text → ℕ
count_columns [] = 0
count_columns (k ∷ ks) = if k == codes "column" then suc (count_columns ks) else count_columns ks

abbrev only_columns : List Text → Bool
only_columns [] = true
only_columns (k ∷ ks) = k == codes "column" && only_columns ks

-- `candidateOperandRefsShape`
unfoldable pub operand_refs_shape : EffectCandidate → Bool
operand_refs_shape c =
    nat_beq (length c.operand_column_refs) (count_columns c.operand_kinds)
    && nat_beq (length c.window_partition_kinds) (length c.window_partition_column_refs)
    && nat_beq (length c.window_order_kinds) (length c.window_order_column_refs)
    && only_columns c.window_partition_kinds
    && only_columns c.window_order_kinds

-- One turn of the loop of `builtinCandidateMatches`.
unfoldable pub entry_matches : EffectCandidate → BuiltinEntry → Bool
entry_matches c e =
    call_class_matches c e
    && text_beq (candidate_name c) e.name
    && arity_matches c e
    && operand_kinds_match c e
    && operand_refs_shape c
    && modifiers_allowed c e

-- `name == "*"` or it ends with `.*`.
abbrev is_wildcard : Text → Bool
is_wildcard name = name == codes "*" || has_prefix (reverse name) (codes "*.")

-- The table of a relation that is physical and qualified, and a column that is.
abbrev pub is_physical : RelationReference → Bool
is_physical rel =
    text_beq rel.kind relation_table
    && rel.permission_required
    && not rel.unbound
    && not (text_beq rel.schema [])
    && not (text_beq rel.name [])

abbrev is_named : Text → Text → Text → Bool
is_named schema table column =
    not (text_beq schema [])
    && not (text_beq table [])
    && not (text_beq column [])
    && not (text_beq column (codes "*"))

abbrev pub all_of {ℓ} : {A : Type ℓ} → (A → Bool) → List A → Bool
all_of p [] = true
all_of p (x ∷ xs) = p x && all_of p xs

-- The set `required`, whose keys are an object and a privilege.
abbrev pub requires : List Requirement → Text → Text → Bool
requires reqs object privilege =
    any (λ r. text_beq r.object object && text_beq r.privilege privilege) reqs

abbrev reads_column : List Requirement → OperandColumnRef → Bool
reads_column reqs ref =
    is_named ref.schema ref.table ref.column
    && requires reqs (format_column_key ref.schema ref.table ref.column) (codes "read_column")

abbrev pub all_refs : EffectCandidate → List OperandColumnRef
all_refs c = c.operand_column_refs ++ (c.window_partition_column_refs ++ c.window_order_column_refs)

-- `strictPhysicalRequirementsComplete`
unfoldable pub physical_complete : AccessResult → List Requirement → List EffectCandidate → Bool
physical_complete result reqs cs =
    if not (is_strict result.mode) || not (is_empty result.unresolved) || is_empty result.relations
    then false
    else all_of is_physical result.relations
      && all_of (λ col. not col.unbound && is_named col.schema col.table col.column)
          result.referenced_columns
      && all_of (λ out. not (is_wildcard out.name)) result.outputs
      && all_of (λ r. not (text_beq r.privilege (codes "indeterminate"))) reqs
      && all_of
          (λ rel. requires reqs (format_relation_key rel.schema rel.name) (codes "read_table"))
          result.relations
      && all_of
          (λ col.
            requires reqs (format_column_key col.schema col.table col.column) (codes "read_column"))
          result.referenced_columns
      && all_of (λ c. all_of (reads_column reqs) (all_refs c)) cs

-- `relationlessLiteralRequirementsComplete`
unfoldable pub literal_complete : AccessResult → List Requirement → List EffectCandidate → Bool
literal_complete result reqs cs =
    if not (is_strict result.mode)
    then false
    else if not (is_empty result.relations)
        || not (is_empty result.referenced_columns)
        || not (is_empty result.unresolved)
        || not (is_empty reqs)
    then false
    else all_of (λ out. not (is_wildcard out.name)) result.outputs
      && not (is_empty cs)
      && all_of
          (λ c.
            is_empty (all_refs c)
            && not (is_empty c.operand_kinds)
            && all_of (λ k. k == codes "const") c.operand_kinds)
          cs

abbrev pub wrong_profile : AnalysisProfile → Text → Bool
wrong_profile profile dialect =
    profile_beq profile empty_profile
    || (not (text_beq dialect (codes "mysql")) && not (text_beq dialect (codes "tidb")))
    || elim (validate_analysis_profile profile dialect) [ none ↦ false | some e ↦ true ]

module _ (folding : Folding) where
  open folding use {to_lower, equal_fold}

  -- The checks of `builtinCandidateMatches` before its loop.
  unfoldable pub plain_call : EffectCandidate → Bool
  plain_call c =
      if not (is_function c.kind)
        || is_negative c.ordinal
        || c.is_quoted
        || c.explicit_schema
        || c.unqualified_relation
        || c.ambiguous
        || not c.canonical
        || not (has_one c.name_path)
        || not (has_one c.original_name_path)
        || not (is_empty c.target_type_path)
      then false
      else text_beq (the_one c.name_path) (to_lower (the_one c.name_path))
        && equal_fold (the_one c.name_path) (the_one c.original_name_path)

  -- `builtinCandidateMatches`, of the entries by the candidate's name: `byName` groups the manifest by
  -- name, and the loop compares the name again.
  unfoldable pub builtin_candidate_matches : EffectCandidate → List BuiltinEntry → Bool
  unfolding plain_call
  builtin_candidate_matches c es = plain_call c && any (entry_matches c) es

  -- `proveBuiltinSemantics`, true where the decision is all_proven.
  unfoldable pub prove_builtin :
      AnalysisProfile
      → Text
      → List EffectCandidate
      → AccessResult
      → List Requirement
      → BuiltinRegistry
      → Bool
  unfolding builtin_candidate_matches
  prove_builtin profile dialect cs result reqs registry =
      if wrong_profile profile dialect
      then false
      else elim (manifest_of to_lower registry profile) [
        | none ↦ false
        | some m ↦
            if is_empty m
            then false
            else if not (physical_complete result reqs cs) && not (literal_complete result reqs cs)
            then false
            else if not (ordinals_closed cs)
            then false
            else all_of (λ c. builtin_candidate_matches c m) cs
      ]
