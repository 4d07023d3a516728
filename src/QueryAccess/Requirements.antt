-- ===== src/QueryAccess/Requirements.antt =====
-- internal/application/queryaccess/requirements.go: what the caller must authorize. A Go set of
-- names is the list of its keys; `strings.ToLower` is the parameter `to_lower`.
pub mod Coverage
pub mod Steps
use delta_scope.Prelude.{
  Bool, true, false, not, ◌&&◌, ◌||◌, List, [], ◌∷◌, ◌++◌, Text, codes, comparable_text, ◌==◌,
  nat_beq, ltb, length, if◌then◌else◌, Option, none, some, contains, ◌⊎◌, inl, inr, concat, map,
}
use delta_scope.QueryAccess.{
  Mode, strict_mode, projection_only, RelationReference, ColumnReference, OutputColumn, Requirement,
  Unresolved, WarningCode, warning_inference_risk, other_mode,
}
use delta_scope.QueryAccess.Normalize.{
  ValidationError, invalid_mode, sort_requirements, format_relation_key, format_column_key,
}

abbrev pub Requirements : Type 0
Requirements = List Requirement × List WarningCode

abbrev pub column_key : ColumnReference → Text
column_key col = format_column_key col.schema col.table col.column

abbrev pub relation_requirement : RelationReference → Requirement
relation_requirement rel = record {
  object = format_relation_key rel.schema rel.name;
  privilege = codes "read_table";
}

abbrev pub column_requirement : Text → Requirement
column_requirement key = record { object = key; privilege = codes "read_column" }

abbrev pub unresolved_requirement : Unresolved → Requirement
unresolved_requirement u = record { object = u.reference; privilege = codes "indeterminate" }

abbrev pub after_relation : List Requirement → RelationReference → List Requirement
after_relation reqs rel =
    if rel.unbound || not rel.permission_required
    then reqs
    else reqs ++ relation_requirement rel ∷ []

abbrev pub after_column : List Text → List Requirement → ColumnReference → List Requirement
after_column unbound_names reqs col =
    if col.unbound
    then reqs
    else if col.schema == [] && ltb 0 (length unbound_names)
    then reqs
    else reqs ++ column_requirement (column_key col) ∷ []

-- The loop over the relations, appending to `reqs`.
unfoldable pub relation_requirements : List Requirement → List RelationReference → List Requirement
relation_requirements reqs [] = reqs
relation_requirements reqs (rel ∷ rels) = relation_requirements (after_relation reqs rel) rels

-- `appendUnresolvedRequirements`
unfoldable pub append_unresolved_requirements :
    List Requirement → List Unresolved → List Requirement
append_unresolved_requirements reqs [] = reqs
append_unresolved_requirements reqs (u ∷ us) =
    append_unresolved_requirements (reqs ++ unresolved_requirement u ∷ []) us

-- The text before the first `.` and the one behind it, as `strings.SplitN` cuts them.
unfoldable pub cut_dot : Text → Option (Text × Text)
cut_dot [] = none
cut_dot (c ∷ s) =
    let rest = cut_dot s in
    if nat_beq c b'.'
    then some ([], s)
    else elim rest [ none ↦ none | some (before, behind) ↦ some (c ∷ before, behind) ]

module _ (to_lower : Text → Text) where
  -- `buildUnboundNames`
  unfoldable pub build_unbound_names : List RelationReference → List Text
  build_unbound_names [] = []
  build_unbound_names (rel ∷ rels) =
      let names = build_unbound_names rels in
      if not rel.unbound
      then names
      else if rel.alias == []
      then to_lower rel.name ∷ names
      else to_lower rel.name ∷ to_lower rel.alias ∷ names

  -- `sourceIsUnbound`: three parts are schema, table and column, two are table and column.
  unfoldable pub source_is_unbound : Text → List Text → Bool
  unfolding cut_dot
  source_is_unbound src unbound_names = elim (cut_dot src) [
    | none ↦ false
    | some (first, behind) ↦ elim (cut_dot behind) [
      | none ↦ contains (to_lower first) unbound_names
      | some (second, column) ↦
          if not (first == []) then false else contains (to_lower second) unbound_names
    ]
  ]

  -- The loop over the sources of one output, and the one over the outputs.
  bound_sources : List Text → List Text → List Text
  bound_sources unbound_names [] = []
  bound_sources unbound_names (src ∷ srcs) =
      let rest = bound_sources unbound_names srcs in
      if source_is_unbound src unbound_names then rest else src ∷ rest

  -- `buildOutputSourceKeys`
  build_output_source_keys : List OutputColumn → List Text → List Text
  unfolding bound_sources
  build_output_source_keys [] unbound_names = []
  build_output_source_keys (out ∷ outs) unbound_names =
      bound_sources unbound_names out.sources ++ build_output_source_keys outs unbound_names

  -- The loop of the strict mode over the columns.
  unfoldable pub column_requirements :
      List Text → List Requirement → List ColumnReference → List Requirement
  column_requirements unbound_names reqs [] = reqs
  column_requirements unbound_names reqs (col ∷ cols) =
      column_requirements unbound_names (after_column unbound_names reqs col) cols

  -- The loops of the projection-only mode over the sources of the outputs, with the keys of `seen`.
  pub source_requirements : List Text → List Text → List Requirement → List Text → List Requirement
  source_requirements unbound_names seen reqs [] = reqs
  source_requirements unbound_names seen reqs (src ∷ srcs) =
      let skipped = source_requirements unbound_names seen reqs srcs in
      let kept =
        source_requirements unbound_names (src ∷ seen) (reqs ++ column_requirement src ∷ []) srcs in
      if source_is_unbound src unbound_names
      then skipped
      else if contains src seen
      then skipped
      else kept

-- `hasNonOutput`
has_non_output : List Text → List ColumnReference → Bool
has_non_output output_keys [] = false
has_non_output output_keys (col ∷ cols) =
    not col.unbound && not (contains (column_key col) output_keys)
    || has_non_output output_keys cols

abbrev pub all_sources : List OutputColumn → List Text
all_sources outs = concat (map (λ out. out.sources) outs)

module _ (to_lower : Text → Text) where
  -- `buildRequirements`; the reason codes that it returns are always nil.
  unfoldable pub build_requirements :
      Mode
      → List RelationReference
      → List ColumnReference
      → List OutputColumn
      → List Unresolved
      → ValidationError ⊎ Requirements
  unfolding relation_requirements column_requirements append_unresolved_requirements
      build_unbound_names source_requirements has_non_output build_output_source_keys
  build_requirements (other_mode m) relations columns outputs unresolved =
      inl (invalid_mode (other_mode m))
  build_requirements strict_mode relations columns outputs unresolved =
      let unbound_names = build_unbound_names to_lower relations in
      let reqs =
        column_requirements to_lower unbound_names (relation_requirements [] relations) columns in
      inr (sort_requirements (append_unresolved_requirements reqs unresolved), [])
  build_requirements projection_only relations columns outputs unresolved =
      let unbound_names = build_unbound_names to_lower relations in
      let output_keys = build_output_source_keys to_lower outputs unbound_names in
      let reqs =
        source_requirements to_lower unbound_names [] (relation_requirements [] relations)
          (all_sources outputs) in
      let warnings =
        if has_non_output output_keys columns then warning_inference_risk ∷ [] else [] in
      inr (sort_requirements (append_unresolved_requirements reqs unresolved), warnings)
