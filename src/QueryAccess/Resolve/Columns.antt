-- ===== src/QueryAccess/Resolve/Columns.antt =====
-- resolve.go: the relations and the columns against their metadata.
use delta_scope.Prelude.{
  Bool, true, false, not, ◌&&◌, ◌||◌, List, [], ◌∷◌, ◌++◌, Text, text_beq, codes, comparable_text,
  ◌==◌, none, some, any, if◌then◌else◌,
}
use delta_scope.QueryAccess.{relation_view, RelationReference, ColumnReference, Unresolved}
use delta_scope.QueryAccess.Normalize.{format_relation_key, format_column_key}
use delta_scope.QueryAccess.Effect.Eligibility.{Folding, is_empty}
use delta_scope.QueryAccess.Resolve.{
  reason_missing_metadata, reason_relation_not_found, reason_column_not_found,
  reason_ambiguous_column, reason_unresolved_wildcard, RelationSchema, ResolvedRef, ResolutionState,
  Session, polled, is_local, default_to, all_refs_of, resolve_schema, unresolved, column_refs,
  resolve_relation_ref, is_unbound,
}

abbrev enriched : RelationReference → RelationSchema → RelationReference
enriched rel rs = record rel {
  schema = default_to rs.schema rel.schema;
  kind = if rs.is_view then relation_view else rel.kind;
}

-- One turn of the loop of `resolveRelations`.
unfoldable pub resolve_relation :
    ResolutionState → Session → RelationReference → (RelationReference × List Unresolved) × Session
unfolding resolve_schema
resolve_relation s m rel =
    let (found, n) =
      resolve_schema s (polled m) (default_to s.default_schema rel.schema) rel.name in
    let key = format_relation_key rel.schema rel.name in
    if rel.unbound || is_local rel
    then ((rel, []), m)
    else if s.cancelled_at m.polls
    then ((rel, unresolved key reason_missing_metadata ∷ []), polled m)
    else elim found [
      | none ↦ ((rel, unresolved key reason_relation_not_found ∷ []), n)
      | some rs ↦ ((enriched rel rs, []), n)
    ]

-- What becomes of a column: the references, the wildcards expanded, and what is unresolved.
pub record Resolved : Type 0 where
  pub columns : List ColumnReference
  pub expanded : List Text
  pub unresolved : List Unresolved

abbrev kept : ColumnReference → List Unresolved → Resolved
kept col us = record { columns = col ∷ []; expanded = []; unresolved = us }

-- The loops of `expandGlobalStar`.
global_star :
    ResolutionState
    → Session
    → ColumnReference
    → List ResolvedRef
    → (List ColumnReference × List Unresolved) × Session
unfolding resolve_schema
global_star s m col [] = (([], []), m)
global_star s m col (ref ∷ refs) =
    let schema = default_to s.default_schema ref.schema in
    let (found, n) = resolve_schema s m schema ref.name in
    let (rest, k) = global_star s n col refs in
    let failed = format_relation_key schema ref.name ++ codes ".*" in
    elim found [
      | none ↦ ((rest.0, unresolved failed reason_unresolved_wildcard ∷ rest.1), k)
      | some rs ↦ ((column_refs col.usages rs ++ rest.0, rest.1), k)
    ]

-- `len(expanded) > 0 && (len(expanded) != 1 || expanded[0].Column != "*")`
abbrev was_expanded : List ColumnReference → Bool
was_expanded [] = false
was_expanded (c ∷ []) = not (c.column == codes "*")
was_expanded (c ∷ d ∷ cs) = true

abbrev star_outcome : List ColumnReference → Text → List Unresolved → Resolved
star_outcome cols ref us = record {
  columns = cols;
  expanded = if was_expanded cols then ref ∷ [] else [];
  unresolved = us;
}

-- `expandGlobalStar`
expand_global_star : ResolutionState → Session → ColumnReference → Resolved × Session
unfolding global_star
expand_global_star s m col =
    let (found, n) = global_star s m col (all_refs_of s.name_map) in
    let bare = record col { schema = []; unbound = false } in
    (star_outcome (if is_empty found.0 then bare ∷ [] else found.0) (codes "*") found.1, n)

module _ (folding : Folding) where
  open folding use {equal_fold}

  -- `expandTableStar`
  expand_table_star : ResolutionState → Session → ColumnReference → Resolved × Session
  unfolding resolve_relation_ref is_unbound resolve_schema
  expand_table_star s m col =
      let ref = resolve_relation_ref folding s col.table in
      let (found, n) = resolve_schema s m ref.schema ref.name in
      let original =
        if not (text_beq ref.schema []) && not (text_beq ref.schema col.table)
        then format_relation_key ref.schema ref.name ++ codes ".*"
        else format_relation_key col.table (codes "*") in
      if text_beq ref.schema [] && is_unbound folding s col.table
      then (star_outcome (col ∷ []) original [], m)
      else elim found [
        | none ↦ (
          star_outcome (col ∷ []) original (unresolved original reason_unresolved_wildcard ∷ []),
          n,
        )
        | some rs ↦ (star_outcome (column_refs col.usages rs) original [], n)
      ]

  -- `resolveQualifiedColumn`
  unfoldable pub resolve_qualified_column :
      ResolutionState → Session → ColumnReference → Resolved × Session
  unfolding resolve_relation_ref is_unbound resolve_schema
  resolve_qualified_column s m col =
      let ref = resolve_relation_ref folding s col.table in
      let (found, n) = resolve_schema s m ref.schema ref.name in
      if is_unbound folding s col.table
      then (kept col [], m)
      else if text_beq ref.schema []
      then (kept col [], m)
      else elim found [
        | none ↦ (
          kept col (
              unresolved (format_column_key ref.schema ref.name col.column) reason_column_not_found
              ∷ []),
          n,
        )
        | some rs ↦ (
          if not (any (λ c. equal_fold c col.column) rs.columns)
              then kept col (
                  unresolved (format_column_key rs.schema rs.name col.column)
                    reason_column_not_found
                  ∷ [])
              else kept (record col { schema = default_to rs.schema col.schema; table = rs.name })
                  [],
          n,
        )
      ]

  -- The loops of `resolveUnqualifiedColumn`: the relations that have the column.
  matching_schemas :
      ResolutionState → Session → Text → List ResolvedRef → List RelationSchema × Session
  unfolding resolve_schema
  matching_schemas s m column [] = ([], m)
  matching_schemas s m column (ref ∷ refs) =
      let skipped = matching_schemas s m column refs in
      let (found, n) = resolve_schema s m ref.schema ref.name in
      let (rest, k) = matching_schemas s n column refs in
      if text_beq ref.schema [] && text_beq ref.name [] then skipped else elim found [
        | none ↦ (rest, k)
        | some rs ↦ (if any (λ c. equal_fold c column) rs.columns then rs ∷ rest else rest, k)
      ]

  -- `resolveUnqualifiedColumn`
  resolve_unqualified_column : ResolutionState → Session → ColumnReference → Resolved × Session
  unfolding matching_schemas
  resolve_unqualified_column s m col =
      let (matching, n) = matching_schemas s m col.column (all_refs_of s.name_map) in
      elim matching [
        | [] ↦ (kept col (unresolved col.column reason_column_not_found ∷ []), n)
        | rs ∷ more ↦ (
          if is_empty more
              then kept (record col { schema = rs.schema; table = rs.name }) []
              else kept col (unresolved col.column reason_ambiguous_column ∷ []),
          n,
        )
      ]

  -- One turn of the loop of `resolveColumns`.
  unfoldable pub resolve_column : ResolutionState → Session → ColumnReference → Resolved × Session
  unfolding expand_global_star expand_table_star resolve_qualified_column resolve_unqualified_column
  resolve_column s m col =
      if col.unbound
      then (kept col [], m)
      else if col.column == codes "*"
      then if text_beq col.table [] then expand_global_star s m col else expand_table_star s m col
      else if not (text_beq col.table [])
      then resolve_qualified_column s m col
      else resolve_unqualified_column s m col
