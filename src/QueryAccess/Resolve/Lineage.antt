-- ===== src/QueryAccess/Resolve/Lineage.antt =====
-- resolve.go: the sources of the outputs and the wildcards that the extraction left, and the whole
-- resolution.
use delta_scope.Prelude.{
  ℕ, Bool, false, not, ◌&&◌, ◌||◌, List, [], ◌∷◌, ◌++◌, Text, text_beq, codes, comparable_text,
  ◌==◌, Option, none, some, map, contains, concat, if◌then◌else◌,
}
use delta_scope.QueryAccess.{
  reason_schema_unavailable, RelationReference, ColumnReference, OutputColumn, Unresolved,
  AccessResult,
}
use delta_scope.QueryAccess.Normalize.{format_column_key, sort_unresolved}
use delta_scope.QueryAccess.Requirements.{cut_dot}
use delta_scope.QueryAccess.Effect.Eligibility.{Folding, is_empty}
use delta_scope.QueryAccess.Resolve.{
  reason_unresolved_wildcard, RelationSchema, Resolver, ResolvedRef, ResolutionState, Session,
  no_session, traverse, default_to, cache_key, without_star, resolve_schema, unresolved,
  column_refs, new_state, resolve_relation_ref, is_unbound,
}
use delta_scope.QueryAccess.Resolve.Columns.{resolve_relation, Resolved, resolve_column}

abbrev Expansion : Type 0
Expansion = List ColumnReference × List Text

abbrev expansion_of : RelationSchema → Expansion
expansion_of rs = (
  column_refs (codes "projection" ∷ []) rs,
  map (λ c. format_column_key rs.schema rs.name c) rs.columns,
)

abbrev extend : RelationSchema → Option Expansion → Option Expansion
extend rs none = some (expansion_of rs)
extend rs (some (cols, srcs)) = some ((expansion_of rs).0 ++ cols, (expansion_of rs).1 ++ srcs)

-- The loop of `expandGlobalWildcard`, with the keys of `seen`.
global_wildcard :
    ResolutionState → Session → List Text → List ResolvedRef → Option Expansion × Session
unfolding resolve_schema
global_wildcard s m seen [] = (none, m)
global_wildcard s m seen (ref ∷ refs) =
    let schema = default_to s.default_schema ref.schema in
    let key = cache_key schema ref.name in
    let skipped = global_wildcard s m seen refs in
    let (found, n) = resolve_schema s m schema ref.name in
    let (rest, k) = global_wildcard s n (key ∷ seen) refs in
    if contains key seen
    then skipped
    else elim found [ none ↦ (rest, k) | some rs ↦ (extend rs rest, k) ]

-- The wildcards expanded, with their columns and their sources, and those that are not.
pub record Wildcards : Type 0 where
  pub columns : List ColumnReference
  pub lineage : List (Text × List Text)
  pub failed : List Unresolved

-- The sources of an output by its name: those of the last wildcard of that name.
abbrev lineage_of : Text → List (Text × List Text) → Option (List Text)
lineage_of name [] = none
lineage_of name ((ref, srcs) ∷ rest) = elim (lineage_of name rest) [
  | some later ↦ some later
  | none ↦ if ref == name then some srcs else none
]

abbrev with_lineage : List (Text × List Text) → OutputColumn → OutputColumn
with_lineage lineage o = elim (lineage_of o.name lineage) [
  | none ↦ o
  | some srcs ↦ if is_empty o.sources then record o { sources = srcs } else o
]

-- `filterResolvedUnresolved`, with `isWildcardReason`.
unfoldable pub filter_resolved : List Text → List Unresolved → List Unresolved
filter_resolved expanded [] = []
filter_resolved expanded (u ∷ us) =
    let rest = filter_resolved expanded us in
    if (u.reason == reason_unresolved_wildcard || u.reason == reason_schema_unavailable)
      && contains u.reference expanded
    then rest
    else u ∷ rest

module _ (folding : Folding) where
  -- `resolveSourceKeys`, of one source: `none` where it is left out.
  unfoldable pub resolve_source_key : ResolutionState → Session → Text → Option Text × Session
  unfolding cut_dot resolve_relation_ref is_unbound resolve_schema
  resolve_source_key s m src = elim (cut_dot src) [
    | none ↦ (some src, m)
    | some (first, behind) ↦ elim (cut_dot behind) [
      | none ↦
          let ref = resolve_relation_ref folding s first in
          let (found, n) = resolve_schema s m ref.schema ref.name in
          if is_unbound folding s first then (none, m) else elim found [
            | none ↦ (some (format_column_key s.default_schema first behind), n)
            | some rs ↦ (some (format_column_key rs.schema rs.name behind), n)
          ]
      | some (second, column) ↦
          let ref = resolve_relation_ref folding s second in
          let (found, n) = resolve_schema s m ref.schema ref.name in
          if text_beq first [] && is_unbound folding s second then (none, m) else elim found [
            | none ↦ (some (format_column_key (default_to s.default_schema first) second column), n)
            | some rs ↦ (some (format_column_key rs.schema rs.name column), n)
          ]
    ]
  ]

  abbrev resolve_source_keys : ResolutionState → Session → List Text → List Text × Session
  resolve_source_keys s m [] = ([], m)
  resolve_source_keys s m (src ∷ srcs) =
      let (found, n) = resolve_source_key s m src in
      let (rest, k) = resolve_source_keys s n srcs in
      elim found [ none ↦ (rest, k) | some key ↦ (key ∷ rest, k) ]

  abbrev resolve_output : ResolutionState → Session → OutputColumn → OutputColumn × Session
  resolve_output s m o =
      let (sources, n) = resolve_source_keys s m o.sources in (record o { sources = sources }, n)

  -- `resolveOutputs`
  unfoldable pub resolve_outputs :
      ResolutionState → Session → List OutputColumn → List OutputColumn × Session
  unfolding resolve_source_key
  resolve_outputs s m outs = traverse (resolve_output s) m outs

  -- `isUnboundWildcardRef`
  is_unbound_wildcard_ref : ResolutionState → Text → Bool
  unfolding cut_dot is_unbound
  is_unbound_wildcard_ref s ref = if ref == codes "*" then false else elim (cut_dot ref) [
    | none ↦ is_unbound folding s ref
    | some (first, behind) ↦
        if behind == codes "*" && not (text_beq first []) then false else is_unbound folding s first
  ]

  -- `expandTableWildcard`
  expand_table_wildcard : ResolutionState → Session → Text → Option Expansion × Session
  unfolding resolve_relation_ref is_unbound resolve_schema
  expand_table_wildcard s m ref = elim (without_star ref) [
    | none ↦ (none, m)
    | some table ↦
        let found = resolve_relation_ref folding s table in
        let (schema, n) =
          resolve_schema s m (default_to s.default_schema found.schema) found.name in
        if text_beq found.schema [] && is_unbound folding s table
        then (none, m)
        else elim schema [ none ↦ (none, n) | some rs ↦ (some (expansion_of rs), n) ]
  ]

  -- `expandWildcardRef`
  unfoldable pub expand_wildcard_ref : ResolutionState → Session → Text → Option Expansion × Session
  unfolding global_wildcard expand_table_wildcard
  expand_wildcard_ref s m ref =
      if ref == codes "*"
      then global_wildcard s m [] s.relation_order
      else expand_table_wildcard s m ref

  -- The loops of `expandUnresolvedWildcards`.
  unfoldable pub expand_wildcards : ResolutionState → Session → List Unresolved → Wildcards
  unfolding is_unbound_wildcard_ref expand_wildcard_ref
  expand_wildcards s m [] = record { columns = []; lineage = []; failed = [] }
  expand_wildcards s m (u ∷ us) =
      let skipped = expand_wildcards s m us in
      let (found, n) = expand_wildcard_ref s m u.reference in
      let rest = expand_wildcards s n us in
      if not (u.reason == reason_schema_unavailable) || is_unbound_wildcard_ref s u.reference
      then skipped
      else elim found [
        | none ↦ record rest {
          failed = unresolved u.reference reason_unresolved_wildcard ∷ rest.failed;
        }
        | some (cols, srcs) ↦ record rest {
          columns = cols ++ rest.columns;
          lineage = (u.reference, srcs) ∷ rest.lineage;
        }
      ]

  -- `resolveMetadata`, with a resolver.
  unfoldable pub resolve_metadata : Resolver → (ℕ → Bool) → Text → AccessResult → AccessResult
  unfolding new_state resolve_relation resolve_column resolve_outputs expand_wildcards
      filter_resolved
  resolve_metadata resolver cancelled_at default_schema result =
      let s = new_state folding resolver cancelled_at default_schema result.relations in
      let (relations, m) = traverse (resolve_relation s) no_session result.relations in
      let (columns, n) = traverse (resolve_column folding s) m result.referenced_columns in
      let (outputs, k) = resolve_outputs s n result.outputs in
      let wildcards = expand_wildcards s k result.unresolved in
      let expanded =
        concat (map (λ (c : Resolved). c.expanded) columns)
        ++ map (λ (p : Text × List Text). p.0) wildcards.lineage in
      record result {
        relations = map (λ (p : RelationReference × List Unresolved). p.0) relations;
        referenced_columns =
            concat (map (λ (c : Resolved). c.columns) columns) ++ wildcards.columns;
        outputs = map (with_lineage wildcards.lineage) outputs;
        unresolved = sort_unresolved (
            filter_resolved expanded result.unresolved
            ++ (concat (map (λ (p : RelationReference × List Unresolved). p.1) relations)
                ++ (concat (map (λ (c : Resolved). c.unresolved) columns) ++ wildcards.failed)));
      }
