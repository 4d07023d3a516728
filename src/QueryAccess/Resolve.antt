-- ===== src/QueryAccess/Resolve.antt =====
-- internal/application/queryaccess/resolve.go: the result enriched by metadata. The schema resolver
-- is a parameter that answers a relation or nothing, always the same for the same relation. What
-- the resolution changes as it goes is passed along: the cache of the answers, and how often the
-- context has been asked for its error. The maps by name are association lists in the order of first
-- insertion.
pub mod Columns
pub mod Lineage
pub mod Cached
pub mod Missing
mod Tests
use delta_scope.Prelude.{
  ◌+◌, ℕ, suc, Bool, true, false, not, ◌&&◌, ◌||◌, List, [], ◌∷◌, ◌++◌, Text, text_beq, codes,
  comparable_text, ◌==◌, Option, none, some, nat_beq, ltb, length, map, any, contains, concat,
  reverse, has_prefix, drop, if◌then◌else◌,
}
use delta_scope.QueryAccess.{
  UsageContext, ReasonCode, reason_schema_unavailable, relation_cte, relation_derived,
  relation_view, RelationReference, ColumnReference, OutputColumn, Unresolved, AccessResult,
}
use delta_scope.QueryAccess.Normalize.{format_relation_key, format_column_key, sort_unresolved}
use delta_scope.QueryAccess.Requirements.{cut_dot}
use delta_scope.QueryAccess.Effect.Eligibility.{Folding, is_empty}

abbrev pub reason_missing_metadata : ReasonCode
reason_missing_metadata = codes "missing_metadata"

abbrev pub reason_relation_not_found : ReasonCode
reason_relation_not_found = codes "relation_not_found"

abbrev pub reason_column_not_found : ReasonCode
reason_column_not_found = codes "column_not_found"

abbrev pub reason_ambiguous_column : ReasonCode
reason_ambiguous_column = codes "ambiguous_column"

abbrev pub reason_unresolved_wildcard : ReasonCode
reason_unresolved_wildcard = codes "unresolved_wildcard"

-- `RelationSchema` of contracts.go, as the resolution reads it: the columns are their names.
pub record RelationSchema : Type 0 where
  pub schema : Text
  pub name : Text
  pub columns : List Text
  pub is_view : Bool

-- `SchemaResolver`, at one dialect: `none` is its error.
abbrev pub Resolver : Type 0
Resolver = Text → Text → Option RelationSchema

-- `resolvedRef`
pub record ResolvedRef : Type 0 where
  pub schema : Text
  pub name : Text

-- `resolutionState`, without the cache: `cancelled_at n` says whether the context has an error when
-- it is asked for the n-th time.
pub record ResolutionState : Type 0 where
  pub resolver : Resolver
  pub cancelled_at : ℕ → Bool
  pub default_schema : Text
  pub alias_map : List (Text × ResolvedRef)
  pub name_map : List (Text × List ResolvedRef)
  pub relation_order : List ResolvedRef
  pub unbound : List Text

-- What changes in the course of the resolution: `schemaCache`, and the number of calls of `ctx.Err`.
pub record Session : Type 0 where
  pub cache : List (Text × RelationSchema)
  pub polls : ℕ

abbrev pub no_session : Session
no_session = record { cache = []; polls = 0 }

abbrev pub polled : Session → Session
polled m = record m { polls = m.polls + 1 }

abbrev pub cached_at : Text → List (Text × RelationSchema) → Option RelationSchema
cached_at k [] = none
cached_at k ((j, rs) ∷ cache) = if j == k then some rs else cached_at k cache

-- A loop over a list that passes the session along.
abbrev pub traverse :
    {A B : Type 0} → (Session → A → B × Session) → Session → List A → List B × Session
traverse f m [] = ([], m)
traverse f m (x ∷ xs) = let (y, n) = f m x in let (ys, k) = traverse f n xs in (y ∷ ys, k)

-- `m[k] = append(m[k], v)`
abbrev append_at :
    Text → ResolvedRef → List (Text × List ResolvedRef) → List (Text × List ResolvedRef)
append_at k v [] = (k, v ∷ []) ∷ []
append_at k v ((j, vs) ∷ m) = if j == k then (j, vs ++ v ∷ []) ∷ m else (j, vs) ∷ append_at k v m

abbrev refs_at : Text → List (Text × List ResolvedRef) → List ResolvedRef
refs_at k [] = []
refs_at k ((j, vs) ∷ m) = if j == k then vs else refs_at k m

-- The alias map has its last entry first.
abbrev alias_at : Text → List (Text × ResolvedRef) → Option ResolvedRef
alias_at k [] = none
alias_at k ((j, v) ∷ m) = if j == k then some v else alias_at k m

abbrev pub is_local : RelationReference → Bool
is_local rel = rel.kind == relation_cte || rel.kind == relation_derived

abbrev pub default_to : Text → Text → Text
default_to fallback schema = if text_beq schema [] then fallback else schema

abbrev pub all_refs_of : List (Text × List ResolvedRef) → List ResolvedRef
all_refs_of [] = []
all_refs_of ((k, refs) ∷ m) = refs ++ all_refs_of m

-- `formatCacheKey`
abbrev pub cache_key : Text → Text → Text
cache_key schema name = if text_beq schema [] then name else schema ++ b'.' ∷ name

-- `TrimSuffix(ref, ".*")`, where it trims.
abbrev pub without_star : Text → Option Text
without_star ref =
    if has_prefix (reverse ref) (codes "*.") then some (reverse (drop 2 (reverse ref))) else none

-- `resolveSchema`
unfoldable pub resolve_schema :
    ResolutionState → Session → Text → Text → Option RelationSchema × Session
resolve_schema s m schema name =
    let resolved = default_to s.default_schema schema in
    let key = cache_key resolved name in
    let n = polled m in
    if s.cancelled_at m.polls then (none, n) else elim (cached_at key m.cache) [
      | some rs ↦ (some rs, n)
      | none ↦ elim (s.resolver resolved name) [
        | none ↦ (none, n)
        | some rs ↦ (some rs, record n { cache = (key, rs) ∷ n.cache })
      ]
    ]

abbrev no_ref : ResolvedRef
no_ref = record { schema = []; name = [] }

abbrev or_no_ref : Option ResolvedRef → ResolvedRef
or_no_ref none = no_ref
or_no_ref (some ref) = ref

abbrev pub unresolved : Text → ReasonCode → Unresolved
unresolved reference reason = record { reference = reference; reason = reason }

-- The columns of a relation, as references with the usages of the wildcard.
abbrev pub column_refs : List UsageContext → RelationSchema → List ColumnReference
column_refs usages rs =
    map
      (λ c. record {
        schema = rs.schema;
        table = rs.name;
        column = c;
        usages = usages;
        unbound = false;
      })
      rs.columns

module _ (folding : Folding) where
  open folding use {to_lower, equal_fold}

  -- One turn of the loop of `newResolutionState`.
  unfoldable pub register_relation : ResolutionState → RelationReference → ResolutionState
  register_relation s rel =
      let ref : ResolvedRef = record { schema = rel.schema; name = rel.name } in
      if rel.unbound
      then record s {
        unbound =
            to_lower rel.name
            ∷ (if text_beq rel.alias [] then s.unbound else to_lower rel.alias ∷ s.unbound);
      }
      else record s {
        alias_map =
            if text_beq rel.alias [] then s.alias_map else (to_lower rel.alias, ref) ∷ s.alias_map;
        name_map = append_at (to_lower rel.name) ref s.name_map;
        relation_order = if is_local rel then s.relation_order else s.relation_order ++ ref ∷ [];
      }

  unfoldable pub register_relations : ResolutionState → List RelationReference → ResolutionState
  register_relations s [] = s
  register_relations s (rel ∷ rels) = register_relations (register_relation s rel) rels

  -- `newResolutionState`
  unfoldable pub new_state : Resolver → (ℕ → Bool) → Text → List RelationReference → ResolutionState
  unfolding register_relation register_relations
  new_state resolver cancelled_at default_schema relations =
      register_relations
        (record {
          resolver = resolver;
          cancelled_at = cancelled_at;
          default_schema = default_schema;
          alias_map = [];
          name_map = [];
          relation_order = [];
          unbound = [];
        })
        relations

  abbrev matching_ref : Text → List ResolvedRef → Option ResolvedRef
  matching_ref schema [] = none
  matching_ref schema (ref ∷ refs) =
      if equal_fold ref.schema schema then some ref else matching_ref schema refs

  -- `resolveRelationRef`
  unfoldable pub resolve_relation_ref : ResolutionState → Text → ResolvedRef
  resolve_relation_ref s table = elim (alias_at (to_lower table) s.alias_map) [
    | some ref ↦ ref
    | none ↦ elim (refs_at (to_lower table) s.name_map) [
      | [] ↦ record { schema = []; name = table }
      | ref ∷ refs ↦
          if is_empty refs
          then ref
          else if text_beq s.default_schema []
          then no_ref
          else or_no_ref (matching_ref s.default_schema (ref ∷ refs))
    ]
  ]

  -- `isUnbound`
  unfoldable pub is_unbound : ResolutionState → Text → Bool
  is_unbound s table = if text_beq table [] then false else contains (to_lower table) s.unbound
