-- ===== src/QueryAccess/Resolve/Tests.antt =====
-- A query on a table that the metadata do not know, and the theorem at it.
use delta_scope.Prelude.{
  ℕ, Bool, nat_beq, refl, some, sort_by, if◌then◌else◌, ◌≡◌, true, false, [], ◌∷◌, All, text_beq,
  codes, none,
}
use delta_scope.QueryAccess.{
  strict_mode, indeterminate, indeterminate_admission, relation_table, RelationReference,
  AccessResult,
}
use delta_scope.QueryAccess.Normalize.{sort_unresolved}
use delta_scope.QueryAccess.Effect.Eligibility.{Folding}
use delta_scope.QueryAccess.Resolve.{
  Resolver, resolve_schema, new_state, register_relations, register_relation,
}
use delta_scope.QueryAccess.Resolve.Columns.{resolve_relation}
use delta_scope.QueryAccess.Resolve.Lineage.{
  resolve_metadata, resolve_outputs, expand_wildcards, filter_resolved,
}
use delta_scope.QueryAccess.Resolve.Missing.{is_bound_base, IsReported, resolve_metadata-IsMissing}

abbrev folding : Folding
folding = record { to_lower = λ t. t; equal_fold = text_beq }

abbrev nothing_known : Resolver
nothing_known = λ schema name. none

abbrev orders : RelationReference
orders = record {
  schema = codes "app";
  name = codes "orders";
  alias = codes "o";
  kind = relation_table;
  permission_required = true;
  unbound = false;
}

abbrev query : AccessResult
query = record {
  dialect = codes "mysql";
  mode = strict_mode;
  read_classification = indeterminate;
  admission = indeterminate_admission;
  reason_codes = [];
  relations = orders ∷ [];
  referenced_columns = [];
  outputs = [];
  requirements = [];
  unresolved = [];
  warnings = [];
}

-- The analysis is cancelled when the context is asked for the second time.
abbrev second : ℕ → Bool
second n = nat_beq n 1

resolve_metadata-IsMissing_example :
    All
      (λ rel.
        is_bound_base rel ≡ true
        → IsReported nothing_known second
            (codes "app")
            (resolve_metadata folding nothing_known second (codes "app") query).unresolved
            rel)
      (orders ∷ [])
resolve_metadata-IsMissing_example =
    resolve_metadata-IsMissing folding nothing_known second (codes "app") query

-- A relation of another schema whose cache key is that of `app.b.c`: it has the answer of the other.
abbrev dotted : RelationReference
dotted = record orders { schema = codes "app.b"; name = codes "c"; alias = [] }

abbrev other_dotted : RelationReference
other_dotted = record orders { schema = codes "app"; name = codes "b.c"; alias = [] }

abbrev only_dotted : Resolver
only_dotted schema name =
    if text_beq schema (codes "app.b")
    then some (record { schema = schema; name = name; columns = []; is_view = false })
    else none

shared_key :
    (resolve_metadata folding only_dotted
      (λ n. false)
      (codes "app")
      (record query { relations = dotted ∷ other_dotted ∷ [] })).unresolved
    ≡ []
unfolding resolve_metadata new_state register_relations register_relation resolve_relation
    resolve_schema resolve_outputs expand_wildcards filter_resolved sort_unresolved sort_by text_beq
shared_key = refl
