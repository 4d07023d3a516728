-- ===== src/QueryAccess/Effect/Samples.antt =====
-- A call of a function of PostgreSQL, with the facts that a catalog has of it.
use delta_scope.Prelude.{ℤ, pos, true, false, [], ◌∷◌, codes, some}
use delta_scope.QueryAccess.{status_resolved}
use delta_scope.QueryAccess.Effect.{
  function_kind, EffectCandidate, ResolutionContext, IdentityFacts, IdentityItem,
}

-- `lower(name)`, on a column of type text.
abbrev pub lower_call : ℤ → EffectCandidate
lower_call ordinal = record {
  kind = function_kind;
  ordinal = ordinal;
  name_path = codes "lower" ∷ [];
  original_name_path = codes "lower" ∷ [];
  explicit_schema = false;
  is_quoted = false;
  canonical = true;
  ambiguous = false;
  parser_classification = codes "generic";
  unqualified_relation = false;
  arity = pos 1;
  operand_kinds = codes "column" ∷ [];
  is_aggregate = false;
  has_window = false;
  has_filter = false;
  has_distinct = false;
  has_agg_order = false;
  has_within_group = false;
  has_frame = false;
  has_named_window = false;
  has_window_partition = false;
  has_window_order = false;
  window_partition_kinds = [];
  window_order_kinds = [];
  window_frame_kinds = [];
  window_partition_column_refs = [];
  window_order_column_refs = [];
  target_type_path = [];
  operand_column_refs =
      record { schema = codes "app"; table = codes "orders"; column = codes "name" } ∷ [];
}

abbrev pub session : ResolutionContext
session = record {
  bound = true;
  session_binding = codes "s1";
  path_epoch = 1;
  namespace_search_oids = 11 ∷ [];
  database_oid = 5;
  role_oid = 10;
  server_version_num = 170002;
}

abbrev pub lower_facts : IdentityFacts
lower_facts = record {
  kind = function_kind;
  aggregate_class = [];
  object_oid = 870;
  namespace_oid = 11;
  operand_type_oids = 25 ∷ [];
  result_type_oid = 25;
  implementation_oid = 0;
  volatility = codes "i";
  cast_method = [];
  cast_function_oid = 0;
  canonical_signature = codes "pg_catalog.lower(25)";
  resolved_schema_name = codes "pg_catalog";
  resolved_object_name = codes "lower";
  database_oid = 5;
  server_version_num = 170002;
}

abbrev pub lower_item : IdentityItem
lower_item = record { ordinal = pos 0; status = status_resolved; facts = some lower_facts }
