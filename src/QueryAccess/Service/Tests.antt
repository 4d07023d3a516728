-- ===== src/QueryAccess/Service/Tests.antt =====
-- Runs of Service.Analyze on a small MySQL query, and the theorems at them.
use delta_scope.Prelude.{
  ◌≢◌, inl, arith, ◌≡◌, refl, true, false, [], ◌∷◌, text_beq, codes, none, some, ◌⊎◌, inr,
  has_prefix, sort_by, text_lt,
}
use delta_scope.QueryAccess.{
  strict_mode, read_only, indeterminate, admissible, indeterminate_admission, relation_table,
  RelationReference, ColumnReference, AccessResult,
}
use delta_scope.QueryAccess.Effect.Eligibility.{Folding}
use delta_scope.QueryAccess.Profile.{
  empty_profile, mysql80, dialect_mismatch, validate_analysis_profile,
}
use delta_scope.QueryAccess.Resolve.{
  resolve_schema, new_state, register_relations, register_relation, resolve_relation_ref,
  is_unbound,
}
use delta_scope.QueryAccess.Proof.{SchemaResolver, Service}
use delta_scope.QueryAccess.Proof.Orchestrate.{
  Extracted, orchestrate, prove_mysql, prove_postgresql,
}
use delta_scope.QueryAccess.State.{
  has_view, has_function_call_reason_code, unqualified_barrier, view_barrier, block,
  has_unqualified_relation, mark_unqualified, conclude, final_state, normalize_final_state,
  settle_state, ensure_indeterminate_reason, reclassify_after_resolution, has_wildcard_unresolved,
  recompute_admission,
}
use delta_scope.QueryAccess.State.Contract.{IsContract}
use delta_scope.QueryAccess.Normalize.{
  validate_result, validate_admission, validate_mode, normalize_reason_codes, sort_reason_codes,
  deduplicate_reason_codes, deduplicate_from, sort_relations, sort_columns, sort_requirements,
  sort_unresolved, sort_warning_codes, format_relation_key, format_column_key,
}
use delta_scope.QueryAccess.Requirements.{
  build_requirements, build_unbound_names, column_requirements, relation_requirements,
  append_unresolved_requirements, source_is_unbound, cut_dot,
}
use delta_scope.QueryAccess.Resolve.Columns.{
  resolve_relation, resolve_column, resolve_qualified_column,
}
use delta_scope.QueryAccess.Resolve.Lineage.{
  resolve_metadata, resolve_outputs, resolve_source_key, expand_wildcards, filter_resolved,
}
use delta_scope.QueryAccess.Service.{
  Request, Context, AnalyzeError, profile_refused, Extractor, is_unqualified, analyze,
  normalize_sql_input, extract_by_dialect, analyze_extracted, resolver_of, blocked,
  prove_and_conclude,
}
use delta_scope.QueryAccess.Service.Outcome.{analyze-IsContract, analyze-admissible}
use delta_scope.QueryAccess.Service.Refusal.{Cause, analyze_refused}
use delta_scope.QueryAccess.Service.Unqualified.{analyze-unqualified}

-- Texts without capital letters.
abbrev folding : Folding
folding = record { to_lower = λ t. t; equal_fold = text_beq }

abbrev orders : RelationReference
orders = record {
  schema = codes "app";
  name = codes "orders";
  alias = [];
  kind = relation_table;
  permission_required = true;
  unbound = false;
}

abbrev amount : ColumnReference
amount = record {
  schema = codes "app";
  table = codes "orders";
  column = codes "amount";
  usages = codes "projection" ∷ [];
  unbound = false;
}

abbrev query : AccessResult
query = record {
  dialect = codes "mysql";
  mode = strict_mode;
  read_classification = indeterminate;
  admission = indeterminate_admission;
  reason_codes = [];
  relations = orders ∷ [];
  referenced_columns = amount ∷ [];
  outputs = record { name = codes "amount"; sources = codes "app.orders.amount" ∷ [] } ∷ [];
  requirements = [];
  unresolved = [];
  warnings = [];
}

abbrev extracted : Extracted
extracted = record { result = query; effect_candidates = []; exact_count_statement = false }

abbrev extractor : Extractor
extractor = λ req. some extracted

abbrev resolver : SchemaResolver
resolver = λ dialect schema name. some (record {
  schema = codes "app";
  name = codes "orders";
  columns = codes "amount" ∷ [];
  is_view = false;
})

abbrev service : Service
service = record { trusted = none; builtin_semantic = none }

abbrev live : Context
live = record { at_start = false; at_resolution = λ n. false }

abbrev request : Request
request = record {
  sql = codes "select amount from app.orders";
  dialect = codes "mysql";
  mode = codes "strict";
  default_schema = codes "app";
  analysis_profile = mysql80;
  schema_resolver = some resolver;
}

abbrev analysis : AnalyzeError ⊎ Extracted
analysis = analyze folding extractor extractor service live request

abbrev expected : Extracted
expected = record extracted {
  result = record query {
    read_classification = read_only;
    admission = admissible;
    requirements =
        record { object = codes "app.orders"; privilege = codes "read_table" }
        ∷ record { object = codes "app.orders.amount"; privilege = codes "read_column" }
        ∷ [];
  };
}

runs : analysis ≡ inr expected
unfolding analyze normalize_sql_input extract_by_dialect analyze_extracted resolver_of blocked
    prove_and_conclude validate_analysis_profile has_function_call_reason_code unqualified_barrier
    view_barrier block has_view has_unqualified_relation conclude final_state normalize_final_state
    settle_state ensure_indeterminate_reason reclassify_after_resolution has_wildcard_unresolved
    recompute_admission validate_result validate_admission validate_mode normalize_reason_codes
    sort_reason_codes deduplicate_reason_codes deduplicate_from sort_relations sort_columns
    sort_requirements sort_unresolved sort_warning_codes format_relation_key format_column_key
    build_requirements build_unbound_names column_requirements relation_requirements
    append_unresolved_requirements source_is_unbound cut_dot orchestrate prove_mysql resolve_schema
    new_state register_relations register_relation resolve_relation_ref is_unbound resolve_relation
    resolve_column resolve_qualified_column resolve_metadata resolve_outputs resolve_source_key
    expand_wildcards filter_resolved text_beq has_prefix sort_by text_lt
runs = refl

analyze-admissible_example :
    (expected.result.read_classification ≡ read_only)
    × (expected.result.unresolved ≡ [])
    × (has_view expected.result.relations ≡ false)
    × (is_unqualified request expected.result ≡ false)
analyze-admissible_example =
    analyze-admissible folding extractor extractor service live request expected runs refl

analyze-IsContract_example :
    (x' : Extracted) × (analyze folding extractor extractor service live request ≡ inr x')
    × IsContract x'.result
unfolding text_beq normalize_sql_input has_prefix validate_analysis_profile extract_by_dialect
    validate_mode
analyze-IsContract_example =
    analyze-IsContract folding extractor extractor service live request extracted refl refl refl
      refl refl

abbrev mismatched : Request
mismatched = record request { dialect = codes "tidb" }

analyze_refused_example :
    Cause extractor extractor live mismatched (profile_refused dialect_mismatch)
unfolding analyze text_beq has_prefix validate_analysis_profile
analyze_refused_example =
    analyze_refused folding extractor extractor service live mismatched
      (profile_refused dialect_mismatch) refl

-- The same query on PostgreSQL, of a relation without a schema.
abbrev bare_orders : RelationReference
bare_orders = record orders { schema = [] }

abbrev bare : Extracted
bare = record extracted { result = record query { relations = orders ∷ bare_orders ∷ [] } }

abbrev bare_request : Request
bare_request = record request { dialect = codes "postgresql"; analysis_profile = empty_profile }

abbrev result_of : AnalyzeError ⊎ Extracted → Extracted
result_of (inl e) = bare
result_of (inr x) = x

abbrev bare_result : AnalyzeError ⊎ Extracted
bare_result = analyze folding extractor (λ req. some bare) service live bare_request

bare_runs : bare_result ≡ inr (result_of bare_result)
unfolding analyze normalize_sql_input extract_by_dialect analyze_extracted resolver_of blocked
    prove_and_conclude validate_analysis_profile has_function_call_reason_code unqualified_barrier
    view_barrier block has_view has_unqualified_relation conclude final_state normalize_final_state
    settle_state ensure_indeterminate_reason reclassify_after_resolution has_wildcard_unresolved
    recompute_admission validate_result validate_admission validate_mode normalize_reason_codes
    sort_reason_codes deduplicate_reason_codes deduplicate_from sort_relations sort_columns
    sort_requirements sort_unresolved sort_warning_codes format_relation_key format_column_key
    build_requirements build_unbound_names column_requirements relation_requirements
    append_unresolved_requirements source_is_unbound cut_dot orchestrate prove_postgresql
    mark_unqualified resolve_schema new_state register_relations register_relation
    resolve_relation_ref is_unbound resolve_relation resolve_column resolve_qualified_column
    resolve_metadata resolve_outputs resolve_source_key expand_wildcards filter_resolved text_beq
    has_prefix sort_by text_lt
bare_runs = refl

analyze-unqualified_example : (result_of bare_result).result.admission ≢ admissible
unfolding normalize_sql_input extract_by_dialect text_beq has_prefix
analyze-unqualified_example =
    analyze-unqualified folding extractor (λ req. some bare) service live bare_request bare
      (result_of bare_result) (orders ∷ []) [] bare_orders refl refl refl
      (record { bare = refl; no_cte = λ e. ground arith; no_derived = λ e. ground arith }) bare_runs
