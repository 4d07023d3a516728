-- ===== src/QueryAccess/Builtin/Tests.antt =====
-- `SELECT COUNT(*)` on a table of MySQL 8.0, and the theorem on its proof.
use delta_scope.Prelude.{
  pos, ◌≡◌, refl, true, false, [], ◌∷◌, All, text_beq, codes, none, some, ◌⊎◌, inr, has_prefix,
}
use delta_scope.QueryAccess.{
  strict_mode, indeterminate, indeterminate_admission, relation_table, AccessResult,
}
use delta_scope.QueryAccess.Effect.{function_kind, EffectCandidate}
use delta_scope.QueryAccess.Effect.Eligibility.{Folding}
use delta_scope.QueryAccess.Profile.{mysql80, validate_analysis_profile}
use delta_scope.QueryAccess.Builtin.{
  aggregate_class, BuiltinEntry, BuiltinRegistry, new_builtin_registry,
}
use delta_scope.QueryAccess.Builtin.Gateway.{
  physical_complete, literal_complete, ordinals_closed, prove_builtin,
}
use delta_scope.QueryAccess.Builtin.Native.{IsNative, prove_builtin-IsNative}

abbrev folding : Folding
folding = record { to_lower = λ t. t; equal_fold = text_beq }

abbrev count_entry : BuiltinEntry
count_entry = record {
  dialect = codes "mysql";
  profile = mysql80;
  name = codes "count";
  call_class = aggregate_class;
  arity = pos 0;
  operand_kinds = codes "star" ∷ [];
  min_arity = pos 0;
  max_arity = pos 0;
  allow_filter = false;
  allow_distinct = false;
  allow_agg_order = false;
  allow_within_group = false;
  allow_frame = false;
  allow_named_window = false;
  allow_window_partition = false;
  allow_window_order = false;
  require_window_partition = false;
  require_window_order = false;
}

abbrev registry : BuiltinRegistry
registry = (mysql80, count_entry ∷ []) ∷ []

abbrev count_call : EffectCandidate
count_call = record {
  kind = function_kind;
  ordinal = pos 0;
  name_path = codes "count" ∷ [];
  original_name_path = codes "count" ∷ [];
  explicit_schema = false;
  is_quoted = false;
  canonical = true;
  ambiguous = false;
  parser_classification = codes "aggregate";
  unqualified_relation = false;
  arity = pos 0;
  operand_kinds = codes "star" ∷ [];
  is_aggregate = true;
  has_window = false;
  has_filter = false;
  has_distinct = false;
  has_agg_order = false;
  has_within_group = false;
  has_frame = false;
  has_named_window = false;
  has_window_partition = false;
  has_window_order = false;
  window_partition_kinds = [];
  window_order_kinds = [];
  window_frame_kinds = [];
  window_partition_column_refs = [];
  window_order_column_refs = [];
  target_type_path = [];
  operand_column_refs = [];
}

abbrev query : AccessResult
query = record {
  dialect = codes "mysql";
  mode = strict_mode;
  read_classification = indeterminate;
  admission = indeterminate_admission;
  reason_codes = [];
  relations =
      record {
        schema = codes "app";
        name = codes "orders";
        alias = [];
        kind = relation_table;
        permission_required = true;
        unbound = false;
      }
      ∷ [];
  referenced_columns = [];
  outputs = record { name = codes "n"; sources = [] } ∷ [];
  requirements = record { object = codes "app.orders"; privilege = codes "read_table" } ∷ [];
  unresolved = [];
  warnings = [];
}

accepted :
    new_builtin_registry folding.to_lower ((mysql80, some (count_entry ∷ [])) ∷ []) ≡ inr registry
unfolding new_builtin_registry text_beq validate_analysis_profile delta_scope.Utf8.trim_space
accepted = refl

prove_builtin-IsNative_example :
    (validate_analysis_profile mysql80 (codes "mysql") ≡ none)
    × ((physical_complete query query.requirements (count_call ∷ []) ≡ true)
        ⊎ (literal_complete query query.requirements (count_call ∷ []) ≡ true))
    × (ordinals_closed (count_call ∷ []) ≡ true)
    × All (IsNative folding mysql80) (count_call ∷ [])
unfolding prove_builtin text_beq validate_analysis_profile
    delta_scope.QueryAccess.Builtin.manifest_of delta_scope.Utf8.trim_space physical_complete
    has_prefix delta_scope.QueryAccess.Normalize.format_relation_key ordinals_closed
    delta_scope.QueryAccess.Builtin.Gateway.entry_matches
    delta_scope.QueryAccess.Builtin.Gateway.call_class_matches
    delta_scope.QueryAccess.Builtin.Gateway.arity_matches
    delta_scope.QueryAccess.Builtin.Gateway.operand_kinds_match
    delta_scope.QueryAccess.Builtin.Gateway.operand_refs_shape
    delta_scope.QueryAccess.Builtin.Gateway.modifiers_allowed
prove_builtin-IsNative_example =
    prove_builtin-IsNative folding ((mysql80, some (count_entry ∷ [])) ∷ []) registry mysql80
      (codes "mysql") (count_call ∷ []) query query.requirements accepted refl
