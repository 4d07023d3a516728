-- ===== src/QueryAccess/Builtin/Production/Entry.antt =====
-- builtin_semantic_manifest.go: the functions that make the entries of mustBuiltinSemanticProductionRegistry.
use delta_scope.Prelude.{ℤ, pos, true, false, List, [], Text, codes}
use delta_scope.QueryAccess.Profile.{AnalysisProfile, tidb85}
use delta_scope.QueryAccess.Builtin.{
  CallClass, aggregate_class, window_class, scalar_class, BuiltinEntry,
}

abbrev pub column : Text
column = codes "column"

abbrev pub constant : Text
constant = codes "const"

abbrev pub star : Text
star = codes "star"

-- An entry without modifiers; the fields that a Go literal leaves out are zero.
abbrev pub plain_entry :
    Text → AnalysisProfile → Text → CallClass → ℤ → ℤ → List Text → BuiltinEntry
plain_entry dialect profile name call_class arity min_arity operand_kinds = record {
  dialect = dialect;
  profile = profile;
  name = name;
  call_class = call_class;
  arity = arity;
  operand_kinds = operand_kinds;
  min_arity = min_arity;
  max_arity = pos 0;
  allow_filter = false;
  allow_distinct = false;
  allow_agg_order = false;
  allow_within_group = false;
  allow_frame = false;
  allow_named_window = false;
  allow_window_partition = false;
  allow_window_order = false;
  require_window_partition = false;
  require_window_order = false;
}

abbrev pub ranking_entry : Text → AnalysisProfile → Text → BuiltinEntry
ranking_entry dialect profile name =
    record (plain_entry dialect profile name window_class (pos 0) (pos 0) []) {
      allow_window_partition = true;
      allow_window_order = true;
      require_window_partition = true;
      require_window_order = true;
    }

abbrev pub mysql_aggregate_entry : AnalysisProfile → Text → ℤ → List Text → BuiltinEntry
mysql_aggregate_entry profile name arity =
    plain_entry (codes "mysql") profile name aggregate_class arity (pos 0)

abbrev pub tidb_aggregate_entry : Text → ℤ → List Text → BuiltinEntry
tidb_aggregate_entry name arity =
    plain_entry (codes "tidb") tidb85 name aggregate_class arity (pos 0)

abbrev pub mysql_ranking_window_entry : AnalysisProfile → Text → BuiltinEntry
mysql_ranking_window_entry = ranking_entry (codes "mysql")

abbrev pub tidb_ranking_window_entry : Text → BuiltinEntry
tidb_ranking_window_entry = ranking_entry (codes "tidb") tidb85

abbrev pub mysql_scalar_entry : AnalysisProfile → Text → ℤ → List Text → BuiltinEntry
mysql_scalar_entry profile name arity =
    plain_entry (codes "mysql") profile name scalar_class arity (pos 0)

abbrev pub mysql_coalesce_entry : AnalysisProfile → List Text → BuiltinEntry
mysql_coalesce_entry profile =
    plain_entry (codes "mysql") profile (codes "coalesce") scalar_class (pos 2) (pos 0)

abbrev pub mysql_variable_coalesce_entry : AnalysisProfile → List Text → BuiltinEntry
mysql_variable_coalesce_entry profile =
    plain_entry (codes "mysql") profile (codes "coalesce") scalar_class (pos 0) (pos 2)

abbrev pub tidb_scalar_entry : Text → ℤ → List Text → BuiltinEntry
tidb_scalar_entry name arity = plain_entry (codes "tidb") tidb85 name scalar_class arity (pos 0)

abbrev pub tidb_coalesce_entry : List Text → BuiltinEntry
tidb_coalesce_entry =
    plain_entry (codes "tidb") tidb85 (codes "coalesce") scalar_class (pos 2) (pos 0)

abbrev pub tidb_variable_coalesce_entry : List Text → BuiltinEntry
tidb_variable_coalesce_entry =
    plain_entry (codes "tidb") tidb85 (codes "coalesce") scalar_class (pos 0) (pos 2)
