-- ===== src/QueryAccess/Builtin/Production/Operands.antt =====
-- builtin_semantic_manifest.go: the entries of mustBuiltinSemanticProductionRegistry with
-- constants among their operands, group by group.
use delta_scope.Prelude.{pos, List, [], ◌∷◌, codes}
use delta_scope.QueryAccess.Profile.{mysql57, mysql80, mysql84}
use delta_scope.QueryAccess.Builtin.{BuiltinEntry}
use delta_scope.QueryAccess.Builtin.Production.Entry.{
  column, constant, mysql_aggregate_entry, tidb_aggregate_entry, mysql_scalar_entry,
  mysql_coalesce_entry, mysql_variable_coalesce_entry, tidb_scalar_entry, tidb_coalesce_entry,
  tidb_variable_coalesce_entry,
}

unfoldable pub mysql57_mixed : List BuiltinEntry
mysql57_mixed =
    mysql_variable_coalesce_entry mysql57 (column ∷ constant ∷ [])
    ∷ mysql_scalar_entry mysql57 (codes "nullif") (pos 2) (column ∷ constant ∷ [])
    ∷ mysql_scalar_entry mysql57 (codes "ifnull") (pos 2) (column ∷ constant ∷ [])
    ∷ []

unfoldable pub mysql80_mixed : List BuiltinEntry
mysql80_mixed =
    mysql_variable_coalesce_entry mysql80 (column ∷ constant ∷ [])
    ∷ mysql_scalar_entry mysql80 (codes "nullif") (pos 2) (column ∷ constant ∷ [])
    ∷ mysql_scalar_entry mysql80 (codes "ifnull") (pos 2) (column ∷ constant ∷ [])
    ∷ []

unfoldable pub mysql84_mixed : List BuiltinEntry
mysql84_mixed =
    mysql_variable_coalesce_entry mysql84 (column ∷ constant ∷ [])
    ∷ mysql_scalar_entry mysql84 (codes "nullif") (pos 2) (column ∷ constant ∷ [])
    ∷ mysql_scalar_entry mysql84 (codes "ifnull") (pos 2) (column ∷ constant ∷ [])
    ∷ []

unfoldable pub tidb85_mixed : List BuiltinEntry
tidb85_mixed =
    tidb_variable_coalesce_entry (column ∷ constant ∷ [])
    ∷ tidb_scalar_entry (codes "nullif") (pos 2) (column ∷ constant ∷ [])
    ∷ tidb_scalar_entry (codes "ifnull") (pos 2) (column ∷ constant ∷ [])
    ∷ []

unfoldable pub mysql57_literals : List BuiltinEntry
mysql57_literals =
    mysql_scalar_entry mysql57 (codes "lower") (pos 1) (constant ∷ [])
    ∷ mysql_scalar_entry mysql57 (codes "upper") (pos 1) (constant ∷ [])
    ∷ mysql_scalar_entry mysql57 (codes "length") (pos 1) (constant ∷ [])
    ∷ mysql_scalar_entry mysql57 (codes "char_length") (pos 1) (constant ∷ [])
    ∷ mysql_scalar_entry mysql57 (codes "abs") (pos 1) (constant ∷ [])
    ∷ mysql_scalar_entry mysql57 (codes "ceil") (pos 1) (constant ∷ [])
    ∷ mysql_scalar_entry mysql57 (codes "ceiling") (pos 1) (constant ∷ [])
    ∷ mysql_scalar_entry mysql57 (codes "floor") (pos 1) (constant ∷ [])
    ∷ mysql_aggregate_entry mysql57 (codes "count") (pos 1) (constant ∷ [])
    ∷ mysql_coalesce_entry mysql57 (constant ∷ column ∷ [])
    ∷ mysql_scalar_entry mysql57 (codes "nullif") (pos 2) (constant ∷ column ∷ [])
    ∷ mysql_scalar_entry mysql57 (codes "ifnull") (pos 2) (constant ∷ column ∷ [])
    ∷ mysql_coalesce_entry mysql57 (constant ∷ constant ∷ [])
    ∷ mysql_scalar_entry mysql57 (codes "nullif") (pos 2) (constant ∷ constant ∷ [])
    ∷ mysql_scalar_entry mysql57 (codes "ifnull") (pos 2) (constant ∷ constant ∷ [])
    ∷ []

unfoldable pub mysql80_literals : List BuiltinEntry
mysql80_literals =
    mysql_scalar_entry mysql80 (codes "lower") (pos 1) (constant ∷ [])
    ∷ mysql_scalar_entry mysql80 (codes "upper") (pos 1) (constant ∷ [])
    ∷ mysql_scalar_entry mysql80 (codes "length") (pos 1) (constant ∷ [])
    ∷ mysql_scalar_entry mysql80 (codes "char_length") (pos 1) (constant ∷ [])
    ∷ mysql_scalar_entry mysql80 (codes "abs") (pos 1) (constant ∷ [])
    ∷ mysql_scalar_entry mysql80 (codes "ceil") (pos 1) (constant ∷ [])
    ∷ mysql_scalar_entry mysql80 (codes "ceiling") (pos 1) (constant ∷ [])
    ∷ mysql_scalar_entry mysql80 (codes "floor") (pos 1) (constant ∷ [])
    ∷ mysql_aggregate_entry mysql80 (codes "count") (pos 1) (constant ∷ [])
    ∷ mysql_coalesce_entry mysql80 (constant ∷ column ∷ [])
    ∷ mysql_scalar_entry mysql80 (codes "nullif") (pos 2) (constant ∷ column ∷ [])
    ∷ mysql_scalar_entry mysql80 (codes "ifnull") (pos 2) (constant ∷ column ∷ [])
    ∷ mysql_coalesce_entry mysql80 (constant ∷ constant ∷ [])
    ∷ mysql_scalar_entry mysql80 (codes "nullif") (pos 2) (constant ∷ constant ∷ [])
    ∷ mysql_scalar_entry mysql80 (codes "ifnull") (pos 2) (constant ∷ constant ∷ [])
    ∷ []

unfoldable pub mysql84_literals : List BuiltinEntry
mysql84_literals =
    mysql_scalar_entry mysql84 (codes "lower") (pos 1) (constant ∷ [])
    ∷ mysql_scalar_entry mysql84 (codes "upper") (pos 1) (constant ∷ [])
    ∷ mysql_scalar_entry mysql84 (codes "length") (pos 1) (constant ∷ [])
    ∷ mysql_scalar_entry mysql84 (codes "char_length") (pos 1) (constant ∷ [])
    ∷ mysql_scalar_entry mysql84 (codes "abs") (pos 1) (constant ∷ [])
    ∷ mysql_scalar_entry mysql84 (codes "ceil") (pos 1) (constant ∷ [])
    ∷ mysql_scalar_entry mysql84 (codes "ceiling") (pos 1) (constant ∷ [])
    ∷ mysql_scalar_entry mysql84 (codes "floor") (pos 1) (constant ∷ [])
    ∷ mysql_aggregate_entry mysql84 (codes "count") (pos 1) (constant ∷ [])
    ∷ mysql_coalesce_entry mysql84 (constant ∷ column ∷ [])
    ∷ mysql_scalar_entry mysql84 (codes "nullif") (pos 2) (constant ∷ column ∷ [])
    ∷ mysql_scalar_entry mysql84 (codes "ifnull") (pos 2) (constant ∷ column ∷ [])
    ∷ mysql_coalesce_entry mysql84 (constant ∷ constant ∷ [])
    ∷ mysql_scalar_entry mysql84 (codes "nullif") (pos 2) (constant ∷ constant ∷ [])
    ∷ mysql_scalar_entry mysql84 (codes "ifnull") (pos 2) (constant ∷ constant ∷ [])
    ∷ []

unfoldable pub tidb85_literals : List BuiltinEntry
tidb85_literals =
    tidb_scalar_entry (codes "lower") (pos 1) (constant ∷ [])
    ∷ tidb_scalar_entry (codes "upper") (pos 1) (constant ∷ [])
    ∷ tidb_scalar_entry (codes "length") (pos 1) (constant ∷ [])
    ∷ tidb_scalar_entry (codes "char_length") (pos 1) (constant ∷ [])
    ∷ tidb_scalar_entry (codes "abs") (pos 1) (constant ∷ [])
    ∷ tidb_scalar_entry (codes "ceil") (pos 1) (constant ∷ [])
    ∷ tidb_scalar_entry (codes "ceiling") (pos 1) (constant ∷ [])
    ∷ tidb_scalar_entry (codes "floor") (pos 1) (constant ∷ [])
    ∷ tidb_aggregate_entry (codes "count") (pos 1) (constant ∷ [])
    ∷ tidb_coalesce_entry (constant ∷ column ∷ [])
    ∷ tidb_scalar_entry (codes "nullif") (pos 2) (constant ∷ column ∷ [])
    ∷ tidb_scalar_entry (codes "ifnull") (pos 2) (constant ∷ column ∷ [])
    ∷ tidb_coalesce_entry (constant ∷ constant ∷ [])
    ∷ tidb_scalar_entry (codes "nullif") (pos 2) (constant ∷ constant ∷ [])
    ∷ tidb_scalar_entry (codes "ifnull") (pos 2) (constant ∷ constant ∷ [])
    ∷ []
