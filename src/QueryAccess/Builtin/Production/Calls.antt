-- ===== src/QueryAccess/Builtin/Production/Calls.antt =====
-- builtin_semantic_manifest.go: the aggregate, window and scalar entries of
-- mustBuiltinSemanticProductionRegistry on columns, group by group.
use delta_scope.Prelude.{pos, List, [], ◌∷◌, codes}
use delta_scope.QueryAccess.Profile.{mysql57, mysql80, mysql84}
use delta_scope.QueryAccess.Builtin.{BuiltinEntry}
use delta_scope.QueryAccess.Builtin.Production.Entry.{
  column, star, mysql_aggregate_entry, tidb_aggregate_entry, mysql_ranking_window_entry,
  tidb_ranking_window_entry, mysql_scalar_entry, mysql_variable_coalesce_entry, tidb_scalar_entry,
  tidb_variable_coalesce_entry,
}

unfoldable pub mysql57_aggregates : List BuiltinEntry
mysql57_aggregates =
    mysql_aggregate_entry mysql57 (codes "count") (pos 0) (star ∷ [])
    ∷ mysql_aggregate_entry mysql57 (codes "count") (pos 1) (column ∷ [])
    ∷ mysql_aggregate_entry mysql57 (codes "sum") (pos 1) (column ∷ [])
    ∷ mysql_aggregate_entry mysql57 (codes "avg") (pos 1) (column ∷ [])
    ∷ mysql_aggregate_entry mysql57 (codes "min") (pos 1) (column ∷ [])
    ∷ mysql_aggregate_entry mysql57 (codes "max") (pos 1) (column ∷ [])
    ∷ []

unfoldable pub mysql80_aggregates : List BuiltinEntry
mysql80_aggregates =
    mysql_aggregate_entry mysql80 (codes "count") (pos 0) (star ∷ [])
    ∷ mysql_aggregate_entry mysql80 (codes "count") (pos 1) (column ∷ [])
    ∷ mysql_aggregate_entry mysql80 (codes "sum") (pos 1) (column ∷ [])
    ∷ mysql_aggregate_entry mysql80 (codes "avg") (pos 1) (column ∷ [])
    ∷ mysql_aggregate_entry mysql80 (codes "min") (pos 1) (column ∷ [])
    ∷ mysql_aggregate_entry mysql80 (codes "max") (pos 1) (column ∷ [])
    ∷ mysql_ranking_window_entry mysql80 (codes "row_number")
    ∷ mysql_ranking_window_entry mysql80 (codes "rank")
    ∷ mysql_ranking_window_entry mysql80 (codes "dense_rank")
    ∷ []

unfoldable pub mysql84_aggregates : List BuiltinEntry
mysql84_aggregates =
    mysql_aggregate_entry mysql84 (codes "count") (pos 0) (star ∷ [])
    ∷ mysql_aggregate_entry mysql84 (codes "count") (pos 1) (column ∷ [])
    ∷ mysql_aggregate_entry mysql84 (codes "sum") (pos 1) (column ∷ [])
    ∷ mysql_aggregate_entry mysql84 (codes "avg") (pos 1) (column ∷ [])
    ∷ mysql_aggregate_entry mysql84 (codes "min") (pos 1) (column ∷ [])
    ∷ mysql_aggregate_entry mysql84 (codes "max") (pos 1) (column ∷ [])
    ∷ mysql_ranking_window_entry mysql84 (codes "row_number")
    ∷ mysql_ranking_window_entry mysql84 (codes "rank")
    ∷ mysql_ranking_window_entry mysql84 (codes "dense_rank")
    ∷ []

unfoldable pub tidb85_aggregates : List BuiltinEntry
tidb85_aggregates =
    tidb_aggregate_entry (codes "count") (pos 0) (star ∷ [])
    ∷ tidb_aggregate_entry (codes "count") (pos 1) (column ∷ [])
    ∷ tidb_aggregate_entry (codes "sum") (pos 1) (column ∷ [])
    ∷ tidb_aggregate_entry (codes "avg") (pos 1) (column ∷ [])
    ∷ tidb_aggregate_entry (codes "min") (pos 1) (column ∷ [])
    ∷ tidb_aggregate_entry (codes "max") (pos 1) (column ∷ [])
    ∷ tidb_ranking_window_entry (codes "row_number")
    ∷ tidb_ranking_window_entry (codes "rank")
    ∷ tidb_ranking_window_entry (codes "dense_rank")
    ∷ []

unfoldable pub mysql57_scalars : List BuiltinEntry
mysql57_scalars =
    mysql_scalar_entry mysql57 (codes "lower") (pos 1) (column ∷ [])
    ∷ mysql_scalar_entry mysql57 (codes "upper") (pos 1) (column ∷ [])
    ∷ mysql_scalar_entry mysql57 (codes "length") (pos 1) (column ∷ [])
    ∷ mysql_scalar_entry mysql57 (codes "char_length") (pos 1) (column ∷ [])
    ∷ mysql_scalar_entry mysql57 (codes "abs") (pos 1) (column ∷ [])
    ∷ mysql_scalar_entry mysql57 (codes "ceil") (pos 1) (column ∷ [])
    ∷ mysql_scalar_entry mysql57 (codes "ceiling") (pos 1) (column ∷ [])
    ∷ mysql_scalar_entry mysql57 (codes "floor") (pos 1) (column ∷ [])
    ∷ mysql_variable_coalesce_entry mysql57 (column ∷ column ∷ [])
    ∷ mysql_scalar_entry mysql57 (codes "ifnull") (pos 2) (column ∷ column ∷ [])
    ∷ mysql_scalar_entry mysql57 (codes "nullif") (pos 2) (column ∷ column ∷ [])
    ∷ []

unfoldable pub mysql80_scalars : List BuiltinEntry
mysql80_scalars =
    mysql_scalar_entry mysql80 (codes "lower") (pos 1) (column ∷ [])
    ∷ mysql_scalar_entry mysql80 (codes "upper") (pos 1) (column ∷ [])
    ∷ mysql_scalar_entry mysql80 (codes "length") (pos 1) (column ∷ [])
    ∷ mysql_scalar_entry mysql80 (codes "char_length") (pos 1) (column ∷ [])
    ∷ mysql_scalar_entry mysql80 (codes "abs") (pos 1) (column ∷ [])
    ∷ mysql_scalar_entry mysql80 (codes "ceil") (pos 1) (column ∷ [])
    ∷ mysql_scalar_entry mysql80 (codes "ceiling") (pos 1) (column ∷ [])
    ∷ mysql_scalar_entry mysql80 (codes "floor") (pos 1) (column ∷ [])
    ∷ mysql_variable_coalesce_entry mysql80 (column ∷ column ∷ [])
    ∷ mysql_scalar_entry mysql80 (codes "ifnull") (pos 2) (column ∷ column ∷ [])
    ∷ mysql_scalar_entry mysql80 (codes "nullif") (pos 2) (column ∷ column ∷ [])
    ∷ []

unfoldable pub mysql84_scalars : List BuiltinEntry
mysql84_scalars =
    mysql_scalar_entry mysql84 (codes "lower") (pos 1) (column ∷ [])
    ∷ mysql_scalar_entry mysql84 (codes "upper") (pos 1) (column ∷ [])
    ∷ mysql_scalar_entry mysql84 (codes "length") (pos 1) (column ∷ [])
    ∷ mysql_scalar_entry mysql84 (codes "char_length") (pos 1) (column ∷ [])
    ∷ mysql_scalar_entry mysql84 (codes "abs") (pos 1) (column ∷ [])
    ∷ mysql_scalar_entry mysql84 (codes "ceil") (pos 1) (column ∷ [])
    ∷ mysql_scalar_entry mysql84 (codes "ceiling") (pos 1) (column ∷ [])
    ∷ mysql_scalar_entry mysql84 (codes "floor") (pos 1) (column ∷ [])
    ∷ mysql_variable_coalesce_entry mysql84 (column ∷ column ∷ [])
    ∷ mysql_scalar_entry mysql84 (codes "ifnull") (pos 2) (column ∷ column ∷ [])
    ∷ mysql_scalar_entry mysql84 (codes "nullif") (pos 2) (column ∷ column ∷ [])
    ∷ []

unfoldable pub tidb85_scalars : List BuiltinEntry
tidb85_scalars =
    tidb_scalar_entry (codes "lower") (pos 1) (column ∷ [])
    ∷ tidb_scalar_entry (codes "upper") (pos 1) (column ∷ [])
    ∷ tidb_scalar_entry (codes "length") (pos 1) (column ∷ [])
    ∷ tidb_scalar_entry (codes "char_length") (pos 1) (column ∷ [])
    ∷ tidb_scalar_entry (codes "abs") (pos 1) (column ∷ [])
    ∷ tidb_scalar_entry (codes "ceil") (pos 1) (column ∷ [])
    ∷ tidb_scalar_entry (codes "ceiling") (pos 1) (column ∷ [])
    ∷ tidb_scalar_entry (codes "floor") (pos 1) (column ∷ [])
    ∷ tidb_variable_coalesce_entry (column ∷ column ∷ [])
    ∷ tidb_scalar_entry (codes "ifnull") (pos 2) (column ∷ column ∷ [])
    ∷ tidb_scalar_entry (codes "nullif") (pos 2) (column ∷ column ∷ [])
    ∷ []
