-- ===== src/QueryAccess/Trust/Pg17.antt =====
-- internal/application/queryaccess/trust_manifest_pg17.go: the manifest that the service of PostgreSQL
-- 17 trusts. A copy of it is the manifest itself.
pub mod Functions
pub mod Operators
pub mod Catalog
use delta_scope.Prelude.{pos, List, [], ◌∷◌, Text, codes, concat}
use delta_scope.QueryAccess.Trust.{TrustedEntry, TrustManifest}
use delta_scope.QueryAccess.Trust.Pg17.Functions.{
  pg17_aggregates, pg17_extremes_and_rankings, pg17_counts, pg17_scalars, pg17_null_handling,
}
use delta_scope.QueryAccess.Trust.Pg17.Operators.{
  pg17_bool_comparisons, pg17_int2_comparisons, pg17_int4_comparisons, pg17_int8_comparisons,
  pg17_float4_comparisons, pg17_float8_comparisons, pg17_numeric_comparisons, pg17_text_comparisons,
  pg17_oid_comparisons,
}

-- `pg17Entries`
unfoldable pub pg17_entries : List TrustedEntry
unfolding pg17_aggregates pg17_extremes_and_rankings pg17_counts pg17_scalars pg17_null_handling
    pg17_bool_comparisons pg17_int2_comparisons pg17_int4_comparisons pg17_int8_comparisons
    pg17_float4_comparisons pg17_float8_comparisons pg17_numeric_comparisons pg17_text_comparisons
    pg17_oid_comparisons
pg17_entries = concat (
    pg17_aggregates ∷ pg17_extremes_and_rankings ∷ pg17_counts ∷ pg17_scalars ∷ pg17_null_handling
    ∷ pg17_bool_comparisons ∷ pg17_int2_comparisons ∷ pg17_int4_comparisons ∷ pg17_int8_comparisons
    ∷ pg17_float4_comparisons ∷ pg17_float8_comparisons ∷ pg17_numeric_comparisons
    ∷ pg17_text_comparisons ∷ pg17_oid_comparisons ∷ [])

-- `pg17ManifestData` and `NewPG17Manifest`
unfoldable pub pg17_manifest : (List TrustedEntry → Text) → TrustManifest
pg17_manifest compute_hash = record {
  schema_version = codes "1.0";
  major_min = pos 17;
  major_max = pos 17;
  entries = pg17_entries;
  hash = compute_hash pg17_entries;
}
