-- ===== src/QueryAccess/Builtin/Production.antt =====
-- builtin_semantic_manifest.go: the entries of mustBuiltinSemanticProductionRegistry in
-- the order of the source, and the registry of the four profiles that is made of them.
mod Entry
mod Calls
mod Operands
use delta_scope.Prelude.{
  ℤ, pos, true, false, List, [], ◌∷◌, Text, codes, Option, none, some, concat, ◌⊎◌, inl, inr,
}
use delta_scope.QueryAccess.Profile.{AnalysisProfile, mysql57, mysql80, mysql84, tidb85}
use delta_scope.QueryAccess.Builtin.{
  CallClass, aggregate_class, window_class, scalar_class, BuiltinEntry, Manifest, BuiltinRegistry,
  BuiltinManifestError, new_manifest, manifest_for_profile, new_builtin_registry,
}
use delta_scope.QueryAccess.Builtin.Production.Calls.{
  mysql57_aggregates, mysql80_aggregates, mysql84_aggregates, tidb85_aggregates, mysql57_scalars,
  mysql80_scalars, mysql84_scalars, tidb85_scalars,
}
use delta_scope.QueryAccess.Builtin.Production.Operands.{
  mysql57_mixed, mysql80_mixed, mysql84_mixed, tidb85_mixed, mysql57_literals, mysql80_literals,
  mysql84_literals, tidb85_literals,
}

-- `entries`, in the order of the source.
unfoldable pub production_entries : List BuiltinEntry
unfolding mysql57_aggregates mysql80_aggregates mysql84_aggregates tidb85_aggregates mysql57_scalars
    mysql80_scalars mysql84_scalars tidb85_scalars mysql57_mixed mysql80_mixed mysql84_mixed
    tidb85_mixed mysql57_literals mysql80_literals mysql84_literals tidb85_literals
production_entries = concat (
    mysql57_aggregates ∷ mysql80_aggregates ∷ mysql84_aggregates ∷ tidb85_aggregates
    ∷ mysql57_scalars ∷ mysql80_scalars ∷ mysql84_scalars ∷ tidb85_scalars ∷ mysql57_mixed
    ∷ mysql80_mixed ∷ mysql84_mixed ∷ tidb85_mixed ∷ mysql57_literals ∷ mysql80_literals
    ∷ mysql84_literals ∷ tidb85_literals ∷ [])

abbrev profile_manifest :
    BuiltinManifestError ⊎ Manifest → AnalysisProfile → (Text → Text) → Option Manifest
profile_manifest (inl e) profile to_lower = none
profile_manifest (inr all) profile to_lower = elim (manifest_for_profile to_lower all profile) [
  | inl e ↦ none
  | inr m ↦ some m
]

-- `mustBuiltinSemanticProductionRegistry`, where an error stands for its panic.
unfoldable pub production_registry : (Text → Text) → BuiltinManifestError ⊎ BuiltinRegistry
unfolding production_entries
production_registry to_lower =
    let all = new_manifest to_lower production_entries in
    new_builtin_registry to_lower (
      (mysql57, profile_manifest all mysql57 to_lower)
      ∷ (mysql80, profile_manifest all mysql80 to_lower)
      ∷ (mysql84, profile_manifest all mysql84 to_lower)
      ∷ (tidb85, profile_manifest all tidb85 to_lower)
      ∷ [])
