-- ===== src/QueryAccess/Service.antt =====
-- internal/application/queryaccess/service.go: the whole of Service.Analyze, and the constructors of a
-- Service. The extractors of the two families of dialects are parameters.
pub mod Kept
pub mod Relations
pub mod Admission
pub mod Outcome
pub mod Refusal
pub mod Unqualified
mod Tests
use delta_scope.Prelude.{
  ℕ, Bool, true, false, not, ◌&&◌, ◌||◌, List, [], ◌∷◌, ◌++◌, Text, text_beq, codes, Option, none,
  some, if◌then◌else◌, ◌⊎◌, inl, inr, has_prefix, drop, map,
}
use delta_scope.Utf8.{trim_space}
use delta_scope.QueryAccess.{Mode, Requirement, WarningCode, AccessResult}
use delta_scope.QueryAccess.Normalize.{ValidationError}
use delta_scope.QueryAccess.Requirements.{build_requirements, Requirements}
use delta_scope.QueryAccess.State.{has_unqualified_relation, mark_unqualified, barriers, conclude}
use delta_scope.QueryAccess.Resolve.{Resolver}
use delta_scope.QueryAccess.Resolve.Lineage.{resolve_metadata}
use delta_scope.QueryAccess.Effect.Eligibility.{Folding}
use delta_scope.QueryAccess.Profile.{AnalysisProfile, ProfileError, validate_analysis_profile}
use delta_scope.QueryAccess.Trust.{TrustManifest}
use delta_scope.QueryAccess.Builtin.{Manifest, BuiltinRegistry, new_builtin_registry}
use delta_scope.QueryAccess.Proof.{
  SchemaResolver, EffectResolver, TrustedBundle, BuiltinBundle, Service,
}
use delta_scope.QueryAccess.Proof.Orchestrate.{Extracted, orchestrate}

-- `QueryAccessRequest`; its mode is read by the extractors alone.
pub record Request : Type 0 where
  pub sql : Text
  pub dialect : Text
  pub mode : Text
  pub default_schema : Text
  pub analysis_profile : AnalysisProfile
  pub schema_resolver : Option SchemaResolver

-- Whether the context is cancelled when the analysis begins, and when the resolution of the metadata
-- asks for the n-th time.
pub record Context : Type 0 where
  pub at_start : Bool
  pub at_resolution : ℕ → Bool

pub data AnalyzeError : Type 0 where
  analyze_cancelled bom_only_sql extraction_failed : AnalyzeError
  profile_refused : ProfileError → AnalyzeError
  requirements_failed invalid_result : ValidationError → AnalyzeError

-- An extractor, `none` with an error.
abbrev pub Extractor : Type 0
Extractor = Request → Option Extracted

-- The bytes of U+FEFF.
abbrev pub byte_order_mark : Text
byte_order_mark = 239 ∷ 187 ∷ 191 ∷ []

-- `NormalizeSQLInput`
unfoldable pub normalize_sql_input : Text → Text
normalize_sql_input sql = if has_prefix sql byte_order_mark then drop 3 sql else sql

-- `extractByDialect`
unfoldable pub extract_by_dialect : Extractor → Extractor → Extractor
extract_by_dialect tidb postgresql req =
    if text_beq req.dialect (codes "mysql") || text_beq req.dialect (codes "tidb")
    then tidb req
    else if text_beq req.dialect (codes "postgresql")
    then postgresql req
    else none

-- `NewService`
new_service : Service
new_service = record { trusted = none; builtin_semantic = none }

-- The dependency that `(*trustedBundle).validate` misses.
data BundleError : Type 0 where
  no_effect_resolver no_trust_policy no_schema_resolver : BundleError

-- `NewTrustedService`, with `validate`: `none` is a nil argument.
new_trusted_service :
    Option EffectResolver → Option TrustManifest → Option SchemaResolver → BundleError ⊎ Service
new_trusted_service none policy schema = inl no_effect_resolver
new_trusted_service (some e) none schema = inl no_trust_policy
new_trusted_service (some e) (some m) none = inl no_schema_resolver
new_trusted_service (some e) (some m) (some r) = inr (record {
  trusted = some (record { effect_resolver = e; trust_policy = m; schema_resolver = r });
  builtin_semantic = none;
})

abbrev with_manifest : AnalysisProfile × Manifest → AnalysisProfile × Option Manifest
with_manifest (profile, m) = (profile, some m)

-- `cloneBuiltinSemanticRegistry`, `none` for its nil.
clone_registry : (Text → Text) → BuiltinRegistry → Option BuiltinRegistry
clone_registry to_lower registry =
    elim (new_builtin_registry to_lower (map with_manifest registry)) [
      | inl e ↦ none
      | inr copy ↦ some copy
    ]

-- `newBuiltinSemanticService`, with `validate`: `none` is its error.
new_builtin_service :
    (Text → Text) → Option SchemaResolver → Option BuiltinRegistry → Option Service
unfolding clone_registry
new_builtin_service to_lower (some r) (some registry) = elim (clone_registry to_lower registry) [
  | none ↦ none
  | some copy ↦ some (record {
    trusted = none;
    builtin_semantic = some (record { schema_resolver = r; registry = copy });
  })
]
new_builtin_service to_lower _ _ = none

-- The resolver of the metadata: the request's, or that of a bundle.
unfoldable pub resolver_of : Service → Request → Option SchemaResolver
resolver_of s req = elim s.builtin_semantic [
  | some b ↦ some b.schema_resolver
  | none ↦ elim s.trusted [ some t ↦ some t.schema_resolver | none ↦ req.schema_resolver ]
]

abbrev pub is_there {ℓ} : {A : Type ℓ} → Option A → Bool
is_there none = false
is_there (some x) = true

abbrev pub is_unqualified : Request → AccessResult → Bool
is_unqualified req r =
    text_beq req.dialect (codes "postgresql") && has_unqualified_relation r.relations

abbrev pub marked : Request → AccessResult → AccessResult
marked req r = if is_unqualified req r then mark_unqualified r else r

-- `if schemaResolver != nil`
abbrev pub enriched_by :
    Folding → Option SchemaResolver → Context → Request → AccessResult → AccessResult
enriched_by folding none ctx req r = r
enriched_by folding (some resolver) ctx req r =
    resolve_metadata folding (resolver req.dialect) ctx.at_resolution req.default_schema r

-- The result with its requirements and the warnings behind those it had.
abbrev pub attach : Requirements → AccessResult → AccessResult
attach reqs r = record r { requirements = reqs.0; warnings = r.warnings ++ reqs.1 }

abbrev pub answer : Extracted → ValidationError ⊎ AccessResult → AnalyzeError ⊎ Extracted
answer x (inl e) = inl (invalid_result e)
answer x (inr r) = inr (record x { result = r })

module _ (folding : Folding) (s : Service) (ctx : Context) (req : Request) where
  -- From the extraction to the barriers.
  unfoldable pub blocked : AccessResult → AccessResult
  blocked r =
      barriers (is_unqualified req r)
        (enriched_by folding (resolver_of s req) ctx req (marked req r))

  -- The proof, and the end of the analysis.
  unfoldable pub prove_and_conclude : Extracted → AnalyzeError ⊎ Extracted
  unfolding orchestrate
  prove_and_conclude x =
      let proof = orchestrate folding s req.analysis_profile req.dialect x in
      answer x (conclude (is_there (resolver_of s req)) (proof.0) (proof.1))

  -- `Analyze`, behind the extraction.
  unfoldable pub analyze_extracted : Extracted → AnalyzeError ⊎ Extracted
  unfolding blocked prove_and_conclude
  analyze_extracted x =
      let r = blocked x.result in
      elim (build_requirements folding.to_lower r.mode r.relations r.referenced_columns r.outputs
        r.unresolved) [
          | inl e ↦ inl (requirements_failed e)
          | inr reqs ↦ prove_and_conclude (record x { result = attach reqs r })
        ]

module _ (folding : Folding) (tidb postgresql : Extractor) where
  -- `Analyze`
  unfoldable pub analyze : Service → Context → Request → AnalyzeError ⊎ Extracted
  unfolding normalize_sql_input extract_by_dialect
  analyze s ctx req =
      let sql = normalize_sql_input req.sql in
      if ctx.at_start
      then inl analyze_cancelled
      else if not (text_beq sql req.sql) && text_beq (trim_space sql) []
      then inl bom_only_sql
      else elim (validate_analysis_profile req.analysis_profile req.dialect) [
        | some e ↦ inl (profile_refused e)
        | none ↦ elim (extract_by_dialect tidb postgresql (record req { sql = sql })) [
          | none ↦ inl extraction_failed
          | some x ↦ analyze_extracted folding s ctx (record req { sql = sql }) x
        ]
      ]
