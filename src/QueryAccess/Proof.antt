-- ===== src/QueryAccess/Proof.antt =====
-- internal/application/queryaccess: what a Service holds, and resolveAndProveEffects of service.go. The
-- controlled resolver of the effects is a parameter, one call of each of its methods.
pub mod Orchestrate
pub mod Sound
mod Tests
use delta_scope.Prelude.{
  ℕ, Bool, true, false, not, List, [], ◌∷◌, Text, Option, none, some, ltb, map, if◌then◌else◌,
}
use delta_scope.QueryAccess.{ReasonCode, reason_identity_lookup_failed, status_unavailable}
use delta_scope.QueryAccess.Resolve.{Resolver}
use delta_scope.QueryAccess.Effect.{
  EffectCandidate, ResolutionContext, IdentityFacts, IdentityItem, IdentityRequest,
}
use delta_scope.QueryAccess.Effect.Context.{
  session_complete, contexts_valid, facts_match_resolution,
}
use delta_scope.QueryAccess.Effect.Batches.{Batch, is_resolved, without_facts, complete_batch}
use delta_scope.QueryAccess.Effect.Binding.{
  batch_ordinals_valid, bind_facts, TypeOids, bind_types, fail_closed_reason_codes,
}
use delta_scope.QueryAccess.Effect.Eligibility.{Folding, validate_phase1_candidates}
use delta_scope.QueryAccess.Trust.{
  TrustDecision, has_unproven, has_unknown, TrustManifest, is_trusted,
}
use delta_scope.QueryAccess.Builtin.{BuiltinRegistry}

-- `SchemaResolver`: first the dialect.
abbrev pub SchemaResolver : Type 0
SchemaResolver = Text → Resolver

-- What an `AtomicProofResolver` returns, `none` with an error.
abbrev pub AtomicAnswer : Type 0
AtomicAnswer = Option (TypeOids × (Batch × ResolutionContext))

-- `ControlledEffectIdentityResolver`: the context that it captures, `none` with an error, and its
-- atomic method, `none` where it is no `AtomicProofResolver`.
pub record EffectResolver : Type 0 where
  pub capture : Option ResolutionContext
  pub atomic : Option (List EffectCandidate → IdentityRequest → AtomicAnswer)

-- `trustedBundle`; the policy is its manifest.
pub record TrustedBundle : Type 0 where
  pub effect_resolver : EffectResolver
  pub trust_policy : TrustManifest
  pub schema_resolver : SchemaResolver

-- `builtinSemanticBundle`
pub record BuiltinBundle : Type 0 where
  pub schema_resolver : SchemaResolver
  pub registry : BuiltinRegistry

pub record Service : Type 0 where
  pub trusted : Option TrustedBundle
  pub builtin_semantic : Option BuiltinBundle

-- `trustProofResult`
pub record ProofResult : Type 0 where
  pub decision : TrustDecision
  pub reason_codes : List ReasonCode
  pub batch : Batch

-- What is returned when the lookup fails.
abbrev pub lookup_failed : ProofResult
lookup_failed = record {
  decision = has_unknown;
  reason_codes = reason_identity_lookup_failed ∷ [];
  batch = [];
}

abbrev version_of : IdentityItem → ℕ
version_of it =
    if is_resolved it.status then elim it.facts [ none ↦ 0 | some f ↦ f.server_version_num ] else 0

-- `extractServerVersionFromBatch`
unfoldable pub server_version : Batch → ℕ
server_version [] = 0
server_version (it ∷ items) =
    let rest = server_version items in if ltb 0 (version_of it) then version_of it else rest

-- The loop over the items of the raw batch: facts that are not pinned to the final context go.
unfoldable pub pin_item : ResolutionContext → IdentityItem → IdentityItem
pin_item final it = if not (is_resolved it.status) then it else elim it.facts [
  | none ↦ it
  | some facts ↦
      if facts_match_resolution (some facts) final then it else without_facts status_unavailable it
]

-- From the raw batch to the completed one.
unfoldable pub checked_batch : ResolutionContext → TypeOids → List EffectCandidate → Batch → Batch
unfolding pin_item
checked_batch final types cs batch =
    complete_batch cs (bind_types types cs (bind_facts cs (map (pin_item final) batch)))

abbrev pub decide : TrustManifest → Batch → ProofResult
decide m batch = record {
  decision = is_trusted m batch (server_version batch);
  reason_codes = fail_closed_reason_codes batch;
  batch = batch;
}

-- The checks of the answer of the atomic resolver, and the decision.
unfoldable pub prove_answer :
    TrustManifest → ResolutionContext → List EffectCandidate → AtomicAnswer → ProofResult
prove_answer m initial cs none = lookup_failed
prove_answer m initial cs (some (types, (batch, final))) =
    if not (contexts_valid initial final cs)
    then lookup_failed
    else if not (batch_ordinals_valid batch cs)
    then lookup_failed
    else decide m (checked_batch final types cs batch)

-- The part of `resolveAndProveEffects` behind the capture of the context.
unfoldable pub prove_in :
    TrustedBundle → Text → List EffectCandidate → ResolutionContext → ProofResult
unfolding prove_answer
prove_in bundle dialect cs initial =
    if not (session_complete initial) then lookup_failed else elim bundle.effect_resolver.atomic [
      | none ↦ lookup_failed
      | some resolve ↦
          prove_answer bundle.trust_policy initial cs
            (resolve cs (record { dialect = dialect; candidates = cs; resolution = initial }))
    ]

-- `resolveAndProveEffects`, of a service with a trusted bundle.
unfoldable pub resolve_and_prove :
    Folding → TrustedBundle → Text → List EffectCandidate → ProofResult
unfolding prove_in
resolve_and_prove folding bundle dialect cs = elim (validate_phase1_candidates folding cs) [
  | some reason ↦ record { decision = has_unproven; reason_codes = reason ∷ []; batch = [] }
  | none ↦ elim bundle.effect_resolver.capture [
    | none ↦ lookup_failed
    | some initial ↦ prove_in bundle dialect cs initial
  ]
]
