-- ===== src/QueryAccess/Proof/Orchestrate.antt =====
-- internal/application/queryaccess/proof_orchestration.go: which proof applies, and what it removes. The
-- result is whether promotion is allowed, and the result with its kept reasons.
use delta_scope.Prelude.{
  Bool, true, false, not, ◌&&◌, ◌||◌, List, Text, text_beq, codes, Option, none, some,
  if◌then◌else◌,
}
use delta_scope.QueryAccess.{AccessResult}
use delta_scope.QueryAccess.State.{
  has_view, has_unqualified_relation, remove_unproven_effect_reasons,
  remove_builtin_semantic_reason,
}
use delta_scope.QueryAccess.Effect.{EffectCandidate}
use delta_scope.QueryAccess.Effect.Eligibility.{
  Folding, is_empty, has_exact_count_integer_one, count_integer_one_complete,
}
use delta_scope.QueryAccess.Trust.{TrustDecision, all_proven}
use delta_scope.QueryAccess.Profile.{AnalysisProfile}
use delta_scope.QueryAccess.Builtin.Gateway.{prove_builtin}
use delta_scope.QueryAccess.Proof.{TrustedBundle, BuiltinBundle, Service, resolve_and_prove}

-- `promotionProof`, with the result that the orchestration leaves.
abbrev pub Promotion : Type 0
Promotion = Bool × AccessResult

abbrev pub is_proven : TrustDecision → Bool
is_proven all_proven = true
is_proven _ = false

abbrev pub refused : AccessResult → Promotion
refused r = (false, r)

-- What both proofs run on: the result with its requirements, the candidates, and whether the
-- statement is exactly a COUNT(1).
pub record Extracted : Type 0 where
  pub result : AccessResult
  pub effect_candidates : List EffectCandidate
  pub exact_count_statement : Bool

-- The case of postgresql.
unfoldable pub prove_postgresql : Folding → Option TrustedBundle → Text → Extracted → Promotion
unfolding remove_unproven_effect_reasons
prove_postgresql folding none dialect x = refused x.result
prove_postgresql folding (some bundle) dialect x =
    let r = x.result in
    let cs = x.effect_candidates in
    if is_empty cs
    then refused r
    else if has_exact_count_integer_one folding cs
        && not (count_integer_one_complete folding r r.requirements cs x.exact_count_statement)
    then refused r
    else if not (is_proven (resolve_and_prove folding bundle dialect cs).decision)
    then refused r
    else (true, record r { reason_codes = remove_unproven_effect_reasons r.reason_codes })

-- The cases of mysql and tidb.
unfoldable pub prove_mysql :
    Folding → Option BuiltinBundle → AnalysisProfile → Text → Extracted → Promotion
unfolding remove_builtin_semantic_reason
prove_mysql folding builtin profile dialect x =
    let r = x.result in
    let cs = x.effect_candidates in
    if is_empty cs then (true, r) else elim builtin [
      | none ↦ refused r
      | some b ↦
          if not (prove_builtin folding profile dialect cs r r.requirements b.registry)
          then refused r
          else (true, record r { reason_codes = remove_builtin_semantic_reason r.reason_codes })
    ]

-- `orchestratePromotionProof`
unfoldable pub orchestrate : Folding → Service → AnalysisProfile → Text → Extracted → Promotion
unfolding prove_postgresql prove_mysql
orchestrate folding s profile dialect x =
    if has_view x.result.relations
      || (text_beq dialect (codes "postgresql") && has_unqualified_relation x.result.relations)
    then refused x.result
    else if text_beq dialect (codes "postgresql")
    then prove_postgresql folding s.trusted dialect x
    else if text_beq dialect (codes "mysql") || text_beq dialect (codes "tidb")
    then prove_mysql folding s.builtin_semantic profile dialect x
    else refused x.result
