-- ===== src/QueryAccess/Service/Admission.antt =====
-- What an admissible result of Service.Analyze is free of, behind the extraction.
use delta_scope.Prelude.{
  ◌≡◌, ◌≢◌, refl, sym, ap, ◌∙◌, true, false, [], text_beq, codes, arith, any, ◌⊎◌, inl, inr,
  Bool-cases, comparable_text, ◌==◌, ◌&&◌, subst, sort_by,
}
use delta_scope.QueryAccess.{
  ReadClassification, read_only, Admission, admissible, reason_view_expansion_required,
  reason_unqualified_relation_blocked, ReasonCode, AccessResult,
}
use delta_scope.QueryAccess.Normalize.{ValidationError, sort_relations, sort_unresolved}
use delta_scope.QueryAccess.Requirements.{build_requirements, Requirements}
use delta_scope.QueryAccess.State.{
  has_view, has_unqualified_relation, unqualified_barrier, view_barrier, conclude,
}
use delta_scope.QueryAccess.State.Contract.{
  IsContract, IsState, conclude-admissible, conclude-result, final_state-IsContract,
}
use delta_scope.QueryAccess.State.Barriers.{
  IsBlocked, strip-inadmissible, view_barrier-IsBlocked, note_function_effect-keeps,
  unqualified_barrier-keeps, unqualified_barrier-IsBlocked,
}
use delta_scope.QueryAccess.Effect.Eligibility.{Folding}
use delta_scope.QueryAccess.Proof.{Service}
use delta_scope.QueryAccess.Proof.Orchestrate.{Promotion, Extracted, orchestrate}
use delta_scope.QueryAccess.Service.{
  Request, Context, requirements_failed, resolver_of, is_there, is_unqualified, marked, enriched_by,
  Requirements, attach, answer, blocked, prove_and_conclude, analyze_extracted,
}
use delta_scope.QueryAccess.Service.Kept.{
  IsKept, orchestrate-IsKept, orchestrate-relations, barriers-relations,
}
use delta_scope.QueryAccess.Service.Relations.{
  has_view-sort_relations, has_unqualified-sort_relations, conclude-relations, conclude-unresolved,
  is_unqualified-blocked,
}

pub answer-inr :
    (x x' : Extracted) (v : ValidationError ⊎ AccessResult)
    → answer x v ≡ inr x'
    → v ≡ inr x'.result
answer-inr x x' (inl e) h = ground arith
answer-inr x x' (inr r) h = ground arith

-- A step behind one that may fail.
from_inr {ℓ κ μ ν} :
    {E : Type ℓ} {A : Type κ} {F : Type μ} {B : Type ν} (v : E ⊎ A) (g : E → F) (f : A → F ⊎ B)
    (y : B)
    → elim v [ inl e ↦ inl (g e) | inr a ↦ f a ] ≡ inr y
    → (a : A) × (v ≡ inr a) × (f a ≡ inr y)
from_inr (inl e) g f y h = ground arith
from_inr (inr a) g f y h = (a, refl, h)

module _ (folding : Folding) (s : Service) (ctx : Context) (req : Request) where
  blocked-view :
      (r : AccessResult)
      → has_view (blocked folding s ctx req r).relations ≡ true
      → IsBlocked reason_view_expansion_required (blocked folding s ctx req r)
  unfolding blocked
  blocked-view r h =
      let code = reason_view_expansion_required in
      let b = is_unqualified req r in
      let e = enriched_by folding (resolver_of s req) ctx req (marked req r) in
      let seen = ap has_view (sym (barriers-relations b e)) ∙ h in
      note_function_effect-keeps code (unqualified_barrier b (view_barrier e))
        (unqualified_barrier-keeps code b (view_barrier e) (view_barrier-IsBlocked e seen))

  blocked-unqualified :
      (r : AccessResult)
      → is_unqualified req r ≡ true
      → IsBlocked reason_unqualified_relation_blocked (blocked folding s ctx req r)
  unfolding blocked
  blocked-unqualified r h =
      let code = reason_unqualified_relation_blocked in
      let e = enriched_by folding (resolver_of s req) ctx req (marked req r) in
      note_function_effect-keeps code (unqualified_barrier (is_unqualified req r) (view_barrier e))
        (subst (λ b. IsBlocked code (unqualified_barrier b (view_barrier e))) (sym h)
          (unqualified_barrier-IsBlocked (view_barrier e)))

  attach-IsBlocked :
      (code : ReasonCode) (reqs : Requirements) (r : AccessResult)
      → IsBlocked code r
      → IsBlocked code (attach reqs r)
  attach-IsBlocked code reqs r h = record { uncertain = h.uncertain; named = h.named }

  pub conclusion :
      (x x' : Extracted)
      → prove_and_conclude folding s ctx req x ≡ inr x'
      → conclude
          (is_there (resolver_of s req))
          ((orchestrate folding s req.analysis_profile req.dialect x).0)
          ((orchestrate folding s req.analysis_profile req.dialect x).1)
        ≡ inr x'.result
  unfolding prove_and_conclude
  conclusion x x' h = answer-inr x x' _ h

  -- A reason that no proof answers keeps the result from being admissible.
  prove_and_conclude-IsBlocked :
      (code : ReasonCode) (x x' : Extracted)
      → ((p : Promotion) (k : IsKept x.result p) → any (λ d. code == d) k.removed ≡ false)
      → IsBlocked code x.result
      → prove_and_conclude folding s ctx req x ≡ inr x'
      → x'.result.admission ≢ admissible
  prove_and_conclude-IsBlocked code x x' stays b h =
      let p = orchestrate folding s req.analysis_profile req.dialect x in
      let k = orchestrate-IsKept folding s req.analysis_profile req.dialect x in
      let has_resolver = is_there (resolver_of s req) in
      strip-inadmissible code k.removed has_resolver p.0 x.result x'.result b (stays p k)
        (ap (λ r. conclude has_resolver p.0 r) (sym k.same) ∙ conclusion x x' h)

  -- The relations of the result are those behind the barriers, in order.
  prove_and_conclude-relations :
      (x x' : Extracted)
      → prove_and_conclude folding s ctx req x ≡ inr x'
      → x'.result.relations ≡ sort_relations x.result.relations
  prove_and_conclude-relations x x' h =
      conclude-relations _ _ _ x'.result (conclusion x x' h)
      ∙ ap sort_relations (orchestrate-relations folding s req.analysis_profile req.dialect x)

  pub requirements_of :
      (x x' : Extracted)
      → analyze_extracted folding s ctx req x ≡ inr x'
      → (reqs : Requirements) × (prove_and_conclude folding s ctx req
            (record x { result = attach reqs (blocked folding s ctx req x.result) })
          ≡ inr x')
  unfolding analyze_extracted
  requirements_of x x' h =
      let r = blocked folding s ctx req x.result in
      let (reqs, e, rest) =
        from_inr
          (build_requirements folding.to_lower r.mode r.relations r.referenced_columns r.outputs
            r.unresolved)
          requirements_failed
          (λ reqs. prove_and_conclude folding s ctx req (record x { result = attach reqs r })) x'
          h in
      (reqs, rest)

  -- An unqualified base relation of the extraction keeps the result from being admissible.
  pub extracted-unqualified :
      (x x' : Extracted)
      → is_unqualified req x.result ≡ true
      → analyze_extracted folding s ctx req x ≡ inr x'
      → x'.result.admission ≢ admissible
  extracted-unqualified x x' e h =
      let r = blocked folding s ctx req x.result in
      let (reqs, done) = requirements_of x x' h in
      let y : Extracted = record x { result = attach reqs r } in
      prove_and_conclude-IsBlocked reason_unqualified_relation_blocked y x' (λ p k. k.unqualified)
        (attach-IsBlocked _ reqs r (blocked-unqualified x.result e)) done

  -- What an admissible result is free of.
  pub extracted-admissible :
      (x x' : Extracted)
      → analyze_extracted folding s ctx req x ≡ inr x'
      → x'.result.admission ≡ admissible
      → (has_view x'.result.relations ≡ false) × (is_unqualified req x'.result ≡ false)
  extracted-admissible x x' h adm =
      let r = blocked folding s ctx req x.result in
      let (reqs, done) = requirements_of x x' h in
      let y : Extracted = record x { result = attach reqs r } in
      let same = prove_and_conclude-relations y x' done in
      (
        elim (Bool-cases (has_view r.relations)) [
          | inr e ↦ ap has_view same ∙ has_view-sort_relations r.relations ∙ e
          | inl e ↦
              elim (prove_and_conclude-IsBlocked reason_view_expansion_required y x' (λ p k. k.view)
                (attach-IsBlocked _ reqs r (blocked-view x.result e)) done adm) [ ]
        ],
        elim (Bool-cases (is_unqualified req x.result)) [
          | inr e ↦
              ap (λ rels. text_beq req.dialect (codes "postgresql") && rels)
                (ap has_unqualified_relation same ∙ has_unqualified-sort_relations r.relations)
              ∙ is_unqualified-blocked folding s ctx req x.result e
          | inl e ↦ elim (extracted-unqualified x x' e h adm) [ ]
        ],
      )

  IsState-admissible :
      (rc : ReadClassification) (adm : Admission)
      → IsState rc adm
      → adm ≡ admissible
      → rc ≡ read_only
  IsState-admissible rc adm h e = ground (arith, h)

  pub extracted-resolved :
      (x x' : Extracted)
      → analyze_extracted folding s ctx req x ≡ inr x'
      → x'.result.admission ≡ admissible
      → (x'.result.read_classification ≡ read_only) × (x'.result.unresolved ≡ [])
  unfolding sort_unresolved sort_by
  extracted-resolved x x' h adm =
      let (reqs, done) = requirements_of x x' h in
      let y : Extracted = record x { result = attach reqs (blocked folding s ctx req x.result) } in
      let p = orchestrate folding s req.analysis_profile req.dialect y in
      let has_resolver = is_there (resolver_of s req) in
      let e = conclusion y x' done in
      let (none_left, origin) = conclude-admissible has_resolver p.0 p.1 x'.result e adm in
      let contract =
        subst IsContract (conclude-result has_resolver p.0 p.1 x'.result e)
          (final_state-IsContract has_resolver p.0 p.1) in
      (
        IsState-admissible _ _ contract.state adm,
        conclude-unresolved has_resolver p.0 p.1 x'.result e ∙ ap sort_unresolved none_left,
      )
