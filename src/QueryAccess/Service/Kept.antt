-- ===== src/QueryAccess/Service/Kept.antt =====
-- What the steps of Service.Analyze keep of the result: its mode, its relations, and the reasons that
-- no proof answers.
use delta_scope.Prelude.{
  ◌≡◌, refl, sym, ap, ◌∙◌, Bool, true, false, ◌&&◌, not, List, [], ◌∷◌, arith, comparable_text,
  ◌==◌, any, Text, Option, none, some, if◌then◌else◌, text_beq,
}
use delta_scope.QueryAccess.{
  ReasonCode, reason_view_expansion_required, reason_unqualified_relation_blocked, AccessResult,
}
use delta_scope.QueryAccess.State.{
  view_barrier, unqualified_barrier, block, keep_reasons, mark_unqualified, barriers,
  remove_unproven_effect_reasons, unproven_effects, function_effects,
  remove_builtin_semantic_reason,
}
use delta_scope.QueryAccess.State.Barriers.{strip}
use delta_scope.QueryAccess.Effect.Eligibility.{
  Folding, is_empty, has_exact_count_integer_one, count_integer_one_complete,
}
use delta_scope.QueryAccess.Builtin.Gateway.{prove_builtin}
use delta_scope.QueryAccess.Profile.{AnalysisProfile}
use delta_scope.QueryAccess.Resolve.Lineage.{resolve_metadata}
use delta_scope.QueryAccess.Proof.{
  TrustedBundle, BuiltinBundle, Service, SchemaResolver, resolve_and_prove,
}
use delta_scope.QueryAccess.Proof.Orchestrate.{
  Promotion, Extracted, prove_postgresql, prove_mysql, orchestrate, refused, is_proven,
}
use delta_scope.QueryAccess.Service.{Request, Context, enriched_by, marked, blocked, resolver_of}

-- The result is the one before, without reasons that a proof may answer.
pub record IsKept (r : AccessResult) (p : Promotion) : Type 0 where
  pub removed : List ReasonCode
  pub same : p.1 ≡ strip removed r
  pub view : any (λ d. reason_view_expansion_required == d) removed ≡ false
  pub unqualified : any (λ d. reason_unqualified_relation_blocked == d) removed ≡ false

keep_reasons-none : (cs : List ReasonCode) → keep_reasons [] cs ≡ cs
keep_reasons-none [] = refl
keep_reasons-none (c ∷ cs) = ap (λ rest. c ∷ rest) (keep_reasons-none cs)

IsKept-refl : (allowed : Bool) (r : AccessResult) → IsKept r (allowed, r)
IsKept-refl allowed r = record {
  removed = [];
  same =
      ap {A = List ReasonCode} {B = AccessResult} (λ cs. record r { reason_codes = cs })
        (sym (keep_reasons-none r.reason_codes));
  view = refl;
  unqualified = refl;
}

choose-IsKept :
    (r : AccessResult) (b : Bool) (p q : Promotion)
    → IsKept r p
    → IsKept r q
    → IsKept r (if b then p else q)
choose-IsKept r true p q h k = h
choose-IsKept r false p q h k = k

prove_postgresql-IsKept :
    (folding : Folding) (trusted : Option TrustedBundle) (dialect : Text) (x : Extracted)
    → IsKept x.result (prove_postgresql folding trusted dialect x)
unfolding prove_postgresql remove_unproven_effect_reasons text_beq
prove_postgresql-IsKept folding none dialect x = IsKept-refl false x.result
prove_postgresql-IsKept folding (some bundle) dialect x =
    let r = x.result in
    let cs = x.effect_candidates in
    let proven : Promotion = (true, strip unproven_effects r) in
    let kept = IsKept-refl false r in
    let counted =
      has_exact_count_integer_one folding cs
      && not (count_integer_one_complete folding r r.requirements cs x.exact_count_statement) in
    let unproven = not (is_proven (resolve_and_prove folding bundle dialect cs).decision) in
    choose-IsKept r (is_empty cs) (refused r) _ kept (
      choose-IsKept r counted (refused r) _ kept (
        choose-IsKept r unproven (refused r) proven kept
          (record { removed = unproven_effects; same = refl; view = refl; unqualified = refl })))

prove_mysql-IsKept :
    (folding : Folding) (builtin : Option BuiltinBundle) (profile : AnalysisProfile)
    (dialect : Text) (x : Extracted)
    → IsKept x.result (prove_mysql folding builtin profile dialect x)
unfolding prove_mysql remove_builtin_semantic_reason text_beq
prove_mysql-IsKept folding none profile dialect x =
    choose-IsKept x.result _ (true, x.result) (refused x.result) (IsKept-refl true x.result)
      (IsKept-refl false x.result)
prove_mysql-IsKept folding (some b) profile dialect x =
    let r = x.result in
    let cs = x.effect_candidates in
    let proven : Promotion = (true, strip function_effects r) in
    let unproven = not (prove_builtin folding profile dialect cs r r.requirements b.registry) in
    choose-IsKept r (is_empty cs) (true, r) _ (IsKept-refl true r)
      (choose-IsKept r unproven (refused r) proven (IsKept-refl false r)
        (record { removed = function_effects; same = refl; view = refl; unqualified = refl }))

-- Whatever the proof finds, the reasons of a view and of an unqualified relation stay.
pub orchestrate-IsKept :
    (folding : Folding) (s : Service) (profile : AnalysisProfile) (dialect : Text) (x : Extracted)
    → IsKept x.result (orchestrate folding s profile dialect x)
unfolding orchestrate
orchestrate-IsKept folding s profile dialect x =
    let r = x.result in
    choose-IsKept r _ (refused r) _ (IsKept-refl false r) (
      choose-IsKept r _ (prove_postgresql folding s.trusted dialect x) _
        (prove_postgresql-IsKept folding s.trusted dialect x)
        (choose-IsKept r _ (prove_mysql folding s.builtin_semantic profile dialect x) (refused r)
          (prove_mysql-IsKept folding s.builtin_semantic profile dialect x) (IsKept-refl false r)))

strip-mode : (r : AccessResult) (p : Promotion) → IsKept r p → (p.1).mode ≡ r.mode
strip-mode r p h = ap (λ (x : AccessResult). x.mode) h.same

pub orchestrate-mode :
    (folding : Folding) (s : Service) (profile : AnalysisProfile) (dialect : Text) (x : Extracted)
    → ((orchestrate folding s profile dialect x).1).mode ≡ x.result.mode
orchestrate-mode folding s profile dialect x =
    strip-mode _ _ (orchestrate-IsKept folding s profile dialect x)

pub orchestrate-relations :
    (folding : Folding) (s : Service) (profile : AnalysisProfile) (dialect : Text) (x : Extracted)
    → ((orchestrate folding s profile dialect x).1).relations ≡ x.result.relations
orchestrate-relations folding s profile dialect x =
    ap (λ (r : AccessResult). r.relations) (orchestrate-IsKept folding s profile dialect x).same

barriers-mode : (b : Bool) (r : AccessResult) → (barriers b r).mode ≡ r.mode
unfolding view_barrier unqualified_barrier block
barriers-mode b r = ground arith

pub barriers-relations : (b : Bool) (r : AccessResult) → (barriers b r).relations ≡ r.relations
unfolding view_barrier unqualified_barrier block
barriers-relations b r = ground arith

enriched_by-mode :
    (folding : Folding) (resolver : Option SchemaResolver) (ctx : Context) (req : Request)
    (r : AccessResult)
    → (enriched_by folding resolver ctx req r).mode ≡ r.mode
unfolding resolve_metadata
enriched_by-mode folding none ctx req r = refl
enriched_by-mode folding (some resolver) ctx req r = refl

marked-mode : (req : Request) (r : AccessResult) → (marked req r).mode ≡ r.mode
unfolding mark_unqualified
marked-mode req r = ground arith

pub blocked-mode :
    (folding : Folding) (s : Service) (ctx : Context) (req : Request) (r : AccessResult)
    → (blocked folding s ctx req r).mode ≡ r.mode
unfolding blocked
blocked-mode folding s ctx req r =
    barriers-mode _ _ ∙ enriched_by-mode folding (resolver_of s req) ctx req _ ∙ marked-mode req r
