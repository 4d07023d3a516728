-- ===== src/QueryAccess/Effect/Batches/Gated.antt =====
-- What the gate against the live context of the session lets through.
use delta_scope.Prelude.{
  ℤ, ◌≡◌, ap, ◌∙◌, subst, Bool, true, false, not, List, arith, none, some, inl, inr, Bool-cases,
  All, All-imp, All-map, All-const, map,
}
use delta_scope.QueryAccess.Effect.{
  EffectCandidate, ResolutionContext, IdentityItem, explicitly_qualified,
}
use delta_scope.QueryAccess.Effect.Context.{
  session_complete, session_compatible, search_path_compatible, facts_match_resolution,
}
use delta_scope.QueryAccess.Effect.Batches.{
  Batch, is_resolved, unavailable_item, candidate_at, gate_item, gated_item, gate_by_context,
  strip_all, strip_item, strip_unqualified, Live, no_live, live_error, live_context,
  gate_against_live,
}
use delta_scope.QueryAccess.Effect.Batches.Vouched.{Resolved, normalize_batch-Resolved}

-- The candidate of an ordinal is there and not explicitly qualified.
abbrev pub is_unqualified_at : ℤ → List EffectCandidate → Bool
is_unqualified_at ordinal cs = elim (candidate_at ordinal cs) [
  | none ↦ false
  | some c ↦ not (explicitly_qualified c)
]

-- What the live context must agree in for an item to stay resolved.
abbrev pub AgreesLive : ResolutionContext → List EffectCandidate → Live → IdentityItem → Type 0
AgreesLive rc cs no_live it = Unit
AgreesLive rc cs live_error it = ⊥
AgreesLive rc cs (live_context live) it =
    (session_compatible rc live ≡ true)
    × (is_unqualified_at it.ordinal cs ≡ true → search_path_compatible rc live ≡ true)

abbrev IsPinned : ResolutionContext → IdentityItem → Type 0
IsPinned rc it = facts_match_resolution it.facts rc ≡ true

abbrev pub IsGated : ResolutionContext → List EffectCandidate → Live → IdentityItem → Type 0
IsGated rc cs live it = IsPinned rc it × AgreesLive rc cs live it

gated_item-IsPinned :
    (rc : ResolutionContext) (batch : Batch) (c : EffectCandidate)
    → Resolved (IsPinned rc) (gated_item rc batch c)
unfolding gate_item
gated_item-IsPinned rc batch c h = ground arith

gate_by_context-IsPinned :
    (rc : ResolutionContext) (cs : List EffectCandidate) (batch : Batch)
    → All (Resolved (IsPinned rc)) (gate_by_context rc cs batch)
unfolding gate_by_context
gate_by_context-IsPinned rc cs batch =
    normalize_batch-Resolved (IsPinned rc) (map (gated_item rc batch) cs) (
      All-map (Resolved (IsPinned rc)) (gated_item rc batch) cs (
        All-const (λ c. Resolved (IsPinned rc) (gated_item rc batch c))
          (gated_item-IsPinned rc batch) cs))

strip_all-Resolved :
    (Q : IdentityItem → Type 0) (batch : Batch) → All (Resolved Q) (strip_all batch)
unfolding strip_all
strip_all-Resolved Q batch =
    normalize_batch-Resolved Q (map (λ it. unavailable_item it.ordinal) batch) (
      All-map (Resolved Q) (λ (it : IdentityItem). unavailable_item it.ordinal) batch
        (All-const (λ (it : IdentityItem). Resolved Q (unavailable_item it.ordinal))
          (λ it h. ground arith) batch))

-- A resolved item that is not stripped is as it was, and not of an unqualified candidate.
strip_item-same :
    (cs : List EffectCandidate) (it : IdentityItem)
    → is_resolved (strip_item cs it).status ≡ true
    → (it ≡ strip_item cs it) × (is_unqualified_at it.ordinal cs ≡ false)
strip_item-same cs it h = (ground arith, ground arith)

strip_unqualified-Resolved :
    (Q R : IdentityItem → Type 0) (cs : List EffectCandidate) (batch : Batch)
    → ((it : IdentityItem) → is_unqualified_at it.ordinal cs ≡ false → Q it → R it)
    → All (Resolved Q) batch
    → All (Resolved R) (strip_unqualified cs batch)
unfolding strip_unqualified
strip_unqualified-Resolved Q R cs batch keeps h =
    normalize_batch-Resolved R (map (strip_item cs) batch) (
      All-map (Resolved R) (strip_item cs) batch (
        All-imp batch
          (λ it v r.
            let (same, qualified) = strip_item-same cs it r in
            subst R same
              (keeps it qualified (v (ap (λ (i : IdentityItem). is_resolved i.status) same ∙ r))))
          h))

-- An item that is still resolved behind the gate has facts that are pinned to the requested
-- context. If the live context was read, it is of the same session, and of the same search path where
-- the item's candidate is not explicitly qualified; if it could not be read, nothing is resolved.
pub gate_against_live-IsGated :
    (rc : ResolutionContext) (cs : List EffectCandidate) (batch : Batch) (live : Live)
    → All (Resolved (IsGated rc cs live)) (gate_against_live rc cs batch live)
unfolding gate_against_live
gate_against_live-IsGated rc cs batch no_live =
    All-imp (gate_by_context rc cs batch) (λ it v h. (v h, tt))
      (gate_by_context-IsPinned rc cs batch)
gate_against_live-IsGated rc cs batch live_error =
    strip_all-Resolved (IsGated rc cs live_error) (gate_by_context rc cs batch)
gate_against_live-IsGated rc cs batch (live_context live) =
    let gated = gate_by_context rc cs batch in
    let Q = IsGated rc cs (live_context live) in
    let stripped = strip_all-Resolved Q gated in
    elim (Bool-cases (session_complete rc)) [
      | inr e ↦ rw e stripped
      | inl e ↦ elim (Bool-cases (session_complete live)) [
        | inr f ↦ rw (e, f) stripped
        | inl f ↦ elim (Bool-cases (session_compatible rc live)) [
          | inr g ↦ rw (e, f, g) stripped
          | inl g ↦ elim (Bool-cases (search_path_compatible rc live)) [
            | inl k ↦
                rw (e, f, g, k)
                  (All-imp gated (λ it v h. (v h, (g, λ u. k)))
                    (gate_by_context-IsPinned rc cs batch))
            | inr k ↦
                rw (e, f, g, k)
                  (strip_unqualified-Resolved (IsPinned rc) Q cs gated
                    (λ it qualified p. (p, (g, λ u. ground (arith, u, qualified))))
                    (gate_by_context-IsPinned rc cs batch))
          ]
        ]
      ]
    ]
