-- ===== src/QueryAccess/Effect/Tests.antt =====
-- Two candidates, what a resolver may answer for them, and the theorems on batches.
use delta_scope.Prelude.{ℤ, pos, ◌≡◌, List, [], ◌∷◌, All, none, map, contains, comparable_int}
use delta_scope.QueryAccess.{status_unknown}
use delta_scope.QueryAccess.Effect.{EffectCandidate}
use delta_scope.QueryAccess.Effect.Samples.{lower_call, session, lower_item}
use delta_scope.QueryAccess.Effect.Batches.{
  Batch, complete_batch, ordinals, live_context, gate_against_live,
}
use delta_scope.QueryAccess.Effect.Batches.Vouched.{Resolved}
use delta_scope.QueryAccess.Effect.Batches.Complete.{IsAscending, complete_batch_lem}
use delta_scope.QueryAccess.Effect.Batches.Gated.{IsGated, gate_against_live-IsGated}

abbrev calls : List EffectCandidate
calls = lower_call (pos 1) ∷ lower_call (pos 0) ∷ []

-- The second candidate is missing, and an unknown one is there.
abbrev raw : Batch
raw = lower_item ∷ record { ordinal = pos 7; status = status_unknown; facts = none } ∷ []

complete_batch_lem_example :
    IsAscending (complete_batch calls raw)
    × ((o : ℤ)
        → contains o (ordinals (complete_batch calls raw))
          ≡ contains o (map (λ (c : EffectCandidate). c.ordinal) calls))
complete_batch_lem_example = complete_batch_lem calls raw

gate_against_live-IsGated_example :
    All
      (Resolved (IsGated session calls (live_context session)))
      (gate_against_live session calls raw (live_context session))
gate_against_live-IsGated_example =
    gate_against_live-IsGated session calls raw (live_context session)
