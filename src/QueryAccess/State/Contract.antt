-- ===== src/QueryAccess/State/Contract.antt =====
-- The states that the end of Service.Analyze can leave, whatever came before.
use delta_scope.Prelude.{
  ◌≡◌, refl, ap, ◌∙◌, ◌≢◌, Bool, true, false, List, [], ◌∷◌, arith, ltb, length, none, ◌⊎◌, inl,
  inr, length-sort_by, by_last,
}
use delta_scope.QueryAccess.{
  ReadClassification, read_only, not_read_only, indeterminate, Admission, admissible, rejected,
  indeterminate_admission, ReasonCode, Unresolved, AccessResult,
}
use delta_scope.QueryAccess.Normalize.{
  validate_mode, validate_admission, validate_result, normalize_reason_codes, sort_reason_codes,
  deduplicate_reason_codes, deduplicate_from,
}
use delta_scope.QueryAccess.State.{
  recompute_admission, reclassify_after_resolution, ensure_indeterminate_reason, settle_state,
  normalize_final_state, final_state, conclude, validated, reclassified, has_wildcard_unresolved,
}

abbrev pub IsState : ReadClassification → Admission → Type 0
IsState read_only admissible = Unit
IsState not_read_only rejected = Unit
IsState indeterminate indeterminate_admission = Unit
IsState _ _ = ⊥

settle_state-IsState :
    (r : AccessResult) → IsState (settle_state r).read_classification (settle_state r).admission
unfolding settle_state
settle_state-IsState r = ground arith

settle_state-admissible :
    (r : AccessResult)
    → (settle_state r).admission ≡ admissible
    → (r.read_classification ≡ read_only) × (r.admission ≢ indeterminate_admission)
unfolding settle_state
settle_state-admissible r h = ground arith

reclassify-read_only :
    (rc : ReadClassification) (cs : List ReasonCode) (us : List Unresolved) (a b : Bool)
    → reclassify_after_resolution rc cs us a b ≡ read_only
    → (rc ≡ read_only)
      ⊎ ((rc ≡ indeterminate)
          × (a ≡ true)
          × (b ≡ true)
          × (cs ≡ [])
          × (has_wildcard_unresolved us ≡ false))
unfolding reclassify_after_resolution
reclassify-read_only rc cs us a b h = ground arith

recompute_admission-definite :
    (us : List Unresolved) → recompute_admission read_only us ≢ indeterminate_admission → us ≡ []
unfolding recompute_admission
recompute_admission-definite us h = ground arith

normalize_reason_codes-nonempty :
    (cs : List ReasonCode) → cs ≢ [] → ltb 0 (length (normalize_reason_codes cs)) ≡ true
unfolding normalize_reason_codes sort_reason_codes deduplicate_reason_codes deduplicate_from
normalize_reason_codes-nonempty [] h = ground arith
normalize_reason_codes-nonempty (c ∷ cs) h =
    let kept = length-sort_by (by_last (λ c. c)) (c ∷ deduplicate_from (c ∷ []) cs) in
    ground (arith, kept)

normalize_reason_codes-empty : (cs : List ReasonCode) → normalize_reason_codes cs ≡ [] → cs ≡ []
normalize_reason_codes-empty [] h = refl
normalize_reason_codes-empty (c ∷ cs) h =
    let some_left = normalize_reason_codes-nonempty (c ∷ cs) (λ e. ground arith) in
    ground (arith, some_left, ap (λ l. ltb 0 (length l)) h)

settle_state-reasons :
    (r : AccessResult)
    → (settle_state r).read_classification ≡ indeterminate
    → (settle_state r).reason_codes ≢ []
unfolding settle_state ensure_indeterminate_reason
settle_state-reasons r h = ground arith

settle_state-mode : (r : AccessResult) → (settle_state r).mode ≡ r.mode
unfolding settle_state
settle_state-mode r = ground arith

validate_result-IsState :
    (r : AccessResult)
    → IsState r.read_classification r.admission
    → validate_mode r.mode ≡ none
    → validate_result r ≡ none
unfolding validate_result validate_admission
validate_result-IsState r s m = ground (arith, m)

-- The classification and the admission agree, and an indeterminate result says why.
pub record IsContract (r : AccessResult) : Type 0 where
  pub state : IsState r.read_classification r.admission
  pub reasons : r.read_classification ≡ indeterminate → ltb 0 (length r.reason_codes) ≡ true

pub normalize_final_state-IsContract : (r : AccessResult) → IsContract (normalize_final_state r)
unfolding normalize_final_state
normalize_final_state-IsContract r = record {
  state = settle_state-IsState r;
  reasons = λ h. normalize_reason_codes-nonempty _ (settle_state-reasons r h);
}

validated-ok : (r : AccessResult) → validate_result r ≡ none → validated r ≡ inr r
validated-ok r h = ground (arith, h)

pub final_state-IsContract :
    (has_resolver allows_promotion : Bool) (r : AccessResult)
    → IsContract (final_state has_resolver allows_promotion r)
unfolding final_state
final_state-IsContract has_resolver allows_promotion r =
    normalize_final_state-IsContract (reclassified has_resolver allows_promotion r)

final_state-mode :
    (has_resolver allows_promotion : Bool) (r : AccessResult)
    → (final_state has_resolver allows_promotion r).mode ≡ r.mode
unfolding final_state normalize_final_state
final_state-mode has_resolver allows_promotion r =
    settle_state-mode (reclassified has_resolver allows_promotion r)

-- With a known mode the end of the analysis always returns a result, whatever the state before it:
-- read-only with admissible, not read-only with rejected, or indeterminate with indeterminate and at
-- least one reason.
pub conclude-IsContract :
    (has_resolver allows_promotion : Bool) (r : AccessResult)
    → validate_mode r.mode ≡ none
    → (result : AccessResult) × (conclude has_resolver allows_promotion r ≡ inr result)
      × IsContract result
unfolding conclude
conclude-IsContract has_resolver allows_promotion r known =
    let result = final_state has_resolver allows_promotion r in
    let contract = final_state-IsContract has_resolver allows_promotion r in
    let same_mode = ap validate_mode (final_state-mode has_resolver allows_promotion r) in
    let valid = validate_result-IsState result contract.state (same_mode ∙ known) in
    (result, validated-ok result valid, contract)

pub conclude-result :
    (has_resolver allows_promotion : Bool) (r result : AccessResult)
    → conclude has_resolver allows_promotion r ≡ inr result
    → final_state has_resolver allows_promotion r ≡ result
unfolding conclude
conclude-result has_resolver allows_promotion r result h = ground arith

final_state-admissible :
    (has_resolver allows_promotion : Bool) (r : AccessResult)
    → (final_state has_resolver allows_promotion r).admission ≡ admissible
    → (r.unresolved ≡ [])
      × ((r.read_classification ≡ read_only)
          ⊎ ((r.read_classification ≡ indeterminate)
              × (has_resolver ≡ true)
              × (allows_promotion ≡ true)
              × (normalize_reason_codes r.reason_codes ≡ [])))
unfolding final_state normalize_final_state
final_state-admissible has_resolver allows_promotion r h =
    let before = reclassified has_resolver allows_promotion r in
    let (read, definite) = settle_state-admissible before h in
    let origin =
      reclassify-read_only r.read_classification (normalize_reason_codes r.reason_codes)
        r.unresolved has_resolver allows_promotion read in
    let none_left =
      recompute_admission-definite r.unresolved
        (λ e. definite (ap (λ c. recompute_admission c r.unresolved) read ∙ e)) in
    (none_left, elim origin [ inl e ↦ inl e | inr (a, b, c, d, e) ↦ inr (a, b, c, d) ])

-- An admissible result has no unresolved reference, and it was read-only before, or it was
-- indeterminate, with no reason left, a resolver there and promotion allowed by the proof.
pub conclude-admissible :
    (has_resolver allows_promotion : Bool) (r result : AccessResult)
    → conclude has_resolver allows_promotion r ≡ inr result
    → result.admission ≡ admissible
    → (r.unresolved ≡ [])
      × ((r.read_classification ≡ read_only)
          ⊎ ((r.read_classification ≡ indeterminate)
              × (has_resolver ≡ true)
              × (allows_promotion ≡ true)
              × (r.reason_codes ≡ [])))
conclude-admissible has_resolver allows_promotion r result h e =
    let same = conclude-result has_resolver allows_promotion r result h in
    let (u, origin) =
      final_state-admissible has_resolver allows_promotion r (ap (λ x. x.admission) same ∙ e) in
    (
      u,
      elim origin [
        | inl read ↦ inl read
        | inr (a, b, c, d) ↦ inr (a, b, c, normalize_reason_codes-empty r.reason_codes d)
      ],
    )
