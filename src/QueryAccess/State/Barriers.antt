-- ===== src/QueryAccess/State/Barriers.antt =====
-- What the barriers of Service.Analyze guarantee of its end.
use delta_scope.Prelude.{
  ◌≡◌, refl, sym, ap, ◌∙◌, ◌≢◌, Bool, true, false, List, [], ◌∷◌, arith, comparable_text, ◌==◌,
  ==_refl, text_beq_iff, any, contains, contains-append, inl, inr, Bool-cases, map,
}
use delta_scope.QueryAccess.{
  read_only, admissible, ReasonCode, reason_view_expansion_required,
  reason_unqualified_relation_blocked, AccessResult,
}
use delta_scope.QueryAccess.State.{
  has_view, block, view_barrier, unqualified_barrier, add_reason, unbind, note_function_effect,
  barriers, keep_reasons, conclude, has_function_call_reason_code,
}
use delta_scope.QueryAccess.State.Contract.{conclude-admissible}

-- A proof that succeeds removes the reasons that it answers.
abbrev pub strip : List ReasonCode → AccessResult → AccessResult
strip removed r = record r { reason_codes = keep_reasons removed r.reason_codes }

contains-keep_reasons :
    (c : ReasonCode) (removed cs : List ReasonCode)
    → any (λ d. c == d) removed ≡ false
    → contains c cs ≡ true
    → contains c (keep_reasons removed cs) ≡ true
contains-keep_reasons c removed [] out h = h
contains-keep_reasons c removed (x ∷ cs) out h = elim (Bool-cases (c == x)) [
  | inl e ↦
      let same = (text_beq_iff c x).0 e in
      let stays = ap (λ y. any (λ d. y == d) removed) (sym same) ∙ out in rw (stays, e) refl
  | inr e ↦
      let later = contains-keep_reasons c removed cs out (ground arith) in
      elim (Bool-cases (any (λ d. x == d) removed)) [ inl k ↦ rw k later | inr k ↦ rw (k, e) later ]
]

-- A result that is blocked for a reason that no proof removes.
pub record IsBlocked (code : ReasonCode) (r : AccessResult) : Type 0 where
  pub uncertain : r.read_classification ≢ read_only
  pub named : contains code r.reason_codes ≡ true

block-uncertain : (r : AccessResult) → (block r).read_classification ≢ read_only
unfolding block
block-uncertain r h = ground arith

block-reasons :
    (r : AccessResult) (code : ReasonCode)
    → contains code r.reason_codes ≡ true
    → contains code (block r).reason_codes ≡ true
unfolding block
block-reasons r code h = ground (arith, h)

add_reason-IsBlocked :
    (code : ReasonCode) (r : AccessResult)
    → r.read_classification ≢ read_only
    → IsBlocked code (add_reason code r)
add_reason-IsBlocked code r h = record {
  uncertain = h;
  named = contains-append code r.reason_codes (code ∷ []) ∙ ground (arith, ==_refl code);
}

add_reason-keeps :
    (code other : ReasonCode) (r : AccessResult)
    → IsBlocked code r
    → IsBlocked code (add_reason other r)
add_reason-keeps code other r h = record {
  uncertain = h.uncertain;
  named = contains-append code r.reason_codes (other ∷ []) ∙ ground (arith, h.named);
}

pub note_function_effect-keeps :
    (code : ReasonCode) (r : AccessResult)
    → IsBlocked code r
    → IsBlocked code (note_function_effect r)
note_function_effect-keeps code r h =
    elim (Bool-cases (has_function_call_reason_code r.reason_codes)) [
      | inl e ↦ rw e (add_reason-keeps code _ r h)
      | inr e ↦ rw e h
    ]

pub strip-inadmissible :
    (code : ReasonCode) (removed : List ReasonCode) (has_resolver allows_promotion : Bool)
    (r result : AccessResult)
    → IsBlocked code r
    → any (λ d. code == d) removed ≡ false
    → conclude has_resolver allows_promotion (strip removed r) ≡ inr result
    → result.admission ≢ admissible
strip-inadmissible code removed has_resolver allows_promotion r result b out h e =
    let (u, origin) =
      conclude-admissible has_resolver allows_promotion (strip removed r) result h e in
    let stays = contains-keep_reasons code removed r.reason_codes out b.named in
    elim origin [
      | inl read ↦ b.uncertain read
      | inr (x, y, z, empty) ↦ ground (arith, stays, ap (λ cs. contains code cs) empty)
    ]

pub view_barrier-IsBlocked :
    (r : AccessResult)
    → has_view r.relations ≡ true
    → IsBlocked reason_view_expansion_required (view_barrier r)
unfolding view_barrier
view_barrier-IsBlocked r h =
    rw h (add_reason-IsBlocked reason_view_expansion_required (block r) (block-uncertain r))

block-keeps : (code : ReasonCode) (r : AccessResult) → IsBlocked code r → IsBlocked code (block r)
block-keeps code r h = record {
  uncertain = block-uncertain r;
  named = block-reasons r code h.named;
}

pub unqualified_barrier-keeps :
    (code : ReasonCode) (has_unqualified : Bool) (r : AccessResult)
    → IsBlocked code r
    → IsBlocked code (unqualified_barrier has_unqualified r)
unfolding unqualified_barrier
unqualified_barrier-keeps code true r h =
    let unbound = record r { referenced_columns = map unbind r.referenced_columns } in
    add_reason-keeps code reason_unqualified_relation_blocked (block unbound)
      (block-keeps code unbound (record { uncertain = h.uncertain; named = h.named }))
unqualified_barrier-keeps code false r h = h

pub unqualified_barrier-IsBlocked :
    (r : AccessResult) → IsBlocked reason_unqualified_relation_blocked (unqualified_barrier true r)
unfolding unqualified_barrier
unqualified_barrier-IsBlocked r =
    let unbound = record r { referenced_columns = map unbind r.referenced_columns } in
    add_reason-IsBlocked reason_unqualified_relation_blocked (block unbound)
      (block-uncertain unbound)

-- Whatever the resolver and the proof say, a query that reads a view is never admissible, as long as
-- the proof does not remove the reason of the view.
pub barriers-view :
    (removed : List ReasonCode) (has_unqualified has_resolver allows_promotion : Bool)
    (r result : AccessResult)
    → any (λ d. reason_view_expansion_required == d) removed ≡ false
    → has_view r.relations ≡ true
    → conclude has_resolver allows_promotion (strip removed (barriers has_unqualified r))
      ≡ inr result
    → result.admission ≢ admissible
barriers-view removed has_unqualified has_resolver allows_promotion r result out h =
    let code = reason_view_expansion_required in
    strip-inadmissible code removed has_resolver allows_promotion (barriers has_unqualified r)
      result
      (note_function_effect-keeps code (unqualified_barrier has_unqualified (view_barrier r)) (
        unqualified_barrier-keeps code has_unqualified (view_barrier r)
          (view_barrier-IsBlocked r h)))
      out
