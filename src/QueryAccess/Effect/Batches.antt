-- ===== src/QueryAccess/Effect/Batches.antt =====
-- identity_resolver.go: the batches of identities, how they are normalized, completed and gated.
pub mod Vouched
pub mod Complete
pub mod Gated
use delta_scope.Prelude.{
  ℕ, ℤ, pos, int_lt, comparable_int, comparable_nat, comparable_text, ◌==◌, Bool, true, false, not,
  ◌&&◌, ◌||◌, List, [], ◌∷◌, Text, text_beq, codes, Option, none, some, nat_beq, ltb, length, map,
  if◌then◌else◌, any, contains, sort_by,
}
use delta_scope.QueryAccess.{
  IdentityStatus, status_resolved, status_unknown, status_ambiguous, status_coercion_gap,
  status_lookup_failed, status_unavailable, other_status, ReasonCode, reason_identity_lookup_failed,
}
use delta_scope.QueryAccess.Normalize.{
  valid_identity_status, identity_status_is_fail_closed, reason_for_identity_status,
  normalize_reason_codes,
}
use delta_scope.QueryAccess.Effect.{
  EffectKind, operator_kind, function_kind, cast_kind, unknown_kind, other_kind, kind_text,
  EffectCandidate, ResolutionContext, IdentityFacts, IdentityItem, is_operator, is_function,
  valid_volatility, valid_cast_method, explicitly_qualified, explicit_schema_name, canonical_name,
}
use delta_scope.QueryAccess.Effect.Context.{
  session_complete, usable_for_unqualified, session_compatible, search_path_compatible,
  facts_match_resolution, oids_equal,
}

-- `EffectIdentityBatch`
abbrev pub Batch : Type 0
Batch = List IdentityItem

abbrev pub is_resolved : IdentityStatus → Bool
is_resolved status_resolved = true
is_resolved _ = false

-- `it.Status = status; it.Facts = nil`
abbrev pub without_facts : IdentityStatus → IdentityItem → IdentityItem
without_facts status it = record it { status = status; facts = none }

abbrev pub unavailable_item : ℤ → IdentityItem
unavailable_item ordinal = record { ordinal = ordinal; status = status_unavailable; facts = none }

abbrev bad_enum : IdentityFacts → Bool
bad_enum facts =
    not (text_beq facts.volatility []) && not (valid_volatility facts.volatility)
    || not (text_beq facts.cast_method []) && not (valid_cast_method facts.cast_method)

-- The errors that `MapCatalogErrorToStatus` tells apart: those of a context that has ended, and others.
data CatalogError : Type 0 where
  context_ended other_error : CatalogError

-- `MapCatalogErrorToStatus`
map_catalog_error : Option CatalogError → IdentityStatus
map_catalog_error none = status_unknown
map_catalog_error (some context_ended) = status_lookup_failed
map_catalog_error (some other_error) = status_lookup_failed

-- `sanitizeIdentityItem`
unfoldable pub sanitize : IdentityItem → IdentityItem
sanitize it =
    if not (valid_identity_status it.status)
    then without_facts status_lookup_failed it
    else if not (is_resolved it.status)
    then without_facts it.status it
    else elim it.facts [
      | none ↦ it
      | some facts ↦ if bad_enum facts then without_facts status_lookup_failed it else it
    ]

-- The second loop of `NormalizeEffectIdentityBatch`, with the ordinals of `seen`.
unfoldable pub first_items : List ℤ → Batch → Batch
unfolding sanitize
first_items seen [] = []
first_items seen (it ∷ items) =
    let skipped = first_items seen items in
    let kept = sanitize it ∷ first_items (it.ordinal ∷ seen) items in
    if contains it.ordinal seen then skipped else kept

-- `NormalizeEffectIdentityBatch`
unfoldable pub normalize_batch : Batch → Batch
unfolding first_items
normalize_batch items = first_items [] (sort_by (λ a b. int_lt a.ordinal b.ordinal) items)

-- The first item of an ordinal, and the last candidate: what the maps by ordinal hold.
abbrev pub item_at : ℤ → Batch → Option IdentityItem
item_at ordinal [] = none
item_at ordinal (it ∷ items) = if it.ordinal == ordinal then some it else item_at ordinal items

abbrev or_earlier : Option EffectCandidate → Option EffectCandidate → Option EffectCandidate
or_earlier (some c) earlier = some c
or_earlier none earlier = earlier

abbrev pub candidate_at : ℤ → List EffectCandidate → Option EffectCandidate
candidate_at ordinal [] = none
candidate_at ordinal (c ∷ cs) =
    or_earlier (candidate_at ordinal cs) (if c.ordinal == ordinal then some c else none)

-- `BuildUnavailableBatch`
build_unavailable_batch : List EffectCandidate → Batch
build_unavailable_batch cs = normalize_batch (map (λ c. unavailable_item c.ordinal) cs)

-- `completeEffectIdentityBatch`
abbrev pub or_unavailable : ℤ → Option IdentityItem → IdentityItem
or_unavailable ordinal none = unavailable_item ordinal
or_unavailable ordinal (some it) = it

abbrev pub item_or_unavailable : Batch → EffectCandidate → IdentityItem
item_or_unavailable batch c = or_unavailable c.ordinal (item_at c.ordinal batch)

unfoldable pub complete_batch : List EffectCandidate → Batch → Batch
unfolding normalize_batch
complete_batch cs batch = normalize_batch (map (item_or_unavailable batch) cs)

-- The loop of `gateIdentityBatchByResolutionContext`, on an item that the batch has.
unfoldable pub gate_item : ResolutionContext → EffectCandidate → IdentityItem → IdentityItem
gate_item rc c it =
    if not (session_complete rc)
    then without_facts status_unavailable it
    else if not (explicitly_qualified c) && not (usable_for_unqualified rc)
    then without_facts status_unavailable it
    else if is_resolved it.status && not (facts_match_resolution it.facts rc)
    then without_facts status_unavailable it
    else it

abbrev pub gated_item : ResolutionContext → Batch → EffectCandidate → IdentityItem
gated_item rc batch c = elim (item_at c.ordinal batch) [
  | none ↦ unavailable_item c.ordinal
  | some it ↦ gate_item rc c it
]

unfoldable pub gate_by_context : ResolutionContext → List EffectCandidate → Batch → Batch
unfolding gate_item normalize_batch
gate_by_context rc cs batch = normalize_batch (map (gated_item rc batch) cs)

-- `stripAllIdentityFacts`
unfoldable pub strip_all : Batch → Batch
unfolding normalize_batch
strip_all batch = normalize_batch (map (λ it. unavailable_item it.ordinal) batch)

abbrev pub strip_item : List EffectCandidate → IdentityItem → IdentityItem
strip_item cs it = elim (candidate_at it.ordinal cs) [
  | none ↦ it
  | some c ↦ if not (explicitly_qualified c) then without_facts status_unavailable it else it
]

-- `stripUnqualifiedIdentityFacts`
unfoldable pub strip_unqualified : List EffectCandidate → Batch → Batch
unfolding normalize_batch
strip_unqualified cs batch = normalize_batch (map (strip_item cs) batch)

-- `LiveResolutionContext`: no callback, one that fails, and the context that it reads.
pub data Live : Type 0 where
  no_live live_error : Live
  live_context : ResolutionContext → Live

-- `GateIdentityBatchAgainstLiveContext`
unfoldable pub gate_against_live : ResolutionContext → List EffectCandidate → Batch → Live → Batch
unfolding gate_by_context strip_all strip_unqualified
gate_against_live rc cs batch no_live = gate_by_context rc cs batch
gate_against_live rc cs batch live_error = strip_all (gate_by_context rc cs batch)
gate_against_live rc cs batch (live_context live) =
    let gated = gate_by_context rc cs batch in
    if not (session_complete rc)
    then strip_all gated
    else if not (session_complete live)
    then strip_all gated
    else if not (session_compatible rc live)
    then strip_all gated
    else if search_path_compatible rc live
    then gated
    else strip_unqualified cs gated

abbrev pub ordinals : Batch → List ℤ
ordinals = map (λ it. it.ordinal)
