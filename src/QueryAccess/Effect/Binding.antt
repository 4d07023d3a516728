-- ===== src/QueryAccess/Effect/Binding.antt =====
-- identity_resolver.go: how the facts of a batch are bound to the ordinals, the shapes and the operand
-- types of the candidates.
use delta_scope.Prelude.{
  ℕ, ℤ, pos, int_lt, comparable_int, comparable_nat, comparable_text, ◌==◌, Bool, true, false, not,
  ◌&&◌, ◌||◌, List, [], ◌∷◌, Text, text_beq, codes, Option, none, some, nat_beq, ltb, length, map,
  if◌then◌else◌, any, contains,
}
use delta_scope.QueryAccess.{status_lookup_failed, ReasonCode, reason_identity_lookup_failed}
use delta_scope.QueryAccess.Normalize.{
  identity_status_is_fail_closed, reason_for_identity_status, normalize_reason_codes,
}
use delta_scope.QueryAccess.Effect.{
  operator_kind, function_kind, cast_kind, unknown_kind, other_kind, kind_text, EffectCandidate,
  IdentityFacts, IdentityItem, is_operator, is_function, explicit_schema_name, canonical_name,
}
use delta_scope.QueryAccess.Effect.Context.{oids_equal}
use delta_scope.QueryAccess.Effect.Batches.{
  ordinals, Batch, is_resolved, without_facts, normalize_batch, candidate_at,
}

-- `validateBatchOrdinals`, true where it returns no error: first its loop over the items.
unfoldable pub ordinals_known : List ℤ → List ℤ → Batch → Bool
ordinals_known requested seen [] = true
ordinals_known requested seen (it ∷ items) =
    not (contains it.ordinal seen)
    && contains it.ordinal requested
    && ordinals_known requested (it.ordinal ∷ seen) items

abbrev pub all_present : List ℤ → List EffectCandidate → Bool
all_present seen [] = true
all_present seen (c ∷ cs) = contains c.ordinal seen && all_present seen cs

unfoldable pub batch_ordinals_valid : Batch → List EffectCandidate → Bool
unfolding ordinals_known
batch_ordinals_valid batch cs =
    ordinals_known (map (λ (c : EffectCandidate). c.ordinal) cs) [] batch
    && all_present (ordinals batch) cs

-- `[2276]`, the type list of a polymorphic variadic function.
abbrev variadic : List ℕ → Bool
variadic oids = oids_equal oids (2276 ∷ [])

abbrev pub count_of : List ℕ → ℤ
count_of oids = pos (length oids)

abbrev operand_count_fits : IdentityFacts → EffectCandidate → Bool
operand_count_fits facts c = elim c.kind [
  | operator_kind ↦
      not (ltb (length facts.operand_type_oids) 1) && not (ltb 2 (length facts.operand_type_oids))
  | function_kind ↦
      count_of facts.operand_type_oids == c.arity
      || (variadic facts.operand_type_oids && int_lt (pos 1) c.arity)
  | cast_kind ↦ nat_beq (length facts.operand_type_oids) 1
  | unknown_kind ↦ true
  | other_kind t ↦ true
]

-- `factMatchesCandidate`, of facts that are there.
unfoldable pub fact_matches_candidate : IdentityFacts → EffectCandidate → Bool
fact_matches_candidate facts c =
    if not (text_beq (kind_text facts.kind) (kind_text c.kind))
    then false
    else if nat_beq facts.object_oid 0
    then false
    else if not (text_beq facts.resolved_object_name [])
        && not (text_beq (canonical_name c) [])
        && not (text_beq facts.resolved_object_name (canonical_name c))
    then false
    else if c.explicit_schema
        && not (text_beq facts.resolved_schema_name [])
        && not (text_beq (explicit_schema_name c) [])
        && not (text_beq facts.resolved_schema_name (explicit_schema_name c))
    then false
    else operand_count_fits facts c

-- One turn of the loop of `validateCandidateFactBinding`.
abbrev pub bound_to_candidate : Option EffectCandidate → IdentityFacts → Bool
bound_to_candidate none facts = false
bound_to_candidate (some c) facts = fact_matches_candidate facts c

unfoldable pub bind_item : List EffectCandidate → IdentityItem → IdentityItem
unfolding fact_matches_candidate
bind_item cs it = if not (is_resolved it.status) then it else elim it.facts [
  | none ↦ it
  | some facts ↦
      if bound_to_candidate (candidate_at it.ordinal cs) facts
      then it
      else without_facts status_lookup_failed it
]

unfoldable pub bind_facts : List EffectCandidate → Batch → Batch
unfolding bind_item normalize_batch
bind_facts cs batch = normalize_batch (map (bind_item cs) batch)

abbrev pub all_columns : List Text → Bool
all_columns [] = true
all_columns (k ∷ ks) = k == codes "column" && all_columns ks

-- `candidateUsesResolvedColumnType`
unfoldable pub uses_column_type : EffectCandidate → Bool
uses_column_type c =
    if is_operator c.kind && c.arity == pos 2
    then true
    else if not (is_function c.kind)
        || int_lt c.arity (pos 1)
        || not (pos (length c.operand_kinds) == c.arity)
        || not (pos (length c.operand_column_refs) == c.arity)
    then false
    else all_columns c.operand_kinds

-- `hasZeroTypeOID`
unfoldable pub has_zero_oid : List ℕ → Bool
has_zero_oid oids = any (λ oid. nat_beq oid 0) oids

-- `isPolymorphicTypeOID` and `allPolymorphicTypeOIDs`
unfoldable pub is_polymorphic_oid : ℕ → Bool
is_polymorphic_oid oid =
    contains oid (2276 ∷ 2283 ∷ 2776 ∷ 3500 ∷ 3831 ∷ 5077 ∷ 5078 ∷ 5079 ∷ 5080 ∷ [])

unfoldable pub all_polymorphic_oids : List ℕ → Bool
unfolding is_polymorphic_oid
all_polymorphic_oids [] = false
all_polymorphic_oids (oid ∷ []) = is_polymorphic_oid oid
all_polymorphic_oids (oid ∷ oid' ∷ oids) =
    is_polymorphic_oid oid && all_polymorphic_oids (oid' ∷ oids)

-- The map of operand types by ordinal, as the list of its entries.
abbrev pub TypeOids : Type 0
TypeOids = List (ℤ × List ℕ)

abbrev pub type_oids_at : ℤ → TypeOids → Option (List ℕ)
type_oids_at ordinal [] = none
type_oids_at ordinal ((o, oids) ∷ rest) =
    if o == ordinal then some oids else type_oids_at ordinal rest

-- An entry for a candidate that uses no column type breaks the resolver's contract.
abbrev pub unexpected : List EffectCandidate → ℤ × List ℕ → Bool
unexpected cs entry = elim (candidate_at entry.0 cs) [
  | none ↦ true
  | some c ↦ not (uses_column_type c)
]

-- The types that the resolver found for the operands against those of the facts.
unfoldable pub operand_types_fit : EffectCandidate → Option (List ℕ) → IdentityFacts → Bool
operand_types_fit c none facts = false
operand_types_fit c (some expected) facts =
    if not (count_of expected == c.arity) || has_zero_oid expected
    then false
    else if (not (count_of facts.operand_type_oids == c.arity)
          || has_zero_oid facts.operand_type_oids)
        && not (is_function c.kind && variadic facts.operand_type_oids && int_lt (pos 1) c.arity)
    then false
    else oids_equal facts.operand_type_oids expected
      || (is_function c.kind && all_polymorphic_oids facts.operand_type_oids)

abbrev pub types_bound : TypeOids → ℤ → Option EffectCandidate → IdentityFacts → Bool
types_bound types ordinal none facts = true
types_bound types ordinal (some c) facts =
    not (uses_column_type c) || operand_types_fit c (type_oids_at ordinal types) facts

-- One turn of the loop of `validateFactOperandTypeBinding`.
unfoldable pub bind_types_item : TypeOids → List EffectCandidate → IdentityItem → IdentityItem
unfolding operand_types_fit
bind_types_item types cs it = if not (is_resolved it.status) then it else elim it.facts [
  | none ↦ it
  | some facts ↦
      if types_bound types it.ordinal (candidate_at it.ordinal cs) facts
      then it
      else without_facts status_lookup_failed it
]

abbrev pub invalidate_item : IdentityItem → IdentityItem
invalidate_item it = if is_resolved it.status then without_facts status_lookup_failed it else it

-- `invalidateResolvedIdentityFacts`
unfoldable pub invalidate_resolved : Batch → Batch
unfolding normalize_batch
invalidate_resolved batch = normalize_batch (map invalidate_item batch)

-- `validateFactOperandTypeBinding`
unfoldable pub bind_types : TypeOids → List EffectCandidate → Batch → Batch
unfolding bind_types_item normalize_batch invalidate_resolved
bind_types types cs batch =
    if any (unexpected cs) types
    then invalidate_resolved batch
    else normalize_batch (map (bind_types_item types cs) batch)

abbrev has_facts : Option IdentityFacts → Bool
has_facts none = false
has_facts (some facts) = true

-- `batchIsFullyResolved`
batch_is_fully_resolved : Batch → Bool
batch_is_fully_resolved [] = true
batch_is_fully_resolved (it ∷ items) =
    is_resolved it.status && has_facts it.facts && batch_is_fully_resolved items

-- The loop of `failClosedReasonCodes`.
abbrev fail_closed_codes : Batch → List ReasonCode
fail_closed_codes [] = []
fail_closed_codes (it ∷ items) =
    let rest = fail_closed_codes items in
    if not (identity_status_is_fail_closed it.status)
    then rest
    else elim (reason_for_identity_status it.status) [
      | none ↦ reason_identity_lookup_failed ∷ rest
      | some code ↦ code ∷ rest
    ]

unfoldable pub fail_closed_reason_codes : Batch → List ReasonCode
fail_closed_reason_codes batch = normalize_reason_codes (fail_closed_codes batch)
