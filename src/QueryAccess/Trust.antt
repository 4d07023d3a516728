-- ===== src/QueryAccess/Trust.antt =====
-- internal/application/queryaccess/trust_policy.go: the manifest of trusted effects, its validation,
-- and the decision whether a batch of identities is proven by it. The hash of the entries
-- (ComputeManifestHash, over crypto/sha256) is a parameter; the numbers of versions are never negative
-- but in a manifest that is to be refused.
pub mod Sound
pub mod Pg17
use delta_scope.Prelude.{
  ℕ, suc, ℤ, pos, int_lt, ◌==◌, comparable_text, Bool, true, false, not, ◌&&◌, ◌||◌, List, [], ◌∷◌,
  Text, text_beq, codes, Option, none, some, nat_beq, ltb, length, if◌then◌else◌, contains, ◌/◌,
}
use delta_scope.QueryAccess.Effect.{
  EffectKind, kind_text, IdentityFacts, IdentityItem, is_operator, valid_kind, valid_volatility,
}
use delta_scope.QueryAccess.Effect.Context.{oids_equal}
use delta_scope.QueryAccess.Effect.Batches.{Batch, is_resolved}

pub data TrustDecision : Type 0 where
  all_proven has_unproven has_unknown no_effects : TrustDecision

-- `TrustedEffectEntry`
pub record TrustedEntry : Type 0 where
  pub kind : EffectKind
  pub aggregate_class : Text
  pub object_oid : ℕ
  pub namespace_oid : ℕ
  pub operand_type_oids : List ℕ
  pub result_type_oid : ℕ
  pub implementation_oid : ℕ
  pub volatility : Text
  pub canonical_signature : Text
  pub audit_notes : Text

-- `TrustedEffectManifest`
pub record TrustManifest : Type 0 where
  pub schema_version : Text
  pub major_min : ℤ
  pub major_max : ℤ
  pub entries : List TrustedEntry
  pub hash : Text

-- `validateEntry` and `ValidateManifest`: what is wrong.
pub data EntryError : Type 0 where
  bad_kind no_object_oid no_namespace_oid no_signature bad_volatility bad_aggregate_class :
      EntryError

pub data ManifestError : Type 0 where
  no_schema_version bad_version_range min_above_max no_entries hash_mismatch : ManifestError
  bad_entry : ℕ → EntryError → ManifestError
  duplicate_signature : Text → ManifestError

unfoldable pub validate_entry : TrustedEntry → Option EntryError
validate_entry e =
    if not (valid_kind e.kind)
    then some bad_kind
    else if nat_beq e.object_oid 0
    then some no_object_oid
    else if nat_beq e.namespace_oid 0
    then some no_namespace_oid
    else if text_beq e.canonical_signature []
    then some no_signature
    else if not (text_beq e.volatility []) && not (valid_volatility e.volatility)
    then some bad_volatility
    else if not (text_beq e.aggregate_class []) && not (text_beq e.aggregate_class (codes "a"))
    then some bad_aggregate_class
    else none

-- The loop of `ValidateManifest`, with the index and the signatures of `seen`.
unfoldable pub validate_entries : ℕ → List Text → List TrustedEntry → Option ManifestError
unfolding validate_entry
validate_entries i seen [] = none
validate_entries i seen (e ∷ es) =
    let rest = validate_entries (suc i) (e.canonical_signature ∷ seen) es in
    elim (validate_entry e) [
      | some err ↦ some (bad_entry i err)
      | none ↦
          if contains e.canonical_signature seen
          then some (duplicate_signature e.canonical_signature)
          else rest
    ]

module _ (compute_hash : List TrustedEntry → Text) where
  -- `ValidateManifest`, and `NewTrustPolicy`, which refuses with its error.
  unfoldable pub validate_manifest : TrustManifest → Option ManifestError
  unfolding validate_entries
  validate_manifest m =
      if text_beq m.schema_version []
      then some no_schema_version
      else if int_lt m.major_min (pos 1) || int_lt m.major_max (pos 1)
      then some bad_version_range
      else if int_lt m.major_max m.major_min
      then some min_above_max
      else if not (ltb 0 (length m.entries))
      then some no_entries
      else elim (validate_entries 0 [] m.entries) [
        | some err ↦ some err
        | none ↦ if not (text_beq m.hash (compute_hash m.entries)) then some hash_mismatch else none
      ]

abbrev or_first : Option TrustedEntry → Option TrustedEntry → Option TrustedEntry
or_first (some e) other = some e
or_first none other = other

-- `manifestBySig`: the last entry of a signature.
abbrev pub entry_of : Text → List TrustedEntry → Option TrustedEntry
entry_of signature [] = none
entry_of signature (e ∷ es) =
    or_first (entry_of signature es) (if e.canonical_signature == signature then some e else none)

-- The checks of one item's facts against the entry of their signature.
unfoldable pub matches_entry : IdentityFacts → TrustedEntry → Bool
matches_entry facts e =
    if not (text_beq (kind_text facts.kind) (kind_text e.kind))
    then false
    else if not (text_beq e.aggregate_class [])
        && not (text_beq facts.aggregate_class e.aggregate_class)
    then false
    else if not (nat_beq facts.object_oid e.object_oid)
        || not (nat_beq facts.namespace_oid e.namespace_oid)
    then false
    else if not (nat_beq facts.result_type_oid e.result_type_oid)
    then false
    else if not (oids_equal facts.operand_type_oids e.operand_type_oids)
    then false
    else if is_operator facts.kind && not (nat_beq facts.implementation_oid e.implementation_oid)
    then false
    else if not (text_beq e.volatility []) && not (text_beq facts.volatility e.volatility)
    then false
    else not (nat_beq facts.database_oid 0)

unfoldable pub proven : TrustManifest → ℕ → IdentityFacts → Bool
unfolding matches_entry
proven m version facts =
    if nat_beq facts.server_version_num 0 || not (nat_beq facts.server_version_num version)
    then false
    else elim (entry_of facts.canonical_signature m.entries) [
      | none ↦ false
      | some e ↦ matches_entry facts e
    ]

-- What one turn of the loop of `IsTrusted` finds.
pub data ItemProof : Type 0 where
  item_unknown item_unproven item_proven : ItemProof

abbrev facts_proof : TrustManifest → ℕ → Option IdentityFacts → ItemProof
facts_proof m version none = item_unknown
facts_proof m version (some facts) = if proven m version facts then item_proven else item_unproven

unfoldable pub item_proof : TrustManifest → ℕ → IdentityItem → ItemProof
unfolding proven
item_proof m version it =
    if not (is_resolved it.status) then item_unknown else facts_proof m version it.facts

-- The loop, with `hasUnknown` and `hasUnproven`, and the decision behind it.
unfoldable pub decide_from : TrustManifest → ℕ → Bool → Bool → Batch → TrustDecision
unfolding item_proof
decide_from m version unknown unproven [] =
    if unknown then has_unknown else if unproven then has_unproven else all_proven
decide_from m version unknown unproven (it ∷ items) = elim (item_proof m version it) [
  | item_unknown ↦ decide_from m version true unproven items
  | item_unproven ↦ decide_from m version unknown true items
  | item_proven ↦ decide_from m version unknown unproven items
]

-- `IsTrusted` of a policy that is there.
unfoldable pub is_trusted : TrustManifest → Batch → ℕ → TrustDecision
unfolding decide_from
is_trusted m [] version = no_effects
is_trusted m (it ∷ items) version =
    let major = pos (version / 10000) in
    if int_lt major m.major_min || int_lt m.major_max major
    then has_unproven
    else decide_from m version false false (it ∷ items)
