-- ===== src/QueryAccess/Trust/Sound.antt =====
-- What the decision of the trust policy says of a batch.
use delta_scope.Prelude.{
  ℕ, pos, int_lt, ◌/◌, ◌≡◌, ◌≢◌, refl, Bool, true, false, not, ◌&&◌, ◌||◌, List, [], ◌∷◌, Text,
  text_beq, text_beq_iff, arith, some, ◌⊎◌, inl, inr, Bool-cases, Option-cases, All,
  comparable_text,
}
use delta_scope.QueryAccess.Effect.{IdentityFacts, IdentityItem, is_operator, kind_text}
use delta_scope.QueryAccess.Effect.Context.{oids_equal}
use delta_scope.QueryAccess.Effect.Batches.{Batch, is_resolved}
use delta_scope.QueryAccess.Trust.{
  all_proven, TrustedEntry, TrustManifest, entry_of, matches_entry, proven, ItemProof, item_unknown,
  item_unproven, item_proven, item_proof, decide_from, is_trusted,
}

-- Facts that agree with an entry of the manifest.
pub record Agrees (facts : IdentityFacts) (e : TrustedEntry) : Type 0 where
  pub kind : kind_text facts.kind ≡ kind_text e.kind
  pub aggregate : (e.aggregate_class ≡ []) ⊎ (facts.aggregate_class ≡ e.aggregate_class)
  pub object : facts.object_oid ≡ e.object_oid
  pub namespace : facts.namespace_oid ≡ e.namespace_oid
  pub operands : facts.operand_type_oids ≡ e.operand_type_oids
  pub result : facts.result_type_oid ≡ e.result_type_oid
  pub implementation :
      is_operator facts.kind ≡ true → facts.implementation_oid ≡ e.implementation_oid
  pub volatility : (e.volatility ≡ []) ⊎ (facts.volatility ≡ e.volatility)
  pub database : facts.database_oid ≢ 0

oids_equal-same : (xs ys : List ℕ) → oids_equal xs ys ≡ true → xs ≡ ys
unfolding oids_equal
oids_equal-same [] [] h = refl
oids_equal-same (x ∷ xs) (y ∷ ys) h =
    let first : x ≡ y = ground arith in
    let rest = oids_equal-same xs ys (ground arith) in rw (first, rest) refl
oids_equal-same [] (y ∷ ys) h = ground arith
oids_equal-same (x ∷ xs) [] h = ground arith

-- A text that the entry leaves empty is not compared.
optional_same :
    (s t : Text) → (not (text_beq s []) && not (text_beq t s)) ≡ false → (s ≡ []) ⊎ (t ≡ s)
optional_same s t h = elim (Bool-cases (text_beq s [])) [
  | inl e ↦ inl ((text_beq_iff s []).0 e)
  | inr e ↦ inr ((text_beq_iff t s).0 (ground (arith, h, e)))
]

matches_entry-Agrees :
    (facts : IdentityFacts) (e : TrustedEntry) → matches_entry facts e ≡ true → Agrees facts e
unfolding matches_entry
matches_entry-Agrees facts e h = record {
  kind = (text_beq_iff _ _).0 (ground arith);
  aggregate = optional_same e.aggregate_class facts.aggregate_class (ground arith);
  object = ground arith;
  namespace = ground arith;
  operands = oids_equal-same _ _ (ground arith);
  result = ground arith;
  implementation = λ o. ground arith;
  volatility = optional_same e.volatility facts.volatility (ground arith);
  database = λ z. ground arith;
}

-- What a proven item is.
abbrev pub IsProven : TrustManifest → ℕ → IdentityFacts → Type 0
IsProven m version facts =
    (facts.server_version_num ≡ version)
    × ((e : TrustedEntry) × (entry_of facts.canonical_signature m.entries ≡ some e)
        × Agrees facts e)

abbrev pub IsProvenItem : TrustManifest → ℕ → IdentityItem → Type 0
IsProvenItem m version it =
    (is_resolved it.status ≡ true)
    × ((facts : IdentityFacts) × (it.facts ≡ some facts) × IsProven m version facts)

proven-IsProven :
    (m : TrustManifest) (version : ℕ) (facts : IdentityFacts)
    → proven m version facts ≡ true
    → IsProven m version facts
unfolding proven
proven-IsProven m version facts h =
    elim (Option-cases (entry_of facts.canonical_signature m.entries)) [
      | inl e ↦ ground (arith, e, h)
      | inr (entry, e) ↦
          (ground (arith, h), (entry, e, matches_entry-Agrees facts entry (ground (arith, e, h))))
    ]

item_proof-IsProvenItem :
    (m : TrustManifest) (version : ℕ) (it : IdentityItem)
    → item_proof m version it ≡ item_proven
    → IsProvenItem m version it
unfolding item_proof
item_proof-IsProvenItem m version it h = elim (Option-cases it.facts) [
  | inl e ↦ ground (arith, e, h)
  | inr (facts, e) ↦
      (ground (arith, h), (facts, e, proven-IsProven m version facts (ground (arith, e, h))))
]

proof_cases : (p : ItemProof) → (p ≡ item_unknown) ⊎ ((p ≡ item_unproven) ⊎ (p ≡ item_proven))
proof_cases item_unknown = inl refl
proof_cases item_unproven = inr (inl refl)
proof_cases item_proven = inr (inr refl)

decide_from-proven :
    (m : TrustManifest) (version : ℕ) (unknown unproven : Bool) (batch : Batch)
    → decide_from m version unknown unproven batch ≡ all_proven
    → (unknown ≡ false) × (unproven ≡ false) × All (IsProvenItem m version) batch
unfolding decide_from
decide_from-proven m version unknown unproven [] h = (ground arith, ground arith, tt)
decide_from-proven m version unknown unproven (it ∷ items) h =
    elim (proof_cases (item_proof m version it)) [
      | inl e ↦
          let (a, b, c) = decide_from-proven m version true unproven items (ground (arith, e, h)) in
          ground (arith, a)
      | inr (inl e) ↦
          let (a, b, c) = decide_from-proven m version unknown true items (ground (arith, e, h)) in
          ground (arith, b)
      | inr (inr e) ↦
          let (a, b, c) =
            decide_from-proven m version unknown unproven items (ground (arith, e, h)) in
          (a, b, (item_proof-IsProvenItem m version it e, c))
    ]

-- A batch is trusted only if it is not empty, the server's major version is in the range of the
-- manifest, and every item is resolved, to facts of that server version which agree with the entry of
-- their signature in kind, objects, types, implementation and volatility.
pub is_trusted-IsProven :
    (m : TrustManifest) (batch : Batch) (version : ℕ)
    → is_trusted m batch version ≡ all_proven
    → (batch ≢ [])
      × (int_lt (pos (version / 10000)) m.major_min ≡ false)
      × (int_lt m.major_max (pos (version / 10000)) ≡ false)
      × All (IsProvenItem m version) batch
unfolding is_trusted
is_trusted-IsProven m [] version h = ground arith
is_trusted-IsProven m (it ∷ items) version h =
    elim (Bool-cases
      (int_lt (pos (version / 10000)) m.major_min || int_lt m.major_max (pos (version / 10000)))) [
        | inl e ↦ ground (arith, e, h)
        | inr e ↦
            let (a, b, all) =
              decide_from-proven m version false false (it ∷ items) (ground (arith, e, h)) in
            (λ z. ground arith, ground (arith, e), ground (arith, e), all)
      ]
