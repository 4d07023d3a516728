-- ===== src/QueryAccess/Trust/Pg17/Catalog.antt =====
-- What the manifest of PostgreSQL 17 lets through.
use delta_scope.Prelude.{
  ℕ, ◌/◌, ◌≡◌, refl, ap, ◌∙◌, subst, Bool, true, ◌&&◌, ◌||◌, List, [], ◌∷◌, Text, text_beq,
  text_beq_iff, codes, comparable_text, ◌==◌, nat_beq, nat_beq_iff, arith, none, some, ◌⊎◌, inl,
  inr, Bool-cases, Option-cases, All, All-imp,
}
use delta_scope.QueryAccess.Effect.{
  kind_text, IdentityFacts, IdentityItem, valid_kind, valid_volatility,
}
use delta_scope.QueryAccess.Effect.Batches.{Batch, is_resolved}
use delta_scope.QueryAccess.Trust.{
  TrustedEntry, all_proven, entry_of, is_trusted, validate_entry, validate_entries,
  validate_manifest,
}
use delta_scope.QueryAccess.Trust.Sound.{Agrees, is_trusted-IsProven}
use delta_scope.QueryAccess.Trust.Pg17.{pg17_entries, pg17_manifest}

-- An immutable function or a Boolean operator of pg_catalog.
abbrev is_catalog_entry : TrustedEntry → Bool
is_catalog_entry e =
    nat_beq e.namespace_oid 11
    && text_beq e.volatility (codes "i")
    && (text_beq (kind_text e.kind) (codes "function")
        || (text_beq (kind_text e.kind) (codes "operator") && nat_beq e.result_type_oid 16))

abbrev all_catalog : List TrustedEntry → Bool
all_catalog [] = true
all_catalog (e ∷ es) = is_catalog_entry e && all_catalog es

pg17_entries-catalog : all_catalog pg17_entries ≡ true
unfolding pg17_entries text_beq
pg17_entries-catalog = refl

-- The entry of a signature is one of the entries.
entry_of-catalog :
    (signature : Text) (es : List TrustedEntry) (e : TrustedEntry)
    → entry_of signature es ≡ some e
    → all_catalog es ≡ true
    → is_catalog_entry e ≡ true
entry_of-catalog signature [] e h k = ground arith
entry_of-catalog signature (x ∷ es) e h k = elim (Option-cases (entry_of signature es)) [
  | inr (later, f) ↦
      let same : later ≡ e = ground (arith, f, h) in
      subst (λ y. is_catalog_entry y ≡ true) same
        (entry_of-catalog signature es later f (ground (arith, k)))
  | inl f ↦ elim (Bool-cases (x.canonical_signature == signature)) [
    | inl g ↦
        let same : x ≡ e = ground (arith, f, g, h) in
        subst (λ y. is_catalog_entry y ≡ true) same (ground (arith, k))
    | inr g ↦ ground (arith, f, g, h)
  ]
]

-- The facts of an immutable function or of a Boolean operator of pg_catalog.
pub record IsCatalog (facts : IdentityFacts) : Type 0 where
  pub namespace : facts.namespace_oid ≡ 11
  pub volatility : facts.volatility ≡ codes "i"
  pub kind :
      (kind_text facts.kind ≡ codes "function")
      ⊎ ((kind_text facts.kind ≡ codes "operator") × (facts.result_type_oid ≡ 16))

catalog_kind :
    (kind : Text) (result : ℕ)
    → (text_beq kind (codes "function") || (text_beq kind (codes "operator") && nat_beq result 16))
      ≡ true
    → (kind ≡ codes "function") ⊎ ((kind ≡ codes "operator") × (result ≡ 16))
catalog_kind kind result h = elim (Bool-cases (text_beq kind (codes "function"))) [
  | inl e ↦ inl ((text_beq_iff kind (codes "function")).0 e)
  | inr e ↦ inr (
    (text_beq_iff kind (codes "operator")).0 (ground (arith, e, h)),
    (nat_beq_iff result 16).0 (ground (arith, e, h)),
  )
]

same_volatility : (s t : Text) → text_beq s (codes "i") ≡ true → (s ≡ []) ⊎ (t ≡ s) → t ≡ codes "i"
unfolding text_beq
same_volatility s t e (inl empty) = ground (arith, ap (λ x. text_beq x (codes "i")) empty, e)
same_volatility s t e (inr same) = same ∙ (text_beq_iff s (codes "i")).0 e

Agrees-IsCatalog :
    (facts : IdentityFacts) (e : TrustedEntry)
    → is_catalog_entry e ≡ true
    → Agrees facts e
    → IsCatalog facts
Agrees-IsCatalog facts e h a =
    let kinds : (text_beq (kind_text e.kind) (codes "function")
          || (text_beq (kind_text e.kind) (codes "operator") && nat_beq e.result_type_oid 16))
        ≡ true =
      ground (arith, h) in
    record {
      namespace = a.namespace ∙ (nat_beq_iff e.namespace_oid 11).0 (ground (arith, h));
      volatility = same_volatility e.volatility facts.volatility (ground (arith, h)) a.volatility;
      kind = elim (catalog_kind (kind_text e.kind) e.result_type_oid kinds) [
        | inl k ↦ inl (a.kind ∙ k)
        | inr (k, r) ↦ inr (a.kind ∙ k, a.result ∙ r)
      ];
    }

-- A resolved item with such facts.
abbrev pub IsCatalogItem : IdentityItem → Type 0
IsCatalogItem it =
    (is_resolved it.status ≡ true)
    × ((facts : IdentityFacts) × (it.facts ≡ some facts) × IsCatalog facts)

-- The manifest of PostgreSQL 17 trusts a batch only on a server of that major version, and only if
-- every item is resolved to an immutable function of pg_catalog, or to an immutable operator of it with
-- a Boolean result; a cast is never trusted.
pub is_trusted-IsCatalogItem :
    (compute_hash : List TrustedEntry → Text) (batch : Batch) (version : ℕ)
    → is_trusted (pg17_manifest compute_hash) batch version ≡ all_proven
    → (version / 10000 ≡ 17) × All IsCatalogItem batch
unfolding pg17_manifest
is_trusted-IsCatalogItem compute_hash batch version h =
    let (full, low, high, items) =
      is_trusted-IsProven (pg17_manifest compute_hash) batch version h in
    (
      ground (arith, low, high),
      All-imp batch
          (λ it (resolved, (facts, there, (v, (e, found, agrees)))). (
            resolved,
            (
              facts,
              there,
              Agrees-IsCatalog facts e
                  (entry_of-catalog facts.canonical_signature pg17_entries e found
                    pg17_entries-catalog)
                  agrees,
            ),
          ))
          items,
    )

-- The manifest is valid.
validate_manifest-pg17 :
    (compute_hash : List TrustedEntry → Text)
    → validate_manifest compute_hash (pg17_manifest compute_hash) ≡ none
unfolding validate_manifest validate_entries validate_entry pg17_manifest pg17_entries text_beq
    valid_kind valid_volatility
validate_manifest-pg17 compute_hash =
    ground (arith, (text_beq_iff (compute_hash pg17_entries) (compute_hash pg17_entries)).1 refl)
