-- ===== src/QueryAccess/Resolve/Missing.antt =====
-- What becomes of a relation that the metadata do not know.
use delta_scope.Prelude.{
  ℕ, ◌≡◌, refl, ap, ◌∙◌, subst, sym, Bool, true, false, not, ◌||◌, ◌&&◌, List, [], ◌∷◌, ◌++◌, Text,
  arith, none, inl, inr, Bool-cases, All, All-imp, any, any-sort_by, map, concat, comparable_text,
  ◌==◌, ==_refl,
}
use delta_scope.QueryAccess.{RelationReference, Unresolved, AccessResult, ReasonCode}
use delta_scope.QueryAccess.Normalize.{format_relation_key, sort_unresolved}
use delta_scope.QueryAccess.Effect.Eligibility.{Folding}
use delta_scope.QueryAccess.Resolve.{
  reason_missing_metadata, reason_relation_not_found, Resolver, ResolutionState, Session,
  no_session, polled, traverse, is_local, default_to, cache_key, resolve_schema, new_state,
  register_relation, register_relations,
}
use delta_scope.QueryAccess.Resolve.Columns.{resolve_relation}
use delta_scope.QueryAccess.Resolve.Cached.{
  IsUnknown, IsCache, resolve_schema-unknown, resolve_relation-IsCache,
}
use delta_scope.QueryAccess.Resolve.Lineage.{resolve_metadata}

any-append :
    {A : Type 0} (p : A → Bool) (xs ys : List A) → any p (xs ++ ys) ≡ (any p xs || any p ys)
any-append p [] ys = refl
any-append p (x ∷ xs) ys = ground (arith, any-append p xs ys)

-- An unresolved reference of that name, for that reason.
abbrev pub is_entry : Text → ReasonCode → Unresolved → Bool
is_entry reference reason u = u.reference == reference && u.reason == reason

-- An unresolved reference of that name, of a relation that was not found or had no metadata.
abbrev pub is_left : Text → Unresolved → Bool
is_left reference u =
    is_entry reference reason_relation_not_found u || is_entry reference reason_missing_metadata u

abbrev pub is_bound_base : RelationReference → Bool
is_bound_base rel = not (rel.unbound || is_local rel)

abbrev pub key_of : RelationReference → Text
key_of rel = format_relation_key rel.schema rel.name

default_to-twice : (d x : Text) → default_to d (default_to d x) ≡ default_to d x
default_to-twice d x = ground arith

is_entry_refl :
    (reference reason : Text)
    → is_entry reference reason (record { reference = reference; reason = reason }) ≡ true
is_entry_refl reference reason = ground (arith, ==_refl reference, ==_refl reason)

-- What one turn finds of a relation, whatever the session holds before it.
abbrev Finds :
    (Session → Type 0) → ResolutionState → RelationReference → (Unresolved → Bool) → Type 0
Finds I s rel p = (m : Session) → I m → any p ((resolve_relation s m rel).0.1) ≡ true

cancelled-Finds :
    (s : ResolutionState) (rel : RelationReference)
    → is_bound_base rel ≡ true
    → ((n : ℕ) → s.cancelled_at n ≡ true)
    → Finds (IsCache s) s rel (is_entry (key_of rel) reason_missing_metadata)
unfolding resolve_relation
cancelled-Finds s rel bound cancelled m h =
    let base : (rel.unbound || is_local rel) ≡ false = ground (arith, bound) in
    rw (base, cancelled m.polls)
      (ground (arith, is_entry_refl (key_of rel) reason_missing_metadata))

module _ (s : ResolutionState) (rel : RelationReference) (bound : is_bound_base rel ≡ true)
    (unknown : IsUnknown s.resolver
      (cache_key (default_to s.default_schema rel.schema) rel.name)) where
  unknown_schema :
      (m : Session)
      → IsCache s m
      → (resolve_schema s (polled m) (default_to s.default_schema rel.schema) rel.name).0 ≡ none
  unknown_schema m h =
      resolve_schema-unknown s (polled m) (default_to s.default_schema rel.schema) rel.name h (
        subst (λ d. IsUnknown s.resolver (cache_key d rel.name))
          (sym (default_to-twice s.default_schema rel.schema)) unknown)

  live-Finds :
      ((n : ℕ) → s.cancelled_at n ≡ false)
      → Finds (IsCache s) s rel (is_entry (key_of rel) reason_relation_not_found)
  unfolding resolve_relation
  live-Finds live m h =
      let base : (rel.unbound || is_local rel) ≡ false = ground (arith, bound) in
      rw (base, live m.polls, unknown_schema m h)
        (ground (arith, is_entry_refl (key_of rel) reason_relation_not_found))

  unknown-Finds : Finds (IsCache s) s rel (is_left (key_of rel))
  unfolding resolve_relation
  unknown-Finds m h =
      let base : (rel.unbound || is_local rel) ≡ false = ground (arith, bound) in
      elim (Bool-cases (s.cancelled_at m.polls)) [
        | inl c ↦ rw (base, c) (ground (arith, is_entry_refl (key_of rel) reason_missing_metadata))
        | inr c ↦
            rw (base, c, unknown_schema m h)
              (ground (arith, is_entry_refl (key_of rel) reason_relation_not_found))
      ]

abbrev found_for : ResolutionState → Session → List RelationReference → List Unresolved
found_for s m rels = concat (
    map (λ (q : RelationReference × List Unresolved). q.1) (traverse (resolve_relation s) m rels).0)

-- What is found for one relation is among what is found for all.
relations-any :
    (s : ResolutionState) (m : Session) (rels : List RelationReference)
    → IsCache s m
    → All
        (λ rel.
          (p : Unresolved → Bool) → Finds (IsCache s) s rel p → any p (found_for s m rels) ≡ true)
        rels
relations-any s m [] h = tt
relations-any s m (rel ∷ rels) h =
    let first = (resolve_relation s m rel).0.1 in
    let n = (resolve_relation s m rel).1 in
    let rest = found_for s n rels in
    (
      λ p finds. any-append p first rest ∙ ground (arith, finds m h),
      All-imp rels (λ r found p finds. any-append p first rest ∙ ground (arith, found p finds))
          (relations-any s n rels (resolve_relation-IsCache s m rel h)),
    )

sort_unresolved-any :
    (p : Unresolved → Bool) (xs ys zs : List Unresolved)
    → any p ys ≡ true
    → any p (sort_unresolved (xs ++ (ys ++ zs))) ≡ true
unfolding sort_unresolved
sort_unresolved-any p xs ys zs h =
    any-sort_by p _ (xs ++ (ys ++ zs))
    ∙ ground (arith, any-append p xs (ys ++ zs), any-append p ys zs, h)

-- What the state holds of the request.
register_relations-keeps :
    (folding : Folding) (s : ResolutionState) (rels : List RelationReference)
    → let t = register_relations folding s rels in
      (t.resolver ≡ s.resolver)
      × (t.cancelled_at ≡ s.cancelled_at)
      × (t.default_schema ≡ s.default_schema)
unfolding register_relations register_relation
register_relations-keeps folding s [] = (refl, refl, refl)
register_relations-keeps folding s (rel ∷ rels) =
    let (a, b, c) = register_relations-keeps folding (register_relation folding s rel) rels in
    (a ∙ ground arith, b ∙ ground arith, c ∙ ground arith)

new_state-keeps :
    (folding : Folding) (resolver : Resolver) (cancelled_at : ℕ → Bool) (default_schema : Text)
    (rels : List RelationReference)
    → let t = new_state folding resolver cancelled_at default_schema rels in
      (t.resolver ≡ resolver)
      × (t.cancelled_at ≡ cancelled_at)
      × (t.default_schema ≡ default_schema)
unfolding new_state
new_state-keeps folding resolver cancelled_at default_schema rels =
    register_relations-keeps folding _ rels

-- What is left of a relation in the unresolved references.
pub record IsReported (resolver : Resolver) (cancelled_at : ℕ → Bool) (default_schema : Text)
    (left : List Unresolved) (rel : RelationReference) : Type 0 where
  pub cancelled :
      ((n : ℕ) → cancelled_at n ≡ true)
      → any (is_entry (key_of rel) reason_missing_metadata) left ≡ true
  pub live :
      IsUnknown resolver (cache_key (default_to default_schema rel.schema) rel.name)
      → ((n : ℕ) → cancelled_at n ≡ false)
      → any (is_entry (key_of rel) reason_relation_not_found) left ≡ true
  pub unknown :
      IsUnknown resolver (cache_key (default_to default_schema rel.schema) rel.name)
      → any (is_left (key_of rel)) left ≡ true

-- Every bound base relation is left unresolved by its qualified name if the resolver answers no
-- relation of its cache key, whenever the context is cancelled in between: as a relation that was not
-- found when it never is, else as that or for want of metadata. With a context that is cancelled
-- throughout it is left for want of metadata, whatever the resolver knows.
pub resolve_metadata-IsMissing :
    (folding : Folding) (resolver : Resolver) (cancelled_at : ℕ → Bool) (default_schema : Text)
    (result : AccessResult)
    → All
        (λ rel.
          is_bound_base rel ≡ true
          → IsReported resolver cancelled_at default_schema
              (resolve_metadata folding resolver cancelled_at default_schema result).unresolved
              rel)
        result.relations
unfolding resolve_metadata
resolve_metadata-IsMissing folding resolver cancelled_at default_schema result =
    let s = new_state folding resolver cancelled_at default_schema result.relations in
    let (a, b, c) = new_state-keeps folding resolver cancelled_at default_schema result.relations in
    let unknown_in =
      λ (rel : RelationReference)
          (u : IsUnknown resolver (cache_key (default_to default_schema rel.schema) rel.name)).
        subst (λ r. IsUnknown r (cache_key (default_to s.default_schema rel.schema) rel.name))
          (sym a)
          (subst (λ d. IsUnknown resolver (cache_key (default_to d rel.schema) rel.name)) (sym c)
            u) in
    let settle : (p : Unresolved → Bool)
        → any p (found_for s no_session result.relations) ≡ true
        → any p (resolve_metadata folding resolver cancelled_at default_schema result).unresolved
          ≡ true =
      λ p h. sort_unresolved-any p _ (found_for s no_session result.relations) _ h in
    All-imp result.relations
      (λ rel among bound. record {
        cancelled =
            λ h. settle _ (among _ (cancelled-Finds s rel bound (λ n. ap (λ f. f n) b ∙ h n)));
        live = λ u h.
            settle _
              (among _ (live-Finds s rel bound (unknown_in rel u) (λ n. ap (λ f. f n) b ∙ h n)));
        unknown = λ u. settle _ (among _ (unknown-Finds s rel bound (unknown_in rel u)));
      })
      (relations-any s no_session result.relations tt)
