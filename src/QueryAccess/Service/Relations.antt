-- ===== src/QueryAccess/Service/Relations.antt =====
-- What becomes of the relations of a result in Service.Analyze.
use delta_scope.Prelude.{
  ◌≡◌, refl, sym, ap, ◌∙◌, Bool, false, ◌||◌, List, [], ◌∷◌, arith, any, any-sort_by, Option, none,
  some, inl, inr, Bool-cases, map, comparable_text, ◌==◌, text_beq, codes,
}
use delta_scope.QueryAccess.{relation_view, RelationReference, AccessResult}
use delta_scope.QueryAccess.Normalize.{sort_relations, sort_unresolved}
use delta_scope.QueryAccess.State.{
  has_view, has_unqualified_relation, unqualified, conclude, final_state, normalize_final_state,
  settle_state, reclassified,
}
use delta_scope.QueryAccess.State.Contract.{conclude-result}
use delta_scope.QueryAccess.Resolve.{ResolutionState, Session, no_session, traverse, new_state}
use delta_scope.QueryAccess.Resolve.Columns.{resolve_relation}
use delta_scope.QueryAccess.Resolve.Lineage.{resolve_metadata}
use delta_scope.QueryAccess.Effect.Eligibility.{Folding}
use delta_scope.QueryAccess.Proof.{Service, SchemaResolver}
use delta_scope.QueryAccess.Service.{
  Request, Context, blocked, is_unqualified, marked, enriched_by, resolver_of,
}
use delta_scope.QueryAccess.Service.Kept.{barriers-relations}

has_view-any :
    (rels : List RelationReference) → has_view rels ≡ any (λ rel. rel.kind == relation_view) rels
unfolding has_view
has_view-any [] = refl
has_view-any (rel ∷ rels) = ap (λ b. (rel.kind == relation_view) || b) (has_view-any rels)

has_unqualified-any :
    (rels : List RelationReference) → has_unqualified_relation rels ≡ any unqualified rels
unfolding has_unqualified_relation
has_unqualified-any [] = refl
has_unqualified-any (rel ∷ rels) = ap (λ b. unqualified rel || b) (has_unqualified-any rels)

pub has_view-sort_relations :
    (rels : List RelationReference) → has_view (sort_relations rels) ≡ has_view rels
unfolding sort_relations
has_view-sort_relations rels = has_view-any _ ∙ any-sort_by _ _ rels ∙ sym (has_view-any rels)

pub has_unqualified-sort_relations :
    (rels : List RelationReference)
    → has_unqualified_relation (sort_relations rels) ≡ has_unqualified_relation rels
unfolding sort_relations
has_unqualified-sort_relations rels =
    has_unqualified-any _ ∙ any-sort_by _ _ rels ∙ sym (has_unqualified-any rels)

settle_state-relations : (r : AccessResult) → (settle_state r).relations ≡ r.relations
unfolding settle_state
settle_state-relations r = ground arith

pub conclude-relations :
    (has_resolver allows_promotion : Bool) (r result : AccessResult)
    → conclude has_resolver allows_promotion r ≡ inr result
    → result.relations ≡ sort_relations r.relations
unfolding final_state normalize_final_state
conclude-relations has_resolver allows_promotion r result h =
    ap (λ (x : AccessResult). x.relations)
      (sym (conclude-result has_resolver allows_promotion r result h))
    ∙ settle_state-relations (reclassified has_resolver allows_promotion r)

settle_state-unresolved : (r : AccessResult) → (settle_state r).unresolved ≡ r.unresolved
unfolding settle_state
settle_state-unresolved r = ground arith

pub conclude-unresolved :
    (has_resolver allows_promotion : Bool) (r result : AccessResult)
    → conclude has_resolver allows_promotion r ≡ inr result
    → result.unresolved ≡ sort_unresolved r.unresolved
unfolding final_state normalize_final_state
conclude-unresolved has_resolver allows_promotion r result h =
    ap (λ (x : AccessResult). x.unresolved)
      (sym (conclude-result has_resolver allows_promotion r result h))
    ∙ settle_state-unresolved (reclassified has_resolver allows_promotion r)

-- The metadata give no base relation an empty schema.
resolve_relation-qualified :
    (s : ResolutionState) (m : Session) (rel : RelationReference)
    → unqualified rel ≡ false
    → unqualified ((resolve_relation s m rel).0.0) ≡ false
unfolding resolve_relation
resolve_relation-qualified s m rel h = ground (arith, h)

has_unqualified-resolved :
    (s : ResolutionState) (m : Session) (rels : List RelationReference)
    → has_unqualified_relation rels ≡ false
    → has_unqualified_relation (map (λ p. p.0) (traverse (resolve_relation s) m rels).0) ≡ false
unfolding has_unqualified_relation
has_unqualified-resolved s m [] h = refl
has_unqualified-resolved s m (rel ∷ rels) h = elim (Bool-cases (unqualified rel)) [
  | inl e ↦ ground arith
  | inr e ↦
      let first = resolve_relation-qualified s m rel e in
      let rest = has_unqualified-resolved s (resolve_relation s m rel).1 rels (ground arith) in
      rw (first, rest) refl
]

enriched_by-qualified :
    (folding : Folding) (resolver : Option SchemaResolver) (ctx : Context) (req : Request)
    (r : AccessResult)
    → has_unqualified_relation r.relations ≡ false
    → has_unqualified_relation (enriched_by folding resolver ctx req r).relations ≡ false
unfolding resolve_metadata
enriched_by-qualified folding none ctx req r h = h
enriched_by-qualified folding (some resolver) ctx req r h =
    has_unqualified-resolved
      (new_state folding (resolver req.dialect) ctx.at_resolution req.default_schema r.relations)
      no_session r.relations h

marked-same : (req : Request) (r : AccessResult) → is_unqualified req r ≡ false → marked req r ≡ r
marked-same req r h = rw h refl

blocked-relations :
    (folding : Folding) (s : Service) (ctx : Context) (req : Request) (r : AccessResult)
    → is_unqualified req r ≡ false
    → (blocked folding s ctx req r).relations
      ≡ (enriched_by folding (resolver_of s req) ctx req r).relations
unfolding blocked
blocked-relations folding s ctx req r h =
    barriers-relations (is_unqualified req r)
      (enriched_by folding (resolver_of s req) ctx req (marked req r))
    ∙ ap (λ m. (enriched_by folding (resolver_of s req) ctx req m).relations) (marked-same req r h)

-- Metadata and barriers leave a result without an unqualified base relation as it is in that.
pub is_unqualified-blocked :
    (folding : Folding) (s : Service) (ctx : Context) (req : Request) (r : AccessResult)
    → is_unqualified req r ≡ false
    → is_unqualified req (blocked folding s ctx req r) ≡ false
is_unqualified-blocked folding s ctx req r h =
    elim (Bool-cases (text_beq req.dialect (codes "postgresql"))) [
      | inr e ↦ rw e refl
      | inl e ↦
          let none_there =
            enriched_by-qualified folding (resolver_of s req) ctx req r (ground arith) in
          rw (e, blocked-relations folding s ctx req r h) none_there
    ]
