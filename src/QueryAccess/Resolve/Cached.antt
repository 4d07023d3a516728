-- ===== src/QueryAccess/Resolve/Cached.antt =====
-- resolve.go: what the cache of the resolution holds, and what becomes of a key that has no answer.
use delta_scope.Prelude.{
  ◌≡◌, refl, ◌∙◌, ◌||◌, List, [], ◌∷◌, Text, arith, none, some, inl, inr, Bool-cases, Option-cases,
  All, comparable_text, ◌==◌, text_beq_iff,
}
use delta_scope.QueryAccess.{RelationReference}
use delta_scope.QueryAccess.Resolve.{
  RelationSchema, Resolver, ResolutionState, Session, polled, cached_at, is_local, default_to,
  cache_key, resolve_schema,
}
use delta_scope.QueryAccess.Resolve.Columns.{resolve_relation}

-- No relation whose cache key this is has an answer.
abbrev pub IsUnknown : Resolver → Text → Type 0
IsUnknown resolver key =
    (schema name : Text) → cache_key schema name ≡ key → resolver schema name ≡ none

-- What the cache holds is an answer of the resolver, to a relation of that key.
abbrev pub IsAnswer : Resolver → Text × RelationSchema → Type 0
IsAnswer resolver (key, rs) =
    (schema : Text) × (name : Text) × (cache_key schema name ≡ key)
    × (resolver schema name ≡ some rs)

abbrev pub IsCache : ResolutionState → Session → Type 0
IsCache s m = All (IsAnswer s.resolver) m.cache

cached_at-IsAnswer :
    (resolver : Resolver) (key : Text) (cache : List (Text × RelationSchema)) (rs : RelationSchema)
    → All (IsAnswer resolver) cache
    → cached_at key cache ≡ some rs
    → IsAnswer resolver (key, rs)
cached_at-IsAnswer resolver key [] rs h e = ground (arith, e)
cached_at-IsAnswer resolver key ((j, r) ∷ cache) rs ((schema, name, k, a), h) e =
    elim (Bool-cases (j == key)) [
      | inl same ↦
          let found : some r ≡ some rs = ground (arith, same, e) in
          (schema, name, k ∙ (text_beq_iff j key).0 same, a ∙ found)
      | inr other ↦ cached_at-IsAnswer resolver key cache rs h (ground (arith, other, e))
    ]

cached_at-IsUnknown :
    (resolver : Resolver) (key : Text) (cache : List (Text × RelationSchema))
    → All (IsAnswer resolver) cache
    → IsUnknown resolver key
    → cached_at key cache ≡ none
cached_at-IsUnknown resolver key cache h unknown = elim (Option-cases (cached_at key cache)) [
  | inl e ↦ e
  | inr (rs, e) ↦
      let (schema, name, k, a) = cached_at-IsAnswer resolver key cache rs h e in
      ground (arith, a, unknown schema name k)
]

-- A relation of an unknown key is not found.
pub resolve_schema-unknown :
    (s : ResolutionState) (m : Session) (schema name : Text)
    → IsCache s m
    → IsUnknown s.resolver (cache_key (default_to s.default_schema schema) name)
    → (resolve_schema s m schema name).0 ≡ none
unfolding resolve_schema
resolve_schema-unknown s m schema name h unknown =
    let d = default_to s.default_schema schema in
    let key = cache_key d name in
    let uncached = cached_at-IsUnknown s.resolver key m.cache h unknown in
    let unanswered = unknown d name refl in
    elim (Bool-cases (s.cancelled_at m.polls)) [
      | inl e ↦ rw e refl
      | inr e ↦ rw (e, uncached, unanswered) refl
    ]

resolve_schema-IsCache :
    (s : ResolutionState) (m : Session) (schema name : Text)
    → IsCache s m
    → IsCache s (resolve_schema s m schema name).1
unfolding resolve_schema
resolve_schema-IsCache s m schema name h =
    let d = default_to s.default_schema schema in
    elim (Bool-cases (s.cancelled_at m.polls)) [
      | inl e ↦ rw e h
      | inr e ↦ elim (Option-cases (cached_at (cache_key d name) m.cache)) [
        | inr (rs, f) ↦ rw (e, f) h
        | inl f ↦ elim (Option-cases (s.resolver d name)) [
          | inl g ↦ rw (e, f, g) h
          | inr (rs, g) ↦ rw (e, f, g) ((d, name, refl, g), h)
        ]
      ]
    ]

pub resolve_relation-IsCache :
    (s : ResolutionState) (m : Session) (rel : RelationReference)
    → IsCache s m
    → IsCache s (resolve_relation s m rel).1
unfolding resolve_relation
resolve_relation-IsCache s m rel h =
    let d = default_to s.default_schema rel.schema in
    let kept = resolve_schema-IsCache s (polled m) d rel.name h in
    elim (Bool-cases (rel.unbound || is_local rel)) [
      | inl e ↦ rw e h
      | inr e ↦ elim (Bool-cases (s.cancelled_at m.polls)) [
        | inl f ↦ rw (e, f) h
        | inr f ↦ elim (Option-cases (resolve_schema s (polled m) d rel.name).0) [
          | inl g ↦ rw (e, f, g) kept
          | inr (rs, g) ↦ rw (e, f, g) kept
        ]
      ]
    ]
