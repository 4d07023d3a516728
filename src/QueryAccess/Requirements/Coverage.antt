-- ===== src/QueryAccess/Requirements/Coverage.antt =====
-- What the requirements of a query cover, in both modes.
use delta_scope.Prelude.{
  ◌≡◌, refl, sym, ap, ◌∙◌, subst, Bool, true, false, ◌&&◌, ◌||◌, List, [], ◌∷◌, ◌++◌, arith, Text,
  comparable_text, ◌==◌, text_beq_iff, any, All, All-imp, contains, inl, inr, Bool-cases, ltb,
  length,
}
use delta_scope.QueryAccess.{
  strict_mode, projection_only, RelationReference, ColumnReference, OutputColumn, Requirement,
  Unresolved, WarningCode,
}
use delta_scope.QueryAccess.Normalize.{sort_requirements}
use delta_scope.QueryAccess.Requirements.{
  relation_requirement, column_requirement, unresolved_requirement, column_key, after_relation,
  after_column, relation_requirements, column_requirements, source_requirements,
  append_unresolved_requirements, build_unbound_names, build_requirements, source_is_unbound,
  all_sources,
}
use delta_scope.QueryAccess.Requirements.Steps.{
  same, has, has-last, any-more, any-sort_requirements, relations-keep, unresolved-keep,
  columns-keep, sources-keep,
}

-- A relation that is bound and bears a permission.
abbrev pub IsReadIn : List Requirement → RelationReference → Type 0
IsReadIn reqs rel =
    rel.unbound ≡ false
    → rel.permission_required ≡ true
    → has (relation_requirement rel) reqs ≡ true

relation_requirements-cover :
    (reqs : List Requirement) (rels : List RelationReference)
    → All (IsReadIn (relation_requirements reqs rels)) rels
unfolding relation_requirements
relation_requirements-cover reqs [] = tt
relation_requirements-cover reqs (rel ∷ rels) = (
  λ bound needed.
      relations-keep (same (relation_requirement rel)) (after_relation reqs rel) rels
        (rw (bound, needed) (has-last (relation_requirement rel) reqs)),
  relation_requirements-cover (after_relation reqs rel) rels,
)

append_unresolved_requirements-cover :
    (reqs : List Requirement) (us : List Unresolved)
    → All (λ u. has (unresolved_requirement u) (append_unresolved_requirements reqs us) ≡ true) us
unfolding append_unresolved_requirements
append_unresolved_requirements-cover reqs [] = tt
append_unresolved_requirements-cover reqs (u ∷ us) = (
  unresolved-keep (same (unresolved_requirement u)) (reqs ++ unresolved_requirement u ∷ []) us
      (has-last (unresolved_requirement u) reqs),
  append_unresolved_requirements-cover (reqs ++ unresolved_requirement u ∷ []) us,
)

-- A column that is bound and has a schema, or none where no relation is unbound.
abbrev pub IsColumnIn : List Text → List Requirement → ColumnReference → Type 0
IsColumnIn names reqs col =
    col.unbound ≡ false
    → (col.schema == [] && ltb 0 (length names)) ≡ false
    → has (column_requirement (column_key col)) reqs ≡ true

column_requirements-cover :
    (to_lower : Text → Text) (names : List Text) (reqs : List Requirement)
    (cols : List ColumnReference)
    → All (IsColumnIn names (column_requirements to_lower names reqs cols)) cols
unfolding column_requirements
column_requirements-cover to_lower names reqs [] = tt
column_requirements-cover to_lower names reqs (col ∷ cols) = (
  λ bound plain.
      columns-keep to_lower names (same (column_requirement (column_key col)))
        (after_column names reqs col) cols
        (rw (bound, plain) (has-last (column_requirement (column_key col)) reqs)),
  column_requirements-cover to_lower names (after_column names reqs col) cols,
)

abbrev pub IsIn : List Requirement → Text → Type 0
IsIn reqs key = has (column_requirement key) reqs ≡ true

contains-IsIn :
    (reqs : List Requirement) (key : Text) (seen : List Text)
    → contains key seen ≡ true
    → All (IsIn reqs) seen
    → IsIn reqs key
contains-IsIn reqs key [] h all = cc
contains-IsIn reqs key (k ∷ seen) h (p, all) = elim (Bool-cases (key == k)) [
  | inl e ↦ subst (IsIn reqs) (sym ((text_beq_iff key k).0 e)) p
  | inr e ↦ contains-IsIn reqs key seen (ground arith) all
]

module _ (to_lower : Text → Text) (names : List Text) where
  abbrev pub IsCovered : List Requirement → Text → Type 0
  IsCovered reqs src = source_is_unbound to_lower src names ≡ false → IsIn reqs src

  source_requirements-skip :
      (seen : List Text) (reqs : List Requirement) (src : Text) (srcs : List Text)
      → (source_is_unbound to_lower src names || contains src seen) ≡ true
      → source_requirements to_lower names seen reqs srcs
        ≡ source_requirements to_lower names seen reqs (src ∷ srcs)
  unfolding source_requirements
  source_requirements-skip seen reqs src srcs h =
      elim (Bool-cases (source_is_unbound to_lower src names)) [
        | inl e ↦ rw e refl
        | inr e ↦ let k = ap (λ b. b || contains src seen) (sym e) ∙ h in rw (e, k) refl
      ]

  source_requirements-keep :
      (seen : List Text) (reqs : List Requirement) (src : Text) (srcs : List Text)
      → source_is_unbound to_lower src names ≡ false
      → contains src seen ≡ false
      → source_requirements to_lower names (src ∷ seen) (reqs ++ column_requirement src ∷ []) srcs
        ≡ source_requirements to_lower names seen reqs (src ∷ srcs)
  unfolding source_requirements
  source_requirements-keep seen reqs src srcs e k = rw (e, k) refl

  source_requirements-cover :
      (seen : List Text) (reqs : List Requirement) (srcs : List Text)
      → All (IsIn reqs) seen
      → All (IsCovered (source_requirements to_lower names seen reqs srcs)) srcs
  source_requirements-cover seen reqs [] h = tt
  source_requirements-cover seen reqs (src ∷ srcs) h =
      let here = same (column_requirement src) in
      let more = reqs ++ column_requirement src ∷ [] in
      let goal : List Requirement → Type 0 = λ out. All (IsCovered out) (src ∷ srcs) in
      let rest = source_requirements-cover seen reqs srcs h in
      elim (Bool-cases (source_is_unbound to_lower src names)) [
        | inl e ↦
            subst goal (source_requirements-skip seen reqs src srcs (ground (arith, e)))
              (λ bound. ground (arith, e, bound), rest)
        | inr e ↦ elim (Bool-cases (contains src seen)) [
          | inl k ↦
              let there = contains-IsIn reqs src seen k h in
              subst goal (source_requirements-skip seen reqs src srcs (ground (arith, k)))
                (λ bound. sources-keep to_lower names seen here reqs srcs there, rest)
          | inr k ↦
              let added = has-last (column_requirement src) reqs in
              let kept =
                All-imp seen
                  (λ key p.
                    any-more (same (column_requirement key)) reqs (column_requirement src) p)
                  h in
              subst goal (source_requirements-keep seen reqs src srcs e k) (
                λ bound. sources-keep to_lower names (src ∷ seen) here more srcs added,
                source_requirements-cover (src ∷ seen) more srcs (added, kept),
              )
        ]
      ]

-- The end of both modes: what is there before the unresolved references stays.
module _ (us : List Unresolved) where
  abbrev finished : List Requirement → List Requirement
  finished reqs = sort_requirements (append_unresolved_requirements reqs us)

  finished-keeps :
      (p : Requirement → Bool) (reqs : List Requirement)
      → any p reqs ≡ true
      → any p (finished reqs) ≡ true
  finished-keeps p reqs h = any-sort_requirements p _ (unresolved-keep p reqs us h)

  finished-cover :
      (reqs : List Requirement)
      → All (λ u. has (unresolved_requirement u) (finished reqs) ≡ true) us
  finished-cover reqs =
      All-imp us
        (λ u h.
          any-sort_requirements (same (unresolved_requirement u))
            (append_unresolved_requirements reqs us) h)
        (append_unresolved_requirements-cover reqs us)

-- In strict mode the analysis always returns requirements, without a warning, and they cover every
-- bound relation that bears a permission, every bound column but those without a schema while some
-- relation is unbound, and every unresolved reference.
pub build_requirements-strict :
    (to_lower : Text → Text) (rels : List RelationReference) (cols : List ColumnReference)
    (outs : List OutputColumn) (us : List Unresolved)
    → (reqs : List Requirement) × (build_requirements to_lower strict_mode rels cols outs us
        ≡ inr (reqs, []))
      × All (IsReadIn reqs) rels
      × All (IsColumnIn (build_unbound_names to_lower rels) reqs) cols
      × All (λ u. has (unresolved_requirement u) reqs ≡ true) us
unfolding build_requirements
build_requirements-strict to_lower rels cols outs us =
    let names = build_unbound_names to_lower rels in
    let tables = relation_requirements [] rels in
    let reqs = column_requirements to_lower names tables cols in
    (
      finished us reqs,
      refl,
      All-imp rels
          (λ rel h b n.
            finished-keeps us (same (relation_requirement rel)) reqs
              (columns-keep to_lower names (same (relation_requirement rel)) tables cols (h b n)))
          (relation_requirements-cover [] rels),
      All-imp cols
          (λ col h b n. finished-keeps us (same (column_requirement (column_key col))) reqs (h b n))
          (column_requirements-cover to_lower names tables cols),
      finished-cover us reqs,
    )

-- In projection-only mode the analysis always returns requirements, and they cover every bound
-- relation that bears a permission, every source of an output that is not unbound, and every
-- unresolved reference.
pub build_requirements-projection :
    (to_lower : Text → Text) (rels : List RelationReference) (cols : List ColumnReference)
    (outs : List OutputColumn) (us : List Unresolved)
    → (reqs : List Requirement) × (warnings : List WarningCode) × (build_requirements to_lower
          projection_only rels cols outs us
        ≡ inr (reqs, warnings))
      × All (IsReadIn reqs) rels
      × All (IsCovered to_lower (build_unbound_names to_lower rels) reqs) (all_sources outs)
      × All (λ u. has (unresolved_requirement u) reqs ≡ true) us
unfolding build_requirements
build_requirements-projection to_lower rels cols outs us =
    let names = build_unbound_names to_lower rels in
    let tables = relation_requirements [] rels in
    let srcs = all_sources outs in
    let reqs = source_requirements to_lower names [] tables srcs in
    (
      finished us reqs,
      _,
      refl,
      All-imp rels
          (λ rel h b n.
            finished-keeps us (same (relation_requirement rel)) reqs (
              sources-keep to_lower names [] (same (relation_requirement rel)) tables srcs (h b n)))
          (relation_requirements-cover [] rels),
      All-imp srcs (λ src h b. finished-keeps us (same (column_requirement src)) reqs (h b))
          (source_requirements-cover to_lower names [] tables srcs tt),
      finished-cover us reqs,
    )
