-- ===== src/QueryAccess/Requirements/Steps.antt =====
-- Which requirements a list holds, and that no step of the loops or the sort drops one.
use delta_scope.Prelude.{
  ◌≡◌, refl, ◌∙◌, Bool, true, false, ◌&&◌, ◌||◌, List, [], ◌∷◌, ◌++◌, arith, Text, comparable_text,
  ◌==◌, ==_refl, any, contains, inl, inr, if◌then◌else◌, Bool-cases, ltb, length, sort_by,
  insert_by,
}
use delta_scope.QueryAccess.{RelationReference, ColumnReference, Requirement, Unresolved}
use delta_scope.QueryAccess.Normalize.{sort_requirements}
use delta_scope.QueryAccess.Requirements.{
  relation_requirement, column_requirement, unresolved_requirement, column_key, after_relation,
  after_column, relation_requirements, column_requirements, source_requirements,
  append_unresolved_requirements, source_is_unbound,
}

abbrev pub same : Requirement → Requirement → Bool
same r q = q.object == r.object && q.privilege == r.privilege

abbrev pub has : Requirement → List Requirement → Bool
has r = any (same r)

pub any-append :
    (p : Requirement → Bool) (xs ys : List Requirement) → any p (xs ++ ys) ≡ (any p xs || any p ys)
any-append p [] ys = refl
any-append p (x ∷ xs) ys = ground (arith, any-append p xs ys)

pub has-last : (r : Requirement) (reqs : List Requirement) → has r (reqs ++ r ∷ []) ≡ true
has-last r reqs =
    any-append (same r) reqs (r ∷ []) ∙ ground (arith, ==_refl r.object, ==_refl r.privilege)

pub any-more :
    (p : Requirement → Bool) (reqs : List Requirement) (q : Requirement)
    → any p reqs ≡ true
    → any p (reqs ++ q ∷ []) ≡ true
any-more p reqs q h = any-append p reqs (q ∷ []) ∙ ground (arith, h)

pub any-insert_by :
    (p : Requirement → Bool) (less : Requirement → Requirement → Bool) (q : Requirement)
    (reqs : List Requirement)
    → any p (insert_by less q reqs) ≡ (p q || any p reqs)
unfolding insert_by
any-insert_by p less q [] = refl
any-insert_by p less q (r ∷ reqs) = ground (arith, any-insert_by p less q reqs)

pub any-sort_by :
    (p : Requirement → Bool) (less : Requirement → Requirement → Bool) (reqs : List Requirement)
    → any p (sort_by less reqs) ≡ any p reqs
unfolding sort_by
any-sort_by p less [] = refl
any-sort_by p less (r ∷ reqs) =
    any-insert_by p less r (sort_by less reqs) ∙ ground (arith, any-sort_by p less reqs)

pub any-sort_requirements :
    (p : Requirement → Bool) (reqs : List Requirement)
    → any p reqs ≡ true
    → any p (sort_requirements reqs) ≡ true
unfolding sort_requirements
any-sort_requirements p reqs h = any-sort_by p _ reqs ∙ h

-- A loop that appends keeps what is there.
pub any-if :
    (p : Requirement → Bool) (b : Bool) (reqs : List Requirement) (q : Requirement)
    → any p reqs ≡ true
    → any p (if b then reqs else reqs ++ q ∷ []) ≡ true
any-if p true reqs q h = h
any-if p false reqs q h = any-more p reqs q h

pub relations-keep :
    (p : Requirement → Bool) (reqs : List Requirement) (rels : List RelationReference)
    → any p reqs ≡ true
    → any p (relation_requirements reqs rels) ≡ true
unfolding relation_requirements
relations-keep p reqs [] h = h
relations-keep p reqs (rel ∷ rels) h =
    relations-keep p (after_relation reqs rel) rels (any-if p _ reqs (relation_requirement rel) h)

pub unresolved-keep :
    (p : Requirement → Bool) (reqs : List Requirement) (us : List Unresolved)
    → any p reqs ≡ true
    → any p (append_unresolved_requirements reqs us) ≡ true
unfolding append_unresolved_requirements
unresolved-keep p reqs [] h = h
unresolved-keep p reqs (u ∷ us) h =
    unresolved-keep p (reqs ++ unresolved_requirement u ∷ []) us
      (any-more p reqs (unresolved_requirement u) h)

pub column-keeps :
    (names : List Text) (p : Requirement → Bool) (reqs : List Requirement) (col : ColumnReference)
    → any p reqs ≡ true
    → any p (after_column names reqs col) ≡ true
column-keeps names p reqs col h =
    let more = any-more p reqs (column_requirement (column_key col)) h in
    elim (Bool-cases col.unbound) [
      | inl e ↦ rw e h
      | inr e ↦ elim (Bool-cases (col.schema == [] && ltb 0 (length names))) [
        | inl k ↦ rw (e, k) h
        | inr k ↦ rw (e, k) more
      ]
    ]

pub columns-keep :
    (to_lower : Text → Text) (names : List Text) (p : Requirement → Bool) (reqs : List Requirement)
    (cols : List ColumnReference)
    → any p reqs ≡ true
    → any p (column_requirements to_lower names reqs cols) ≡ true
unfolding column_requirements
columns-keep to_lower names p reqs [] h = h
columns-keep to_lower names p reqs (col ∷ cols) h =
    columns-keep to_lower names p (after_column names reqs col) cols
      (column-keeps names p reqs col h)

pub sources-keep :
    (to_lower : Text → Text) (names seen : List Text) (p : Requirement → Bool)
    (reqs : List Requirement) (srcs : List Text)
    → any p reqs ≡ true
    → any p (source_requirements to_lower names seen reqs srcs) ≡ true
unfolding source_requirements
sources-keep to_lower names seen p reqs [] h = h
sources-keep to_lower names seen p reqs (src ∷ srcs) h =
    let skipped = sources-keep to_lower names seen p reqs srcs h in
    let kept =
      sources-keep to_lower names (src ∷ seen) p (reqs ++ column_requirement src ∷ []) srcs
        (any-more p reqs (column_requirement src) h) in
    elim (Bool-cases (source_is_unbound to_lower src names)) [
      | inl e ↦ rw e skipped
      | inr e ↦ elim (Bool-cases (contains src seen)) [
        | inl k ↦ rw (e, k) skipped
        | inr k ↦ rw (e, k) kept
      ]
    ]
