-- ===== src/QueryAccess/Effect/Batches/Complete.antt =====
-- Which ordinals a batch has behind its normalization and its completion.
use delta_scope.Prelude.{
  ℤ, int_lt, int_lt-IsWeakOrder, int_lt_total, int_beq_iff, ◌≡◌, refl, sym, ap, ◌∙◌, subst, Bool,
  true, false, ◌||◌, List, [], ◌∷◌, arith, Option, none, some, inl, inr, Bool-cases, All, All-imp,
  All-and, map, contains, any, any-sort_by, sort_by, sort_by-IsSorted, IsSorted, comparable_int,
  ◌==◌,
}
use delta_scope.QueryAccess.Effect.{EffectCandidate, IdentityItem}
use delta_scope.QueryAccess.Effect.Batches.{
  Batch, or_unavailable, sanitize, first_items, normalize_batch, item_at, item_or_unavailable,
  complete_batch, ordinals,
}
use delta_scope.QueryAccess.Effect.Batches.Vouched.{first_items-All}

abbrev earlier : IdentityItem → IdentityItem → Bool
earlier a b = int_lt a.ordinal b.ordinal

-- No ordinal is repeated, and they ascend.
abbrev pub IsAscending : Batch → Type 0
IsAscending [] = Unit
IsAscending (it ∷ items) = All (λ later. earlier it later ≡ true) items × IsAscending items

sanitize-ordinal : (it : IdentityItem) → (sanitize it).ordinal ≡ it.ordinal
unfolding sanitize
sanitize-ordinal it = ground arith

contains_same :
    (o j : ℤ) (seen : List ℤ) → (o == j) ≡ true → contains j seen ≡ true → contains o seen ≡ true
contains_same o j seen e h = subst (λ k. contains k seen ≡ true) (sym ((int_beq_iff o j).0 e)) h

ordinals-first_items :
    (o : ℤ) (seen : List ℤ) (items : Batch)
    → (contains o (ordinals (first_items seen items)) || contains o seen)
      ≡ (contains o (ordinals items) || contains o seen)
unfolding first_items
ordinals-first_items o seen [] = refl
ordinals-first_items o seen (it ∷ items) = elim (Bool-cases (contains it.ordinal seen)) [
  | inl e ↦
      let rest = ordinals-first_items o seen items in
      elim (Bool-cases (o == it.ordinal)) [
        | inl same ↦
            let there = contains_same o it.ordinal seen same e in rw e (ground (arith, there))
        | inr other ↦ rw (e, other) rest
      ]
  | inr e ↦
      let rest = ordinals-first_items o (it.ordinal ∷ seen) items in
      let kept = ap (λ j. o == j) (sanitize-ordinal it) in rw e (ground (arith, kept, rest))
]

ordinals-any :
    (o : ℤ) (items : Batch) → contains o (ordinals items) ≡ any (λ it. o == it.ordinal) items
ordinals-any o [] = refl
ordinals-any o (it ∷ items) = ap (λ b. (o == it.ordinal) || b) (ordinals-any o items)

pub ordinals-normalize_batch :
    (o : ℤ) (items : Batch)
    → contains o (ordinals (normalize_batch items)) ≡ contains o (ordinals items)
unfolding normalize_batch
ordinals-normalize_batch o items =
    let first = ordinals-first_items o [] (sort_by earlier items) in
    let sorted =
      ordinals-any o (sort_by earlier items)
      ∙ any-sort_by (λ it. o == it.ordinal) earlier items
      ∙ sym (ordinals-any o items) in
    ground (arith, first, sorted)

first_items-fresh :
    (seen : List ℤ) (items : Batch)
    → All (λ it. contains it.ordinal seen ≡ false) (first_items seen items)
unfolding first_items
first_items-fresh seen [] = tt
first_items-fresh seen (it ∷ items) = elim (Bool-cases (contains it.ordinal seen)) [
  | inl e ↦ rw e (first_items-fresh seen items)
  | inr e ↦ rw e (
    ap (λ j. contains j seen) (sanitize-ordinal it) ∙ e,
    All-imp (first_items (it.ordinal ∷ seen) items) (λ i h. ground (arith, h))
        (first_items-fresh (it.ordinal ∷ seen) items),
  )
]

not_before-sanitize :
    (x : IdentityItem) (it : IdentityItem) → earlier it x ≡ false → earlier (sanitize it) x ≡ false
not_before-sanitize x it h = ap (λ j. int_lt j x.ordinal) (sanitize-ordinal it) ∙ h

strictly_before : (a b : ℤ) → int_lt b a ≡ false → (b == a) ≡ false → int_lt a b ≡ true
strictly_before a b later other = elim (Bool-cases (int_lt a b)) [
  | inl e ↦ e
  | inr e ↦ ground (arith, other, (int_beq_iff b a).1 (int_lt_total b a later e))
]

first_items-IsAscending :
    (seen : List ℤ) (items : Batch) → IsSorted earlier items → IsAscending (first_items seen items)
unfolding first_items
first_items-IsAscending seen [] h = tt
first_items-IsAscending seen (it ∷ items) (low, h) = elim (Bool-cases (contains it.ordinal seen)) [
  | inl e ↦ rw e (first_items-IsAscending seen items h)
  | inr e ↦
      let kept = first_items (it.ordinal ∷ seen) items in
      let after =
        first_items-All (λ i. earlier i it ≡ false) (not_before-sanitize it) (it.ordinal ∷ seen)
          items low in
      let fresh = first_items-fresh (it.ordinal ∷ seen) items in
      rw e (
        All-imp kept
            (λ i (p, q).
              ap (λ j. int_lt j i.ordinal) (sanitize-ordinal it)
              ∙ strictly_before it.ordinal i.ordinal p (ground (arith, q)))
            (All-and (λ i. earlier i it ≡ false)
              (λ i. contains i.ordinal (it.ordinal ∷ seen) ≡ false) kept after fresh),
        first_items-IsAscending (it.ordinal ∷ seen) items h,
      )
]

pub normalize_batch-IsAscending : (items : Batch) → IsAscending (normalize_batch items)
unfolding normalize_batch
normalize_batch-IsAscending items =
    first_items-IsAscending [] (sort_by earlier items)
      (sort_by-IsSorted earlier (int_lt-IsWeakOrder (λ (it : IdentityItem). it.ordinal)) items)

item_at-ordinal :
    (o : ℤ) (batch : Batch) (it : IdentityItem) → item_at o batch ≡ some it → it.ordinal ≡ o
item_at-ordinal o [] it e = ground arith
item_at-ordinal o (i ∷ batch) it e = elim (Bool-cases (i.ordinal == o)) [
  | inl same ↦
      let found : i ≡ it = ground (arith, same, e) in
      ap (λ (x : IdentityItem). x.ordinal) (sym found) ∙ (int_beq_iff i.ordinal o).0 same
  | inr other ↦ item_at-ordinal o batch it (ground (arith, other, e))
]

item_or_unavailable-ordinal :
    (batch : Batch) (c : EffectCandidate) → (item_or_unavailable batch c).ordinal ≡ c.ordinal
item_or_unavailable-ordinal batch c = found (item_at c.ordinal batch) refl
  where
    found :
        (v : Option IdentityItem)
        → item_at c.ordinal batch ≡ v
        → (or_unavailable c.ordinal v).ordinal ≡ c.ordinal
    found none e = refl
    found (some it) e = item_at-ordinal c.ordinal batch it e

ordinals-map :
    (batch : Batch) (cs : List EffectCandidate)
    → ordinals (map (item_or_unavailable batch) cs) ≡ map (λ (c : EffectCandidate). c.ordinal) cs
ordinals-map batch [] = refl
ordinals-map batch (c ∷ cs) = rw (item_or_unavailable-ordinal batch c, ordinals-map batch cs) refl

-- A completed batch has exactly one item for each ordinal of the candidates and no other, whatever
-- the batch had, and its ordinals ascend.
pub complete_batch_lem :
    (cs : List EffectCandidate) (batch : Batch)
    → IsAscending (complete_batch cs batch)
      × ((o : ℤ)
          → contains o (ordinals (complete_batch cs batch))
            ≡ contains o (map (λ (c : EffectCandidate). c.ordinal) cs))
unfolding complete_batch
complete_batch_lem cs batch =
    let items = map (item_or_unavailable batch) cs in
    (
      normalize_batch-IsAscending items,
      λ o. ordinals-normalize_batch o items ∙ ap (λ os. contains o os) (ordinals-map batch cs),
    )
