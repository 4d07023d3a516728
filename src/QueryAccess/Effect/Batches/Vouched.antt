-- ===== src/QueryAccess/Effect/Batches/Vouched.antt =====
-- What holds of the facts of every resolved item of a batch, through the steps of the batch.
use delta_scope.Prelude.{
  ℤ, ◌≡◌, refl, ap, ◌∙◌, subst, true, List, [], ◌∷◌, arith, Option, none, some, inl, inr,
  Bool-cases, All, All-imp, All-map, All-const, map, contains, sort_by-All, comparable_int, any,
  ◌==◌,
}
use delta_scope.QueryAccess.{IdentityStatus}
use delta_scope.QueryAccess.Effect.{EffectCandidate, IdentityFacts, IdentityItem}
use delta_scope.QueryAccess.Effect.Batches.{
  Batch, is_resolved, or_unavailable, sanitize, first_items, normalize_batch, item_at, candidate_at,
  item_or_unavailable, complete_batch,
}
use delta_scope.QueryAccess.Effect.Binding.{
  bound_to_candidate, bind_item, bind_facts, TypeOids, types_bound, bind_types_item,
  invalidate_item, invalidate_resolved, unexpected, bind_types,
}

-- A statement about the facts of an item with an ordinal.
abbrev pub Statement : Type 1
Statement = ℤ → IdentityFacts → Type 0

abbrev pub Holds : Statement → ℤ → Option IdentityFacts → Type 0
Holds G ordinal none = Unit
Holds G ordinal (some facts) = G ordinal facts

-- It holds of the facts of an item that is resolved.
abbrev pub Vouched : Statement → IdentityItem → Type 0
Vouched G it = is_resolved it.status ≡ true → Holds G it.ordinal it.facts

sanitize-same : (it : IdentityItem) → is_resolved (sanitize it).status ≡ true → it ≡ sanitize it
unfolding sanitize
sanitize-same it h = ground arith

-- What holds of an item if it is resolved.
abbrev pub Resolved : (IdentityItem → Type 0) → IdentityItem → Type 0
Resolved Q it = is_resolved it.status ≡ true → Q it

sanitize-Resolved :
    (Q : IdentityItem → Type 0) (it : IdentityItem) → Resolved Q it → Resolved Q (sanitize it)
sanitize-Resolved Q it v h = subst (Resolved Q) (sanitize-same it h) v h

module _ (P : IdentityItem → Type 0) (clean : (it : IdentityItem) → P it → P (sanitize it)) where
  pub first_items-All :
      (seen : List ℤ) (items : Batch) → All P items → All P (first_items seen items)
  unfolding first_items
  first_items-All seen [] h = tt
  first_items-All seen (it ∷ items) (p, h) = elim (Bool-cases (contains it.ordinal seen)) [
    | inl e ↦ rw e (first_items-All seen items h)
    | inr e ↦ rw e (clean it p, first_items-All (it.ordinal ∷ seen) items h)
  ]

  pub normalize_batch-All : (items : Batch) → All P items → All P (normalize_batch items)
  unfolding normalize_batch
  normalize_batch-All items h = first_items-All [] _ (sort_by-All _ P items h)

pub normalize_batch-Resolved :
    (Q : IdentityItem → Type 0) (items : Batch)
    → All (Resolved Q) items
    → All (Resolved Q) (normalize_batch items)
normalize_batch-Resolved Q = normalize_batch-All (Resolved Q) (sanitize-Resolved Q)

normalize_batch-Vouched :
    (G : Statement) (items : Batch)
    → All (Vouched G) items
    → All (Vouched G) (normalize_batch items)
normalize_batch-Vouched G = normalize_batch-Resolved (λ it. Holds G it.ordinal it.facts)

abbrev pub Both : Statement → Statement → Statement
Both G H ordinal facts = G ordinal facts × H ordinal facts

-- What a binding check has found.
abbrev pub IsBoundIn : List EffectCandidate → Statement
IsBoundIn cs ordinal facts = bound_to_candidate (candidate_at ordinal cs) facts ≡ true

abbrev pub AreTypesBound : TypeOids → List EffectCandidate → Statement
AreTypesBound types cs ordinal facts =
    types_bound types ordinal (candidate_at ordinal cs) facts ≡ true

Holds-Both :
    (G H : Statement) (ordinal : ℤ) (facts : Option IdentityFacts)
    → Holds G ordinal facts
    → Holds H ordinal facts
    → Holds (Both G H) ordinal facts
Holds-Both G H ordinal none g h = tt
Holds-Both G H ordinal (some facts) g h = (g, h)

-- A step that keeps a resolved item as it is, and only if a statement holds of its facts.
abbrev pub Checks : Statement → (IdentityItem → IdentityItem) → IdentityItem → Type 0
Checks H step it =
    is_resolved (step it).status ≡ true → (it ≡ step it) × Holds H it.ordinal it.facts

checked-Vouched :
    (G H : Statement) (step : IdentityItem → IdentityItem) (it : IdentityItem)
    → Checks H step it
    → Vouched G it
    → Vouched (Both G H) (step it)
checked-Vouched G H step it checks v h =
    let (same, k) = checks h in
    subst (λ i. Holds (Both G H) i.ordinal i.facts) same
      (Holds-Both G H it.ordinal it.facts
        (v (ap (λ (i : IdentityItem). is_resolved i.status) same ∙ h)) k)

bind_item-Checks :
    (cs : List EffectCandidate) (ordinal : ℤ) (status : IdentityStatus)
    (facts : Option IdentityFacts)
    → Checks
        (IsBoundIn cs)
        (bind_item cs)
        (record { ordinal = ordinal; status = status; facts = facts })
unfolding bind_item
bind_item-Checks cs ordinal status none h = (ground arith, tt)
bind_item-Checks cs ordinal status (some facts) h = (ground arith, ground arith)

bind_types_item-Checks :
    (types : TypeOids) (cs : List EffectCandidate) (ordinal : ℤ) (status : IdentityStatus)
    (facts : Option IdentityFacts)
    → Checks
        (AreTypesBound types cs)
        (bind_types_item types cs)
        (record { ordinal = ordinal; status = status; facts = facts })
unfolding bind_types_item
bind_types_item-Checks types cs ordinal status none h = (ground arith, tt)
bind_types_item-Checks types cs ordinal status (some facts) h = (ground arith, ground arith)

pub bind_facts-Vouched :
    (G : Statement) (cs : List EffectCandidate) (batch : Batch)
    → All (Vouched G) batch
    → All (Vouched (Both G (IsBoundIn cs))) (bind_facts cs batch)
unfolding bind_facts
bind_facts-Vouched G cs batch h =
    let H = Both G (IsBoundIn cs) in
    normalize_batch-Vouched H (map (bind_item cs) batch) (
      All-map (Vouched H) (bind_item cs) batch (
        All-imp batch
          (λ it v.
            checked-Vouched G (IsBoundIn cs) (bind_item cs) it
              (bind_item-Checks cs it.ordinal it.status it.facts) v)
          h))

invalidate_item-Vouched : (G : Statement) (it : IdentityItem) → Vouched G (invalidate_item it)
invalidate_item-Vouched G it h = ground arith

pub bind_types-Vouched :
    (G : Statement) (types : TypeOids) (cs : List EffectCandidate) (batch : Batch)
    → All (Vouched G) batch
    → All (Vouched (Both G (AreTypesBound types cs))) (bind_types types cs batch)
unfolding bind_types invalidate_resolved
bind_types-Vouched G types cs batch h =
    let T = AreTypesBound types cs in
    let H = Both G T in
    elim (Bool-cases (any (unexpected cs) types)) [
      | inl e ↦ rw e (
          normalize_batch-Vouched H (map invalidate_item batch) (
            All-map (Vouched H) invalidate_item batch
              (All-const (λ it. Vouched H (invalidate_item it)) (invalidate_item-Vouched H) batch)))
      | inr e ↦ rw e (
          normalize_batch-Vouched H (map (bind_types_item types cs) batch) (
            All-map (Vouched H) (bind_types_item types cs) batch (
              All-imp batch
                (λ it v.
                  checked-Vouched G T (bind_types_item types cs) it
                    (bind_types_item-Checks types cs it.ordinal it.status it.facts) v)
                h)))
    ]

module _ (P : IdentityItem → Type 0) where
  pub item_at-All :
      (ordinal : ℤ) (batch : Batch) (it : IdentityItem)
      → item_at ordinal batch ≡ some it
      → All P batch
      → P it
  item_at-All ordinal [] it e h = ground arith
  item_at-All ordinal (i ∷ batch) it e (p, h) = elim (Bool-cases (i.ordinal == ordinal)) [
    | inl same ↦ subst P (ground (arith, same, e)) p
    | inr other ↦ item_at-All ordinal batch it (ground (arith, other, e)) h
  ]

item_or_unavailable-Vouched :
    (G : Statement) (batch : Batch) (c : EffectCandidate)
    → All (Vouched G) batch
    → Vouched G (item_or_unavailable batch c)
item_or_unavailable-Vouched G batch c h = found (item_at c.ordinal batch) refl
  where
    found :
        (v : Option IdentityItem)
        → item_at c.ordinal batch ≡ v
        → Vouched G (or_unavailable c.ordinal v)
    found none e r = ground arith
    found (some it) e r = item_at-All (Vouched G) c.ordinal batch it e h r

pub complete_batch-Vouched :
    (G : Statement) (cs : List EffectCandidate) (batch : Batch)
    → All (Vouched G) batch
    → All (Vouched G) (complete_batch cs batch)
unfolding complete_batch
complete_batch-Vouched G cs batch h =
    normalize_batch-Vouched G (map (item_or_unavailable batch) cs) (
      All-map (Vouched G) (item_or_unavailable batch) cs (
        All-const (λ c. Vouched G (item_or_unavailable batch c))
          (λ c. item_or_unavailable-Vouched G batch c h) cs))
