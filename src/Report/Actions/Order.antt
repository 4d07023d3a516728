-- ===== src/Report/Actions/Order.antt =====
-- The action summary as it is returned: its items, their order and the limit.
use delta_scope.Prelude.{
  ℕ, zero, suc, ◌<◌, ◌≡◌, refl, sym, ap, ◌∙◌, Unique, contains, comparable_text, Bool, ◌&&◌, List,
  [], ◌∷◌, Text, ltb, if◌then◌else◌, length, map, take, arith, All, sort_by-All, IsSorted,
  sort_by-IsSorted, IsWeakOrder, by_nat-IsWeakOrder, by_nat_down-IsWeakOrder, by_last-IsWeakOrder,
  length-sort_by, Bool-cases, inl, inr, length-map,
}
use delta_scope.Rule.{Finding}
use delta_scope.Report.{Report}
use delta_scope.Report.Actions.{
  Entry, ActionItem, ActionGroup, level_rank, to_action_item, more_urgent, sort_action_items,
  groups_of, build_action_summary,
}
use delta_scope.Report.Actions.Groups.{
  count_id, best_rank_of, report_findings, IsGroup, groups_of_lem, has_finding, groups_of_exact,
}

-- The item counts its rule's findings in the report and has their most urgent level.
abbrev pub IsItem : List Finding → ActionItem → Type 0
IsItem fs i = (i.count ≡ count_id i.rule_id fs) × (level_rank i.level ≡ best_rank_of i.rule_id fs)

pub more_urgent-IsWeakOrder : IsWeakOrder more_urgent
more_urgent-IsWeakOrder =
    by_nat-IsWeakOrder (λ i. level_rank i.level) _
      (by_nat_down-IsWeakOrder (λ i. i.count) _ (by_last-IsWeakOrder (λ i. i.rule_id)))

All-take {ℓ κ} : {A : Type ℓ} (P : A → Type κ) (n : ℕ) (xs : List A) → All P xs → All P (take n xs)
All-take P zero xs h = tt
All-take P (suc n) [] h = tt
All-take P (suc n) (x ∷ xs) (p, h) = (p, All-take P n xs h)

IsSorted-take {ℓ} :
    {A : Type ℓ} (less : A → A → Bool) (n : ℕ) (xs : List A)
    → IsSorted less xs
    → IsSorted less (take n xs)
IsSorted-take less zero xs h = tt
IsSorted-take less (suc n) [] h = tt
IsSorted-take less (suc n) (x ∷ xs) (p, h) = (All-take _ n xs p, IsSorted-take less n xs h)

length-take_lt {ℓ} : {A : Type ℓ} (n : ℕ) (xs : List A) → n < length xs → length (take n xs) ≡ n
length-take_lt zero xs h = refl
length-take_lt (suc n) [] h = absurd (omega arith)
length-take_lt (suc n) (x ∷ xs) h = omega (arith, length-take_lt n xs)

abbrev limited {ℓ} : {A : Type ℓ} → ℕ → List A → List A
limited n xs = if ltb 0 n && ltb n (length xs) then take n xs else xs

length-limited {ℓ} :
    {A : Type ℓ} (n : ℕ) (xs : List A)
    → length (limited n xs) ≡ (if ltb 0 n && ltb n (length xs) then n else length xs)
length-limited n xs = elim (Bool-cases (ltb 0 n && ltb n (length xs))) [
  | inl e ↦ rw e (length-take_lt n xs (ground arith))
  | inr e ↦ rw e refl
]

to_action_item-IsItem :
    (entries : List Entry) (fs : List Finding) (groups : List (Text × ActionGroup))
    → All (IsGroup fs) groups
    → All (IsItem fs) (map (to_action_item entries) groups)
unfolding to_action_item
to_action_item-IsItem entries fs [] h = tt
to_action_item-IsItem entries fs ((id, g) ∷ groups) (p, h) =
    (p, to_action_item-IsItem entries fs groups h)

abbrev all_items : Report → List Entry → List ActionItem
all_items result entries = sort_action_items (map (to_action_item entries) (groups_of result))

all_items-IsItem :
    (result : Report) (entries : List Entry)
    → All (IsItem (report_findings result)) (all_items result entries)
unfolding sort_action_items
all_items-IsItem result entries =
    sort_by-All more_urgent _ _
      (to_action_item-IsItem entries _ (groups_of result) (groups_of_lem result).0)

all_items-IsSorted :
    (result : Report) (entries : List Entry) → IsSorted more_urgent (all_items result entries)
unfolding sort_action_items
all_items-IsSorted result entries = sort_by-IsSorted more_urgent more_urgent-IsWeakOrder _

-- Whatever the catalog and the limit, every item of the action summary counts the findings of its
-- rule in the whole report and has their most urgent level, and the items are ordered by level, then
-- by falling count, then by rule ID.
pub build_action_summary-IsItem :
    (result : Report) (entries : List Entry) (limit : ℕ)
    → All (IsItem (report_findings result)) (build_action_summary result entries limit).items
      × IsSorted more_urgent (build_action_summary result entries limit).items
unfolding build_action_summary
build_action_summary-IsItem result entries limit =
    let items = all_items result entries in
    elim (Bool-cases (ltb 0 limit && ltb limit (length items))) [
      | inl e ↦ rw e (
        All-take _ limit items (all_items-IsItem result entries),
        IsSorted-take more_urgent limit items (all_items-IsSorted result entries),
      )
      | inr e ↦ rw e (all_items-IsItem result entries, all_items-IsSorted result entries)
    ]

-- The total is the number of rules that have a finding in the whole report, each counted once; a
-- positive limit bounds the items, and a limit of 0 or above the total drops none.
pub build_action_summary-limit :
    (result : Report) (entries : List Entry) (limit : ℕ)
    → (ids : List Text) × Unique ids
      × ((id : Text) → contains id ids ≡ has_finding id (report_findings result))
      × ((build_action_summary result entries limit).total_items ≡ length ids)
      × (length (build_action_summary result entries limit).items
          ≡ (if ltb 0 limit && ltb limit (length ids) then limit else length ids))
unfolding build_action_summary sort_action_items
build_action_summary-limit result entries limit =
    let ids = map (λ (p : Text × ActionGroup). p.0) (groups_of result) in
    let e : length (all_items result entries) ≡ length ids =
      length-sort_by more_urgent _
      ∙ length-map (to_action_item entries) (groups_of result)
      ∙ sym (length-map (λ (p : Text × ActionGroup). p.0) (groups_of result)) in
    (
      ids,
      (groups_of_lem result).1,
      groups_of_exact result,
      e,
      length-limited limit (all_items result entries)
          ∙ ap (λ n. if ltb 0 limit && ltb limit n then limit else n) e,
    )
