-- ===== src/Report/Actions/Groups.antt =====
-- The groups against the findings of the report: one for each rule ID, with the number of its
-- findings and its most urgent level.
use delta_scope.Prelude.{
  Bool, ℕ, suc, ◌+◌, ◌≤◌, ◌<◌, ◌≡◌, refl, sym, ap, ◌∙◌, true, false, ◌||◌, List, [], ◌∷◌, ◌++◌,
  Text, comparable_text, text_beq_iff, ◌==◌, ==_refl, ltb, if◌then◌else◌, map, contains, Unique,
  arith, All, All-imp, All-append, All-and,
}
use delta_scope.Rule.{Finding, Level, blocker}
use delta_scope.Report.{Report, StatementResult, statement_findings}
use delta_scope.Report.Actions.{
  ActionGroup, new_group, level_rank, record_finding, record_statement_index, Groups, upsert,
  group_statement, group_statements, group_global, groups_of,
}

-- The findings of one rule, and the rank of the most urgent of them; 4 where there is none.
abbrev pub count_id : Text → List Finding → ℕ
count_id id [] = 0
count_id id (f ∷ fs) = if f.rule_id == id then suc (count_id id fs) else count_id id fs

-- Whether the rule has a finding.
abbrev pub has_finding : Text → List Finding → Bool
has_finding id [] = false
has_finding id (f ∷ fs) = f.rule_id == id || has_finding id fs

has_finding-append :
    (id : Text) (fs gs : List Finding)
    → has_finding id (fs ++ gs) ≡ (has_finding id fs || has_finding id gs)
has_finding-append id [] gs = refl
has_finding-append id (f ∷ fs) gs = ground (arith, has_finding-append id fs gs)

abbrev min_rank : ℕ → ℕ → ℕ
min_rank a b = if ltb a b then a else b

abbrev pub best_rank_of : Text → List Finding → ℕ
best_rank_of id [] = 4
best_rank_of id (f ∷ fs) =
    if f.rule_id == id
    then min_rank (level_rank f.level) (best_rank_of id fs)
    else best_rank_of id fs

abbrev keys : Groups → List Text
keys groups = map (λ p. p.0) groups

-- Count and best rank of a rule's group.
abbrev view : Text → Groups → ℕ × ℕ
view id [] = (0, 4)
view id ((key, g) ∷ groups) = if key == id then (g.count, g.best_rank) else view id groups

abbrev IsRanked : ActionGroup → Type 0
IsRanked g = level_rank g.level ≡ g.best_rank

-- What both loops do to a group for one finding.
record Records (f : Finding) (change : ActionGroup → ActionGroup) : Type 0 where
  count : (g : ActionGroup) → (change g).count ≡ g.count + 1
  rank : (g : ActionGroup) → (change g).best_rank ≡ min_rank (level_rank f.level) g.best_rank
  ranked : (g : ActionGroup) → IsRanked g → IsRanked (change g)
  first : IsRanked (change new_group)

level_rank-lt : (l : Level) → level_rank l < 4
unfolding level_rank
level_rank-lt blocker = omega arith
level_rank-lt _ = omega arith

Records-statement :
    (index : ℕ) (f : Finding) → Records f (λ g. record_statement_index index (record_finding f g))
unfolding record_finding record_statement_index
Records-statement index f = record {
  count = λ g. ground arith;
  rank = λ g. ground arith;
  ranked = λ g h. ground arith;
  first = ground (arith, level_rank-lt f.level);
}

Records-global : (f : Finding) → Records f (λ g. record (record_finding f g) { has_global = true })
unfolding record_finding
Records-global f = record {
  count = λ g. ground arith;
  rank = λ g. ground arith;
  ranked = λ g h. ground arith;
  first = ground (arith, level_rank-lt f.level);
}

module _ (f : Finding) (change : ActionGroup → ActionGroup) (r : Records f change) where
  view-upsert :
      (id : Text) (groups : Groups)
      → view id (upsert f.rule_id change groups) ≡ (
          if f.rule_id == id
          then ((view id groups).0 + 1, min_rank (level_rank f.level) (view id groups).1)
          else view id groups)
  unfolding upsert
  view-upsert id [] = ground (arith, r.count new_group, r.rank new_group)
  view-upsert id ((key, g) ∷ groups) = ground (
    arith,
    r.count g,
    r.rank g,
    view-upsert id groups,
    text_beq_iff key f.rule_id,
    text_beq_iff key id,
    text_beq_iff f.rule_id id,
  )

  upsert-IsRanked :
      (groups : Groups)
      → All (λ p. IsRanked p.1) groups
      → All (λ p. IsRanked p.1) (upsert f.rule_id change groups)
  unfolding upsert
  upsert-IsRanked [] h = (r.first, tt)
  upsert-IsRanked ((key, g) ∷ groups) (p, h) =
      ground (arith, r.ranked g p, upsert-IsRanked groups h)

  contains-upsert :
      (id : Text) (groups : Groups)
      → contains id (keys (upsert f.rule_id change groups))
        ≡ (f.rule_id == id || contains id (keys groups))
  unfolding upsert
  contains-upsert id [] = ground (arith, text_beq_iff id f.rule_id, text_beq_iff f.rule_id id)
  contains-upsert id ((key, g) ∷ groups) = ground (
    arith,
    contains-upsert id groups,
    text_beq_iff key f.rule_id,
    text_beq_iff id key,
    text_beq_iff f.rule_id id,
  )

  upsert-Unique :
      (groups : Groups) → Unique (keys groups) → Unique (keys (upsert f.rule_id change groups))
  unfolding upsert
  upsert-Unique [] h = (refl, tt)
  upsert-Unique ((key, g) ∷ groups) (p, h) = ground (
    arith,
    upsert-Unique groups h,
    contains-upsert key groups,
    text_beq_iff key f.rule_id,
    text_beq_iff f.rule_id key,
  )

-- What the groups know of a rule after more findings.
abbrev bump : Text → Finding → ℕ × ℕ → ℕ × ℕ
bump id f v = if f.rule_id == id then (v.0 + 1, min_rank (level_rank f.level) v.1) else v

abbrev merge : Text → List Finding → ℕ × ℕ → ℕ × ℕ
merge id [] v = v
merge id (f ∷ fs) v = merge id fs (bump id f v)

merge-append :
    (id : Text) (fs gs : List Finding) (v : ℕ × ℕ)
    → merge id (fs ++ gs) v ≡ merge id gs (merge id fs v)
merge-append id [] gs v = refl
merge-append id (f ∷ fs) gs v = merge-append id fs gs (bump id f v)

merge_lem :
    (id : Text) (fs : List Finding) (n b : ℕ)
    → b ≤ 4
    → merge id fs (n, b) ≡ (n + count_id id fs, min_rank (best_rank_of id fs) b)
merge_lem id [] n b h = ground arith
merge_lem id (f ∷ fs) n b h =
    ground (arith, merge_lem id fs n b, merge_lem id fs (n + 1) (min_rank (level_rank f.level) b))

best_rank_of-le : (id : Text) (fs : List Finding) → best_rank_of id fs ≤ 4
best_rank_of-le id [] = omega arith
best_rank_of-le id (f ∷ fs) = ground (arith, best_rank_of-le id fs)

-- The facts that every loop keeps.
record IsGrouping (fs : List Finding) (before after : Groups) : Type 0 where
  views : (id : Text) → view id after ≡ merge id fs (view id before)
  ranked : All (λ p. IsRanked p.1) before → All (λ p. IsRanked p.1) after
  unique : Unique (keys before) → Unique (keys after)
  keeps : (id : Text) → contains id (keys before) ≡ true → contains id (keys after) ≡ true
  holds : All (λ f. contains f.rule_id (keys after) ≡ true) fs
  exact : (id : Text) → contains id (keys after) ≡ (has_finding id fs || contains id (keys before))

IsGrouping-nil : (groups : Groups) → IsGrouping [] groups groups
IsGrouping-nil groups = record {
  views = λ id. refl;
  ranked = λ h. h;
  unique = λ h. h;
  keeps = λ id h. h;
  holds = tt;
  exact = λ id. refl;
}

IsGrouping-append :
    {fs gs : List Finding} {a b c : Groups}
    → IsGrouping fs a b
    → IsGrouping gs b c
    → IsGrouping (fs ++ gs) a c
IsGrouping-append {fs} {gs} {a} h k = record {
  views =
      λ id. k.views id ∙ ap (merge id gs) (h.views id) ∙ sym (merge-append id fs gs (view id a));
  ranked = λ r. k.ranked (h.ranked r);
  unique = λ u. k.unique (h.unique u);
  keeps = λ id e. k.keeps id (h.keeps id e);
  holds = All-append _ fs gs (All-imp fs (λ f e. k.keeps f.rule_id e) h.holds) k.holds;
  exact = λ id. k.exact id ∙ ground (arith, h.exact id, has_finding-append id fs gs);
}

IsGrouping-upsert :
    (f : Finding) (change : ActionGroup → ActionGroup)
    → Records f change
    → (groups : Groups) → IsGrouping (f ∷ []) groups (upsert f.rule_id change groups)
IsGrouping-upsert f change r groups = record {
  views = λ id. view-upsert f change r id groups;
  ranked = upsert-IsRanked f change r groups;
  unique = upsert-Unique f change r groups;
  keeps = λ id e. ground (arith, contains-upsert f change r id groups);
  holds = (ground (arith, contains-upsert f change r f.rule_id groups, ==_refl f.rule_id), tt);
  exact = λ id. ground (arith, contains-upsert f change r id groups);
}

group_statement-IsGrouping :
    (index : ℕ) (fs : List Finding) (groups : Groups)
    → IsGrouping fs groups (group_statement index fs groups)
unfolding group_statement
group_statement-IsGrouping index [] groups = IsGrouping-nil groups
group_statement-IsGrouping index (f ∷ fs) groups =
    IsGrouping-append (IsGrouping-upsert f _ (Records-statement index f) groups)
      (group_statement-IsGrouping index fs _)

group_statements-IsGrouping :
    (index : ℕ) (ss : List StatementResult) (groups : Groups)
    → IsGrouping (statement_findings ss) groups (group_statements index ss groups)
unfolding group_statements
group_statements-IsGrouping index [] groups = IsGrouping-nil groups
group_statements-IsGrouping index (s ∷ ss) groups =
    IsGrouping-append (group_statement-IsGrouping (index + 1) s.findings groups)
      (group_statements-IsGrouping (index + 1) ss _)

group_global-IsGrouping :
    (fs : List Finding) (groups : Groups) → IsGrouping fs groups (group_global fs groups)
unfolding group_global
group_global-IsGrouping [] groups = IsGrouping-nil groups
group_global-IsGrouping (f ∷ fs) groups =
    IsGrouping-append (IsGrouping-upsert f _ (Records-global f) groups)
      (group_global-IsGrouping fs _)

abbrev pub report_findings : Report → List Finding
report_findings result = statement_findings result.statements ++ result.global_findings

groups_of-IsGrouping : (result : Report) → IsGrouping (report_findings result) [] (groups_of result)
unfolding groups_of
groups_of-IsGrouping result =
    IsGrouping-append (group_statements-IsGrouping 0 result.statements [])
      (group_global-IsGrouping result.global_findings _)

-- With unique keys a group is what its key shows.
other_keys :
    (id : Text) (groups : Groups)
    → contains id (keys groups) ≡ false
    → All (λ p. (id == p.0) ≡ false) groups
other_keys id [] h = tt
other_keys id ((key, g) ∷ groups) h = (ground arith, other_keys id groups (ground arith))

shown :
    (groups : Groups)
    → Unique (keys groups)
    → All (λ p. view p.0 groups ≡ (p.1.count, p.1.best_rank)) groups
shown [] h = tt
shown ((key, g) ∷ groups) (p, h) = (
  rw (==_refl key) refl,
  All-imp groups (λ q (ne, e). rw ne e)
      (All-and _ _ groups (other_keys key groups p) (shown groups h)),
)

abbrev pub IsGroup : List Finding → Text × ActionGroup → Type 0
IsGroup fs p = (p.1.count ≡ count_id p.0 fs) × (level_rank p.1.level ≡ best_rank_of p.0 fs)

-- Every group has the number of its rule's findings and their most urgent level; the rules of the
-- groups are unique, and those of all findings are there.
pub groups_of_lem :
    (result : Report)
    → All (IsGroup (report_findings result)) (groups_of result)
      × Unique (map (λ p. p.0) (groups_of result))
      × All
          (λ f. contains f.rule_id (map (λ p. p.0) (groups_of result)) ≡ true)
          (report_findings result)
groups_of_lem result =
    let fs = report_findings result in
    let g = groups_of-IsGrouping result in
    (
      All-imp (groups_of result)
          (λ p (e, r).
            let spec = g.views p.0 ∙ merge_lem p.0 fs 0 4 (omega arith) in
            let bound = best_rank_of-le p.0 fs in (ground arith, ground arith))
          (All-and _ _ (groups_of result) (shown (groups_of result) (g.unique tt)) (g.ranked tt)),
      g.unique tt,
      g.holds,
    )

-- A rule has a group exactly when the report has a finding of it.
pub groups_of_exact :
    (result : Report) (id : Text)
    → contains id (map (λ p. p.0) (groups_of result)) ≡ has_finding id (report_findings result)
groups_of_exact result id = (groups_of-IsGrouping result).exact id ∙ ground arith
