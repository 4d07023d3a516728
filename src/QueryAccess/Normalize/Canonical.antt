-- ===== src/QueryAccess/Normalize/Canonical.antt =====
-- `normalize_reason_codes` gives one list for each set of reasons.
use delta_scope.Prelude.{
  ◌≡◌, refl, sym, ap, ◌∙◌, subst, Bool, true, false, ◌&&◌, ◌||◌, not, List, [], ◌∷◌, arith,
  comparable_text, ◌==◌, ==_refl, text_beq_iff, contains, Unique, inl, inr, Bool-cases, sort_by,
  insert_by, IsSorted, sort_by-IsSorted, by_last, by_last-IsWeakOrder, All, text_lt_asymm,
  text_lt_total,
}
use delta_scope.QueryAccess.{ReasonCode}
use delta_scope.QueryAccess.Normalize.{
  deduplicate_from, deduplicate_reason_codes, sort_reason_codes, normalize_reason_codes,
}

abbrev less : ReasonCode → ReasonCode → Bool
less = by_last (λ c. c)

contains-deduplicate_from :
    (x : ReasonCode) (seen cs : List ReasonCode)
    → contains x (deduplicate_from seen cs) ≡ (contains x cs && not (contains x seen))
unfolding deduplicate_from
contains-deduplicate_from x seen [] = ground arith
contains-deduplicate_from x seen (c ∷ cs) = elim (Bool-cases (x == c)) [
  | inl e ↦
      let same = ap (λ y. contains y seen) ((text_beq_iff x c).0 e) in
      ground (
        arith,
        e,
        same,
        contains-deduplicate_from x seen cs,
        contains-deduplicate_from x (c ∷ seen) cs,
      )
  | inr e ↦
      ground
        (arith, e, contains-deduplicate_from x seen cs, contains-deduplicate_from x (c ∷ seen) cs)
]

deduplicate_from-Unique : (seen cs : List ReasonCode) → Unique (deduplicate_from seen cs)
unfolding deduplicate_from
deduplicate_from-Unique seen [] = tt
deduplicate_from-Unique seen (c ∷ cs) = elim (Bool-cases (contains c seen)) [
  | inl e ↦ rw e (deduplicate_from-Unique seen cs)
  | inr e ↦
      let absent = contains-deduplicate_from c (c ∷ seen) cs in
      rw e (ground (arith, absent, ==_refl c), deduplicate_from-Unique (c ∷ seen) cs)
]

contains-insert_by :
    (x c : ReasonCode) (cs : List ReasonCode)
    → contains x (insert_by less c cs) ≡ (x == c || contains x cs)
unfolding insert_by
contains-insert_by x c [] = refl
contains-insert_by x c (d ∷ cs) = ground (arith, contains-insert_by x c cs)

contains-sort_by :
    (x : ReasonCode) (cs : List ReasonCode) → contains x (sort_by less cs) ≡ contains x cs
unfolding sort_by
contains-sort_by x [] = refl
contains-sort_by x (c ∷ cs) =
    contains-insert_by x c (sort_by less cs) ∙ ground (arith, contains-sort_by x cs)

insert_by-Unique :
    (c : ReasonCode) (cs : List ReasonCode)
    → contains c cs ≡ false
    → Unique cs
    → Unique (insert_by less c cs)
unfolding insert_by
insert_by-Unique c [] h u = (h, tt)
insert_by-Unique c (d ∷ cs) h (fresh, u) = elim (Bool-cases (less d c)) [
  | inl e ↦ rw e (
    contains-insert_by d c cs ∙ ground (arith, text_beq_iff c d, text_beq_iff d c),
    insert_by-Unique c cs (ground arith) u,
  )
  | inr e ↦ rw e (h, (fresh, u))
]

sort_by-Unique : (cs : List ReasonCode) → Unique cs → Unique (sort_by less cs)
unfolding sort_by
sort_by-Unique [] u = tt
sort_by-Unique (c ∷ cs) (fresh, u) =
    insert_by-Unique c (sort_by less cs) (contains-sort_by c cs ∙ fresh) (sort_by-Unique cs u)

pub contains-normalize_reason_codes :
    (x : ReasonCode) (cs : List ReasonCode) → contains x (normalize_reason_codes cs) ≡ contains x cs
unfolding normalize_reason_codes sort_reason_codes deduplicate_reason_codes
contains-normalize_reason_codes x cs =
    contains-sort_by x (deduplicate_from [] cs) ∙ contains-deduplicate_from x [] cs ∙ ground arith

less_irrefl : (d : ReasonCode) → less d d ≡ false
less_irrefl d = elim (Bool-cases (less d d)) [ inl e ↦ text_lt_asymm d d e | inr e ↦ e ]

All-contains :
    (P : ReasonCode → Type 0) (c : ReasonCode) (cs : List ReasonCode)
    → contains c cs ≡ true
    → All P cs
    → P c
All-contains P c [] h all = cc
All-contains P c (d ∷ cs) h (p, all) = elim (Bool-cases (c == d)) [
  | inl e ↦ subst P (sym ((text_beq_iff c d).0 e)) p
  | inr e ↦ All-contains P c cs (ground arith) all
]

head_least :
    (c d : ReasonCode) (ds : List ReasonCode)
    → contains c (d ∷ ds) ≡ true
    → All (λ y. less y d ≡ false) ds
    → less c d ≡ false
head_least c d ds h low = All-contains (λ y. less y d ≡ false) c (d ∷ ds) h (less_irrefl d, low)

tails_same :
    (x c d : ReasonCode) (cs ds : List ReasonCode)
    → c ≡ d
    → contains c cs ≡ false
    → contains d ds ≡ false
    → contains x (c ∷ cs) ≡ contains x (d ∷ ds)
    → contains x cs ≡ contains x ds
tails_same x c d cs ds e fresh fresh' same = elim (Bool-cases (x == c)) [
  | inl k ↦
      let x_c = (text_beq_iff x c).0 k in
      ap (λ y. contains y cs) x_c ∙ fresh ∙ sym (ap (λ y. contains y ds) (x_c ∙ e) ∙ fresh')
  | inr k ↦ let k' = ap (λ y. x == y) (sym e) ∙ k in ground (arith, k, k', same)
]

-- Two sorted lists without repetition that hold the same reasons are equal.
sorted_same :
    (cs ds : List ReasonCode)
    → IsSorted less cs
    → IsSorted less ds
    → Unique cs
    → Unique ds
    → ((x : ReasonCode) → contains x cs ≡ contains x ds)
    → cs ≡ ds
sorted_same [] [] s t u v same = refl
sorted_same [] (d ∷ ds) s t u v same = ground (arith, same d, ==_refl d)
sorted_same (c ∷ cs) [] s t u v same = ground (arith, same c, ==_refl c)
sorted_same (c ∷ cs) (d ∷ ds) (low, s) (low', t) (fresh, u) (fresh', v) same =
    let c_in = sym (same c) ∙ ground (arith, ==_refl c) in
    let d_in = same d ∙ ground (arith, ==_refl d) in
    let e = text_lt_total c d (head_least c d ds c_in low') (head_least d c cs d_in low) in
    let rest = sorted_same cs ds s t u v (λ x. tails_same x c d cs ds e fresh fresh' (same x)) in
    ap (λ y. y ∷ cs) e ∙ ap (λ ys. d ∷ ys) rest

normalize_reason_codes-IsSorted : (cs : List ReasonCode) → IsSorted less (normalize_reason_codes cs)
unfolding normalize_reason_codes sort_reason_codes
normalize_reason_codes-IsSorted cs = sort_by-IsSorted less (by_last-IsWeakOrder (λ c. c)) _

normalize_reason_codes-Unique : (cs : List ReasonCode) → Unique (normalize_reason_codes cs)
unfolding normalize_reason_codes sort_reason_codes deduplicate_reason_codes
normalize_reason_codes-Unique cs =
    sort_by-Unique (deduplicate_from [] cs) (deduplicate_from-Unique [] cs)

-- The public reasons depend on which reasons were given alone: two lists with the same reasons, in
-- any order and as often as they like, are normalized to the same list.
pub normalize_reason_codes_canonical :
    (cs ds : List ReasonCode)
    → ((x : ReasonCode) → contains x cs ≡ contains x ds)
    → normalize_reason_codes cs ≡ normalize_reason_codes ds
normalize_reason_codes_canonical cs ds same =
    sorted_same (normalize_reason_codes cs) (normalize_reason_codes ds)
      (normalize_reason_codes-IsSorted cs) (normalize_reason_codes-IsSorted ds)
      (normalize_reason_codes-Unique cs) (normalize_reason_codes-Unique ds)
      (λ x.
        contains-normalize_reason_codes x cs ∙ same x ∙ sym (contains-normalize_reason_codes x ds))
