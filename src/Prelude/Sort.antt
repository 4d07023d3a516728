-- ===== src/Prelude/Sort.antt =====
-- `sort.SliceStable` and `sort.Slice` as a stable insertion sort by a Boolean comparator, and the
-- comparators that compare one key after another.
use Prim.Native.Nat.{ℕ}
use mathlib.Core.Path.{◌≡◌, refl, ap, ◌∙◌}
use mathlib.Core.Bool.{Bool, true, false, ◌||◌}
use mathlib.Core.Logic.{inl, inr}
use mathlib.Core.List.{List, [], ◌∷◌, Perm}
use mathlib.Core.List.Perm
use native.Mathlib.Omega.{arith}
use delta_scope.Prelude.Tests.{ltb, comparable_nat, ◌==◌, Bool-cases, if◌then◌else◌}
use delta_scope.Prelude.Lists.{All, All-imp, length, any}
use delta_scope.Prelude.Texts.{
  Text, comparable_text, text_lt, text_lt_asymm, text_lt_trans, text_lt_total, text_beq_iff,
}

-- What a comparator must satisfy for the sort to order by it.
pub record IsWeakOrder {ℓ} {A : Type ℓ} (less : A → A → Bool) : Type ℓ where
  pub asymm : (a b : A) → less a b ≡ true → less b a ≡ false
  pub trans : (a b c : A) → less b a ≡ false → less c b ≡ false → less c a ≡ false

module _ {ℓ} {A : Type ℓ} (less : A → A → Bool) where
  -- A new item goes before the items that it does not follow strictly: equal items keep their order.
  unfoldable pub insert_by : A → List A → List A
  insert_by x [] = x ∷ []
  insert_by x (y ∷ ys) = let later = y ∷ insert_by x ys in if less y x then later else x ∷ y ∷ ys

  unfoldable pub sort_by : List A → List A
  unfolding insert_by
  sort_by [] = []
  sort_by (x ∷ xs) = insert_by x (sort_by xs)

  abbrev pub IsSorted : List A → Type 0
  IsSorted [] = Unit
  IsSorted (x ∷ xs) = All (λ y. less y x ≡ false) xs × IsSorted xs

  insert_by-perm : (x : A) (ys : List A) → Perm (insert_by x ys) (x ∷ ys)
  unfolding insert_by
  insert_by-perm x [] = Perm.refl _
  insert_by-perm x (y ∷ ys) = elim (Bool-cases (less y x)) [
    | inl e ↦ rw e (Perm.trans (Perm.cons y (insert_by-perm x ys)) (Perm.swap x y ys))
    | inr e ↦ rw e (Perm.refl _)
  ]

  -- The sorted list holds the same items, as often.
  pub sort_by-perm : (xs : List A) → Perm (sort_by xs) xs
  unfolding sort_by
  sort_by-perm [] = Perm.refl _
  sort_by-perm (x ∷ xs) = Perm.trans (insert_by-perm x (sort_by xs)) (Perm.cons x (sort_by-perm xs))

  pub length-insert_by : (x : A) (ys : List A) → length (insert_by x ys) ≡ length (x ∷ ys)
  unfolding insert_by
  length-insert_by x [] = refl
  length-insert_by x (y ∷ ys) = ground (arith, length-insert_by x ys)

  pub length-sort_by : (xs : List A) → length (sort_by xs) ≡ length xs
  unfolding sort_by
  length-sort_by [] = refl
  length-sort_by (x ∷ xs) = ground (arith, length-insert_by x (sort_by xs), length-sort_by xs)

module _ {ℓ κ} {A : Type ℓ} (less : A → A → Bool) (P : A → Type κ) where
  insert_by-All : (x : A) (ys : List A) → P x → All P ys → All P (insert_by less x ys)
  unfolding insert_by
  insert_by-All x [] p h = (p, tt)
  insert_by-All x (y ∷ ys) p (q, h) = elim (Bool-cases (less y x)) [
    | inl e ↦ rw e (q, insert_by-All x ys p h)
    | inr e ↦ rw e (p, (q, h))
  ]

  pub sort_by-All : (xs : List A) → All P xs → All P (sort_by less xs)
  unfolding sort_by
  sort_by-All [] h = tt
  sort_by-All (x ∷ xs) (p, h) = insert_by-All x (sort_by less xs) p (sort_by-All xs h)

module _ {ℓ} {A : Type ℓ} (p : A → Bool) (less : A → A → Bool) where
  any-insert_by : (x : A) (ys : List A) → any p (insert_by less x ys) ≡ any p (x ∷ ys)
  unfolding insert_by
  any-insert_by x [] = refl
  any-insert_by x (y ∷ ys) = ground (arith, any-insert_by x ys)

  pub any-sort_by : (xs : List A) → any p (sort_by less xs) ≡ any p xs
  unfolding sort_by
  any-sort_by [] = refl
  any-sort_by (x ∷ xs) = any-insert_by x (sort_by less xs) ∙ ap (λ b. p x || b) (any-sort_by xs)

module _ {ℓ} {A : Type ℓ} (less : A → A → Bool) (w : IsWeakOrder less) where
  insert_by-IsSorted :
      (x : A) (ys : List A) → IsSorted less ys → IsSorted less (insert_by less x ys)
  unfolding insert_by
  insert_by-IsSorted x [] h = (tt, tt)
  insert_by-IsSorted x (y ∷ ys) (low, h) = elim (Bool-cases (less y x)) [
    | inl e ↦ rw e (
      insert_by-All less (λ z. less z y ≡ false) x ys (w.asymm y x e) low,
      insert_by-IsSorted x ys h,
    )
    | inr e ↦ rw e ((e, All-imp ys (λ z low_z. w.trans x y z e low_z) low), (low, h))
  ]

  -- No item of the result comes strictly before an earlier one.
  pub sort_by-IsSorted : (xs : List A) → IsSorted less (sort_by less xs)
  unfolding sort_by
  sort_by-IsSorted [] = tt
  sort_by-IsSorted (x ∷ xs) = insert_by-IsSorted x (sort_by less xs) (sort_by-IsSorted xs)

-- Comparators: `if a.f != b.f { return a.f < b.f }; rest`.
module _ {ℓ} {A : Type ℓ} where
  abbrev pub by_text : (A → Text) → (A → A → Bool) → A → A → Bool
  by_text f rest a b = if f a == f b then rest a b else text_lt (f a) (f b)

  abbrev pub by_nat : (A → ℕ) → (A → A → Bool) → A → A → Bool
  by_nat f rest a b = if f a == f b then rest a b else ltb (f a) (f b)

  -- `a.f > b.f` first: the larger number comes earlier.
  abbrev pub by_nat_down : (A → ℕ) → (A → A → Bool) → A → A → Bool
  by_nat_down f rest a b = if f a == f b then rest a b else ltb (f b) (f a)

  -- The last key: `return a.f < b.f`.
  abbrev pub by_last : (A → Text) → A → A → Bool
  by_last f a b = text_lt (f a) (f b)

  pub by_last-IsWeakOrder : (f : A → Text) → IsWeakOrder (by_last f)
  by_last-IsWeakOrder f = record {
    asymm = λ a b. text_lt_asymm (f a) (f b);
    trans = λ a b c h k. ground (arith, text_lt_total (f a) (f b), text_lt_trans (f c) (f a) (f b));
  }

  pub by_text-IsWeakOrder :
      (f : A → Text) (rest : A → A → Bool) → IsWeakOrder rest → IsWeakOrder (by_text f rest)
  by_text-IsWeakOrder f rest w = record {
    asymm = λ a b h. ground (
      arith,
      text_beq_iff (f a) (f b),
      text_beq_iff (f b) (f a),
      text_lt_asymm (f a) (f b),
      w.asymm a b,
    );
    trans = λ a b c h k. ground (
      arith,
      text_beq_iff (f b) (f a),
      text_beq_iff (f c) (f b),
      text_beq_iff (f c) (f a),
      text_lt_total (f a) (f b),
      text_lt_total (f b) (f c),
      text_lt_trans (f c) (f a) (f b),
      w.trans a b c,
    );
  }

  pub by_nat-IsWeakOrder :
      (f : A → ℕ) (rest : A → A → Bool) → IsWeakOrder rest → IsWeakOrder (by_nat f rest)
  by_nat-IsWeakOrder f rest w = record {
    asymm = λ a b h. ground (arith, w.asymm a b);
    trans = λ a b c h k. ground (arith, w.trans a b c);
  }

  pub by_nat_down-IsWeakOrder :
      (f : A → ℕ) (rest : A → A → Bool) → IsWeakOrder rest → IsWeakOrder (by_nat_down f rest)
  by_nat_down-IsWeakOrder f rest w = record {
    asymm = λ a b h. ground (arith, w.asymm a b);
    trans = λ a b c h k. ground (arith, w.trans a b c);
  }
