-- ===== src/Prelude/Ints.antt =====
-- Go's `int` where the code tests for negative values: comparison and order only.
use Prim.Native.Nat.{ℕ}
use mathlib.Core.Path.{◌≡◌}
use mathlib.Core.Logic.{◌↔◌}
use mathlib.Core.Bool.{Bool, true, false}
use native.Mathlib.Omega.{arith}
use delta_scope.Prelude.Tests.{Comparable, nat_beq, ltb}
use delta_scope.Prelude.Sort.{IsWeakOrder}

-- `negsuc n` is -(n + 1).
pub data ℤ : Type 0 where
  pos : ℕ → ℤ
  negsuc : ℕ → ℤ

abbrev pub int_beq : ℤ → ℤ → Bool
int_beq (pos m) (pos n) = nat_beq m n
int_beq (negsuc m) (negsuc n) = nat_beq m n
int_beq _ _ = false

abbrev pub int_lt : ℤ → ℤ → Bool
int_lt (pos m) (pos n) = ltb m n
int_lt (pos m) (negsuc n) = false
int_lt (negsuc m) (pos n) = true
int_lt (negsuc m) (negsuc n) = ltb n m

abbrev pub is_negative : ℤ → Bool
is_negative (pos n) = false
is_negative (negsuc n) = true

pub int_beq_iff : (a b : ℤ) → (int_beq a b ≡ true) ↔ (a ≡ b)
int_beq_iff a b = ground arith

instance abbrev pub comparable_int : Comparable ℤ
comparable_int = record { same = int_beq; same_iff = int_beq_iff }

pub int_lt-IsWeakOrder : {A : Type 0} (f : A → ℤ) → IsWeakOrder (λ (a b : A). int_lt (f a) (f b))
int_lt-IsWeakOrder f = record { asymm = λ a b h. ground arith; trans = λ a b c h k. ground arith }

pub int_lt_total : (a b : ℤ) → int_lt a b ≡ false → int_lt b a ≡ false → a ≡ b
int_lt_total a b h k = ground arith
