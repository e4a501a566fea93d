-- ===== src/Prelude/Ints.antt =====
-- Go's signed integers, without a bound.
use Prim.Native.Nat.{ℕ, ◌+◌, ◌-◌, ◌*◌, ◌/◌}
use mathlib.Core.Bool.{Bool, true, false}
use maglev.Prelude.Tests.{ltb, leb, eqb, Eq, if◌then◌else◌}
use mathlib.Core.Path.{◌≡◌, refl}
use mathlib.Core.Logic.{◌↔◌}
use native.Mathlib.Omega.{arith}

pub data ℤ : Type 0 where
  pos : ℕ → ℤ
  negsuc : ℕ → ℤ

abbrev pub sub_numbers : ℕ → ℕ → ℤ
sub_numbers a b = if leb b a then pos (a - b) else negsuc (b - a - 1)

-- `a - b`
unfoldable pub sub_int : ℤ → ℤ → ℤ
sub_int (pos a) (pos b) = sub_numbers a b
sub_int (pos a) (negsuc b) = pos (a + b + 1)
sub_int (negsuc a) (pos b) = negsuc (a + b)
sub_int (negsuc a) (negsuc b) = sub_numbers b a

-- `|a|`
unfoldable pub abs_int : ℤ → ℕ
abs_int (pos a) = a
abs_int (negsuc a) = a + 1

-- `a < b`
unfoldable pub lt_int : ℤ → ℤ → Bool
lt_int (pos a) (pos b) = ltb a b
lt_int (pos a) (negsuc b) = false
lt_int (negsuc a) (pos b) = true
lt_int (negsuc a) (negsuc b) = ltb b a

-- `a + b`
unfoldable pub add_int : ℤ → ℤ → ℤ
add_int (pos a) (pos b) = pos (a + b)
add_int (pos a) (negsuc b) = sub_numbers a (b + 1)
add_int (negsuc a) (pos b) = sub_numbers b (a + 1)
add_int (negsuc a) (negsuc b) = negsuc (a + b + 1)

-- `a * n`
unfoldable pub scale_int : ℤ → ℕ → ℤ
scale_int (pos a) n = pos (a * n)
scale_int (negsuc a) n = sub_numbers 0 ((a + 1) * n)

-- `a / n`, which Go rounds towards 0
unfoldable pub quot_int : ℤ → ℕ → ℤ
quot_int (pos a) n = pos (a / n)
quot_int (negsuc a) n = sub_numbers 0 ((a + 1) / n)

unfoldable pub int_beq : ℤ → ℤ → Bool
int_beq (pos a) (pos b) = eqb a b
int_beq (pos a) (negsuc b) = false
int_beq (negsuc a) (pos b) = false
int_beq (negsuc a) (negsuc b) = eqb a b

pub int_beq_iff : (a b : ℤ) → (int_beq a b ≡ true) ↔ (a ≡ b)
unfolding int_beq
int_beq_iff (pos a) (pos b) = ground arith
int_beq_iff (pos a) (negsuc b) = (λ h. cc h, λ h. cc h)
int_beq_iff (negsuc a) (pos b) = (λ h. cc h, λ h. cc h)
int_beq_iff (negsuc a) (negsuc b) = ground arith

pub lt_int_irrefl : (a : ℤ) → lt_int a a ≡ false
unfolding lt_int
lt_int_irrefl (pos n) = ground arith
lt_int_irrefl (negsuc n) = ground arith

-- b ≥ a > low is at least what low is at least
pub not_lt_int_below :
    (low a b : ℤ) → lt_int low a ≡ true → lt_int low b ≡ false → lt_int a b ≡ false
unfolding lt_int
not_lt_int_below (pos l) (pos a) (pos b) h k = ground arith
not_lt_int_below (pos l) (pos a) (negsuc b) h k = refl
not_lt_int_below (pos l) (negsuc a) b h k = absurd (cc h)
not_lt_int_below (negsuc l) a (pos b) h k = absurd (cc k)
not_lt_int_below (negsuc l) (pos a) (negsuc b) h k = refl
not_lt_int_below (negsuc l) (negsuc a) (negsuc b) h k = ground arith

pub add_int-sub_int : (t u : ℤ) → add_int t (sub_int u t) ≡ u
unfolding add_int sub_int
add_int-sub_int (pos t) (pos u) = ground arith
add_int-sub_int (pos t) (negsuc u) = ground arith
add_int-sub_int (negsuc t) (pos u) = ground arith
add_int-sub_int (negsuc t) (negsuc u) = ground arith

instance abbrev pub int_eq : Eq ℤ
int_eq = record { beq = int_beq; beq_iff = int_beq_iff }
