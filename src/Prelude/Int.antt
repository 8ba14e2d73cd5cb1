-- ===== src/Prelude/Int.antt =====
-- Signed integers over the native numbers, as far as the program's comparison results need them.
use deploy_witness_cli.Prelude.{
  ℕ, zero, suc, ◌+◌, ◌-◌, ◌≡◌, Bool, true, false, arith, leb, ◌==◌, if◌then◌else◌,
}

-- `negsuc n` is -(n + 1).
pub data ℤ : Type 0 where
  pos : ℕ → ℤ
  negsuc : ℕ → ℤ

-- a - b, as an integer.
abbrev pub sub_ℕ : ℕ → ℕ → ℤ
sub_ℕ a b = if leb b a then pos (a - b) else negsuc (b - a - 1)

abbrev pub neg : ℤ → ℤ
neg (pos n) = sub_ℕ 0 n
neg (negsuc n) = pos (suc n)

pub neg-sub_ℕ : (a b : ℕ) → neg (sub_ℕ a b) ≡ sub_ℕ b a
neg-sub_ℕ a b = ground arith

abbrev pub sub : ℤ → ℤ → ℤ
sub (pos a) (pos b) = sub_ℕ a b
sub (pos a) (negsuc b) = pos (suc (a + b))
sub (negsuc a) (pos b) = negsuc (a + b)
sub (negsuc a) (negsuc b) = sub_ℕ b a

pub neg-sub : (a b : ℤ) → neg (sub a b) ≡ sub b a
neg-sub (pos a) (pos b) = neg-sub_ℕ a b
neg-sub (pos a) (negsuc b) = ground arith
neg-sub (negsuc a) (pos b) = ground arith
neg-sub (negsuc a) (negsuc b) = neg-sub_ℕ b a

abbrev pub is_zero : ℤ → Bool
is_zero (pos zero) = true
is_zero (pos (suc n)) = false
is_zero (negsuc n) = false

pub is_zero-sub_comm : (a b : ℤ) → is_zero (sub a b) ≡ is_zero (sub b a)
is_zero-sub_comm (pos a) (pos b) = ground arith
is_zero-sub_comm (pos a) (negsuc b) = ground arith
is_zero-sub_comm (negsuc a) (pos b) = ground arith
is_zero-sub_comm (negsuc a) (negsuc b) = ground arith

abbrev pub int_eq : ℤ → ℤ → Bool
int_eq (pos a) (pos b) = a == b
int_eq (negsuc a) (negsuc b) = a == b
int_eq (pos a) (negsuc b) = false
int_eq (negsuc a) (pos b) = false
