-- ===== src/Base/Bits.antt =====
-- When an exclusive or, or an or, of two numbers is zero.
use Prim.Native.Nat.{ℕ, zero, suc, ◌/◌, ◌%◌, ◌≤◌, max, differ, digits, bit_or, bit_xor}
use Prim.Native.Nat.{bit_or-bitwise, bit_xor-bitwise}
use mathlib.Core.Path.{◌≡◌, refl, sym, ◌∙◌}
use mathlib.Core.Logic.{◌↔◌}
use native.Mathlib.Nat.{le_refl}
use native.Mathlib.Omega.{arith}

differ_eq : (a b : ℕ) → a ≤ 1 → b ≤ 1 → differ a b ≡ 0 → a ≡ b
differ_eq zero zero p q h = refl
differ_eq zero (suc zero) p q h = omega arith
differ_eq zero (suc (suc b)) p q h = omega arith
differ_eq (suc zero) zero p q h = omega arith
differ_eq (suc zero) (suc zero) p q h = refl
differ_eq (suc zero) (suc (suc b)) p q h = omega arith
differ_eq (suc (suc a)) b p q h = omega arith

differ_self : (a : ℕ) → a ≤ 1 → differ a a ≡ 0
differ_self zero p = refl
differ_self (suc zero) p = refl
differ_self (suc (suc a)) p = omega arith

xor_digits-zero : (n a b : ℕ) → a ≤ n → digits (λ y. y) differ n a b ≡ 0 → a ≡ b
xor_digits-zero zero zero b p h = sym h
xor_digits-zero zero (suc a) b p h = omega arith
xor_digits-zero (suc n) zero b p h = sym h
xor_digits-zero (suc n) (suc a) b p h =
    let high = xor_digits-zero n (suc a / 2) (b / 2) (omega arith) (omega arith) in
    let low = differ_eq (suc a % 2) (b % 2) (omega arith) (omega arith) (omega arith) in omega arith

xor_digits_self : (n a : ℕ) → a ≤ n → digits (λ y. y) differ n a a ≡ 0
xor_digits_self zero zero p = refl
xor_digits_self zero (suc a) p = omega arith
xor_digits_self (suc n) zero p = refl
xor_digits_self (suc n) (suc a) p =
    omega
      (arith, xor_digits_self n (suc a / 2) (omega arith), differ_self (suc a % 2) (omega arith))

or_digits-zero : (n a b : ℕ) → a ≤ n → digits (λ y. y) max n a b ≡ 0 → (a ≡ 0) × (b ≡ 0)
or_digits-zero zero zero b p h = (refl, h)
or_digits-zero zero (suc a) b p h = omega arith
or_digits-zero (suc n) zero b p h = (refl, h)
or_digits-zero (suc n) (suc a) b p h =
    let ih = or_digits-zero n (suc a / 2) (b / 2) (omega arith) (omega arith) in omega arith

pub bit_xor-zero_iff : (a b : ℕ) → (bit_xor a b ≡ 0) ↔ (a ≡ b)
bit_xor-zero_iff a b = (
  λ h. xor_digits-zero a a b (le_refl a) (sym (bit_xor-bitwise a b) ∙ h),
  λ h. (rw (← h) (bit_xor-bitwise a a ∙ xor_digits_self a a (le_refl a))),
)

pub bit_or-zero_iff : (a b : ℕ) → (bit_or a b ≡ 0) ↔ ((a ≡ 0) × (b ≡ 0))
bit_or-zero_iff a b = (
  λ h. or_digits-zero a a b (le_refl a) (sym (bit_or-bitwise a b) ∙ h),
  λ h. (rw (h.0, h.1) refl),
)
