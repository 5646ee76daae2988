-- ===== src/Base/Bytes.antt =====
-- Big-endian words: `u32::to_be_bytes`, `u32::from_be_bytes` and `u16::from_be_bytes`.
use Prim.Native.Nat.{ℕ, ◌+◌, ◌*◌, ◌/◌, ◌%◌, ◌^◌, ◌<◌}
use mathlib.Core.Path.{◌≡◌, refl}
use mathlib.Core.List.{List, [], ◌∷◌}
use native.Mathlib.Omega.{arith}
use xkvm.Base.Lists.{length}

abbrev pub IsByte : ℕ → Type 0
IsByte b = b < 256

unfoldable pub u32_to_be : ℕ → List ℕ
u32_to_be n = (n / 16777216 % 256) ∷ (n / 65536 % 256) ∷ (n / 256 % 256) ∷ (n % 256) ∷ []

unfoldable pub u32_from_be : List ℕ → ℕ
u32_from_be (a ∷ b ∷ c ∷ d ∷ []) = a * 16777216 + b * 65536 + c * 256 + d
u32_from_be _ = 0

unfoldable pub u16_from_be : List ℕ → ℕ
u16_from_be (a ∷ b ∷ []) = a * 256 + b
u16_from_be _ = 0

pub u32_from_be-u32_to_be : (n : ℕ) → n < 2 ^ 32 → u32_from_be (u32_to_be n) ≡ n
unfolding u32_to_be u32_from_be
u32_from_be-u32_to_be n h = omega arith

pub length-u32_to_be : (n : ℕ) → length (u32_to_be n) ≡ 4
unfolding u32_to_be
length-u32_to_be n = refl
