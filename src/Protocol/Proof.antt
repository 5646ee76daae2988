-- ===== src/Protocol/Proof.antt =====
-- The pairing proof of common/src/lib.rs; SHA-256 is a parameter.
use xkvm.Base.{
  ℕ, ◌≡◌, refl, ◌↔◌, Bool, true, List, [], ◌∷◌, ◌++◌, arith, ◌==◌, length, nat_eq, Text, text_eq,
  utf8,
}
use Prim.Native.Nat.{bit_or, bit_xor}
use xkvm.Base.Bits.{bit_xor-zero_iff, bit_or-zero_iff}

-- The byte string that is hashed, and `pairing_proof`.
unfoldable pub pairing_input : Text → List ℕ → Text → List ℕ
pairing_input pin nonce fingerprint = utf8 pin ++ (0 ∷ (nonce ++ (0 ∷ utf8 fingerprint)))

unfoldable pub pairing_proof : (List ℕ → List ℕ) → Text → List ℕ → Text → List ℕ
unfolding pairing_input
pairing_proof sha256 pin nonce fingerprint = sha256 (pairing_input pin nonce fingerprint)

-- The loop of `proof_matches`, over the two arrays side by side: `diff |= x ^ y`.
unfoldable pub fold_diff : ℕ → List ℕ → List ℕ → ℕ
fold_diff diff [] b = diff
fold_diff diff (x ∷ a) [] = diff
fold_diff diff (x ∷ a) (y ∷ b) = fold_diff (bit_or diff (bit_xor x y)) a b

unfoldable pub proof_matches : List ℕ → List ℕ → Bool
unfolding fold_diff
proof_matches a b = fold_diff 0 a b == 0

-- The loop ends at 0 exactly if it starts at 0 and the arrays agree.
pub fold_diff-zero :
    (d : ℕ) (a b : List ℕ) → length a ≡ length b → (fold_diff d a b ≡ 0) ↔ ((d ≡ 0) × (a ≡ b))
unfolding fold_diff
fold_diff-zero d [] [] h = (λ z. (z, refl), λ z. z.0)
fold_diff-zero d [] (y ∷ b) h = absurd (omega arith)
fold_diff-zero d (x ∷ a) [] h = absurd (omega arith)
fold_diff-zero d (x ∷ a) (y ∷ b) h = ground (
  arith,
  fold_diff-zero (bit_or d (bit_xor x y)) a b,
  bit_or-zero_iff d (bit_xor x y),
  bit_xor-zero_iff x y,
)

-- For two arrays of one length, `proof_matches` holds exactly if they are equal.
pub proof_matches_iff : (a b : List ℕ) → length a ≡ length b → (proof_matches a b ≡ true) ↔ (a ≡ b)
unfolding proof_matches
proof_matches_iff a b h = ground (arith, fold_diff-zero 0 a b h)
