-- ===== src/Client/Hex.antt =====
-- Hexadecimal texts: `hex_encode` and `hex_decode` of client/src/config.rs, and the fingerprints of
-- certificates, `fingerprint_der` of client/src/tls.rs and server/src/tls.rs.
use xkvm.Base.{
  ℕ, ◌+◌, ◌-◌, ◌*◌, ◌/◌, ◌%◌, ◌<◌, ◌≡◌, refl, ap, ◌&&◌, Option, none, some, List, [], ◌∷◌, arith,
  ltb, leb, if◌then◌else◌, All, nat_eq, Text, text_eq, utf8,
}
use xkvm.Base.Bytes.{IsByte}
use xkvm.Base.{utf8_char}

-- The digits of `{:x}` and of `{:X}`.
abbrev hex_digit : ℕ → ℕ
hex_digit d = if ltb d 10 then b'0' + d else b'a' + (d - 10)

abbrev pub upper_digit : ℕ → ℕ
upper_digit d = if ltb d 10 then b'0' + d else b'A' + (d - 10)

unfoldable pub hex_encode : List ℕ → Text
hex_encode [] = []
hex_encode (b ∷ bytes) = hex_digit (b / 16) ∷ hex_digit (b % 16) ∷ hex_encode bytes

-- `char::to_digit(16)`.
unfoldable to_digit : ℕ → Option ℕ
to_digit c =
    if leb b'0' c && leb c b'9'
    then some (c - b'0')
    else if leb b'a' c && leb c b'f'
    then some (c - b'a' + 10)
    else if leb b'A' c && leb c b'F'
    then some (c - b'A' + 10)
    else none

-- One byte more, if both digits and the rest are hexadecimal.
abbrev push_byte : Option ℕ → Option ℕ → Option (List ℕ) → Option (List ℕ)
push_byte (some hi) (some lo) (some bytes) = some ((hi * 16 + lo) ∷ bytes)
push_byte _ _ _ = none

-- The bytes two at a time; an odd number of them is refused.
unfoldable decode_pairs : List ℕ → Option (List ℕ)
unfolding to_digit
decode_pairs [] = some []
decode_pairs (hi ∷ []) = none
decode_pairs (hi ∷ (lo ∷ s)) = push_byte (to_digit hi) (to_digit lo) (decode_pairs s)

unfoldable pub hex_decode : Text → Option (List ℕ)
unfolding decode_pairs
hex_decode s = decode_pairs (utf8 s)

to_digit-hex_digit : (d : ℕ) → d < 16 → to_digit (hex_digit d) ≡ some d
unfolding to_digit
to_digit-hex_digit d h = ground arith

utf8-hex_digit : (d : ℕ) → d < 16 → utf8_char (hex_digit d) ≡ hex_digit d ∷ []
unfolding utf8_char
utf8-hex_digit d h = ground arith

utf8-hex_encode : (bytes : List ℕ) → All IsByte bytes → utf8 (hex_encode bytes) ≡ hex_encode bytes
unfolding utf8 hex_encode
utf8-hex_encode [] h = refl
utf8-hex_encode (b ∷ bytes) (h, k) =
    rw
      (
        utf8-hex_digit (b / 16) (omega arith),
        utf8-hex_digit (b % 16) (omega arith),
        utf8-hex_encode bytes k,
      )
      refl

decode_pairs-hex_encode :
    (bytes : List ℕ) → All IsByte bytes → decode_pairs (hex_encode bytes) ≡ some bytes
unfolding hex_encode decode_pairs
decode_pairs-hex_encode [] h = refl
decode_pairs-hex_encode (b ∷ bytes) (h, k) =
    rw
      (
        to_digit-hex_digit (b / 16) (omega arith),
        to_digit-hex_digit (b % 16) (omega arith),
        decode_pairs-hex_encode bytes k,
      )
      (ap (λ c. some (c ∷ bytes)) (omega arith))

-- Decoding gives back the bytes that were encoded.
hex_decode-hex_encode :
    (bytes : List ℕ) → All IsByte bytes → hex_decode (hex_encode bytes) ≡ some bytes
unfolding hex_decode
hex_decode-hex_encode bytes h = rw (utf8-hex_encode bytes h) (decode_pairs-hex_encode bytes h)

-- The SHA-256 of a certificate: pairs of upper-case digits between colons.
unfoldable pub join_pairs : List ℕ → Text
join_pairs [] = []
join_pairs (b ∷ []) = upper_digit (b / 16) ∷ upper_digit (b % 16) ∷ []
join_pairs (b ∷ (c ∷ bytes)) =
    upper_digit (b / 16) ∷ upper_digit (b % 16) ∷ b':' ∷ join_pairs (c ∷ bytes)

unfoldable pub fingerprint_der : (List ℕ → List ℕ) → List ℕ → Text
unfolding join_pairs
fingerprint_der sha256 cert = join_pairs (sha256 cert)
