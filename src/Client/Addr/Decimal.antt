-- ===== src/Client/Addr/Decimal.antt =====
-- Decimal numbers in texts: `str::parse::<u16>` and the `Display` of a number below 10 ^ `fuel`.
use native.Mathlib.Nat.{pow-suc}
use xkvm.Base.{
  ℕ, zero, suc, ◌+◌, ◌-◌, ◌*◌, ◌/◌, ◌%◌, ◌^◌, ◌≤◌, ◌<◌, ◌≡◌, refl, ap, ◌∙◌, inl, inr, Bool, true,
  false, ◌&&◌, Option, none, some, [], ◌∷◌, ◌++◌, arith, ltb, leb, ◌==◌, if◌then◌else◌, ltb→lt,
  Bool-cases, Option-cases, ◌>>=◌, nat_eq, contains, contains-append, Text, text_eq,
}

abbrev pub is_digit : ℕ → Bool
is_digit c = leb b'0' c && leb c b'9'

-- One digit more, unless the value no longer fits 16 bits.
abbrev push_digit : ℕ → ℕ → Option ℕ
push_digit acc c =
    if is_digit c
    then (if leb (acc * 10 + (c - b'0')) 65535 then some (acc * 10 + (c - b'0')) else none)
    else none

unfoldable pub parse_digits : ℕ → Text → Option ℕ
parse_digits acc [] = some acc
parse_digits acc (c ∷ s) = push_digit acc c >>= λ acc'. parse_digits acc' s

-- A leading `+` is allowed, and there is at least one digit.
unfoldable pub parse_u16 : Text → Option ℕ
unfolding parse_digits
parse_u16 [] = none
parse_u16 (c ∷ []) = parse_digits 0 (c ∷ [])
parse_u16 (c ∷ (d ∷ s)) = if c == b'+' then parse_digits 0 (d ∷ s) else parse_digits 0 (c ∷ (d ∷ s))

unfoldable pub print_digits : (fuel : ℕ) → ℕ → Text
print_digits zero n = []
print_digits (suc fuel) n =
    let front = print_digits fuel (n / 10) in
    if ltb n 10 then (b'0' + n) ∷ [] else front ++ (b'0' + n % 10) ∷ []

-- A `u16` has at most five digits.
unfoldable pub print_u16 : ℕ → Text
unfolding print_digits
print_u16 n = print_digits 5 n

parse_digits-append :
    (acc : ℕ) (s : Text) (c : ℕ)
    → parse_digits acc (s ++ c ∷ []) ≡ (parse_digits acc s >>= λ a. push_digit a c)
unfolding parse_digits
parse_digits-append acc [] c = ground arith
parse_digits-append acc (d ∷ s) c = elim (Option-cases (push_digit acc d)) [
  | inl e ↦ rw e
  | inr (a, e) ↦ rw e (parse_digits-append a s c)
]

parse_digits-print_digits :
    (fuel n : ℕ)
    → n < 10 ^ fuel
    → n ≤ 65535
    → 0 < fuel
    → parse_digits 0 (print_digits fuel n) ≡ some n
unfolding print_digits
parse_digits-print_digits zero n h s p = absurd (omega arith)
parse_digits-print_digits (suc zero) n h s p = unfold parse_digits in ground arith
parse_digits-print_digits (suc (suc f)) n h s p = elim (Bool-cases (ltb n 10)) [
  | inl e ↦ rw e (unfold parse_digits in ground arith)
  | inr e ↦
      let bound : n / 10 < 10 ^ suc f = omega (arith, pow-suc 10 (suc f)) in
      let ih = parse_digits-print_digits (suc f) (n / 10) bound (omega arith) (omega arith) in
      rw e (
        parse_digits-append 0 (print_digits (suc f) (n / 10)) (b'0' + n % 10)
        ∙ ap (λ o. o >>= λ a. push_digit a (b'0' + n % 10)) ih
        ∙ ground arith)
]

-- What is printed ends in a digit, and begins with one.
print_digits-last :
    (fuel n : ℕ) → (front : Text) × (print_digits (suc fuel) n ≡ front ++ (b'0' + n % 10) ∷ [])
unfolding print_digits
print_digits-last fuel n = elim (Bool-cases (ltb n 10)) [
  | inl e ↦ ([], rw e (ap (λ c. c ∷ []) (omega (arith, ltb→lt n 10 e))))
  | inr e ↦ (print_digits fuel (n / 10), rw e refl)
]

pub print_u16-last : (n : ℕ) → (front : Text) × (print_u16 n ≡ front ++ (b'0' + n % 10) ∷ [])
unfolding print_u16
print_u16-last n = print_digits-last 4 n

abbrev StartsDigit : Text → Type 0
StartsDigit [] = ⊥
StartsDigit (c ∷ s) = is_digit c ≡ true

StartsDigit-append : (s t : Text) → StartsDigit s → StartsDigit (s ++ t)
StartsDigit-append [] t h = absurd h
StartsDigit-append (c ∷ s) t h = h

print_digits-StartsDigit : (fuel n : ℕ) → StartsDigit (print_digits (suc fuel) n)
unfolding print_digits
print_digits-StartsDigit zero n = elim (Bool-cases (ltb n 10)) [
  | inl e ↦ rw e (ground arith)
  | inr e ↦ rw e (ground arith)
]
print_digits-StartsDigit (suc fuel) n = elim (Bool-cases (ltb n 10)) [
  | inl e ↦ rw e (ground arith)
  | inr e ↦ rw e (
      StartsDigit-append (print_digits (suc fuel) (n / 10)) ((b'0' + n % 10) ∷ [])
        (print_digits-StartsDigit fuel (n / 10)))
]

parse_u16_of_StartsDigit : (s : Text) → StartsDigit s → parse_u16 s ≡ parse_digits 0 s
unfolding parse_u16
parse_u16_of_StartsDigit [] h = absurd h
parse_u16_of_StartsDigit (c ∷ []) h = refl
parse_u16_of_StartsDigit (c ∷ (d ∷ s)) h = ground arith

-- A printed port is parsed to itself.
pub parse_u16-print_u16 : (n : ℕ) → n ≤ 65535 → parse_u16 (print_u16 n) ≡ some n
unfolding print_u16
parse_u16-print_u16 n h =
    parse_u16_of_StartsDigit (print_digits 5 n) (print_digits-StartsDigit 4 n)
    ∙ parse_digits-print_digits 5 n (omega arith) h (omega arith)

parse_digits-le : (acc n : ℕ) (s : Text) → acc ≤ 65535 → parse_digits acc s ≡ some n → n ≤ 65535
unfolding parse_digits
parse_digits-le acc n [] a h = ground arith
parse_digits-le acc n (c ∷ s) a h = elim (Option-cases (push_digit acc c)) [
  | inl e ↦ absurd (ground arith)
  | inr (acc', e) ↦ parse_digits-le acc' n s (ground arith) (ground arith)
]

-- A number that was parsed fits 16 bits.
pub parse_u16-le : (s : Text) (n : ℕ) → parse_u16 s ≡ some n → n ≤ 65535
unfolding parse_u16
parse_u16-le [] n h = absurd (ground arith)
parse_u16-le (c ∷ []) n h = parse_digits-le 0 n (c ∷ []) (omega arith) h
parse_u16-le (c ∷ (d ∷ s)) n h = elim (Bool-cases (c == b'+')) [
  | inl e ↦ parse_digits-le 0 n (d ∷ s) (omega arith) (ground arith)
  | inr e ↦ parse_digits-le 0 n (c ∷ (d ∷ s)) (omega arith) (ground arith)
]

digit_ne : (c d : ℕ) → is_digit c ≡ false → d < 10 → contains c ((b'0' + d) ∷ []) ≡ false
unfolding contains
digit_ne c d h lt = ground arith

-- What is printed has digits only.
pub print_digits-contains :
    (c fuel n : ℕ) → is_digit c ≡ false → contains c (print_digits fuel n) ≡ false
unfolding print_digits
print_digits-contains c zero n h = unfold contains in refl
print_digits-contains c (suc fuel) n h = elim (Bool-cases (ltb n 10)) [
  | inl e ↦ rw e (digit_ne c n h (ltb→lt n 10 e))
  | inr e ↦ rw e (
      contains-append c (print_digits fuel (n / 10)) ((b'0' + n % 10) ∷ [])
      ∙ ground
          (arith, print_digits-contains c fuel (n / 10) h, digit_ne c (n % 10) h (omega arith)))
]

pub print_u16-contains : (c n : ℕ) → is_digit c ≡ false → contains c (print_u16 n) ≡ false
unfolding print_u16
print_u16-contains c n h = print_digits-contains c 5 n h
