-- ===== src/Client/Connect/Recognition.antt =====
-- Which certificates a pinned fingerprint of client/src/tls.rs accepts.
use xkvm.Base.{
  ℕ, ◌/◌, ◌%◌, ◌<◌, ◌≡◌, refl, sym, ap, ◌∙◌, ◌↔◌, true, some, List, [], ◌∷◌, arith, All, nat_eq,
  Text, text_eq,
}
use mathlib.Core.Bool.{false≢true}
use xkvm.Base.Bytes.{IsByte}
use xkvm.Client.Hex.{fingerprint_der, join_pairs, upper_digit}
use xkvm.Client.Handshake.{Env}
use xkvm.Client.Connect.{eq_ignore_ascii_case, verify_server_cert}

-- No character is a lower-case letter.
abbrev IsUpper : ℕ → Type 0
IsUpper c = c < b'a'

eq_ignore_ascii_case_self : (s : Text) → eq_ignore_ascii_case s s ≡ true
unfolding eq_ignore_ascii_case
eq_ignore_ascii_case_self [] = refl
eq_ignore_ascii_case_self (c ∷ s) = ground (arith, eq_ignore_ascii_case_self s)

eq_ignore_ascii_case-same :
    (s t : Text) → All IsUpper s → All IsUpper t → eq_ignore_ascii_case s t ≡ true → s ≡ t
unfolding eq_ignore_ascii_case
eq_ignore_ascii_case-same [] [] h k e = refl
eq_ignore_ascii_case-same [] (d ∷ t) h k e = absurd (false≢true e)
eq_ignore_ascii_case-same (c ∷ s) [] h k e = absurd (false≢true e)
eq_ignore_ascii_case-same (c ∷ s) (d ∷ t) (h, hs) (k, ks) e =
    let first : c ≡ d = ground arith in
    let rest : s ≡ t = eq_ignore_ascii_case-same s t hs ks (ground arith) in ground arith

upper_digit-same : (a b : ℕ) → a < 16 → b < 16 → upper_digit a ≡ upper_digit b → a ≡ b
upper_digit-same a b h k e = ground arith

byte-same :
    (a b : ℕ)
    → IsByte a
    → IsByte b
    → upper_digit (a / 16) ≡ upper_digit (b / 16)
    → upper_digit (a % 16) ≡ upper_digit (b % 16)
    → a ≡ b
byte-same a b h k hi lo =
    let same_hi = upper_digit-same (a / 16) (b / 16) (omega arith) (omega arith) hi in
    let same_lo = upper_digit-same (a % 16) (b % 16) (omega arith) (omega arith) lo in omega arith

upper_digit-IsUpper : (a : ℕ) → a < 16 → IsUpper (upper_digit a)
upper_digit-IsUpper a h = ground arith

join_pairs-IsUpper : (bytes : List ℕ) → All IsByte bytes → All IsUpper (join_pairs bytes)
unfolding join_pairs
join_pairs-IsUpper [] h = tt
join_pairs-IsUpper (b ∷ []) (h, hs) =
    (upper_digit-IsUpper (b / 16) (omega arith), (upper_digit-IsUpper (b % 16) (omega arith), tt))
join_pairs-IsUpper (b ∷ (c ∷ bytes)) (h, hs) = (
  upper_digit-IsUpper (b / 16) (omega arith),
  (upper_digit-IsUpper (b % 16) (omega arith), (omega arith, join_pairs-IsUpper (c ∷ bytes) hs)),
)

join_pairs-same :
    (xs ys : List ℕ) → All IsByte xs → All IsByte ys → join_pairs xs ≡ join_pairs ys → xs ≡ ys
unfolding join_pairs
join_pairs-same [] [] h k e = refl
join_pairs-same [] (b ∷ []) h k e = absurd (cc e)
join_pairs-same [] (b ∷ (d ∷ ys)) h k e = absurd (cc e)
join_pairs-same (a ∷ []) [] h k e = absurd (cc e)
join_pairs-same (a ∷ []) (b ∷ []) (h, hs) (k, ks) e =
    ap (λ x. x ∷ []) (byte-same a b h k (ground arith) (ground arith))
join_pairs-same (a ∷ []) (b ∷ (d ∷ ys)) h k e = absurd (cc e)
join_pairs-same (a ∷ (c ∷ xs)) [] h k e = absurd (cc e)
join_pairs-same (a ∷ (c ∷ xs)) (b ∷ []) h k e = absurd (cc e)
join_pairs-same (a ∷ (c ∷ xs)) (b ∷ (d ∷ ys)) (h, hs) (k, ks) e =
    let first = byte-same a b h k (ground arith) (ground arith) in
    let rest : c ∷ xs ≡ d ∷ ys = join_pairs-same (c ∷ xs) (d ∷ ys) hs ks (ground arith) in
    ground arith

-- The verifier with the fingerprint of a certificate accepts the certificates that have the same
-- SHA-256, if that is made of bytes and the upper case of a fingerprint is the fingerprint.
pub verify_server_cert_iff :
    (env : Env) (cert other : List ℕ)
    → ((c : List ℕ) → All IsByte (env.sha256 c))
    → env.casing.to_uppercase (fingerprint_der env.sha256 cert) ≡ fingerprint_der env.sha256 cert
    → (verify_server_cert env (some (fingerprint_der env.sha256 cert)) other ≡ true)
      ↔ (env.sha256 cert ≡ env.sha256 other)
unfolding verify_server_cert fingerprint_der
verify_server_cert_iff env cert other bytes upper = (
  λ accepted. join_pairs-same (env.sha256 cert) (env.sha256 other) (bytes cert) (bytes other) (
      eq_ignore_ascii_case-same (join_pairs (env.sha256 cert)) (join_pairs (env.sha256 other))
        (join_pairs-IsUpper (env.sha256 cert) (bytes cert))
        (join_pairs-IsUpper (env.sha256 other) (bytes other))
        (ap (λ t. eq_ignore_ascii_case t (join_pairs (env.sha256 other))) (sym upper) ∙ accepted)),
  λ same.
      ap (λ t. eq_ignore_ascii_case t (join_pairs (env.sha256 other))) upper
      ∙ (ap (λ h. eq_ignore_ascii_case (join_pairs h) (join_pairs (env.sha256 other))) same
          ∙ eq_ignore_ascii_case_self (join_pairs (env.sha256 other))),
)
