-- ===== src/RateLimit.antt =====
-- The lockout of a peer address after failed credentials: `RateLimitEntry`, `is_rate_limited` and
-- `record_pairing_failure` of server/src/server.rs, which server/src/socks5.rs shares. An `Instant`
-- is a number of milliseconds; `duration_since` stops at 0, as `-` on ℕ does.
pub mod Lockout
use xkvm.Base.{
  ℕ, zero, suc, ◌+◌, ◌-◌, ◌*◌, ◌/◌, ◌%◌, ◌^◌, ◌≤◌, ◌<◌, min, max, ◌≡◌, refl, sym, ap, ◌∙◌, ◌≢◌, ◌↔◌,
  ◌⊎◌, inl, inr, Bool, true, false, not, ◌&&◌, ◌||◌, Option, none, some, List, [], ◌∷◌, ◌++◌,
  append_assoc, append-nil, arith, subst, ltb, leb, ◌==◌, if◌then◌else◌, ltb→lt, lt→ltb, ltb→le,
  le→ltb, leb→le, le→leb, ==_iff, tests, Bool-cases, Option-cases, is_some, unwrap_or, ◌>>=◌,
  length, take, drop, All, length-append, take-append-drop, length-take, length-drop, take-append,
  drop-append, All-append, Eq, nat_eq, lookup, insert, remove, lookup-insert, lookup-insert_self,
  lookup-remove, contains, add, without, contains-add, contains-without, Text, codes, text_beq,
  text_beq_iff, text_eq, utf8, byte_len, is_whitespace,
}

-- `std::net::IpAddr`, by the number that the address stands for.
pub data IpAddr : Type 0 where
  v4 v6 : ℕ → IpAddr

unfoldable pub ip_beq : IpAddr → IpAddr → Bool
ip_beq (v4 a) (v4 b) = a == b
ip_beq (v6 a) (v6 b) = a == b
ip_beq _ _ = false

pub ip_beq_iff : (a b : IpAddr) → (ip_beq a b ≡ true) ↔ (a ≡ b)
unfolding ip_beq
ip_beq_iff (v4 a) (v4 b) = ground arith
ip_beq_iff (v4 a) (v6 b) = ground arith
ip_beq_iff (v6 a) (v4 b) = ground arith
ip_beq_iff (v6 a) (v6 b) = ground arith

instance abbrev pub ip_eq : Eq IpAddr
ip_eq = record { beq = ip_beq; beq_iff = ip_beq_iff }

-- 600 s, in milliseconds.
abbrev pub rate_limit_window : ℕ
rate_limit_window = 600000

abbrev pub rate_limit_max_failures : ℕ
rate_limit_max_failures = 5

pub record RateLimitEntry : Type 0 where
  pub failures : List ℕ
  pub blocked_until : Option ℕ

abbrev pub no_failures : RateLimitEntry
no_failures = record { failures = []; blocked_until = none }

abbrev pub Limiter : Type 0
Limiter = List (IpAddr × RateLimitEntry)

abbrev pub until_passed : ℕ → Option ℕ → Bool
until_passed now none = false
until_passed now (some until) = ltb now until

abbrev pub entry_limited : ℕ → Option RateLimitEntry → Bool
entry_limited now none = false
entry_limited now (some entry) = until_passed now entry.blocked_until

unfoldable pub is_rate_limited : ℕ → Limiter → IpAddr → Bool
is_rate_limited now limiter ip = entry_limited now (lookup ip limiter)

-- `failures.retain(|t| now.duration_since(*t) < RATE_LIMIT_WINDOW)`.
unfoldable pub retain_recent : ℕ → List ℕ → List ℕ
retain_recent now [] = []
retain_recent now (t ∷ ts) =
    if ltb (now - t) rate_limit_window then t ∷ retain_recent now ts else retain_recent now ts

-- The update of one entry by a failure at `now`.
unfoldable pub fail_entry : ℕ → RateLimitEntry → RateLimitEntry
fail_entry now entry =
    let failures = retain_recent now entry.failures ++ now ∷ [] in
    record {
      failures = failures;
      blocked_until =
          if leb rate_limit_max_failures (length failures)
          then some (now + rate_limit_window)
          else entry.blocked_until;
    }

unfoldable pub record_pairing_failure : ℕ → Limiter → IpAddr → Limiter
unfolding fail_entry
record_pairing_failure now limiter ip =
    insert ip (fail_entry now (unwrap_or (lookup ip limiter) no_failures)) limiter
