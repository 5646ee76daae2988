-- ===== src/RateLimit/Lockout.antt =====
-- When an address is locked out.
use xkvm.Base.{
  ℕ, ◌+◌, ◌≤◌, ◌<◌, ◌≡◌, refl, sym, ap, ◌∙◌, ◌≢◌, inl, inr, true, List, [], ◌∷◌, ◌++◌, append_assoc,
  append-nil, arith, if◌then◌else◌, Bool-cases, Option-cases, unwrap_or, length, All, length-append,
  All-append, nat_eq, lookup, lookup-insert, lookup-insert_self, text_eq,
}
use xkvm.RateLimit.{
  IpAddr, ip_beq, ip_beq_iff, ip_eq, rate_limit_window, RateLimitEntry, no_failures, Limiter,
  until_passed, is_rate_limited, retain_recent, fail_entry, record_pairing_failure,
}

pub length-retain_recent : (now : ℕ) (ts : List ℕ) → length (retain_recent now ts) ≤ length ts
unfolding retain_recent
length-retain_recent now [] = omega arith
length-retain_recent now (t ∷ ts) = ground (arith, length-retain_recent now ts)

-- A failure of one address leaves what is known of every other address.
pub record_pairing_failure_other :
    (now t : ℕ) (limiter : Limiter) (ip other : IpAddr)
    → ip ≢ other
    → is_rate_limited t (record_pairing_failure now limiter ip) other
      ≡ is_rate_limited t limiter other
unfolding is_rate_limited record_pairing_failure
record_pairing_failure_other now t limiter ip other h = ground (
  arith,
  ip_beq_iff ip other,
  lookup-insert ip other (fail_entry now (unwrap_or (lookup ip limiter) no_failures)) limiter,
)

-- What is on record of an address; an address that is not on record has no failures.
abbrev pub entry_of : Limiter → IpAddr → RateLimitEntry
entry_of limiter ip = unwrap_or (lookup ip limiter) no_failures

-- The entry after a failure at each of the given times, and the limiter.
unfoldable pub fail_entry_at : List ℕ → RateLimitEntry → RateLimitEntry
fail_entry_at [] entry = entry
fail_entry_at (now ∷ times) entry = fail_entry_at times (fail_entry now entry)

-- The limiter after a failure of each of the given addresses at its time.
unfoldable pub record_failures : List (ℕ × IpAddr) → Limiter → Limiter
record_failures [] limiter = limiter
record_failures ((now, ip) ∷ failures) limiter =
    record_failures failures (record_pairing_failure now limiter ip)

-- The times of the failures of one address.
unfoldable pub times_of : IpAddr → List (ℕ × IpAddr) → List ℕ
times_of ip [] = []
times_of ip ((now, other) ∷ failures) =
    if ip_beq other ip then now ∷ times_of ip failures else times_of ip failures

is_rate_limited-entry_of :
    (t : ℕ) (limiter : Limiter) (ip : IpAddr)
    → is_rate_limited t limiter ip ≡ until_passed t (entry_of limiter ip).blocked_until
unfolding is_rate_limited
is_rate_limited-entry_of t limiter ip = ground (arith, Option-cases (lookup ip limiter))

entry_of-record :
    (now : ℕ) (limiter : Limiter) (ip : IpAddr)
    → entry_of (record_pairing_failure now limiter ip) ip ≡ fail_entry now (entry_of limiter ip)
unfolding record_pairing_failure
entry_of-record now limiter ip =
    ap (λ o. unwrap_or o no_failures)
      (lookup-insert_self ip (fail_entry now (entry_of limiter ip)) limiter)

entry_of-record_other :
    (now : ℕ) (limiter : Limiter) (ip other : IpAddr)
    → ip ≢ other
    → entry_of (record_pairing_failure now limiter other) ip ≡ entry_of limiter ip
unfolding record_pairing_failure
entry_of-record_other now limiter ip other h = ground (
  arith,
  ip_beq_iff other ip,
  lookup-insert other ip (fail_entry now (entry_of limiter other)) limiter,
)

entry_of-record_failures :
    (failures : List (ℕ × IpAddr)) (ip : IpAddr) (limiter : Limiter)
    → entry_of (record_failures failures limiter) ip
      ≡ fail_entry_at (times_of ip failures) (entry_of limiter ip)
unfolding record_failures fail_entry_at times_of
entry_of-record_failures [] ip limiter = refl
entry_of-record_failures ((now, other) ∷ failures) ip limiter =
    let rest = entry_of-record_failures failures ip (record_pairing_failure now limiter other) in
    elim (Bool-cases (ip_beq other ip)) [
      | inl e ↦
          let same : other ≡ ip = (ip_beq_iff other ip).0 e in
          rw e (
            rest
            ∙ ap (fail_entry_at (times_of ip failures)) (
                ap (λ o. entry_of (record_pairing_failure now limiter o) ip) same
                ∙ entry_of-record now limiter ip))
      | inr e ↦ rw e (
          rest
          ∙ ap (fail_entry_at (times_of ip failures)) (
              entry_of-record_other now limiter ip other
                (λ (q : ip ≡ other). cc (e, (ip_beq_iff other ip).1 (sym q)))))
    ]

-- While an address is locked out, a failure of any address does not open it: at a time that is
-- within the window of the failure it stays locked out.
pub record_pairing_failure_locked :
    (now t : ℕ) (limiter : Limiter) (ip other : IpAddr)
    → t < now + rate_limit_window
    → is_rate_limited t limiter ip ≡ true
    → is_rate_limited t (record_pairing_failure now limiter other) ip ≡ true
unfolding fail_entry
record_pairing_failure_locked now t limiter ip other soon locked =
    let before = is_rate_limited-entry_of t limiter ip in
    elim (Bool-cases (ip_beq other ip)) [
      | inl e ↦
          let same : other ≡ ip = (ip_beq_iff other ip).0 e in
          let entry =
            ap (λ o. entry_of (record_pairing_failure now limiter o) ip) same
            ∙ entry_of-record now limiter ip in
          let still : until_passed t (fail_entry now (entry_of limiter ip)).blocked_until ≡ true =
            ground (arith, before, locked) in
          is_rate_limited-entry_of t (record_pairing_failure now limiter other) ip
          ∙ ap (λ (e : RateLimitEntry). until_passed t e.blocked_until) entry
          ∙ still
      | inr e ↦
          record_pairing_failure_other now t limiter other ip
            (λ (q : other ≡ ip). cc (e, (ip_beq_iff other ip).1 q))
          ∙ locked
    ]

-- The times that count at `now`.
abbrev pub AreRecent : ℕ → List ℕ → Type 0
AreRecent now = All (λ x. (x ≤ now) × (now < x + rate_limit_window))

retain_recent-append :
    (m : ℕ) (xs ys : List ℕ) → retain_recent m (xs ++ ys) ≡ retain_recent m xs ++ retain_recent m ys
unfolding retain_recent
retain_recent-append m [] ys = refl
retain_recent-append m (x ∷ xs) ys = ground (arith, retain_recent-append m xs ys)

retain_recent_all : (m now : ℕ) (xs : List ℕ) → m ≤ now → AreRecent now xs → retain_recent m xs ≡ xs
unfolding retain_recent
retain_recent_all m now [] h r = refl
retain_recent_all m now (x ∷ xs) h r = ground (arith, retain_recent_all m now xs h r.1)

-- Recent failures stay on record, behind older ones.
fail_entry_at-failures :
    (now : ℕ) (times pre xs : List ℕ) (entry : RateLimitEntry)
    → entry.failures ≡ pre ++ xs
    → AreRecent now xs
    → AreRecent now times
    → (old : List ℕ) × ((fail_entry_at times entry).failures ≡ old ++ (xs ++ times))
unfolding fail_entry_at fail_entry
fail_entry_at-failures now [] pre xs entry e r rs = (pre, rw append-nil e)
fail_entry_at-failures now (m ∷ times) pre xs entry e r rs =
    let kept : retain_recent m entry.failures ++ m ∷ [] ≡ retain_recent m pre ++ (xs ++ m ∷ []) =
      ap (λ l. retain_recent m l ++ m ∷ []) e
      ∙ ap (λ l. l ++ m ∷ [])
          (retain_recent-append m pre xs
            ∙ ap (λ l. retain_recent m pre ++ l) (retain_recent_all m now xs rs.0.0 r))
      ∙ append_assoc (retain_recent m pre) xs (m ∷ []) in
    let (old, same) =
      fail_entry_at-failures now times (retain_recent m pre) (xs ++ m ∷ []) (fail_entry m entry)
        kept (All-append (λ x. (x ≤ now) × (now < x + rate_limit_window)) xs (m ∷ []) r (rs.0, tt))
        rs.1 in
    (old, same ∙ ap (λ l. old ++ l) (append_assoc xs (m ∷ []) times))

fail_entry_blocks :
    (now t : ℕ) (entry : RateLimitEntry)
    → 4 ≤ length (retain_recent now entry.failures)
    → t < now + rate_limit_window
    → until_passed t (fail_entry now entry).blocked_until ≡ true
unfolding fail_entry
fail_entry_blocks now t entry h lt =
    let size = length-append (retain_recent now entry.failures) (now ∷ []) in ground arith

-- Whatever is on record, four failures that are still recent, among failures of any addresses, and
-- one at `now` lock the address out until the window after `now` is over.
pub fifth_failure_blocks :
    (failures : List (ℕ × IpAddr)) (now t : ℕ) (ip : IpAddr) (limiter : Limiter)
    → 4 ≤ length (times_of ip failures)
    → AreRecent now (times_of ip failures)
    → t < now + rate_limit_window
    → is_rate_limited t (record_pairing_failure now (record_failures failures limiter) ip) ip ≡ true
fifth_failure_blocks failures now t ip limiter h r lt =
    let times = times_of ip failures in
    let entry = entry_of limiter ip in
    let (old, same) =
      fail_entry_at-failures now times entry.failures [] entry (sym (append-nil _)) tt r in
    let after = fail_entry_at times entry in
    let kept : retain_recent now after.failures ≡ retain_recent now old ++ times =
      ap (retain_recent now) same
      ∙ retain_recent-append now old times
      ∙ ap (λ l. retain_recent now old ++ l) (retain_recent_all now now times (omega arith) r) in
    let size = ap length kept ∙ length-append (retain_recent now old) times in
    is_rate_limited-entry_of t (record_pairing_failure now (record_failures failures limiter) ip) ip
    ∙ ap (λ (e : RateLimitEntry). until_passed t e.blocked_until)
        (entry_of-record now (record_failures failures limiter) ip
          ∙ ap (fail_entry now) (entry_of-record_failures failures ip limiter))
    ∙ fail_entry_blocks now t after (omega arith) lt
