-- ===== src/Server/Socks5/Relay.antt =====
-- `handle_client` of server/src/socks5.rs: the negotiation, the connection to the target, and the
-- relay between the two streams, which is an argument.
use xkvm.Base.{
  ℕ, ◌≡◌, refl, ◌≢◌, ◌⊎◌, inl, inr, Bool, true, false, Option, some, List, [], ◌∷◌, ◌++◌,
  if◌then◌else◌, Bool-cases, length, nat_eq, contains, Text, text_eq, utf8,
}
use xkvm.RateLimit.{IpAddr, Limiter, is_rate_limited, record_pairing_failure}
use xkvm.Server.Socks5.{
  socks5_version, Socks5Config, Bail, rate_limited, authentication_failed, Reply, ok, bail, Env,
  Connection,
}
use xkvm.Server.Socks5.Negotiation.{negotiate}
use xkvm.Server.Socks5.Answers.{negotiate_locked_out, negotiate_credentials}

-- How `copy_bidirectional` ends under the timeout.
pub data Relay : Type 0 where
  finished timed_out broken : Relay

pub data Ending : Type 0 where
  refused : Bail → Ending
  unreachable not_written relay_failed served : Ending

abbrev pub success_reply : List ℕ
success_reply = socks5_version ∷ 0 ∷ 0 ∷ 1 ∷ 0 ∷ 0 ∷ 0 ∷ 0 ∷ 0 ∷ 0 ∷ []

abbrev pub unreachable_reply : List ℕ
unreachable_reply = socks5_version ∷ 4 ∷ 0 ∷ 1 ∷ 0 ∷ 0 ∷ 0 ∷ 0 ∷ 0 ∷ 0 ∷ []

-- What a client leaves behind: its connection, the targets that were dialled, and the end.
pub record Served : Type 0 where
  pub connection : Connection
  pub dialled : List Text
  pub ending : Ending

module _ (env : Env) (connects : Text → Bool) (relay : Text → Relay) where
  abbrev end_of : Relay → Ending
  end_of finished = served
  end_of timed_out = served
  end_of broken = relay_failed

  -- A write whose failure is ignored.
  answered : List ℕ → Connection → Connection
  answered reply conn =
      if env.delivers (length conn.written)
      then record conn { written = conn.written ++ reply ∷ [] }
      else conn

  unfoldable on_target : Text → Connection → Served
  unfolding answered
  on_target target conn =
      if connects target
      then record {
        connection = answered success_reply conn;
        dialled = target ∷ [];
        ending = if env.delivers (length conn.written) then end_of (relay target) else not_written;
      }
      else record {
        connection = answered unreachable_reply conn;
        dialled = target ∷ [];
        ending = unreachable;
      }

  unfoldable on_reply : Connection × Reply → Served
  unfolding on_target
  on_reply (conn, bail reason) = record { connection = conn; dialled = []; ending = refused reason }
  on_reply (conn, ok target) = on_target target conn

  unfoldable pub handle_client : Option Socks5Config → IpAddr → Connection → Served
  unfolding on_reply negotiate
  handle_client config peer conn = on_reply (negotiate env config peer conn)

  -- A proxy that asks for a user name and a password dials nothing for a client that is locked out,
  -- nor for one that sends another user name or another password than the configured ones. To the
  -- one it answers that no method is acceptable, and the lockout state does not change; to the
  -- other it answers that the login failed, and counts the failure. It is supposed that every write
  -- succeeds and that the client offers the method.
  pub handle_client_unauthorised :
      (config : Socks5Config) (peer : IpAddr) (username password : Text)
      (methods uname pass request : List ℕ) (limiter : Limiter)
      → ((n : ℕ) → env.delivers n ≡ true)
      → config.allow_anonymous ≡ false
      → config.username ≡ some username
      → config.password ≡ some password
      → contains 2 methods ≡ true
      → (is_rate_limited env.checked_at limiter peer ≡ true)
        ⊎ ((uname ≢ utf8 username) ⊎ (pass ≢ utf8 password))
      → let incoming =
          5
          ∷ length methods
          ∷ (methods ++ (1 ∷ length uname ∷ (uname ++ (length pass ∷ (pass ++ request))))) in
        let outcome =
          handle_client
            (some config)
            peer
            (record { incoming = incoming; written = []; limiter = limiter }) in
        (outcome.dialled ≡ [])
        × (if is_rate_limited env.checked_at limiter peer
            then (outcome.ending ≡ refused rate_limited)
              × (outcome.connection.written ≡ (5 ∷ 0xFF ∷ []) ∷ [])
              × (outcome.connection.limiter ≡ limiter)
            else (outcome.ending ≡ refused authentication_failed)
              × (outcome.connection.written ≡ (5 ∷ 2 ∷ []) ∷ (1 ∷ 1 ∷ []) ∷ [])
              × (outcome.connection.limiter ≡ record_pairing_failure env.failed_at limiter peer))
  unfolding handle_client on_reply
  handle_client_unauthorised config peer username password methods uname pass request limiter all
        anonymous name word offered unauthorised =
      elim (Bool-cases (is_rate_limited env.checked_at limiter peer)) [
        | inl locked ↦
            rw
              (
                negotiate_locked_out env config peer methods
                    (1 ∷ length uname ∷ (uname ++ (length pass ∷ (pass ++ request)))) limiter
                    anonymous locked,
                locked,
                all 0,
              )
              (refl, (refl, refl, refl))
        | inr free ↦
            elim (negotiate_credentials env config peer username password methods uname pass request
              limiter all anonymous name word free offered) [
                | inl ((n, w), _) ↦ absurd (known free n w unauthorised)
                | inr (_, e) ↦ rw (e, free) (refl, (refl, refl, refl))
              ]
      ]
    where
      known :
          is_rate_limited env.checked_at limiter peer ≡ false
          → uname ≡ utf8 username
          → pass ≡ utf8 password
          → (is_rate_limited env.checked_at limiter peer ≡ true)
            ⊎ ((uname ≢ utf8 username) ⊎ (pass ≢ utf8 password))
          → ⊥
      known free n w (inl locked) = cc (free, locked)
      known free n w (inr (inl other)) = other n
      known free n w (inr (inr other)) = other w
