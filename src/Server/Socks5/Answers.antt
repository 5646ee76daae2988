-- ===== src/Server/Socks5/Answers.antt =====
-- What the proxy answers: to credentials, to a locked-out peer and to a request for a domain.
use xkvm.Base.{
  ℕ, ◌+◌, ◌*◌, ◌≡◌, refl, ap, ◌∙◌, ◌≢◌, ◌↔◌, ◌⊎◌, inl, inr, true, false, ◌&&◌, Option, some, List,
  [], ◌∷◌, ◌++◌, arith, ◌==◌, if◌then◌else◌, le→leb, Bool-cases, length, length-append, take-append,
  drop-append, nat_eq, contains, Text, text_eq, utf8,
}
use xkvm.Base.Bytes.{u16_from_be}
use xkvm.Protocol.Framing.{read_exact}
use xkvm.Protocol.Proof.{fold_diff-zero}
use xkvm.RateLimit.{IpAddr, Limiter, is_rate_limited, record_pairing_failure}
use xkvm.Server.Socks5.{
  Socks5Config, constant_time_eq, authentication_failed, rate_limited, ok, bail, Env, Step,
  with_port, read, write, try_write,
}
use xkvm.Server.Socks5.Negotiation.{
  read_target, read_request, check_credentials, authenticate, require_auth, choose_method,
  negotiate, on_header, on_auth_version, on_ulen, on_uname, on_plen, on_request, on_domain_len,
  on_domain, on_domain_port, finish_domain,
}

-- The comparison without early exit holds exactly of equal byte strings.
constant_time_eq_iff : (a b : List ℕ) → (constant_time_eq a b ≡ true) ↔ (a ≡ b)
unfolding constant_time_eq
constant_time_eq_iff a b = elim (Bool-cases (length a == length b)) [
  | inl e ↦ ground (arith, fold_diff-zero 0 a b (ground arith))
  | inr e ↦ ground (arith, λ (h : a ≡ b). ap length h)
]

module _ (env : Env) where
  read-append :
      (next : List ℕ → Step) (a b : List ℕ) (written : List (List ℕ)) (limiter : Limiter)
      → read env
          (length a)
          next
          (record { incoming = a ++ b; written = written; limiter = limiter })
        ≡ next a (record { incoming = b; written = written; limiter = limiter })
  unfolding read read_exact
  read-append next a b written limiter =
      rw
        (
          read,
          read_exact,
          le→leb (length a) (length (a ++ b)) (omega (arith, length-append a b)),
          take-append a b,
          drop-append a b,
        )
        refl

  read_one :
      (next : List ℕ → Step) (x : ℕ) (b : List ℕ) (written : List (List ℕ)) (limiter : Limiter)
      → read env 1 next (record { incoming = x ∷ b; written = written; limiter = limiter })
        ≡ next (x ∷ []) (record { incoming = b; written = written; limiter = limiter })
  read_one next x b written limiter = read-append next (x ∷ []) b written limiter

  authenticate-append :
      (config : Socks5Config) (peer : IpAddr) (uname pass request : List ℕ)
      (written : List (List ℕ)) (limiter : Limiter)
      → authenticate env config peer (record {
        incoming = 1 ∷ length uname ∷ (uname ++ (length pass ∷ (pass ++ request)));
        written = written;
        limiter = limiter;
      })
        ≡ check_credentials env config peer uname pass
            (record { incoming = request; written = written; limiter = limiter })
  unfolding authenticate on_auth_version on_ulen on_uname on_plen
  authenticate-append config peer uname pass request written limiter =
      read_one (on_auth_version env config peer) 1
        (length uname ∷ (uname ++ (length pass ∷ (pass ++ request)))) written limiter
      ∙ (read_one (on_ulen env config peer) (length uname)
            (uname ++ (length pass ∷ (pass ++ request))) written limiter
          ∙ (read-append (on_uname env config peer) uname (length pass ∷ (pass ++ request)) written
                limiter
              ∙ (read_one (on_plen env config peer uname) (length pass) (pass ++ request) written
                    limiter
                  ∙ read-append (check_credentials env config peer uname) pass request written
                      limiter)))

  negotiate-append :
      (config : Option Socks5Config) (peer : IpAddr) (methods rest : List ℕ) (limiter : Limiter)
      → negotiate env config peer (record {
        incoming = 5 ∷ length methods ∷ (methods ++ rest);
        written = [];
        limiter = limiter;
      })
        ≡ choose_method env config peer methods
            (record { incoming = rest; written = []; limiter = limiter })
  unfolding negotiate on_header
  negotiate-append config peer methods rest limiter =
      read-append (on_header env config peer) (5 ∷ length methods ∷ []) (methods ++ rest) [] limiter
      ∙ read-append (choose_method env config peer) methods rest [] limiter

  -- A peer that is locked out when it connects is refused whatever it offers and sends: no
  -- credentials are read, the lockout state does not change, and the answer, if the write succeeds,
  -- is that no method is acceptable.
  pub negotiate_locked_out :
      (config : Socks5Config) (peer : IpAddr) (methods rest : List ℕ) (limiter : Limiter)
      → config.allow_anonymous ≡ false
      → is_rate_limited env.checked_at limiter peer ≡ true
      → negotiate env (some config) peer (record {
        incoming = 5 ∷ length methods ∷ (methods ++ rest);
        written = [];
        limiter = limiter;
      })
        ≡ (
          record {
            incoming = rest;
            written = if env.delivers 0 then (5 ∷ 0xFF ∷ []) ∷ [] else [];
            limiter = limiter;
          },
          bail rate_limited,
        )
  unfolding choose_method require_auth try_write
  negotiate_locked_out config peer methods rest limiter a l =
      negotiate-append (some config) peer methods rest limiter ∙ ground (arith, a, l)

  check_credentials_sent :
      (config : Socks5Config) (peer : IpAddr) (username password : Text)
      (uname pass request : List ℕ) (limiter : Limiter)
      → ((n : ℕ) → env.delivers n ≡ true)
      → config.username ≡ some username
      → config.password ≡ some password
      → check_credentials env config peer uname pass
          (record { incoming = request; written = (5 ∷ 2 ∷ []) ∷ []; limiter = limiter })
        ≡ (if constant_time_eq uname (utf8 username) && constant_time_eq pass (utf8 password)
            then read_request env (record {
              incoming = request;
              written = (5 ∷ 2 ∷ []) ∷ (1 ∷ 0 ∷ []) ∷ [];
              limiter = limiter;
            })
            else (
              record {
                incoming = request;
                written = (5 ∷ 2 ∷ []) ∷ (1 ∷ 1 ∷ []) ∷ [];
                limiter = record_pairing_failure env.failed_at limiter peer;
              },
              bail authentication_failed,
            ))
  unfolding check_credentials write
  check_credentials_sent config peer username password uname pass request limiter d u p =
      rw (u, p)
        (elim (Bool-cases
          (constant_time_eq uname (utf8 username) && constant_time_eq pass (utf8 password))) [
            | inl e ↦ rw (e, write, d 1) refl
            | inr e ↦ rw (e, write, d 1) refl
          ])

  choose_user_pass :
      (config : Socks5Config) (peer : IpAddr) (username password : Text) (methods rest : List ℕ)
      (limiter : Limiter)
      → ((n : ℕ) → env.delivers n ≡ true)
      → config.allow_anonymous ≡ false
      → config.username ≡ some username
      → config.password ≡ some password
      → is_rate_limited env.checked_at limiter peer ≡ false
      → contains 2 methods ≡ true
      → choose_method env
          (some config)
          peer
          methods
          (record { incoming = rest; written = []; limiter = limiter })
        ≡ authenticate env config peer
            (record { incoming = rest; written = (5 ∷ 2 ∷ []) ∷ []; limiter = limiter })
  unfolding choose_method require_auth write
  choose_user_pass config peer username password methods rest limiter d a u p l m =
      ground (arith, a, l, u, p, m, d 0)

  -- What the proxy makes of credentials, by its own comparison.
  negotiate_checked :
      (config : Socks5Config) (peer : IpAddr) (username password : Text)
      (methods uname pass request : List ℕ) (limiter : Limiter)
      → ((n : ℕ) → env.delivers n ≡ true)
      → config.allow_anonymous ≡ false
      → config.username ≡ some username
      → config.password ≡ some password
      → is_rate_limited env.checked_at limiter peer ≡ false
      → contains 2 methods ≡ true
      → negotiate env (some config) peer (record {
        incoming =
            5
            ∷ length methods
            ∷ (methods ++ (1 ∷ length uname ∷ (uname ++ (length pass ∷ (pass ++ request)))));
        written = [];
        limiter = limiter;
      })
        ≡ (if constant_time_eq uname (utf8 username) && constant_time_eq pass (utf8 password)
            then read_request env (record {
              incoming = request;
              written = (5 ∷ 2 ∷ []) ∷ (1 ∷ 0 ∷ []) ∷ [];
              limiter = limiter;
            })
            else (
              record {
                incoming = request;
                written = (5 ∷ 2 ∷ []) ∷ (1 ∷ 1 ∷ []) ∷ [];
                limiter = record_pairing_failure env.failed_at limiter peer;
              },
              bail authentication_failed,
            ))
  negotiate_checked config peer username password methods uname pass request limiter d a u p l m =
      negotiate-append (some config) peer methods
        (1 ∷ length uname ∷ (uname ++ (length pass ∷ (pass ++ request)))) limiter
      ∙ (choose_user_pass config peer username password methods
            (1 ∷ length uname ∷ (uname ++ (length pass ∷ (pass ++ request)))) limiter d a u p l m
          ∙ (authenticate-append config peer uname pass request ((5 ∷ 2 ∷ []) ∷ []) limiter
              ∙ check_credentials_sent config peer username password uname pass request limiter d u
                  p))

  -- A client that sends the credentials `uname` and `pass` to a proxy that requires credentials,
  -- where the peer is not locked out, the client offers the method and every write succeeds: if
  -- they are the bytes of the configured user name and of the configured password, it is let
  -- through to its request; if either differs, it is told so, the failure is recorded for its
  -- address and the handler gives up.
  pub negotiate_credentials :
      (config : Socks5Config) (peer : IpAddr) (username password : Text)
      (methods uname pass request : List ℕ) (limiter : Limiter)
      → ((n : ℕ) → env.delivers n ≡ true)
      → config.allow_anonymous ≡ false
      → config.username ≡ some username
      → config.password ≡ some password
      → is_rate_limited env.checked_at limiter peer ≡ false
      → contains 2 methods ≡ true
      → let outcome = negotiate env (some config) peer (record {
        incoming =
            5
            ∷ length methods
            ∷ (methods ++ (1 ∷ length uname ∷ (uname ++ (length pass ∷ (pass ++ request)))));
        written = [];
        limiter = limiter;
      }) in
        (((uname ≡ utf8 username) × (pass ≡ utf8 password))
          × (outcome
              ≡ read_request env (record {
                incoming = request;
                written = (5 ∷ 2 ∷ []) ∷ (1 ∷ 0 ∷ []) ∷ [];
                limiter = limiter;
              })))
        ⊎ (((uname ≢ utf8 username) ⊎ (pass ≢ utf8 password))
            × (outcome ≡ (
              record {
                incoming = request;
                written = (5 ∷ 2 ∷ []) ∷ (1 ∷ 1 ∷ []) ∷ [];
                limiter = record_pairing_failure env.failed_at limiter peer;
              },
              bail authentication_failed,
            )))
  negotiate_credentials config peer username password methods uname pass request limiter d a u p l
        m =
      let checked =
        negotiate_checked config peer username password methods uname pass request limiter d a u p l
          m in
      let names = constant_time_eq_iff uname (utf8 username) in
      let words = constant_time_eq_iff pass (utf8 password) in
      elim (Bool-cases (constant_time_eq uname (utf8 username))) [
        | inl e ↦ elim (Bool-cases (constant_time_eq pass (utf8 password))) [
          | inl f ↦ inl ((names.0 e, words.0 f), checked ∙ rw (e, f) refl)
          | inr f ↦
              inr (inr (λ (q : pass ≡ utf8 password). cc (f, words.1 q)), checked ∙ rw (e, f) refl)
        ]
        | inr e ↦ inr (inl (λ (q : uname ≡ utf8 username). cc (e, names.1 q)), checked ∙ rw e refl)
      ]

  -- A request to connect to a domain whose bytes are a text, and a port, from a client that may
  -- connect, gives that text and port.
  read_request_domain :
      (reserved high low : ℕ) (domain rest : List ℕ) (text : Text) (written : List (List ℕ))
      (limiter : Limiter)
      → env.from_utf8 domain ≡ some text
      → read_request env (record {
        incoming = 5 ∷ 1 ∷ reserved ∷ 3 ∷ length domain ∷ (domain ++ (high ∷ low ∷ rest));
        written = written;
        limiter = limiter;
      })
        ≡ (
          record { incoming = rest; written = written; limiter = limiter },
          ok (with_port text (high * 256 + low)),
        )
  unfolding read_request on_request read_target on_domain_len on_domain on_domain_port finish_domain
      u16_from_be
  read_request_domain reserved high low domain rest text written limiter h =
      read-append (on_request env) (5 ∷ 1 ∷ reserved ∷ 3 ∷ [])
        (length domain ∷ (domain ++ (high ∷ low ∷ rest))) written limiter
      ∙ (read_one (on_domain_len env) (length domain) (domain ++ (high ∷ low ∷ rest)) written
            limiter
          ∙ (read-append (on_domain env) domain (high ∷ low ∷ rest) written limiter
              ∙ (read-append (on_domain_port env domain) (high ∷ low ∷ []) rest written limiter
                  ∙ rw (on_domain_port, finish_domain, h) refl)))
