-- ===== src/Server/Socks5/Negotiation.antt =====
-- The messages of `negotiate`, of server/src/socks5.rs, from the first one to the request: each
-- function is what follows one reading.
use xkvm.Base.{
  ℕ, not, ◌&&◌, ◌||◌, Option, none, some, List, [], ◌∷◌, ◌++◌, ◌==◌, if◌then◌else◌, is_some,
  unwrap_or, drop, nat_eq, contains, Text, text_eq, utf8,
}
use xkvm.Base.Bytes.{u16_from_be}
use xkvm.RateLimit.{IpAddr, is_rate_limited, record_pairing_failure}
use xkvm.Server.Socks5.{
  socks5_version, auth_no_auth, auth_user_pass, cmd_connect, atyp_ipv4, atyp_domain, atyp_ipv6,
  Socks5Config, constant_time_eq, unsupported_version, rate_limited, no_credentials, no_user_pass,
  bad_auth_version, authentication_failed, no_no_auth, unsupported_command, invalid_utf8,
  unsupported_address, ok, bail, Env, Step, general_failure, address_failure, display_ipv4,
  with_port, give_up, head, second, read, write, try_write,
}

module _ (env : Env) where
  unfoldable pub finish_domain : List ℕ → ℕ → Step
  finish_domain domain port conn = elim (env.from_utf8 domain) [
    | none ↦ (conn, bail invalid_utf8)
    | some text ↦ (conn, ok (with_port text port))
  ]

  unfoldable pub on_domain_port : List ℕ → List ℕ → Step
  unfolding finish_domain
  on_domain_port domain port = finish_domain domain (u16_from_be port)

  unfoldable pub on_domain : List ℕ → Step
  unfolding on_domain_port
  on_domain domain = read env 2 (on_domain_port domain)

  unfoldable pub on_domain_len : List ℕ → Step
  unfolding on_domain
  on_domain_len len = read env (head len) on_domain

  -- The address with its port, as text.
  reply_target : Text → List ℕ → Step
  reply_target host port conn = (conn, ok (with_port host (u16_from_be port)))

  on_ipv4 : List ℕ → Step
  unfolding reply_target
  on_ipv4 ip = read env 2 (reply_target (display_ipv4 ip))

  on_ipv6 : List ℕ → Step
  unfolding reply_target
  on_ipv6 ip = read env 2 (reply_target (b'[' ∷ (env.display_ipv6 ip ++ b']' ∷ [])))

  unfoldable pub read_target : ℕ → Step
  unfolding on_domain_len on_ipv4 on_ipv6
  read_target atyp =
      if atyp == atyp_ipv4
      then read env 4 on_ipv4
      else if atyp == atyp_domain
      then read env 1 on_domain_len
      else if atyp == atyp_ipv6
      then read env 16 on_ipv6
      else write env address_failure (give_up unsupported_address)

  unfoldable pub on_request : List ℕ → Step
  unfolding read_target
  on_request req =
      if not (head req == socks5_version) || not (second req == cmd_connect)
      then write env general_failure (give_up unsupported_command)
      else read_target (head (drop 3 req))

  unfoldable pub read_request : Step
  unfolding on_request
  read_request = read env 4 on_request

  unfoldable pub check_credentials : Socks5Config → IpAddr → List ℕ → List ℕ → Step
  unfolding read_request constant_time_eq
  check_credentials config peer uname pass =
      if constant_time_eq uname (utf8 (unwrap_or config.username []))
        && constant_time_eq pass (utf8 (unwrap_or config.password []))
      then write env (1 ∷ 0 ∷ []) read_request
      else (λ conn.
          write env (1 ∷ 1 ∷ []) (give_up authentication_failed)
            (record conn { limiter = record_pairing_failure env.failed_at conn.limiter peer }))

  -- The subnegotiation, a function of each reading.
  unfoldable pub on_plen : Socks5Config → IpAddr → List ℕ → List ℕ → Step
  unfolding check_credentials
  on_plen config peer uname plen = read env (head plen) (check_credentials config peer uname)

  unfoldable pub on_uname : Socks5Config → IpAddr → List ℕ → Step
  unfolding on_plen
  on_uname config peer uname = read env 1 (on_plen config peer uname)

  unfoldable pub on_ulen : Socks5Config → IpAddr → List ℕ → Step
  unfolding on_uname
  on_ulen config peer ulen = read env (head ulen) (on_uname config peer)

  unfoldable pub on_auth_version : Socks5Config → IpAddr → List ℕ → Step
  unfolding on_ulen
  on_auth_version config peer ver =
      if not (head ver == 1)
      then write env (1 ∷ 1 ∷ []) (give_up bad_auth_version)
      else read env 1 (on_ulen config peer)

  unfoldable pub authenticate : Socks5Config → IpAddr → Step
  unfolding on_auth_version
  authenticate config peer = read env 1 (on_auth_version config peer)

  unfoldable pub require_auth : Socks5Config → IpAddr → List ℕ → Step
  unfolding authenticate try_write
  require_auth config peer methods conn =
      if is_rate_limited env.checked_at conn.limiter peer
      then try_write env (socks5_version ∷ 0xFF ∷ []) (give_up rate_limited) conn
      else if not (is_some config.username && is_some config.password)
      then (conn, bail no_credentials)
      else if not (contains auth_user_pass methods)
      then write env (socks5_version ∷ 0xFF ∷ []) (give_up no_user_pass) conn
      else write env (socks5_version ∷ auth_user_pass ∷ []) (authenticate config peer) conn

  unfoldable pub allow_any : List ℕ → Step
  unfolding read_request
  allow_any methods =
      if not (contains auth_no_auth methods)
      then write env (socks5_version ∷ 0xFF ∷ []) (give_up no_no_auth)
      else write env (socks5_version ∷ auth_no_auth ∷ []) read_request

  -- With the methods read. No configuration allows anonymous access.
  unfoldable pub choose_method : Option Socks5Config → IpAddr → List ℕ → Step
  unfolding require_auth allow_any
  choose_method none peer methods = allow_any methods
  choose_method (some config) peer methods =
      if config.allow_anonymous then allow_any methods else require_auth config peer methods

  unfoldable pub on_header : Option Socks5Config → IpAddr → List ℕ → Step
  unfolding choose_method
  on_header config peer header =
      if not (head header == socks5_version)
      then give_up unsupported_version
      else read env (second header) (choose_method config peer)

  unfoldable pub negotiate : Option Socks5Config → IpAddr → Step
  unfolding on_header
  negotiate config peer = read env 2 (on_header config peer)
