-- ===== src/Examples/Proxy.antt =====
-- The SOCKS5 proxy at concrete inputs.
use xkvm.Base.{
  ℕ, ◌≡◌, refl, ◌≢◌, ◌⊎◌, inr, true, false, none, some, List, [], ◌∷◌, nat_eq, lookup, contains,
  Text, codes, text_eq, utf8,
}
use xkvm.Examples.Setup
use xkvm.Server.Startup.{
  Args, Surroundings, start_up, resolve_pin, resolve_bind, started_proxy, proxy_settings,
  start_up_guards_proxy,
}
use xkvm.RateLimit.{IpAddr, v4, Limiter, is_rate_limited, record_pairing_failure}
use xkvm.Server.Socks5.{Socks5Config, bail, authentication_failed, Env, Connection, Reply}
use xkvm.Server.Socks5.Negotiation.{negotiate, read_request}
use xkvm.Server.Socks5.Relay.{finished, refused, Served, handle_client, handle_client_unauthorised}
use xkvm.Server.Socks5.Answers.{negotiate_credentials}

-- An empty password.
abbrev guess : List ℕ
guess = []

abbrev env : Env
env = record {
  delivers = λ n. true;
  checked_at = 1000;
  failed_at = 1001;
  from_utf8 = λ bytes. some bytes;
  display_ipv6 = λ ip. [];
}

abbrev proxy : Socks5Config
proxy = record {
  username = some (codes "u");
  password = some (codes "ac");
  allow_anonymous = false;
}

abbrev peer : IpAddr
peer = v4 1

abbrev locked : Limiter
locked = (v4 1, record { failures = []; blocked_until = some 2000 }) ∷ []

abbrev answered : Connection × Reply
answered =
    negotiate env (some proxy) peer
      (record { incoming = 5 ∷ 1 ∷ 2 ∷ 1 ∷ 1 ∷ 117 ∷ 0 ∷ 9 ∷ []; written = []; limiter = [] })

negotiate_credentials_example :
    ((((117 ∷ []) ≡ utf8 (codes "u")) × (guess ≡ utf8 (codes "ac")))
      × (answered
          ≡ read_request env (record {
            incoming = 9 ∷ [];
            written = (5 ∷ 2 ∷ []) ∷ (1 ∷ 0 ∷ []) ∷ [];
            limiter = [];
          })))
    ⊎ ((((117 ∷ []) ≢ utf8 (codes "u")) ⊎ (guess ≢ utf8 (codes "ac")))
        × (answered ≡ (
          record {
            incoming = 9 ∷ [];
            written = (5 ∷ 2 ∷ []) ∷ (1 ∷ 1 ∷ []) ∷ [];
            limiter = record_pairing_failure 1001 [] peer;
          },
          bail authentication_failed,
        )))
unfolding is_rate_limited lookup contains
negotiate_credentials_example =
    negotiate_credentials env proxy peer (codes "u") (codes "ac") (2 ∷ []) (117 ∷ []) guess (9 ∷ [])
      [] (λ n. refl) refl refl refl refl refl

-- A user name from the arguments and a password from the environment.
abbrev args : Args
args = record {
  bind = none;
  list_paired = false;
  revoke = none;
  pin = none;
  socks5_port = some 1080;
  socks5_user = some (codes "u");
  socks5_pass = none;
  socks5_allow_anonymous = false;
}

abbrev around : Surroundings
around = record { pairing_pin = none; socks5_password = some (codes "p"); generated = 42 }

start_up_guards_proxy_example :
    ((proxy_settings args around Setup.config).allow_anonymous ≡ false)
    × ((username : Text) × ((proxy_settings args around Setup.config).username ≡ some username))
    × ((password : Text) × ((proxy_settings args around Setup.config).password ≡ some password))
unfolding start_up resolve_pin resolve_bind started_proxy proxy_settings
start_up_guards_proxy_example =
    start_up_guards_proxy true args around Setup.config (codes "000042") [] 1080
      (proxy_settings args around Setup.config) refl refl

-- A client that sends a wrong password.
abbrev turned_away : Served
turned_away =
    handle_client env (λ target. true) (λ target. finished) (some proxy) peer
      (record { incoming = 5 ∷ 1 ∷ 2 ∷ 1 ∷ 1 ∷ 117 ∷ 0 ∷ 9 ∷ []; written = []; limiter = [] })

other_word : guess ≢ utf8 (codes "ac")
unfolding utf8
other_word h = cc h

handle_client_unauthorised_example :
    (turned_away.dialled ≡ [])
    × ((turned_away.ending ≡ refused authentication_failed)
        × (turned_away.connection.written ≡ (5 ∷ 2 ∷ []) ∷ (1 ∷ 1 ∷ []) ∷ [])
        × (turned_away.connection.limiter ≡ record_pairing_failure 1001 [] peer))
unfolding is_rate_limited lookup contains
handle_client_unauthorised_example =
    handle_client_unauthorised env (λ target. true) (λ target. finished) proxy peer (codes "u")
      (codes "ac") (2 ∷ []) (117 ∷ []) guess (9 ∷ []) [] (λ n. refl) refl refl refl refl
      (inr (inr other_word))
