-- ===== src/Server/Socks5.antt =====
-- `Socks5Server::negotiate` of server/src/socks5.rs, from the bytes a client sends to the answers,
-- the target and the lockout state. `Reply` is `anyhow::Result<String>` with the reason by name.
pub mod Negotiation
pub mod Answers
pub mod Relay
use xkvm.Base.{
  ℕ, zero, suc, ◌+◌, ◌-◌, ◌*◌, ◌/◌, ◌%◌, ◌^◌, ◌≤◌, ◌<◌, min, max, ◌≡◌, refl, sym, ap, ◌∙◌, ◌≢◌, ◌↔◌,
  ◌⊎◌, inl, inr, Bool, true, false, not, ◌&&◌, ◌||◌, Option, none, some, List, [], ◌∷◌, ◌++◌, map,
  append_assoc, append-nil, arith, subst, ltb, leb, ◌==◌, if◌then◌else◌, ltb→lt, lt→ltb, ltb→le,
  le→ltb, leb→le, le→leb, ==_iff, tests, Bool-cases, Option-cases, is_some, unwrap_or, ◌>>=◌,
  length, take, drop, All, length-append, take-append-drop, length-take, length-drop, take-append,
  drop-append, All-append, Eq, nat_eq, lookup, insert, remove, lookup-insert, lookup-insert_self,
  lookup-remove, contains, add, without, contains-add, contains-without, contains-append, Text,
  codes, text_beq, text_beq_iff, text_eq, utf8, byte_len, is_whitespace, is_nil, trim_start,
  trim_end, trim,
}
use xkvm.Base.Bytes.{u16_from_be}
use xkvm.Client.Addr.Decimal.{print_digits}
use xkvm.Protocol.Framing.{read_exact}
use xkvm.Protocol.Proof.{fold_diff}
use xkvm.RateLimit.{IpAddr, Limiter, is_rate_limited, record_pairing_failure}

abbrev pub socks5_version : ℕ
socks5_version = 5

abbrev pub auth_no_auth : ℕ
auth_no_auth = 0

abbrev pub auth_user_pass : ℕ
auth_user_pass = 2

abbrev pub cmd_connect : ℕ
cmd_connect = 1

abbrev pub atyp_ipv4 : ℕ
atyp_ipv4 = 1

abbrev pub atyp_domain : ℕ
atyp_domain = 3

abbrev pub atyp_ipv6 : ℕ
atyp_ipv6 = 4

-- The fields that `negotiate` reads.
pub record Socks5Config : Type 0 where
  pub username : Option Text
  pub password : Option Text
  pub allow_anonymous : Bool

unfoldable pub constant_time_eq : List ℕ → List ℕ → Bool
unfolding fold_diff
constant_time_eq a b = if length a == length b then fold_diff 0 a b == 0 else false

pub data Bail : Type 0 where
  io unsupported_version rate_limited no_credentials no_user_pass bad_auth_version
        authentication_failed no_no_auth unsupported_command invalid_utf8 unsupported_address :
      Bail

pub data Reply : Type 0 where
  ok : Text → Reply
  bail : Bail → Reply

-- What the code does not decide: whether the n-th write succeeds, the clock when the limiter is
-- asked and when a failure is recorded, `String::from_utf8` and the text of an `Ipv6Addr`.
pub record Env : Type 0 where
  pub delivers : ℕ → Bool
  pub checked_at : ℕ
  pub failed_at : ℕ
  pub from_utf8 : List ℕ → Option Text
  pub display_ipv6 : List ℕ → Text

-- The bytes still to be read, the answers written, and the lockout state.
pub record Connection : Type 0 where
  pub incoming : List ℕ
  pub written : List (List ℕ)
  pub limiter : Limiter

abbrev pub Step : Type 0
Step = Connection → Connection × Reply

abbrev pub general_failure : List ℕ
general_failure = socks5_version ∷ 7 ∷ 0 ∷ 1 ∷ 0 ∷ 0 ∷ 0 ∷ 0 ∷ 0 ∷ 0 ∷ []

abbrev pub address_failure : List ℕ
address_failure = socks5_version ∷ 8 ∷ 0 ∷ 1 ∷ 0 ∷ 0 ∷ 0 ∷ 0 ∷ 0 ∷ 0 ∷ []

-- `Ipv4Addr::from` of four bytes, as text.
unfoldable pub display_ipv4 : List ℕ → Text
unfolding print_digits
display_ipv4 [] = []
display_ipv4 (b ∷ []) = print_digits 3 b
display_ipv4 (b ∷ (c ∷ s)) = print_digits 3 b ++ b'.' ∷ display_ipv4 (c ∷ s)

-- `{host}:{port}`.
unfoldable pub with_port : Text → ℕ → Text
unfolding print_digits
with_port host port = host ++ b':' ∷ print_digits 5 port

abbrev pub give_up : Bail → Step
give_up reason conn = (conn, bail reason)

-- The first byte of what `read_exact` returned.
abbrev pub head : List ℕ → ℕ
head [] = 0
head (b ∷ _) = b

abbrev pub second : List ℕ → ℕ
second s = head (drop 1 s)

module _ (env : Env) where
  -- `stream.read_exact(&mut [0u8; n]).await?`, and what follows.
  unfoldable pub read : ℕ → (List ℕ → Step) → Step
  unfolding read_exact
  read n next conn = elim (read_exact n conn.incoming) [
    | none ↦ (conn, bail io)
    | some (bytes, rest) ↦ next bytes (record conn { incoming = rest })
  ]

  -- `stream.write_all(..).await?`, and what follows.
  unfoldable pub write : List ℕ → Step → Step
  write bytes next conn =
      if env.delivers (length conn.written)
      then next (record conn { written = conn.written ++ bytes ∷ [] })
      else (conn, bail io)

  -- `let _ = stream.write_all(..).await`.
  unfoldable pub try_write : List ℕ → Step → Step
  try_write bytes next conn =
      if env.delivers (length conn.written)
      then next (record conn { written = conn.written ++ bytes ∷ [] })
      else next conn
