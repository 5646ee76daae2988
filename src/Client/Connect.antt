-- ===== src/Client/Connect.antt =====
-- `Session::connect` of client/src/session.rs, and `PinnedCertVerifier` of client/src/tls.rs.
pub mod Pinning
pub mod Recognition
use xkvm.Base.{
  ℕ, zero, suc, ◌+◌, ◌-◌, ◌*◌, ◌/◌, ◌%◌, ◌^◌, ◌≤◌, ◌<◌, min, max, ◌≡◌, refl, sym, ap, ◌∙◌, ◌≢◌, ◌↔◌,
  ◌⊎◌, inl, inr, Bool, true, false, not, ◌&&◌, ◌||◌, Option, none, some, List, [], ◌∷◌, ◌++◌, map,
  append_assoc, append-nil, arith, subst, ltb, leb, ◌==◌, if◌then◌else◌, ltb→lt, lt→ltb, ltb→le,
  le→ltb, leb→le, le→leb, ==_iff, tests, Bool-cases, Option-cases, is_some, unwrap_or, ◌>>=◌,
  length, take, drop, All, length-append, take-append-drop, length-take, length-drop, take-append,
  drop-append, All-append, Eq, nat_eq, lookup, insert, remove, lookup-insert, lookup-insert_self,
  lookup-remove, contains, add, without, contains-add, contains-without, contains-append, Text,
  codes, text_beq, text_beq_iff, text_eq, utf8, byte_len, is_whitespace, is_nil, trim_start,
  trim_end, trim,
}
use xkvm.Protocol.{Envelope, default_control_port}
use xkvm.Client.Addr
use xkvm.Client.Addr.{parse_host_port, format_host_port}
use xkvm.Client.Config.{Config, known_fingerprint, add_known_server, add_known_server_alias}
use xkvm.Client.Handshake.{
  Incoming, ConnectError, fatal, bad_address, tcp_failed, tls_failed, Result, ok, err,
  ConnectOptions, Env, perform_handshake,
}
use xkvm.Client.Hex.{fingerprint_der}

-- How far the connection gets: no TCP, a TLS handshake that fails by itself, or the certificate
-- that the server presents.
pub data Transport : Type 0 where
  no_tcp no_tls : Transport
  presents : (cert : List ℕ) → Transport

abbrev ascii_lower : ℕ → ℕ
ascii_lower c = if leb b'A' c && leb c b'Z' then c + 32 else c

-- `str::eq_ignore_ascii_case`.
unfoldable pub eq_ignore_ascii_case : Text → Text → Bool
eq_ignore_ascii_case [] [] = true
eq_ignore_ascii_case [] (d ∷ t) = false
eq_ignore_ascii_case (c ∷ s) [] = false
eq_ignore_ascii_case (c ∷ s) (d ∷ t) = (ascii_lower c == ascii_lower d) && eq_ignore_ascii_case s t

-- Whether the certificate is accepted; `required` is as it was given to `new`.
unfoldable pub verify_server_cert : Env → Option Text → List ℕ → Bool
unfolding eq_ignore_ascii_case
verify_server_cert env none cert = true
verify_server_cert env (some fp) cert =
    eq_ignore_ascii_case (env.casing.to_uppercase fp) (fingerprint_der env.sha256 cert)

pub record Session : Type 0 where
  pub host : Text
  pub server_name : Text
  pub fingerprint : Text
  pub file_transfer_port : ℕ

abbrev Connected : Type 0
Connected = Config × List Envelope × Result Session

-- `mismatch` is the text in which the library reports the verifier's error.
module _ (env : Env) (mismatch : Text → Text → Text) where
  abbrev map_upper : Option Text → Option Text
  map_upper none = none
  map_upper (some fp) = some (env.casing.to_uppercase fp)

  unfoldable pub required_fingerprint : ConnectOptions → Option Text → Option Text
  required_fingerprint opts stored = elim opts.expected_fingerprint [
    | some fp ↦ some (env.casing.to_uppercase fp)
    | none ↦ if opts.trust_new_cert then none else stored
  ]

  -- After the handshake: the certificate is pinned for the address and for the file-transfer port.
  unfoldable pub pin_server :
      Text → Text → Text → Config × List Envelope × Result (ℕ × Text) → Connected
  unfolding add_known_server add_known_server_alias
  pin_server host address observed (config, sent, err e) = (config, sent, err e)
  pin_server host address observed (config, sent, ok (port, name)) =
      let pinned = add_known_server env.now name address observed config in
      let file_address = format_host_port host port in
      let session : Session = record {
        host = host;
        server_name = name;
        fingerprint = observed;
        file_transfer_port = port;
      } in
      (
        (if text_beq file_address address
            then pinned
            else add_known_server_alias env.now name file_address observed pinned),
        sent,
        ok session,
      )

  -- The TLS handshake with a server that presents `cert`.
  unfoldable pub on_certificate :
      ConnectOptions → Config → Text → Text → List ℕ → Incoming → Incoming → Connected
  unfolding verify_server_cert required_fingerprint pin_server
  on_certificate opts config host address cert ack reply =
      let required = required_fingerprint opts (known_fingerprint config address) in
      if verify_server_cert env required cert
      then pin_server host address (fingerprint_der env.sha256 cert)
          (perform_handshake env opts config ack reply)
      else (
        config,
        [],
        err (
            fatal (
              mismatch (env.casing.to_uppercase (unwrap_or required []))
                (fingerprint_der env.sha256 cert))),
      )

  unfoldable pub reach :
      ConnectOptions → Config → Text → Text → Transport → Incoming → Incoming → Connected
  unfolding on_certificate
  reach opts config host address no_tcp ack reply = (config, [], err tcp_failed)
  reach opts config host address no_tls ack reply = (config, [], err tls_failed)
  reach opts config host address (presents cert) ack reply =
      on_certificate opts config host address cert ack reply

  -- On the address that was given, once it is parsed.
  unfoldable pub on_address :
      ConnectOptions → Config → Transport → Incoming → Incoming → Addr.Result → Connected
  unfolding reach
  on_address opts config transport ack reply (Addr.ok host port) =
      reach opts config host (format_host_port host port) transport ack reply
  on_address opts config transport ack reply _ = (config, [], err bad_address)

  unfoldable pub connect :
      ConnectOptions → Config → Text → Transport → Incoming → Incoming → Connected
  unfolding on_address parse_host_port
  connect opts config addr transport ack reply =
      on_address opts config transport ack reply (parse_host_port addr default_control_port)
