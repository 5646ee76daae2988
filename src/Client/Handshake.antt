-- ===== src/Client/Handshake.antt =====
-- `perform_handshake` of client/src/session.rs. Reading an envelope gives `failed` or the envelope.
pub mod Agreement
use xkvm.Base.{
  ℕ, zero, suc, ◌+◌, ◌-◌, ◌*◌, ◌/◌, ◌%◌, ◌^◌, ◌≤◌, ◌<◌, min, max, ◌≡◌, refl, sym, ap, ◌∙◌, ◌≢◌, ◌↔◌,
  ◌⊎◌, inl, inr, Bool, true, false, not, ◌&&◌, ◌||◌, Option, none, some, List, [], ◌∷◌, ◌++◌, map,
  append_assoc, append-nil, arith, subst, ltb, leb, ◌==◌, if◌then◌else◌, ltb→lt, lt→ltb, ltb→le,
  le→ltb, leb→le, le→leb, ==_iff, tests, Bool-cases, Option-cases, is_some, unwrap_or, ◌>>=◌,
  length, take, drop, All, length-append, take-append-drop, length-take, length-drop, take-append,
  drop-append, All-append, Eq, nat_eq, lookup, insert, remove, lookup-insert, lookup-insert_self,
  lookup-remove, contains, add, without, contains-add, contains-without, contains-append, Text,
  codes, text_beq, text_beq_iff, text_eq, utf8, byte_len, is_whitespace, is_nil, trim_start,
  trim_end, trim,
}
use xkvm.Protocol.{
  Envelope, Caps, default_caps, protocol_version, default_control_port, hello, hello_ack,
  pair_request, pair_accept, pair_reject, error,
}
use xkvm.Protocol.Proof.{pairing_proof}
use xkvm.Client.Config.{
  Config, ensure_client_secret, client_fingerprint, known_fingerprint, add_known_server,
  add_known_server_alias,
}

-- The case mappings of `str`. A name of this interface is documented behaviour of the library.
pub record Casing : Type 0 where
  pub to_lowercase : Text → Text
  pub to_uppercase : Text → Text

pub data Incoming : Type 0 where
  failed : Incoming
  got : Envelope → Incoming

-- Why connecting failed: `fatal` is `FatalConnectError`, which is not retried.
pub data ConnectError : Type 0 where
  fatal : Text → ConnectError
  io unexpected_response unexpected_pairing_response bad_address tcp_failed tls_failed :
      ConnectError
  server_error : Text → ConnectError

pub data Result {ℓ} (A : Type ℓ) : Type ℓ where
  ok : A → Result A
  err : ConnectError → Result A

pub record ConnectOptions : Type 0 where
  pub pin : Option Text
  pub trust_new_cert : Bool
  pub expected_fingerprint : Option Text

-- What the client does not decide: whether the n-th write succeeds, SHA-256, the host name and the
-- variable `KVM_PAIRING_PIN` if they are there, the random secret and nonce, and the clock.
pub record Env : Type 0 where
  pub delivers : ℕ → Bool
  pub sha256 : List ℕ → List ℕ
  pub casing : Casing
  pub hostname : Option Text
  pub env_pin : Option Text
  pub random_secret : List ℕ
  pub random_nonce : List ℕ
  pub now : ℕ

-- `str::contains`.
abbrev starts_with : Text → Text → Bool
starts_with [] s = true
starts_with (c ∷ p) [] = false
starts_with (c ∷ p) (d ∷ s) = (c == d) && starts_with p s

unfoldable pub contains_text : Text → Text → Bool
contains_text p [] = is_nil p
contains_text p (d ∷ s) = starts_with p (d ∷ s) || contains_text p s

abbrev or_else : Option Text → Option Text → Option Text
or_else (some a) o = some a
or_else none o = o

module _ (env : Env) where
  abbrev pub my_hello : Envelope
  my_hello = hello (unwrap_or env.hostname (codes "kvm-client")) protocol_version default_caps

  unfoldable pub my_pin : ConnectOptions → Text
  my_pin opts = unwrap_or (or_else opts.pin env.env_pin) []

  unfoldable pub my_request : ConnectOptions → Config → Envelope
  unfolding my_pin client_fingerprint
  my_request opts config =
      let fingerprint = client_fingerprint env.sha256 config in
      pair_request env.random_nonce fingerprint
        (pairing_proof env.sha256 (my_pin opts) env.random_nonce fingerprint)

  -- The answer to `Hello`.
  unfoldable pub on_hello_answer : Incoming → Result (ℕ × Text)
  unfolding contains_text
  on_hello_answer failed = err io
  on_hello_answer (got (hello_ack port name)) = ok (port, name)
  on_hello_answer (got (error msg)) =
      if contains_text (codes "version") (env.casing.to_lowercase msg)
      then err (fatal msg)
      else err (server_error msg)
  on_hello_answer (got _) = err unexpected_response

  abbrev pin_hint : Text
  pin_hint = codes " (pass --pin <code>, or set KVM_PAIRING_PIN)"

  -- The answer to `PairRequest`.
  unfoldable pub on_pair_answer : ℕ × Text → Incoming → Result (ℕ × Text)
  unfolding contains_text
  on_pair_answer server failed = err io
  on_pair_answer server (got pair_accept) = ok server
  on_pair_answer server (got (pair_reject reason)) =
      let msg = codes "pairing rejected: " ++ reason in
      err (
        fatal (
          if contains_text (codes "pin") (env.casing.to_lowercase reason)
          then msg ++ pin_hint
          else msg))
  on_pair_answer server (got _) = err unexpected_pairing_response

  -- The configuration, the envelopes sent, and the file-transfer port and the name of the server.
  after_hello :
      ConnectOptions
      → Config
      → Result (ℕ × Text)
      → Incoming
      → Config × List Envelope × Result (ℕ × Text)
  unfolding my_request ensure_client_secret on_pair_answer
  after_hello opts config (err e) reply = (config, my_hello ∷ [], err e)
  after_hello opts config (ok server) reply =
      let config' = (ensure_client_secret env.random_secret config).0 in
      if env.delivers 1
      then (config', my_hello ∷ my_request opts config' ∷ [], on_pair_answer server reply)
      else (config', my_hello ∷ [], err io)

  unfoldable pub perform_handshake :
      ConnectOptions → Config → Incoming → Incoming → Config × List Envelope × Result (ℕ × Text)
  unfolding on_hello_answer after_hello
  perform_handshake opts config ack reply =
      if env.delivers 0
      then after_hello opts config (on_hello_answer ack) reply
      else (config, [], err io)
