-- ===== src/Client/Reconnect/Pinned.antt =====
-- The certificates over the attempts of `run_with_reconnect` of client/src/session.rs. Every
-- attempt loads the configuration again; it is on the disk as the last successful attempt has left
-- it.
use xkvm.Base.{
  ℕ, ◌≡◌, refl, sym, ap, ◌∙◌, ◌⊎◌, inl, inr, Bool, true, false, none, some, List, [], ◌∷◌, map,
  subst, if◌then◌else◌, Bool-cases, All, nat_eq, Text, text_eq,
}
use xkvm.Base.Bytes.{IsByte}
use xkvm.Protocol.{hello_ack, pair_accept, Envelope, default_control_port}
use xkvm.Client.Addr
use xkvm.Client.Addr.{parse_host_port, format_host_port}
use xkvm.Client.Hex.{fingerprint_der, join_pairs}
use xkvm.Client.Config.{Config, known_fingerprint}
use xkvm.Client.Handshake.{
  perform_handshake, Incoming, got, fatal, Result, ok, err, Env, ConnectOptions,
}
use xkvm.Client.Connect.{
  pin_server, Session, Transport, no_tcp, no_tls, presents, connect, on_address, reach,
  on_certificate, verify_server_cert, required_fingerprint,
}
use xkvm.Client.Connect.Pinning.{on_certificate_pins, on_certificate_mismatch}
use xkvm.Client.Connect.Recognition.{verify_server_cert_iff}

-- What becomes of the configuration file when it is saved: it is written, and read back as it was
-- saved; or what goes before the write fails, and the file is as it was; or the write fails, which
-- has cut the file off before, and `load_or_default` then gives `left`.
pub data Save : Type 0 where
  written untouched : Save
  cut : (left : Config) → Save

-- What an attempt meets, and how the saving of the configuration after it ends.
pub record Try : Type 0 where
  pub transport : Transport
  pub ack : Incoming
  pub reply : Incoming
  pub save : Save

abbrev kept : Save → Config → Config → Config
kept written before config = config
kept untouched before config = before
kept (cut left) before config = left

-- What the next attempt loads.
abbrev saved : Save → Config → Config × List Envelope × Result Session → Config
saved save before (config, sent, err e) = before
saved save before (config, sent, ok session) = kept save before config

-- The file is not cut off.
abbrev pub IsWhole : Try → Type 0
IsWhole t = (t.save ≡ written) ⊎ (t.save ≡ untouched)

-- A fatal error is the last attempt.
abbrev is_last : Result Session → Bool
is_last (err (fatal msg)) = true
is_last _ = false

module _ (env : Env) (mismatch : Text → Text → Text) (opts : ConnectOptions) (addr : Text) where
  -- What the attempts end in.
  unfoldable pub attempts : List Try → Config → List (Result Session)
  unfolding connect
  attempts [] config = []
  attempts (t ∷ tries) config =
      let outcome = connect env mismatch opts config addr t.transport t.ack t.reply in
      let rest = attempts tries (saved t.save config outcome) in
      outcome.2 ∷ (if is_last outcome.2 then [] else rest)

  -- A session that was opened has the fingerprint.
  abbrev pub HasFingerprint : Text → Result Session → Type 0
  HasFingerprint fp (err e) = Unit
  HasFingerprint fp (ok session) = session.fingerprint ≡ fp

  module _ (cert : List ℕ) (bytes : (c : List ℕ) → All IsByte (env.sha256 c))
      (upper : (c : List ℕ)
        → env.casing.to_uppercase (fingerprint_der env.sha256 c) ≡ fingerprint_der env.sha256 c)
      (no_trust : opts.trust_new_cert ≡ false) (none_expected : opts.expected_fingerprint ≡ none)
      (host : Text) (port : ℕ) where
    -- The fingerprint is pinned for the address.
    abbrev Pins : Config → Type 0
    Pins config =
        known_fingerprint config (format_host_port host port)
        ≡ some (fingerprint_der env.sha256 cert)

    required :
        (config : Config)
        → Pins config
        → required_fingerprint env mismatch opts
            (known_fingerprint config (format_host_port host port))
          ≡ some (fingerprint_der env.sha256 cert)
    unfolding required_fingerprint
    required config pinned = rw (none_expected, no_trust) pinned

    -- After an attempt whose save does not cut the file off.
    outcome-same :
        (config : Config) (t : Try) (outcome : Config × List Envelope × Result Session)
        → IsWhole t
        → Pins config
        → ((config' : Config) (sent : List Envelope) (session : Session)
            → outcome ≡ (config', sent, ok session)
            → (session.fingerprint ≡ fingerprint_der env.sha256 cert) × Pins config')
        → HasFingerprint (fingerprint_der env.sha256 cert) outcome.2
          × Pins (saved t.save config outcome)
    outcome-same config t (config', sent, err e) whole pinned fact = (tt, pinned)
    outcome-same config t (config', sent, ok session) (inl e) pinned fact =
        let (same, kept') = fact config' sent session refl in
        (same, subst (λ s. Pins (kept s config config')) (sym e) kept')
    outcome-same config t (config', sent, ok session) (inr e) pinned fact =
        let (same, _) = fact config' sent session refl in
        (same, subst (λ s. Pins (kept s config config')) (sym e) pinned)

    on_certificate-same :
        (config : Config) (c : List ℕ) (ack reply : Incoming)
        → Pins config
        → (config' : Config) (sent : List Envelope) (session : Session)
        → on_certificate env mismatch opts config host (format_host_port host port) c ack reply
          ≡ (config', sent, ok session)
        → (session.fingerprint ≡ fingerprint_der env.sha256 cert) × Pins config'
    unfolding fingerprint_der verify_server_cert
    on_certificate-same config c ack reply pinned config' sent session made =
        let (seen, kept, _) =
          on_certificate_pins env mismatch opts config host (format_host_port host port) c ack reply
            config' sent session made in
        elim (Bool-cases (verify_server_cert env (some (fingerprint_der env.sha256 cert)) c)) [
          | inl accepted ↦
              let same : fingerprint_der env.sha256 c ≡ fingerprint_der env.sha256 cert = sym (
                ap join_pairs
                  ((verify_server_cert_iff env cert c bytes (upper cert)).0 accepted)) in
              (seen ∙ same, kept ∙ ap some (seen ∙ same))
          | inr refused ↦
              let (msg, e) =
                on_certificate_mismatch env mismatch opts config host (format_host_port host port) c
                  ack reply (fingerprint_der env.sha256 cert) (required config pinned) refused in
              absurd (cc (made, e))
        ]

    reach-same :
        (config : Config) (transport : Transport) (ack reply : Incoming)
        → Pins config
        → (config' : Config) (sent : List Envelope) (session : Session)
        → reach env mismatch opts config host (format_host_port host port) transport ack reply
          ≡ (config', sent, ok session)
        → (session.fingerprint ≡ fingerprint_der env.sha256 cert) × Pins config'
    unfolding reach
    reach-same config no_tcp ack reply pinned config' sent session made = absurd (cc made)
    reach-same config no_tls ack reply pinned config' sent session made = absurd (cc made)
    reach-same config (presents c) ack reply pinned config' sent session made =
        on_certificate-same config c ack reply pinned config' sent session made

    -- Once a fingerprint is pinned for the address, every session that the attempts open is with a
    -- server that has it, whatever the servers present, if no save cuts the configuration file off:
    -- each is read back as it was saved, or fails before the file is opened. The options must not
    -- trust a new certificate, nor ask for a fingerprint. It is supposed that SHA-256 gives bytes
    -- and that the upper case of a fingerprint is the fingerprint.
    pub attempts_pinned :
        (tries : List Try) (config : Config)
        → parse_host_port addr default_control_port ≡ Addr.ok host port
        → known_fingerprint config (format_host_port host port)
          ≡ some (fingerprint_der env.sha256 cert)
        → All IsWhole tries
        → All (HasFingerprint (fingerprint_der env.sha256 cert)) (attempts tries config)
    unfolding attempts connect on_address
    attempts_pinned [] config parsed pinned whole = tt
    attempts_pinned (t ∷ tries) config parsed pinned whole =
        let outcome =
          reach env mismatch opts config host (format_host_port host port) t.transport t.ack
            t.reply in
        let (same, pinned') =
          outcome-same config t outcome whole.0 pinned
            (reach-same config t.transport t.ack t.reply pinned) in
        let rest = attempts_pinned tries (saved t.save config outcome) parsed pinned' whole.1 in
        rw parsed
          (same, elim (Bool-cases (is_last outcome.2)) [ inl e ↦ rw e tt | inr e ↦ rw e rest ])

  -- A server that presents the certificate and accepts the client.
  abbrev pub accepting : (port : ℕ) → (name : Text) → (cert : List ℕ) → Try
  accepting port name cert = record {
    transport = presents cert;
    ack = got (hello_ack port name);
    reply = got pair_accept;
    save = written;
  }

  abbrev pub session_of : (host name : Text) (port : ℕ) → List ℕ → Session
  session_of host name port c = record {
    host = host;
    server_name = name;
    fingerprint = fingerprint_der env.sha256 c;
    file_transfer_port = port;
  }

  connect_trusting :
      (c : List ℕ) (config : Config) (host name : Text) (control port : ℕ)
      → parse_host_port addr default_control_port ≡ Addr.ok host control
      → opts.trust_new_cert ≡ true
      → opts.expected_fingerprint ≡ none
      → ((n : ℕ) → env.delivers n ≡ true)
      → (connect env mismatch opts config addr
          (presents c)
          (got (hello_ack port name))
          (got pair_accept)).2
        ≡ ok (session_of host name port c)
  unfolding connect on_address reach on_certificate verify_server_cert perform_handshake
      fingerprint_der
  connect_trusting c config host name control port parsed trust none_expected all =
      rw (parsed, required_fingerprint, none_expected, trust)
        (rw (perform_handshake, all 0, all 1, pin_server) refl)

  -- With the option to trust a new certificate, each attempt opens a session with whoever answers,
  -- also after a session with another certificate has been opened and pinned.
  pub attempts_trusting :
      (certs : List (List ℕ)) (config : Config) (host name : Text) (control port : ℕ)
      → parse_host_port addr default_control_port ≡ Addr.ok host control
      → opts.trust_new_cert ≡ true
      → opts.expected_fingerprint ≡ none
      → ((n : ℕ) → env.delivers n ≡ true)
      → attempts (map (accepting port name) certs) config
        ≡ map (λ c. ok (session_of host name port c)) certs
  unfolding attempts
  attempts_trusting [] config host name control port parsed trust none_expected all = refl
  attempts_trusting (c ∷ certs) config host name control port parsed trust none_expected all =
      let outcome =
        connect env mismatch opts config addr (presents c) (got (hello_ack port name))
          (got pair_accept) in
      let rest =
        attempts_trusting certs (saved written config outcome) host name control port parsed trust
          none_expected all in
      rw (connect_trusting c config host name control port parsed trust none_expected all)
        (ap (λ results. ok (session_of host name port c) ∷ results) rest)
