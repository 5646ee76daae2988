-- ===== src/Client/Handshake/Agreement.antt =====
-- The client's handshake with the server's: what one sends is what the other reads.
use xkvm.Base.{
  ℕ, ◌≡◌, refl, sym, ap, ◌∙◌, ◌⊎◌, inl, inr, Bool, true, false, not, ◌&&◌, ◌||◌, List, [], ◌∷◌,
  arith, Bool-cases, unwrap_or, length, nat_eq, Text, codes, text_beq, text_eq,
}
use xkvm.Protocol.{
  Envelope, Caps, default_caps, hello, hello_ack, pair_request, pair_accept, pair_reject,
  protocol_version,
}
use xkvm.Protocol.Proof.{pairing_input, pairing_proof, proof_matches, proof_matches_iff}
use xkvm.RateLimit.{IpAddr, is_rate_limited}
use xkvm.Server.Config.{is_paired}
use xkvm.Server.State.{ServerState}
use xkvm.Server.Pairing
use xkvm.Client.Config.{Config, ensure_client_secret, client_fingerprint}
use xkvm.Client.Handshake.{
  got, fatal, Result, ok, err, ConnectOptions, Env, my_hello, my_pin, my_request, after_hello,
  on_hello_answer, on_pair_answer, perform_handshake,
}

-- The server's answer to a client of its version whose every message arrives, in terms of what it
-- asks for.
module _ (server : Pairing.Env) (id : ℕ) (peer_ip : IpAddr) (name : Text) (caps : Caps)
    (nonce : List ℕ) (fp : Text) (proof : List ℕ) (state : ServerState) where
  abbrev pub answered : ServerState × List Envelope × Pairing.Reply (Text × Text)
  answered =
      Pairing.connect server id peer_ip (Pairing.got (hello name protocol_version caps))
        (Pairing.got (pair_request nonce fp proof)) state

  abbrev pub is_allowed : Bool
  is_allowed =
      not (is_rate_limited server.checked_at state.rate_limiter peer_ip)
      && (is_paired state.config fp
          || proof_matches (pairing_proof server.sha256 state.pin nonce fp) proof)

  abbrev pub ack : Envelope
  ack = hello_ack state.file_port state.config.server_name

  answered_allowed :
      server.delivers 0 ≡ true
      → server.delivers 1 ≡ true
      → is_allowed ≡ true
      → (answered.1 ≡ ack ∷ pair_accept ∷ []) × (answered.2 ≡ Pairing.ok (name, fp))
  unfolding Pairing.connect Pairing.answer_pair_request text_beq
  answered_allowed d e a = (ground (arith, d, e, a), ground (arith, d, e, a))

  answered_refused :
      server.delivers 0 ≡ true
      → server.delivers 1 ≡ true
      → is_allowed ≡ false
      → (reason : Text) × (b : Pairing.Bail) × (answered.1 ≡ ack ∷ pair_reject reason ∷ [])
        × (answered.2 ≡ Pairing.bail b)
  unfolding Pairing.connect Pairing.answer_pair_request text_beq
  answered_refused d e a =
      elim (Bool-cases (is_rate_limited server.checked_at state.rate_limiter peer_ip)) [
        | inl l ↦ (
          Pairing.limited_reason,
          Pairing.rate_limited,
          ground (arith, d, e, l),
          ground (arith, d, e, l),
        )
        | inr l ↦ (
          Pairing.rejected_reason,
          Pairing.pairing_rejected,
          ground (arith, d, e, l, a),
          ground (arith, d, e, l, a),
        )
      ]

pairing_proof_same :
    (sha256 sha256' : List ℕ → List ℕ) (pin pin' : Text) (nonce : List ℕ) (fp : Text)
    → ((bytes : List ℕ) → sha256 bytes ≡ sha256' bytes)
    → pin ≡ pin'
    → pairing_proof sha256' pin' nonce fp ≡ pairing_proof sha256 pin nonce fp
unfolding pairing_proof
pairing_proof_same sha256 sha256' pin pin' nonce fp same pins =
    sym (ap (λ p. sha256 (pairing_input p nonce fp)) pins ∙ same (pairing_input pin' nonce fp))

module _ (env : Env) (server : Pairing.Env) (id : ℕ) (peer_ip : IpAddr) (opts : ConnectOptions)
    (config : Config) (state : ServerState) (client_delivers : (n : ℕ) → env.delivers n ≡ true)
    (server_delivers : (n : ℕ) → server.delivers n ≡ true) where
  -- The client's configuration with its secret.
  abbrev pub identity : Config
  identity = (ensure_client_secret env.random_secret config).0

  abbrev pub name : Text
  name = unwrap_or env.hostname (codes "kvm-client")

  abbrev pub fp : Text
  fp = client_fingerprint env.sha256 identity

  abbrev proof : List ℕ
  proof = pairing_proof env.sha256 (my_pin env opts) env.random_nonce fp

  -- What the server makes of the client's two messages.
  abbrev pub accepted : ServerState × List Envelope × Pairing.Reply (Text × Text)
  accepted =
      Pairing.connect server id peer_ip (Pairing.got (my_hello env))
        (Pairing.got (my_request env opts identity)) state

  -- What the client makes of the server's two answers.
  abbrev pub completed : Envelope → Config × List Envelope × Result (ℕ × Text)
  completed answer =
      perform_handshake env opts config (got (hello_ack state.file_port state.config.server_name))
        (got answer)

  perform_handshake-got :
      (answer : Envelope)
      → completed answer ≡ (
        identity,
        my_hello env ∷ my_request env opts identity ∷ [],
        on_pair_answer env (state.file_port, state.config.server_name) (got answer),
      )
  unfolding perform_handshake on_hello_answer
  perform_handshake-got answer = rw (client_delivers 0, after_hello, client_delivers 1) refl

  -- When every message arrives, the two sides agree. The server answers `HelloAck` and one envelope
  -- more, and either both sides take the client as paired, under the fingerprint of its secret, or
  -- the server gives up and the client fails for good, without a retry.
  pub handshake_agrees :
      (answer : Envelope) × (accepted.1
        ≡ hello_ack state.file_port state.config.server_name ∷ answer ∷ [])
      × (((accepted.2 ≡ Pairing.ok (name, fp))
            × ((completed answer).2 ≡ ok (state.file_port, state.config.server_name)))
          ⊎ ((b : Pairing.Bail) × (msg : Text) × (accepted.2 ≡ Pairing.bail b)
              × ((completed answer).2 ≡ err (fatal msg))))
  unfolding my_request on_pair_answer
  handshake_agrees =
      elim (Bool-cases
        (is_allowed server id peer_ip name default_caps env.random_nonce fp proof state)) [
          | inl a ↦
              let (s, r) =
                answered_allowed server id peer_ip name default_caps env.random_nonce fp proof state
                  (server_delivers 0) (server_delivers 1) a in
              (pair_accept, s, inl (r, ap (λ x. x.2) (perform_handshake-got pair_accept)))
          | inr a ↦
              let (reason, b, s, r) =
                answered_refused server id peer_ip name default_caps env.random_nonce fp proof state
                  (server_delivers 0) (server_delivers 1) a in
              (
                pair_reject reason,
                s,
                inr (b, _, r, ap (λ x. x.2) (perform_handshake-got (pair_reject reason))),
              )
        ]

  -- When every message arrives, both sides use SHA-256, the address is not locked out and the
  -- client has the server's PIN: the server answers `HelloAck` and `PairAccept` and takes the
  -- client as paired under the fingerprint of its secret, and the client's handshake succeeds.
  pub handshake_right_pin :
      ((bytes : List ℕ) → env.sha256 bytes ≡ server.sha256 bytes)
      → my_pin env opts ≡ state.pin
      → is_rate_limited server.checked_at state.rate_limiter peer_ip ≡ false
      → (accepted.1 ≡ hello_ack state.file_port state.config.server_name ∷ pair_accept ∷ [])
        × (accepted.2 ≡ Pairing.ok (name, fp))
        × ((completed pair_accept).2 ≡ ok (state.file_port, state.config.server_name))
  unfolding my_request on_pair_answer
  handshake_right_pin same pin free =
      let equal : pairing_proof server.sha256 state.pin env.random_nonce fp ≡ proof =
        pairing_proof_same env.sha256 server.sha256 (my_pin env opts) state.pin env.random_nonce fp
          same pin in
      let matches : proof_matches (pairing_proof server.sha256 state.pin env.random_nonce fp) proof
          ≡ true =
        (proof_matches_iff (pairing_proof server.sha256 state.pin env.random_nonce fp) proof
            (ap length equal)).1
          equal in
      let (s, r) =
        answered_allowed server id peer_ip name default_caps env.random_nonce fp proof state
          (server_delivers 0) (server_delivers 1) (ground (arith, free, matches)) in
      (s, r, ap (λ x. x.2) (perform_handshake-got pair_accept))
