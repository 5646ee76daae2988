-- ===== src/Server/Authentication.antt =====
-- Who is let in by the handshake and the pairing of `handle_client`.
use xkvm.Base.{
  ℕ, ◌≡◌, refl, sym, ap, ◌⊎◌, inl, inr, true, false, List, [], ◌∷◌, arith, subst, nat_eq, Text,
  text_beq_iff, text_eq,
}
use xkvm.Protocol.{Caps, Envelope, hello, hello_ack, pair_request, protocol_version}
use xkvm.Protocol.Proof.{pairing_proof, proof_matches}
use xkvm.RateLimit.{IpAddr, is_rate_limited}
use xkvm.Server.Config.{is_paired, is_paired-add_paired_device}
use xkvm.Server.State.{ServerState}
use xkvm.Server.Pairing.{
  Incoming, got, Bail, Reply, ok, bail, Env, answer_pair_request, register, connect,
}

-- The proof that a pair request needs of a device that is not paired yet.
abbrev pub Proves : Env → ServerState → (nonce : List ℕ) → Text → (proof : List ℕ) → Type 0
Proves env state nonce fingerprint proof =
    proof_matches (pairing_proof env.sha256 state.pin nonce fingerprint) proof ≡ true

module _ (env : Env) (peer_ip : IpAddr) (name : Text) (state : ServerState) where
  answer_accepts :
      (nonce : List ℕ) (fingerprint : Text) (proof : List ℕ) (sent : List Envelope) (fp : Text)
      → (answer_pair_request env peer_ip name nonce fingerprint proof state sent).2 ≡ ok fp
      → (fp ≡ fingerprint)
        × (is_rate_limited env.checked_at state.rate_limiter peer_ip ≡ false)
        × ((is_paired state.config fingerprint ≡ true) ⊎ Proves env state nonce fingerprint proof)
  unfolding answer_pair_request
  answer_accepts nonce fingerprint proof sent fp h = ground arith

  -- A device that is paired after the answer was paired before, or is the one that sent the request
  -- and proved that it knows the PIN.
  answer_pairs :
      (nonce : List ℕ) (fingerprint : Text) (proof : List ℕ) (sent : List Envelope) (other : Text)
      → is_paired
          (answer_pair_request env peer_ip name nonce fingerprint proof state sent).0.config
          other
        ≡ true
      → (is_paired state.config other ≡ true)
        ⊎ ((other ≡ fingerprint)
            × Proves env state nonce fingerprint proof
            × (is_rate_limited env.checked_at state.rate_limiter peer_ip ≡ false))
  unfolding answer_pair_request
  answer_pairs nonce fingerprint proof sent other h = ground (
    arith,
    is_paired-add_paired_device env.paired_at state.config fingerprint name other,
    text_beq_iff fingerprint other,
  )

  -- After an accepting answer the device is paired.
  answer-is_paired :
      (nonce : List ℕ) (fingerprint : Text) (proof : List ℕ) (sent : List Envelope) (fp : Text)
      → (answer_pair_request env peer_ip name nonce fingerprint proof state sent).2 ≡ ok fp
      → is_paired
          (answer_pair_request env peer_ip name nonce fingerprint proof state sent).0.config
          fp
        ≡ true
  unfolding answer_pair_request
  answer-is_paired nonce fingerprint proof sent fp h = ground (
    arith,
    is_paired-add_paired_device env.paired_at state.config fingerprint name fp,
    text_beq_iff fingerprint fp,
  )

  answer_registry :
      (nonce : List ℕ) (fingerprint : Text) (proof : List ℕ) (sent : List Envelope)
      → let after = (answer_pair_request env peer_ip name nonce fingerprint proof state sent).0 in
        (after.registry ≡ state.registry) × (after.forwarding_enabled ≡ state.forwarding_enabled)
  unfolding answer_pair_request
  answer_registry nonce fingerprint proof sent = ground arith

module _ (env : Env) (id : ℕ) (peer_ip : IpAddr) (state : ServerState) where
  -- The answer to a pair request, after a `HelloAck` went out.
  abbrev answered : Text → List ℕ → Text → List ℕ → ServerState × List Envelope × Reply Text
  answered name nonce fingerprint proof =
      answer_pair_request env peer_ip name nonce fingerprint proof state
        (hello_ack state.file_port state.config.server_name ∷ [])

  -- A connection that succeeds had a `Hello` of the right version and a pair request that was
  -- answered by an acceptance; the client is then registered.
  abbrev Connected : Incoming → Incoming → ServerState → Text → Text → Type 0
  Connected hello_in pair_in state' name fp =
      (caps : Caps) × (nonce : List ℕ) × (fingerprint : Text) × (proof : List ℕ) × (hello_in
        ≡ got (hello name protocol_version caps))
      × (pair_in ≡ got (pair_request nonce fingerprint proof))
      × ((answered name nonce fingerprint proof).2 ≡ ok fp)
      × (state' ≡ register id (answered name nonce fingerprint proof).0)

  connect-eq_ok :
      (hello_in pair_in : Incoming) (state' : ServerState) (sent : List Envelope) (name fp : Text)
      → connect env id peer_ip hello_in pair_in state ≡ (state', sent, ok (name, fp))
      → Connected hello_in pair_in state' name fp
  unfolding connect
  connect-eq_ok (got (hello n v caps)) (got (pair_request nonce f proof)) state' sent name fp h =
      let version : v ≡ protocol_version = ground (arith, text_beq_iff v protocol_version) in
      let same : n ≡ name = ground arith in
      (caps, nonce, f, proof, cc, refl, ground arith, ground arith)
  connect-eq_ok _ _ state' sent name fp h = absurd (ground arith)

  register-config : (s : ServerState) → (register id s).config ≡ s.config
  unfolding register
  register-config s = ground arith

  -- A client is let in only if its address is not locked out and its device is paired already, or
  -- it proves that it knows the PIN. Afterwards its device is paired.
  pub connect_authentic :
      (hello_in pair_in : Incoming) (state' : ServerState) (sent : List Envelope) (name fp : Text)
      → connect env id peer_ip hello_in pair_in state ≡ (state', sent, ok (name, fp))
      → (is_rate_limited env.checked_at state.rate_limiter peer_ip ≡ false)
        × ((is_paired state.config fp ≡ true)
            ⊎ ((nonce : List ℕ) × (proof : List ℕ) × (pair_in ≡ got (pair_request nonce fp proof))
                × Proves env state nonce fp proof))
        × (is_paired state'.config fp ≡ true)
  connect_authentic hello_in pair_in state' sent name fp h =
      let (caps, nonce, f, proof, hi, pi, accepted, after) =
        connect-eq_ok hello_in pair_in state' sent name fp h in
      let out = hello_ack state.file_port state.config.server_name ∷ [] in
      let (same, free, why) = answer_accepts env peer_ip name state nonce f proof out fp accepted in
      let kept = answer-is_paired env peer_ip name state nonce f proof out fp accepted in
      (
        free,
        elim why [
          | inl old ↦ inl (rw same old)
          | inr new ↦ inr (nonce, proof, rw same pi, rw same new)
        ],
        rw (after, register-config) kept,
      )

  -- However a connection ends, a device that is paired afterwards was paired before, or is the one
  -- whose pair request this is, from an address that is not locked out and with a proof that fits
  -- the PIN.
  pub connect_pairs :
      (hello_in pair_in : Incoming) (other : Text)
      → is_paired (connect env id peer_ip hello_in pair_in state).0.config other ≡ true
      → (is_paired state.config other ≡ true)
        ⊎ ((nonce : List ℕ) × (proof : List ℕ) × (pair_in ≡ got (pair_request nonce other proof))
            × Proves env state nonce other proof
            × (is_rate_limited env.checked_at state.rate_limiter peer_ip ≡ false))
  unfolding connect
  connect_pairs (got (hello n v caps)) (got (pair_request nonce f proof)) other h =
      let out = hello_ack state.file_port state.config.server_name ∷ [] in
      let either : (is_paired state.config other ≡ true)
          ⊎ (is_paired (answer_pair_request env peer_ip n nonce f proof state out).0.config other
              ≡ true) =
        ground
          (arith, register-config (answer_pair_request env peer_ip n nonce f proof state out).0) in
      elim either [
        | inl old ↦ inl old
        | inr now ↦ elim (answer_pairs env peer_ip n state nonce f proof out other now) [
          | inl old ↦ inl old
          | inr (same, proves, free) ↦ inr (
            nonce,
            proof,
            ap (λ x. got (pair_request nonce x proof)) (sym same),
            subst (λ x. Proves env state nonce x proof) (sym same) proves,
            free,
          )
        ]
      ]
  connect_pairs _ _ other h = inl (ground arith)

  -- A connection that is refused changes neither the registry nor the forwarding.
  pub connect_refused :
      (hello_in pair_in : Incoming) (state' : ServerState) (sent : List Envelope) (b : Bail)
      → connect env id peer_ip hello_in pair_in state ≡ (state', sent, bail b)
      → (state'.registry ≡ state.registry) × (state'.forwarding_enabled ≡ state.forwarding_enabled)
  unfolding connect
  connect_refused (got (hello n v caps)) (got (pair_request nonce f proof)) state' sent b h =
      ground (
        arith,
        answer_registry env peer_ip n state nonce f proof
            (hello_ack state.file_port state.config.server_name ∷ []),
      )
  connect_refused _ _ state' sent b h = ground arith

Reply-cases {ℓ} : {A : Type ℓ} (r : Reply A) → ((a : A) × (r ≡ ok a)) ⊎ ((b : Bail) × (r ≡ bail b))
Reply-cases (ok a) = inl (a, refl)
Reply-cases (bail b) = inr (b, refl)

-- A connection either leaves the registry and the forwarding as they were, or registers its client
-- in such a state.
pub connect_registers :
    (env : Env) (id : ℕ) (peer_ip : IpAddr) (hello_in pair_in : Incoming) (state : ServerState)
    → let state' = (connect env id peer_ip hello_in pair_in state).0 in
      ((state'.registry ≡ state.registry) × (state'.forwarding_enabled ≡ state.forwarding_enabled))
      ⊎ ((s : ServerState) × (s.registry ≡ state.registry)
          × (s.forwarding_enabled ≡ state.forwarding_enabled)
          × (state' ≡ register id s))
connect_registers env id peer_ip hello_in pair_in state =
    let (state', sent, reply) = connect env id peer_ip hello_in pair_in state in
    elim (Reply-cases reply) [
      | inl ((name, fp), e) ↦
          let (caps, nonce, f, proof, hi, pi, accepted, after) =
            connect-eq_ok env id peer_ip state hello_in pair_in state' sent name fp
              (ap (λ r. (state', sent, r)) e) in
          let out = hello_ack state.file_port state.config.server_name ∷ [] in
          let (same, on) = answer_registry env peer_ip name state nonce f proof out in
          inr ((answer_pair_request env peer_ip name nonce f proof state out).0, same, on, after)
      | inr (b, e) ↦ inl (
          connect_refused env id peer_ip state hello_in pair_in state' sent b
            (ap (λ r. (state', sent, r)) e))
    ]
