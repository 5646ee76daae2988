-- ===== src/Client/Connect/Pinning.antt =====
-- What the certificate of the server decides, and what is pinned afterwards.
use xkvm.Base.{
  ℕ, ◌≡◌, refl, ap, ◌∙◌, inl, inr, false, some, List, [], arith, if◌then◌else◌, Bool-cases, nat_eq,
  Text, text_beq, text_beq_iff, text_eq,
}
use xkvm.Protocol.{Envelope, default_control_port}
use xkvm.Client.Addr
use xkvm.Client.Addr.{format_host_port, parse_host_port}
use xkvm.Client.Config.{
  Config, known_fingerprint, add_known_server, add_known_server_alias,
  known_fingerprint-add_known_server_alias,
}
use xkvm.Client.Handshake.{Incoming, fatal, Result, ok, err, ConnectOptions, Env, perform_handshake}
use xkvm.Client.Connect.{
  Session, verify_server_cert, required_fingerprint, pin_server, on_certificate,
  eq_ignore_ascii_case, presents, reach, on_address, connect,
}
use xkvm.Client.Hex.{fingerprint_der}

module _ (env : Env) (mismatch : Text → Text → Text) (opts : ConnectOptions) (config : Config)
    (host address : Text) (cert : List ℕ) (ack reply : Incoming) where
  -- A server whose certificate does not have the fingerprint that is pinned for its address, or the
  -- one that the options ask for, is not spoken to: no envelope is sent, the configuration is as it
  -- was, and the error is not retried.
  pub on_certificate_mismatch :
      (fp : Text)
      → required_fingerprint env mismatch opts (known_fingerprint config address) ≡ some fp
      → eq_ignore_ascii_case (env.casing.to_uppercase fp) (fingerprint_der env.sha256 cert) ≡ false
      → (msg : Text) × (on_certificate env mismatch opts config host address cert ack reply
          ≡ (config, [], err (fatal msg)))
  unfolding on_certificate
  on_certificate_mismatch fp r e = (
    mismatch (env.casing.to_uppercase fp) (fingerprint_der env.sha256 cert),
    rw (r, verify_server_cert, e) refl,
  )

  known_fingerprint-add_known_server :
      (now : ℕ) (name a other fp : Text) (c : Config)
      → known_fingerprint (add_known_server now name a fp c) other
        ≡ (if text_beq a other then some fp else known_fingerprint c other)
  unfolding known_fingerprint add_known_server
  known_fingerprint-add_known_server now name a other fp c =
      known_fingerprint-add_known_server_alias now name a fp other c

  both_pinned :
      (now : ℕ) (name file fp : Text) (c : Config)
      → let kept = add_known_server now name address fp c in
        let c' =
          if text_beq file address then kept else add_known_server_alias now name file fp kept in
        (known_fingerprint c' address ≡ some fp) × (known_fingerprint c' file ≡ some fp)
  both_pinned now name file fp c =
      let kept = add_known_server now name address fp c in
      let a = known_fingerprint-add_known_server now name address address fp c in
      let b = known_fingerprint-add_known_server now name address file fp c in
      let d = known_fingerprint-add_known_server_alias now name file fp address kept in
      let e = known_fingerprint-add_known_server_alias now name file fp file kept in
      let same = text_beq_iff file address in
      let r = text_beq_iff address address in
      let r' = text_beq_iff file file in
      elim (Bool-cases (text_beq file address)) [
        | inl t ↦ (rw t (ground arith), rw t (ground arith))
        | inr t ↦ (rw t (ground arith), rw t (ground arith))
      ]

  -- After a connection the server's fingerprint is pinned for its address and for its file-transfer
  -- port, so the file channel finds it.
  pub on_certificate_pins :
      (config' : Config) (sent : List Envelope) (session : Session)
      → on_certificate env mismatch opts config host address cert ack reply
        ≡ (config', sent, ok session)
      → (session.fingerprint ≡ fingerprint_der env.sha256 cert)
        × (known_fingerprint config' address ≡ some session.fingerprint)
        × (known_fingerprint config' (format_host_port session.host session.file_transfer_port)
            ≡ some session.fingerprint)
  unfolding on_certificate pin_server
  on_certificate_pins config' sent session h =
      elim (Bool-cases (
        verify_server_cert env
          (required_fingerprint env mismatch opts (known_fingerprint config address)) cert)) [
            | inr e ↦ absurd (ground (arith, e, h))
            | inl e ↦ pinned (perform_handshake env opts config ack reply) (ground (arith, e, h))
          ]
    where
      pinned :
          (r : Config × List Envelope × Result (ℕ × Text))
          → pin_server env mismatch host address (fingerprint_der env.sha256 cert) r
            ≡ (config', sent, ok session)
          → (session.fingerprint ≡ fingerprint_der env.sha256 cert)
            × (known_fingerprint config' address ≡ some session.fingerprint)
            × (known_fingerprint config' (format_host_port session.host session.file_transfer_port)
                ≡ some session.fingerprint)
      pinned (c, s, err x) k = absurd (ground (arith, k))
      pinned (c, s, ok (port, name)) k =
          let (a, b) =
            both_pinned env.now name (format_host_port host port) (fingerprint_der env.sha256 cert)
              c in
          (ground (arith, k), ground (arith, k, a), ground (arith, k, b))

-- A connection that is made, to any address, has pinned the certificate of the server for its
-- file-transfer port.
pub connect_pins :
    (env : Env) (mismatch : Text → Text → Text) (opts : ConnectOptions) (config config' : Config)
    (addr : Text) (cert : List ℕ) (ack reply : Incoming) (sent : List Envelope) (session : Session)
    → connect env mismatch opts config addr (presents cert) ack reply ≡ (config', sent, ok session)
    → known_fingerprint config' (format_host_port session.host session.file_transfer_port)
      ≡ some (fingerprint_der env.sha256 cert)
unfolding connect on_address reach
connect_pins env mismatch opts config config' addr cert ack reply sent session h =
    pinned (parse_host_port addr default_control_port) h
  where
    pinned :
        (r : Addr.Result)
        → on_address env mismatch opts config (presents cert) ack reply r
          ≡ (config', sent, ok session)
        → known_fingerprint config' (format_host_port session.host session.file_transfer_port)
          ≡ some (fingerprint_der env.sha256 cert)
    pinned (Addr.ok host port) k =
        let (same, _, kept) =
          on_certificate_pins env mismatch opts config host (format_host_port host port) cert ack
            reply config' sent session k in
        kept ∙ ap some same
    pinned _ k = absurd (cc k)
