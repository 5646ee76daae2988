-- ===== src/Ui/Panel/Sends.antt =====
-- A file that is sent from the control panel goes to the server of the session.
use xkvm.Base.{
  ℕ, ◌≡◌, refl, sym, ap, ◌∙◌, ◌≢◌, inl, inr, Bool, true, false, Option, none, some, List, [], subst,
  Bool-cases, unwrap_or, ◌>>=◌, All, nat_eq, Text, text_eq,
}
use xkvm.Base.Bytes.{IsByte}
use xkvm.Protocol.{Envelope, default_control_port}
use xkvm.Client.Addr
use xkvm.Client.Addr.{parse_host_port, format_host_port}
use xkvm.Client.Hex.{fingerprint_der}
use xkvm.Client.Config.{Config, known_fingerprint}
use xkvm.Client.Handshake.{Incoming, Result, ok, err, Env, ConnectOptions}
use xkvm.Client.Connect.{Session, presents, connect, on_address, reach, verify_server_cert}
use xkvm.Client.Connect.Pinning.{on_certificate_pins}
use xkvm.Client.Connect.Recognition.{verify_server_cert_iff}
use xkvm.Client.Sending.{LocalFile, Sending, send_file, channel_fingerprint}
use xkvm.Client.Sending.Arrival.{send_file_mismatch}
use xkvm.Ui.{ActiveSession, AppState}
use xkvm.Ui.Panel.{
  TransferProgress, active_of, opened, open_session, file_options, send_file_to_server,
}

module _ (env : Env) (mismatch : Text → Text → Text) where
  same_parts :
      (a a' : Sending) (b b' : List TransferProgress) (c c' : TransferProgress)
      → Path
          (Option (Sending × List TransferProgress × TransferProgress))
          (some (a, b, c))
          (some (a', b', c'))
      → (a ≡ a') × (c ≡ c')
  same_parts a a' b b' c c' h = (
    ap
        (λ (o : Option (Sending × List TransferProgress × TransferProgress)).
          (unwrap_or o (a, b, c)).0)
        h,
    ap
        (λ (o : Option (Sending × List TransferProgress × TransferProgress)).
          (unwrap_or o (a, b, c)).2)
        h,
  )

  -- What is pinned once a connection is made.
  pinned_at :
      (opts : ConnectOptions) (addr : Text) (config config' : Config) (cert : List ℕ)
      (ack reply : Incoming) (sent : List Envelope) (session : Session) (host : Text) (port : ℕ)
      → connect env mismatch opts config addr (presents cert) ack reply
        ≡ (config', sent, ok session)
      → parse_host_port addr default_control_port ≡ Addr.ok host port
      → known_fingerprint config' (format_host_port host port)
        ≡ some (fingerprint_der env.sha256 cert)
  unfolding connect on_address reach
  pinned_at opts addr config config' cert ack reply sent session host port made parsed =
      let (seen, kept, _) =
        on_certificate_pins env mismatch opts config host (format_host_port host port) cert ack
          reply config' sent session (rw parsed at made) in
      kept ∙ ap some seen

  active_of-fingerprint :
      (fp addr : Text) (cancel : ℕ) (config : Config) (session : Session) (active : ActiveSession)
      (r : Addr.Result)
      → ((host : Text) (port : ℕ)
          → r ≡ Addr.ok host port
          → known_fingerprint config (format_host_port host port) ≡ some fp)
      → active_of env mismatch addr cancel config session r ≡ some active
      → active.fingerprint ≡ fp
  unfolding active_of
  active_of-fingerprint fp addr cancel config session active (Addr.ok host port) pinned h =
      ap (λ o. unwrap_or (o >>= λ (a : ActiveSession). some a.fingerprint) []) (sym h)
      ∙ ap (λ o. unwrap_or o []) (pinned host port refl)
  active_of-fingerprint fp addr cancel config session active _ pinned h = absurd (cc h)

  opened-fingerprint :
      (fp addr : Text) (cancel : ℕ) (config' : Config) (active : ActiveSession)
      (outcome : Config × List Envelope × Result Session)
      → ((session : Session) (host : Text) (port : ℕ)
          → outcome.2 ≡ ok session
          → parse_host_port addr default_control_port ≡ Addr.ok host port
          → known_fingerprint outcome.0 (format_host_port host port) ≡ some fp)
      → opened env mismatch addr cancel outcome ≡ (config', some active)
      → active.fingerprint ≡ fp
  unfolding opened
  opened-fingerprint fp addr cancel config' active (config, sent, err e) pinned h = absurd (cc h)
  opened-fingerprint fp addr cancel config' active (config, sent, ok session) pinned h =
      active_of-fingerprint fp addr cancel config session active
        (parse_host_port addr default_control_port) (λ host port. pinned session host port refl)
        (ap (λ o. o.1) h)

  -- The session of the panel has the fingerprint of the certificate that the server has presented.
  open_session-fingerprint :
      (pin : Option Text) (trust_new_cert : Bool) (addr : Text) (cancel : ℕ)
      (config config' : Config) (cert : List ℕ) (ack reply : Incoming) (active : ActiveSession)
      → open_session env mismatch pin trust_new_cert addr cancel config (presents cert) ack reply
        ≡ (config', some active)
      → active.fingerprint ≡ fingerprint_der env.sha256 cert
  unfolding open_session
  open_session-fingerprint pin trust_new_cert addr cancel config config' cert ack reply active h =
      let opts : ConnectOptions = record {
        pin = pin;
        trust_new_cert = trust_new_cert;
        expected_fingerprint = none;
      } in
      let c = connect env mismatch opts config addr (presents cert) ack reply in
      opened-fingerprint (fingerprint_der env.sha256 cert) addr cancel config' active c
        (λ session host port made parsed.
          pinned_at opts addr config c.0 cert ack reply c.1 session host port
            (ap (λ o. (c.0, c.1, o)) made) parsed)
        h

  -- A file that is sent while a session is installed goes only to a server that has the certificate
  -- of that session, however the session was trusted, whatever the configuration has pinned since
  -- and whatever has become of the rest of the state: with another SHA-256, nothing is sent, and
  -- the front end is told an error. It is supposed that SHA-256 gives bytes and that the upper case
  -- of a fingerprint is the fingerprint.
  pub send_file_to_server-intercepted :
      (pin : Option Text) (trust_new_cert : Bool) (addr : Text) (cancel : ℕ)
      (config config' later : Config) (cert other : List ℕ) (ack reply : Incoming)
      (active : ActiveSession) (id : ℕ) (file_path : Text) (file : LocalFile)
      (channel_reply answer verdict : Incoming) (state : AppState) (sending : Sending)
      (progress : List TransferProgress) (done : TransferProgress)
      → ((c : List ℕ) → All IsByte (env.sha256 c))
      → ((c : List ℕ)
          → env.casing.to_uppercase (fingerprint_der env.sha256 c) ≡ fingerprint_der env.sha256 c)
      → open_session env mismatch pin trust_new_cert addr cancel config (presents cert) ack reply
        ≡ (config', some active)
      → state.session ≡ some active
      → env.sha256 cert ≢ env.sha256 other
      → send_file_to_server env mismatch id file_path file later
          (presents other)
          channel_reply
          answer
          verdict
          state
        ≡ some (sending, progress, done)
      → (sending.sent ≡ []) × (sending.body ≡ []) × (done.done ≡ true) × (done.error ≢ none)
  unfolding send_file_to_server channel_fingerprint
  send_file_to_server-intercepted pin trust_new_cert addr cancel config config' later cert other ack
        reply active id file_path file channel_reply answer verdict state sending progress done
        bytes upper made installed differ h =
      let same =
        open_session-fingerprint pin trust_new_cert addr cancel config config' cert ack reply active
          made in
      let refused : verify_server_cert env (some active.fingerprint) other ≡ false =
        rw same
          (elim (Bool-cases
            (verify_server_cert env (some (fingerprint_der env.sha256 cert)) other)) [
              | inl accepted ↦
                  absurd
                    (differ ((verify_server_cert_iff env cert other bytes (upper cert)).0 accepted))
              | inr refusal ↦ refusal
            ]) in
      let outcome =
        send_file env id active.host active.file_port file later (file_options env mismatch active)
          (presents other) channel_reply answer verdict in
      let (sent, body, failed) =
        send_file_mismatch env id active.host active.file_port file later
          (file_options env mismatch active) other channel_reply answer verdict refused in
      let (same_sending, same_done) =
        same_parts outcome sending _ progress _ done (rw installed at h) in
      (
        subst (λ (s : Sending). s.sent ≡ []) same_sending sent,
        subst (λ (s : Sending). s.body ≡ []) same_sending body,
        subst (λ (d : TransferProgress). d.done ≡ true) same_done refl,
        subst (λ (d : TransferProgress). d.error ≢ none) same_done failed,
      )
