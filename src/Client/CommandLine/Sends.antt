-- ===== src/Client/CommandLine/Sends.antt =====
-- `--send-file` of client/src/main.rs against a server on whose file port another one listens.
use xkvm.Base.{
  ℕ, ◌≡◌, refl, ap, ◌≢◌, ◌⊎◌, inl, inr, false, none, some, List, [], subst, Bool-cases, All, nat_eq,
  Text, text_eq,
}
use xkvm.Base.Bytes.{IsByte}
use xkvm.Protocol.{Envelope}
use xkvm.Client.Hex.{fingerprint_der}
use xkvm.Client.Config.{Config}
use xkvm.Client.Handshake.{Incoming, ConnectError, Result, ok, err, Env}
use xkvm.Client.Connect.{Session, presents, connect, verify_server_cert}
use xkvm.Client.Connect.Pinning.{connect_pins}
use xkvm.Client.Connect.Recognition.{verify_server_cert_iff}
use xkvm.Client.Sending.{LocalFile, Sending, channel_fingerprint}
use xkvm.Client.Sending.Arrival.{send_file_mismatch}
use xkvm.Client.CommandLine.{Args, connect_options, send_over, send_command}

module _ (env : Env) (mismatch : Text → Text → Text) where
  same_right : (a b : Sending) → Path (ConnectError ⊎ Sending) (inr a) (inr b) → a ≡ b
  same_right a b h = cc h

  send_over-refused :
      (id : ℕ) (args : Args) (other : List ℕ) (file : LocalFile)
      (channel_reply answer verdict : Incoming) (config' : Config) (sent : List Envelope)
      (sending : Sending) (r : Config × List Envelope × Result Session)
      → ((session : Session)
          → r.2 ≡ ok session
          → verify_server_cert env
              (channel_fingerprint env id r.0
                (connect_options args)
                session.host
                session.file_transfer_port)
              other
            ≡ false)
      → send_over env mismatch id args file (presents other) channel_reply answer verdict r
        ≡ (config', sent, inr sending)
      → (sending.sent ≡ []) × (sending.body ≡ []) × (sending.error ≢ none)
  unfolding send_over
  send_over-refused id args other file channel_reply answer verdict config' sent sending
        (config, s, err e) refused h =
      absurd (cc h)
  send_over-refused id args other file channel_reply answer verdict config' sent sending
        (config, s, ok session) refused h =
      subst (λ (o : Sending). (o.sent ≡ []) × (o.body ≡ []) × (o.error ≢ none))
        (same_right _ _ (ap (λ o. o.2) h))
        (send_file_mismatch env id session.host session.file_transfer_port file config
          (connect_options args) other channel_reply answer verdict (refused session refl))

  -- No byte of the file leaves the client if the file channel ends at a certificate that has
  -- another SHA-256 than the one of the control connection, whatever is pinned for the addresses
  -- before: the request and the offer are not sent either, and the sending fails. It is supposed
  -- that no fingerprint is given with `--fingerprint`, that SHA-256 gives bytes and that the upper
  -- case of a fingerprint is the fingerprint.
  send_command-intercepted :
      (id : ℕ) (args : Args) (config : Config) (address : Text) (cert other : List ℕ)
      (ack reply : Incoming) (file : LocalFile) (channel_reply answer verdict : Incoming)
      (config' : Config) (sent : List Envelope) (sending : Sending)
      → args.fingerprint ≡ none
      → ((c : List ℕ) → All IsByte (env.sha256 c))
      → ((c : List ℕ)
          → env.casing.to_uppercase (fingerprint_der env.sha256 c) ≡ fingerprint_der env.sha256 c)
      → env.sha256 cert ≢ env.sha256 other
      → send_command env mismatch id args config address
          (presents cert)
          ack
          reply
          file
          (presents other)
          channel_reply
          answer
          verdict
        ≡ (config', sent, inr sending)
      → (sending.sent ≡ []) × (sending.body ≡ []) × (sending.error ≢ none)
  unfolding send_command
  send_command-intercepted id args config address cert other ack reply file channel_reply answer
        verdict config' sent sending no_fp bytes upper differ h =
      let c =
        connect env mismatch (connect_options args) config address (presents cert) ack reply in
      send_over-refused id args other file channel_reply answer verdict config' sent sending c
        (λ session made.
          let pinned =
            connect_pins env mismatch (connect_options args) config c.0 address cert ack reply c.1
              session (ap (λ o. (c.0, c.1, o)) made) in
          rw (channel_fingerprint, no_fp, pinned)
            (elim (Bool-cases
              (verify_server_cert env (some (fingerprint_der env.sha256 cert)) other)) [
                | inl accepted ↦
                    absurd (
                      differ
                        ((verify_server_cert_iff env cert other bytes (upper cert)).0 accepted))
                | inr refusal ↦ refusal
              ]))
        h
