-- ===== src/Ui/Panel.antt =====
-- The commands of ui/src/main.rs that hand values on: how `connect_to_server` gets what it
-- installs, `send_file_to_server`, the list of servers and the events for the front end.
pub mod Sends
use xkvm.Base.{
  ℕ, zero, suc, ◌+◌, ◌-◌, ◌*◌, ◌/◌, ◌%◌, ◌^◌, ◌≤◌, ◌<◌, min, max, ◌≡◌, refl, sym, ap, ◌∙◌, ◌≢◌, ◌↔◌,
  ◌⊎◌, inl, inr, Bool, true, false, not, ◌&&◌, ◌||◌, Option, none, some, List, [], ◌∷◌, ◌++◌, map,
  append_assoc, append-nil, arith, subst, ltb, leb, ◌==◌, if◌then◌else◌, ltb→lt, lt→ltb, ltb→le,
  le→ltb, leb→le, le→leb, ==_iff, tests, Bool-cases, Option-cases, is_some, unwrap_or, ◌>>=◌,
  length, take, drop, All, length-append, take-append-drop, length-take, length-drop, take-append,
  drop-append, All-append, Eq, nat_eq, lookup, insert, remove, lookup-insert, lookup-insert_self,
  lookup-remove, contains, add, without, contains-add, contains-without, contains-append, Text,
  codes, text_beq, text_beq_iff, text_eq, utf8, byte_len, is_whitespace, is_nil, trim_start,
  trim_end, trim,
}
use xkvm.Protocol.{Envelope, default_control_port}
use xkvm.Client.Addr
use xkvm.Client.Addr.{parse_host_port, format_host_port}
use xkvm.Client.Hex.{fingerprint_der}
use xkvm.Client.Config.{Config, known_fingerprint}
use xkvm.Client.Config as ClientConfig
use xkvm.Client.Handshake.{Incoming, ConnectError, Result, ok, err, Env, ConnectOptions}
use xkvm.Client.Connect.{
  Session, Transport, presents, connect, on_address, reach, on_certificate, verify_server_cert,
}
use xkvm.Client.Connect.Pinning.{on_certificate_pins}
use xkvm.Client.Connect.Recognition.{verify_server_cert_iff}
use xkvm.Client.Session.{
  SessionEvent, connected, disconnected, forwarding_changed, clipboard_received, latency, error,
}
use xkvm.Client.Sending.{LocalFile, SendError, Sending, send_file, channel_fingerprint}
use xkvm.Client.Sending.Arrival.{send_file_mismatch}
use xkvm.Ui.{ActiveSession, AppState}

-- What the front end is sent; `closed` says whether the reason is `closed`, as in `SessionEvent`.
pub data StatusEvent : Type 0 where
  status_connected : (server_name fingerprint : Text) → StatusEvent
  status_disconnected : (closed : Bool) → StatusEvent
  status_forwarding : (active : Bool) → StatusEvent
  status_clipboard : (bytes : ℕ) → StatusEvent
  status_latency : (ms : ℕ) → StatusEvent
  status_error : (message : Text) → StatusEvent

unfoldable pub status_of : SessionEvent → StatusEvent
status_of (connected server_name fingerprint) = status_connected server_name fingerprint
status_of (disconnected closed) = status_disconnected closed
status_of (forwarding_changed on) = status_forwarding on
status_of (clipboard_received bytes) = status_clipboard bytes
status_of (latency ms) = status_latency ms
status_of (error msg) = status_error msg

pub record TransferProgress : Type 0 where
  pub file_name : Text
  pub sent : ℕ
  pub total : ℕ
  pub done : Bool
  pub error : Option SendError

-- The event at the end of a transfer, and those before it.
unfoldable pub progress_events : Text → List (ℕ × ℕ) → List TransferProgress
progress_events file_name [] = []
progress_events file_name ((sent, total) ∷ progress) =
    record { file_name = file_name; sent = sent; total = total; done = false; error = none }
    ∷ progress_events file_name progress

abbrev pub done_event : Text → Option SendError → TransferProgress
done_event file_name e = record {
  file_name = file_name;
  sent = 0;
  total = 0;
  done = true;
  error = e;
}

-- `forget_server`: the configuration is saved if the server was known.
unfoldable pub forget_server : Text → Config → Config × Bool
unfolding ClientConfig.forget_server
forget_server address config =
    let (config', removed) = ClientConfig.forget_server address config in
    if removed then (config', removed) else (config, removed)

module _ (env : Env) (mismatch : Text → Text → Text) where
  -- The session that is installed, for the token `cancel`.
  unfoldable active_of : Text → ℕ → Config → Session → Addr.Result → Option ActiveSession
  unfolding format_host_port known_fingerprint
  active_of addr cancel config session (Addr.ok host port) =
      let normalized = format_host_port host port in
      some (record {
        cancel = cancel;
        address = normalized;
        server_name = session.server_name;
        fingerprint = unwrap_or (known_fingerprint config normalized) [];
        file_port = session.file_transfer_port;
        host = session.host;
      })
  active_of addr cancel config session _ = none

  unfoldable opened :
      Text → ℕ → Config × List Envelope × Result Session → Config × Option ActiveSession
  unfolding active_of parse_host_port
  opened addr cancel (config, sent, err e) = (config, none)
  opened addr cancel (config, sent, ok session) =
      (config, active_of addr cancel config session (parse_host_port addr default_control_port))

  -- `connect_to_server` up to the installation.
  unfoldable pub open_session :
      (pin : Option Text)
      → (trust_new_cert : Bool) → Text
      → ℕ
      → Config
      → Transport
      → (ack reply : Incoming) → Config × Option ActiveSession
  unfolding opened connect
  open_session pin trust_new_cert addr cancel config transport ack reply =
      let opts : ConnectOptions = record {
        pin = pin;
        trust_new_cert = trust_new_cert;
        expected_fingerprint = none;
      } in
      opened addr cancel (connect env mismatch opts config addr transport ack reply)

  -- The options with which a file is sent.
  abbrev file_options : ActiveSession → ConnectOptions
  file_options active = record {
    pin = none;
    trust_new_cert = false;
    expected_fingerprint = some active.fingerprint;
  }

  -- What is sent, with the events that are emitted; `none` is the error `not connected to a
  -- server`.
  unfoldable pub send_file_to_server :
      ℕ
      → (file_path : Text) → LocalFile
      → Config
      → Transport
      → (reply answer verdict : Incoming) → AppState
      → Option (Sending × List TransferProgress × TransferProgress)
  unfolding send_file progress_events
  send_file_to_server id file_path file config channel reply answer verdict state =
      elim state.session [
        | none ↦ none
        | some active ↦
            let file_name = unwrap_or file.file_name file_path in
            let sending =
              send_file env id active.host active.file_port file config (file_options active)
                channel reply answer verdict in
            some (
              sending,
              progress_events file_name sending.progress,
              done_event file_name sending.error,
            )
      ]
