-- ===== src/Examples/Trust.antt =====
-- Attempts to connect again, and the file that the control panel sends, at concrete inputs.
use xkvm.Base.{
  ◌≡◌, refl, ◌≢◌, inl, inr, true, false, none, some, List, [], ◌∷◌, map, All, nat_eq, lookup,
  contains, codes, text_beq, text_eq, is_whitespace,
}
use xkvm.Protocol.{hello_ack, pair_accept, file_accept, file_complete}
use xkvm.Client.Addr.{parse_host_port, format_host_port}
use xkvm.Client.Addr.Decimal.{parse_u16, print_u16}
use xkvm.Client.Hex.{fingerprint_der, join_pairs}
use xkvm.Client.Config.{Config, default_config, known_fingerprint}
use xkvm.Client.Handshake.{ConnectOptions, failed, got, ok, perform_handshake}
use xkvm.Client.Connect.{presents, required_fingerprint, on_certificate}
use xkvm.Client.Sending.{LocalFile, Sending}
use xkvm.Client.Sending
use xkvm.Client.Reconnect.Pinned.{
  Try, written, untouched, attempts, HasFingerprint, accepting, session_of, attempts_pinned,
  attempts_trusting,
}
use xkvm.Ui.{ActiveSession, AppState}
use xkvm.Ui.Panel.{TransferProgress, done_event, open_session, send_file_to_server}
use xkvm.Ui.Panel.Sends.{send_file_to_server-intercepted}
use xkvm.Examples.Pinned.{env, opts, first_use, file, is_byte}

abbrev tries : List Try
tries =
    record { transport = presents (7 ∷ []); ack = failed; reply = failed; save = untouched }
    ∷ record {
      transport = presents (9 ∷ 9 ∷ []);
      ack = got (hello_ack 4001 (codes "s"));
      reply = got pair_accept;
      save = written;
    }
    ∷ []

-- An attempt meets another certificate, which is fatal.
attempts_pinned_example :
    All
      (HasFingerprint env (λ e g. e) opts (codes "h:1") (fingerprint_der env.sha256 (7 ∷ 8 ∷ [])))
      (attempts env (λ e g. e) opts (codes "h:1") tries first_use.0)
unfolding on_certificate perform_handshake required_fingerprint known_fingerprint fingerprint_der
    join_pairs lookup text_beq parse_host_port parse_u16 contains print_u16 format_host_port
    is_whitespace
attempts_pinned_example =
    attempts_pinned env (λ e g. e) opts (codes "h:1") (7 ∷ 8 ∷ []) is_byte (λ c. refl) refl refl
      (codes "h") 1 tries first_use.0 refl refl (inr refl, (inl refl, tt))

abbrev trusting : ConnectOptions
trusting = record { pin = none; trust_new_cert = true; expected_fingerprint = none }

attempts_trusting_example :
    attempts env
      (λ e g. e)
      trusting
      (codes "h:1")
      (map
        (accepting env (λ e g. e) trusting (codes "h:1") 4001 (codes "s"))
        ((1 ∷ []) ∷ (2 ∷ 3 ∷ []) ∷ []))
      default_config
    ≡ map
        (λ c. ok (session_of env (λ e g. e) trusting (codes "h:1") (codes "h") (codes "s") 4001 c))
        ((1 ∷ []) ∷ (2 ∷ 3 ∷ []) ∷ [])
unfolding parse_host_port parse_u16 is_whitespace
attempts_trusting_example =
    attempts_trusting env (λ e g. e) trusting (codes "h:1") ((1 ∷ []) ∷ (2 ∷ 3 ∷ []) ∷ [])
      default_config (codes "h") (codes "s") 1 4001 refl refl refl (λ n. refl)

abbrev active : ActiveSession
active = record {
  cancel = 5;
  address = codes "h:1";
  server_name = codes "s";
  fingerprint = codes "02";
  file_port = 4001;
  host = codes "h";
}

abbrev panel : AppState
panel = record {
  generation = 1;
  session = some active;
  forwarding_active = false;
  last_error = none;
  latency_ms = none;
}

abbrev opened : Config
opened =
    (open_session env (λ e g. e) none true (codes "h:1") 5 default_config (presents (7 ∷ 8 ∷ []))
      (got (hello_ack 4001 (codes "s"))) (got pair_accept)).0

abbrev ended : TransferProgress
ended = done_event (codes "f") (some Sending.no_connection)

send_file_to_server-intercepted_example :
    let sending = Sending.nothing_sent Sending.no_connection in
    (sending.sent ≡ []) × (sending.body ≡ []) × (ended.done ≡ true) × (ended.error ≢ none)
unfolding open_session is_whitespace parse_u16 perform_handshake contains text_beq print_u16
    fingerprint_der send_file_to_server
send_file_to_server-intercepted_example =
    send_file_to_server-intercepted env (λ e g. e) none true (codes "h:1") 5 default_config opened
      default_config (7 ∷ 8 ∷ []) (7 ∷ []) (got (hello_ack 4001 (codes "s"))) (got pair_accept)
      active 1 (codes "/f") file (got pair_accept) (got (file_accept 1 0)) (got (file_complete 1))
      panel (Sending.nothing_sent Sending.no_connection) [] ended is_byte (λ c. refl) refl refl
      (λ e. cc e) refl
