-- ===== src/Examples/Client.antt =====
-- The client at concrete inputs.
use xkvm.Base.{
  ℕ, ◌≡◌, refl, ◌⊎◌, inl, true, false, Option, none, some, List, [], ◌∷◌, ◌++◌, arith, length,
  nat_eq, lookup, Text, codes, text_beq, text_eq, utf8, is_whitespace,
}
use xkvm.Protocol.{Envelope, hello_ack, pair_accept, file_offer, file_accept, file_complete}
use xkvm.Protocol.Framing.{Bincode}
use xkvm.RateLimit.{v4, is_rate_limited}
use xkvm.Server.State.{ServerState}
use xkvm.Server.Pairing
use xkvm.FileTransfer.Receive
use xkvm.FileTransfer.Receive.{Chunk, bytes, resumed, handle_transfer}
use xkvm.FileTransfer.Resume.{done, read, IsReceived}
use xkvm.FileTransfer.Names.{Directory, sanitize_file_name}
use xkvm.Server.Config as ServerConfig
use xkvm.Server.Config.{is_paired}
use xkvm.Keys.Injected.{linux, f1}
use xkvm.Client.Inject.{left}
use xkvm.Client.Inject.Held.{key_down, button_down}
use xkvm.Client.Config
use xkvm.Client.Config.{default_config, known_fingerprint, client_fingerprint}
use xkvm.Client.Hex.{hex_encode, hex_decode}
use xkvm.Client.Handshake
use xkvm.Client.Handshake.{my_pin, perform_handshake, ConnectOptions, ConnectError, fatal, Env}
use xkvm.Client.Handshake.Agreement.{
  accepted, completed, name, fp, handshake_agrees, handshake_right_pin,
}
use xkvm.Client.Connect
use xkvm.Client.Connect.{
  eq_ignore_ascii_case, presents, verify_server_cert, on_certificate, required_fingerprint,
}
use xkvm.Client.Session
use xkvm.Client.Session.{error, read_failed, connection_closed, ping_tick, session_loop, start}
use xkvm.Client.Session.Release.{session_loop_frees, session_loop_dead}
use xkvm.Client.Sending.{Sending, channel_fingerprint, channel_request}
use xkvm.Client.Sending.Arrival.{sending, send_file-IsReceived}
use xkvm.Examples.Setup
use xkvm.Examples.Setup.{state}

abbrev env : Env
env = record {
  delivers = λ n. true;
  sha256 = λ bytes. length bytes ∷ [];
  casing = record { to_lowercase = λ s. s; to_uppercase = λ s. s };
  hostname = none;
  env_pin = none;
  random_secret = 1 ∷ 2 ∷ [];
  random_nonce = 3 ∷ [];
  now = 0;
}

abbrev opts : ConnectOptions
opts = record { pin = some (codes "1234"); trust_new_cert = false; expected_fingerprint = none }

-- The server's side of the handshake, and the client's.
abbrev met : ServerState × List Envelope × Pairing.Reply (Text × Text)
met =
    accepted env Setup.env 1 (v4 1) opts default_config (state false [] []) (λ n. refl) (λ n. refl)

abbrev replied : Envelope → Config.Config × List Envelope × Handshake.Result (ℕ × Text)
replied =
    completed env Setup.env 1 (v4 1) opts default_config (state false [] []) (λ n. refl) (λ n. refl)

abbrev name_sent : Text
name_sent =
    name env Setup.env 1 (v4 1) opts default_config (state false [] []) (λ n. refl) (λ n. refl)

abbrev fp_sent : Text
fp_sent = fp env Setup.env 1 (v4 1) opts default_config (state false [] []) (λ n. refl) (λ n. refl)

handshake_agrees_example :
    (answer : Envelope) × (met.1 ≡ hello_ack 4001 [] ∷ answer ∷ [])
    × (((met.2 ≡ Pairing.ok (name_sent, fp_sent)) × ((replied answer).2 ≡ Handshake.ok (4001, [])))
        ⊎ ((b : Pairing.Bail) × (msg : Text) × (met.2 ≡ Pairing.bail b)
            × ((replied answer).2 ≡ Handshake.err (fatal msg))))
handshake_agrees_example =
    handshake_agrees env Setup.env 1 (v4 1) opts default_config (state false [] []) (λ n. refl)
      (λ n. refl)

handshake_right_pin_example :
    (met.1 ≡ hello_ack 4001 [] ∷ pair_accept ∷ [])
    × (met.2 ≡ Pairing.ok (name_sent, fp_sent))
    × ((replied pair_accept).2 ≡ Handshake.ok (4001, []))
unfolding my_pin is_rate_limited lookup
handshake_right_pin_example =
    handshake_right_pin env Setup.env 1 (v4 1) opts default_config (state false [] []) (λ n. refl)
      (λ n. refl) (λ b. refl) refl refl

-- The fingerprint of a certificate of two bytes is "02"; another one is pinned.
abbrev pinned : Config.Config
pinned = record default_config {
  known_servers =
      (
        codes "h:1",
        record {
          name = codes "s";
          address = codes "h:1";
          fingerprint = codes "03";
          last_connected = 0;
        },
      )
      ∷ [];
}

abbrev first_use : Config.Config × List Envelope × Handshake.Result Connect.Session
first_use =
    on_certificate env (λ e g. e) opts default_config (codes "h") (codes "h:1") (7 ∷ 8 ∷ [])
      (Handshake.got (hello_ack 4001 (codes "s"))) (Handshake.got pair_accept)

abbrev session : Connect.Session
session = record {
  host = codes "h";
  server_name = codes "s";
  fingerprint = codes "02";
  file_transfer_port = 4001;
}

-- A file of three bytes, of which the server has the first.
abbrev file_server : Receive.Env
file_server = record { delivers = λ n. true; sha256 = λ bytes. length bytes ∷ [] }

abbrev server_config : ServerConfig.Config
server_config = record Setup.config { paired_devices = (codes "00", Setup.device) ∷ [] }

abbrev directory : Directory
directory = (codes "a.part", 3 ∷ []) ∷ []

abbrev tail : ℕ → Option (List Chunk)
tail offset = some (bytes (4 ∷ []) ∷ bytes (5 ∷ []) ∷ [])

abbrev sent : Sending
sent =
    sending env file_server (λ n. refl) (λ n. refl) (codes "h") 4001 (codes "a") 3
      (bytes (3 ∷ 4 ∷ 5 ∷ []) ∷ []) tail default_config opts [] 1 pair_accept (file_accept 1 1)
      (file_complete 1)

send_file-IsReceived_example :
    (sent.sent ≡ channel_request env 1 default_config ∷ file_offer 1 (codes "a") 3 (3 ∷ []) ∷ [])
    × (sent.body ≡ 4 ∷ 5 ∷ [])
    × (sent.error ≡ none)
    × IsReceived file_server
        (λ n. refl)
        (pair_accept ∷ file_accept 1 1 ∷ [])
        (record { id = 1; name = codes "a"; size = 3; sha256 = 3 ∷ [] })
        (3 ∷ 4 ∷ 5 ∷ [])
        directory
        (handle_transfer file_server server_config
          (Receive.got (channel_request env 1 default_config))
          (Receive.got (file_offer 1 (codes "a") 3 (3 ∷ [])))
          (bytes (4 ∷ 5 ∷ []) ∷ [])
          directory)
unfolding resumed sanitize_file_name is_paired client_fingerprint verify_server_cert
    channel_fingerprint known_fingerprint hex_encode hex_decode lookup text_beq is_whitespace utf8
send_file-IsReceived_example =
    send_file-IsReceived env file_server (λ n. refl) (λ n. refl) (codes "h") 4001 (codes "a") 3
      (bytes (3 ∷ 4 ∷ 5 ∷ []) ∷ []) tail default_config opts [] 1 server_config directory
      (3 ∷ 4 ∷ 5 ∷ []) (4 ∷ 5 ∷ []) (bytes (4 ∷ []) ∷ bytes (5 ∷ []) ∷ []) (bytes (4 ∷ 5 ∷ []) ∷ [])
      (λ message. refl) refl refl (inl refl) (read 3 (4 ∷ 5 ∷ []) [] [] done) refl refl refl
      (read 4 [] _ _ (read 5 [] [] [] done)) (read 4 (5 ∷ []) [] [] done) (omega arith)

abbrev pin_only : ConnectOptions
pin_only = record opts { expected_fingerprint = some (codes "03") }

session_loop_frees_example :
    (key_down f1 false
        (session_loop linux (λ n. true) (read_failed ∷ []) (start [] [] 0)).0.injector.enigo
      ≡ false)
    × (button_down left false
          (session_loop linux (λ n. true) (read_failed ∷ []) (start [] [] 0)).0.injector.enigo
        ≡ false)
unfolding session_loop
session_loop_frees_example =
    session_loop_frees linux (λ n. true) (read_failed ∷ []) [] [] 0
      (session_loop linux (λ n. true) (read_failed ∷ []) (start [] [] 0)).0 connection_closed f1
      left refl

session_loop_dead_example :
    (stop : Session.Stop) × ((session_loop linux
        (λ n. true)
        ([] ++ ping_tick 20001 ∷ [])
        (start [] [] 0)).1
      ≡ some stop)
session_loop_dead_example =
    session_loop_dead linux (λ n. true) [] [] 20001 (start [] [] 0) tt (omega arith)

-- A body whose first four bytes say 16 MiB.
abbrev wide : Bincode
wide = record { serialize = λ e. some (1 ∷ 0 ∷ 0 ∷ 0 ∷ []); deserialize = λ bytes. none }
