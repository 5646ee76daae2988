-- ===== src/Examples/Pinned.antt =====
-- The client's choice of a server and the pinning of certificates at concrete inputs. The SHA-256
-- of a text is its length here, and the upper case of a text the text.
use xkvm.Base.{
  ℕ, ◌%◌, ◌≡◌, refl, ◌↔◌, ◌⊎◌, Bool, true, false, Option, none, some, List, [], ◌∷◌, arith, leb→le,
  length, All, nat_eq, lookup, contains, Text, codes, text_beq, text_eq, is_whitespace,
}
use xkvm.Base.Bytes.{IsByte}
use xkvm.Protocol.{Envelope, hello_ack, pair_accept, file_accept, file_complete}
use xkvm.Server.Tls
use xkvm.Server.Tls.{
  Disk, Library, written, setup_tls_server, get_certificate_fingerprint, generate_certificates,
  load,
}
use xkvm.Server.Tls.Identity.{configured}
use xkvm.Client.Addr
use xkvm.Client.Addr.{parse_host_port, format_host_port}
use xkvm.Client.Hex.{fingerprint_der, join_pairs}
use xkvm.Client.Config.{Config, default_config, known_fingerprint}
use xkvm.Client.Handshake.{ConnectError, ConnectOptions, Env, Result, got, perform_handshake}
use xkvm.Client.Connect.{
  Session, presents, verify_server_cert, required_fingerprint, on_certificate,
}
use xkvm.Client.Sending.{LocalFile, Sending}
use xkvm.Client.Discovery.{Event, resolved, DiscoveredServer, discover_servers}
use xkvm.Client.Discovery.Order.{IsLeast}
use xkvm.Client.Discovery.Reachable.{IsReachable}
use xkvm.Client.CommandLine.{Args, connect_to, no_servers, choose_server, send_command}
use xkvm.Client.CommandLine.Chosen.{choose_server-bracketed, choose_server-discover}
use xkvm.EndToEnd.Identity.{restarted_recognised, reported_recognised}

abbrev pub env : Env
env = record {
  delivers = λ n. true;
  sha256 = λ bytes. (length bytes % 256) ∷ [];
  casing = record { to_lowercase = λ s. s; to_uppercase = λ s. s };
  hostname = none;
  env_pin = none;
  random_secret = 1 ∷ 2 ∷ [];
  random_nonce = 3 ∷ [];
  now = 0;
}

abbrev pub opts : ConnectOptions
opts = record { pin = some (codes "1234"); trust_new_cert = false; expected_fingerprint = none }

-- A PEM file is its own only item here.
abbrev library : Library
library = record {
  certs = λ pem. some (pem ∷ []);
  pkcs8_private_keys = λ pem. some (pem ∷ []);
  with_single_cert = λ chain key. true;
  sha256 = env.sha256;
}

abbrev tls_env : Tls.Env
tls_env = record {
  has_config_dir = true;
  creates_dir = true;
  generated = some (7 ∷ 8 ∷ [], 9 ∷ []);
  cert_write = written;
  key_write = written;
}

abbrev empty : Disk
empty = record { cert_file = none; key_file = none }

abbrev generated : Disk
generated = record { cert_file = some (7 ∷ 8 ∷ []); key_file = some (9 ∷ []) }

abbrev pub first_use : Config × List Envelope × Result Session
first_use =
    on_certificate env (λ e g. e) opts default_config (codes "h") (codes "h:1") (7 ∷ 8 ∷ [])
      (got (hello_ack 4001 (codes "s"))) (got pair_accept)

abbrev session : Session
session = record {
  host = codes "h";
  server_name = codes "s";
  fingerprint = codes "02";
  file_transfer_port = 4001;
}

pub is_byte : (bytes : List ℕ) → All IsByte (env.sha256 bytes)
is_byte bytes = (omega arith, tt)

restarted_recognised_example :
    (setup_tls_server library tls_env generated
      ≡ (generated, Tls.ok (configured (7 ∷ 8 ∷ []) [] (9 ∷ []))))
    × ((other : List ℕ)
        → (verify_server_cert env
              (required_fingerprint env
                (λ e g. e)
                opts
                (known_fingerprint first_use.0 (codes "h:1")))
              other
            ≡ true)
          ↔ (env.sha256 (7 ∷ 8 ∷ []) ≡ env.sha256 other))
unfolding setup_tls_server generate_certificates load on_certificate perform_handshake
    required_fingerprint known_fingerprint fingerprint_der join_pairs lookup text_beq
restarted_recognised_example =
    restarted_recognised library tls_env tls_env empty generated (7 ∷ 8 ∷ []) (9 ∷ []) [] env
      (λ e g. e) opts opts default_config first_use.0 (codes "h") (codes "h:1")
      (got (hello_ack 4001 (codes "s"))) (got pair_accept) first_use.1 session refl refl
      (refl, refl) refl refl is_byte (λ c. refl)

abbrev args : Option Text → Bool → Args
args server discover = record {
  server = server;
  port = 5000;
  discover = discover;
  pin = some (codes "1234");
  trust_new_cert = false;
  fingerprint = none;
}

choose_server-bracketed_example :
    (address : Text) × (choose_server (args (some (codes "[::1]")) false) default_config none
      ≡ connect_to address)
    × (parse_host_port address 4000 ≡ Addr.ok (codes "::1") 4000)
unfolding contains
choose_server-bracketed_example =
    choose_server-bracketed (args (some (codes "[::1]")) false) default_config none (codes "::1")
      refl refl refl

abbrev found : List Event
found =
    resolved (record {
      fullname = codes "b";
      hostname = codes "b.";
      port = 4000;
      addresses_v4 = codes "1.2" ∷ [];
      addresses = codes "::1" ∷ [];
    })
    ∷ []

choose_server-discover_example :
    ((discover_servers found ≡ [])
      × (choose_server (args none true) default_config (some (discover_servers found))
          ≡ no_servers))
    ⊎ ((s : DiscoveredServer) × (rest : List DiscoveredServer) × (discover_servers found ≡ s ∷ rest)
        × (choose_server (args none true) default_config (some (discover_servers found))
            ≡ connect_to s.address)
        × IsReachable s
        × IsLeast s rest)
unfolding contains is_whitespace
choose_server-discover_example =
    choose_server-discover (args none true) default_config found refl refl
      ((((refl, refl), tt), ((refl, refl), tt), leb→le 4000 65535 refl), tt)

abbrev pub file : LocalFile
file = record {
  is_dir = false;
  file_name = some (codes "f");
  size = some 1;
  content = some [];
  content_from = λ n. some [];
}

abbrev sent_over : Config × List Envelope × (ConnectError ⊎ Sending)
sent_over =
    send_command env (λ e g. e) 1 (args none false) default_config (codes "h:1")
      (presents (7 ∷ 8 ∷ [])) (got (hello_ack 4001 (codes "s"))) (got pair_accept) file
      (presents (7 ∷ [])) (got pair_accept) (got (file_accept 1 0)) (got (file_complete 1))

abbrev strict : ConnectOptions
strict = record { pin = none; trust_new_cert = false; expected_fingerprint = some (codes "02") }

reported_recognised_example :
    (verify_server_cert env (required_fingerprint env (λ e g. e) strict none) (7 ∷ []) ≡ true)
    ↔ (env.sha256 (7 ∷ 8 ∷ []) ≡ env.sha256 (7 ∷ []))
unfolding setup_tls_server generate_certificates load get_certificate_fingerprint
reported_recognised_example =
    reported_recognised library tls_env tls_env empty generated (7 ∷ 8 ∷ []) (9 ∷ []) [] env
      (λ e g. e) strict none (codes "02") (7 ∷ []) refl (refl, refl) refl refl (λ c. refl) is_byte
      (λ c. refl)
