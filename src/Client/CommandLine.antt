-- ===== src/Client/CommandLine.antt =====
-- What `main` of client/src/main.rs does with its arguments: the server it connects to, the options
-- of the connection, and the sending of one file. The paths, the logging and `--socks5-proxy`,
-- which only warns, are left out.
pub mod Chosen
pub mod Sends
use xkvm.Base.{
  ℕ, zero, suc, ◌+◌, ◌-◌, ◌*◌, ◌/◌, ◌%◌, ◌^◌, ◌≤◌, ◌<◌, min, max, ◌≡◌, refl, sym, ap, ◌∙◌, ◌≢◌, ◌↔◌,
  ◌⊎◌, inl, inr, Bool, true, false, not, ◌&&◌, ◌||◌, Option, none, some, List, [], ◌∷◌, ◌++◌, map,
  append_assoc, append-nil, arith, subst, ltb, leb, ◌==◌, if◌then◌else◌, ltb→lt, lt→ltb, ltb→le,
  le→ltb, leb→le, le→leb, ==_iff, tests, Bool-cases, Option-cases, is_some, unwrap_or, ◌>>=◌,
  length, take, drop, All, length-append, take-append-drop, length-take, length-drop, take-append,
  drop-append, All-append, Eq, nat_eq, lookup, insert, remove, lookup-insert, lookup-insert_self,
  lookup-remove, contains, add, without, contains-add, contains-without, contains-append, Text,
  codes, text_beq, text_beq_iff, text_eq, utf8, byte_len, is_whitespace, is_nil, trim_start,
  trim_end, trim,
}
use xkvm.Protocol.{Envelope}
use xkvm.Client.Addr.{format_host_port}
use xkvm.Client.Addr.Decimal.{print_u16}
use xkvm.Client.Config.{Config}
use xkvm.Client.Handshake.{
  Incoming, ConnectError, Result, ok, err, ConnectOptions, Env, contains_text,
}
use xkvm.Client.Connect.{Session, Transport, connect}
use xkvm.Client.Discovery.{DiscoveredServer}
use xkvm.Client.Sending.{LocalFile, Sending, send_file}

pub record Args : Type 0 where
  pub server : Option Text
  pub port : ℕ
  pub discover : Bool
  pub pin : Option Text
  pub trust_new_cert : Bool
  pub fingerprint : Option Text

-- The address to connect to; without one `main` fails, if the discovery does, or ends.
pub data Choice : Type 0 where
  connect_to : (address : Text) → Choice
  discovery_failed no_servers unspecified : Choice

abbrev first_found : Option (List DiscoveredServer) → Choice
first_found none = discovery_failed
first_found (some []) = no_servers
first_found (some (s ∷ servers)) = connect_to s.address

abbrev last_connected : Option Text → Choice
last_connected none = unspecified
last_connected (some last) = connect_to last

abbrev starts_with_bracket : Text → Bool
starts_with_bracket [] = false
starts_with_bracket (c ∷ s) = c == b'['

-- `found` is what `discover_servers` gives, if it is called and succeeds.
unfoldable pub choose_server : Args → Config → (found : Option (List DiscoveredServer)) → Choice
choose_server args config found = elim args.server [
  | some server ↦
      if contains b':' server || starts_with_bracket server
      then connect_to server
      else connect_to (server ++ (b':' ∷ print_u16 args.port))
  | none ↦ if args.discover then first_found found else last_connected config.last_server
]

abbrev pub connect_options : Args → ConnectOptions
connect_options args = record {
  pin = args.pin;
  trust_new_cert = args.trust_new_cert;
  expected_fingerprint = args.fingerprint;
}

-- `--send-file`: what is sent on the control connection, and then the sending of the file or the
-- error. The file channel is a connection of its own.
module _ (env : Env) (mismatch : Text → Text → Text) (id : ℕ) where
  -- Once the control connection is made, or not.
  unfoldable send_over :
      Args
      → LocalFile
      → (channel : Transport) → (channel_reply answer verdict : Incoming)
      → Config × List Envelope × Result Session
      → Config × List Envelope × (ConnectError ⊎ Sending)
  unfolding send_file
  send_over args file channel channel_reply answer verdict (config, sent, err e) =
      (config, sent, inl e)
  send_over args file channel channel_reply answer verdict (config, sent, ok session) = (
    config,
    sent,
    inr (
        send_file env id session.host session.file_transfer_port file config (connect_options args)
          channel channel_reply answer verdict),
  )

  unfoldable pub send_command :
      Args
      → Config
      → Text
      → (control : Transport) → (ack reply : Incoming) → LocalFile
      → (channel : Transport) → (channel_reply answer verdict : Incoming)
      → Config × List Envelope × (ConnectError ⊎ Sending)
  unfolding connect send_over
  send_command args config address control ack reply file channel channel_reply answer verdict =
      send_over args file channel channel_reply answer verdict
        (connect env mismatch (connect_options args) config address control ack reply)
