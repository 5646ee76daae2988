-- ===== src/Examples/Setup.antt =====
-- A server, a configuration and a client that the examples share.
use xkvm.Base.{Bool, true, false, none, [], ◌∷◌, length, nat_eq, codes, text_eq}
use xkvm.Protocol.{default_caps, hello, pair_request}
use xkvm.RateLimit.{Limiter}
use xkvm.Server.Config.{Config, PairedDevice, default_hotkey_config, default_socks5_settings}
use xkvm.Server.State.{ServerState, Registry}
use xkvm.Server.Pairing.{Incoming, got, Env}

-- A hash that the test can compute: the length.
abbrev pub env : Env
env = record {
  delivers = λ n. true;
  save_succeeds = true;
  sha256 = λ bytes. length bytes ∷ [];
  checked_at = 1000;
  failed_at = 1001;
  paired_at = 1002;
}

abbrev pub device : PairedDevice
device = record { name = codes "pc"; fingerprint = codes "f"; paired_at = 0 }

abbrev pub config : Config
config = record {
  server_name = [];
  paired_devices = (codes "f", device) ∷ [];
  hotkey = default_hotkey_config;
  auto_forward = false;
  clipboard_sync = true;
  transfer_dir = [];
  file_transfer_port = 4001;
  pairing_pin = none;
  bind_address = [];
  max_file_size = 0;
  audit_log = none;
  socks5 = default_socks5_settings;
}

abbrev pub state : Bool → Registry → Limiter → ServerState
state forwarding registry limiter = record {
  config = config;
  saved = config;
  forwarding_enabled = forwarding;
  registry = registry;
  file_port = 4001;
  pin = codes "1234";
  rate_limiter = limiter;
  clipboard_tx = none;
}

abbrev pub greeting : Incoming
greeting = got (hello (codes "pc") (codes "0.2.0") default_caps)

abbrev pub paired_request : Incoming
paired_request = got (pair_request [] (codes "f") [])

abbrev pub stranger_request : Incoming
stranger_request = got (pair_request [] (codes "g") (0 ∷ []))
