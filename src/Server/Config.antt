-- ===== src/Server/Config.antt =====
-- The server's configuration, server/src/config.rs. Paths are texts, a date is a number; the
-- directories and the host name that the defaults ask the system for are parameters.
use xkvm.Base.{
  ℕ, ◌≡◌, refl, Bool, true, false, not, ◌&&◌, ◌||◌, Option, none, List, [], arith, is_some,
  unwrap_or, nat_eq, lookup, insert, remove, lookup-insert, lookup-remove, Text, codes, text_beq,
  text_eq,
}
use xkvm.Protocol.{default_file_port}

pub record PairedDevice : Type 0 where
  pub name : Text
  pub fingerprint : Text
  pub paired_at : ℕ

pub record HotkeyConfig : Type 0 where
  pub toggle_forward : Text
  pub show_panel : Text

abbrev pub default_hotkey_config : HotkeyConfig
default_hotkey_config = record {
  toggle_forward = codes "Ctrl+Alt+F";
  show_panel = codes "Ctrl+Alt+K";
}

pub record Socks5Settings : Type 0 where
  pub port : Option ℕ
  pub username : Option Text
  pub password : Option Text
  pub allow_anonymous : Bool

abbrev pub default_socks5_settings : Socks5Settings
default_socks5_settings = record {
  port = none;
  username = none;
  password = none;
  allow_anonymous = false;
}

pub record Config : Type 0 where
  pub server_name : Text
  pub paired_devices : List (Text × PairedDevice)
  pub hotkey : HotkeyConfig
  pub auto_forward : Bool
  pub clipboard_sync : Bool
  pub transfer_dir : Text
  pub file_transfer_port : ℕ
  pub pairing_pin : Option Text
  pub bind_address : Text
  pub max_file_size : ℕ
  pub audit_log : Option Text
  pub socks5 : Socks5Settings

-- `download_dir`, `home_dir` and the host name, where the system knows them, and the `join` of a
-- path with a name.
unfoldable pub default_config :
    (download_dir home_dir hostname : Option Text) → (join : Text → Text → Text) → Config
default_config download_dir home_dir hostname join = record {
  server_name = unwrap_or hostname (codes "KVM-Server");
  paired_devices = [];
  hotkey = default_hotkey_config;
  auto_forward = false;
  clipboard_sync = true;
  transfer_dir =
      join (unwrap_or download_dir (unwrap_or home_dir (codes "."))) (codes "kvm-transfers");
  file_transfer_port = default_file_port;
  pairing_pin = none;
  bind_address = codes "0.0.0.0";
  max_file_size = 0;
  audit_log = none;
  socks5 = default_socks5_settings;
}

unfoldable pub is_paired : Config → Text → Bool
is_paired config fingerprint = is_some (lookup fingerprint config.paired_devices)

unfoldable pub add_paired_device : ℕ → Config → Text → Text → Config
add_paired_device now config fingerprint name = record config {
  paired_devices =
      insert fingerprint (record { name = name; fingerprint = fingerprint; paired_at = now })
        config.paired_devices;
}

-- The new configuration, and whether the device was there.
unfoldable pub remove_paired_device : Config → Text → Config × Bool
remove_paired_device config fingerprint = (
  record config { paired_devices = remove fingerprint config.paired_devices },
  is_some (lookup fingerprint config.paired_devices),
)

-- Pairing a device pairs it and no other.
pub is_paired-add_paired_device :
    (now : ℕ) (config : Config) (fingerprint name other : Text)
    → is_paired (add_paired_device now config fingerprint name) other
      ≡ (text_beq fingerprint other || is_paired config other)
unfolding is_paired add_paired_device
is_paired-add_paired_device now config fingerprint name other = ground (
  arith,
  lookup-insert fingerprint other
      (record { name = name; fingerprint = fingerprint; paired_at = now }) config.paired_devices,
)

-- Revoking a device says whether it was paired, unpairs it and leaves every other device as it was.
pub remove_paired_device_revokes :
    (config : Config) (fingerprint other : Text)
    → ((remove_paired_device config fingerprint).1 ≡ is_paired config fingerprint)
      × (is_paired (remove_paired_device config fingerprint).0 other
          ≡ (not (text_beq fingerprint other) && is_paired config other))
unfolding is_paired remove_paired_device
remove_paired_device_revokes config fingerprint other =
    (refl, ground (arith, lookup-remove fingerprint other config.paired_devices))
