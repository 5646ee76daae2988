-- ===== src/Examples/Files.antt =====
-- The file channel at concrete inputs.
use xkvm.Base.{
  map, ◌≡◌, refl, inl, true, false, none, some, [], ◌∷◌, arith, nat_eq, lookup, Text, codes,
  text_beq, text_eq, is_whitespace,
}
use xkvm.Server.Config.{
  Config, PairedDevice, default_hotkey_config, default_socks5_settings, is_paired,
}
use xkvm.Protocol.{pair_accept, file_accept, pair_request, file_offer}
use xkvm.FileTransfer.Names.{Directory, sanitize_file_name, unique_dest_path}
use xkvm.FileTransfer.Safety.{IsSafe, sanitize_file_name-IsSafe}
use xkvm.FileTransfer.Unique.{unique_dest_path_free}
use xkvm.FileTransfer.Concurrent.{verified, promoted, run, run-keeps, run-overwrites}
use xkvm.FileTransfer.Receive.{got, bytes, Env, Offer, resumed, handle_transfer}
use xkvm.FileTransfer.Outcomes.{Kept, handle_transfer-Kept}
use xkvm.FileTransfer.Resume.{done, read, IsReceived, handle_transfer-IsReceived}

sanitize_file_name-IsSafe_example : IsSafe (sanitize_file_name (codes "../../etc/.."))
sanitize_file_name-IsSafe_example = sanitize_file_name-IsSafe (codes "../../etc/..")

-- A complete file of the name, and a part file that holds two bytes of it.
abbrev directory : Directory
directory = (codes "a", 1 ∷ []) ∷ (codes "a.part", 3 ∷ 4 ∷ []) ∷ []

unique_dest_path_free_example :
    (found : Text) × ((unique_dest_path directory (codes "a") ≡ some found)
      × (lookup found directory ≡ none))
unique_dest_path_free_example = unique_dest_path_free directory (codes "a") (omega arith)

-- A hash that the test can compute: the bytes themselves.
abbrev env : Env
env = record { delivers = λ n. true; sha256 = λ bytes. bytes }

abbrev device : PairedDevice
device = record { name = codes "pc"; fingerprint = codes "f"; paired_at = 0 }

abbrev config : Config
config = record {
  server_name = [];
  paired_devices = (codes "f", device) ∷ [];
  hotkey = default_hotkey_config;
  auto_forward = false;
  clipboard_sync = true;
  transfer_dir = [];
  file_transfer_port = 4001;
  pairing_pin = none;
  bind_address = [];
  max_file_size = 0;
  audit_log = none;
  socks5 = default_socks5_settings;
}

abbrev offer : Offer
offer = record { id = 1; name = codes "a"; size = 3; sha256 = 3 ∷ 4 ∷ 5 ∷ [] }

handle_transfer-Kept_example :
    Kept env offer directory
      (handle_transfer env config
        (got (pair_request [] (codes "f") []))
        (got (file_offer 1 (codes "a") 3 (3 ∷ 4 ∷ 5 ∷ [])))
        (bytes (5 ∷ []) ∷ [])
        directory).directory
      (codes "a")
unfolding sanitize_file_name
handle_transfer-Kept_example =
    handle_transfer-Kept env config (got (pair_request [] (codes "f") [])) offer
      (bytes (5 ∷ []) ∷ []) directory (codes "a") (ground arith)

handle_transfer-IsReceived_example :
    IsReceived env
      (λ n. refl)
      (pair_accept ∷ file_accept 1 2 ∷ [])
      offer
      (3 ∷ 4 ∷ 5 ∷ [])
      directory
      (handle_transfer env config
        (got (pair_request [] (codes "f") []))
        (got (file_offer 1 (codes "a") 3 (3 ∷ 4 ∷ 5 ∷ [])))
        (bytes (5 ∷ []) ∷ [])
        directory)
unfolding resumed sanitize_file_name is_paired lookup text_beq is_whitespace
handle_transfer-IsReceived_example =
    handle_transfer-IsReceived env (λ n. refl) config [] (codes "f") [] offer (bytes (5 ∷ []) ∷ [])
      (5 ∷ []) directory refl (inl refl) (read 5 [] [] [] done) refl refl (omega arith)

-- `a` is there, and `a` and `a (1)` have arrived.
abbrev shared : Directory
shared = (codes "a", 1 ∷ []) ∷ (codes "a.part", 2 ∷ []) ∷ (codes "a (1).part", 3 ∷ []) ∷ []

run-keeps_example :
    lookup
      (codes "a")
      (run (0 ∷ 1 ∷ 0 ∷ 1 ∷ []) (map verified (codes "a" ∷ codes "a (1)" ∷ [])) shared).1
    ≡ some (1 ∷ [])
unfolding lookup text_beq
run-keeps_example =
    run-keeps (codes "a") (1 ∷ []) (codes "a" ∷ codes "a (1)" ∷ []) (0 ∷ 1 ∷ 0 ∷ 1 ∷ []) shared refl
      ((λ e. cc e), ((λ e. cc e), tt))

run-overwrites_example :
    let ended =
      run (0 ∷ 1 ∷ 0 ∷ 1 ∷ []) (verified (codes "a") ∷ verified (codes "a (1)") ∷ []) shared in
    (ended.0 ≡ promoted (codes "a (1)") ∷ promoted (codes "a (1)") ∷ [])
    × (lookup (codes "a (1)") ended.1 ≡ some (3 ∷ []))
unfolding lookup unique_dest_path text_beq
run-overwrites_example =
    run-overwrites (codes "a") (codes "a (1)") (codes "a (1)") (2 ∷ []) (3 ∷ []) shared refl refl
      (λ e. cc e) (λ e. cc e) refl refl
