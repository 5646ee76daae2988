-- ===== src/Client/Config.antt =====
-- The client's configuration, client/src/config.rs: its identity and the servers that it knows. The
-- TOML syntax is a parameter; a date is a number.
use xkvm.Base.{
  ℕ, ◌≡◌, refl, ◌⊎◌, inl, inr, Bool, true, false, Option, none, some, List, [], ◌∷◌, arith, leb,
  if◌then◌else◌, is_some, unwrap_or, nat_eq, lookup, insert, remove, lookup-insert, Text, text_beq,
  text_eq, is_nil,
}
use xkvm.Client.Hex.{hex_encode, hex_decode}

pub record KnownServer : Type 0 where
  pub name : Text
  pub address : Text
  pub fingerprint : Text
  pub last_connected : ℕ

pub record Config : Type 0 where
  pub last_server : Option Text
  pub known_servers : List (Text × KnownServer)
  pub auto_connect : Bool
  pub client_secret : Text

abbrev pub default_config : Config
default_config = record {
  last_server = none;
  known_servers = [];
  auto_connect = false;
  client_secret = [];
}

-- The file of the configuration and its backup, by their contents.
pub record Files : Type 0 where
  pub file : Option Text
  pub backup : Option Text

module _ (parse : Text → Option Config) (rename_succeeds : Bool) where
  keep_broken : Text → Option Config → Files → Config × Files
  keep_broken content (some config) files = (config, files)
  keep_broken content none files = (
    default_config,
    if rename_succeeds then record { file = none; backup = some content } else files,
  )

  -- A file that cannot be read counts as one that is not there.
  unfoldable pub load_or_default : Files → Config × Files
  unfolding keep_broken
  load_or_default files = elim files.file [
    | none ↦ (default_config, files)
    | some content ↦ keep_broken content (parse content) files
  ]

  -- A file that does not parse is not lost: the defaults are used, and if the renaming succeeds the
  -- backup holds its text, else the file is as it was. A file that parses is left alone.
  pub load_or_default_keeps :
      (files : Files) (content : Text)
      → files.file ≡ some content
      → let (config, files') = load_or_default files in
        ((parse content ≡ some config) × (files' ≡ files))
        ⊎ ((parse content ≡ none)
            × (config ≡ default_config)
            × (files' ≡ (
                if rename_succeeds then record { file = none; backup = some content } else files)))
  unfolding load_or_default keep_broken
  load_or_default_keeps files content h =
      let same : load_or_default files ≡ keep_broken content (parse content) files =
        ground (arith, h) in
      rw same (cases (parse content) refl)
    where
      cases :
          (o : Option Config)
          → parse content ≡ o
          → let (config, files') = keep_broken content o files in
            ((parse content ≡ some config) × (files' ≡ files))
            ⊎ ((parse content ≡ none)
                × (config ≡ default_config)
                × (files' ≡ (
                    if rename_succeeds
                    then record { file = none; backup = some content }
                    else files)))
      cases none e = inr (e, refl, refl)
      cases (some config) e = inl (e, refl)

-- A new secret is the hexadecimal text of 32 random bytes; the result says whether one was made.
unfoldable pub ensure_client_secret : List ℕ → Config → Config × Bool
ensure_client_secret random config =
    if is_nil config.client_secret
    then (record config { client_secret = hex_encode random }, true)
    else (config, false)

unfoldable pub client_fingerprint : (List ℕ → List ℕ) → Config → Text
unfolding hex_encode hex_decode
client_fingerprint sha256 config =
    hex_encode (sha256 (unwrap_or (hex_decode config.client_secret) []))

unfoldable pub add_known_server_alias : ℕ → Text → Text → Text → Config → Config
unfolding insert
add_known_server_alias now name address fingerprint config = record config {
  known_servers =
      insert address
        (record { name = name; address = address; fingerprint = fingerprint; last_connected = now })
        config.known_servers;
}

unfoldable pub add_known_server : ℕ → Text → Text → Text → Config → Config
unfolding add_known_server_alias
add_known_server now name address fingerprint config =
    record (add_known_server_alias now name address fingerprint config) {
      last_server = some address;
    }

abbrev fingerprint_of : Option KnownServer → Option Text
fingerprint_of none = none
fingerprint_of (some s) = some s.fingerprint

unfoldable pub known_fingerprint : Config → Text → Option Text
unfolding lookup
known_fingerprint config address = fingerprint_of (lookup address config.known_servers)

unfoldable pub forget_server : Text → Config → Config × Bool
unfolding remove lookup
forget_server address config = (
  record config { known_servers = remove address config.known_servers },
  is_some (lookup address config.known_servers),
)

-- `sort_by_key` with the order reversed: it is stable.
unfoldable pub insert_recent : KnownServer → List KnownServer → List KnownServer
insert_recent s [] = s ∷ []
insert_recent s (t ∷ ts) =
    let rest = insert_recent s ts in
    if leb t.last_connected s.last_connected then s ∷ t ∷ ts else t ∷ rest

abbrev values : List (Text × KnownServer) → List KnownServer
values [] = []
values ((a, s) ∷ m) = s ∷ values m

unfoldable pub sort_recent : List KnownServer → List KnownServer
unfolding insert_recent
sort_recent [] = []
sort_recent (s ∷ ss) = insert_recent s (sort_recent ss)

unfoldable pub list_known_servers : Config → List KnownServer
unfolding sort_recent
list_known_servers config = sort_recent (values config.known_servers)

-- Pinning a server under an address gives its fingerprint back for that address, and changes no
-- other one's.
pub known_fingerprint-add_known_server_alias :
    (now : ℕ) (name address fingerprint other : Text) (config : Config)
    → known_fingerprint (add_known_server_alias now name address fingerprint config) other
      ≡ (if text_beq address other then some fingerprint else known_fingerprint config other)
unfolding known_fingerprint add_known_server_alias
known_fingerprint-add_known_server_alias now name address fingerprint other config = ground (
  arith,
  lookup-insert {0, 0} address other
      (record { name = name; address = address; fingerprint = fingerprint; last_connected = now })
      config.known_servers,
)
