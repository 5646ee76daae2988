-- ===== src/Server/Tls.antt =====
-- The certificate of the server: server/src/tls.rs. The two files in the configuration directory
-- are the disk. `rcgen`, `rustls_pemfile`, `rustls` and the system are parameters.
pub mod Identity
use xkvm.Base.{
  ℕ, zero, suc, ◌+◌, ◌-◌, ◌*◌, ◌/◌, ◌%◌, ◌^◌, ◌≤◌, ◌<◌, min, max, ◌≡◌, refl, sym, ap, ◌∙◌, ◌≢◌, ◌↔◌,
  ◌⊎◌, inl, inr, Bool, true, false, not, ◌&&◌, ◌||◌, Option, none, some, List, [], ◌∷◌, ◌++◌, map,
  append_assoc, append-nil, arith, subst, ltb, leb, ◌==◌, if◌then◌else◌, ltb→lt, lt→ltb, ltb→le,
  le→ltb, leb→le, le→leb, ==_iff, tests, Bool-cases, Option-cases, is_some, unwrap_or, ◌>>=◌,
  length, take, drop, All, length-append, take-append-drop, length-take, length-drop, take-append,
  drop-append, All-append, Eq, nat_eq, lookup, insert, remove, lookup-insert, lookup-insert_self,
  lookup-remove, contains, add, without, contains-add, contains-without, contains-append, Text,
  codes, text_beq, text_beq_iff, text_eq, utf8, byte_len, is_whitespace, is_nil, trim_start,
  trim_end, trim,
}
use xkvm.Client.Hex.{join_pairs}

-- What is in `server.crt` and `server.key`; a file that is not there is `none`.
pub record Disk : Type 0 where
  pub cert_file : Option Text
  pub key_file : Option Text

-- `rustls_pemfile::certs` and `rustls_pemfile::pkcs8_private_keys` on the text of a file, and
-- whether `ServerConfig::with_single_cert` takes a chain with a key.
pub record Library : Type 0 where
  pub certs : Text → Option (List (List ℕ))
  pub pkcs8_private_keys : Text → Option (List (List ℕ))
  pub with_single_cert : List (List ℕ) → List ℕ → Bool
  pub sha256 : List ℕ → List ℕ

-- A write to a file: what the file is after one that fails.
pub data Write : Type 0 where
  written : Write
  write_failed : (left : Option Text) → Write

-- What the system answers during one call, and the certificate and key that `rcgen` would make.
pub record Env : Type 0 where
  pub has_config_dir : Bool
  pub creates_dir : Bool
  pub generated : Option (Text × Text)
  pub cert_write : Write
  pub key_write : Write

pub data TlsError : Type 0 where
  no_config_dir no_directory generation_failed not_written : TlsError
  no_file unreadable no_private_key no_certificate rejected : TlsError

pub data Result {ℓ} (A : Type ℓ) : Type ℓ where
  ok : A → Result A
  err : TlsError → Result A

-- `rustls::ServerConfig`: the chain that is presented, and its key.
pub record ServerConfig : Type 0 where
  pub chain : List (List ℕ)
  pub key : List ℕ

abbrev write_file : Write → Text → Option Text
write_file written content = some content
write_file (write_failed left) content = left

-- The key is written after the certificate, and only if the certificate was.
unfoldable pub generate_certificates : Env → Disk → Disk × Option TlsError
generate_certificates env disk = elim env.generated [
  | none ↦ (disk, some generation_failed)
  | some (cert_pem, key_pem) ↦ elim env.cert_write [
    | write_failed left ↦ (record disk { cert_file = left }, some not_written)
    | written ↦ elim env.key_write [
      | write_failed left ↦
          (record { cert_file = some cert_pem; key_file = left }, some not_written)
      | written ↦ (record { cert_file = some cert_pem; key_file = some key_pem }, none)
    ]
  ]
]

-- The same text as the client's.
unfoldable pub fingerprint_der : (List ℕ → List ℕ) → List ℕ → Text
unfolding join_pairs
fingerprint_der sha256 cert = join_pairs (sha256 cert)

module _ (library : Library) where
  parsed : Option (List (List ℕ)) → Result (List (List ℕ))
  parsed none = err unreadable
  parsed (some items) = ok items

  unfoldable pub load_certs : Option Text → Result (List (List ℕ))
  unfolding parsed
  load_certs none = err no_file
  load_certs (some pem) = parsed (library.certs pem)

  -- The first key of the file.
  first_key : Option (List (List ℕ)) → Result (List ℕ)
  first_key none = err unreadable
  first_key (some []) = err no_private_key
  first_key (some (key ∷ keys)) = ok key

  unfoldable pub load_private_key : Option Text → Result (List ℕ)
  unfolding first_key
  load_private_key none = err no_file
  load_private_key (some pem) = first_key (library.pkcs8_private_keys pem)

  server_config : Result (List (List ℕ)) → Result (List ℕ) → Result ServerConfig
  server_config (err e) key = err e
  server_config (ok chain) (err e) = err e
  server_config (ok chain) (ok key) =
      if library.with_single_cert chain key
      then ok (record { chain = chain; key = key })
      else err rejected

  -- What is loaded from the two files.
  unfoldable pub load : Disk → Result ServerConfig
  unfolding load_certs load_private_key server_config
  load disk = server_config (load_certs disk.cert_file) (load_private_key disk.key_file)

  load_generated : Disk × Option TlsError → Disk × Result ServerConfig
  unfolding load
  load_generated (disk, some e) = (disk, err e)
  load_generated (disk, none) = (disk, load disk)

  unfoldable pub setup_tls_server : Env → Disk → Disk × Result ServerConfig
  unfolding load_generated generate_certificates load
  setup_tls_server env disk =
      if not env.has_config_dir
      then (disk, err no_config_dir)
      else if not env.creates_dir
      then (disk, err no_directory)
      else if not (is_some disk.cert_file) || not (is_some disk.key_file)
      then load_generated (generate_certificates env disk)
      else (disk, load disk)

  fingerprint_of : Result (List (List ℕ)) → Result Text
  unfolding fingerprint_der
  fingerprint_of (err e) = err e
  fingerprint_of (ok []) = err no_certificate
  fingerprint_of (ok (cert ∷ certs)) = ok (fingerprint_der library.sha256 cert)

  unfoldable pub get_certificate_fingerprint : Env → Disk → Result Text
  unfolding fingerprint_of load_certs
  get_certificate_fingerprint env disk =
      if env.has_config_dir then fingerprint_of (load_certs disk.cert_file) else err no_config_dir
