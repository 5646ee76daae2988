-- ===== src/Server/Tls/Identity.antt =====
-- The identity of a server lasts: its certificate is made once, and its fingerprint stays.
use xkvm.Base.{ℕ, ◌≡◌, refl, true, List, ◌∷◌, arith, is_some, nat_eq, text_eq}
use xkvm.Server.Tls.{
  fingerprint_der, Disk, Library, Env, ok, ServerConfig, generate_certificates, load_certs,
  load_private_key, load, setup_tls_server, get_certificate_fingerprint,
}

-- The directory can be found and made.
abbrev pub IsReady : Env → Type 0
IsReady env = (env.has_config_dir ≡ true) × (env.creates_dir ≡ true)

abbrev pub configured : List ℕ → List (List ℕ) → List ℕ → ServerConfig
configured cert rest key = record { chain = cert ∷ rest; key = key }

module _ (library : Library) where
  load-has_files :
      (disk : Disk) (config : ServerConfig)
      → load library disk ≡ ok config
      → (is_some disk.cert_file ≡ true) × (is_some disk.key_file ≡ true)
  unfolding load load_certs load_private_key
  load-has_files disk config h = ground arith

  -- A set-up that succeeds leaves a disk from which the same configuration is loaded.
  setup-load :
      (env : Env) (disk disk' : Disk) (config : ServerConfig)
      → setup_tls_server library env disk ≡ (disk', ok config)
      → load library disk' ≡ ok config
  unfolding setup_tls_server generate_certificates
  setup-load env disk disk' config h = ground arith

  -- Once a set-up has succeeded, every later one, whatever `rcgen` would generate then, leaves both
  -- files as they are and gives the same chain and key, and the fingerprint that the server reports
  -- is the one of the first certificate of that chain.
  pub setup_tls_server-stable :
      (env env' : Env) (disk disk' : Disk) (cert key : List ℕ) (rest : List (List ℕ))
      → setup_tls_server library env disk ≡ (disk', ok (configured cert rest key))
      → IsReady env'
      → (setup_tls_server library env' disk' ≡ (disk', ok (configured cert rest key)))
        × (get_certificate_fingerprint library env' disk'
            ≡ ok (fingerprint_der library.sha256 cert))
  unfolding setup_tls_server get_certificate_fingerprint load
  setup_tls_server-stable env env' disk disk' cert key rest h (dir, made) =
      let l = setup-load env disk disk' (configured cert rest key) h in
      let (c, k) = load-has_files disk' (configured cert rest key) l in
      (rw (dir, made, c, k, l) refl, ground arith)
