-- ===== src/EndToEnd/Identity.antt =====
-- A server and a client that has pinned it: server/src/tls.rs against `Session::connect` of
-- client/src/session.rs, over restarts of the server.
use xkvm.Base.{
  ℕ, ◌≡◌, sym, ap, ◌∙◌, ◌↔◌, true, false, Option, none, some, List, All, nat_eq, Text, text_eq,
}
use xkvm.Base.Bytes.{IsByte}
use xkvm.Protocol.{Envelope}
use xkvm.Server.Tls
use xkvm.Server.Tls.{Disk, Library, setup_tls_server, get_certificate_fingerprint}
use xkvm.Server.Tls.Identity.{IsReady, configured, setup_tls_server-stable}
use xkvm.Client.Hex.{fingerprint_der, join_pairs}
use xkvm.Client.Config.{Config, known_fingerprint}
use xkvm.Client.Handshake.{Incoming, ok, ConnectOptions, Env}
use xkvm.Client.Connect.{Session, verify_server_cert, required_fingerprint, on_certificate}
use xkvm.Client.Connect.Pinning.{on_certificate_pins}
use xkvm.Client.Connect.Recognition.{verify_server_cert_iff}

same_fp : {s t : Text} → Path (Tls.Result Text) (Tls.ok s) (Tls.ok t) → s ≡ t
same_fp h = cc h

-- After a client has connected to a server, the server can start again as often as it likes: it
-- comes up with the chain that the client saw. The client, when it connects again to the address
-- with neither an expected fingerprint nor the order to trust a new certificate, accepts a
-- certificate if and only if it has the SHA-256 of the first of that chain. It is supposed that
-- SHA-256 gives bytes and that the upper case of a fingerprint is the fingerprint.
pub restarted_recognised :
    (library : Library) (start restart : Tls.Env) (disk disk' : Disk) (cert key : List ℕ)
    (rest : List (List ℕ)) (env : Env) (mismatch : Text → Text → Text) (opts again : ConnectOptions)
    (config config' : Config) (host address : Text) (ack reply : Incoming) (sent : List Envelope)
    (session : Session)
    → setup_tls_server library start disk ≡ (disk', Tls.ok (configured cert rest key))
    → on_certificate env mismatch opts config host address cert ack reply
      ≡ (config', sent, ok session)
    → IsReady restart
    → again.expected_fingerprint ≡ none
    → again.trust_new_cert ≡ false
    → ((c : List ℕ) → All IsByte (env.sha256 c))
    → ((c : List ℕ)
        → env.casing.to_uppercase (fingerprint_der env.sha256 c) ≡ fingerprint_der env.sha256 c)
    → (setup_tls_server library restart disk' ≡ (disk', Tls.ok (configured cert rest key)))
      × ((other : List ℕ)
          → (verify_server_cert env
                (required_fingerprint env mismatch again (known_fingerprint config' address))
                other
              ≡ true)
            ↔ (env.sha256 cert ≡ env.sha256 other))
unfolding required_fingerprint
restarted_recognised library start restart disk disk' cert key rest env mismatch opts again config
      config' host address ack reply sent session up met ready none_expected no_trust bytes upper =
    let (seen, kept, _) =
      on_certificate_pins env mismatch opts config host address cert ack reply config' sent session
        met in
    (
      (setup_tls_server-stable library start restart disk disk' cert key rest up ready).0,
      λ other.
          rw (none_expected, no_trust, kept, seen)
            (verify_server_cert_iff env cert other bytes (upper cert)),
    )

-- The fingerprint that a running server reports, given to a client with `--fingerprint`, makes it
-- accept a certificate if and only if that has the SHA-256 of the first certificate of the server's
-- chain, whatever is pinned for the address. Both sides use SHA-256, which gives bytes, and the
-- upper case of a fingerprint is the fingerprint.
pub reported_recognised :
    (library : Library) (start later : Tls.Env) (disk disk' : Disk) (cert key : List ℕ)
    (rest : List (List ℕ)) (env : Env) (mismatch : Text → Text → Text) (opts : ConnectOptions)
    (stored : Option Text) (fp : Text) (other : List ℕ)
    → setup_tls_server library start disk ≡ (disk', Tls.ok (configured cert rest key))
    → IsReady later
    → get_certificate_fingerprint library later disk' ≡ Tls.ok fp
    → opts.expected_fingerprint ≡ some fp
    → ((c : List ℕ) → env.sha256 c ≡ library.sha256 c)
    → ((c : List ℕ) → All IsByte (env.sha256 c))
    → ((c : List ℕ)
        → env.casing.to_uppercase (fingerprint_der env.sha256 c) ≡ fingerprint_der env.sha256 c)
    → (verify_server_cert env (required_fingerprint env mismatch opts stored) other ≡ true)
      ↔ (env.sha256 cert ≡ env.sha256 other)
unfolding required_fingerprint fingerprint_der Tls.fingerprint_der
reported_recognised library start later disk disk' cert key rest env mismatch opts stored fp other
      up ready reported given agree bytes upper =
    let told = (setup_tls_server-stable library start later disk disk' cert key rest up ready).1 in
    let same : fp ≡ fingerprint_der env.sha256 cert =
      same_fp (sym reported ∙ told) ∙ ap join_pairs (sym (agree cert)) in
    rw (given, same, upper cert) (verify_server_cert_iff env cert other bytes (upper cert))
