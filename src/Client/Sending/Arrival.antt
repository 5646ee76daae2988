-- ===== src/Client/Sending/Arrival.antt =====
-- A file that is sent to the server, from `send_file` of client/src/file_transfer.rs to
-- `handle_transfer` of server/src/file_transfer.rs; and what is not sent to another server.
use xkvm.Base.{
  ℕ, suc, ◌+◌, ◌^◌, ◌≤◌, ◌<◌, ◌≡◌, refl, sym, ap, ◌≢◌, ◌⊎◌, inl, inr, Bool, true, false, Option,
  none, some, List, [], ◌∷◌, ◌++◌, arith, subst, Bool-cases, Option-cases, length, length-append,
  nat_eq, Text, text_eq,
}
use xkvm.Protocol.{Envelope, pair_accept, file_offer, file_accept, file_complete}
use xkvm.Protocol.Proof.{pairing_proof}
use xkvm.Server.Config as ServerConfig
use xkvm.Server.Config.{is_paired}
use xkvm.FileTransfer.Names.{sanitize_file_name, Directory}
use xkvm.FileTransfer.Receive
use xkvm.FileTransfer.Receive.{Chunk, bytes, read_error, Offer, part_name, resumed, handle_transfer}
use xkvm.FileTransfer.Resume.{Delivers, done, read, IsReceived, handle_transfer-IsReceived}
use xkvm.Client.Config as ClientConfig
use xkvm.Client.Config.{client_fingerprint}
use xkvm.Client.Handshake
use xkvm.Client.Handshake.{Incoming, failed, got, ConnectOptions}
use xkvm.Client.Connect.{presents, verify_server_cert}
use xkvm.Client.Sending.{
  LocalFile, Sending, SendError, is_directory, no_file_name, no_metadata, no_connection,
  nothing_sent, on_channel_answer, read_whole, send_body, channel_request, channel_fingerprint,
  send_file, on_offer_answer, on_channel, offer_file,
}

read_whole-Delivers :
    (chunks : List Chunk) (content : List ℕ)
    → Delivers chunks content
    → read_whole chunks ≡ some content
unfolding read_whole
read_whole-Delivers [] [] done = refl
read_whole-Delivers chunks content (read byte chunk chunks' rest d) =
    rw (read_whole-Delivers chunks' rest d) refl

send_body-Delivers :
    (delivers : ℕ → Bool)
    → ((n : ℕ) → delivers n ≡ true)
    → (total sent n : ℕ) (chunks : List Chunk) (content : List ℕ) → Delivers chunks content
    → (p : List (ℕ × ℕ)) × (send_body delivers total sent n chunks ≡ (content, p, true))
unfolding send_body
send_body-Delivers delivers all total sent n [] [] done = ([], refl)
send_body-Delivers delivers all total sent n chunks content (read byte chunk chunks' rest d) =
    let (p, e) =
      send_body-Delivers delivers all total (sent + suc (length chunk)) (suc n) chunks' rest d in
    ((sent + suc (length chunk), total) ∷ p, rw (all n, e) refl)

sends_nothing :
    (e : SendError)
    → ((nothing_sent e).sent ≡ []) × ((nothing_sent e).body ≡ []) × ((nothing_sent e).error ≢ none)
sends_nothing e = (refl, refl, λ p. cc p)

-- A server whose certificate is not the one that is required is sent nothing: no fingerprint, no
-- offer and no byte of the file, whatever it would answer; and the sending fails.
pub send_file_mismatch :
    (env : Handshake.Env) (id : ℕ) (host : Text) (port : ℕ) (file : LocalFile)
    (config : ClientConfig.Config) (opts : ConnectOptions) (cert : List ℕ)
    (reply answer verdict : Incoming)
    → verify_server_cert env (channel_fingerprint env id config opts host port) cert ≡ false
    → let outcome =
        send_file env id host port file config opts (presents cert) reply answer verdict in
      (outcome.sent ≡ []) × (outcome.body ≡ []) × (outcome.error ≢ none)
unfolding send_file
send_file_mismatch env id host port file config opts cert reply answer verdict h =
    elim (Bool-cases file.is_dir) [
      | inl d ↦ rw d (sends_nothing is_directory)
      | inr d ↦ rw d (elim (Option-cases file.file_name) [
        | inl n ↦ rw n (sends_nothing no_file_name)
        | inr (name, n) ↦ rw n (elim (Option-cases file.size) [
          | inl z ↦ rw z (sends_nothing no_metadata)
          | inr (size, z) ↦ rw (z, h) (sends_nothing no_connection)
        ])
      ])
    ]

module _ (env : Handshake.Env) (server : Receive.Env)
    (client_delivers : (n : ℕ) → env.delivers n ≡ true)
    (server_delivers : (n : ℕ) → server.delivers n ≡ true) (host : Text) (port : ℕ) (name : Text)
    (size : ℕ) (whole : List Chunk) (from : ℕ → Option (List Chunk)) (client : ClientConfig.Config)
    (opts : ConnectOptions) (cert : List ℕ) (id : ℕ) where
  abbrev pub file : LocalFile
  file = record {
    is_dir = false;
    file_name = some name;
    size = some size;
    content = some whole;
    content_from = from;
  }

  -- The file that is offered.
  abbrev pub offered : List ℕ → Offer
  offered content = record { id = id; name = name; size = size; sha256 = env.sha256 content }

  -- What the client does when the server answers with these three envelopes.
  abbrev pub sending : Envelope → Envelope → Envelope → Sending
  sending reply answer verdict =
      send_file env id host port file client opts (presents cert) (got reply) (got answer)
        (got verdict)

  send_file-got :
      (content rest : List ℕ) (offset : ℕ) (missing : List Chunk)
      → verify_server_cert env (channel_fingerprint env id client opts host port) cert ≡ true
      → Delivers whole content
      → from offset ≡ some missing
      → Delivers missing rest
      → (p : List (ℕ × ℕ)) × (sending pair_accept (file_accept id offset) (file_complete id)
          ≡ record {
            sent =
                channel_request env id client ∷ file_offer id name size (env.sha256 content) ∷ [];
            body = rest;
            progress = p;
            error = none;
          })
  unfolding send_file on_channel_answer
  send_file-got content rest offset missing v d f m =
      let (p, e) = send_body-Delivers env.delivers client_delivers size offset 2 missing rest m in
      (
        p,
        rw (v, on_channel, client_delivers 0)
            (rw
              (
                offer_file,
                read_whole-Delivers whole content d,
                client_delivers 1,
                on_offer_answer,
                f,
                e,
              )
              refl),
      )

  -- The two sides at once. The certificate is accepted, the client's fingerprint is paired on the
  -- server, both sides use SHA-256, every write succeeds and the directory has fewer than 10^20 - 4
  -- files. The file reads as `content`, of the announced size, which the server does not refuse;
  -- what the server's part file holds is its beginning, and `rest` the remainder, which the client
  -- reads from that offset and the server receives, each in readings of any sizes. Then the client
  -- sends the request, the offer and `rest`, takes the three answers that the server gives, and
  -- reports success, and the server ends with the whole file.
  pub send_file-IsReceived :
      (config : ServerConfig.Config) (dir : Directory) (content rest : List ℕ)
      (missing chunks : List Chunk)
      → ((message : List ℕ) → env.sha256 message ≡ server.sha256 message)
      → verify_server_cert env (channel_fingerprint env id client opts host port) cert ≡ true
      → is_paired config (client_fingerprint env.sha256 client) ≡ true
      → (config.max_file_size ≡ 0) ⊎ (size ≤ config.max_file_size)
      → Delivers whole content
      → size ≡ length content
      → content ≡ resumed dir (part_name (sanitize_file_name name)) size ++ rest
      → from (length (resumed dir (part_name (sanitize_file_name name)) size)) ≡ some missing
      → Delivers missing rest
      → Delivers chunks rest
      → length dir + 4 < 10 ^ 20
      → let answer =
          file_accept id (length (resumed dir (part_name (sanitize_file_name name)) size)) in
        let sent = sending pair_accept answer (file_complete id) in
        (sent.sent
          ≡ channel_request env id client ∷ file_offer id name size (env.sha256 content) ∷ [])
        × (sent.body ≡ rest)
        × (sent.error ≡ none)
        × IsReceived server server_delivers
            (pair_accept ∷ answer ∷ [])
            (offered content)
            content
            dir
            (handle_transfer server config
              (Receive.got (channel_request env id client))
              (Receive.got (file_offer id name size (env.sha256 content)))
              chunks
              dir)
  unfolding channel_request
  send_file-IsReceived config dir content rest missing chunks same v p m d l h f dm dc b =
      let held = resumed dir (part_name (sanitize_file_name name)) size in
      let (progress, e) = send_file-got content rest (length held) missing v d f dm in
      (
        ap (λ s. s.sent) e,
        ap (λ s. s.body) e,
        ap (λ s. s.error) e,
        subst
            (λ c.
              IsReceived server server_delivers (pair_accept ∷ file_accept id (length held) ∷ [])
                (offered content) c dir
                (handle_transfer server config (Receive.got (channel_request env id client))
                  (Receive.got (file_offer id name size (env.sha256 content))) chunks dir))
            (sym h)
            (handle_transfer-IsReceived server server_delivers config env.random_nonce
              (client_fingerprint env.sha256 client)
              (pairing_proof env.sha256 [] env.random_nonce (client_fingerprint env.sha256 client))
              (offered content) chunks rest dir p m dc
              (omega (arith, l, ap length h, length-append held rest))
              (subst (λ c. server.sha256 c ≡ env.sha256 content) h (sym (same content))) b),
      )
