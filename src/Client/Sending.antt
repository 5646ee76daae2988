-- ===== src/Client/Sending.antt =====
-- `send_file` of client/src/file_transfer.rs: a connection of its own to the file port, the offer,
-- and the bytes from the offset the server asks for.
pub mod Arrival
use xkvm.Base.{
  ℕ, zero, suc, ◌+◌, ◌-◌, ◌*◌, ◌/◌, ◌%◌, ◌^◌, ◌≤◌, ◌<◌, min, max, ◌≡◌, refl, sym, ap, ◌∙◌, ◌≢◌, ◌↔◌,
  ◌⊎◌, inl, inr, Bool, true, false, not, ◌&&◌, ◌||◌, Option, none, some, List, [], ◌∷◌, ◌++◌, map,
  append_assoc, append-nil, arith, subst, ltb, leb, ◌==◌, if◌then◌else◌, ltb→lt, lt→ltb, ltb→le,
  le→ltb, leb→le, le→leb, ==_iff, tests, Bool-cases, Option-cases, is_some, unwrap_or, ◌>>=◌,
  length, take, drop, All, length-append, take-append-drop, length-take, length-drop, take-append,
  drop-append, All-append, Eq, nat_eq, lookup, insert, remove, lookup-insert, lookup-insert_self,
  lookup-remove, contains, add, without, contains-add, contains-without, contains-append, Text,
  codes, text_beq, text_beq_iff, text_eq, utf8, byte_len, is_whitespace, is_nil, trim_start,
  trim_end, trim,
}
use xkvm.Protocol.{
  Envelope, pair_request, pair_accept, pair_reject, file_offer, file_accept, file_reject,
  file_complete, error,
}
use xkvm.Protocol.Proof.{pairing_proof}
use xkvm.FileTransfer.Receive.{Chunk, bytes, read_error}
use xkvm.Client.Addr.{format_host_port}
use xkvm.Client.Config.{Config, client_fingerprint, known_fingerprint}
use xkvm.Client.Handshake
use xkvm.Client.Handshake.{Incoming, failed, got, ConnectOptions, Env}
use xkvm.Client.Connect.{Transport, no_tcp, no_tls, presents, verify_server_cert}

-- The file at the path: its name, its size where it can be read, and what reading it returns, the
-- first time and then from an offset; `none` is a file that cannot be opened.
pub record LocalFile : Type 0 where
  pub is_dir : Bool
  pub file_name : Option Text
  pub size : Option ℕ
  pub content : Option (List Chunk)
  pub content_from : ℕ → Option (List Chunk)

pub data SendError : Type 0 where
  is_directory no_file_name no_metadata no_connection io unexpected_response : SendError
  channel_rejected file_rejected server_error : (reason : Text) → SendError

-- What was sent: the envelopes, the bytes of the file, the progress reported, and the error.
pub record Sending : Type 0 where
  pub sent : List Envelope
  pub body : List ℕ
  pub progress : List (ℕ × ℕ)
  pub error : Option SendError

abbrev pub nothing_sent : SendError → Sending
nothing_sent e = record { sent = []; body = []; progress = []; error = some e }

-- The bytes that are hashed.
unfoldable pub read_whole : List Chunk → Option (List ℕ)
read_whole [] = some []
read_whole (read_error ∷ chunks) = none
read_whole (bytes read ∷ chunks) =
    let rest = read_whole chunks in
    if is_nil read then some [] else (rest >>= λ r. some (read ++ r))

-- The loop that sends; the `n`-th write of the stream is the next one.
unfoldable pub send_body : (ℕ → Bool) → ℕ → ℕ → ℕ → List Chunk → List ℕ × List (ℕ × ℕ) × Bool
send_body delivers total sent_bytes n [] = ([], [], true)
send_body delivers total sent_bytes n (read_error ∷ chunks) = ([], [], false)
send_body delivers total sent_bytes n (bytes chunk ∷ chunks) =
    let now = sent_bytes + length chunk in
    let (body, progress, finished) = send_body delivers total now (suc n) chunks in
    if is_nil chunk
    then ([], [], true)
    else if delivers n
    then (chunk ++ body, (now, total) ∷ progress, finished)
    else ([], [], false)

-- The last answer.
unfoldable pub on_verdict : Incoming → Option SendError
on_verdict failed = some io
on_verdict (got (file_complete id)) = none
on_verdict (got (file_reject id reason)) = some (file_rejected reason)
on_verdict (got (Envelope.error e)) = some (server_error e)
on_verdict (got _) = some unexpected_response

-- What the server has answered to `PairRequest`.
unfoldable pub on_channel_answer : Incoming → Option SendError
on_channel_answer failed = some io
on_channel_answer (got pair_accept) = none
on_channel_answer (got (pair_reject reason)) = some (channel_rejected reason)
on_channel_answer (got _) = some unexpected_response

module _ (env : Env) (id : ℕ) where
  -- The first message: an empty PIN, for only the fingerprint is looked at.
  unfoldable pub channel_request : Config → Envelope
  unfolding client_fingerprint
  channel_request config =
      let fingerprint = client_fingerprint env.sha256 config in
      pair_request env.random_nonce fingerprint
        (pairing_proof env.sha256 [] env.random_nonce fingerprint)

  -- After the offer.
  unfoldable pub on_offer_answer : LocalFile → ℕ → List Envelope → Incoming → Incoming → Sending
  unfolding send_body on_verdict
  on_offer_answer file size sent failed verdict = record {
    sent = sent;
    body = [];
    progress = [];
    error = some io;
  }
  on_offer_answer file size sent (got (file_accept _ start_offset)) verdict =
      elim (file.content_from start_offset) [
        | none ↦ record { sent = sent; body = []; progress = []; error = some io }
        | some chunks ↦
            let (body, progress, finished) = send_body env.delivers size start_offset 2 chunks in
            record {
              sent = sent;
              body = body;
              progress = progress;
              error = if finished then on_verdict verdict else some io;
            }
      ]
  on_offer_answer file size sent (got (file_reject _ reason)) verdict = record {
    sent = sent;
    body = [];
    progress = [];
    error = some (file_rejected reason);
  }
  on_offer_answer file size sent (got _) verdict = record {
    sent = sent;
    body = [];
    progress = [];
    error = some unexpected_response;
  }

  -- After `PairAccept`: the file is hashed and offered.
  unfoldable pub offer_file : LocalFile → Text → ℕ → List Envelope → Incoming → Incoming → Sending
  unfolding read_whole on_offer_answer
  offer_file file name size sent answer verdict = elim (file.content >>= read_whole) [
    | none ↦ record { sent = sent; body = []; progress = []; error = some io }
    | some content ↦
        if env.delivers 1
        then on_offer_answer file size (sent ++ file_offer id name size (env.sha256 content) ∷ [])
            answer verdict
        else record { sent = sent; body = []; progress = []; error = some io }
  ]

  -- On a stream that is connected.
  unfoldable pub on_channel :
      Config → LocalFile → Text → ℕ → Incoming → Incoming → Incoming → Sending
  unfolding channel_request on_channel_answer offer_file
  on_channel config file name size reply answer verdict =
      if env.delivers 0
      then elim (on_channel_answer reply) [
        | some e ↦ record {
          sent = channel_request config ∷ [];
          body = [];
          progress = [];
          error = some e;
        }
        | none ↦ offer_file file name size (channel_request config ∷ []) answer verdict
      ]
      else nothing_sent io

  -- The fingerprint that the file channel must have: the one given, or the one pinned.
  unfoldable pub channel_fingerprint : Config → ConnectOptions → Text → ℕ → Option Text
  unfolding known_fingerprint format_host_port
  channel_fingerprint config opts host port = elim opts.expected_fingerprint [
    | some fp ↦ some fp
    | none ↦ known_fingerprint config (format_host_port host port)
  ]

  abbrev accepted : Option Text → Transport → Bool
  accepted required no_tcp = false
  accepted required no_tls = false
  accepted required (presents cert) = verify_server_cert env required cert

  unfoldable pub send_file :
      Text
      → ℕ
      → LocalFile
      → Config
      → ConnectOptions
      → Transport
      → Incoming
      → Incoming
      → Incoming
      → Sending
  unfolding verify_server_cert channel_fingerprint on_channel
  send_file host port file config opts transport reply answer verdict =
      if file.is_dir then nothing_sent is_directory else elim file.file_name [
        | none ↦ nothing_sent no_file_name
        | some name ↦ elim file.size [
          | none ↦ nothing_sent no_metadata
          | some size ↦
              if accepted (channel_fingerprint config opts host port) transport
              then on_channel config file name size reply answer verdict
              else nothing_sent no_connection
        ]
      ]
