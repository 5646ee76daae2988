-- ===== src/Server/Pairing.antt =====
-- `handle_client` of server/src/server.rs up to the registration of a paired client: the handshake,
-- the pairing and the honouring of `auto_forward`. Each read of the stream gives what arrived, an
-- error or the end of the deadline; the envelopes that went out on the stream are listed.
use xkvm.Base.{
  ℕ, Bool, true, not, ◌&&◌, List, [], ◌∷◌, ◌++◌, ◌==◌, if◌then◌else◌, length, nat_eq, insert, Text,
  codes, text_beq, text_eq,
}
use xkvm.Protocol.{
  Envelope, hello, hello_ack, pair_request, pair_accept, pair_reject, toggle_forward, error,
  protocol_version,
}
use xkvm.Protocol.Proof.{pairing_proof, proof_matches}
use xkvm.RateLimit.{IpAddr, is_rate_limited, record_pairing_failure}
use xkvm.Server.Config.{is_paired, add_paired_device}
use xkvm.Server.State.{ServerState, send_to}

pub data Incoming : Type 0 where
  timed_out failed : Incoming
  got : Envelope → Incoming

-- Why the handler gives up.
pub data Bail : Type 0 where
  read_timeout io version_mismatch expected_hello rate_limited pairing_rejected
        expected_pair_request :
      Bail

pub data Reply {ℓ} (A : Type ℓ) : Type ℓ where
  ok : A → Reply A
  bail : Bail → Reply A

-- What the handler does not decide: whether the n-th write of the stream succeeds, whether the
-- configuration file can be written, SHA-256, and the clock at its two readings and at the pairing.
pub record Env : Type 0 where
  pub delivers : ℕ → Bool
  pub save_succeeds : Bool
  pub sha256 : List ℕ → List ℕ
  pub checked_at : ℕ
  pub failed_at : ℕ
  pub paired_at : ℕ

abbrev pub version_text : Text → Text
version_text version =
    codes "protocol version mismatch: server="
    ++ (protocol_version ++ (codes ", client=" ++ version))

abbrev pub limited_reason : Text
limited_reason = codes "too many failed pairing attempts; try again later"

abbrev pub rejected_reason : Text
rejected_reason = codes "pairing PIN required or incorrect"

-- The client joins the registry; the first one turns forwarding on if `auto_forward` says so.
unfoldable pub register : ℕ → ServerState → ServerState
register client_id state =
    let registry = insert client_id [] state.registry in
    if (length registry == 1) && (state.config.auto_forward && not state.forwarding_enabled)
    then record state {
      registry = send_to client_id (toggle_forward true) registry;
      forwarding_enabled = true;
    }
    else record state { registry = registry }

module _ (env : Env) where
  -- A write whose failure is ignored.
  try_send : Envelope → List Envelope → List Envelope
  try_send e sent = if env.delivers (length sent) then sent ++ e ∷ [] else sent

  -- A write whose failure ends the handler, and else the reply.
  send_then {ℓ} : {A : Type ℓ} → Envelope → Reply A → List Envelope → List Envelope × Reply A
  send_then e reply sent =
      if env.delivers (length sent) then (sent ++ e ∷ [], reply) else (sent, bail io)

  -- The client's name, once its `Hello` is read.
  unfoldable pub await_hello : Incoming → List Envelope → List Envelope × Reply Text
  unfolding try_send
  await_hello timed_out sent = (sent, bail read_timeout)
  await_hello failed sent = (sent, bail io)
  await_hello (got (hello name version caps)) sent =
      if text_beq version protocol_version
      then (sent, ok name)
      else (try_send (error (version_text version)) sent, bail version_mismatch)
  await_hello (got _) sent = (try_send (error (codes "expected Hello")) sent, bail expected_hello)

  unfoldable pub send_hello_ack : ServerState → Text → List Envelope → List Envelope × Reply Text
  unfolding send_then
  send_hello_ack state name sent =
      send_then (hello_ack state.file_port state.config.server_name) (ok name) sent

  -- `cfg.add_paired_device` and `cfg.save`, whose failure is only logged.
  unfoldable pub remember_device : Text → Text → ServerState → ServerState
  remember_device fingerprint name state =
      let config = add_paired_device env.paired_at state.config fingerprint name in
      record state { config = config; saved = if env.save_succeeds then config else state.saved }

  -- The answer to a `PairRequest` of `peer_ip`.
  unfoldable pub answer_pair_request :
      IpAddr
      → Text
      → List ℕ
      → Text
      → List ℕ
      → ServerState
      → List Envelope
      → ServerState × List Envelope × Reply Text
  unfolding send_then remember_device
  answer_pair_request peer_ip name nonce fingerprint proof state sent =
      let refused = send_then (pair_reject limited_reason) (bail rate_limited) sent in
      let accepted = send_then pair_accept (ok fingerprint) sent in
      let rejected = send_then (pair_reject rejected_reason) (bail pairing_rejected) sent in
      if is_rate_limited env.checked_at state.rate_limiter peer_ip
      then (state, refused.0, refused.1)
      else if is_paired state.config fingerprint
      then (state, accepted.0, accepted.1)
      else if proof_matches (pairing_proof env.sha256 state.pin nonce fingerprint) proof
      then (remember_device fingerprint name state, accepted.0, accepted.1)
      else (
        record state {
          rate_limiter = record_pairing_failure env.failed_at state.rate_limiter peer_ip;
        },
        rejected.0,
        rejected.1,
      )

  unfoldable pub await_pair_request :
      IpAddr
      → Text
      → Incoming
      → ServerState
      → List Envelope
      → ServerState × List Envelope × Reply Text
  unfolding send_then
  await_pair_request peer_ip name timed_out state sent = (state, sent, bail read_timeout)
  await_pair_request peer_ip name failed state sent = (state, sent, bail io)
  await_pair_request peer_ip name (got (pair_request nonce fingerprint proof)) state sent =
      answer_pair_request peer_ip name nonce fingerprint proof state sent
  await_pair_request peer_ip name (got _) state sent =
      let answer =
        send_then (error (codes "expected PairRequest")) (bail expected_pair_request) sent in
      (state, answer.0, answer.1)

  -- All of it: the state, what went out on the stream, and the client's name and fingerprint.
  after_pairing :
      ℕ
      → Text
      → ServerState × List Envelope × Reply Text
      → ServerState × List Envelope × Reply (Text × Text)
  after_pairing client_id name (state, sent, ok fingerprint) =
      (register client_id state, sent, ok (name, fingerprint))
  after_pairing client_id name (state, sent, bail b) = (state, sent, bail b)

  after_ack :
      ℕ
      → IpAddr
      → Incoming
      → ServerState
      → List Envelope × Reply Text
      → ServerState × List Envelope × Reply (Text × Text)
  unfolding after_pairing await_pair_request
  after_ack client_id peer_ip pair_req state (sent, ok name) =
      after_pairing client_id name (await_pair_request peer_ip name pair_req state sent)
  after_ack client_id peer_ip pair_req state (sent, bail b) = (state, sent, bail b)

  after_hello :
      ℕ
      → IpAddr
      → Incoming
      → ServerState
      → List Envelope × Reply Text
      → ServerState × List Envelope × Reply (Text × Text)
  unfolding after_ack send_hello_ack
  after_hello client_id peer_ip pair_req state (sent, ok name) =
      after_ack client_id peer_ip pair_req state (send_hello_ack state name sent)
  after_hello client_id peer_ip pair_req state (sent, bail b) = (state, sent, bail b)

  unfoldable pub connect :
      ℕ
      → IpAddr
      → Incoming
      → Incoming
      → ServerState
      → ServerState × List Envelope × Reply (Text × Text)
  unfolding after_hello await_hello
  connect client_id peer_ip hello_in pair_in state =
      after_hello client_id peer_ip pair_in state (await_hello hello_in [])
