-- ===== src/Server/Start/Revoked.antt =====
-- `--revoke` of server/src/main.rs while another process of the server runs.
use xkvm.Base.{ℕ, ◌≡◌, true, false, List, [], ◌∷◌, arith, nat_eq, Text, text_beq_iff, text_eq}
use xkvm.Protocol.{Envelope, hello, pair_request, hello_ack}
use xkvm.RateLimit.{IpAddr}
use xkvm.Server.Config.{
  is_paired, remove_paired_device, remove_paired_device_revokes, is_paired-add_paired_device,
}
use xkvm.Server.State.{ServerState}
use xkvm.Server.Pairing.{Env, Incoming, got, ok, connect, register, answer_pair_request}

-- The other process loads the configuration, removes the device and saves it: only the file of the
-- running server changes.
unfoldable pub revoke_in_file : Text → ServerState → ServerState
unfolding remove_paired_device
revoke_in_file fingerprint state = record state {
  saved = (remove_paired_device state.saved fingerprint).0;
}

register-saved : (id : ℕ) (state : ServerState) → (register id state).saved ≡ state.saved
unfolding register
register-saved id state = ground arith

answer-writes_back :
    (env : Env) (peer_ip : IpAddr) (name : Text) (nonce : List ℕ) (fingerprint : Text)
    (proof : List ℕ) (state : ServerState) (sent : List Envelope) (other fp : Text)
    → env.save_succeeds ≡ true
    → is_paired state.config fp ≡ true
    → is_paired state.config other ≡ false
    → (answer_pair_request env peer_ip name nonce fingerprint proof state sent).2 ≡ ok other
    → is_paired (answer_pair_request env peer_ip name nonce fingerprint proof state sent).0.saved fp
      ≡ true
unfolding answer_pair_request
answer-writes_back env peer_ip name nonce fingerprint proof state sent other fp saves known new h =
    ground (arith, is_paired-add_paired_device env.paired_at state.config fingerprint name fp)

connect-writes_back :
    (env : Env) (id : ℕ) (peer_ip : IpAddr) (hello_in pair_in : Incoming)
    (state state' : ServerState) (sent : List Envelope) (name other fp : Text)
    → env.save_succeeds ≡ true
    → is_paired state.config fp ≡ true
    → is_paired state.config other ≡ false
    → connect env id peer_ip hello_in pair_in state ≡ (state', sent, ok (name, other))
    → is_paired state'.saved fp ≡ true
unfolding connect
connect-writes_back env id peer_ip (got (hello n v caps)) (got (pair_request nonce f proof)) state
      state' sent name other fp saves known new h =
    let out = hello_ack state.file_port state.config.server_name ∷ [] in
    let answered = answer_pair_request env peer_ip n nonce f proof state out in
    let whose : answered.2 ≡ ok other = ground arith in
    let registered : state' ≡ register id answered.0 = ground arith in
    rw (registered, register-saved id answered.0)
      (answer-writes_back env peer_ip n nonce f proof state out other fp saves known new whose)
connect-writes_back env id peer_ip _ _ state state' sent name other fp saves known new h =
    absurd (ground arith)

-- A device that is revoked while the server runs is no longer in the file; but as soon as a new
-- device pairs, the running server writes its own list back, and the revoked device is in the file
-- again, as it has been in the server all the time.
pub revoked_returns :
    (env : Env) (id : ℕ) (peer_ip : IpAddr) (hello_in pair_in : Incoming)
    (state state' : ServerState) (sent : List Envelope) (name other fp : Text)
    → env.save_succeeds ≡ true
    → is_paired state.config fp ≡ true
    → is_paired state.config other ≡ false
    → connect env id peer_ip hello_in pair_in (revoke_in_file fp state)
      ≡ (state', sent, ok (name, other))
    → (is_paired (revoke_in_file fp state).saved fp ≡ false)
      × (is_paired (revoke_in_file fp state).config fp ≡ true)
      × (is_paired state'.saved fp ≡ true)
unfolding revoke_in_file
revoked_returns env id peer_ip hello_in pair_in state state' sent name other fp saves known new
      met =
    (
      ground (arith, (remove_paired_device_revokes state.saved fp fp).1, text_beq_iff fp fp),
      known,
      connect-writes_back env id peer_ip hello_in pair_in (revoke_in_file fp state) state' sent name
          other fp saves known new met,
    )
