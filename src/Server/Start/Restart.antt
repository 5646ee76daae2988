-- ===== src/Server/Start/Restart.antt =====
-- A device that was paired is let in after the server has been started again.
use xkvm.Base.{
  ℕ, ◌≡◌, refl, ap, ◌∙◌, Bool, true, Option, some, List, [], ◌∷◌, arith, subst, nat_eq, lookup,
  Text, text_beq, text_eq,
}
use xkvm.Protocol.{Caps, Envelope, hello, pair_request, protocol_version, hello_ack}
use xkvm.RateLimit.{IpAddr, is_rate_limited}
use xkvm.Server.Config.{Config, is_paired}
use xkvm.Server.State.{ServerState}
use xkvm.Server.Pairing.{Env, Incoming, got, ok, connect, register, answer_pair_request}
use xkvm.Server.Authentication.{connect_authentic}
use xkvm.Server.Start.{holds, load_or_default, first_state}

-- What is in the file is what the server works with.
abbrev pub IsSaved : ServerState → Type 0
IsSaved state = state.saved ≡ state.config

register-IsSaved : (id : ℕ) (state : ServerState) → IsSaved state → IsSaved (register id state)
unfolding register
register-IsSaved id state h = ground arith

answer-IsSaved :
    (env : Env) (peer_ip : IpAddr) (name : Text) (nonce : List ℕ) (fingerprint : Text)
    (proof : List ℕ) (state : ServerState) (sent : List Envelope)
    → env.save_succeeds ≡ true
    → IsSaved state
    → IsSaved (answer_pair_request env peer_ip name nonce fingerprint proof state sent).0
unfolding answer_pair_request
answer-IsSaved env peer_ip name nonce fingerprint proof state sent saves h = ground arith

connect-IsSaved :
    (env : Env) (id : ℕ) (peer_ip : IpAddr) (hello_in pair_in : Incoming) (state : ServerState)
    → env.save_succeeds ≡ true
    → IsSaved state
    → IsSaved (connect env id peer_ip hello_in pair_in state).0
unfolding connect
connect-IsSaved env id peer_ip (got (hello n v caps)) (got (pair_request nonce f proof)) state saves
      h =
    let out = hello_ack state.file_port state.config.server_name ∷ [] in
    let answered = answer_pair_request env peer_ip n nonce f proof state out in
    ground (
      arith,
      answer-IsSaved env peer_ip n nonce f proof state out saves h,
      register-IsSaved id answered.0,
    )
connect-IsSaved env id peer_ip _ _ state saves h = ground arith

-- A new server whose configuration knows the device lets it in, without a look at the proof.
known_lets_in :
    (env : Env) (id : ℕ) (peer_ip : IpAddr) (name fp : Text) (caps : Caps) (nonce proof : List ℕ)
    (config : Config) (opens_clipboard forwarding : Bool) (file_port : ℕ) (pin : Text)
    → is_paired config fp ≡ true
    → ((n : ℕ) → env.delivers n ≡ true)
    → (connect env id peer_ip
        (got (hello name protocol_version caps))
        (got (pair_request nonce fp proof))
        (first_state config opens_clipboard forwarding file_port pin)).2
      ≡ ok (name, fp)
unfolding connect answer_pair_request first_state is_rate_limited lookup text_beq
known_lets_in env id peer_ip name fp caps nonce proof config opens_clipboard forwarding file_port
      pin known all =
    rw (all 0, all 1, known) refl

-- Where the configuration file holds what the server works with, a device that the server has let
-- in, when the configuration could be written, is let in again after the server has been started
-- anew from the file: whatever the PIN, the address and the proof are then, and although the
-- failures that were counted are forgotten. It is supposed that the configuration that is printed
-- is parsed back, and that the writes of the new server succeed.
pub restart_recognises :
    (env env' : Env) (id id' : ℕ) (peer_ip peer_ip' : IpAddr) (hello_in pair_in : Incoming)
    (state state' : ServerState) (sent : List Envelope) (name name' fp : Text) (caps : Caps)
    (nonce proof : List ℕ) (defaults : Config) (parse : Text → Option Config)
    (print : Config → Text) (opens_clipboard forwarding : Bool) (file_port : ℕ) (pin : Text)
    → env.save_succeeds ≡ true
    → state.saved ≡ state.config
    → connect env id peer_ip hello_in pair_in state ≡ (state', sent, ok (name, fp))
    → parse (print state'.saved) ≡ some state'.saved
    → ((n : ℕ) → env'.delivers n ≡ true)
    → (config : Config) × (load_or_default defaults parse (holds (print state'.saved))
        ≡ some config)
      × ((connect env' id' peer_ip'
            (got (hello name' protocol_version caps))
            (got (pair_request nonce fp proof))
            (first_state config opens_clipboard forwarding file_port pin)).2
          ≡ ok (name', fp))
unfolding load_or_default
restart_recognises env env' id id' peer_ip peer_ip' hello_in pair_in state state' sent name name' fp
      caps nonce proof defaults parse print opens_clipboard forwarding file_port pin saves saved met
      back all =
    let paired =
      (connect_authentic env id peer_ip state hello_in pair_in state' sent name fp met).2 in
    let kept : state'.saved ≡ state'.config =
      subst (λ r. r.0.saved ≡ r.0.config) met
        (connect-IsSaved env id peer_ip hello_in pair_in state saves saved) in
    (
      state'.saved,
      back,
      known_lets_in env' id' peer_ip' name' fp caps nonce proof state'.saved opens_clipboard
          forwarding file_port pin (ap (λ c. is_paired c fp) kept ∙ paired) all,
    )
