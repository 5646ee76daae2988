-- ===== src/Server/LockedOut.antt =====
-- A rejected pairing attempt and the lockout of its address, through what the server does after it.
use xkvm.Base.{
  ℕ, ◌+◌, ◌≤◌, ◌<◌, ◌≡◌, refl, ap, ◌∙◌, ◌≢◌, true, List, [], ◌∷◌, arith, length, All, nat_eq, Text,
  text_eq,
}
use xkvm.Protocol.{Envelope, hello, hello_ack, pair_request, toggle_forward, clipboard_set}
use xkvm.RateLimit.{Limiter, IpAddr, rate_limit_window, is_rate_limited, record_pairing_failure}
use xkvm.RateLimit.Lockout.{
  record_failures, times_of, AreRecent, record_pairing_failure_locked, fifth_failure_blocks,
}
use xkvm.Server.State.{ServerState}
use xkvm.Server.Pairing.{
  Incoming, got, pairing_rejected, ok, bail, Env, answer_pair_request, register, connect,
}
use xkvm.Capture.Types
use xkvm.Server.Messages.{
  LoopEvent, received, closed, ping_tick, watchdog_tick, loop_round, unregister,
}
use xkvm.Server.Forwarder.{
  on_capture_event, Event, connects, rounds, leaves, captures, proceeds, stores, copies,
  proxy_fails, stops, Running, step, run,
}
use xkvm.Server.Authentication.{connect_authentic}

module _ (env : Env) (peer_ip : IpAddr) (name : Text) (state : ServerState) where
  answer_rejected :
      (nonce : List ℕ) (fingerprint : Text) (proof : List ℕ) (sent : List Envelope)
      → (answer_pair_request env peer_ip name nonce fingerprint proof state sent).2
        ≡ bail pairing_rejected
      → (answer_pair_request env peer_ip name nonce fingerprint proof state sent).0.rate_limiter
        ≡ record_pairing_failure env.failed_at state.rate_limiter peer_ip
  unfolding answer_pair_request
  answer_rejected nonce fingerprint proof sent h = ground arith

connect_rejected :
    (env : Env) (id : ℕ) (peer_ip : IpAddr) (state : ServerState) (hello_in pair_in : Incoming)
    (state' : ServerState) (sent : List Envelope)
    → connect env id peer_ip hello_in pair_in state ≡ (state', sent, bail pairing_rejected)
    → state'.rate_limiter ≡ record_pairing_failure env.failed_at state.rate_limiter peer_ip
unfolding connect
connect_rejected env id peer_ip state (got (hello n v caps)) (got (pair_request nonce f proof))
      state' sent h =
    ground (
      arith,
      answer_rejected env peer_ip n state nonce f proof
          (hello_ack state.file_port state.config.server_name ∷ []),
    )
connect_rejected env id peer_ip state _ _ state' sent h = absurd (ground arith)

-- A failure that the event may count comes no earlier than `since`.
abbrev pub IsAfter : ℕ → Event → Type 0
IsAfter since (connects env peer_ip hello_in pair_in) = since ≤ env.failed_at
IsAfter since (proxy_fails now ip) = since ≤ now
IsAfter since _ = Unit

module _ (since t : ℕ) (ip : IpAddr) (soon : t < since + rate_limit_window) where
  -- The address is locked out at `t`.
  abbrev IsLocked : ServerState → Type 0
  IsLocked state = is_rate_limited t state.rate_limiter ip ≡ true

  answer-IsLocked :
      (env : Env) (peer_ip : IpAddr) (name : Text) (nonce : List ℕ) (fingerprint : Text)
      (proof : List ℕ) (state : ServerState) (sent : List Envelope)
      → since ≤ env.failed_at
      → IsLocked state
      → IsLocked (answer_pair_request env peer_ip name nonce fingerprint proof state sent).0
  unfolding answer_pair_request
  answer-IsLocked env peer_ip name nonce fingerprint proof state sent late h =
      let still =
        record_pairing_failure_locked env.failed_at t state.rate_limiter ip peer_ip (omega arith)
          h in
      ground (arith, still)

  register-IsLocked : (id : ℕ) (state : ServerState) → IsLocked state → IsLocked (register id state)
  unfolding register
  register-IsLocked id state h = ground arith

  connect-IsLocked :
      (env : Env) (id : ℕ) (peer_ip : IpAddr) (hello_in pair_in : Incoming) (state : ServerState)
      → since ≤ env.failed_at
      → IsLocked state
      → IsLocked (connect env id peer_ip hello_in pair_in state).0
  unfolding connect
  connect-IsLocked env id peer_ip (got (hello n v caps)) (got (pair_request nonce f proof)) state
        late h =
      let out = hello_ack state.file_port state.config.server_name ∷ [] in
      let answered = answer_pair_request env peer_ip n nonce f proof state out in
      let kept = answer-IsLocked env peer_ip n nonce f proof state out late h in
      ground (arith, kept, register-IsLocked id answered.0 kept)
  connect-IsLocked env id peer_ip _ _ state late h = ground arith

  loop_round-limiter :
      (id : ℕ) (event : LoopEvent) (state : ServerState) (last_seen : ℕ)
      → (loop_round id event state last_seen).0.rate_limiter ≡ state.rate_limiter
  unfolding loop_round
  loop_round-limiter id (received now (toggle_forward desired)) state last_seen = ground arith
  loop_round-limiter id (received now (clipboard_set text)) state last_seen = ground arith
  loop_round-limiter id (received now _) state last_seen = refl
  loop_round-limiter id closed state last_seen = refl
  loop_round-limiter id (ping_tick now) state last_seen = refl
  loop_round-limiter id (watchdog_tick now) state last_seen = refl

  step-IsLocked :
      (event : Event) (now : Running)
      → IsAfter since event
      → IsLocked now.server
      → IsLocked (step event now).server
  unfolding step on_capture_event unregister
  step-IsLocked (connects env peer_ip hello_in pair_in) now late h =
      connect-IsLocked env now.next_id peer_ip hello_in pair_in now.server late h
  step-IsLocked (rounds id (received time (toggle_forward desired)) last_seen) now late h =
      ground arith
  step-IsLocked (rounds id event last_seen) now late h =
      ap (λ l. is_rate_limited t l ip) (loop_round-limiter id event now.server last_seen) ∙ h
  step-IsLocked (leaves id) now late h = h
  step-IsLocked (captures (Types.input event)) now late h = h
  step-IsLocked (captures (Types.forwarding_toggled on)) now late h = h
  step-IsLocked (proceeds n) now late h = h
  step-IsLocked (stores value) now late h = h
  step-IsLocked (copies text) now late h = h
  step-IsLocked (proxy_fails time other) now late h =
      record_pairing_failure_locked time t now.server.rate_limiter ip other (omega arith) h
  step-IsLocked stops now late h = h

  run-IsLocked :
      (events : List Event) (now : Running)
      → All (IsAfter since) events
      → IsLocked now.server
      → IsLocked (run events now).server
  unfolding run
  run-IsLocked [] now late h = h
  run-IsLocked (event ∷ events) now late h =
      run-IsLocked events (step event now) late.1 (step-IsLocked event now late.0 h)

-- After four failures of an address that are still recent, among failures of any addresses, a
-- rejected pairing attempt locks the address out: whatever happens on the server then, further
-- failures included, no later connection from the address is let in before the window is over, not
-- even with the right PIN or a paired device. It is supposed that no later failure is recorded at
-- an earlier time than the rejection.
pub connect_locked_out :
    (env later : Env) (id : ℕ) (peer_ip : IpAddr) (state : ServerState) (now : Running)
    (failures : List (ℕ × IpAddr)) (limiter : Limiter) (events : List Event)
    (hello_in pair_in hello_in' pair_in' : Incoming) (sent : List Envelope) (x : Text × Text)
    → state.rate_limiter ≡ record_failures failures limiter
    → 4 ≤ length (times_of peer_ip failures)
    → AreRecent env.failed_at (times_of peer_ip failures)
    → connect env id peer_ip hello_in pair_in state ≡ (now.server, sent, bail pairing_rejected)
    → All (IsAfter env.failed_at) events
    → later.checked_at < env.failed_at + rate_limit_window
    → let now' = run events now in
      (connect later now'.next_id peer_ip hello_in' pair_in' now'.server).2 ≢ ok x
connect_locked_out env later id peer_ip state now failures limiter events hello_in pair_in hello_in'
      pair_in' sent x known four recent rejected after soon accepted =
    let now' = run events now in
    let (state'', sent'', reply) =
      connect later now'.next_id peer_ip hello_in' pair_in' now'.server in
    let (name, fp) = x in
    let free =
      (connect_authentic later now'.next_id peer_ip now'.server hello_in' pair_in' state'' sent''
        name fp (ap (λ r. (state'', sent'', r)) accepted)).0 in
    let limiter' =
      connect_rejected env id peer_ip state hello_in pair_in now.server sent rejected in
    let locked : IsLocked env.failed_at later.checked_at peer_ip soon now.server =
      ap (λ l. is_rate_limited later.checked_at l peer_ip)
        (limiter' ∙ ap (λ l. record_pairing_failure env.failed_at l peer_ip) known)
      ∙ fifth_failure_blocks failures env.failed_at later.checked_at peer_ip limiter four recent
          soon in
    cc (free, run-IsLocked env.failed_at later.checked_at peer_ip soon events now after locked)
