-- ===== src/Server/Broadcasts.antt =====
-- What the clients are sent while the server runs: `ReleaseAll` and the notices that forwarding is
-- off are broadcast one after the other, and other tasks come in between.
use xkvm.Base.{
  ℕ, ◌+◌, ◌<◌, ◌≡◌, refl, sym, ap, ◌∙◌, ◌≢◌, inl, inr, Bool, true, false, Option, none, some, List,
  [], ◌∷◌, arith, subst, ◌==◌, Option-cases, is_some, nat_eq, lookup, insert, lookup-insert,
  lookup-insert_self, lookup-remove, text_eq,
}
use xkvm.Protocol.{Envelope, toggle_forward, input, clipboard_set, ping, pong, goodbye}
use xkvm.Capture.Types
use xkvm.RateLimit.{IpAddr}
use xkvm.Server.State.{Registry, ServerState, broadcast, send_to, lookup-broadcast, lookup-send_to}
use xkvm.Server.Pairing.{Env, Incoming, connect, register}
use xkvm.Server.Authentication.{connect_registers}
use xkvm.Server.Messages.{
  notices, switch, LoopEvent, received, closed, ping_tick, watchdog_tick, loop_round, unregister,
}
use xkvm.Server.Forwarder.{
  on_capture_event, shut_down, Event, connects, rounds, leaves, captures, proceeds, stores, copies,
  proxy_fails, stops, Running, proceed, step, run,
}
use xkvm.Server.Credit.{
  is_notice_off, credit_after, is_covered, need, needs, covers, funded, recount,
  and_then-funded_other, proceed-funded,
}

-- The credit of one client suffices for what the tasks still have to broadcast.
IsFunded : ℕ → Running → Type 0
IsFunded id now = funded (needs now.tasks) (lookup id now.server.registry) ≡ true

-- A task that begins an announcement needs no credit.
switch-need :
    (desired : Bool) (state : ServerState)
    → ((switch desired state).0.registry ≡ state.registry) × (need (switch desired state).1 ≡ 0)
unfolding switch need notices
switch-need true state = ground arith
switch-need false state = ground arith

notices-need : (on : Bool) → need (notices on) ≡ 0
unfolding need notices
notices-need true = refl
notices-need false = refl

begin-funded :
    (task : List Envelope) (tasks : List (List Envelope)) (o : Option (List Envelope))
    → need task ≡ 0
    → funded (needs tasks) o ≡ true
    → funded (needs (task ∷ tasks)) o ≡ true
unfolding needs
begin-funded task tasks o free h =
    recount (needs tasks) (need task + needs tasks) o (omega (arith, free)) h

send_to-funded :
    (id j m : ℕ) (e : Envelope) (registry : Registry)
    → is_notice_off e ≡ false
    → funded m (lookup id registry) ≡ true
    → funded m (lookup id (send_to j e registry)) ≡ true
send_to-funded id j m e registry other h =
    ground (
      arith,
      lookup-send_to j id e registry,
      and_then-funded_other e m (lookup id registry) other h,
    )

broadcast-funded :
    (id m : ℕ) (e : Envelope) (registry : Registry)
    → is_notice_off e ≡ false
    → funded m (lookup id registry) ≡ true
    → funded m (lookup id (broadcast e registry)) ≡ true
broadcast-funded id m e registry other h =
    rw (lookup-broadcast id e registry) (and_then-funded_other e m (lookup id registry) other h)

loop_round-funded :
    (id j m : ℕ) (event : LoopEvent) (state : ServerState) (last_seen : ℕ)
    → ((time : ℕ) (desired : Bool) → event ≢ received time (toggle_forward desired))
    → funded m (lookup id state.registry) ≡ true
    → funded m (lookup id (loop_round j event state last_seen).0.registry) ≡ true
unfolding loop_round
loop_round-funded id j m (received now (ping ts)) state last_seen other h =
    send_to-funded id j m (pong ts) state.registry refl h
loop_round-funded id j m (received now (toggle_forward desired)) state last_seen other h =
    absurd (other now desired refl)
loop_round-funded id j m (received now (clipboard_set text)) state last_seen other h = ground arith
loop_round-funded id j m (received now _) state last_seen other h = h
loop_round-funded id j m closed state last_seen other h = h
loop_round-funded id j m (ping_tick now) state last_seen other h =
    send_to-funded id j m (ping now) state.registry refl h
loop_round-funded id j m (watchdog_tick now) state last_seen other h = h

register_other :
    (id j : ℕ) (state : ServerState)
    → (id == j) ≡ false
    → lookup id (register j state).registry ≡ lookup id state.registry
unfolding register
register_other id j state other = ground (
  arith,
  lookup-send_to j id (toggle_forward true) (insert j [] state.registry),
  lookup-insert {0, 0} {V = List Envelope} j id [] state.registry,
)

connect_other :
    (env : Env) (id j : ℕ) (peer_ip : IpAddr) (hello_in pair_in : Incoming) (state : ServerState)
    → (id == j) ≡ false
    → lookup id (connect env j peer_ip hello_in pair_in state).0.registry ≡ lookup id state.registry
connect_other env id j peer_ip hello_in pair_in state other =
    elim (connect_registers env j peer_ip hello_in pair_in state) [
      | inl (same, _) ↦ ap (lookup id) same
      | inr (s, same, _, after) ↦
          ap (λ (t : ServerState). lookup id t.registry) after
          ∙ register_other id j s other
          ∙ ap (lookup id) same
    ]

register-funded :
    (id : ℕ) (state : ServerState) → funded 0 (lookup id (register id state).registry) ≡ true
unfolding register credit_after is_covered
register-funded id state =
    let told = lookup-send_to id id (toggle_forward true) (insert id [] state.registry) in
    let joined = lookup-insert_self {0, 0} {V = List Envelope} id [] state.registry in
    ground (arith, told, joined)

unregister-funded :
    (id j m : ℕ) (state : ServerState)
    → funded m (lookup id state.registry) ≡ true
    → funded m (lookup id (unregister j state).registry) ≡ true
unfolding unregister
unregister-funded id j m state h =
    ground (arith, lookup-remove {0, 0} {V = List Envelope} j id state.registry)

-- A client that has just connected needs nothing of the tasks if there are none.
connect-funded :
    (env : Env) (id : ℕ) (peer_ip : IpAddr) (hello_in pair_in : Incoming) (state : ServerState)
    → lookup id state.registry ≡ none
    → funded 0 (lookup id (connect env id peer_ip hello_in pair_in state).0.registry) ≡ true
connect-funded env id peer_ip hello_in pair_in state fresh =
    elim (connect_registers env id peer_ip hello_in pair_in state) [
      | inl (same, _) ↦ subst (λ o. funded 0 o ≡ true) (sym (ap (lookup id) same ∙ fresh)) refl
      | inr (s, _, _, after) ↦
          subst (λ (t : ServerState). funded 0 (lookup id t.registry) ≡ true) (sym after)
            (register-funded id s)
    ]

step-IsFunded :
    (id : ℕ) (event : Event) (now : Running)
    → id < now.next_id
    → IsFunded id now
    → (id < (step event now).next_id) × IsFunded id (step event now)
unfolding step IsFunded on_capture_event shut_down
step-IsFunded id (connects env peer_ip hello_in pair_in) now older h = (
  omega arith,
  rw (connect_other env id now.next_id peer_ip hello_in pair_in now.server (ground arith)) h,
)
step-IsFunded id (rounds j (received time (toggle_forward desired)) last_seen) now older h =
    let (same, free) = switch-need desired now.server in
    (
      older,
      rw same (
          begin-funded (switch desired now.server).1 now.tasks (lookup id now.server.registry) free
            h),
    )
step-IsFunded id (rounds j event last_seen) now older h = (
  older,
  loop_round-funded id j (needs now.tasks) event now.server last_seen (λ time desired e. cc e) h,
)
step-IsFunded id (leaves j) now older h =
    (older, unregister-funded id j (needs now.tasks) now.server h)
step-IsFunded id (captures (Types.input event)) now older h =
    (older, broadcast-funded id (needs now.tasks) (input event) now.server.registry refl h)
step-IsFunded id (captures (Types.forwarding_toggled on)) now older h =
    (older, begin-funded (notices on) now.tasks (lookup id now.server.registry) (notices-need on) h)
step-IsFunded id (proceeds n) now older h =
    let (tasks', registry') = proceed n now.tasks now.server.registry in
    let paid = proceed-funded n now.tasks now.server.registry id 0 (
      recount (needs now.tasks) (needs now.tasks + 0) (lookup id now.server.registry) (omega arith)
        h) in
    (older, recount (needs tasks' + 0) (needs tasks') (lookup id registry') (omega arith) paid)
step-IsFunded id (stores value) now older h = (older, h)
step-IsFunded id (copies text) now older h =
    (older, broadcast-funded id (needs now.tasks) (clipboard_set text) now.server.registry refl h)
step-IsFunded id (proxy_fails time ip) now older h = (older, h)
step-IsFunded id stops now older h =
    (older, broadcast-funded id (needs now.tasks) goodbye now.server.registry refl h)

run-IsFunded :
    (id : ℕ) (events : List Event) (now : Running)
    → id < now.next_id
    → IsFunded id now
    → IsFunded id (run events now)
unfolding run
run-IsFunded id [] now older h = h
run-IsFunded id (event ∷ events) now older h =
    let (older', h') = step-IsFunded id event now older h in
    run-IsFunded id events (step event now) older' h'

-- A client that connects while no task is in the middle of an announcement: whatever connections,
-- messages, captured events, toggles and texts of the clipboard come afterwards, and however the
-- broadcasts of the tasks interleave, each notice that forwarding is off that the client is sent
-- has a `ReleaseAll` of its own somewhere before it.
pub run-is_covered :
    (env : Env) (peer_ip : IpAddr) (hello_in pair_in : Incoming) (events : List Event)
    (start : Running) (queue : List Envelope)
    → start.tasks ≡ []
    → lookup start.next_id start.server.registry ≡ none
    → lookup start.next_id
        (run (connects env peer_ip hello_in pair_in ∷ events) start).server.registry
      ≡ some queue
    → is_covered queue ≡ true
unfolding run step IsFunded is_covered needs
run-is_covered env peer_ip hello_in pair_in events start queue idle fresh found =
    let id = start.next_id in
    let joined = step (connects env peer_ip hello_in pair_in) start in
    let first : IsFunded id joined =
      rw idle (connect-funded env id peer_ip hello_in pair_in start.server fresh) in
    let paid = run-IsFunded id events joined (omega arith) first in
    covered (needs (run events joined).tasks) queue
      (subst (λ o. funded (needs (run events joined).tasks) o ≡ true) found paid)
  where
    covered :
        (n : ℕ) (queue : List Envelope)
        → covers n (credit_after queue (some 0)) ≡ true
        → is_some (credit_after queue (some 0)) ≡ true
    covered n queue h = ground (arith, Option-cases (credit_after queue (some 0)))
