-- ===== src/Server/Messages.antt =====
-- The message loop of `handle_client` of server/src/server.rs for a registered client, one function
-- for each arm of its `select!`, and what the handler does when the loop ends. Times are in
-- milliseconds.
use xkvm.Base.{
  ℕ, ◌-◌, Bool, true, false, not, ◌&&◌, Option, none, some, List, [], ◌∷◌, ◌++◌, leb, ◌==◌,
  if◌then◌else◌, length, nat_eq, remove, Text, text_eq, byte_len,
}
use xkvm.Protocol.{Envelope, toggle_forward, input, clipboard_set, ping, pong, goodbye, release_all}
use xkvm.Server.State.{Registry, ServerState, max_clipboard_bytes, broadcast, send_to}

-- What a task broadcasts when forwarding changes, in this order; `broadcast` locks the registry
-- anew for each.
unfoldable pub notices : Bool → List Envelope
notices true = toggle_forward true ∷ []
notices false = input release_all ∷ toggle_forward false ∷ []

unfoldable pub deliver : List Envelope → Registry → Registry
deliver [] registry = registry
deliver (e ∷ envelopes) registry = deliver envelopes (broadcast e registry)

-- The broadcasts of one task when nothing comes between them.
unfoldable pub announce : Bool → Registry → Registry
unfolding notices deliver
announce on registry = deliver (notices on) registry

-- The test `desired != current`.
abbrev pub differs : Bool → Bool → Bool
differs true b = not b
differs false b = b

-- The flag after a client's request, and what is to be broadcast then.
unfoldable pub switch : Bool → ServerState → ServerState × List Envelope
switch desired state =
    if differs desired state.forwarding_enabled
    then (record state { forwarding_enabled = desired }, notices desired)
    else (state, [])

unfoldable pub on_toggle_forward : Bool → ServerState → ServerState
unfolding switch announce
on_toggle_forward desired state =
    let (state', envelopes) = switch desired state in
    record state' { registry = deliver envelopes state'.registry }

abbrev pub and_also : Text → Option (List Text) → Option (List Text)
and_also text none = none
and_also text (some texts) = some (texts ++ text ∷ [])

unfoldable pub on_clipboard_set : Text → ServerState → ServerState
on_clipboard_set text state =
    if state.config.clipboard_sync && leb (byte_len text) max_clipboard_bytes
    then record state { clipboard_tx = and_also text state.clipboard_tx }
    else state

-- An envelope of client `id`: the state, and whether the loop goes on.
unfoldable pub on_envelope : ℕ → Envelope → ServerState → ServerState × Bool
unfolding on_toggle_forward on_clipboard_set
on_envelope id goodbye state = (state, false)
on_envelope id (ping ts) state =
    (record state { registry = send_to id (pong ts) state.registry }, true)
on_envelope id (pong ts) state = (state, true)
on_envelope id (toggle_forward desired) state = (on_toggle_forward desired state, true)
on_envelope id (clipboard_set text) state = (on_clipboard_set text state, true)
on_envelope id _ state = (state, true)

-- The tick of `ping_interval`.
unfoldable pub on_ping_tick : ℕ → ℕ → ServerState → ServerState
on_ping_tick now id state = record state { registry = send_to id (ping now) state.registry }

-- The tick of the watchdog: whether the loop goes on.
unfoldable pub on_watchdog_tick : (now last_seen : ℕ) → Bool
on_watchdog_tick now last_seen = leb (now - last_seen) 15000

-- The client leaves the registry; the last one turns forwarding off if `auto_forward` says so.
unfoldable pub unregister : ℕ → ServerState → ServerState
unregister id state =
    let registry = remove id state.registry in
    record state {
      registry = registry;
      forwarding_enabled =
          if (length registry == 0) && state.config.auto_forward
          then false
          else state.forwarding_enabled;
    }

-- What happens to one client's loop.
pub data LoopEvent : Type 0 where
  received : (now : ℕ) → Envelope → LoopEvent
  closed : LoopEvent
  ping_tick : (now : ℕ) → LoopEvent
  watchdog_tick : (now : ℕ) → LoopEvent

-- One round of the loop, with `last_seen`: the state, the new `last_seen` and whether it goes on.
unfoldable pub loop_round : ℕ → LoopEvent → ServerState → ℕ → ServerState × ℕ × Bool
unfolding on_envelope on_ping_tick on_watchdog_tick
loop_round id (received now envelope) state last_seen =
    let (state', continues) = on_envelope id envelope state in (state', now, continues)
loop_round id closed state last_seen = (state, last_seen, false)
loop_round id (ping_tick now) state last_seen = (on_ping_tick now id state, last_seen, true)
loop_round id (watchdog_tick now) state last_seen =
    (state, last_seen, on_watchdog_tick now last_seen)

-- The loop over the events that come, and the end of the handler when it stops. If the events run
-- out first the client is still registered.
abbrev pub loop_next :
    ℕ → (ServerState → ℕ → ServerState × Bool) → ServerState × ℕ × Bool → ServerState × Bool
loop_next id rest (state, last_seen, true) = rest state last_seen
loop_next id rest (state, last_seen, false) = (unregister id state, true)

unfoldable pub run_loop : ℕ → List LoopEvent → ServerState → ℕ → ServerState × Bool
unfolding loop_round unregister
run_loop id [] state last_seen = (state, false)
run_loop id (event ∷ events) state last_seen =
    loop_next id (run_loop id events) (loop_round id event state last_seen)
