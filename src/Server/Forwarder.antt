-- ===== src/Server/Forwarder.antt =====
-- The task of `run_server` of server/src/server.rs that hands the capture's events to the clients,
-- the end of the server, and the server as it runs: the connections, the loops of the clients, the
-- capture, the clipboard watcher and the proxy, in whatever order they come.
use xkvm.Base.{ℕ, zero, suc, Bool, List, [], ◌∷◌, nat_eq, Text, text_eq}
use xkvm.Protocol.{Envelope, goodbye, toggle_forward, clipboard_set}
use xkvm.RateLimit.{IpAddr, record_pairing_failure}
use xkvm.Capture.Types.{CaptureEvent, input, forwarding_toggled}
use xkvm.Server.State.{Registry, ServerState, broadcast}
use xkvm.Server.Pairing.{Env, Incoming, connect}
use xkvm.Server.Messages.{notices, switch, announce, LoopEvent, received, loop_round, unregister}

unfoldable pub on_capture_event : CaptureEvent → ServerState → ServerState
unfolding announce
on_capture_event (input event) state = record state {
  registry = broadcast (Envelope.input event) state.registry;
}
on_capture_event (forwarding_toggled new_state) state = record state {
  registry = announce new_state state.registry;
}

-- Ctrl-C.
unfoldable pub shut_down : ServerState → ServerState
shut_down state = record state { registry = broadcast goodbye state.registry }

-- The server while it runs: what the connections share, the counter of the connection ids, and what
-- the tasks in the middle of an announcement still have to broadcast.
pub record Running : Type 0 where
  pub server : ServerState
  pub next_id : ℕ
  pub tasks : List (List Envelope)

-- What happens next: a connection comes; a round of the loop of a client, or its end; an event of
-- the capture; the next broadcast of a task; a store of the hotkey; a new text of the clipboard,
-- which the watcher sends out; a failed login at the proxy, which shares the limiter; Ctrl-C. A
-- task may begin an announcement here before its last one is over, which the program's tasks do
-- not.
pub data Event : Type 0 where
  connects : Env → IpAddr → (hello_in pair_in : Incoming) → Event
  rounds : (id : ℕ) → LoopEvent → (last_seen : ℕ) → Event
  leaves : (id : ℕ) → Event
  captures : CaptureEvent → Event
  proceeds : (task : ℕ) → Event
  stores : Bool → Event
  copies : Text → Event
  proxy_fails : (now : ℕ) → IpAddr → Event
  stops : Event

-- The next broadcast of the `n`-th task.
unfoldable pub proceed : ℕ → List (List Envelope) → Registry → List (List Envelope) × Registry
proceed n [] registry = ([], registry)
proceed zero ([] ∷ tasks) registry = (tasks, registry)
proceed zero ((e ∷ envelopes) ∷ tasks) registry = (envelopes ∷ tasks, broadcast e registry)
proceed (suc n) (task ∷ tasks) registry =
    let (tasks', registry') = proceed n tasks registry in (task ∷ tasks', registry')

unfoldable pub step : Event → Running → Running
unfolding proceed switch shut_down
step (connects env peer_ip hello_in pair_in) now = record now {
  server = (connect env now.next_id peer_ip hello_in pair_in now.server).0;
  next_id = suc now.next_id;
}
step (rounds id (received time (toggle_forward desired)) last_seen) now =
    let (server, envelopes) = switch desired now.server in
    record now { server = server; tasks = envelopes ∷ now.tasks }
step (rounds id event last_seen) now = record now {
  server = (loop_round id event now.server last_seen).0;
}
step (leaves id) now = record now { server = unregister id now.server }
step (captures (input event)) now = record now {
  server = on_capture_event (input event) now.server;
}
step (captures (forwarding_toggled new_state)) now = record now {
  tasks = notices new_state ∷ now.tasks;
}
step (proceeds n) now =
    let (tasks, registry) = proceed n now.tasks now.server.registry in
    record now { server = record now.server { registry = registry }; tasks = tasks }
step (stores value) now = record now { server = record now.server { forwarding_enabled = value } }
step (copies text) now = record now {
  server = record now.server { registry = broadcast (clipboard_set text) now.server.registry };
}
step (proxy_fails time ip) now = record now {
  server = record now.server {
    rate_limiter = record_pairing_failure time now.server.rate_limiter ip;
  };
}
step stops now = record now { server = shut_down now.server }

unfoldable pub run : List Event → Running → Running
unfolding step
run [] now = now
run (event ∷ events) now = run events (step event now)
