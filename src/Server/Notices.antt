-- ===== src/Server/Notices.antt =====
-- What each client is told when forwarding changes.
use xkvm.Base.{
  ℕ, ◌≡◌, refl, ap, ◌∙◌, Bool, true, false, some, List, [], ◌∷◌, ◌++◌, append_assoc, arith,
  if◌then◌else◌, nat_eq, lookup, text_eq,
}
use xkvm.Protocol.{Envelope, Event, toggle_forward, input, release_all}
use xkvm.Capture.Types.{CaptureEvent}
use xkvm.Capture.Types
use xkvm.Server.State.{Registry, ServerState, broadcast, and_then, lookup-broadcast}
use xkvm.Server.Messages.{announce, notices, switch, deliver, differs, on_toggle_forward}
use xkvm.Server.Forwarder.{on_capture_event, captures, proceeds, proceed, Running, step, run}

lookup-announce :
    (on : Bool) (registry : Registry) (id : ℕ) (queue : List Envelope)
    → lookup id registry ≡ some queue
    → lookup id (announce on registry) ≡ some (queue ++ notices on)
unfolding announce notices deliver
lookup-announce true registry id queue h =
    lookup-broadcast id (toggle_forward true) registry ∙ ap (and_then (toggle_forward true)) h
lookup-announce false registry id queue h =
    lookup-broadcast id (toggle_forward false) (broadcast (input release_all) registry)
    ∙ ap (and_then (toggle_forward false))
        (lookup-broadcast id (input release_all) registry ∙ ap (and_then (input release_all)) h)
    ∙ ap some (append_assoc queue (input release_all ∷ []) (toggle_forward false ∷ []))

-- A client's request to switch the forwarding, when no other task comes between its broadcasts: if
-- it changes anything, every registered client is
-- told, behind a `ReleaseAll` if it is switched off; if it changes nothing, nobody is sent
-- anything.
on_toggle_forward_tells :
    (desired : Bool) (state : ServerState) (id : ℕ) (queue : List Envelope)
    → lookup id state.registry ≡ some queue
    → let state' = on_toggle_forward desired state in
      (state'.forwarding_enabled ≡ desired)
      × (lookup id state'.registry
          ≡ some (
              if differs desired state.forwarding_enabled then queue ++ notices desired else queue))
unfolding on_toggle_forward switch announce
on_toggle_forward_tells desired state id queue h =
    (ground arith, ground (arith, lookup-announce desired state.registry id queue h))

-- An event that the capture sent before a client switched the forwarding off, and that the
-- forwarder hands on after that, reaches every client behind the `ReleaseAll`.
late_input :
    (state : ServerState) (event : Event) (id : ℕ) (queue : List Envelope)
    → state.forwarding_enabled ≡ true
    → lookup id state.registry ≡ some queue
    → lookup id (on_capture_event (Types.input event) (on_toggle_forward false state)).registry
      ≡ some (queue ++ (input release_all ∷ toggle_forward false ∷ input event ∷ []))
unfolding on_capture_event notices
late_input state event id queue on h =
    let off = on_toggle_forward false state in
    let (_, told) = on_toggle_forward_tells false state id queue h in
    let told' : lookup id off.registry ≡ some (queue ++ notices false) =
      told ∙ ap (λ b. some (if differs false b then queue ++ notices false else queue)) on in
    lookup-broadcast id (input event) off.registry
    ∙ ap (and_then (input event)) told'
    ∙ ap some (append_assoc queue (notices false) (input event ∷ []))

-- A toggle of the hotkey, when no other task comes between the broadcasts of the forwarder: they
-- come to what `on_capture_event` does.
announced_alone :
    (on : Bool) (now : Running)
    → run
        (captures (Types.forwarding_toggled on) ∷ proceeds 0 ∷ proceeds 0 ∷ proceeds 0 ∷ [])
        (record now { tasks = [] })
      ≡ record now {
        server = on_capture_event (Types.forwarding_toggled on) now.server;
        tasks = [];
      }
unfolding run step on_capture_event notices deliver announce proceed
announced_alone true now = refl
announced_alone false now = refl
