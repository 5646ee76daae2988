-- ===== src/Server/Start/Unbound.antt =====
-- A hotkey that does not parse: the capture that `run_server` starts never toggles the forwarding.
use xkvm.Base.{
  ◌≡◌, refl, inl, inr, Bool, none, List, [], ◌∷◌, arith, Bool-cases, Option-cases, All, All-append,
  nat_eq, text_eq,
}
use xkvm.Client.Handshake.{Casing}
use xkvm.Hotkey.{parse_hotkey}
use xkvm.Hotkey
use xkvm.Capture.Types.{
  EventType, key_press, key_release, button_press, button_release, wheel, mouse_move, Float, Env,
  CaptureState, CaptureEvent, forwarding_toggled, ProcessOutcome,
}
use xkvm.Capture.Types
use xkvm.Capture.Process.{process_event, process_mouse_move, dispatch}
use xkvm.Capture.Process
use xkvm.Server.Config.{Config}
use xkvm.Server.Start.{registered_hotkey, first_capture}
use xkvm.EndToEnd.{capture_run}

-- An event that is no toggle.
abbrev pub IsInput : CaptureEvent → Type 0
IsInput (Types.input event) = Unit
IsInput (forwarding_toggled on) = ⊥

module _ {F : Type 0} (float : Float F) where
  -- Without a hotkey there is none afterwards, and nothing is toggled.
  process_event-unbound :
      (env : Env) (event : EventType F) (state : CaptureState F)
      → state.hotkey ≡ none
      → ((process_event float env event state).0.hotkey ≡ none)
        × ((process_event float env event state).1.toggled ≡ none)
  unfolding process_event process_mouse_move
  process_event-unbound env (key_press key) state h =
      rw h (refl, elim (Bool-cases state.enabled) [ inl e ↦ rw e refl | inr e ↦ rw e refl ])
  process_event-unbound env (key_release key) state h = ground arith
  process_event-unbound env (button_press b) state h = ground arith
  process_event-unbound env (button_release b) state h = ground arith
  process_event-unbound env (wheel dx dy) state h = ground arith
  process_event-unbound env (mouse_move x y) state h = ground arith

  dispatch-IsInput :
      (outcome : ProcessOutcome) → outcome.toggled ≡ none → All IsInput (dispatch outcome)
  unfolding dispatch
  dispatch-IsInput outcome h =
      rw h
        (elim (Option-cases outcome.forward) [ inl e ↦ rw e tt | inr (event, e) ↦ rw e (tt, tt) ])

  run-IsInput :
      (inputs : List (Env × EventType F)) (state : CaptureState F)
      → state.hotkey ≡ none
      → All IsInput (capture_run float inputs state)
  unfolding capture_run
  run-IsInput [] state h = tt
  run-IsInput ((env, event) ∷ inputs) state h =
      let (h', quiet) = process_event-unbound env event state h in
      All-append IsInput (dispatch (process_event float env event state).1) _
        (dispatch-IsInput _ quiet) (run-IsInput inputs (process_event float env event state).0 h')

  -- If the hotkey of the configuration does not parse, the server starts all the same, and whatever
  -- is pressed, the capture only ever hands on input, and no toggle.
  pub unbound_never_toggles :
      (zero_f : F) (casing : Casing) (config : Config) (forwarding : Bool) (e : Hotkey.HotkeyError)
      (inputs : List (Env × EventType F))
      → parse_hotkey casing config.hotkey.toggle_forward ≡ Hotkey.err e
      → All IsInput (capture_run float inputs (first_capture zero_f casing config forwarding))
  unfolding first_capture registered_hotkey Process.start
  unbound_never_toggles zero_f casing config forwarding e inputs h =
      run-IsInput inputs (first_capture zero_f casing config forwarding) (rw h refl)
