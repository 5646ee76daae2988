-- ===== src/Capture/Gating.antt =====
-- What the capture lets out, and what it keeps from the local system.
use xkvm.Base.{
  ◌≤◌, ◌≡◌, Bool, true, false, not, ◌&&◌, ◌||◌, none, arith, is_some, length, nat_eq, contains, add,
  text_eq,
}
use xkvm.Keys.{key_eq}
use xkvm.Capture.Modifiers.{compute_modifiers}
use xkvm.Capture.Types.{
  EventType, key_press, key_release, button_press, button_release, wheel, mouse_move, Float, Env,
  CaptureState,
}
use xkvm.Capture.Process.{process_event, dispatch, is_chord}

-- The test for a motion of the mouse.
abbrev pub is_motion : {F : Type 0} → EventType F → Bool
is_motion (mouse_move x y) = true
is_motion _ = false

module _ {F : Type 0} (float : Float F) where
  -- While forwarding is off, nothing is forwarded, whatever the event.
  pub process_event_off :
      (env : Env) (event : EventType F) (state : CaptureState F)
      → state.enabled ≡ false
      → (process_event float env event state).1.forward ≡ none
  unfolding process_event
  process_event_off env (key_press key) state h = ground arith
  process_event_off env (mouse_move x y) state h = ground arith
  process_event_off env _ state h = ground arith

  -- A press or a release of the hotkey: the chord is held, or the press was swallowed.
  unfoldable pub is_hotkey : EventType F → CaptureState F → Bool
  is_hotkey (key_press key) state =
      is_chord state.hotkey key (compute_modifiers (add key state.pressed_keys))
  is_hotkey (key_release key) state = contains key state.hotkey_swallowed_keys
  is_hotkey _ state = false

  -- An event is kept from the local system exactly if it is forwarded and not a motion, or is a
  -- press or a release of the hotkey; the latter is never forwarded.
  pub process_event-swallow :
      (env : Env) (event : EventType F) (state : CaptureState F)
      → let outcome = (process_event float env event state).1 in
        (outcome.swallow
          ≡ ((is_some outcome.forward && not (is_motion event)) || is_hotkey event state))
        × ((is_some outcome.forward && is_hotkey event state) ≡ false)
  unfolding process_event is_hotkey
  process_event-swallow env (key_press key) state = (ground arith, ground arith)
  process_event-swallow env (key_release key) state = (ground arith, ground arith)
  process_event-swallow env (button_press b) state = (ground arith, ground arith)
  process_event-swallow env (button_release b) state = (ground arith, ground arith)
  process_event-swallow env (wheel dx dy) state = (ground arith, ground arith)
  process_event-swallow env (mouse_move x y) state = (ground arith, ground arith)

  -- No event both toggles the forwarding and is forwarded, so at most one notice is sent for it.
  pub dispatch-process_event :
      (env : Env) (event : EventType F) (state : CaptureState F)
      → length (dispatch (process_event float env event state).1) ≤ 1
  unfolding process_event dispatch
  dispatch-process_event env (key_press key) state = ground arith
  dispatch-process_event env (mouse_move x y) state = ground arith
  dispatch-process_event env _ state = ground arith
