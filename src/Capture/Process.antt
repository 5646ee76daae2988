-- ===== src/Capture/Process.antt =====
-- The callback of server/src/capture.rs: `process_event`, what it calls, and `dispatch`.
use xkvm.Base.{
  ℕ, ◌-◌, Bool, true, false, not, ◌&&◌, ◌||◌, Option, none, some, List, [], ◌∷◌, ◌++◌, ltb, ◌==◌,
  if◌then◌else◌, nat_eq, contains, add, without, text_eq,
}
use xkvm.Base.Int.{ℤ, is_zero, as_i32}
use xkvm.Protocol.{Event, MouseButton}
use xkvm.Keys.{Key, key_to_code, key_beq, key_eq}
use xkvm.Capture.Modifiers.{HotkeyChord, compute_modifiers, chord_satisfied}
use xkvm.Capture.Types.{
  Button, left, right, middle, unknown, EventType, key_press, key_release, button_press,
  button_release, wheel, mouse_move, Float, Env, CaptureState, CaptureEvent, input,
  forwarding_toggled, ProcessOutcome, default_outcome,
}

-- In milliseconds.
abbrev pub hotkey_debounce : ℕ
hotkey_debounce = 250

unfoldable pub convert_mouse_button : Button → MouseButton
convert_mouse_button left = MouseButton.left
convert_mouse_button right = MouseButton.right
convert_mouse_button middle = MouseButton.middle
convert_mouse_button (unknown n) =
    if n == 4 then MouseButton.back else if n == 5 then MouseButton.forward else MouseButton.left

-- `InputCapture::start`: the state of a capture that begins.
unfoldable pub start : {F : Type 0} → F → Bool → Option HotkeyChord → CaptureState F
start zero_f enabled hotkey = record {
  enabled = enabled;
  was_enabled = enabled;
  last_x = zero_f;
  last_y = zero_f;
  pressed_keys = [];
  warping = false;
  seed_next = true;
  last_hotkey_fire = none;
  hotkey = hotkey;
  hotkey_swallowed_keys = [];
}

abbrev debounced : ℕ → Option ℕ → Bool
debounced now none = false
debounced now (some prev) = ltb (now - prev) hotkey_debounce

-- `hk` is the chord, `key` its key, and its modifiers are held.
abbrev pub is_chord : Option HotkeyChord → Key → ℕ → Bool
is_chord none key mods = false
is_chord (some hk) key mods = key_beq key hk.key && chord_satisfied hk mods

-- What is swallowed and forwarded while forwarding is on.
abbrev forward_if : Bool → Event → ProcessOutcome
forward_if now_enabled event =
    if now_enabled
    then record { swallow = true; forward = some event; toggled = none }
    else default_outcome

-- The delta of a motion, if it is not zero.
abbrev pub delta : ℤ → ℤ → Option Event
delta dx dy = if is_zero dx && is_zero dy then none else some (Event.mouse_delta dx dy)

module _ {F : Type 0} where
  -- `InputCapture::set_enabled`, and every other store into the shared flag.
  unfoldable pub set_enabled : Bool → CaptureState F → CaptureState F
  set_enabled value state = record state { enabled = value }

  unfoldable pub try_fire_hotkey : ℕ → Bool → CaptureState F → CaptureState F × Option Bool
  try_fire_hotkey now now_enabled state =
      if debounced now state.last_hotkey_fire then (state, none) else (
        record state {
          last_hotkey_fire = some now;
          enabled = not now_enabled;
          was_enabled = not now_enabled;
          seed_next = if now_enabled then state.seed_next else true;
        },
        some (not now_enabled),
      )

  -- The first lines of `process_event`: a forwarding that was just turned on seeds the position.
  unfoldable pub note_enabled : CaptureState F → CaptureState F
  note_enabled state = record state {
    was_enabled = state.enabled;
    seed_next = if state.enabled && not state.was_enabled then true else state.seed_next;
  }

  unfoldable pub on_key_press : ℕ → Key → CaptureState F → CaptureState F × ProcessOutcome
  unfolding try_fire_hotkey
  on_key_press now key state =
      let is_repeat = contains key state.pressed_keys in
      let pressed = record state { pressed_keys = add key state.pressed_keys } in
      let mods = compute_modifiers pressed.pressed_keys in
      let consumed = record pressed {
        hotkey_swallowed_keys = add key pressed.hotkey_swallowed_keys;
      } in
      let fired = try_fire_hotkey now state.enabled consumed in
      if is_chord state.hotkey key mods
      then (if is_repeat
          then (consumed, record { swallow = true; forward = none; toggled = none })
          else (fired.0, record { swallow = true; forward = none; toggled = fired.1 }))
      else (pressed, forward_if state.enabled (Event.key_press (key_to_code key) mods))

  unfoldable pub on_key_release : Key → CaptureState F → CaptureState F × ProcessOutcome
  on_key_release key state =
      let released = record state { pressed_keys = without key state.pressed_keys } in
      let mods = compute_modifiers released.pressed_keys in
      if contains key state.hotkey_swallowed_keys
      then (
        record released { hotkey_swallowed_keys = without key released.hotkey_swallowed_keys },
        record { swallow = true; forward = none; toggled = none },
      )
      else (released, forward_if state.enabled (Event.key_release (key_to_code key) mods))

  module _ (float : Float F) where
    open float use {sub, div, le, of_ℕ, to_i32}

    -- `EDGE_THRESHOLD` is 2.0.
    near_edge : F → F → ℕ → ℕ → Bool
    near_edge x y w h =
        le x (of_ℕ 2)
        || (le y (of_ℕ 2)
            || (le (sub (sub (of_ℕ w) (of_ℕ 1)) (of_ℕ 2)) x
                || le (sub (sub (of_ℕ h) (of_ℕ 1)) (of_ℕ 2)) y))

    -- Whether the cursor is moved back to the centre.
    unfoldable pub warps : Env → F → F → Bool
    unfolding near_edge
    warps env x y = elim env.display_size [
      | none ↦ false
      | some (w, h) ↦ (ltb 0 w && ltb 0 h) && (near_edge x y w h && env.simulate_succeeds)
    ]

    unfoldable pub process_mouse_move :
        Env → F → F → Bool → CaptureState F → CaptureState F × Option Event
    process_mouse_move env x y now_enabled state =
        let moved = record state { last_x = x; last_y = y } in
        let event = delta (to_i32 (sub x state.last_x)) (to_i32 (sub y state.last_y)) in
        if state.warping
        then (record moved { warping = false }, none)
        else if state.seed_next
        then (record moved { seed_next = false }, none)
        else (
          record moved { warping = now_enabled && warps env x y },
          if now_enabled then event else none,
        )

    dispatch_event : Env → EventType F → CaptureState F → CaptureState F × ProcessOutcome
    unfolding on_key_press on_key_release process_mouse_move convert_mouse_button
    dispatch_event env (key_press key) state = on_key_press env.now key state
    dispatch_event env (key_release key) state = on_key_release key state
    dispatch_event env (button_press button) state =
        (state, forward_if state.enabled (Event.mouse_button_press (convert_mouse_button button)))
    dispatch_event env (button_release button) state =
        (state, forward_if state.enabled (Event.mouse_button_release (convert_mouse_button button)))
    dispatch_event env (wheel delta_x delta_y) state =
        (state, forward_if state.enabled (Event.wheel (as_i32 delta_x) (as_i32 delta_y)))
    dispatch_event env (mouse_move x y) state =
        let (state', event) = process_mouse_move env x y state.enabled state in
        (state', record { swallow = false; forward = event; toggled = none })

    unfoldable pub process_event :
        Env → EventType F → CaptureState F → CaptureState F × ProcessOutcome
    unfolding note_enabled dispatch_event
    process_event env event state = dispatch_event env event (note_enabled state)

-- `dispatch`: what an outcome adds to the channel to the forwarder.
abbrev sent_toggle : Option Bool → List CaptureEvent
sent_toggle none = []
sent_toggle (some toggled) = forwarding_toggled toggled ∷ []

abbrev sent_input : Option Event → List CaptureEvent
sent_input none = []
sent_input (some event) = input event ∷ []

unfoldable pub dispatch : ProcessOutcome → List CaptureEvent
dispatch outcome = sent_toggle outcome.toggled ++ sent_input outcome.forward
