-- ===== src/Examples/Input.antt =====
-- Captured and injected input at concrete inputs. The numbers of the mouse are natural numbers
-- here.
use xkvm.Base.{
  ℕ, ◌-◌, ◌/◌, ◌≡◌, refl, ◌⊎◌, Bool, true, false, none, some, List, [], ◌∷◌, leb, is_some, nat_eq,
  contains, without, text_eq,
}
use xkvm.Base.Int.{ℤ}
use xkvm.Protocol.{Event}
use xkvm.Keys.{Key, key_a, key_f, control_left, key_to_code, key_eq}
use xkvm.Keys.Injected.{linux, code_to_key, injected_eq}
use xkvm.Keys.Table.{is_injectable, code_to_key-key_to_code}
use xkvm.Capture.Modifiers.{HotkeyChord, compute_modifiers}
use xkvm.Capture.Types.{key_press, key_release, Float, Env, CaptureState, ProcessOutcome}
use xkvm.Capture.Process.{process_event}
use xkvm.Base.{◌+◌, if◌then◌else◌}
use xkvm.Capture.Grab.{handle_grab_event, inputs_of, seen, handle_grab_event_one_place}
use xkvm.Capture.Gating.{is_hotkey}
use xkvm.Capture.Gating.{process_event_off}
use xkvm.Capture.Hotkeys.{
  Input, toggle_times, Spaced, toggle_times-Spaced, process_event-key_release, taken, final,
}
use xkvm.Client.Inject.{button_eq}

abbrev float : Float ℕ
float = record { sub = ◌-◌; div = ◌/◌; le = leb; of_ℕ = λ n. n; to_i32 = λ n. ℤ.pos n }

abbrev env : Env
env = record { now = 1000; display_size = none; simulate_succeeds = false }

abbrev chord : HotkeyChord
chord = record { ctrl = true; alt = false; shift = false; meta = false; key = key_f }

abbrev state : Bool → List Key → List Key → CaptureState ℕ
state enabled pressed swallowed = record {
  enabled = enabled;
  was_enabled = enabled;
  last_x = 3;
  last_y = 4;
  pressed_keys = pressed;
  warping = false;
  seed_next = false;
  last_hotkey_fire = none;
  hotkey = some chord;
  hotkey_swallowed_keys = swallowed;
}

code_to_key-key_to_code_example :
    is_some (code_to_key linux (key_to_code key_a)) ≡ is_injectable linux key_a
code_to_key-key_to_code_example = code_to_key-key_to_code linux key_a tt

process_event_off_example :
    (process_event float env (key_press key_a) (state false [] [])).1.forward ≡ none
process_event_off_example = process_event_off float env (key_press key_a) (state false [] []) refl

abbrev inputs : List (Input ℕ)
inputs =
    record { set = none; env = env; event = key_press control_left }
    ∷ record { set = none; env = env; event = key_press key_f }
    ∷ []

toggle_times-Spaced_example : Spaced float none (toggle_times float inputs (state true [] []))
toggle_times-Spaced_example = toggle_times-Spaced float inputs (state true [] [])

-- Ctrl and the key of the hotkey go down, Ctrl up, and the key repeats.
abbrev let_go : List (Input ℕ)
let_go =
    record { set = none; env = env; event = key_press control_left }
    ∷ record { set = none; env = env; event = key_press key_f }
    ∷ record { set = some true; env = env; event = key_release control_left }
    ∷ record { set = none; env = env; event = key_press key_f }
    ∷ []

abbrev last : CaptureState ℕ
last = final float let_go (state true [] [])

abbrev ending : ProcessOutcome
ending = (process_event float env (key_release key_f) last).1

process_event-key_release_example :
    ((taken float key_f let_go (state true [] []) false ≡ true)
      × ((ending.swallow ≡ true) × (ending.forward ≡ none)))
    ⊎ ((taken float key_f let_go (state true [] []) false ≡ false)
        × ((ending.swallow ≡ last.enabled)
            × (ending.forward ≡ (
                if last.enabled
                then some (
                    Event.key_release
                      (key_to_code key_f)
                      (compute_modifiers (without key_f last.pressed_keys)))
                else none))))
unfolding contains
process_event-key_release_example =
    process_event-key_release float let_go env key_f (state true [] []) refl

abbrev events : List Event
events = Event.key_press 30 0 ∷ []

handle_grab_event_one_place_example :
    let (state', sent, local) = handle_grab_event float env (key_press key_a) (state true [] []) in
    seen local + inputs_of sent
    ≡ (if is_hotkey float (key_press key_a) (state true [] []) then 0 else 1)
handle_grab_event_one_place_example =
    handle_grab_event_one_place float env (key_press key_a) (state true [] []) refl
