-- ===== src/Capture/Types.antt =====
-- The types of the capture: what `rdev` gives (events, buttons, the screen), the operations of
-- `f64`, and `CaptureState`, `CaptureEvent` and `ProcessOutcome` of server/src/capture.rs.
use xkvm.Base.{ℕ, Bool, false, Option, none, List, nat_eq, text_eq}
use xkvm.Base.Int.{ℤ}
use xkvm.Protocol.{Event}
use xkvm.Keys.{Key}
use xkvm.Capture.Modifiers.{HotkeyChord}

-- `rdev::Button`.
pub data Button : Type 0 where
  left right middle : Button
  unknown : ℕ → Button

-- `rdev::EventType`; the wheel deltas are `i64`.
pub data EventType (F : Type 0) : Type 0 where
  key_press key_release : Key → EventType F
  button_press button_release : Button → EventType F
  wheel : (delta_x delta_y : ℤ) → EventType F
  mouse_move : (x y : F) → EventType F

-- The operations on `f64`: `of_ℕ` is the cast of a `u64` and a literal, `to_i32` the cast to `i32`.
pub record Float (F : Type 0) : Type 0 where
  pub sub : F → F → F
  pub div : F → F → F
  pub le : F → F → Bool
  pub of_ℕ : ℕ → F
  pub to_i32 : F → ℤ

-- What the system answers during one event: the clock, the size of the display and whether the
-- cursor could be moved.
pub record Env : Type 0 where
  pub now : ℕ
  pub display_size : Option (ℕ × ℕ)
  pub simulate_succeeds : Bool

pub record CaptureState (F : Type 0) : Type 0 where
  pub enabled : Bool
  pub was_enabled : Bool
  pub last_x : F
  pub last_y : F
  pub pressed_keys : List Key
  pub warping : Bool
  pub seed_next : Bool
  pub last_hotkey_fire : Option ℕ
  pub hotkey : Option HotkeyChord
  pub hotkey_swallowed_keys : List Key

pub data CaptureEvent : Type 0 where
  input : Event → CaptureEvent
  forwarding_toggled : Bool → CaptureEvent

pub record ProcessOutcome : Type 0 where
  pub swallow : Bool
  pub forward : Option Event
  pub toggled : Option Bool

abbrev pub default_outcome : ProcessOutcome
default_outcome = record { swallow = false; forward = none; toggled = none }
