-- ===== src/Capture/Grab.antt =====
-- `handle_grab_event` and `handle_listen_event` of server/src/capture.rs: what the callback gives
-- back to the local system. `rdev::grab` hands an event on to it only if it is given back; under
-- `rdev::listen` the local system sees every event.
use xkvm.Base.{
  ℕ, suc, ◌+◌, ◌≡◌, refl, inl, inr, false, Option, none, some, List, [], ◌∷◌, if◌then◌else◌,
  Bool-cases, Option-cases, nat_eq, text_eq,
}
use xkvm.Capture.Types.{
  EventType, Float, Env, CaptureState, CaptureEvent, input, forwarding_toggled, ProcessOutcome,
}
use xkvm.Capture.Process.{process_event, dispatch}
use xkvm.Capture.Gating.{is_motion, is_hotkey, process_event-swallow}

-- How many of the events are input.
unfoldable pub inputs_of : List CaptureEvent → ℕ
inputs_of [] = 0
inputs_of (input event ∷ events) = suc (inputs_of events)
inputs_of (forwarding_toggled on ∷ events) = inputs_of events

abbrev pub seen {ℓ} : {A : Type ℓ} → Option A → ℕ
seen none = 0
seen (some a) = 1

inputs_of-dispatch :
    (outcome : ProcessOutcome) → inputs_of (dispatch outcome) ≡ seen outcome.forward
unfolding inputs_of dispatch
inputs_of-dispatch outcome = elim (Option-cases outcome.toggled) [
  | inl t ↦ elim (Option-cases outcome.forward) [
    | inl f ↦ rw (t, f) refl
    | inr (e, f) ↦ rw (t, f) refl
  ]
  | inr (on, t) ↦ elim (Option-cases outcome.forward) [
    | inl f ↦ rw (t, f) refl
    | inr (e, f) ↦ rw (t, f) refl
  ]
]

module _ {F : Type 0} (float : Float F) where
  unfoldable pub handle_grab_event :
      Env → EventType F → CaptureState F → CaptureState F × List CaptureEvent × Option (EventType F)
  unfolding process_event dispatch
  handle_grab_event env event state =
      let (state', outcome) = process_event float env event state in
      (state', dispatch outcome, if outcome.swallow then none else some event)

  unfoldable pub handle_listen_event :
      Env → EventType F → CaptureState F → CaptureState F × List CaptureEvent
  unfolding process_event dispatch
  handle_listen_event env event state =
      let (state', outcome) = process_event float env event state in (state', dispatch outcome)

  -- With an exclusive grab, an event that is no motion of the mouse goes to exactly one place: to
  -- the local system, or to the clients; a press or a release of the hotkey goes to neither.
  pub handle_grab_event_one_place :
      (env : Env) (event : EventType F) (state : CaptureState F)
      → is_motion event ≡ false
      → let (state', sent, local) = handle_grab_event env event state in
        seen local + inputs_of sent ≡ (if is_hotkey float event state then 0 else 1)
  unfolding handle_grab_event
  handle_grab_event_one_place env event state still =
      let outcome = (process_event float env event state).1 in
      let (swallowed, apart) = process_event-swallow float env event state in
      let sent = inputs_of-dispatch outcome in
      elim (Option-cases outcome.forward) [
        | inl f ↦ elim (Bool-cases (is_hotkey float event state)) [
          | inl k ↦ rw (sent, f, swallowed, f, k) refl
          | inr k ↦ rw (sent, f, swallowed, f, k) refl
        ]
        | inr (e, f) ↦ elim (Bool-cases (is_hotkey float event state)) [
          | inl k ↦ absurd (cc (rw (f, k) at apart))
          | inr k ↦ rw (sent, f, swallowed, f, still, k) refl
        ]
      ]
