-- ===== src/EndToEnd.antt =====
-- From the keyboard of the server to the keys of a client: `process_event` of
-- server/src/capture.rs, the forwarder and the outbound task of server/src/server.rs,
-- `Session::run` of client/src/session.rs and `InputInjector` of client/src/inject.rs, one behind
-- the other.
pub mod Arrival
pub mod Identity
use xkvm.Base.{
  ℕ, zero, suc, ◌+◌, ◌-◌, ◌*◌, ◌/◌, ◌%◌, ◌^◌, ◌≤◌, ◌<◌, min, max, ◌≡◌, refl, sym, ap, ◌∙◌, ◌≢◌, ◌↔◌,
  ◌⊎◌, inl, inr, Bool, true, false, not, ◌&&◌, ◌||◌, Option, none, some, List, [], ◌∷◌, ◌++◌, map,
  append_assoc, append-nil, arith, subst, ltb, leb, ◌==◌, if◌then◌else◌, ltb→lt, lt→ltb, ltb→le,
  le→ltb, leb→le, le→leb, ==_iff, tests, Bool-cases, Option-cases, is_some, unwrap_or, ◌>>=◌,
  length, take, drop, All, length-append, take-append-drop, length-take, length-drop, take-append,
  drop-append, All-append, Eq, nat_eq, lookup, insert, remove, lookup-insert, lookup-insert_self,
  lookup-remove, contains, add, without, contains-add, contains-without, contains-append, Text,
  codes, text_beq, text_beq_iff, text_eq, utf8, byte_len, is_whitespace, is_nil, trim_start,
  trim_end, trim,
}
use mathlib.Core.Bool.{false≢true}
use xkvm.Base.Int.{ℤ, as_i32}
use xkvm.Protocol.{Envelope, Event, MouseButton}
use xkvm.Keys.{Key, key_to_code, key_beq, key_beq_iff, key_eq}
use xkvm.Keys.Injected.{Platform, InjectedKey, code_to_key}
use xkvm.Capture.Modifiers.{HotkeyChord, compute_modifiers}
use xkvm.Capture.Types.{
  EventType, key_press, key_release, button_press, button_release, wheel, mouse_move, Float, Env,
  CaptureState, CaptureEvent,
}
use xkvm.Capture.Types
use xkvm.Capture.Process.{
  process_event, dispatch, is_chord, delta, process_mouse_move, note_enabled, convert_mouse_button,
}
use xkvm.Capture.Process
use xkvm.Server.State.{ServerState, broadcast, lookup-broadcast}
use xkvm.Server.Forwarder.{on_capture_event}
use xkvm.Server.Pumps.{pump_outbound, pump_outbound-all}
use xkvm.Client.Inject
use xkvm.Client.Inject.{InputInjector, Button, button_eq, new}
use xkvm.Client.Inject.Held.{key_down, button_down}
use xkvm.Client.Inject.Effects.{
  is_code_of, key_effect, button_effect, is_release_all, key_down-inject, button_down-inject,
}
use xkvm.Client.Session.{LoopEvent, SessionState, session_loop, start}
use xkvm.Client.Session.Received.{received_of, absorb, absorb_all, session_loop-absorb_all}

-- What the capture sends to the forwarder for a run of events.
unfoldable pub capture_run :
    {F : Type 0} → Float F → List (Env × EventType F) → CaptureState F → List CaptureEvent
capture_run float [] state = []
capture_run float ((env, event) ∷ events) state =
    let (state', outcome) = process_event float env event state in
    dispatch outcome ++ capture_run float events state'

-- A key and a button after some events.
unfoldable key_effects : Platform → InjectedKey → List Event → Bool → Bool
key_effects p k [] was = was
key_effects p k (e ∷ events) was = key_effects p k events (key_effect p k e was)

unfoldable button_effects : Button → List Event → Bool → Bool
button_effects b [] was = was
button_effects b (e ∷ events) was = button_effects b events (button_effect b e was)

-- The forwarder on a run of captured events.
unfoldable pub forward_all : List CaptureEvent → ServerState → ServerState
forward_all [] state = state
forward_all (event ∷ events) state = forward_all events (on_capture_event event state)

abbrev is_other : Option HotkeyChord → Key → Bool
is_other none key = true
is_other (some hk) key = not (key_beq key hk.key)

chord_off :
    (hotkey : Option HotkeyChord) (key : Key) (mods : ℕ)
    → is_other hotkey key ≡ true
    → is_chord hotkey key mods ≡ false
chord_off none key mods h = refl
chord_off (some hk) key mods h = ground arith

delta-cases : (dx dy : ℤ) → (delta dx dy ≡ none) ⊎ (delta dx dy ≡ some (Event.mouse_delta dx dy))
delta-cases dx dy = ground arith

module _ {F : Type 0} where
  -- Whether a key of the server stands for a key of the client, by what was last pressed and
  -- released.
  unfoldable pub last_key : Platform → InjectedKey → List (Env × EventType F) → Bool → Bool
  last_key p k [] was = was
  last_key p k ((env, key_press key) ∷ events) was =
      last_key p k events (is_code_of (code_to_key p (key_to_code key)) k || was)
  last_key p k ((env, key_release key) ∷ events) was =
      last_key p k events (not (is_code_of (code_to_key p (key_to_code key)) k) && was)
  last_key p k ((env, _) ∷ events) was = last_key p k events was

  unfoldable pub last_button : Button → List (Env × EventType F) → Bool → Bool
  last_button b [] was = was
  last_button b ((env, button_press c) ∷ events) was =
      last_button b events
        (button_eq.beq (Inject.convert_mouse_button (convert_mouse_button c)) b || was)
  last_button b ((env, button_release c) ∷ events) was =
      last_button b events
        (not (button_eq.beq (Inject.convert_mouse_button (convert_mouse_button c)) b) && was)
  last_button b ((env, _) ∷ events) was = last_button b events was

  -- An event of another key than the hotkey's.
  abbrev pub is_plain : Option HotkeyChord → EventType F → Bool
  is_plain hotkey (key_press key) = is_other hotkey key
  is_plain hotkey (key_release key) = is_other hotkey key
  is_plain hotkey _ = true

  -- Forwarding is on, and no release is about to be swallowed.
  abbrev pub IsForwarding : CaptureState F → Type 0
  IsForwarding state = (state.enabled ≡ true) × (state.hotkey_swallowed_keys ≡ [])

  -- What a plain event does: the forwarding stays as it is, and the events that are handed on leave
  -- each key and button as the event says.
  record Plain (float : Float F) (env : Env) (event : EventType F) (state : CaptureState F)
      : Type 0 where
    forwarding : IsForwarding (process_event float env event state).0
    same_hotkey : (process_event float env event state).0.hotkey ≡ state.hotkey
    sent : List Event
    dispatched : dispatch (process_event float env event state).1 ≡ map CaptureEvent.input sent
    no_release : All (λ e. is_release_all e ≡ false) sent
    keys :
        (p : Platform) (k : InjectedKey) (was : Bool)
        → key_effects p k sent was ≡ last_key p k ((env, event) ∷ []) was
    buttons :
        (b : Button) (was : Bool)
        → button_effects b sent was ≡ last_button b ((env, event) ∷ []) was

  move_lem :
      (float : Float F) (env : Env) (x y : F) (state : CaptureState F)
      → IsForwarding state
      → let (state', outcome) = process_event float env (mouse_move x y) state in
        (IsForwarding state' × (state'.hotkey ≡ state.hotkey) × (outcome.forward ≡ none))
        ⊎ (IsForwarding state'
            × (state'.hotkey ≡ state.hotkey)
            × ((dx : ℤ) × (dy : ℤ) × (outcome.forward ≡ some (Event.mouse_delta dx dy))))
  unfolding process_event process_mouse_move note_enabled
  move_lem float env x y state (on, none_swallowed) = elim (Bool-cases state.warping) [
    | inl w ↦ inl (rw w ((on, none_swallowed), refl, refl))
    | inr w ↦ elim (Bool-cases (note_enabled state).seed_next) [
      | inl s ↦ inl (rw (w, s) ((on, none_swallowed), refl, refl))
      | inr s ↦
          elim (delta-cases (float.to_i32 (float.sub x state.last_x))
            (float.to_i32 (float.sub y state.last_y))) [
              | inl d ↦ inl (rw (w, s, on, d) ((refl, none_swallowed), refl, refl))
              | inr d ↦ inr (rw (w, s, on, d) ((refl, none_swallowed), refl, (_, _, refl)))
            ]
    ]
  ]

  plain_lem :
      (float : Float F) (env : Env) (event : EventType F) (state : CaptureState F)
      → is_plain state.hotkey event ≡ true
      → IsForwarding state
      → Plain float env event state
  unfolding process_event dispatch key_effects button_effects last_key last_button key_effect
      button_effect contains
  plain_lem float env (key_press key) state h (on, none_swallowed) =
      let mods = compute_modifiers (add key state.pressed_keys) in
      let off = chord_off state.hotkey key mods h in
      record {
        forwarding = rw off (on, none_swallowed);
        same_hotkey = rw off refl;
        sent = Event.key_press (key_to_code key) mods ∷ [];
        dispatched = rw (off, on) refl;
        no_release = (refl, tt);
        keys = λ p k was. refl;
        buttons = λ b was. refl;
      }
  plain_lem float env (key_release key) state h (on, none_swallowed) =
      let mods = compute_modifiers (without key state.pressed_keys) in
      record {
        forwarding = rw none_swallowed (on, refl);
        same_hotkey = rw none_swallowed refl;
        sent = Event.key_release (key_to_code key) mods ∷ [];
        dispatched = rw (none_swallowed, on) refl;
        no_release = (refl, tt);
        keys = λ p k was. refl;
        buttons = λ b was. refl;
      }
  plain_lem float env (button_press c) state h (on, none_swallowed) = record {
    forwarding = (on, none_swallowed);
    same_hotkey = refl;
    sent = Event.mouse_button_press (convert_mouse_button c) ∷ [];
    dispatched = rw on refl;
    no_release = (refl, tt);
    keys = λ p k was. refl;
    buttons = λ b was. refl;
  }
  plain_lem float env (button_release c) state h (on, none_swallowed) = record {
    forwarding = (on, none_swallowed);
    same_hotkey = refl;
    sent = Event.mouse_button_release (convert_mouse_button c) ∷ [];
    dispatched = rw on refl;
    no_release = (refl, tt);
    keys = λ p k was. refl;
    buttons = λ b was. refl;
  }
  plain_lem float env (wheel dx dy) state h (on, none_swallowed) = record {
    forwarding = (on, none_swallowed);
    same_hotkey = refl;
    sent = Event.wheel (as_i32 dx) (as_i32 dy) ∷ [];
    dispatched = rw on refl;
    no_release = (refl, tt);
    keys = λ p k was. refl;
    buttons = λ b was. refl;
  }
  plain_lem float env (mouse_move x y) state h f = elim (move_lem float env x y state f) [
    | inl (kept, same, quiet) ↦ record {
      forwarding = kept;
      same_hotkey = same;
      sent = [];
      dispatched =
          ap (λ o. dispatch (record { swallow = false; forward = o; toggled = none })) quiet;
      no_release = tt;
      keys = λ p k was. refl;
      buttons = λ b was. refl;
    }
    | inr (kept, same, (dx, dy, moved)) ↦ record {
      forwarding = kept;
      same_hotkey = same;
      sent = Event.mouse_delta dx dy ∷ [];
      dispatched =
          ap (λ o. dispatch (record { swallow = false; forward = o; toggled = none })) moved;
      no_release = (refl, tt);
      keys = λ p k was. refl;
      buttons = λ b was. refl;
    }
  ]
