-- ===== src/Examples/Typing.antt =====
-- From the server's keyboard to a client's keys at concrete inputs. The numbers of the mouse are
-- natural numbers here.
use xkvm.Base.{
  ℕ, ◌-◌, ◌/◌, ◌≡◌, refl, true, false, none, some, List, [], ◌∷◌, map, leb, nat_eq, lookup,
  contains, add, codes, text_eq,
}
use xkvm.Base.Int.{ℤ}
use xkvm.Protocol.{Envelope, key_press, mouse_delta, mouse_button_press, input}
use xkvm.Protocol
use xkvm.Keys.{key_a, key_f, key_to_code, key_beq, key_eq}
use xkvm.Keys.Injected.{linux, InjectedKey, injected_eq}
use xkvm.Capture.Modifiers.{compute_modifiers}
use xkvm.Capture.Types.{EventType, Float, Env, CaptureState, left}
use xkvm.Capture.Types
use xkvm.Capture.Process.{dispatch, process_event}
use xkvm.Server.Forwarder.{on_capture_event}
use xkvm.Server.State.{broadcast}
use xkvm.Server.Pumps.{pump_outbound}
use xkvm.Client.Inject.{Button, button_eq}
use xkvm.Client.Inject.Held.{key_down, button_down}
use xkvm.Client.Session.{LoopEvent, SessionState, session_loop, received, start}
use xkvm.Client.Session.Received.{received_of}
use xkvm.Examples.Setup
use xkvm.EndToEnd.{capture_run, forward_all, last_key, last_button}
use xkvm.EndToEnd.Arrival.{AllPlain, typing_arrives}

abbrev float : Float ℕ
float = record { sub = ◌-◌; div = ◌/◌; le = leb; of_ℕ = λ n. n; to_i32 = λ n. ℤ.pos n }

abbrev env : Env
env = record { now = 1000; display_size = none; simulate_succeeds = false }

abbrev capture : CaptureState ℕ
capture = record {
  enabled = true;
  was_enabled = true;
  last_x = 3;
  last_y = 4;
  pressed_keys = [];
  warping = false;
  seed_next = false;
  last_hotkey_fire = none;
  hotkey = some (record { ctrl = true; alt = false; shift = false; meta = false; key = key_f });
  hotkey_swallowed_keys = [];
}

abbrev inputs : List (Env × EventType ℕ)
inputs =
    (env, Types.key_press key_a) ∷ (env, Types.mouse_move 5 5) ∷ (env, Types.button_press left) ∷ []

abbrev queue : List Envelope
queue =
    input (key_press (key_to_code key_a) 0)
    ∷ input (mouse_delta (ℤ.pos 2) (ℤ.pos 1))
    ∷ input (mouse_button_press Protocol.left)
    ∷ []

abbrev events : List LoopEvent
events = map (received 7) queue

abbrev session : SessionState
session = (session_loop linux (λ n. true) events (start (codes "s") (codes "f") 0)).0

-- `a` and the left button are down at the client.
typing_arrives_example :
    ((k : InjectedKey) → key_down k false session.injector.enigo ≡ last_key linux k inputs false)
    × ((b : Button) → button_down b false session.injector.enigo ≡ last_button b inputs false)
unfolding lookup forward_all capture_run on_capture_event broadcast received_of pump_outbound
    session_loop AllPlain key_beq dispatch process_event compute_modifiers contains add
typing_arrives_example =
    typing_arrives float inputs capture (Setup.state true ((3, []) ∷ []) []) 3 queue (λ n. true)
      (λ n. true) linux (codes "s") (codes "f") 0 events session (refl, (refl, (refl, tt)))
      (refl, refl) refl (λ m. refl) refl refl refl
