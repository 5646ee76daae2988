-- ===== src/EndToEnd/Arrival.antt =====
-- A run of captured events, from the server's keyboard to the keys of a client.
use xkvm.Base.{
  ℕ, ◌≡◌, refl, sym, ap, ◌∙◌, Bool, true, false, Option, none, some, List, [], ◌∷◌, ◌++◌, map,
  append_assoc, append-nil, subst, unwrap_or, All, All-append, nat_eq, lookup, Text, text_eq,
}
use xkvm.Protocol.{Envelope, Event}
use xkvm.Keys.Injected.{Platform, InjectedKey}
use xkvm.Capture.Modifiers.{HotkeyChord}
use xkvm.Capture.Types.{
  EventType, key_press, key_release, button_press, button_release, wheel, mouse_move, Float, Env,
  CaptureState, CaptureEvent,
}
use xkvm.Capture.Process.{process_event}
use xkvm.Server.State.{ServerState, lookup-broadcast}
use xkvm.Server.Forwarder.{on_capture_event}
use xkvm.Server.Pumps.{pump_outbound, pump_outbound-all}
use xkvm.Client.Inject.{InputInjector, Button, inject, new}
use xkvm.Client.Inject.Held.{key_down, button_down}
use xkvm.Client.Inject.Effects.{
  key_effect, button_effect, is_release_all, key_down-inject, button_down-inject,
}
use xkvm.Client.Session.{LoopEvent, SessionState, session_loop, start}
use xkvm.Client.Session.Received.{received_of, absorb, absorb_all, session_loop-absorb_all}
use xkvm.EndToEnd.{
  capture_run, key_effects, button_effects, forward_all, last_key, last_button, is_plain,
  IsForwarding, plain_lem,
}

map-append : {A B : Type 0} (f : A → B) (xs ys : List A) → map f (xs ++ ys) ≡ map f xs ++ map f ys
map-append f [] ys = refl
map-append f (x ∷ xs) ys = ap (λ zs. f x ∷ zs) (map-append f xs ys)

key_effects-append :
    (p : Platform) (k : InjectedKey) (xs ys : List Event) (was : Bool)
    → key_effects p k (xs ++ ys) was ≡ key_effects p k ys (key_effects p k xs was)
unfolding key_effects
key_effects-append p k [] ys was = refl
key_effects-append p k (x ∷ xs) ys was = key_effects-append p k xs ys (key_effect p k x was)

button_effects-append :
    (b : Button) (xs ys : List Event) (was : Bool)
    → button_effects b (xs ++ ys) was ≡ button_effects b ys (button_effects b xs was)
unfolding button_effects
button_effects-append b [] ys was = refl
button_effects-append b (x ∷ xs) ys was = button_effects-append b xs ys (button_effect b x was)

-- The queue of a client after the forwarder has handed on some events.
lookup-forward_all :
    (id : ℕ) (events : List Event) (state : ServerState) (queue : List Envelope)
    → lookup id state.registry ≡ some queue
    → lookup id (forward_all (map CaptureEvent.input events) state).registry
      ≡ some (queue ++ map Envelope.input events)
unfolding forward_all on_capture_event
lookup-forward_all id [] state queue h = rw (append-nil queue) h
lookup-forward_all id (e ∷ events) state queue h =
    lookup-forward_all id events (on_capture_event (CaptureEvent.input e) state)
      (queue ++ Envelope.input e ∷ [])
      (rw (lookup-broadcast id (Envelope.input e) state.registry, h) refl)
    ∙ ap some (append_assoc queue (Envelope.input e ∷ []) (map Envelope.input events))

-- What the events leave down, once they are injected.
key_down-absorb_all :
    (p : Platform) (k : InjectedKey) (events : List Event) (injector : InputInjector)
    → All (λ e. is_release_all e ≡ false) events
    → key_down k false (absorb_all p (map Envelope.input events) injector).enigo
      ≡ key_effects p k events (key_down k false injector.enigo)
unfolding absorb_all absorb key_effects
key_down-absorb_all p k [] injector h = refl
key_down-absorb_all p k (e ∷ events) injector (h, hs) =
    key_down-absorb_all p k events (inject p e injector) hs
    ∙ ap (key_effects p k events) (key_down-inject p k e injector h)

button_down-absorb_all :
    (p : Platform) (b : Button) (events : List Event) (injector : InputInjector)
    → All (λ e. is_release_all e ≡ false) events
    → button_down b false (absorb_all p (map Envelope.input events) injector).enigo
      ≡ button_effects b events (button_down b false injector.enigo)
unfolding absorb_all absorb button_effects
button_down-absorb_all p b [] injector h = refl
button_down-absorb_all p b (e ∷ events) injector (h, hs) =
    button_down-absorb_all p b events (inject p e injector) hs
    ∙ ap (button_effects b events) (button_down-inject p b e injector h)

module _ {F : Type 0} where
  -- Events of other keys than the hotkey's.
  unfoldable pub AllPlain : Option HotkeyChord → List (Env × EventType F) → Type 0
  AllPlain hotkey [] = Unit
  AllPlain hotkey ((env, event) ∷ events) = (is_plain hotkey event ≡ true) × AllPlain hotkey events

  last_key-cons :
      (p : Platform) (k : InjectedKey) (env : Env) (event : EventType F)
      (events : List (Env × EventType F)) (was : Bool)
      → last_key p k ((env, event) ∷ events) was
        ≡ last_key p k events (last_key p k ((env, event) ∷ []) was)
  unfolding last_key
  last_key-cons p k env (key_press key) events was = refl
  last_key-cons p k env (key_release key) events was = refl
  last_key-cons p k env (button_press c) events was = refl
  last_key-cons p k env (button_release c) events was = refl
  last_key-cons p k env (wheel dx dy) events was = refl
  last_key-cons p k env (mouse_move x y) events was = refl

  last_button-cons :
      (b : Button) (env : Env) (event : EventType F) (events : List (Env × EventType F))
      (was : Bool)
      → last_button b ((env, event) ∷ events) was
        ≡ last_button b events (last_button b ((env, event) ∷ []) was)
  unfolding last_button
  last_button-cons b env (key_press key) events was = refl
  last_button-cons b env (key_release key) events was = refl
  last_button-cons b env (button_press c) events was = refl
  last_button-cons b env (button_release c) events was = refl
  last_button-cons b env (wheel dx dy) events was = refl
  last_button-cons b env (mouse_move x y) events was = refl

  -- What a run hands to the forwarder.
  record PlainRun (float : Float F) (inputs : List (Env × EventType F)) (state : CaptureState F)
      : Type 0 where
    sent : List Event
    captured : capture_run float inputs state ≡ map CaptureEvent.input sent
    no_release : All (λ e. is_release_all e ≡ false) sent
    keys :
        (p : Platform) (k : InjectedKey) (was : Bool)
        → key_effects p k sent was ≡ last_key p k inputs was
    buttons : (b : Button) (was : Bool) → button_effects b sent was ≡ last_button b inputs was

  plain_run :
      (float : Float F) (inputs : List (Env × EventType F)) (state : CaptureState F)
      → AllPlain state.hotkey inputs
      → IsForwarding state
      → PlainRun float inputs state
  unfolding capture_run key_effects button_effects last_key last_button AllPlain
  plain_run float [] state h f = record {
    sent = [];
    captured = refl;
    no_release = tt;
    keys = λ p k was. refl;
    buttons = λ b was. refl;
  }
  plain_run float ((env, event) ∷ inputs) state (h, hs) f =
      let state' = (process_event float env event state).0 in
      let first = plain_lem float env event state h f in
      let rest =
        plain_run float inputs state'
          (subst (λ hotkey. AllPlain hotkey inputs) (sym first.same_hotkey) hs) first.forwarding in
      record {
        sent = first.sent ++ rest.sent;
        captured =
            rw (first.dispatched, rest.captured)
              (sym (map-append CaptureEvent.input first.sent rest.sent));
        no_release =
            All-append (λ e. is_release_all e ≡ false) first.sent rest.sent first.no_release
              rest.no_release;
        keys = λ p k was.
            key_effects-append p k first.sent rest.sent was
            ∙ (ap (key_effects p k rest.sent) (first.keys p k was)
                ∙ (rest.keys p k (last_key p k ((env, event) ∷ []) was)
                    ∙ sym (last_key-cons p k env event inputs was)));
        buttons = λ b was.
            button_effects-append b first.sent rest.sent was
            ∙ (ap (button_effects b rest.sent) (first.buttons b was)
                ∙ (rest.buttons b (last_button b ((env, event) ∷ []) was)
                    ∙ sym (last_button-cons b env event inputs was)));
      }

  -- Forwarding is on, and the events of the server's devices are of other keys than the hotkey's.
  -- What the capture makes of them goes through the forwarder into the queue of a client, which was
  -- empty, and is written as a whole; the client's session receives that and has not ended,
  -- whatever else happens in it. Then every key of the client is down if and only if what was last
  -- pressed or released of the server's keys that stand for it was pressed, and so is every mouse
  -- button.
  pub typing_arrives :
      (float : Float F) (inputs : List (Env × EventType F)) (capture : CaptureState F)
      (state : ServerState) (id : ℕ) (queue : List Envelope) (delivers writes : ℕ → Bool)
      (p : Platform) (server_name fingerprint : Text) (now : ℕ) (events : List LoopEvent)
      (session : SessionState)
      → AllPlain capture.hotkey inputs
      → IsForwarding capture
      → lookup id state.registry ≡ some []
      → ((m : ℕ) → writes m ≡ true)
      → lookup id (forward_all (capture_run float inputs capture) state).registry ≡ some queue
      → received_of events ≡ pump_outbound writes 0 queue
      → session_loop p delivers events (start server_name fingerprint now) ≡ (session, none)
      → ((k : InjectedKey) → key_down k false session.injector.enigo ≡ last_key p k inputs false)
        × ((b : Button) → button_down b false session.injector.enigo ≡ last_button b inputs false)
  unfolding key_down button_down new
  typing_arrives float inputs capture state id queue delivers writes p server_name fingerprint now
        events session plain on empty all queued arrived goes_on =
      let run = plain_run float inputs capture plain on in
      let same =
        ap (λ o. unwrap_or o [])
          (sym queued
            ∙ (ap (λ c. lookup id (forward_all c state).registry) run.captured
                ∙ lookup-forward_all id run.sent state [] empty)) in
      let injected =
        session_loop-absorb_all p delivers events (start server_name fingerprint now) session
          goes_on
        ∙ ap (λ r. absorb_all p r new) (arrived ∙ (pump_outbound-all writes 0 queue all ∙ same)) in
      (
        λ k.
            ap (λ i. key_down k false i.enigo) injected
            ∙ (key_down-absorb_all p k run.sent new run.no_release ∙ run.keys p k false),
        λ b.
            ap (λ i. button_down b false i.enigo) injected
            ∙ (button_down-absorb_all p b run.sent new run.no_release ∙ run.buttons b false),
      )
