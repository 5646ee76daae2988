-- ===== src/Client/Session/Release.antt =====
-- When a session leaves no key and no button pressed, and when it stops.
use xkvm.Base.{
  ℕ, ◌+◌, ◌-◌, ◌<◌, ◌≡◌, refl, inl, inr, Bool, true, false, Option, none, some, List, [], ◌∷◌, ◌++◌,
  arith, subst, ltb, lt→ltb, Bool-cases, length, All, nat_eq, Text, text_eq,
}
use xkvm.Protocol.{Envelope, Event, input, ping}
use xkvm.Keys.Injected.{Platform, InjectedKey, injected_eq}
use xkvm.Client.Inject.{Button, button_eq}
use xkvm.Client.Inject.Held.{
  Agrees, key_down, button_down, release_all-Agrees, release_all-keys, release_all-buttons,
}
use xkvm.Client.Inject.Release.{inject-Agrees, new-Agrees}
use xkvm.Client.Session.{
  forwarding_changed, LoopEvent, cancelled, ping_tick, commanded, clip, received, read_failed, Stop,
  SessionState, dead_after, on_envelope, on_ping_tick, session_round, finish, session_next,
  session_loop, start,
}

abbrev Kept : SessionState × Option Stop → Type 0
Kept r = Agrees r.0.injector

module _ (p : Platform) (delivers : ℕ → Bool) where
  on_envelope-Agrees :
      (now : ℕ) (e : Envelope) (state : SessionState)
      → Agrees state.injector
      → Kept (on_envelope p delivers now e state)
  unfolding on_envelope
  on_envelope-Agrees now (input Event.release_all) state a = release_all-Agrees state.injector a
  on_envelope-Agrees now (input (Event.mouse_delta x y)) state a =
      inject-Agrees p (Event.mouse_delta x y) state.injector a
  on_envelope-Agrees now (input (Event.mouse_button_press b)) state a =
      inject-Agrees p (Event.mouse_button_press b) state.injector a
  on_envelope-Agrees now (input (Event.mouse_button_release b)) state a =
      inject-Agrees p (Event.mouse_button_release b) state.injector a
  on_envelope-Agrees now (input (Event.wheel x y)) state a =
      inject-Agrees p (Event.wheel x y) state.injector a
  on_envelope-Agrees now (input (Event.key_press c m)) state a =
      inject-Agrees p (Event.key_press c m) state.injector a
  on_envelope-Agrees now (input (Event.key_release c m)) state a =
      inject-Agrees p (Event.key_release c m) state.injector a
  on_envelope-Agrees now (Envelope.toggle_forward false) state a =
      release_all-Agrees state.injector a
  on_envelope-Agrees now (ping ts) state a = elim (Bool-cases (delivers (length state.written))) [
    | inl e ↦ rw e a
    | inr e ↦ rw e a
  ]
  on_envelope-Agrees now _ state a = a

  session_round-Agrees :
      (event : LoopEvent) (state : SessionState)
      → Agrees state.injector
      → Kept (session_round p delivers event state)
  unfolding session_round on_ping_tick
  session_round-Agrees (received now e) state a =
      on_envelope-Agrees now e (record state { last_received = now }) a
  session_round-Agrees (ping_tick now) state a =
      elim (Bool-cases (ltb dead_after (now - state.last_received))) [
        | inl e ↦ rw e a
        | inr e ↦ elim (Bool-cases (delivers (length state.written))) [
          | inl f ↦ rw (e, f) a
          | inr f ↦ rw (e, f) a
        ]
      ]
  session_round-Agrees cancelled state a = elim (Bool-cases (delivers (length state.written))) [
    | inl f ↦ rw f a
    | inr f ↦ rw f a
  ]
  session_round-Agrees (commanded none) state a = a
  session_round-Agrees (commanded (some c)) state a =
      elim (Bool-cases (delivers (length state.written))) [ inl f ↦ rw f a | inr f ↦ rw f a ]
  session_round-Agrees (clip none) state a = a
  session_round-Agrees (clip (some t)) state a =
      elim (Bool-cases (delivers (length state.written))) [ inl f ↦ rw f a | inr f ↦ rw f a ]
  session_round-Agrees read_failed state a = a

  -- What holds of the injector when the loop has stopped, and what holds before.
  abbrev IsFree : SessionState → Type 0
  IsFree state =
      (k : InjectedKey) (b : Button)
      → (key_down k false state.injector.enigo ≡ false)
        × (button_down b false state.injector.enigo ≡ false)

  abbrev Settled : SessionState × Option Stop → Type 0
  Settled (state, none) = Agrees state.injector
  Settled (state, some stop) = IsFree state

  session_next-Settled :
      (rest : SessionState → SessionState × Option Stop)
      → ((s : SessionState) → Agrees s.injector → Settled (rest s))
      → (r : SessionState × Option Stop) → Kept r
      → Settled (session_next p delivers rest r)
  unfolding session_next finish
  session_next-Settled rest f (state', none) k = f state' k
  session_next-Settled rest f (state', some stop) k =
      λ key b. (release_all-keys state'.injector k key, release_all-buttons state'.injector k b)

  session_loop-Settled :
      (events : List LoopEvent) (state : SessionState)
      → Agrees state.injector
      → Settled (session_loop p delivers events state)
  unfolding session_loop
  session_loop-Settled [] state a = a
  session_loop-Settled (event ∷ events) state a =
      session_next-Settled (session_loop p delivers events) (λ s k. session_loop-Settled events s k)
        (session_round p delivers event state) (session_round-Agrees event state a)

  -- However a session ends, after whatever the server and the user have sent, no key and no button
  -- that it pressed stays down.
  pub session_loop_frees :
      (events : List LoopEvent) (server_name fingerprint : Text) (now : ℕ) (state : SessionState)
      (stop : Stop) (k : InjectedKey) (b : Button)
      → session_loop p delivers events (start server_name fingerprint now) ≡ (state, some stop)
      → (key_down k false state.injector.enigo ≡ false)
        × (button_down b false state.injector.enigo ≡ false)
  session_loop_frees events server_name fingerprint now state stop k b h =
      let settled = session_loop-Settled events (start server_name fingerprint now) new-Agrees in
      subst Settled h settled k b

  -- The message that forwarding is off frees every key and button at once, keeps the session going,
  -- and the user is told.
  pub on_envelope_off :
      (events : List LoopEvent) (server_name fingerprint : Text) (now later : ℕ)
      (state : SessionState) (k : InjectedKey) (b : Button)
      → session_loop p delivers events (start server_name fingerprint now) ≡ (state, none)
      → let (state', stop) = on_envelope p delivers later (Envelope.toggle_forward false) state in
        (key_down k false state'.injector.enigo ≡ false)
        × (button_down b false state'.injector.enigo ≡ false)
        × (state'.events ≡ state.events ++ forwarding_changed false ∷ [])
        × (stop ≡ none)
  unfolding on_envelope
  on_envelope_off events server_name fingerprint now later state k b h =
      let a : Agrees state.injector =
        subst Settled h
          (session_loop-Settled events (start server_name fingerprint now) new-Agrees) in
      (release_all-keys state.injector a k, release_all-buttons state.injector a b, refl, refl)

  -- Events that are no message of the server.
  abbrev pub is_silent : LoopEvent → Bool
  is_silent (received now e) = false
  is_silent _ = true

  session_round-last_received :
      (event : LoopEvent) (state : SessionState)
      → is_silent event ≡ true
      → (session_round p delivers event state).0.last_received ≡ state.last_received
  unfolding session_round on_ping_tick
  session_round-last_received (received now e) state s = absurd (ground arith)
  session_round-last_received (ping_tick now) state s = ground arith
  session_round-last_received (commanded none) state s = refl
  session_round-last_received (commanded (some c)) state s = ground arith
  session_round-last_received (clip none) state s = refl
  session_round-last_received (clip (some t)) state s = ground arith
  session_round-last_received cancelled state s = ground arith
  session_round-last_received read_failed state s = refl

  Stops : SessionState × Option Stop → Type 0
  Stops r = (stop : Stop) × (r.1 ≡ some stop)

  session_next-Stops :
      (rest : SessionState → SessionState × Option Stop) (last : ℕ)
      → ((s : SessionState) → s.last_received ≡ last → Stops (rest s))
      → (r : SessionState × Option Stop) → r.0.last_received ≡ last
      → Stops (session_next p delivers rest r)
  unfolding session_next Stops
  session_next-Stops rest last f (state', none) k = f state' k
  session_next-Stops rest last f (state', some stop) k = (stop, refl)

  -- A session whose server is silent stops at the latest at the first tick that comes more than 20
  -- s after the server's last message, whatever else happens before it.
  pub session_loop_dead :
      (events later : List LoopEvent) (now : ℕ) (state : SessionState)
      → All (λ e. is_silent e ≡ true) events
      → state.last_received + dead_after < now
      → (stop : Stop) × ((session_loop p delivers (events ++ ping_tick now ∷ later) state).1
          ≡ some stop)
  unfolding session_loop session_round on_ping_tick session_next Stops
  session_loop_dead [] later now state q d = (
    Stop.unresponsive,
    rw
        (
          session_loop,
          session_round,
          on_ping_tick,
          lt→ltb dead_after (now - state.last_received) (omega (arith, d)),
          session_next,
        )
        refl,
  )
  session_loop_dead (event ∷ events) later now state (q, qs) d =
      session_next-Stops (session_loop p delivers (events ++ ping_tick now ∷ later))
        state.last_received (λ s e. session_loop_dead events later now s qs (omega (arith, d, e)))
        (session_round p delivers event state) (session_round-last_received event state q)
