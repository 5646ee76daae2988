-- ===== src/Client/Session/Received.antt =====
-- What a session has injected, in terms of what it has received.
use xkvm.Base.{
  ℕ, ◌≡◌, refl, sym, ap, ◌∙◌, Bool, true, false, Option, none, some, List, [], ◌∷◌, arith, nat_eq,
  text_eq,
}
use xkvm.Protocol.{Envelope, Event, input, ping}
use xkvm.Keys.Injected.{Platform}
use xkvm.Client.Inject
use xkvm.Client.Inject.{InputInjector, inject}
use xkvm.Client.Session.{
  LoopEvent, cancelled, ping_tick, commanded, clip, received, read_failed, Stop, SessionState,
  on_envelope, session_round, session_next, session_loop,
}

-- The envelopes that come in.
unfoldable pub received_of : List LoopEvent → List Envelope
received_of [] = []
received_of (received now e ∷ events) = e ∷ received_of events
received_of (_ ∷ events) = received_of events

-- What an envelope does to the injector.
unfoldable pub absorb : Platform → Envelope → InputInjector → InputInjector
absorb p (input event) injector = inject p event injector
absorb p (Envelope.toggle_forward false) injector = Inject.release_all injector
absorb p _ injector = injector

unfoldable pub absorb_all : Platform → List Envelope → InputInjector → InputInjector
absorb_all p [] injector = injector
absorb_all p (e ∷ envelopes) injector = absorb_all p envelopes (absorb p e injector)

module _ (p : Platform) (delivers : ℕ → Bool) where
  on_envelope-absorb :
      (now : ℕ) (e : Envelope) (state : SessionState)
      → (on_envelope p delivers now e state).0.injector ≡ absorb p e state.injector
  unfolding on_envelope absorb inject
  on_envelope-absorb now (input (Event.mouse_delta x y)) state = refl
  on_envelope-absorb now (input (Event.mouse_button_press b)) state = refl
  on_envelope-absorb now (input (Event.mouse_button_release b)) state = refl
  on_envelope-absorb now (input (Event.wheel x y)) state = refl
  on_envelope-absorb now (input (Event.key_press c m)) state = refl
  on_envelope-absorb now (input (Event.key_release c m)) state = refl
  on_envelope-absorb now (input Event.release_all) state = refl
  on_envelope-absorb now (Envelope.toggle_forward true) state = refl
  on_envelope-absorb now (Envelope.toggle_forward false) state = refl
  on_envelope-absorb now (ping ts) state = ground arith
  on_envelope-absorb now _ state = refl

  session_round-absorb :
      (event : LoopEvent) (state : SessionState)
      → (session_round p delivers event state).0.injector
        ≡ absorb_all p (received_of (event ∷ [])) state.injector
  unfolding session_round received_of absorb_all
  session_round-absorb (received now e) state =
      on_envelope-absorb now e (record state { last_received = now })
  session_round-absorb (ping_tick now) state = ground arith
  session_round-absorb (commanded none) state = refl
  session_round-absorb (commanded (some command)) state = ground arith
  session_round-absorb (clip none) state = refl
  session_round-absorb (clip (some text)) state = ground arith
  session_round-absorb cancelled state = ground arith
  session_round-absorb read_failed state = refl

  session_next-goes_on :
      (rest : SessionState → SessionState × Option Stop) (r : SessionState × Option Stop)
      (state' : SessionState)
      → session_next p delivers rest r ≡ (state', none)
      → rest r.0 ≡ (state', none)
  unfolding session_next
  session_next-goes_on rest (s, none) state' h = h
  session_next-goes_on rest (s, some stop) state' h = absurd (cc h)

  absorb_all-cons :
      (event : LoopEvent) (events : List LoopEvent) (injector : InputInjector)
      → absorb_all p (received_of (event ∷ events)) injector
        ≡ absorb_all p (received_of events) (absorb_all p (received_of (event ∷ [])) injector)
  unfolding absorb_all received_of
  absorb_all-cons (received now e) events injector = refl
  absorb_all-cons _ events injector = refl

  -- A session that goes on has injected what the envelopes that it has received say, in their
  -- order, whatever else happened in between.
  pub session_loop-absorb_all :
      (events : List LoopEvent) (state state' : SessionState)
      → session_loop p delivers events state ≡ (state', none)
      → state'.injector ≡ absorb_all p (received_of events) state.injector
  unfolding session_loop received_of absorb_all
  session_loop-absorb_all [] state state' h = ap (λ r. r.0.injector) (sym h)
  session_loop-absorb_all (event ∷ events) state state' h =
      let r = session_round p delivers event state in
      session_loop-absorb_all events r.0 state'
        (session_next-goes_on (session_loop p delivers events) r state' h)
      ∙ (ap (absorb_all p (received_of events)) (session_round-absorb event state)
          ∙ sym (absorb_all-cons event events state.injector))
