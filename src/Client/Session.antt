-- ===== src/Client/Session.antt =====
-- The loop of `Session::run` in client/src/session.rs. An event is what one branch of `select!`
-- completes with; the channels to the user and to the clipboard are the lists of what was sent.
pub mod Release
pub mod Received
use xkvm.Base.{
  ℕ, zero, suc, ◌+◌, ◌-◌, ◌*◌, ◌/◌, ◌%◌, ◌^◌, ◌≤◌, ◌<◌, min, max, ◌≡◌, refl, sym, ap, ◌∙◌, ◌≢◌, ◌↔◌,
  ◌⊎◌, inl, inr, Bool, true, false, not, ◌&&◌, ◌||◌, Option, none, some, List, [], ◌∷◌, ◌++◌, map,
  append_assoc, append-nil, arith, subst, ltb, leb, ◌==◌, if◌then◌else◌, ltb→lt, lt→ltb, ltb→le,
  le→ltb, leb→le, le→leb, ==_iff, tests, Bool-cases, Option-cases, is_some, unwrap_or, ◌>>=◌,
  length, take, drop, All, length-append, take-append-drop, length-take, length-drop, take-append,
  drop-append, All-append, Eq, nat_eq, lookup, insert, remove, lookup-insert, lookup-insert_self,
  lookup-remove, contains, add, without, contains-add, contains-without, contains-append, Text,
  codes, text_beq, text_beq_iff, text_eq, utf8, byte_len, is_whitespace, is_nil, trim_start,
  trim_end, trim,
}
use xkvm.Protocol.{
  Envelope, Event, hello, hello_ack, pair_request, pair_accept, pair_reject, input, clipboard_set,
  file_offer, file_accept, file_reject, file_complete, ping, pong, goodbye, release_all,
}
use xkvm.Keys.Injected.{Platform}
use xkvm.Client.Inject
use xkvm.Client.Inject.{InputInjector, inject, new}

pub data SessionEvent : Type 0 where
  connected : (server_name fingerprint : Text) → SessionEvent
  disconnected : (closed : Bool) → SessionEvent
  forwarding_changed : Bool → SessionEvent
  clipboard_received : (bytes : ℕ) → SessionEvent
  latency : (ms : ℕ) → SessionEvent
  error : Text → SessionEvent

pub data Command : Type 0 where
  toggle_forward : Bool → Command
  send_clipboard : Text → Command

pub data LoopEvent : Type 0 where
  cancelled : LoopEvent
  ping_tick : (now : ℕ) → LoopEvent
  commanded : Option Command → LoopEvent
  clip : Option Text → LoopEvent
  received : (now : ℕ) → Envelope → LoopEvent
  read_failed : LoopEvent

-- Why the loop stops; the first is `Ok`.
pub data Stop : Type 0 where
  closed unresponsive lost_on_ping lost_on_command lost_on_pong connection_closed : Stop

pub record SessionState : Type 0 where
  pub injector : InputInjector
  pub written : List Envelope
  pub clip_in : List Text
  pub events : List SessionEvent
  pub last_received : ℕ

-- 20 s, in milliseconds.
abbrev pub dead_after : ℕ
dead_after = 20000

abbrev envelope_of : Command → Envelope
envelope_of (toggle_forward on) = Envelope.toggle_forward on
envelope_of (send_clipboard text) = clipboard_set text

abbrev emit : SessionEvent → SessionState → SessionState
emit e state = record state { events = state.events ++ e ∷ [] }

abbrev release : SessionState → SessionState
release state = record state { injector = Inject.release_all state.injector }

-- `delivers` says whether the n-th write succeeds, of those that came before and succeeded: once a
-- write to the stream has failed, so do all later ones.
module _ (p : Platform) (delivers : ℕ → Bool) where
  abbrev write_or : Stop → Envelope → SessionState → SessionState × Option Stop
  write_or stop e state =
      if delivers (length state.written)
      then (record state { written = state.written ++ e ∷ [] }, none)
      else (state, some stop)

  -- A write whose failure is ignored.
  abbrev try_write : Envelope → SessionState → SessionState
  try_write e state =
      if delivers (length state.written)
      then record state { written = state.written ++ e ∷ [] }
      else state

  unfoldable pub on_envelope : ℕ → Envelope → SessionState → SessionState × Option Stop
  on_envelope now (input release_all) state = (release state, none)
  on_envelope now (input event) state =
      (record state { injector = inject p event state.injector }, none)
  on_envelope now (clipboard_set text) state = (
    emit (clipboard_received (byte_len text))
        (record state { clip_in = state.clip_in ++ text ∷ [] }),
    none,
  )
  on_envelope now (Envelope.toggle_forward true) state =
      (emit (forwarding_changed true) state, none)
  on_envelope now (Envelope.toggle_forward false) state =
      (emit (forwarding_changed false) (release state), none)
  on_envelope now (ping ts) state = write_or lost_on_pong (pong ts) state
  on_envelope now (pong ts) state = (emit (latency (now - ts)) state, none)
  on_envelope now goodbye state = (state, some closed)
  on_envelope now (Envelope.error msg) state = (emit (SessionEvent.error msg) state, none)
  on_envelope now _ state = (state, none)

  unfoldable pub on_ping_tick : ℕ → SessionState → SessionState × Option Stop
  on_ping_tick now state =
      if ltb dead_after (now - state.last_received)
      then (state, some unresponsive)
      else write_or lost_on_ping (ping now) state

  unfoldable pub session_round : LoopEvent → SessionState → SessionState × Option Stop
  unfolding on_envelope on_ping_tick
  session_round cancelled state = (try_write goodbye state, some closed)
  session_round (ping_tick now) state = on_ping_tick now state
  session_round (commanded none) state = (state, none)
  session_round (commanded (some command)) state =
      write_or lost_on_command (envelope_of command) state
  session_round (clip none) state = (state, none)
  session_round (clip (some text)) state = (try_write (clipboard_set text) state, none)
  session_round (received now envelope) state =
      on_envelope now envelope (record state { last_received = now })
  session_round read_failed state = (state, some connection_closed)

  abbrev pub is_closed : Stop → Bool
  is_closed closed = true
  is_closed _ = false

  -- After the loop.
  unfoldable pub finish : Stop → SessionState → SessionState
  finish stop state = emit (disconnected (is_closed stop)) (release state)

  session_next :
      (SessionState → SessionState × Option Stop)
      → SessionState × Option Stop
      → SessionState × Option Stop
  unfolding finish
  session_next rest (state, none) = rest state
  session_next rest (state, some stop) = (finish stop state, some stop)

  -- The loop over the events that come. Without a reason to stop it goes on when they are used up.
  unfoldable pub session_loop : List LoopEvent → SessionState → SessionState × Option Stop
  unfolding session_round session_next
  session_loop [] state = (state, none)
  session_loop (event ∷ events) state =
      session_next (session_loop events) (session_round event state)

-- The state in which the loop begins.
abbrev pub start : (server_name fingerprint : Text) → (now : ℕ) → SessionState
start server_name fingerprint now = record {
  injector = new;
  written = [];
  clip_in = [];
  events = connected server_name fingerprint ∷ [];
  last_received = now;
}
