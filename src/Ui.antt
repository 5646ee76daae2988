-- ===== src/Ui.antt =====
-- The state of the control panel, ui/src/main.rs, and how the tasks that share it take turns. Each
-- call of `connect_to_server` or `disconnect_from_server` is named by the generation that its
-- `reset_session` made, and so is the cancellation token that a call makes. A step is one access to
-- the generation, or one to the session under its lock.
pub mod Panel
pub mod Ordered
pub mod Preserved
pub mod Supervised
pub mod Races
use xkvm.Base.{
  ℕ, zero, suc, ◌+◌, ◌-◌, ◌*◌, ◌/◌, ◌%◌, ◌^◌, ◌≤◌, ◌<◌, min, max, ◌≡◌, refl, sym, ap, ◌∙◌, ◌≢◌, ◌↔◌,
  ◌⊎◌, inl, inr, Bool, true, false, not, ◌&&◌, ◌||◌, Option, none, some, List, [], ◌∷◌, ◌++◌, map,
  append_assoc, append-nil, arith, subst, ltb, leb, ◌==◌, if◌then◌else◌, ltb→lt, lt→ltb, ltb→le,
  le→ltb, leb→le, le→leb, ==_iff, tests, Bool-cases, Option-cases, is_some, unwrap_or, ◌>>=◌,
  length, take, drop, All, length-append, take-append-drop, length-take, length-drop, take-append,
  drop-append, All-append, Eq, nat_eq, lookup, insert, remove, lookup-insert, lookup-insert_self,
  lookup-remove, contains, add, without, contains-add, contains-without, contains-append, Text,
  codes, text_beq, text_beq_iff, text_eq, utf8, byte_len, is_whitespace, is_nil, trim_start,
  trim_end, trim,
}
use xkvm.Client.Session.{SessionEvent, disconnected, forwarding_changed, latency, error}

pub record ActiveSession : Type 0 where
  pub cancel : ℕ
  pub address : Text
  pub server_name : Text
  pub fingerprint : Text
  pub file_port : ℕ
  pub host : Text

pub record AppState : Type 0 where
  pub generation : ℕ
  pub session : Option ActiveSession
  pub forwarding_active : Bool
  pub last_error : Option Text
  pub latency_ms : Option ℕ

unfoldable pub default_state : AppState
default_state = record {
  generation = 0;
  session = none;
  forwarding_active = false;
  last_error = none;
  latency_ms = none;
}

pub record KvmStatus : Type 0 where
  pub connected : Bool
  pub address : Option Text
  pub server_name : Option Text
  pub fingerprint : Option Text
  pub forwarding_active : Bool
  pub last_error : Option Text
  pub latency_ms : Option ℕ

unfoldable pub get_status : AppState → KvmStatus
get_status state = record {
  connected = is_some state.session;
  address = state.session >>= λ s. some s.address;
  server_name = state.session >>= λ s. some s.server_name;
  fingerprint = state.session >>= λ s. some s.fingerprint;
  forwarding_active = state.forwarding_active;
  last_error = state.last_error;
  latency_ms = state.latency_ms;
}

-- What is asked of which session, by its token; `none` is the error `not connected to a server`.
unfoldable pub toggle_forwarding : AppState → Option (ℕ × Bool)
toggle_forwarding state = state.session >>= λ s. some (s.cancel, not state.forwarding_active)

-- `reset_session` up to the lock: the generation of the call.
unfoldable pub bump : AppState → AppState
bump state = record state { generation = suc state.generation }

-- The rest of `reset_session`: the token to cancel, and the state without a session.
unfoldable pub take_session : AppState → Option ℕ × AppState
take_session state = (
  state.session >>= λ s. some s.cancel,
  record state { session = none; forwarding_active = false },
)

-- What a `SessionEvent` changes; `reason` is the text of a disconnection.
unfoldable pub mirrored : (Bool → Text) → SessionEvent → AppState → AppState
mirrored reason (forwarding_changed on) state = record state { forwarding_active = on }
mirrored reason (latency ms) state = record state { latency_ms = some ms }
mirrored reason (error msg) state = record state { last_error = some msg }
mirrored reason (disconnected closed) state = record state { last_error = some (reason closed) }
mirrored reason _ state = state

-- The task that mirrors the events of the call `my_gen`; `none` ends it.
unfoldable pub mirror_event : (Bool → Text) → ℕ → SessionEvent → AppState → Option AppState
unfolding mirrored
mirror_event reason my_gen event state =
    if state.generation == my_gen then some (mirrored reason event state) else none

-- Where a call is: before `reset_session`; between its two parts; in the first `Session::connect`,
-- in one that reconnects, or in `session.run`; holding the lock in `install_active_session` after
-- its check; behind the loop; behind the check that follows it; and at its end.
pub data Phase : Type 0 where
  idle connecting reconnecting running installing ending clearing done : Phase
  bumped : (connects : Bool) → Phase

-- The state, the calls, the tokens that are cancelled, and who holds the lock of the session.
pub record World : Type 0 where
  pub app : AppState
  pub phase : ℕ → Phase
  pub cancelled : ℕ → Bool
  pub lock : Option ℕ

unfoldable pub set {ℓ} : {A : Type ℓ} → ℕ → A → (ℕ → A) → ℕ → A
set g a f h = if h == g then a else f h

abbrev pub goes : ℕ → Phase → World → World
goes g p w = record w { phase = set g p w.phase }

abbrev cancel_token : Option ℕ → (ℕ → Bool) → ℕ → Bool
cancel_token none f = f
cancel_token (some t) f = set t true f

-- A call begins.
unfoldable pub begin_reset : Bool → World → World
unfolding bump set
begin_reset connects w = record w {
  app = bump w.app;
  phase = set (suc w.app.generation) (bumped connects) w.phase;
}

-- The session in place is taken and cancelled; `disconnect_from_server` is then done.
unfoldable pub take_previous : Bool → ℕ → World → World
unfolding take_session set
take_previous connects g w =
    let (previous, app) = take_session w.app in
    record w {
      app = if connects then app else record app { last_error = none; latency_ms = none };
      phase = set g (if connects then connecting else done) w.phase;
      cancelled = cancel_token previous w.cancelled;
    }

-- `install_active_session` up to its check under the lock. A first connection that is superseded
-- cancels its own token; a reconnection leaves the loop.
unfoldable pub check_install : Bool → ℕ → World → World
unfolding set
check_install first g w =
    if w.app.generation == g
    then record w { phase = set g installing w.phase; lock = some g }
    else if first
    then record w { phase = set g done w.phase; cancelled = set g true w.cancelled }
    else record w { phase = set g ending w.phase }

-- The session is written and the lock released.
unfoldable pub write_session : ℕ → ActiveSession → World → World
unfolding set
write_session g active w = record w {
  app = record w.app { session = some (record active { cancel = g }) };
  phase = set g running w.phase;
  lock = none;
}

-- The check of what the task does behind its loop.
unfoldable pub load_end : ℕ → World → World
unfolding set
load_end g w = goes g (if w.app.generation == g then clearing else done) w

-- The write that follows it.
unfoldable pub clear_end : ℕ → World → World
unfolding set
clear_end g w = record w {
  app = record w.app { session = none; forwarding_active = false };
  phase = set g done w.phase;
}

-- The two of them at once.
unfoldable pub finish : ℕ → World → World
unfolding clear_end set
finish g w = if w.app.generation == g then clear_end g w else goes g done w

-- One step, in which nothing comes between the check of a task that ends and its write. `refuses`
-- is the check of `install_active_session` that comes before the lock.
pub data Step : World → World → Type 0 where
  begins : (connects : Bool) (w : World) → Step w (begin_reset connects w)
  takes :
      (connects : Bool) (g : ℕ) (w : World)
      → w.phase g ≡ bumped connects
      → w.lock ≡ none
      → Step w (take_previous connects g w)
  fails : (g : ℕ) (w : World) → w.phase g ≡ connecting → Step w (goes g done w)
  checks :
      (g : ℕ) (w : World) → w.phase g ≡ connecting → w.lock ≡ none → Step w (check_install true g w)
  rechecks :
      (g : ℕ) (w : World)
      → w.phase g ≡ reconnecting
      → w.lock ≡ none
      → Step w (check_install false g w)
  refuses :
      (first : Bool) (g : ℕ) (w : World)
      → w.phase g ≡ (if first then connecting else reconnecting)
      → (w.app.generation == g) ≡ false
      → Step w (check_install first g w)
  writes :
      (g : ℕ) (active : ActiveSession) (w : World)
      → w.lock ≡ some g
      → Step w (write_session g active w)
  stops :
      (g : ℕ) (w : World)
      → w.phase g ≡ running
      → Step w (goes g (if w.cancelled g then ending else reconnecting) w)
  gives_up : (g : ℕ) (w : World) → w.phase g ≡ reconnecting → Step w (goes g ending w)
  finishes : (g : ℕ) (w : World) → w.phase g ≡ ending → w.lock ≡ none → Step w (finish g w)
  mirrors :
      (reason : Bool → Text) (g : ℕ) (event : SessionEvent) (w : World) (app : AppState)
      → mirror_event reason g event w.app ≡ some app
      → Step w (record w { app = app })

unfoldable pub initial : World
unfolding default_state
initial = record { app = default_state; phase = λ g. idle; cancelled = λ g. false; lock = none }

pub data Reach : World → Type 0 where
  start : Reach initial
  then_step : (w w' : World) → Reach w → Step w w' → Reach w'

-- A step in which the check and the write of a task that ends are two.
pub data RacyStep : World → World → Type 0 where
  steps : (w w' : World) → Step w w' → RacyStep w w'
  loads : (g : ℕ) (w : World) → w.phase g ≡ ending → RacyStep w (load_end g w)
  clears : (g : ℕ) (w : World) → w.phase g ≡ clearing → w.lock ≡ none → RacyStep w (clear_end g w)

pub data RacySteps : World → World → Type 0 where
  no_step : (w : World) → RacySteps w w
  one_more : (w w' w'' : World) → RacyStep w w' → RacySteps w' w'' → RacySteps w w''
