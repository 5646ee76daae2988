-- ===== src/Capture/Mouse.antt =====
-- The motion of the mouse: its position is followed at all times, and no delta is forwarded across
-- a toggle or a warp.
use xkvm.Base.{
  ◌≡◌, Bool, true, false, not, ◌&&◌, ◌||◌, Option, none, some, List, [], ◌∷◌, arith, if◌then◌else◌,
  All, nat_eq, text_eq,
}
use xkvm.Capture.Types.{EventType, key_press, key_release, mouse_move, Float, Env, CaptureState}
use xkvm.Capture.Process.{set_enabled, delta, warps, process_event}
use xkvm.Capture.Gating.{is_motion}
use xkvm.Capture.Hotkeys.{Input, stored}

-- The next motion only tells the position: the cursor was warped, the position is to be seeded, or
-- forwarding was off when the last event came.
abbrev pub is_pending : {F : Type 0} → CaptureState F → Bool
is_pending state = state.warping || (state.seed_next || not state.was_enabled)

module _ {F : Type 0} (float : Float F) where
  open float use {sub, to_i32}

  -- A motion always moves the position that is kept. Its delta is forwarded if forwarding is on, no
  -- seed or warp is pending and it is not zero, and nothing is forwarded otherwise; and a warp is
  -- pending afterwards exactly if the cursor was moved back from an edge.
  process_event-mouse_move :
      (env : Env) (x y : F) (state : CaptureState F)
      → let (state', outcome) = process_event float env (mouse_move x y) state in
        (state'.last_x ≡ x)
        × (state'.last_y ≡ y)
        × (outcome.forward ≡ (
            if state.enabled && not (is_pending state)
            then delta (to_i32 (sub x state.last_x)) (to_i32 (sub y state.last_y))
            else none))
        × (state'.warping ≡ (state.enabled && (not (is_pending state) && warps float env x y)))
  unfolding process_event
  process_event-mouse_move env x y state = (ground arith, ground arith, ground arith, ground arith)

  pending_kept :
      (env : Env) (event : EventType F) (state : CaptureState F)
      → is_motion event ≡ false
      → is_pending state ≡ true
      → is_pending (process_event float env event state).0 ≡ true
  unfolding process_event
  pending_kept env (key_press key) state m h = ground arith
  pending_kept env (key_release key) state m h = ground arith
  pending_kept env (mouse_move x y) state m h = cc
  pending_kept env _ state m h = ground arith

  -- The state after a run.
  unfoldable pub run : List (Input F) → CaptureState F → CaptureState F
  run [] state = state
  run (i ∷ is) state = run is (process_event float i.env i.event (stored i.set state)).0

  run_pending :
      (is : List (Input F)) (state : CaptureState F)
      → All (λ (i : Input F). is_motion i.event ≡ false) is
      → is_pending state ≡ true
      → is_pending (run is state) ≡ true
  unfolding run set_enabled
  run_pending [] state a h = h
  run_pending (i ∷ is) state (still, a) h =
      run_pending is (process_event float i.env i.event (stored i.set state)).0 a
        (pending_kept i.env i.event (stored i.set state) still (stays i.set))
    where
      stays : (o : Option Bool) → is_pending (stored o state) ≡ true
      stays none = h
      stays (some v) = h

  -- If the last event came while forwarding was off, or a seed or a warp was pending, then the
  -- first motion forwards nothing, whatever other events come before it and however often
  -- forwarding is switched in between.
  first_motion_seeds :
      (is : List (Input F)) (env : Env) (x y : F) (state : CaptureState F)
      → All (λ (i : Input F). is_motion i.event ≡ false) is
      → is_pending state ≡ true
      → (process_event float env (mouse_move x y) (run is state)).1.forward ≡ none
  first_motion_seeds is env x y state a h =
      let pending = run_pending is state a h in
      let (_, _, forward, _) = process_event-mouse_move env x y (run is state) in
      ground (arith, forward, pending)
