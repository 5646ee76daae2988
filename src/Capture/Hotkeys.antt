-- ===== src/Capture/Hotkeys.antt =====
-- The hotkey: when it toggles, how often, and which releases it swallows.
use xkvm.Base.{
  ℕ, ◌-◌, ◌≤◌, ◌≡◌, refl, ap, ◌∙◌, ◌⊎◌, inl, inr, Bool, true, false, not, ◌&&◌, ◌||◌, Option, none,
  some, List, [], ◌∷◌, arith, subst, if◌then◌else◌, nat_eq, contains, add, without, contains-add,
  contains-without, text_eq,
}
use xkvm.Protocol.{Event}
use xkvm.Keys.{Key, key_to_code, key_beq, key_beq_iff, key_eq}
use xkvm.Capture.Modifiers.{HotkeyChord, compute_modifiers}
use xkvm.Capture.Types.{EventType, key_press, key_release, mouse_move, Float, Env, CaptureState}
use xkvm.Capture.Process.{hotkey_debounce, set_enabled, is_chord, process_event}

-- An event of a run: the answers of the system during it, what the rest of the server stores into
-- `enabled` before it, and the event.
pub record Input (F : Type 0) : Type 0 where
  pub env : Env
  pub set : Option Bool
  pub event : EventType F

-- The store of the rest of the server.
abbrev pub stored : {F : Type 0} → Option Bool → CaptureState F → CaptureState F
stored none state = state
stored (some value) state = set_enabled value state

abbrev pub Since : ℕ → Option ℕ → Type 0
Since now none = Unit
Since now (some prev) = hotkey_debounce ≤ now - prev

-- Whether `key` is the key of the hotkey.
abbrev pub is_hotkey_key : Option HotkeyChord → Key → Bool
is_hotkey_key none key = false
is_hotkey_key (some hk) key = key_beq key hk.key

-- What is kept between two events: a swallowed key is held, and is the key of the hotkey.
abbrev pub Tracks : {F : Type 0} → CaptureState F → Key → Type 0
Tracks state key =
    (not (contains key state.hotkey_swallowed_keys)
      || (contains key state.pressed_keys && is_hotkey_key state.hotkey key))
    ≡ true

module _ {F : Type 0} (float : Float F) where
  -- A toggle flips the flag, which no other event does, and comes 250 ms after the last one.
  process_event-toggled :
      (env : Env) (event : EventType F) (state : CaptureState F)
      → let (state', outcome) = process_event float env event state in
        ((outcome.toggled ≡ none)
          × (state'.enabled ≡ state.enabled)
          × (state'.last_hotkey_fire ≡ state.last_hotkey_fire))
        ⊎ ((outcome.toggled ≡ some (not state.enabled))
            × (state'.enabled ≡ not state.enabled)
            × (state'.last_hotkey_fire ≡ some env.now)
            × Since env.now state.last_hotkey_fire)
  unfolding process_event
  process_event-toggled env (key_press key) state = ground arith
  process_event-toggled env (mouse_move x y) state = ground arith
  process_event-toggled env _ state = ground arith

  abbrev noted : ℕ → Option Bool → List ℕ → List ℕ
  noted now none times = times
  noted now (some _) times = now ∷ times

  -- The times at which a run toggles the forwarding.
  unfoldable pub toggle_times : List (Input F) → CaptureState F → List ℕ
  toggle_times [] state = []
  toggle_times (i ∷ is) state =
      let (state', outcome) = process_event float i.env i.event (stored i.set state) in
      noted i.env.now outcome.toggled (toggle_times is state')

  abbrev pub Spaced : Option ℕ → List ℕ → Type 0
  Spaced last [] = Unit
  Spaced last (t ∷ ts) = Since t last × Spaced (some t) ts

  -- However the events and the rest of the server interleave, any two toggles in a row are at least
  -- 250 ms apart, and so is the first one from the toggle before the run.
  pub toggle_times-Spaced :
      (is : List (Input F)) (state : CaptureState F)
      → Spaced state.last_hotkey_fire (toggle_times is state)
  unfolding toggle_times set_enabled
  toggle_times-Spaced [] state = tt
  toggle_times-Spaced (i ∷ is) state =
      let before = stored i.set state in
      let (state', outcome) = process_event float i.env i.event before in
      let same : before.last_hotkey_fire ≡ state.last_hotkey_fire = kept i.set in
      let later = toggle_times-Spaced is state' in
      elim (process_event-toggled i.env i.event before) [
        | inl (quiet, _, last) ↦
            rw quiet (subst (λ l. Spaced l (toggle_times is state')) (last ∙ same) later)
        | inr (fired, _, last, apart) ↦ rw fired (
          subst (Since i.env.now) same apart,
          subst (λ l. Spaced l (toggle_times is state')) last later,
        )
      ]
    where
      kept : (o : Option Bool) → (stored o state).last_hotkey_fire ≡ state.last_hotkey_fire
      kept none = refl
      kept (some v) = refl

  -- Every event keeps the invariant: a key whose release will be swallowed is held, and is the key
  -- of the hotkey.
  process_event-Tracks :
      (env : Env) (event : EventType F) (state : CaptureState F) (key : Key)
      → Tracks state key
      → Tracks (process_event float env event state).0 key
  unfolding process_event
  process_event-Tracks env (key_press pressed) state key h = ground (
    arith,
    contains-add pressed key state.pressed_keys,
    contains-add pressed key state.hotkey_swallowed_keys,
    key_beq_iff pressed key,
  )
  process_event-Tracks env (key_release released) state key h = ground (
    arith,
    contains-without released key state.pressed_keys,
    contains-without released key state.hotkey_swallowed_keys,
    key_beq_iff released key,
  )
  process_event-Tracks env (mouse_move x y) state key h = ground arith
  process_event-Tracks env _ state key h = ground arith

  -- Whether a press of `key` was the hotkey since the last release of `key`, after one event more.
  abbrev pub taken_by : Key → EventType F → CaptureState F → Bool → Bool
  taken_by key (key_press pressed) state was =
      was
      || (key_beq pressed key
          && is_chord state.hotkey key (compute_modifiers (add key state.pressed_keys)))
  taken_by key (key_release released) state was = was && not (key_beq released key)
  taken_by key _ state was = was

  -- The same over a run.
  unfoldable pub taken : Key → List (Input F) → CaptureState F → Bool → Bool
  taken key [] state was = was
  taken key (i ∷ is) state was =
      let before = stored i.set state in
      taken key is (process_event float i.env i.event before).0 (taken_by key i.event before was)

  unfoldable pub final : List (Input F) → CaptureState F → CaptureState F
  final [] state = state
  final (i ∷ is) state = final is (process_event float i.env i.event (stored i.set state)).0

  process_event-taken :
      (env : Env) (event : EventType F) (state : CaptureState F) (key : Key)
      → contains key (process_event float env event state).0.hotkey_swallowed_keys
        ≡ taken_by key event state (contains key state.hotkey_swallowed_keys)
  unfolding process_event
  process_event-taken env (key_press pressed) state key =
      ground (arith, contains-add pressed key state.hotkey_swallowed_keys, key_beq_iff pressed key)
  process_event-taken env (key_release released) state key =
      ground
        (arith, contains-without released key state.hotkey_swallowed_keys, key_beq_iff released key)
  process_event-taken env (mouse_move x y) state key = ground arith
  process_event-taken env _ state key = ground arith

  final-taken :
      (is : List (Input F)) (state : CaptureState F) (key : Key) (was : Bool)
      → contains key state.hotkey_swallowed_keys ≡ was
      → contains key (final is state).hotkey_swallowed_keys ≡ taken key is state was
  unfolding final taken set_enabled
  final-taken [] state key was h = h
  final-taken (i ∷ is) state key was h =
      let before = stored i.set state in
      final-taken is (process_event float i.env i.event before).0 key
        (taken_by key i.event before was)
        (process_event-taken i.env i.event before key
          ∙ ap (taken_by key i.event before) (same i.set ∙ h))
    where
      same :
          (o : Option Bool)
          → contains key (stored o state).hotkey_swallowed_keys
            ≡ contains key state.hotkey_swallowed_keys
      same none = refl
      same (some v) = refl

  -- After any run of events and stores of the rest of the server, from a state in which no release
  -- of the key is to be swallowed: if since the last release of the key one of its presses, repeats
  -- included, came while the hotkey was held, its release is swallowed and not forwarded. If none
  -- did, its release is swallowed exactly while forwarding is on, and is forwarded then, with the
  -- key's code and the modifiers that are still held.
  pub process_event-key_release :
      (is : List (Input F)) (env : Env) (key : Key) (state : CaptureState F)
      → contains key state.hotkey_swallowed_keys ≡ false
      → let before = final is state in
        let outcome = (process_event float env (key_release key) before).1 in
        ((taken key is state false ≡ true) × ((outcome.swallow ≡ true) × (outcome.forward ≡ none)))
        ⊎ ((taken key is state false ≡ false)
            × ((outcome.swallow ≡ before.enabled)
                × (outcome.forward ≡ (
                    if before.enabled
                    then some (
                        Event.key_release
                          (key_to_code key)
                          (compute_modifiers (without key before.pressed_keys)))
                    else none))))
  unfolding process_event
  process_event-key_release is env key state h = ground (arith, final-taken is state key false h)

  -- A press that is not the chord, while forwarding is on, is forwarded, and leaves the swallowed
  -- keys as they were.
  pub process_event-key_press :
      (env : Env) (key : Key) (state : CaptureState F)
      → state.enabled ≡ true
      → is_chord state.hotkey key (compute_modifiers (add key state.pressed_keys)) ≡ false
      → let (state', outcome) = process_event float env (key_press key) state in
        (outcome.forward
          ≡ some
              (Event.key_press (key_to_code key) (compute_modifiers (add key state.pressed_keys))))
        × (state'.hotkey_swallowed_keys ≡ state.hotkey_swallowed_keys)
        × (state'.enabled ≡ true)
  unfolding process_event
  process_event-key_press env key state h c = ground arith

  -- A key that is held and forwarded already, and repeats while the chord is held: the repeat does
  -- not toggle, but the release is then swallowed, so the remote side never gets it.
  repeat_swallows_release :
      (env env' : Env) (key : Key) (state : CaptureState F)
      → contains key state.pressed_keys ≡ true
      → is_chord state.hotkey key (compute_modifiers state.pressed_keys) ≡ true
      → let (state', outcome) = process_event float env (key_press key) state in
        (outcome.toggled ≡ none)
        × (state'.enabled ≡ state.enabled)
        × ((process_event float env' (key_release key) state').1.forward ≡ none)
  unfolding process_event add
  repeat_swallows_release env env' key state held chord =
      ground (arith, contains-add key key state.hotkey_swallowed_keys, key_beq_iff key key)
