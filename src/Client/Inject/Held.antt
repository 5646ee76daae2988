-- ===== src/Client/Inject/Held.antt =====
-- What is held on the client is what the injector has pressed and not released.
use xkvm.Base.{
  ◌≡◌, refl, sym, ap, ◌∙◌, Bool, true, false, not, ◌&&◌, ◌||◌, List, [], ◌∷◌, ◌++◌, arith,
  if◌then◌else◌, Eq, nat_eq, contains, without, contains-without, contains-append, text_eq,
}
use xkvm.Keys.Injected.{InjectedKey, injected_eq}
use xkvm.Client.Inject.{
  Button, button_eq, Direction, press, release, Command, button, key, InputInjector, push_new,
  release_keys, release_buttons, release_all,
}

abbrev pub is_press : Direction → Bool
is_press press = true
is_press release = false

-- What one command does to a key, and to a button, that is up or down.
abbrev pub key_after : InjectedKey → Bool → Command → Bool
key_after k was (key j d) = if injected_eq.beq j k then is_press d else was
key_after k was _ = was

abbrev pub button_after : Button → Bool → Command → Bool
button_after b was (button c d) = if button_eq.beq c b then is_press d else was
button_after b was _ = was

-- Whether a key, or a button, is down after the commands.
unfoldable pub key_down : InjectedKey → Bool → List Command → Bool
key_down k was [] = was
key_down k was (c ∷ commands) = key_down k (key_after k was c) commands

unfoldable pub button_down : Button → Bool → List Command → Bool
button_down b was [] = was
button_down b was (c ∷ commands) = button_down b (button_after b was c) commands

pub key_down-append :
    (k : InjectedKey) (was : Bool) (xs ys : List Command)
    → key_down k was (xs ++ ys) ≡ key_down k (key_down k was xs) ys
unfolding key_down
key_down-append k was [] ys = refl
key_down-append k was (c ∷ xs) ys = key_down-append k (key_after k was c) xs ys

pub button_down-append :
    (b : Button) (was : Bool) (xs ys : List Command)
    → button_down b was (xs ++ ys) ≡ button_down b (button_down b was xs) ys
unfolding button_down
button_down-append b was [] ys = refl
button_down-append b was (c ∷ xs) ys = button_down-append b (button_after b was c) xs ys

contains-push_new {ℓ} :
    {A : Type ℓ} ⦃e : Eq A⦄ (k j : A) (xs : List A)
    → contains k (push_new j xs) ≡ (e.beq j k || contains k xs)
unfolding push_new
contains-push_new ⦃e⦄ k j xs =
    ground (arith, contains-append k xs (j ∷ []), one, e.beq_iff j k, same)
  where
    one : contains k (j ∷ []) ≡ e.beq j k
    one = unfold contains in ground arith

    same : j ≡ k → contains j xs ≡ contains k xs
    same p = cc

key_down-release_keys :
    (k : InjectedKey) (was : Bool) (keys : List InjectedKey)
    → key_down k was (release_keys keys) ≡ (not (contains k keys) && was)
unfolding key_down release_keys contains
key_down-release_keys k was [] = refl
key_down-release_keys k was (j ∷ keys) = ground (
  arith,
  key_down-append k was (release_keys keys) (key j release ∷ []),
  key_down-release_keys k was keys,
)

button_down-release_buttons :
    (b : Button) (was : Bool) (buttons : List Button)
    → button_down b was (release_buttons buttons) ≡ (not (contains b buttons) && was)
unfolding button_down release_buttons contains
button_down-release_buttons b was [] = refl
button_down-release_buttons b was (c ∷ buttons) = ground (
  arith,
  button_down-append b was (release_buttons buttons) (button c release ∷ []),
  button_down-release_buttons b was buttons,
)

key_down-release_buttons :
    (k : InjectedKey) (was : Bool) (buttons : List Button)
    → key_down k was (release_buttons buttons) ≡ was
unfolding key_down release_buttons
key_down-release_buttons k was [] = refl
key_down-release_buttons k was (c ∷ buttons) =
    key_down-append k was (release_buttons buttons) (button c release ∷ [])
    ∙ key_down-release_buttons k was buttons

button_down-release_keys :
    (b : Button) (was : Bool) (keys : List InjectedKey)
    → button_down b was (release_keys keys) ≡ was
unfolding button_down release_keys
button_down-release_keys b was [] = refl
button_down-release_keys b was (j ∷ keys) =
    button_down-append b was (release_keys keys) (key j release ∷ [])
    ∙ button_down-release_keys b was keys

-- The keys and buttons that the injector has on its lists are those that are down.
pub record Agrees (injector : InputInjector) : Type 0 where
  pub keys : (k : InjectedKey) → contains k injector.held_keys ≡ key_down k false injector.enigo
  pub buttons : (b : Button) → contains b injector.held_buttons ≡ button_down b false injector.enigo

module _ (injector : InputInjector) (agrees : Agrees injector) where
  -- One command more, and the lists that go with it.
  abbrev pub issued : Command → List InjectedKey → List Button → InputInjector
  issued c keys buttons = record {
    enigo = injector.enigo ++ c ∷ [];
    held_keys = keys;
    held_buttons = buttons;
  }

  issued-Agrees :
      (c : Command) (keys : List InjectedKey) (buttons : List Button)
      → ((k : InjectedKey) → contains k keys ≡ key_after k (contains k injector.held_keys) c)
      → ((b : Button) → contains b buttons ≡ button_after b (contains b injector.held_buttons) c)
      → Agrees (issued c keys buttons)
  unfolding key_down button_down
  issued-Agrees c keys buttons hk hb = record {
    keys = λ k.
        hk k
        ∙ ap (λ w. key_after k w c) (agrees.keys k)
        ∙ sym (key_down-append k false injector.enigo (c ∷ []));
    buttons = λ b.
        hb b
        ∙ ap (λ w. button_after b w c) (agrees.buttons b)
        ∙ sym (button_down-append b false injector.enigo (c ∷ []));
  }

  pub pressed-Agrees :
      (k : InjectedKey)
      → Agrees (issued (key k press) (push_new k injector.held_keys) injector.held_buttons)
  pressed-Agrees k =
      issued-Agrees (key k press) (push_new k injector.held_keys) injector.held_buttons
        (λ j. ground (arith, contains-push_new j k injector.held_keys)) (λ b. refl)

  pub released-Agrees :
      (k : InjectedKey)
      → Agrees (issued (key k release) (without k injector.held_keys) injector.held_buttons)
  released-Agrees k =
      issued-Agrees (key k release) (without k injector.held_keys) injector.held_buttons
        (λ j. ground (arith, contains-without k j injector.held_keys)) (λ b. refl)

  pub button_pressed-Agrees :
      (c : Button)
      → Agrees (issued (button c press) injector.held_keys (push_new c injector.held_buttons))
  button_pressed-Agrees c =
      issued-Agrees (button c press) injector.held_keys (push_new c injector.held_buttons)
        (λ k. refl) (λ b. ground (arith, contains-push_new b c injector.held_buttons))

  pub button_released-Agrees :
      (c : Button)
      → Agrees (issued (button c release) injector.held_keys (without c injector.held_buttons))
  button_released-Agrees c =
      issued-Agrees (button c release) injector.held_keys (without c injector.held_buttons)
        (λ k. refl) (λ b. ground (arith, contains-without c b injector.held_buttons))

  pub release_all-keys : (k : InjectedKey) → key_down k false (release_all injector).enigo ≡ false
  unfolding release_all
  release_all-keys k = ground (
    arith,
    key_down-append k false injector.enigo
        (release_keys injector.held_keys ++ release_buttons injector.held_buttons),
    key_down-append k (key_down k false injector.enigo) (release_keys injector.held_keys)
        (release_buttons injector.held_buttons),
    key_down-release_keys k (key_down k false injector.enigo) injector.held_keys,
    key_down-release_buttons k
        (key_down k (key_down k false injector.enigo) (release_keys injector.held_keys))
        injector.held_buttons,
    agrees.keys k,
  )

  pub release_all-buttons : (b : Button) → button_down b false (release_all injector).enigo ≡ false
  unfolding release_all
  release_all-buttons b = ground (
    arith,
    button_down-append b false injector.enigo
        (release_keys injector.held_keys ++ release_buttons injector.held_buttons),
    button_down-append b (button_down b false injector.enigo) (release_keys injector.held_keys)
        (release_buttons injector.held_buttons),
    button_down-release_keys b (button_down b false injector.enigo) injector.held_keys,
    button_down-release_buttons b (button_down b false injector.enigo) injector.held_buttons,
    agrees.buttons b,
  )

  pub release_all-Agrees : Agrees (release_all injector)
  unfolding release_all contains
  release_all-Agrees = record {
    keys = λ k. sym (release_all-keys k);
    buttons = λ b. sym (release_all-buttons b);
  }

  pub moved-Agrees :
      (c : Command)
      → ((k : InjectedKey) (w : Bool) → key_after k w c ≡ w)
      → ((b : Button) (w : Bool) → button_after b w c ≡ w)
      → Agrees (issued c injector.held_keys injector.held_buttons)
  moved-Agrees c hk hb =
      issued-Agrees c injector.held_keys injector.held_buttons (λ k. sym (hk k _))
        (λ b. sym (hb b _))
