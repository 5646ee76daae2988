-- ===== src/Client/Inject/Release.antt =====
-- Nothing stays held on the client.
use xkvm.Base.{
  ◌≡◌, refl, inl, inr, false, List, [], ◌∷◌, Bool-cases, Option-cases, nat_eq, contains, text_eq,
}
use xkvm.Base.Int.{ℤ, neg, is_zero}
use xkvm.Protocol.{Event}
use xkvm.Protocol
use xkvm.Keys.Injected.{Platform, InjectedKey, injected_eq, code_to_key}
use xkvm.Client.Inject.{
  Button, button_eq, move_mouse, scroll_vertical, scroll_horizontal, InputInjector, new,
  convert_mouse_button, release_all, scroll_x, scroll_y, inject, inject_all,
}
use xkvm.Client.Inject.Held.{
  key_down, button_down, Agrees, pressed-Agrees, released-Agrees, button_pressed-Agrees,
  button_released-Agrees, release_all-Agrees, release_all-keys, release_all-buttons, moved-Agrees,
}

scroll_y-Agrees :
    (dy : ℤ) (injector : InputInjector) → Agrees injector → Agrees (scroll_y dy injector)
unfolding scroll_y
scroll_y-Agrees dy i a = elim (Bool-cases (is_zero dy)) [
  | inl e ↦ rw e a
  | inr e ↦ rw e (moved-Agrees i a (scroll_vertical (neg dy)) (λ k w. refl) (λ b w. refl))
]

scroll_x-Agrees :
    (dx : ℤ) (injector : InputInjector) → Agrees injector → Agrees (scroll_x dx injector)
unfolding scroll_x
scroll_x-Agrees dx i a = elim (Bool-cases (is_zero dx)) [
  | inl e ↦ rw e a
  | inr e ↦ rw e (moved-Agrees i a (scroll_horizontal dx) (λ k w. refl) (λ b w. refl))
]

pub inject-Agrees :
    (p : Platform) (event : Event) (injector : InputInjector)
    → Agrees injector
    → Agrees (inject p event injector)
unfolding inject
inject-Agrees p (Protocol.mouse_delta dx dy) i a =
    moved-Agrees i a (move_mouse dx dy) (λ k w. refl) (λ b w. refl)
inject-Agrees p (Protocol.mouse_button_press b) i a =
    button_pressed-Agrees i a (convert_mouse_button b)
inject-Agrees p (Protocol.mouse_button_release b) i a =
    button_released-Agrees i a (convert_mouse_button b)
inject-Agrees p (Protocol.wheel dx dy) i a =
    scroll_x-Agrees dx (scroll_y dy i) (scroll_y-Agrees dy i a)
inject-Agrees p (Protocol.key_press code mods) i a = elim (Option-cases (code_to_key p code)) [
  | inl e ↦ rw e a
  | inr (k, e) ↦ rw e (pressed-Agrees i a k)
]
inject-Agrees p (Protocol.key_release code mods) i a = elim (Option-cases (code_to_key p code)) [
  | inl e ↦ rw e a
  | inr (k, e) ↦ rw e (released-Agrees i a k)
]
inject-Agrees p Protocol.release_all i a = release_all-Agrees i a

inject_all-Agrees :
    (p : Platform) (events : List Event) (injector : InputInjector)
    → Agrees injector
    → Agrees (inject_all p events injector)
unfolding inject_all
inject_all-Agrees p [] i a = a
inject_all-Agrees p (event ∷ events) i a =
    inject_all-Agrees p events (inject p event i) (inject-Agrees p event i a)

pub new-Agrees : Agrees new
unfolding new key_down button_down contains
new-Agrees = record { keys = λ k. refl; buttons = λ b. refl }

-- After any events from the start, the keys and the buttons on the injector's lists are exactly
-- those that it has pressed and not released.
inject_all-held :
    (p : Platform) (events : List Event) (k : InjectedKey) (b : Button)
    → let injector = inject_all p events new in
      (contains k injector.held_keys ≡ key_down k false injector.enigo)
      × (contains b injector.held_buttons ≡ button_down b false injector.enigo)
inject_all-held p events k b =
    let a = inject_all-Agrees p events new new-Agrees in (a.keys k, a.buttons b)

-- `release_all` leaves no key and no button down, whatever was injected before.
release_all_frees :
    (p : Platform) (events : List Event) (k : InjectedKey) (b : Button)
    → let injector = release_all (inject_all p events new) in
      (key_down k false injector.enigo ≡ false) × (button_down b false injector.enigo ≡ false)
release_all_frees p events k b =
    let a = inject_all-Agrees p events new new-Agrees in
    (
      release_all-keys (inject_all p events new) a k,
      release_all-buttons (inject_all p events new) a b,
    )
