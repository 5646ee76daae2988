-- ===== src/Client/Inject/Effects.antt =====
-- What an event of the server does to the keys and the buttons of the client.
use xkvm.Base.{
  ◌≡◌, refl, sym, ◌∙◌, inl, inr, Bool, true, false, not, ◌&&◌, ◌||◌, Option, none, some, List, [],
  ◌∷◌, ◌++◌, arith, Bool-cases, nat_eq, text_eq,
}
use mathlib.Core.Bool.{false≢true}
use xkvm.Base.Int.{ℤ, is_zero}
use xkvm.Protocol.{Event}
use xkvm.Keys.Injected.{Platform, InjectedKey, injected_eq, code_to_key}
use xkvm.Client.Inject.{
  InputInjector, Button, button_eq, press, release, key, button, Command, convert_mouse_button,
  inject, press_key, release_key, scroll_x, scroll_y,
}
use xkvm.Client.Inject.Held.{
  key_down, button_down, key_after, button_after, key_down-append, button_down-append,
}

-- Whether the code stands for the key.
abbrev pub is_code_of : Option InjectedKey → InjectedKey → Bool
is_code_of none k = false
is_code_of (some j) k = injected_eq.beq j k

-- A key that is up or down, after an event that is no `ReleaseAll`.
unfoldable pub key_effect : Platform → InjectedKey → Event → Bool → Bool
key_effect p k (Event.key_press code mods) was = is_code_of (code_to_key p code) k || was
key_effect p k (Event.key_release code mods) was = not (is_code_of (code_to_key p code) k) && was
key_effect p k _ was = was

unfoldable pub button_effect : Button → Event → Bool → Bool
button_effect b (Event.mouse_button_press c) was = button_eq.beq (convert_mouse_button c) b || was
button_effect b (Event.mouse_button_release c) was =
    not (button_eq.beq (convert_mouse_button c) b) && was
button_effect b _ was = was

abbrev pub is_release_all : Event → Bool
is_release_all Event.release_all = true
is_release_all _ = false

one_key :
    (k : InjectedKey) (c : Command) (xs : List Command)
    → key_down k false (xs ++ c ∷ []) ≡ key_after k (key_down k false xs) c
unfolding key_down
one_key k c xs = key_down-append k false xs (c ∷ [])

one_button :
    (b : Button) (c : Command) (xs : List Command)
    → button_down b false (xs ++ c ∷ []) ≡ button_after b (button_down b false xs) c
unfolding button_down
one_button b c xs = button_down-append b false xs (c ∷ [])

scroll_y-keys :
    (k : InjectedKey) (z : ℤ) (injector : InputInjector)
    → key_down k false (scroll_y z injector).enigo ≡ key_down k false injector.enigo
unfolding scroll_y
scroll_y-keys k z injector = elim (Bool-cases (is_zero z)) [
  | inl e ↦ rw e refl
  | inr e ↦ rw e (one_key k _ injector.enigo)
]

scroll_x-keys :
    (k : InjectedKey) (z : ℤ) (injector : InputInjector)
    → key_down k false (scroll_x z injector).enigo ≡ key_down k false injector.enigo
unfolding scroll_x
scroll_x-keys k z injector = elim (Bool-cases (is_zero z)) [
  | inl e ↦ rw e refl
  | inr e ↦ rw e (one_key k _ injector.enigo)
]

scroll_y-buttons :
    (b : Button) (z : ℤ) (injector : InputInjector)
    → button_down b false (scroll_y z injector).enigo ≡ button_down b false injector.enigo
unfolding scroll_y
scroll_y-buttons b z injector = elim (Bool-cases (is_zero z)) [
  | inl e ↦ rw e refl
  | inr e ↦ rw e (one_button b _ injector.enigo)
]

scroll_x-buttons :
    (b : Button) (z : ℤ) (injector : InputInjector)
    → button_down b false (scroll_x z injector).enigo ≡ button_down b false injector.enigo
unfolding scroll_x
scroll_x-buttons b z injector = elim (Bool-cases (is_zero z)) [
  | inl e ↦ rw e refl
  | inr e ↦ rw e (one_button b _ injector.enigo)
]

press_key-keys :
    (k : InjectedKey) (o : Option InjectedKey) (injector : InputInjector)
    → key_down k false (press_key o injector).enigo
      ≡ (is_code_of o k || key_down k false injector.enigo)
unfolding press_key
press_key-keys k none injector = refl
press_key-keys k (some j) injector = one_key k (key j press) injector.enigo ∙ ground arith

release_key-keys :
    (k : InjectedKey) (o : Option InjectedKey) (injector : InputInjector)
    → key_down k false (release_key o injector).enigo
      ≡ (not (is_code_of o k) && key_down k false injector.enigo)
unfolding release_key
release_key-keys k none injector = refl
release_key-keys k (some j) injector = one_key k (key j release) injector.enigo ∙ ground arith

press_key-buttons :
    (b : Button) (o : Option InjectedKey) (injector : InputInjector)
    → button_down b false (press_key o injector).enigo ≡ button_down b false injector.enigo
unfolding press_key
press_key-buttons b none injector = refl
press_key-buttons b (some j) injector = one_button b (key j press) injector.enigo

release_key-buttons :
    (b : Button) (o : Option InjectedKey) (injector : InputInjector)
    → button_down b false (release_key o injector).enigo ≡ button_down b false injector.enigo
unfolding release_key
release_key-buttons b none injector = refl
release_key-buttons b (some j) injector = one_button b (key j release) injector.enigo

pub key_down-inject :
    (p : Platform) (k : InjectedKey) (e : Event) (injector : InputInjector)
    → is_release_all e ≡ false
    → key_down k false (inject p e injector).enigo
      ≡ key_effect p k e (key_down k false injector.enigo)
unfolding inject key_effect
key_down-inject p k (Event.mouse_delta dx dy) injector h = one_key k _ injector.enigo
key_down-inject p k (Event.mouse_button_press b) injector h = one_key k _ injector.enigo
key_down-inject p k (Event.mouse_button_release b) injector h = one_key k _ injector.enigo
key_down-inject p k (Event.wheel x y) injector h =
    scroll_x-keys k x (scroll_y y injector) ∙ scroll_y-keys k y injector
key_down-inject p k (Event.key_press code mods) injector h =
    press_key-keys k (code_to_key p code) injector
key_down-inject p k (Event.key_release code mods) injector h =
    release_key-keys k (code_to_key p code) injector
key_down-inject p k Event.release_all injector h = absurd (false≢true (sym h))

pub button_down-inject :
    (p : Platform) (b : Button) (e : Event) (injector : InputInjector)
    → is_release_all e ≡ false
    → button_down b false (inject p e injector).enigo
      ≡ button_effect b e (button_down b false injector.enigo)
unfolding inject button_effect
button_down-inject p b (Event.mouse_delta dx dy) injector h = one_button b _ injector.enigo
button_down-inject p b (Event.mouse_button_press c) injector h =
    one_button b (button (convert_mouse_button c) press) injector.enigo ∙ ground arith
button_down-inject p b (Event.mouse_button_release c) injector h =
    one_button b (button (convert_mouse_button c) release) injector.enigo ∙ ground arith
button_down-inject p b (Event.wheel x y) injector h =
    scroll_x-buttons b x (scroll_y y injector) ∙ scroll_y-buttons b y injector
button_down-inject p b (Event.key_press code mods) injector h =
    press_key-buttons b (code_to_key p code) injector
button_down-inject p b (Event.key_release code mods) injector h =
    release_key-buttons b (code_to_key p code) injector
button_down-inject p b Event.release_all injector h = absurd (false≢true (sym h))
