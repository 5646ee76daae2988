-- ===== src/Client/Inject.antt =====
-- The injector of client/src/inject.rs. `enigo` is the list of the commands that it was given,
-- whose failures the code ignores.
pub mod Held
pub mod Effects
pub mod Release
use xkvm.Base.{
  ℕ, zero, suc, ◌+◌, ◌-◌, ◌*◌, ◌/◌, ◌%◌, ◌^◌, ◌≤◌, ◌<◌, min, max, ◌≡◌, refl, sym, ap, ◌∙◌, ◌≢◌, ◌↔◌,
  ◌⊎◌, inl, inr, Bool, true, false, not, ◌&&◌, ◌||◌, Option, none, some, List, [], ◌∷◌, ◌++◌, map,
  append_assoc, append-nil, arith, subst, ltb, leb, ◌==◌, if◌then◌else◌, ltb→lt, lt→ltb, ltb→le,
  le→ltb, leb→le, le→leb, ==_iff, tests, Bool-cases, Option-cases, is_some, unwrap_or, ◌>>=◌,
  length, take, drop, All, length-append, take-append-drop, length-take, length-drop, take-append,
  drop-append, All-append, Eq, nat_eq, lookup, insert, remove, lookup-insert, lookup-insert_self,
  lookup-remove, contains, add, without, contains-add, contains-without, Text, codes, text_beq,
  text_beq_iff, text_eq, utf8, byte_len, is_whitespace,
}
use xkvm.Base.Int.{ℤ, neg, is_zero}
use xkvm.Protocol.{Event, MouseButton}
use xkvm.Keys.Injected.{Platform, InjectedKey, injected_eq, code_to_key}

-- `enigo::Button`, as far as it is used.
pub data Button : Type 0 where
  left right middle back forward : Button

unfoldable pub button_beq : Button → Button → Bool
button_beq left left = true
button_beq right right = true
button_beq middle middle = true
button_beq back back = true
button_beq forward forward = true
button_beq _ _ = false

pub button_beq_iff : (a b : Button) → (button_beq a b ≡ true) ↔ (a ≡ b)
unfolding button_beq
button_beq_iff left b = ground arith
button_beq_iff right b = ground arith
button_beq_iff middle b = ground arith
button_beq_iff back b = ground arith
button_beq_iff forward b = ground arith

instance abbrev pub button_eq : Eq Button
button_eq = record { beq = button_beq; beq_iff = button_beq_iff }

pub data Direction : Type 0 where
  press release : Direction

pub data Command : Type 0 where
  move_mouse : (dx dy : ℤ) → Command
  button : Button → Direction → Command
  scroll_vertical scroll_horizontal : ℤ → Command
  key : InjectedKey → Direction → Command

pub record InputInjector : Type 0 where
  pub enigo : List Command
  pub held_keys : List InjectedKey
  pub held_buttons : List Button

unfoldable pub new : InputInjector
new = record { enigo = []; held_keys = []; held_buttons = [] }

unfoldable pub convert_mouse_button : MouseButton → Button
convert_mouse_button MouseButton.left = Button.left
convert_mouse_button MouseButton.right = Button.right
convert_mouse_button MouseButton.middle = Button.middle
convert_mouse_button MouseButton.back = Button.back
convert_mouse_button MouseButton.forward = Button.forward

-- `if !held.contains(&x) { held.push(x) }`.
unfoldable pub push_new {ℓ} : {A : Type ℓ} ⦃e : Eq A⦄ → A → List A → List A
push_new x held = if contains x held then held else held ++ x ∷ []

-- One release for each entry, the last one first.
unfoldable pub release_keys : List InjectedKey → List Command
release_keys [] = []
release_keys (k ∷ keys) = release_keys keys ++ key k release ∷ []

unfoldable pub release_buttons : List Button → List Command
release_buttons [] = []
release_buttons (b ∷ buttons) = release_buttons buttons ++ button b release ∷ []

unfoldable pub release_all : InputInjector → InputInjector
release_all injector = record {
  enigo =
      injector.enigo ++ (release_keys injector.held_keys ++ release_buttons injector.held_buttons);
  held_keys = [];
  held_buttons = [];
}

abbrev command : Command → InputInjector → InputInjector
command c injector = record injector { enigo = injector.enigo ++ c ∷ [] }

press_key : Option InjectedKey → InputInjector → InputInjector
unfolding push_new
press_key none injector = injector
press_key (some k) injector = record injector {
  enigo = injector.enigo ++ key k press ∷ [];
  held_keys = push_new k injector.held_keys;
}

release_key : Option InjectedKey → InputInjector → InputInjector
release_key none injector = injector
release_key (some k) injector = record injector {
  enigo = injector.enigo ++ key k release ∷ [];
  held_keys = without k injector.held_keys;
}

-- Up is positive in `rdev`, and down in `enigo`.
unfoldable pub scroll_y : ℤ → InputInjector → InputInjector
scroll_y delta_y injector =
    if is_zero delta_y then injector else command (scroll_vertical (neg delta_y)) injector

unfoldable pub scroll_x : ℤ → InputInjector → InputInjector
scroll_x delta_x injector =
    if is_zero delta_x then injector else command (scroll_horizontal delta_x) injector

unfoldable pub inject : Platform → Event → InputInjector → InputInjector
unfolding press_key release_key scroll_x scroll_y
inject p (Event.mouse_delta dx dy) injector = command (move_mouse dx dy) injector
inject p (Event.mouse_button_press b) injector = record injector {
  enigo = injector.enigo ++ button (convert_mouse_button b) press ∷ [];
  held_buttons = push_new (convert_mouse_button b) injector.held_buttons;
}
inject p (Event.mouse_button_release b) injector = record injector {
  enigo = injector.enigo ++ button (convert_mouse_button b) release ∷ [];
  held_buttons = without (convert_mouse_button b) injector.held_buttons;
}
inject p (Event.wheel delta_x delta_y) injector = scroll_x delta_x (scroll_y delta_y injector)
inject p (Event.key_press code modifiers) injector = press_key (code_to_key p code) injector
inject p (Event.key_release code modifiers) injector = release_key (code_to_key p code) injector
inject p Event.release_all injector = release_all injector

unfoldable pub inject_all : Platform → List Event → InputInjector → InputInjector
unfolding inject
inject_all p [] injector = injector
inject_all p (event ∷ events) injector = inject_all p events (inject p event injector)
