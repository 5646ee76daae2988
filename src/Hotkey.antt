-- ===== src/Hotkey.antt =====
-- The parser of hotkeys, server/src/hotkey.rs.
pub mod Reference
use xkvm.Base.{
  ℕ, zero, suc, ◌+◌, ◌-◌, ◌*◌, ◌/◌, ◌%◌, ◌^◌, ◌≤◌, ◌<◌, min, max, ◌≡◌, refl, sym, ap, ◌∙◌, ◌≢◌, ◌↔◌,
  ◌⊎◌, inl, inr, Bool, true, false, not, ◌&&◌, ◌||◌, Option, none, some, List, [], ◌∷◌, ◌++◌, map,
  append_assoc, append-nil, arith, subst, ltb, leb, ◌==◌, if◌then◌else◌, ltb→lt, lt→ltb, ltb→le,
  le→ltb, leb→le, le→leb, ==_iff, tests, Bool-cases, Option-cases, is_some, unwrap_or, ◌>>=◌,
  length, take, drop, All, length-append, take-append-drop, length-take, length-drop, take-append,
  drop-append, All-append, Eq, nat_eq, lookup, insert, remove, lookup-insert, lookup-insert_self,
  lookup-remove, contains, add, without, contains-add, contains-without, contains-append, Text,
  codes, text_beq, text_beq_iff, text_eq, utf8, byte_len, is_whitespace, is_nil, trim_start,
  trim_end, trim,
}
use xkvm.Keys
use xkvm.Keys.{
  Key, key_a, key_b, key_c, key_d, key_e, key_f, key_g, key_h, key_i, key_j, key_k, key_l, key_m,
  key_n, key_o, key_p, key_q, key_r, key_s, key_t, key_u, key_v, key_w, key_x, key_y, key_z, num0,
  num1, num2, num3, num4, num5, num6, num7, num8, num9, f1, f2, f3, f4, f5, f6, f7, f8, f9, f10,
  f11, f12, space, escape, tab, return, up_arrow, down_arrow, left_arrow, right_arrow, home, end,
  page_up, page_down, delete, backspace, pause, scroll_lock, print_screen, back_quote,
}
use xkvm.Client.Handshake.{Casing}
use xkvm.Capture.Modifiers.{HotkeyChord}

pub data HotkeyError : Type 0 where
  empty multiple_keys no_key unknown_key : HotkeyError

pub data Result {ℓ} (A : Type ℓ) : Type ℓ where
  ok : A → Result A
  err : HotkeyError → Result A

abbrev letter_keys : List (ℕ × Key)
letter_keys =
    (b'A', key_a)
    ∷ (b'B', key_b)
    ∷ (b'C', key_c)
    ∷ (b'D', key_d)
    ∷ (b'E', key_e)
    ∷ (b'F', key_f)
    ∷ (b'G', key_g)
    ∷ (b'H', key_h)
    ∷ (b'I', key_i)
    ∷ (b'J', key_j)
    ∷ (b'K', key_k)
    ∷ (b'L', key_l)
    ∷ (b'M', key_m)
    ∷ (b'N', key_n)
    ∷ (b'O', key_o)
    ∷ (b'P', key_p)
    ∷ (b'Q', key_q)
    ∷ (b'R', key_r)
    ∷ (b'S', key_s)
    ∷ (b'T', key_t)
    ∷ (b'U', key_u)
    ∷ (b'V', key_v)
    ∷ (b'W', key_w)
    ∷ (b'X', key_x)
    ∷ (b'Y', key_y)
    ∷ (b'Z', key_z)
    ∷ []

abbrev digit_keys : List (ℕ × Key)
digit_keys =
    (b'0', num0)
    ∷ (b'1', num1)
    ∷ (b'2', num2)
    ∷ (b'3', num3)
    ∷ (b'4', num4)
    ∷ (b'5', num5)
    ∷ (b'6', num6)
    ∷ (b'7', num7)
    ∷ (b'8', num8)
    ∷ (b'9', num9)
    ∷ []

abbrev named_keys : List (Text × Key)
named_keys =
    (codes "F1", f1)
    ∷ (codes "F2", f2)
    ∷ (codes "F3", f3)
    ∷ (codes "F4", f4)
    ∷ (codes "F5", f5)
    ∷ (codes "F6", f6)
    ∷ (codes "F7", f7)
    ∷ (codes "F8", f8)
    ∷ (codes "F9", f9)
    ∷ (codes "F10", f10)
    ∷ (codes "F11", f11)
    ∷ (codes "F12", f12)
    ∷ (codes "SPACE", space)
    ∷ (codes "ESCAPE", escape)
    ∷ (codes "ESC", escape)
    ∷ (codes "TAB", tab)
    ∷ (codes "ENTER", return)
    ∷ (codes "RETURN", return)
    ∷ (codes "UP", up_arrow)
    ∷ (codes "UPARROW", up_arrow)
    ∷ (codes "DOWN", down_arrow)
    ∷ (codes "DOWNARROW", down_arrow)
    ∷ (codes "LEFT", left_arrow)
    ∷ (codes "LEFTARROW", left_arrow)
    ∷ (codes "RIGHT", right_arrow)
    ∷ (codes "RIGHTARROW", right_arrow)
    ∷ (codes "HOME", home)
    ∷ (codes "END", end)
    ∷ (codes "PAGEUP", page_up)
    ∷ (codes "PAGEDOWN", page_down)
    ∷ (codes "INSERT", Keys.insert)
    ∷ (codes "DELETE", delete)
    ∷ (codes "DEL", delete)
    ∷ (codes "BACKSPACE", backspace)
    ∷ (codes "PAUSE", pause)
    ∷ (codes "SCROLLLOCK", scroll_lock)
    ∷ (codes "PRINTSCREEN", print_screen)
    ∷ (codes "PRTSC", print_screen)
    ∷ (codes "BACKQUOTE", back_quote)
    ∷ (codes "GRAVE", back_quote)
    ∷ (codes "`", back_quote)
    ∷ []

abbrev named : Text → Result Key
named upper = elim (lookup upper named_keys) [ some key ↦ ok key | none ↦ err unknown_key ]

abbrev pub and_then {ℓ κ} : {A : Type ℓ} {B : Type κ} → Result A → (A → Result B) → Result B
and_then (ok a) f = f a
and_then (err e) f = err e

-- The upper-case text: a letter or a digit by itself, or a name.
unfoldable key_of_upper : Text → Result Key
key_of_upper (c ∷ []) =
    if leb b'A' c && leb c b'Z'
    then elim (lookup c letter_keys) [ some key ↦ ok key | none ↦ err unknown_key ]
    else if leb b'0' c && leb c b'9'
    then elim (lookup c digit_keys) [ some key ↦ ok key | none ↦ err unknown_key ]
    else named (c ∷ [])
key_of_upper upper = named upper

-- The parts of a text between the characters `sep`.
unfoldable pub split : ℕ → Text → List Text
split sep [] = [] ∷ []
split sep (c ∷ s) = if c == sep then [] ∷ split sep s else on_first c (split sep s)
  where
    on_first : ℕ → List Text → List Text
    on_first c [] = (c ∷ []) ∷ []
    on_first c (part ∷ parts) = (c ∷ part) ∷ parts

unfoldable pub non_empty : List Text → List Text
non_empty [] = []
non_empty (part ∷ parts) = if is_nil part then non_empty parts else part ∷ non_empty parts

-- The parts that are not blank, trimmed.
unfoldable pub parts_of : Text → List Text
unfolding split non_empty
parts_of s = non_empty (map trim (split b'+' s))

-- What the loop has found.
pub record Found : Type 0 where
  pub ctrl : Bool
  pub alt : Bool
  pub shift : Bool
  pub meta : Bool
  pub key : Option Key

-- What a part is, in lower case.
abbrev pub is_ctrl : Text → Bool
is_ctrl p = text_beq p (codes "ctrl") || text_beq p (codes "control")

abbrev pub is_alt : Text → Bool
is_alt p = text_beq p (codes "alt")

abbrev pub is_shift : Text → Bool
is_shift p = text_beq p (codes "shift")

abbrev pub is_meta : Text → Bool
is_meta p =
    text_beq p (codes "super")
    || text_beq p (codes "win")
    || text_beq p (codes "meta")
    || text_beq p (codes "cmd")

module _ (casing : Casing) where
  unfoldable pub parse_key_name : Text → Result Key
  unfolding key_of_upper
  parse_key_name s = key_of_upper (casing.to_uppercase s)

  -- One round of the loop.
  unfoldable pub parse_part : Text → Found → Result Found
  unfolding parse_key_name
  parse_part part found =
      let p = casing.to_lowercase part in
      if is_ctrl p
      then ok (record found { ctrl = true })
      else if is_alt p
      then ok (record found { alt = true })
      else if is_shift p
      then ok (record found { shift = true })
      else if is_meta p
      then ok (record found { meta = true })
      else elim found.key [
        | some key ↦ err multiple_keys
        | none ↦ and_then (parse_key_name p) (λ key. ok (record found { key = some key }))
      ]

  unfoldable pub parse_parts : List Text → Found → Result Found
  unfolding parse_part
  parse_parts [] found = ok found
  parse_parts (part ∷ parts) found = and_then (parse_part part found) (parse_parts parts)

  abbrev pub nothing_found : Found
  nothing_found = record { ctrl = false; alt = false; shift = false; meta = false; key = none }

  abbrev pub chord_of : Found → Result HotkeyChord
  chord_of found = elim found.key [
    | none ↦ err no_key
    | some key ↦ ok (record {
      ctrl = found.ctrl;
      alt = found.alt;
      shift = found.shift;
      meta = found.meta;
      key = key;
    })
  ]

  unfoldable pub parse_hotkey : Text → Result HotkeyChord
  unfolding parts_of parse_parts
  parse_hotkey s = elim (parts_of s) [
    | [] ↦ err empty
    | part ∷ parts ↦ and_then (parse_parts (part ∷ parts) nothing_found) chord_of
  ]
