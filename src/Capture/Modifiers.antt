-- ===== src/Capture/Modifiers.antt =====
-- The modifier mask and the hotkey chord: `compute_modifiers` and `chord_satisfied` of
-- server/src/capture.rs, and `HotkeyChord` of server/src/hotkey.rs.
use Prim.Native.Nat.{bit_and, bit_or}
use xkvm.Base.{
  ℕ, ◌≡◌, Bool, not, ◌&&◌, ◌||◌, List, arith, ◌==◌, if◌then◌else◌, nat_eq, contains, text_eq,
}
use xkvm.Protocol.{ctrl_bit, alt_bit, shift_bit, meta_bit}
use xkvm.Keys.{
  Key, control_left, control_right, alt, alt_gr, shift_left, shift_right, meta_left, meta_right,
  key_eq,
}

pub record HotkeyChord : Type 0 where
  pub ctrl : Bool
  pub alt : Bool
  pub shift : Bool
  pub meta : Bool
  pub key : Key

-- `if set { mask |= bit }`.
abbrev or_if : Bool → ℕ → ℕ → ℕ
or_if set bit mask = if set then bit_or mask bit else mask

abbrev pub ctrl_held : List Key → Bool
ctrl_held pressed = contains control_left pressed || contains control_right pressed

abbrev pub alt_held : List Key → Bool
alt_held pressed = contains alt pressed || contains alt_gr pressed

abbrev pub shift_held : List Key → Bool
shift_held pressed = contains shift_left pressed || contains shift_right pressed

abbrev pub meta_held : List Key → Bool
meta_held pressed = contains meta_left pressed || contains meta_right pressed

abbrev mask : Bool → Bool → Bool → Bool → ℕ
mask c a s m = or_if m meta_bit (or_if s shift_bit (or_if a alt_bit (or_if c ctrl_bit 0)))

unfoldable pub compute_modifiers : List Key → ℕ
compute_modifiers pressed =
    mask (ctrl_held pressed) (alt_held pressed) (shift_held pressed) (meta_held pressed)

unfoldable pub chord_satisfied : HotkeyChord → ℕ → Bool
chord_satisfied hk mods =
    let required = mask hk.ctrl hk.alt hk.shift hk.meta in bit_and mods required == required

-- The test `a → b`.
abbrev pub implies : Bool → Bool → Bool
implies a b = not a || b

mask_covers :
    (c a s m c' a' s' m' : Bool)
    → (bit_and (mask c a s m) (mask c' a' s' m') == mask c' a' s' m')
      ≡ (implies c' c && (implies a' a && (implies s' s && implies m' m)))
mask_covers c a s m c' a' s' m' = ground arith

-- A chord is satisfied exactly if each modifier that it asks for is held, on either side of the
-- keyboard; other modifiers may be held too.
chord_satisfied-compute_modifiers :
    (hk : HotkeyChord) (pressed : List Key)
    → chord_satisfied hk (compute_modifiers pressed) ≡ (
        implies hk.ctrl (ctrl_held pressed)
        && (implies hk.alt (alt_held pressed)
            && (implies hk.shift (shift_held pressed) && implies hk.meta (meta_held pressed))))
unfolding chord_satisfied compute_modifiers
chord_satisfied-compute_modifiers hk pressed =
    mask_covers (ctrl_held pressed) (alt_held pressed) (shift_held pressed) (meta_held pressed)
      hk.ctrl hk.alt hk.shift hk.meta
