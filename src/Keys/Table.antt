-- ===== src/Keys/Table.antt =====
-- What the key tables of server/src/capture.rs and client/src/inject.rs say together.
use xkvm.Base.{
  ℕ, ◌+◌, ◌-◌, ◌^◌, ◌<◌, ◌≡◌, refl, sym, ap, ◌∙◌, Bool, true, false, arith, ltb, if◌then◌else◌,
  is_some, nat_eq, text_eq,
}
use xkvm.Keys.{Key, num_lock, unknown, key_to_code, key_of_code}
use xkvm.Keys.Injected.{Platform, windows, linux, macos, code_to_key}

-- A key of the table, and not `Unknown`.
abbrev pub IsCanonical : Key → Type 0
IsCanonical (unknown n) = ⊥
IsCanonical key = Unit

-- An unknown key whose code can be added to 0x1_0000 in 32 bits; so is every canonical key.
abbrev pub Fits : Key → Type 0
Fits (unknown n) = n < 2 ^ 32 - 2 ^ 16
Fits key = Unit

decode : ℕ → Key
unfolding key_of_code
decode c = if ltb c 0x1_0000 then key_of_code c else unknown (c - 0x1_0000)

decode-key_to_code : (key : Key) → Fits key → decode (key_to_code key) ≡ key
unfolding decode key_to_code
decode-key_to_code (unknown n) h = ground arith
decode-key_to_code key h = refl

-- Two keys have different codes, as long as the code of an unknown key does not wrap.
key_to_code_injective : (a b : Key) → Fits a → Fits b → key_to_code a ≡ key_to_code b → a ≡ b
key_to_code_injective a b ha hb h =
    sym (decode-key_to_code a ha) ∙ ap decode h ∙ decode-key_to_code b hb

-- The keys that the client can press: all canonical ones, but for NumLock on macOS.
abbrev pub is_injectable : Platform → Key → Bool
is_injectable p (unknown n) = false
is_injectable macos num_lock = false
is_injectable p key = true

-- On each platform the client finds a key for the code of every canonical key, but for NumLock on
-- macOS, which client/tests/keymap_consistency.rs also asks for there, and for no unknown key whose
-- code does not wrap.
pub code_to_key-key_to_code :
    (p : Platform) (key : Key)
    → Fits key
    → is_some (code_to_key p (key_to_code key)) ≡ is_injectable p key
unfolding key_to_code code_to_key
code_to_key-key_to_code windows (unknown n) h = ground arith
code_to_key-key_to_code linux (unknown n) h = ground arith
code_to_key-key_to_code macos (unknown n) h = ground arith
code_to_key-key_to_code windows _ h = refl
code_to_key-key_to_code linux _ h = refl
code_to_key-key_to_code macos _ h = refl

canonical-lt : (key : Key) → IsCanonical key → key_to_code key < 2 ^ 16
unfolding key_to_code
canonical-lt (unknown n) h = absurd h
canonical-lt _ h = omega arith

-- The addition of `u32` wraps for the highest unknown keys: each canonical key has an unknown key
-- with the same code.
unknown_collides :
    (key : Key)
    → IsCanonical key
    → (n : ℕ) × (n < 2 ^ 32) × (key_to_code (unknown n) ≡ key_to_code key)
unfolding key_to_code
unknown_collides (unknown n) h = absurd h
unknown_collides key h =
    let small = canonical-lt key h in (2 ^ 32 - 2 ^ 16 + key_to_code key, omega arith, omega arith)
