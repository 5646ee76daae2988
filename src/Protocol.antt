-- ===== src/Protocol.antt =====
-- The wire protocol of common/src/lib.rs: its constants, events and envelopes. A `u8`, `u16`,
-- `u32` or `u64` is a natural number, an `i32` an integer, a byte array a list of bytes and a
-- `Uuid` its number. `Protocol.Framing` has the length-prefixed frames, `Protocol.Proof` the
-- pairing proof.
pub mod Framing
pub mod Proof
use xkvm.Base.{
  ℕ, zero, suc, ◌+◌, ◌-◌, ◌*◌, ◌/◌, ◌%◌, ◌^◌, ◌≤◌, ◌<◌, min, max, ◌≡◌, refl, sym, ap, ◌∙◌, ◌≢◌, ◌↔◌,
  ◌⊎◌, inl, inr, Bool, true, false, not, ◌&&◌, ◌||◌, Option, none, some, List, [], ◌∷◌, ◌++◌, map,
  append_assoc, append-nil, arith, subst, ltb, leb, ◌==◌, if◌then◌else◌, ltb→lt, lt→ltb, ltb→le,
  le→ltb, leb→le, le→leb, ==_iff, tests, Bool-cases, Option-cases, is_some, unwrap_or, ◌>>=◌,
  length, take, drop, All, length-append, take-append-drop, length-take, length-drop, take-append,
  drop-append, All-append, Eq, nat_eq, lookup, insert, remove, lookup-insert, lookup-insert_self,
  lookup-remove, contains, add, without, contains-add, contains-without, Text, codes, text_beq,
  text_beq_iff, text_eq, utf8, byte_len, is_whitespace,
}
use xkvm.Base.Int.{ℤ}

abbrev pub protocol_version : Text
protocol_version = codes "0.2.0"

abbrev pub default_control_port : ℕ
default_control_port = 4000

abbrev pub default_file_port : ℕ
default_file_port = 4001

-- 10 MiB.
abbrev pub max_envelope_size : ℕ
max_envelope_size = 10 * 1024 * 1024

pub record Caps : Type 0 where
  pub clipboard : Bool
  pub file_transfer : Bool
  pub internet_share : Bool

abbrev pub default_caps : Caps
default_caps = record { clipboard = true; file_transfer = true; internet_share = false }

pub data MouseButton : Type 0 where
  left right middle back forward : MouseButton

pub data Event : Type 0 where
  mouse_delta : (dx dy : ℤ) → Event
  mouse_button_press : MouseButton → Event
  mouse_button_release : MouseButton → Event
  wheel : (delta_x delta_y : ℤ) → Event
  key_press : (code modifiers : ℕ) → Event
  key_release : (code modifiers : ℕ) → Event
  release_all : Event

pub data Envelope : Type 0 where
  hello : (name version : Text) → Caps → Envelope
  hello_ack : (file_transfer_port : ℕ) → (server_name : Text) → Envelope
  pair_request : (nonce : List ℕ) → (fingerprint : Text) → (proof : List ℕ) → Envelope
  pair_accept : Envelope
  pair_reject : (reason : Text) → Envelope
  toggle_forward : Bool → Envelope
  input : Event → Envelope
  clipboard_set : (text : Text) → Envelope
  file_offer : (id : ℕ) → (name : Text) → (size : ℕ) → (sha256 : List ℕ) → Envelope
  file_accept : (id start_offset : ℕ) → Envelope
  file_reject : (id : ℕ) → (reason : Text) → Envelope
  file_complete : (id : ℕ) → Envelope
  ping : ℕ → Envelope
  pong : ℕ → Envelope
  error : Text → Envelope
  goodbye : Envelope

-- The bits of the modifier mask.
abbrev pub ctrl_bit : ℕ
ctrl_bit = 1

abbrev pub alt_bit : ℕ
alt_bit = 2

abbrev pub shift_bit : ℕ
shift_bit = 4

abbrev pub meta_bit : ℕ
meta_bit = 8
