-- ===== src/Server/Start.antt =====
-- The start of the server: `Config::load_or_default` of server/src/config.rs, and what `run_server`
-- of server/src/server.rs sets up before it accepts a connection.
pub mod Restart
pub mod Unbound
pub mod Revoked
use xkvm.Base.{
  ℕ, zero, suc, ◌+◌, ◌-◌, ◌*◌, ◌/◌, ◌%◌, ◌^◌, ◌≤◌, ◌<◌, min, max, ◌≡◌, refl, sym, ap, ◌∙◌, ◌≢◌, ◌↔◌,
  ◌⊎◌, inl, inr, Bool, true, false, not, ◌&&◌, ◌||◌, Option, none, some, List, [], ◌∷◌, ◌++◌, map,
  append_assoc, append-nil, arith, subst, ltb, leb, ◌==◌, if◌then◌else◌, ltb→lt, lt→ltb, ltb→le,
  le→ltb, leb→le, le→leb, ==_iff, tests, Bool-cases, Option-cases, is_some, unwrap_or, ◌>>=◌,
  length, take, drop, All, length-append, take-append-drop, length-take, length-drop, take-append,
  drop-append, All-append, Eq, nat_eq, lookup, insert, remove, lookup-insert, lookup-insert_self,
  lookup-remove, contains, add, without, contains-add, contains-without, contains-append, Text,
  codes, text_beq, text_beq_iff, text_eq, utf8, byte_len, is_whitespace, is_nil, trim_start,
  trim_end, trim,
}
use xkvm.Capture.Modifiers.{HotkeyChord}
use xkvm.Capture.Process
use xkvm.Capture.Types.{CaptureState}
use xkvm.Hotkey.{parse_hotkey}
use xkvm.Hotkey
use xkvm.Client.Handshake.{Casing}
use xkvm.Server.Config.{Config}
use xkvm.Server.State.{ServerState}

-- The configuration file: it is not there, it cannot be read, or its text.
pub data File : Type 0 where
  absent unreadable : File
  holds : Text → File

-- `none` is an error: the file cannot be read or parsed.
unfoldable pub load_or_default :
    (defaults : Config) → (parse : Text → Option Config) → File → Option Config
load_or_default defaults parse absent = some defaults
load_or_default defaults parse unreadable = none
load_or_default defaults parse (holds content) = parse content

-- The shared state; `opens_clipboard` says whether the clipboard could be opened.
unfoldable pub first_state :
    Config
    → (opens_clipboard forwarding_enabled : Bool) → (file_port : ℕ) → (pin : Text) → ServerState
first_state config opens_clipboard forwarding_enabled file_port pin = record {
  config = config;
  saved = config;
  forwarding_enabled = forwarding_enabled;
  registry = [];
  file_port = file_port;
  pin = pin;
  rate_limiter = [];
  clipboard_tx = if config.clipboard_sync && opens_clipboard then some [] else none;
}

abbrev chord_of : Hotkey.Result HotkeyChord → Option HotkeyChord
chord_of (Hotkey.ok chord) = some chord
chord_of (Hotkey.err e) = none

-- The hotkey of the configuration; one that does not parse only switches toggling by a key off.
unfoldable pub registered_hotkey : Casing → Config → Option HotkeyChord
registered_hotkey casing config = chord_of (parse_hotkey casing config.hotkey.toggle_forward)

-- The capture that is started; `zero_f` is 0.0.
unfoldable pub first_capture : {F : Type 0} → F → Casing → Config → Bool → CaptureState F
unfolding registered_hotkey Process.start
first_capture zero_f casing config forwarding_enabled =
    Process.start zero_f forwarding_enabled (registered_hotkey casing config)
