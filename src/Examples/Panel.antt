-- ===== src/Examples/Panel.antt =====
-- The control panel and the hotkeys at concrete inputs.
use xkvm.Base.{ℕ, ◌*◌, ◌/◌, ◌≡◌, refl, ◌⊎◌, true, false, some, ltb, nat_eq, codes, text_eq}
use xkvm.Ui.{
  ActiveSession, World, reconnecting, ending, goes, set, begin_reset, take_previous, take_session,
  check_install, write_session, get_status, initial, begins, takes, checks, writes, stops, gives_up,
  Reach, start, then_step, RacySteps,
}
use xkvm.Base.Int.{pos, pos_part}
use xkvm.Display.{Float, DisplayInfo}
use xkvm.Ui.Ordered.{token, drives}
use xkvm.Ui.Supervised.{Reach-supervised}
use xkvm.Ui.Races.{ending_races}
use xkvm.Client.Handshake.{Casing}
use xkvm.Hotkey.{parse_hotkey}
use xkvm.Hotkey.Reference.{accepted, hotkey_of, parse_hotkey-hotkey_of}

abbrev session : ActiveSession
session = record {
  cancel = 1;
  address = codes "h:4000";
  server_name = codes "s";
  fingerprint = codes "02";
  file_port = 4001;
  host = codes "h";
}

-- A call that connects, step by step, until it runs its session.
abbrev begun : World
begun = begin_reset true initial

abbrev taken : World
taken = take_previous true 1 begun

abbrev checked : World
checked = check_install true 1 taken

abbrev connected : World
connected = write_session 1 session checked

connected-Reach : Reach connected
unfolding initial begin_reset take_previous take_session check_install set
connected-Reach =
    then_step checked connected
      (then_step taken checked
        (then_step begun taken (then_step initial begun start (begins true initial))
          (takes true 1 begun refl refl))
        (checks 1 taken refl refl))
      (writes 1 session checked refl)

Reach-supervised_example : (connected.cancelled 1 ≡ true) ⊎ (token connected ≡ some 1)
unfolding write_session set drives
Reach-supervised_example = Reach-supervised connected 1 connected-Reach refl

-- A second call that disconnects.
abbrev leaving : World
leaving = begin_reset false connected

-- The session of the call stops, and its reconnection is given up.
abbrev ended : World
ended = goes 1 ending (goes 1 reconnecting connected)

ended-Reach : Reach ended
unfolding initial begin_reset take_previous take_session check_install write_session set
ended-Reach =
    then_step (goes 1 reconnecting connected) ended
      (then_step connected (goes 1 reconnecting connected) connected-Reach (stops 1 connected refl))
      (gives_up 1 (goes 1 reconnecting connected) refl)

ending_races_example :
    (w : World) × RacySteps ended w
    × (drives (w.phase 2) ≡ true)
    × (w.cancelled 2 ≡ ended.cancelled 2)
    × ((get_status w.app).connected ≡ false)
unfolding initial begin_reset take_previous take_session check_install write_session set
ending_races_example = ending_races session ended ended-Reach refl refl

abbrev casing : Casing
casing = record { to_lowercase = λ s. s; to_uppercase = λ s. s }

parse_hotkey-hotkey_of_example :
    accepted (parse_hotkey casing (codes "ctrl + alt+F")) ≡ hotkey_of casing (codes "ctrl + alt+F")
parse_hotkey-hotkey_of_example = parse_hotkey-hotkey_of casing (codes "ctrl + alt+F")

-- Whole numbers in place of `f64`.
abbrev float : Float
float = record {
  F = ℕ;
  of_u32 = λ n. n;
  of_i32 = pos_part;
  one = 1;
  mul = ◌*◌;
  div = ◌/◌;
  round = λ n. n;
  is_finite = λ n. true;
  is_positive = λ n. ltb 0 n;
  to_i32 = pos;
}

abbrev wide : DisplayInfo float
wide = record { width = 3840; height = 2160; scale_factor = 1 }
