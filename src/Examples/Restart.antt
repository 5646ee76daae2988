-- ===== src/Examples/Restart.antt =====
-- The start of the server, and what it leaves in the configuration file, at concrete inputs.
use xkvm.Base.{
  ℕ, ◌-◌, ◌/◌, ◌≡◌, refl, true, false, none, some, List, [], ◌∷◌, leb, All, nat_eq, lookup, insert,
  Text, codes, text_beq, text_eq, utf8, trim,
}
use xkvm.Protocol.{Envelope, default_caps, hello, pair_request, protocol_version}
use xkvm.Protocol.Proof.{pairing_proof, proof_matches}
use xkvm.RateLimit.{v4, is_rate_limited}
use xkvm.Keys.{key_a, key_eq}
use xkvm.Client.Handshake.{Casing}
use xkvm.Hotkey
use xkvm.Hotkey.{parse_hotkey}
use xkvm.Capture.Types.{EventType, key_press, Float, CaptureEvent}
use xkvm.Capture.Types
use xkvm.Server.Config.{Config, is_paired}
use xkvm.Server.State.{ServerState}
use xkvm.Server.Pairing.{Incoming, got, Reply, ok, connect, answer_pair_request, register}
use xkvm.Server.Start.{holds, load_or_default, first_state, first_capture}
use xkvm.Server.Start.Restart.{restart_recognises}
use xkvm.Server.Start.Unbound.{IsInput, unbound_never_toggles}
use xkvm.Server.Start.Revoked.{revoke_in_file, revoked_returns}
use xkvm.EndToEnd.{capture_run}
use xkvm.Examples.Setup
use xkvm.Examples.Setup.{env, config, greeting, paired_request}
use xkvm.Base.Int.{ℤ}

abbrev running : ServerState
running = Setup.state false [] []

-- The configuration is printed as nothing here, and parsed as itself.
restart_recognises_example :
    (loaded : Config) × (load_or_default config (λ content. some config) (holds []) ≡ some loaded)
    × ((connect env 9
          (v4 2)
          (got (hello (codes "pc") protocol_version default_caps))
          (got (pair_request [] (codes "f") []))
          (first_state loaded true false 4001 (codes "99"))).2
        ≡ ok (codes "pc", codes "f"))
unfolding connect is_rate_limited lookup is_paired text_beq answer_pair_request register insert
restart_recognises_example =
    restart_recognises env env 1 9 (v4 1) (v4 2) greeting paired_request running
      (connect env 1 (v4 1) greeting paired_request running).0
      (connect env 1 (v4 1) greeting paired_request running).1 (codes "pc") (codes "pc") (codes "f")
      default_caps [] [] config (λ content. some config) (λ c. []) true false 4001 (codes "99") refl
      refl refl refl (λ n. refl)

abbrev unbound : Config
unbound = record config { hotkey = record { toggle_forward = []; show_panel = [] } }

abbrev inputs : List (Types.Env × EventType ℕ)
inputs =
    (record { now = 1000; display_size = none; simulate_succeeds = false }, key_press key_a) ∷ []

abbrev float : Float ℕ
float = record { sub = ◌-◌; div = ◌/◌; le = leb; of_ℕ = λ n. n; to_i32 = λ n. ℤ.pos n }

abbrev casing : Casing
casing = record { to_lowercase = λ s. s; to_uppercase = λ s. s }

unbound_never_toggles_example :
    All IsInput (capture_run float inputs (first_capture 0 casing unbound true))
unfolding parse_hotkey trim
unbound_never_toggles_example =
    unbound_never_toggles float 0 casing unbound true Hotkey.HotkeyError.empty inputs refl

abbrev newcomer : Incoming
newcomer =
    got (pair_request [] (codes "g") (pairing_proof env.sha256 (codes "1234") [] (codes "g")))

abbrev paired_again : ServerState × List Envelope × Reply (Text × Text)
paired_again = connect env 9 (v4 1) greeting newcomer (revoke_in_file (codes "f") running)

-- `f` is revoked, and `g` pairs.
revoked_returns_example :
    (is_paired (revoke_in_file (codes "f") running).saved (codes "f") ≡ false)
    × (is_paired (revoke_in_file (codes "f") running).config (codes "f") ≡ true)
    × (is_paired paired_again.0.saved (codes "f") ≡ true)
unfolding is_paired lookup text_beq connect answer_pair_request is_rate_limited revoke_in_file
    proof_matches pairing_proof utf8
revoked_returns_example =
    revoked_returns env 9 (v4 1) greeting newcomer running paired_again.0 paired_again.1
      (codes "pc") (codes "g") (codes "f") refl refl refl refl
