-- ===== src/Examples/Access.antt =====
-- Connections and their lockout at concrete inputs.
use xkvm.Base.{
  ℕ, ◌≡◌, refl, ◌≢◌, ◌⊎◌, true, false, List, [], ◌∷◌, arith, nat_eq, lookup, insert, Text, codes,
  text_beq, text_eq, utf8,
}
use xkvm.Protocol.{Envelope, pair_request}
use xkvm.Protocol.Proof.{proof_matches, pairing_proof}
use xkvm.RateLimit.{
  IpAddr, v4, ip_beq, Limiter, is_rate_limited, record_pairing_failure, retain_recent,
}
use xkvm.RateLimit.Lockout.{record_failures, times_of}
use xkvm.Server.Config.{is_paired}
use xkvm.Server.Pairing.{got, Reply, ok, connect, answer_pair_request}
use xkvm.Capture.Types.{forwarding_toggled}
use xkvm.Server.State.{ServerState}
use xkvm.Server.Forwarder.{Event, connects, captures, proceeds, proxy_fails, Running, run}
use xkvm.Server.LockedOut.{connect_locked_out}
use xkvm.Server.Authentication.{Proves, connect_authentic, connect_pairs}
use xkvm.Examples.Setup.{env, config, state, greeting, paired_request, stranger_request}

connect_authentic_example :
    (is_rate_limited 1000 [] (v4 1) ≡ false)
    × ((is_paired config (codes "f") ≡ true)
        ⊎ ((nonce : List ℕ) × (proof : List ℕ) × (paired_request
              ≡ got (pair_request nonce (codes "f") proof))
            × Proves env (state false [] []) nonce (codes "f") proof))
    × (is_paired
          (connect env 0 (v4 1) greeting paired_request (state false [] [])).0.config
          (codes "f")
        ≡ true)
unfolding connect is_rate_limited lookup is_paired text_beq answer_pair_request
connect_authentic_example =
    connect_authentic env 0 (v4 1) (state false [] []) greeting paired_request
      (connect env 0 (v4 1) greeting paired_request (state false [] [])).0
      (connect env 0 (v4 1) greeting paired_request (state false [] [])).1 (codes "pc") (codes "f")
      refl

connect_pairs_example :
    (is_paired config (codes "f") ≡ true)
    ⊎ ((nonce : List ℕ) × (proof : List ℕ) × (stranger_request
          ≡ got (pair_request nonce (codes "f") proof))
        × Proves env (state false [] []) nonce (codes "f") proof
        × (is_rate_limited 1000 [] (v4 1) ≡ false))
unfolding connect is_rate_limited lookup is_paired text_beq answer_pair_request proof_matches
    pairing_proof utf8
connect_pairs_example =
    connect_pairs env 0 (v4 1) (state false [] []) greeting stranger_request (codes "f") refl

-- Failures of two addresses.
abbrev failures : List (ℕ × IpAddr)
failures = (1, v4 1) ∷ (2, v4 1) ∷ (2, v4 2) ∷ (3, v4 1) ∷ (4, v4 1) ∷ []

abbrev limiter : Limiter
limiter = record_failures failures []

abbrev rejected : ServerState × List Envelope × Reply (Text × Text)
rejected = connect env 0 (v4 1) greeting stranger_request (state false [] limiter)

abbrev now : Running
now = record { server = rejected.0; next_id = 1; tasks = [] }

-- What happens in between: the device comes from another address, and the proxy turns somebody
-- away.
abbrev events : List Event
events =
    connects env (v4 2) greeting paired_request
    ∷ proxy_fails 1500 (v4 1)
    ∷ captures (forwarding_toggled false)
    ∷ proceeds 0
    ∷ []

connect_locked_out_example :
    (connect
      (record env { checked_at = 2000 })
      (run events now).next_id
      (v4 1)
      greeting
      paired_request
      (run events now).server).2
    ≢ ok (codes "pc", codes "f")
unfolding connect is_rate_limited lookup is_paired record_failures times_of proof_matches
    pairing_proof text_beq answer_pair_request record_pairing_failure insert ip_beq retain_recent
    utf8
connect_locked_out_example =
    connect_locked_out env (record env { checked_at = 2000 }) 0 (v4 1) (state false [] limiter) now
      failures [] events greeting stranger_request greeting paired_request rejected.1
      (codes "pc", codes "f") refl (omega arith) (ground arith) refl
      (omega arith, (omega arith, (tt, (tt, tt)))) (omega arith)
