-- ===== src/Examples/Notices.antt =====
-- Notices, pending connections and the clipboard watcher at concrete inputs.
use xkvm.Base.{
  ℕ, ◌≤◌, ◌≡◌, refl, true, false, none, some, List, [], ◌∷◌, leb, if◌then◌else◌, nat_eq, lookup,
  insert, contains, codes, text_beq, text_eq,
}
use xkvm.Protocol.{Envelope, clipboard_set, release_all, toggle_forward, input}
use xkvm.Server.State.{broadcast}
use xkvm.Server.Forwarder.{Event, rounds, copies, proceeds, Running, step, run}
use xkvm.Server.Credit.{is_covered}
use xkvm.Server.Broadcasts.{run-is_covered}
use xkvm.Server.Pending
use xkvm.Server.Pending.{Listener, listen, accept, max_pending_connections, accept_bounded}
use xkvm.RateLimit.{v4, is_rate_limited}
use xkvm.Server.Pairing.{connect, answer_pair_request, register}
use xkvm.Server.Messages.{received, switch, notices}
use xkvm.Server.Config.{is_paired}
use xkvm.Examples.Setup.{env, state, greeting, paired_request}
use xkvm.Server.Clipboard.{Watcher}

abbrev start : Running
start = record { server = state true [] []; next_id = 0; tasks = [] }

-- The client switches the forwarding off, and a text is copied before all are told.
abbrev events : List Event
events =
    rounds 0 (received 5 (toggle_forward false)) 0
    ∷ proceeds 0
    ∷ copies (codes "x")
    ∷ proceeds 0
    ∷ []

abbrev sent : List Envelope
sent = input release_all ∷ clipboard_set (codes "x") ∷ toggle_forward false ∷ []

run-is_covered_example : is_covered sent ≡ true
unfolding connect lookup insert is_rate_limited is_paired text_beq answer_pair_request register
    broadcast run step switch notices
run-is_covered_example =
    run-is_covered env (v4 1) greeting paired_request events start sent refl refl refl

accept_bounded_example :
    (1 ≤ max_pending_connections)
    × ((accept (accept listen).0).1 ≡ (if leb max_pending_connections 1 then none else some 2))
    × (contains {K = ℕ} 2 (1 ∷ []) ≡ false)
unfolding accept listen
accept_bounded_example =
    accept_bounded (accept listen).0
      (Pending.Reach.next Pending.Reach.here (Pending.Step.accepts listen))

abbrev watcher : Watcher
watcher = record { last_seen = []; clipboard = codes "x" }
