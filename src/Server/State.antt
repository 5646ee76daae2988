-- ===== src/Server/State.antt =====
-- The state that the connections share, `ServerState` of server/src/server.rs, and `broadcast`. A
-- channel is the list of what was sent into it; `clipboard_tx` is the channel to the clipboard
-- watcher.
use xkvm.Base.{
  ℕ, ◌*◌, ◌≡◌, refl, Bool, Option, none, some, List, [], ◌∷◌, ◌++◌, arith, ◌==◌, if◌then◌else◌,
  nat_eq, lookup, Text, text_eq,
}
use xkvm.Protocol.{Envelope}
use xkvm.RateLimit.{Limiter}
use xkvm.Server.Config.{Config}

-- Connection id to the channel of what goes out on the connection.
abbrev pub Registry : Type 0
Registry = List (ℕ × List Envelope)

pub record ServerState : Type 0 where
  pub config : Config
  pub saved : Config  -- the configuration file
  pub forwarding_enabled : Bool
  pub registry : Registry
  pub file_port : ℕ
  pub pin : Text
  pub rate_limiter : Limiter
  pub clipboard_tx : Option (List Text)

-- 1 MiB.
abbrev pub max_clipboard_bytes : ℕ
max_clipboard_bytes = 1024 * 1024

unfoldable pub broadcast : Envelope → Registry → Registry
broadcast envelope [] = []
broadcast envelope ((id, queue) ∷ registry) =
    (id, queue ++ envelope ∷ []) ∷ broadcast envelope registry

-- `outbound_tx.send` of one connection.
unfoldable pub send_to : ℕ → Envelope → Registry → Registry
send_to id envelope [] = []
send_to id envelope ((j, queue) ∷ registry) =
    if j == id
    then (j, queue ++ envelope ∷ []) ∷ registry
    else (j, queue) ∷ send_to id envelope registry

-- `queue` behind an envelope more.
abbrev pub and_then : Envelope → Option (List Envelope) → Option (List Envelope)
and_then envelope none = none
and_then envelope (some queue) = some (queue ++ envelope ∷ [])

pub lookup-broadcast :
    (id : ℕ) (envelope : Envelope) (registry : Registry)
    → lookup id (broadcast envelope registry) ≡ and_then envelope (lookup id registry)
unfolding broadcast lookup
lookup-broadcast id envelope [] = refl
lookup-broadcast id envelope ((j, queue) ∷ registry) =
    ground (arith, lookup-broadcast id envelope registry)

pub lookup-send_to :
    (id other : ℕ) (envelope : Envelope) (registry : Registry)
    → lookup other (send_to id envelope registry)
      ≡ (if id == other then and_then envelope (lookup other registry) else lookup other registry)
unfolding send_to lookup
lookup-send_to id other envelope [] = ground arith
lookup-send_to id other envelope ((j, queue) ∷ registry) =
    ground (arith, lookup-send_to id other envelope registry)
