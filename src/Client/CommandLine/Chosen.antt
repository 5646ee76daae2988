-- ===== src/Client/CommandLine/Chosen.antt =====
-- The address that the arguments of the client choose.
use xkvm.Base.{
  ℕ, ◌≤◌, ◌≡◌, refl, sym, ap, ◌∙◌, ◌⊎◌, inl, inr, true, false, Option, none, some, List, [], ◌∷◌,
  ◌++◌, arith, subst, Bool-cases, All, nat_eq, contains, contains-append, Text, text_eq,
}
use mathlib.Core.Bool.{false≢true}
use xkvm.Protocol.{default_control_port}
use xkvm.Client.Addr.Decimal.{print_u16}
use xkvm.Client.Addr.{parse_host_port, format_host_port, ok}
use xkvm.Client.Addr.Brackets.{parse_host_port_bracketed}
use xkvm.Client.Addr.RoundTrip.{IsHost, parse_host_port-format_host_port}
use xkvm.Client.Config.{Config}
use xkvm.Client.Discovery.{Event, DiscoveredServer, discover_servers}
use xkvm.Client.Discovery.Reachable.{IsService, IsReachable, discover_servers-IsReachable}
use xkvm.Client.Discovery.Order.{IsLeast, IsSorted, discover_servers-IsSorted}
use xkvm.Client.CommandLine.{Args, starts_with_bracket, connect_to, no_servers, choose_server}

-- An address with a port has a colon.
format_host_port-has_colon :
    (host : Text) (port : ℕ) → contains b':' (format_host_port host port) ≡ true
unfolding format_host_port contains
format_host_port-has_colon host port = elim (Bool-cases (contains b':' host)) [
  | inl v6 ↦ rw v6 (ground (arith, contains-append b':' host (b']' ∷ (b':' ∷ print_u16 port))))
  | inr plain ↦ rw plain (ground (arith, contains-append b':' host (b':' ∷ print_u16 port)))
]

no_bracket :
    (host : Text) → IsHost host → contains b':' host ≡ false → starts_with_bracket host ≡ false
no_bracket [] h plain = refl
no_bracket (c ∷ s) h plain = ground (arith, h.1, plain)

list_cases :
    (servers : List DiscoveredServer)
    → (servers ≡ [])
      ⊎ ((s : DiscoveredServer) × (rest : List DiscoveredServer) × (servers ≡ s ∷ rest))
list_cases [] = inl refl
list_cases (s ∷ rest) = inr (s, rest, refl)

module _ (args : Args) (config : Config) (found : Option (List DiscoveredServer)) where
  -- `--server` with a host alone is tried on `--port`, and one with a port of its own on that one.
  choose_server-port :
      (host : Text) (port default_port : ℕ)
      → IsHost host
      → port ≤ 65535
      → (args.server ≡ some host) × (contains b':' host ≡ false) × (args.port ≡ port)
        ⊎ (args.server ≡ some (format_host_port host port))
      → (address : Text) × (choose_server args config found ≡ connect_to address)
        × (parse_host_port address default_port ≡ ok host port)
  unfolding choose_server format_host_port
  choose_server-port host port d h p given =
      let back = parse_host_port-format_host_port host port d h p in
      elim given [
        | inl (alone, plain, same) ↦ (
          host ++ (b':' ∷ print_u16 port),
          rw (alone, plain, no_bracket host h plain, same) refl,
          rw plain at back,
        )
        | inr whole ↦ (
          format_host_port host port,
          rw (whole, format_host_port-has_colon host port) refl,
          back,
        )
      ]

  -- An IPv6 address in brackets without a port is tried on the default port, whatever `--port` is.
  pub choose_server-bracketed :
      (host : Text)
      → contains b':' host ≡ true
      → contains b']' host ≡ false
      → args.server ≡ some (b'[' ∷ (host ++ (b']' ∷ [])))
      → (address : Text) × (choose_server args config found ≡ connect_to address)
        × (parse_host_port address default_control_port ≡ ok host default_control_port)
  unfolding choose_server contains
  choose_server-bracketed host colon bracket given = (
    b'[' ∷ (host ++ (b']' ∷ [])),
    rw given (ground arith),
    parse_host_port_bracketed host default_control_port
        (λ e. absurd (false≢true (ap (contains b':') (sym e) ∙ colon))) bracket,
  )

-- With `--discover` and no `--server`, the client ends without a server only if none was found.
-- Else it connects to a server whose address is read back as its host and port, and no server that
-- was found has a smaller name.
pub choose_server-discover :
    (args : Args) (config : Config) (events : List Event)
    → args.server ≡ none
    → args.discover ≡ true
    → All IsService events
    → ((discover_servers events ≡ [])
        × (choose_server args config (some (discover_servers events)) ≡ no_servers))
      ⊎ ((s : DiscoveredServer) × (rest : List DiscoveredServer) × (discover_servers events
            ≡ s ∷ rest)
          × (choose_server args config (some (discover_servers events)) ≡ connect_to s.address)
          × IsReachable s
          × IsLeast s rest)
unfolding choose_server IsSorted
choose_server-discover args config events no_server discovering services =
    let sorted = (discover_servers-IsSorted events).0 in
    let reachable = discover_servers-IsReachable events services in
    elim (list_cases (discover_servers events)) [
      | inl e ↦ inl (e, rw (no_server, discovering, e) refl)
      | inr (s, rest, e) ↦ inr (
        s,
        rest,
        e,
        rw (no_server, discovering, e) refl,
        (subst (All IsReachable) e reachable).0,
        (subst IsSorted e sorted).0,
      )
    ]
