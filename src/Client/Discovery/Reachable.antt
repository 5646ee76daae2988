-- ===== src/Client/Discovery/Reachable.antt =====
-- The addresses of the servers that were found can be connected to.
use xkvm.Base.{
  ℕ, ◌≤◌, ◌≡◌, ap, ◌∙◌, inl, inr, some, List, [], ◌∷◌, subst, Bool-cases, Option-cases, unwrap_or,
  All, nat_eq, insert, Text, text_beq, text_eq,
}
use xkvm.Client.Addr.{parse_host_port, ok}
use xkvm.Client.Addr.RoundTrip.{IsHost, parse_host_port-format_host_port}
use xkvm.Client.Discovery.{
  Service, Event, resolved, other, DiscoveredServer, first, chosen_address, describe, on_resolved,
  collect, values, insert_by_name, sort_by_name, text_le, discover_servers,
}

-- The printed addresses of a service are hosts, and its port has 16 bits.
abbrev pub IsService : Event → Type 0
IsService other = Unit
IsService (resolved service) =
    All IsHost service.addresses_v4 × All IsHost service.addresses × (service.port ≤ 65535)

-- The address of the server is read back as its host and its port.
abbrev pub IsReachable : DiscoveredServer → Type 0
IsReachable s = (default_port : ℕ) → parse_host_port s.address default_port ≡ ok s.host s.port

abbrev Reaches : List (Text × DiscoveredServer) → Type 0
Reaches = All (λ entry. IsReachable entry.1)

first-IsHost :
    (addresses : List Text) (host : Text)
    → All IsHost addresses
    → first addresses ≡ some host
    → IsHost host
first-IsHost [] host h e = absurd (cc e)
first-IsHost (a ∷ addresses) host (h, hs) e = subst IsHost (ap (λ o. unwrap_or o []) e) h

chosen_address-IsHost :
    (service : Service) (host : Text)
    → All IsHost service.addresses_v4
    → All IsHost service.addresses
    → chosen_address service ≡ some host
    → IsHost host
unfolding chosen_address
chosen_address-IsHost service host h k e = elim (Option-cases (first service.addresses_v4)) [
  | inl v6 ↦ first-IsHost service.addresses host k (rw (chosen_address, v6) at e)
  | inr (a, v4) ↦ first-IsHost service.addresses_v4 host h (v4 ∙ (rw (chosen_address, v4) at e))
]

insert-Reaches :
    (k : Text) (s : DiscoveredServer) (found : List (Text × DiscoveredServer))
    → IsReachable s
    → Reaches found
    → Reaches (insert k s found)
unfolding insert
insert-Reaches k s [] r all = (r, tt)
insert-Reaches k s ((j, t) ∷ found) r (q, all) = elim (Bool-cases (text_beq j k)) [
  | inl e ↦ rw e (r, all)
  | inr e ↦ rw e (q, insert-Reaches k s found r all)
]

on_resolved-Reaches :
    (service : Service) (found : List (Text × DiscoveredServer))
    → IsService (resolved service)
    → Reaches found
    → Reaches (on_resolved service found)
unfolding on_resolved describe
on_resolved-Reaches service found (h, k, p) all = elim (Option-cases (chosen_address service)) [
  | inl e ↦ rw (on_resolved, e) all
  | inr (host, e) ↦
      let host_fits = chosen_address-IsHost service host h k e in
      rw (on_resolved, e)
        (insert-Reaches service.fullname (describe service host) found
          (λ d. parse_host_port-format_host_port host service.port d host_fits p) all)
]

collect-Reaches :
    (events : List Event) (found : List (Text × DiscoveredServer))
    → All IsService events
    → Reaches found
    → Reaches (collect events found)
unfolding collect
collect-Reaches [] found h all = all
collect-Reaches (other ∷ events) found (h, hs) all = collect-Reaches events found hs all
collect-Reaches (resolved service ∷ events) found (h, hs) all =
    collect-Reaches events (on_resolved service found) hs (on_resolved-Reaches service found h all)

insert_by_name-IsReachable :
    (s : DiscoveredServer) (servers : List DiscoveredServer)
    → IsReachable s
    → All IsReachable servers
    → All IsReachable (insert_by_name s servers)
unfolding insert_by_name
insert_by_name-IsReachable s [] r all = (r, tt)
insert_by_name-IsReachable s (t ∷ servers) r (q, all) = elim (Bool-cases (text_le s.name t.name)) [
  | inl e ↦ rw e (r, (q, all))
  | inr e ↦ rw e (q, insert_by_name-IsReachable s servers r all)
]

sorted-IsReachable :
    (found : List (Text × DiscoveredServer))
    → Reaches found
    → All IsReachable (sort_by_name (values found))
unfolding sort_by_name
sorted-IsReachable [] all = tt
sorted-IsReachable ((k, s) ∷ found) (r, all) =
    insert_by_name-IsReachable s (sort_by_name (values found)) r (sorted-IsReachable found all)

-- Every server that is given out can be connected to at its address, if the addresses that were
-- resolved are hosts.
pub discover_servers-IsReachable :
    (events : List Event) → All IsService events → All IsReachable (discover_servers events)
unfolding discover_servers
discover_servers-IsReachable events h =
    sorted-IsReachable (collect events []) (collect-Reaches events [] h tt)
