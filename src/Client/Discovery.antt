-- ===== src/Client/Discovery.antt =====
-- Servers found by mDNS: `discover_servers` of client/src/discovery.rs. The browsing itself is a
-- list of events, with each address as it is printed; a hash set is a list in some order.
pub mod Order
pub mod Reachable
use xkvm.Base.{
  ℕ, zero, suc, ◌+◌, ◌-◌, ◌*◌, ◌/◌, ◌%◌, ◌^◌, ◌≤◌, ◌<◌, min, max, ◌≡◌, refl, sym, ap, ◌∙◌, ◌≢◌, ◌↔◌,
  ◌⊎◌, inl, inr, Bool, true, false, not, ◌&&◌, ◌||◌, Option, none, some, List, [], ◌∷◌, ◌++◌, map,
  append_assoc, append-nil, arith, subst, ltb, leb, ◌==◌, if◌then◌else◌, ltb→lt, lt→ltb, ltb→le,
  le→ltb, leb→le, le→leb, ==_iff, tests, Bool-cases, Option-cases, is_some, unwrap_or, ◌>>=◌,
  length, take, drop, All, length-append, take-append-drop, length-take, length-drop, take-append,
  drop-append, All-append, Eq, nat_eq, lookup, insert, remove, lookup-insert, lookup-insert_self,
  lookup-remove, contains, add, without, contains-add, contains-without, contains-append, Text,
  codes, text_beq, text_beq_iff, text_eq, utf8, byte_len, is_whitespace, is_nil, trim_start,
  trim_end, trim,
}
use xkvm.Client.Addr.{format_host_port}

-- `ServiceInfo`.
pub record Service : Type 0 where
  pub fullname : Text
  pub hostname : Text
  pub port : ℕ
  pub addresses_v4 : List Text
  pub addresses : List Text

-- What was received before the deadline: a service that was resolved, or anything else.
pub data Event : Type 0 where
  resolved : Service → Event
  other : Event

pub record DiscoveredServer : Type 0 where
  pub name : Text
  pub host : Text
  pub port : ℕ
  pub address : Text

-- `trim_end_matches('.')`.
unfoldable trim_dots : Text → Text
trim_dots [] = []
trim_dots (c ∷ s) = let rest = trim_dots s in if is_nil rest && (c == b'.') then [] else c ∷ rest

abbrev first : List Text → Option Text
first [] = none
first (a ∷ addresses) = some a

-- An IPv4 address if there is one.
unfoldable pub chosen_address : Service → Option Text
chosen_address service = elim (first service.addresses_v4) [
  | some a ↦ some a
  | none ↦ first service.addresses
]

unfoldable pub describe : Service → Text → DiscoveredServer
unfolding trim_dots
describe service host =
    let name = trim_dots service.hostname in
    record {
      name = if is_nil name then service.fullname else name;
      host = host;
      port = service.port;
      address = format_host_port host service.port;
    }

unfoldable pub on_resolved :
    Service → List (Text × DiscoveredServer) → List (Text × DiscoveredServer)
unfolding chosen_address describe
on_resolved service found = elim (chosen_address service) [
  | none ↦ found
  | some host ↦ insert service.fullname (describe service host) found
]

unfoldable pub collect :
    List Event → List (Text × DiscoveredServer) → List (Text × DiscoveredServer)
unfolding on_resolved
collect [] found = found
collect (resolved service ∷ events) found = collect events (on_resolved service found)
collect (other ∷ events) found = collect events found

-- `str::cmp`: not greater.
unfoldable pub text_le : Text → Text → Bool
text_le [] t = true
text_le (c ∷ s) [] = false
text_le (c ∷ s) (d ∷ t) = let rest = text_le s t in ltb c d || ((c == d) && rest)

-- `sort_by` the names, which keeps the order of equal ones.
unfoldable insert_by_name : DiscoveredServer → List DiscoveredServer → List DiscoveredServer
unfolding text_le
insert_by_name s [] = s ∷ []
insert_by_name s (t ∷ servers) =
    let rest = insert_by_name s servers in
    if text_le s.name t.name then s ∷ (t ∷ servers) else t ∷ rest

unfoldable pub sort_by_name : List DiscoveredServer → List DiscoveredServer
unfolding insert_by_name
sort_by_name [] = []
sort_by_name (s ∷ servers) = insert_by_name s (sort_by_name servers)

abbrev pub values : List (Text × DiscoveredServer) → List DiscoveredServer
values = map (λ entry. entry.1)

unfoldable pub discover_servers : List Event → List DiscoveredServer
unfolding collect sort_by_name
discover_servers events = sort_by_name (values (collect events []))
