-- ===== src/Examples/Wire.antt =====
-- The wire protocol and the addresses at concrete inputs.
use xkvm.Base.{
  ℕ, ◌≡◌, refl, Option, none, some, List, [], ◌∷◌, ◌++◌, arith, ◌==◌, if◌then◌else◌, nat_eq,
  contains, codes, text_eq, is_whitespace,
}
use xkvm.Client.Addr
use xkvm.Base.Bytes.{u32_to_be}
use xkvm.Protocol.{Envelope, ping}
use xkvm.Protocol.Framing.{Bincode, ok, send_envelope}
use xkvm.Protocol.Framing.RoundTrip.{
  IsFaithful, send_envelopes, read_envelopes, read_envelopes-send_envelopes,
}
use xkvm.Client.Addr.{parse_host_port, format_host_port}
use xkvm.Client.Addr.RoundTrip.{parse_host_port-format_host_port}

abbrev short_proof : List ℕ
short_proof = 1 ∷ 2 ∷ []

abbrev other_proof : List ℕ
other_proof = 1 ∷ 3 ∷ []

-- A serializer that knows pings only.
abbrev serialize_ping : Envelope → Option (List ℕ)
serialize_ping (ping n) = some (12 ∷ n ∷ [])
serialize_ping _ = none

abbrev deserialize_ping : List ℕ → Option Envelope
deserialize_ping (tag ∷ n ∷ []) = if tag == 12 then some (ping n) else none
deserialize_ping _ = none

abbrev pings : Bincode
pings = record { serialize = serialize_ping; deserialize = deserialize_ping }

pings-IsFaithful : IsFaithful pings
pings-IsFaithful (ping n) bytes h = ground arith
pings-IsFaithful _ bytes h = absurd (ground arith)

abbrev ping_frame : List ℕ
ping_frame = 0 ∷ 0 ∷ 0 ∷ 2 ∷ 12 ∷ 7 ∷ []

abbrev two_pings : List ℕ
two_pings = 9 ∷ 0 ∷ 0 ∷ 0 ∷ 2 ∷ 12 ∷ 7 ∷ 0 ∷ 0 ∷ 0 ∷ 2 ∷ 12 ∷ 8 ∷ []

read_envelopes-send_envelopes_example :
    (frames : List ℕ) × (two_pings ≡ 9 ∷ frames)
    × (read_envelopes pings 2 (frames ++ 5 ∷ []) ≡ ok (ping 7 ∷ ping 8 ∷ [], 5 ∷ []))
unfolding send_envelopes send_envelope u32_to_be
read_envelopes-send_envelopes_example =
    read_envelopes-send_envelopes pings pings-IsFaithful (ping 7 ∷ ping 8 ∷ []) (9 ∷ []) two_pings
      (5 ∷ []) refl

parse_host_port-format_host_port_example :
    parse_host_port (format_host_port (codes "::1") 4000) 80 ≡ Addr.ok (codes "::1") 4000
unfolding is_whitespace contains
parse_host_port-format_host_port_example =
    parse_host_port-format_host_port (codes "::1") 4000 80 (refl, refl) (omega arith)
