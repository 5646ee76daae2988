-- ===== src/Protocol/Framing.antt =====
-- Frames: `serialize_envelope`, `deserialize_envelope`, `read_envelope` and `send_envelope` of
-- common/src/lib.rs. A stream is the list of the bytes that are still to be read from it, or of
-- those that were written; `bincode` is a parameter.
pub mod RoundTrip
use xkvm.Base.{
  ℕ, zero, suc, ◌+◌, ◌-◌, ◌*◌, ◌/◌, ◌%◌, ◌^◌, ◌≤◌, ◌<◌, min, max, ◌≡◌, refl, sym, ap, ◌∙◌, ◌≢◌, ◌↔◌,
  ◌⊎◌, inl, inr, Bool, true, false, not, ◌&&◌, ◌||◌, Option, none, some, List, [], ◌∷◌, ◌++◌, map,
  append_assoc, append-nil, arith, subst, ltb, leb, ◌==◌, if◌then◌else◌, ltb→lt, lt→ltb, ltb→le,
  le→ltb, leb→le, le→leb, ==_iff, tests, Bool-cases, Option-cases, is_some, unwrap_or, ◌>>=◌,
  length, take, drop, All, length-append, take-append-drop, length-take, length-drop, take-append,
  drop-append, All-append, Eq, nat_eq, lookup, insert, remove, lookup-insert, lookup-insert_self,
  lookup-remove, contains, add, without, contains-add, contains-without, Text, codes, text_beq,
  text_beq_iff, text_eq, utf8, byte_len, is_whitespace,
}
use xkvm.Base.Bytes.{u32_to_be, u32_from_be}
use xkvm.Protocol.{Envelope, max_envelope_size}

-- `bincode::serialize` and `bincode::deserialize`; `none` is their error.
pub record Bincode : Type 0 where
  pub serialize : Envelope → Option (List ℕ)
  pub deserialize : List ℕ → Option Envelope

-- The variants of `ProtocolError` that these functions return.
pub data ProtocolError : Type 0 where
  io serialization invalid_message : ProtocolError

pub data Result {ℓ} (A : Type ℓ) : Type ℓ where
  ok : A → Result A
  err : ProtocolError → Result A

-- `stream.read_exact` of `n` bytes: what it reads and what is left, or `UnexpectedEof`.
unfoldable pub read_exact : ℕ → List ℕ → Option (List ℕ × List ℕ)
read_exact n s = if leb n (length s) then some (take n s, drop n s) else none

module _ (b : Bincode) where
  unfoldable pub serialize_envelope : Envelope → Result (List ℕ)
  serialize_envelope e = elim (b.serialize e) [
    | none ↦ err serialization
    | some bytes ↦
        if ltb max_envelope_size (length bytes)
        then err invalid_message
        else ok (u32_to_be (length bytes % 2 ^ 32) ++ bytes)
  ]

  unfoldable pub deserialize_envelope : List ℕ → Result Envelope
  deserialize_envelope bytes = elim (b.deserialize bytes) [
    | none ↦ err serialization
    | some e ↦ ok e
  ]

  -- The body of a frame, once its length is known.
  unfoldable pub read_body : ℕ → List ℕ → Result (Envelope × List ℕ)
  unfolding deserialize_envelope
  read_body len s =
      if ltb max_envelope_size len then err invalid_message else elim (read_exact len s) [
        | none ↦ err io
        | some (bytes, rest) ↦ elim (deserialize_envelope bytes) [
          | ok e ↦ ok (e, rest)
          | err x ↦ err x
        ]
      ]

  unfoldable pub read_envelope : List ℕ → Result (Envelope × List ℕ)
  unfolding read_body
  read_envelope s = elim (read_exact 4 s) [
    | none ↦ err io
    | some (header, rest) ↦ read_body (u32_from_be header) rest
  ]

  -- What was written before, and the frame behind it.
  unfoldable pub send_envelope : Envelope → List ℕ → Result (List ℕ)
  unfolding serialize_envelope
  send_envelope e written = elim (serialize_envelope e) [
    | err x ↦ err x
    | ok bytes ↦ ok (written ++ bytes)
  ]
