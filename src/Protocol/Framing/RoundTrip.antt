-- ===== src/Protocol/Framing/RoundTrip.antt =====
-- What is read back from a stream of frames.
use xkvm.Base.{
  ℕ, zero, suc, ◌+◌, ◌%◌, ◌^◌, ◌≤◌, ◌<◌, ◌≡◌, refl, sym, ap, ◌∙◌, ◌⊎◌, inl, inr, some, List, [],
  ◌∷◌, ◌++◌, append_assoc, append-nil, arith, leb→le, le→leb, Option-cases, length, take, drop,
  length-append, take-append-drop, length-take, take-append, drop-append, nat_eq, text_eq,
}
use xkvm.Base.Bytes.{u32_to_be, u32_from_be, u32_from_be-u32_to_be, length-u32_to_be}
use xkvm.Protocol.{Envelope, max_envelope_size}
use xkvm.Protocol.Framing.{
  Bincode, ProtocolError, invalid_message, Result, ok, err, read_exact, serialize_envelope,
  read_envelope, send_envelope,
}

pub read_exact-append :
    (xs ys : List ℕ) (n : ℕ) → n ≡ length xs → read_exact n (xs ++ ys) ≡ some (xs, ys)
unfolding read_exact
read_exact-append xs ys n h = rw (
  h,
  le→leb (length xs) (length (xs ++ ys)) (omega (arith, length-append {0} xs ys)),
  take-append,
  drop-append,
)

read_exact-eq_some :
    (n : ℕ) (s bytes rest : List ℕ)
    → read_exact n s ≡ some (bytes, rest)
    → (n ≤ length s) × (take n s ≡ bytes) × (drop n s ≡ rest)
unfolding read_exact
read_exact-eq_some n s bytes rest h = ground (arith, leb→le n (length s))

-- What `read_exact` reads is a prefix of the stream of the length that was asked for.
pub read_exact-prefix :
    (n : ℕ) (s bytes rest : List ℕ)
    → read_exact n s ≡ some (bytes, rest)
    → (s ≡ bytes ++ rest) × (length bytes ≡ n)
read_exact-prefix n s bytes rest h =
    let (fits, front, back) = read_exact-eq_some n s bytes rest h in
    (
      rw (← front, ← back) (sym (take-append-drop n s)),
      rw (← front) (omega (arith, length-take {0} n s)),
    )

Result-cases {ℓ} :
    {A : Type ℓ} (r : Result A) → ((a : A) × (r ≡ ok a)) ⊎ ((x : ProtocolError) × (r ≡ err x))
Result-cases (ok a) = inl (a, refl)
Result-cases (err x) = inr (x, refl)

module _ (b : Bincode) where
  -- What the code relies on of bincode: what was serialized is deserialized to the same value.
  abbrev pub IsFaithful : Type 0
  IsFaithful =
      (e : Envelope) (bytes : List ℕ) → b.serialize e ≡ some bytes → b.deserialize bytes ≡ some e

  -- `serialize_envelope` succeeds exactly if bincode does and the body has at most 10 MiB; the
  -- frame is then the length of the body as four bytes, and the body.
  pub serialize_envelope-eq_ok :
      (e : Envelope) (frame : List ℕ)
      → serialize_envelope b e ≡ ok frame
      → (body : List ℕ) × (b.serialize e ≡ some body)
        × (length body ≤ max_envelope_size)
        × (frame ≡ u32_to_be (length body) ++ body)
  unfolding serialize_envelope
  serialize_envelope-eq_ok e frame h = elim (Option-cases (b.serialize e)) [
    | inl q ↦ absurd (ground arith)
    | inr (body, q) ↦ (body, q, ground arith, frame_of body q (ground arith))
  ]
    where
      frame_of :
          (body : List ℕ)
          → b.serialize e ≡ some body
          → length body ≤ max_envelope_size
          → frame ≡ u32_to_be (length body) ++ body
      frame_of body q fits =
          let same : length body % 2 ^ 32 ≡ length body = omega arith in ground arith

  -- A body above 10 MiB is refused by the sender.
  pub serialize_envelope_oversized :
      (e : Envelope) (body : List ℕ)
      → b.serialize e ≡ some body
      → max_envelope_size < length body
      → serialize_envelope b e ≡ err invalid_message
  unfolding serialize_envelope
  serialize_envelope_oversized e body q h = ground arith

  -- A length above 10 MiB is refused by the receiver, whatever follows the four bytes.
  read_envelope_oversized :
      (len : ℕ) (rest : List ℕ)
      → max_envelope_size < len
      → len < 2 ^ 32
      → read_envelope b (u32_to_be len ++ rest) ≡ err invalid_message
  unfolding read_envelope
  read_envelope_oversized len rest h w = ground (
    arith,
    read_exact-append (u32_to_be len) rest 4 (sym (length-u32_to_be len)),
    u32_from_be-u32_to_be len w,
  )

  -- Whatever bytes arrive, what `read_envelope` takes off the stream is a prefix of at most 4 bytes
  -- and 10 MiB.
  pub read_envelope-prefix :
      (s : List ℕ) (e : Envelope) (rest : List ℕ)
      → read_envelope b s ≡ ok (e, rest)
      → (frame : List ℕ) × (s ≡ frame ++ rest) × (length frame ≤ 4 + max_envelope_size)
  unfolding read_envelope
  read_envelope-prefix s e rest h = elim (Option-cases (read_exact 4 s)) [
    | inl q ↦ absurd (ground arith)
    | inr ((header, more), q) ↦
        let (split, four) = read_exact-prefix 4 s header more q in
        let len = u32_from_be header in
        elim (Option-cases (read_exact len more)) [
          | inl q' ↦ absurd (ground arith)
          | inr ((body, rest'), q') ↦
              let (split', size) = read_exact-prefix len more body rest' q' in
              let fits : len ≤ max_envelope_size = ground arith in
              let same : rest' ≡ rest = ground arith in
              (
                header ++ body,
                rw (split, split', same) (sym (append_assoc header body rest)),
                omega (arith, length-append {0} header body),
              )
        ]
  ]

  -- Sending several envelopes, and reading as many.
  unfoldable pub send_envelopes : List Envelope → List ℕ → Result (List ℕ)
  send_envelopes [] written = ok written
  send_envelopes (e ∷ es) written = elim (send_envelope b e written) [
    | err x ↦ err x
    | ok written' ↦ send_envelopes es written'
  ]

  unfoldable pub read_envelopes : ℕ → List ℕ → Result (List Envelope × List ℕ)
  read_envelopes zero s = ok ([], s)
  read_envelopes (suc n) s = elim (read_envelope b s) [
    | err x ↦ err x
    | ok (e, s') ↦ elim (read_envelopes n s') [ err x ↦ err x | ok (es, rest) ↦ ok (e ∷ es, rest) ]
  ]

  send_envelope-eq_ok :
      (e : Envelope) (written written' : List ℕ)
      → send_envelope b e written ≡ ok written'
      → (frame : List ℕ) × (serialize_envelope b e ≡ ok frame) × (written' ≡ written ++ frame)
  unfolding send_envelope
  send_envelope-eq_ok e written written' h = elim (Result-cases (serialize_envelope b e)) [
    | inl (frame, q) ↦ (frame, q, ground arith)
    | inr (x, q) ↦ absurd (ground arith)
  ]

  module _ (faithful : IsFaithful) where
    -- A frame that was serialized is read back to its envelope, and what follows it is left.
    pub read_envelope-serialize_envelope :
        (e : Envelope) (frame rest : List ℕ)
        → serialize_envelope b e ≡ ok frame
        → read_envelope b (frame ++ rest) ≡ ok (e, rest)
    unfolding read_envelope
    read_envelope-serialize_envelope e frame rest h =
        let (body, q, fits, same) = serialize_envelope-eq_ok e frame h in
        let header = u32_to_be (length body) in
        rw (same, append_assoc)
          (ground (
            arith,
            read_exact-append header (body ++ rest) 4 (sym (length-u32_to_be (length body))),
            u32_from_be-u32_to_be (length body) (omega arith),
            read_exact-append body rest (length body) refl,
            faithful e body q,
          ))

    -- Envelopes that were sent one after another are read back in the order in which they were
    -- sent, and what follows them is left.
    pub read_envelopes-send_envelopes :
        (es : List Envelope) (written stream rest : List ℕ)
        → send_envelopes es written ≡ ok stream
        → (frames : List ℕ) × (stream ≡ written ++ frames)
          × (read_envelopes (length es) (frames ++ rest) ≡ ok (es, rest))
    unfolding send_envelopes read_envelopes
    read_envelopes-send_envelopes [] written stream rest h =
        ([], ground (arith, append-nil written), refl)
    read_envelopes-send_envelopes (e ∷ es) written stream rest h =
        elim (Result-cases (send_envelope b e written)) [
          | inr (x, q) ↦ absurd (ground arith)
          | inl (written', q) ↦
              let (frame, ser, same) = send_envelope-eq_ok e written written' q in
              let (frames, split, back) =
                read_envelopes-send_envelopes es written' stream rest (ground arith) in
              (
                frame ++ frames,
                split ∙ ap (λ w. w ++ frames) same ∙ append_assoc written frame frames,
                ground (
                  arith,
                  append_assoc frame frames rest,
                  read_envelope-serialize_envelope e frame (frames ++ rest) ser,
                ),
              )
        ]
