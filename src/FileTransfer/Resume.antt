-- ===== src/FileTransfer/Resume.antt =====
-- A transfer that completes, from the start or from a part file.
use xkvm.Base.{
  ℕ, zero, suc, ◌+◌, ◌-◌, ◌^◌, ◌≤◌, ◌<◌, max, ◌≡◌, refl, ap, ◌⊎◌, true, false, not, ◌&&◌, none,
  some, List, [], ◌∷◌, ◌++◌, append_assoc, append-nil, arith, ltb, ◌==◌, ==_iff, length, take,
  length-append, nat_eq, lookup, insert, remove, lookup-insert, lookup-insert_self, lookup-remove,
  Text, text_beq_iff, text_eq,
}
use xkvm.Protocol.{Envelope, pair_request, pair_accept, file_offer, file_accept, file_complete}
use xkvm.Server.Config.{Config, is_paired}
use xkvm.FileTransfer.Names.{sanitize_file_name, Directory, unique_dest_path}
use xkvm.FileTransfer.Unique.{unique_dest_path_free}
use xkvm.FileTransfer.Receive.{
  got, Chunk, bytes, Env, Outcome, Offer, part_name, resumed, receive, finish, close, accept_offer,
  on_offer, handle_transfer,
}

-- Readings that return `data` between them, each of them some bytes.
pub data Delivers : List Chunk → List ℕ → Type 0 where
  done : Delivers [] []
  read :
      (byte : ℕ) (chunk : List ℕ) (chunks : List Chunk) (rest : List ℕ)
      → Delivers chunks rest
      → Delivers (bytes (byte ∷ chunk) ∷ chunks) (byte ∷ chunk ++ rest)

take-le : (n : ℕ) (s : List ℕ) → length s ≤ n → take n s ≡ s
take-le zero [] h = refl
take-le zero (c ∷ s) h = absurd (omega (arith, h))
take-le (suc n) [] h = refl
take-le (suc n) (c ∷ s) h = ap (λ t. c ∷ t) (take-le n s (omega (arith, h)))

receive-Delivers :
    (size : ℕ) (held : List ℕ) (chunks : List Chunk) (rest : List ℕ)
    → Delivers chunks rest
    → size ≡ length held + length rest
    → receive size held chunks ≡ (held ++ rest, true)
unfolding receive
receive-Delivers size held [] [] done l = rw (append-nil held) refl
receive-Delivers size held chunks rest (read byte chunk chunks' rest' d) l =
    rw
      (
        take-le (size - length held) (byte ∷ chunk) (omega (arith, l, length-append chunk rest')),
        receive-Delivers size (held ++ (byte ∷ chunk)) chunks' rest' d
            (omega (arith, l, length-append chunk rest', length-append held (byte ∷ chunk))),
        append_assoc held (byte ∷ chunk) rest',
      )
      refl

length-insert :
    (name : Text) (content : List ℕ) (dir : Directory)
    → length (insert name content dir) ≤ suc (length dir)
unfolding insert
length-insert name content [] = omega arith
length-insert name content ((n, c) ∷ dir) = ground (arith, length-insert name content dir)

-- The directory with the part file, opened and then written.
with_part : Offer → List ℕ → List ℕ → Directory → Directory
with_part offer content held dir =
    insert (part_name (sanitize_file_name offer.name)) content
      (insert (part_name (sanitize_file_name offer.name)) held dir)

length-with_part :
    (offer : Offer) (content held : List ℕ) (dir : Directory)
    → length (with_part offer content held dir) ≤ length dir + 2
unfolding with_part
length-with_part offer content held dir =
    let part = part_name (sanitize_file_name offer.name) in
    omega (arith, length-insert part held dir, length-insert part content (insert part held dir))

module _ (env : Env) (delivers_all : (n : ℕ) → env.delivers n ≡ true) where
  -- What a connection that receives a whole file leaves behind; `before` is what it has sent when
  -- the last byte has arrived.
  pub record IsReceived (before : List Envelope) (offer : Offer) (content : List ℕ)
      (dir : Directory) (outcome : Outcome) : Type 0 where
    final : Text
    is_new : lookup final dir ≡ none
    holds : lookup final outcome.directory ≡ some content
    no_part : lookup (part_name (sanitize_file_name offer.name)) outcome.directory ≡ none
    reports : outcome.sent ≡ before ++ file_complete offer.id ∷ []
    succeeds : outcome.succeeded ≡ true

  finish-IsReceived :
      (offer : Offer) (held content : List ℕ) (dir : Directory) (sent : List Envelope)
      (found : Text)
      → env.sha256 content ≡ offer.sha256
      → unique_dest_path (with_part offer content held dir) (sanitize_file_name offer.name)
        ≡ some found
      → lookup found (with_part offer content held dir) ≡ none
      → IsReceived sent offer content dir
          (finish env offer content (with_part offer content held dir) sent)
  unfolding finish with_part
  finish-IsReceived offer held content dir sent found h f free =
      let part = part_name (sanitize_file_name offer.name) in
      rw ((text_beq_iff (env.sha256 content) offer.sha256).1 h, f)
        (record {
          final = found;
          is_new = ground (
            arith,
            lookup-insert {0, 0} part found content (insert part held dir),
            lookup-insert {0, 0} part found held dir,
            free,
          );
          holds = lookup-insert_self found content (remove part (with_part offer content held dir));
          no_part = ground (
            arith,
            lookup-insert {0, 0} found part content
                (remove part (with_part offer content held dir)),
            lookup-remove {0, 0} part part (with_part offer content held dir),
            text_beq_iff found part,
            text_beq_iff part part,
            lookup-insert_self part content (insert part held dir),
            free,
          );
          reports = rw (delivers_all (length sent)) refl;
          succeeds = refl;
        })

  accept_offer-IsReceived :
      (offer : Offer) (chunks : List Chunk) (rest : List ℕ) (dir : Directory) (sent : List Envelope)
      → Delivers chunks rest
      → offer.size
        ≡ length (resumed dir (part_name (sanitize_file_name offer.name)) offer.size) + length rest
      → env.sha256 (resumed dir (part_name (sanitize_file_name offer.name)) offer.size ++ rest)
        ≡ offer.sha256
      → length dir + 4 < 10 ^ 20
      → IsReceived
          (sent
            ++ file_accept offer.id
                (length (resumed dir (part_name (sanitize_file_name offer.name)) offer.size))
              ∷ [])
          offer
          (resumed dir (part_name (sanitize_file_name offer.name)) offer.size ++ rest)
          dir
          (accept_offer env offer chunks dir sent)
  unfolding accept_offer close with_part
  accept_offer-IsReceived offer chunks rest dir sent d l h b =
      let held = resumed dir (part_name (sanitize_file_name offer.name)) offer.size in
      let content : List ℕ = held ++ rest in
      let (found, (f, free)) =
        unique_dest_path_free (with_part offer content held dir) (sanitize_file_name offer.name)
          (omega (arith, b, length-with_part offer content held dir)) in
      rw
        (
          delivers_all (length sent),
          receive-Delivers offer.size held chunks rest d l,
          (==_iff (length content) offer.size).1 (omega (arith, l, length-append held rest)),
        )
        (finish-IsReceived offer held content dir (sent ++ file_accept offer.id (length held) ∷ [])
          found h f free)

  -- A paired device offers a file that is not too large; every write succeeds, the peer sends what
  -- is missing in readings of any sizes, what the part file held and what was sent have the offered
  -- size and SHA-256, and the directory has fewer than 10^20 - 4 files. Then the whole file stands
  -- under a name that was free, the part file is gone, and the envelopes sent are
  -- `PairAccept`, `FileAccept` with what the part file held, and `FileComplete`.
  pub handle_transfer-IsReceived :
      (config : Config) (nonce : List ℕ) (fingerprint : Text) (proof : List ℕ) (offer : Offer)
      (chunks : List Chunk) (rest : List ℕ) (dir : Directory)
      → is_paired config fingerprint ≡ true
      → (config.max_file_size ≡ 0) ⊎ (offer.size ≤ config.max_file_size)
      → Delivers chunks rest
      → offer.size
        ≡ length (resumed dir (part_name (sanitize_file_name offer.name)) offer.size) + length rest
      → env.sha256 (resumed dir (part_name (sanitize_file_name offer.name)) offer.size ++ rest)
        ≡ offer.sha256
      → length dir + 4 < 10 ^ 20
      → IsReceived
          (pair_accept
            ∷ file_accept offer.id
                (length (resumed dir (part_name (sanitize_file_name offer.name)) offer.size))
            ∷ [])
          offer
          (resumed dir (part_name (sanitize_file_name offer.name)) offer.size ++ rest)
          dir
          (handle_transfer env config
            (got (pair_request nonce fingerprint proof))
            (got (file_offer offer.id offer.name offer.size offer.sha256))
            chunks
            dir)
  unfolding handle_transfer on_offer
  handle_transfer-IsReceived config nonce fingerprint proof offer chunks rest dir p m d l h b =
      rw (p, delivers_all 0, too_large config.max_file_size offer.size m)
        (accept_offer-IsReceived offer chunks rest dir (pair_accept ∷ []) d l h b)
    where
      too_large :
          (max size : ℕ) → (max ≡ 0) ⊎ (size ≤ max) → (not (max == 0) && ltb max size) ≡ false
      too_large max size m = ground arith
