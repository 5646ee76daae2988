-- ===== src/FileTransfer/Outcomes.antt =====
-- What a connection of the file channel does to the files of the directory.
use xkvm.Base.{
  ℕ, ◌≡◌, refl, sym, ◌∙◌, ◌≢◌, inl, inr, Bool, true, false, not, ◌&&◌, none, some, List, [], ◌∷◌,
  ◌++◌, arith, ltb, ◌==◌, if◌then◌else◌, Bool-cases, Option-cases, length, nat_eq, lookup, insert,
  remove, lookup-insert, lookup-remove, Text, text_beq, text_beq_iff, text_eq,
}
use xkvm.Protocol.{
  Envelope, hello, hello_ack, pair_request, pair_accept, pair_reject, toggle_forward, input,
  clipboard_set, file_offer, file_accept, file_reject, file_complete, ping, pong, error, goodbye,
}
use xkvm.Server.Config.{Config, is_paired}
use xkvm.FileTransfer.Names.{sanitize_file_name, Directory, unique_dest_path}
use xkvm.FileTransfer.Unique.{unique_dest_path-lookup}
use xkvm.FileTransfer.Receive.{
  Incoming, timed_out, failed, got, Chunk, Env, Offer, part_name, resumed, receive, finish, close,
  accept_offer, on_offer, handle_transfer, receive, not_paired_reason,
}

pub lookup-insert_other :
    (part name : Text) (content : List ℕ) (dir : Directory)
    → name ≢ part
    → lookup name (insert part content dir) ≡ lookup name dir
lookup-insert_other part name content dir ne =
    ground (arith, lookup-insert {0, 0} part name content dir, text_beq_iff part name)

pub lookup-remove_other :
    (part name : Text) (dir : Directory)
    → name ≢ part
    → lookup name (remove part dir) ≡ lookup name dir
lookup-remove_other part name dir ne =
    ground (arith, lookup-remove {0, 0} part name dir, text_beq_iff part name)

module _ (env : Env) where
  -- A file other than the part file is as it was, or new and the one that was offered.
  pub data Kept (offer : Offer) (dir out : Directory) (name : Text) : Type 0 where
    same : lookup name out ≡ lookup name dir → Kept offer dir out name
    new :
        (content : List ℕ)
        → lookup name dir ≡ none
        → lookup name out ≡ some content
        → length content ≡ offer.size
        → env.sha256 content ≡ offer.sha256
        → Kept offer dir out name

  finish-Kept :
      (offer : Offer) (content : List ℕ) (dir : Directory) (sent : List Envelope) (name : Text)
      → name ≢ part_name (sanitize_file_name offer.name)
      → length content ≡ offer.size
      → Kept offer dir (finish env offer content dir sent).directory name
  unfolding finish
  finish-Kept offer content dir sent name ne l =
      elim (Bool-cases (text_beq (env.sha256 content) offer.sha256)) [
        | inr e ↦
            same
              (rw e (lookup-remove_other (part_name (sanitize_file_name offer.name)) name dir ne))
        | inl e ↦ elim (Option-cases (unique_dest_path dir (sanitize_file_name offer.name))) [
          | inl f ↦ same (rw (e, f) refl)
          | inr (final, f) ↦ elim (Bool-cases (text_beq final name)) [
            | inl g ↦
                new content
                  (ground (
                    arith,
                    unique_dest_path-lookup dir (sanitize_file_name offer.name) final f,
                    text_beq_iff final name,
                  ))
                  (rw (e, f)
                    (ground (
                      arith,
                      lookup-insert {0, 0} final name content
                          (remove (part_name (sanitize_file_name offer.name)) dir),
                    )))
                  l (ground (arith, text_beq_iff (env.sha256 content) offer.sha256))
            | inr g ↦ same (
                rw (e, f)
                  (lookup-insert_other final name content
                      (remove (part_name (sanitize_file_name offer.name)) dir)
                      (ground (arith, text_beq_iff final name))
                    ∙ lookup-remove_other (part_name (sanitize_file_name offer.name)) name dir ne))
          ]
        ]
      ]

  -- What holds of the directory with the part file holds of the one before.
  Kept-insert :
      (offer : Offer) (held : List ℕ) (dir out : Directory) (name : Text)
      → name ≢ part_name (sanitize_file_name offer.name)
      → Kept offer (insert (part_name (sanitize_file_name offer.name)) held dir) out name
      → Kept offer dir out name
  Kept-insert offer held dir out name ne (same e) =
      same (e ∙ lookup-insert_other (part_name (sanitize_file_name offer.name)) name held dir ne)
  Kept-insert offer held dir out name ne (new content e f l h) =
      new content
        (sym (lookup-insert_other (part_name (sanitize_file_name offer.name)) name held dir ne) ∙ e)
        f l h

  close-Kept :
      (offer : Offer) (received : List ℕ × Bool) (dir : Directory) (sent : List Envelope)
      (name : Text)
      → name ≢ part_name (sanitize_file_name offer.name)
      → Kept offer dir (close env offer received dir sent).directory name
  unfolding close
  close-Kept offer (content, false) dir sent name ne =
      same (lookup-insert_other (part_name (sanitize_file_name offer.name)) name content dir ne)
  close-Kept offer (content, true) dir sent name ne =
      elim (Bool-cases (length content == offer.size)) [
        | inl e ↦ rw e (
            Kept-insert offer content dir
              (finish env offer content
                (insert (part_name (sanitize_file_name offer.name)) content dir) sent).directory
              name ne
              (finish-Kept offer content
                (insert (part_name (sanitize_file_name offer.name)) content dir) sent name ne
                (ground arith)))
        | inr e ↦
            same
              (rw e (lookup-remove_other (part_name (sanitize_file_name offer.name)) name dir ne))
      ]

  accept_offer-Kept :
      (offer : Offer) (chunks : List Chunk) (dir : Directory) (sent : List Envelope) (name : Text)
      → name ≢ part_name (sanitize_file_name offer.name)
      → Kept offer dir (accept_offer env offer chunks dir sent).directory name
  unfolding accept_offer
  accept_offer-Kept offer chunks dir sent name ne =
      let part = part_name (sanitize_file_name offer.name) in
      let held = resumed dir part offer.size in
      elim (Bool-cases (env.delivers (length sent))) [
        | inl e ↦ rw e (
            Kept-insert offer held dir
              (close env offer (receive offer.size held chunks) (insert part held dir)
                (sent ++ file_accept offer.id (length held) ∷ [])).directory
              name ne
              (close-Kept offer (receive offer.size held chunks) (insert part held dir)
                (sent ++ file_accept offer.id (length held) ∷ []) name ne))
        | inr e ↦ same (rw e (lookup-insert_other part name held dir ne))
      ]

  on_offer-Kept :
      (config : Config) (offer : Offer) (chunks : List Chunk) (dir : Directory)
      (sent : List Envelope) (name : Text)
      → name ≢ part_name (sanitize_file_name offer.name)
      → Kept offer dir
          (on_offer env config
            (got (file_offer offer.id offer.name offer.size offer.sha256))
            chunks
            dir
            sent).directory
          name
  unfolding on_offer
  on_offer-Kept config offer chunks dir sent name ne =
      elim (Bool-cases (not (config.max_file_size == 0) && ltb config.max_file_size offer.size)) [
        | inl e ↦ same (rw e refl)
        | inr e ↦ rw e (accept_offer-Kept offer chunks dir sent name ne)
      ]

  -- Whatever the peer does, and wherever the connection breaks, after a connection with an offer
  -- every file but `<sanitized name>.part` is either as it was, or is new, holds as many bytes as
  -- were offered, and has the offered SHA-256. No such file is overwritten, truncated or removed.
  pub handle_transfer-Kept :
      (config : Config) (pairing : Incoming) (offer : Offer) (chunks : List Chunk) (dir : Directory)
      (name : Text)
      → name ≢ part_name (sanitize_file_name offer.name)
      → Kept offer dir
          (handle_transfer env config pairing
            (got (file_offer offer.id offer.name offer.size offer.sha256))
            chunks
            dir).directory
          name
  unfolding handle_transfer
  handle_transfer-Kept config timed_out offer chunks dir name ne = same refl
  handle_transfer-Kept config failed offer chunks dir name ne = same refl
  handle_transfer-Kept config (got (pair_request nonce fingerprint proof)) offer chunks dir name
        ne =
      elim (Bool-cases (is_paired config fingerprint)) [
        | inr e ↦ same (rw e refl)
        | inl e ↦ elim (Bool-cases (env.delivers 0)) [
          | inr f ↦ same (rw (e, f) refl)
          | inl f ↦ rw (e, f) (on_offer-Kept config offer chunks dir (pair_accept ∷ []) name ne)
        ]
      ]
  handle_transfer-Kept config (got (hello n v c)) offer chunks dir name ne = same refl
  handle_transfer-Kept config (got (hello_ack p n)) offer chunks dir name ne = same refl
  handle_transfer-Kept config (got pair_accept) offer chunks dir name ne = same refl
  handle_transfer-Kept config (got (pair_reject r)) offer chunks dir name ne = same refl
  handle_transfer-Kept config (got (toggle_forward b)) offer chunks dir name ne = same refl
  handle_transfer-Kept config (got (input x)) offer chunks dir name ne = same refl
  handle_transfer-Kept config (got (clipboard_set t)) offer chunks dir name ne = same refl
  handle_transfer-Kept config (got (file_offer i n s h)) offer chunks dir name ne = same refl
  handle_transfer-Kept config (got (file_accept i o)) offer chunks dir name ne = same refl
  handle_transfer-Kept config (got (file_reject i r)) offer chunks dir name ne = same refl
  handle_transfer-Kept config (got (file_complete i)) offer chunks dir name ne = same refl
  handle_transfer-Kept config (got (ping n)) offer chunks dir name ne = same refl
  handle_transfer-Kept config (got (pong n)) offer chunks dir name ne = same refl
  handle_transfer-Kept config (got (error t)) offer chunks dir name ne = same refl
  handle_transfer-Kept config (got goodbye) offer chunks dir name ne = same refl

  -- A device that is not paired gets `PairReject`, where the write succeeds, and changes no file:
  -- the handler returns an error.
  pub handle_transfer_unpaired :
      (config : Config) (nonce : List ℕ) (fingerprint : Text) (proof : List ℕ) (offer : Incoming)
      (chunks : List Chunk) (dir : Directory)
      → is_paired config fingerprint ≡ false
      → handle_transfer env config (got (pair_request nonce fingerprint proof)) offer chunks dir
        ≡ record {
          directory = dir;
          sent = if env.delivers 0 then pair_reject not_paired_reason ∷ [] else [];
          succeeded = false;
        }
  unfolding handle_transfer
  handle_transfer_unpaired config nonce fingerprint proof offer chunks dir e = rw e refl
