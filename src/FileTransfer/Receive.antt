-- ===== src/FileTransfer/Receive.antt =====
-- `handle_transfer` of server/src/file_transfer.rs: the pairing check, the offer, the part file
-- that is resumed or created, the loop that receives the bytes, and what becomes of the part file.
-- The directory and the files in it are a list; the disk does not fail, and the directory exists.
use xkvm.Base.{
  ℕ, ◌-◌, Bool, true, false, not, ◌&&◌, none, some, List, [], ◌∷◌, ◌++◌, ltb, leb, ◌==◌,
  if◌then◌else◌, length, take, nat_eq, lookup, insert, remove, Text, codes, text_beq, text_eq,
  is_nil,
}
use xkvm.Protocol.{
  Envelope, pair_request, pair_accept, pair_reject, file_offer, file_accept, file_reject,
  file_complete, error,
}
use xkvm.Server.Config.{Config, is_paired}
use xkvm.FileTransfer.Names.{sanitize_file_name, Directory, unique_dest_path}

-- A reading of an envelope: the timeout, an error of the stream, or the envelope.
pub data Incoming : Type 0 where
  timed_out failed : Incoming
  got : Envelope → Incoming

-- A reading of the body: the bytes it returns, or an error. Past the last one the stream is at its
-- end.
pub data Chunk : Type 0 where
  bytes : List ℕ → Chunk
  read_error : Chunk

-- Whether the n-th write of the stream succeeds, and SHA-256.
pub record Env : Type 0 where
  pub delivers : ℕ → Bool
  pub sha256 : List ℕ → List ℕ

-- What a connection leaves behind: the directory, the envelopes sent, and whether `Ok` was
-- returned.
pub record Outcome : Type 0 where
  pub directory : Directory
  pub sent : List Envelope
  pub succeeded : Bool

pub record Offer : Type 0 where
  pub id : ℕ
  pub name : Text
  pub size : ℕ
  pub sha256 : List ℕ

abbrev pub not_paired_reason : Text
not_paired_reason = codes "device not paired; pair over the control channel first"

-- The name of the part file.
abbrev pub part_name : Text → Text
part_name safe_name = safe_name ++ codes ".part"

-- The content with which the part file is opened: what it holds where it is shorter than the file.
unfoldable pub resumed : Directory → Text → ℕ → List ℕ
resumed dir part size = elim (lookup part dir) [
  | none ↦ []
  | some old ↦ if ltb (length old) size then old else []
]

-- The receiving loop, with what the file holds, and whether a reading failed. `take(remaining)`
-- returns what is missing of the file at most, and a reading of no bytes ends it.
unfoldable pub receive : ℕ → List ℕ → List Chunk → List ℕ × Bool
receive size held [] = (held, true)
receive size held (read_error ∷ chunks) =
    if leb size (length held) then (held, true) else (held, false)
receive size held (bytes read ∷ chunks) =
    let chunk = take (size - length held) read in
    let rest = receive size (held ++ chunk) chunks in if is_nil chunk then (held, true) else rest

module _ (env : Env) where
  -- A write whose failure is ignored.
  try_send : Envelope → List Envelope → List Envelope
  try_send e sent = if env.delivers (length sent) then sent ++ e ∷ [] else sent

  -- The part file that is complete is verified and renamed, or removed.
  unfoldable pub finish : Offer → List ℕ → Directory → List Envelope → Outcome
  unfolding try_send
  finish offer content dir sent =
      let safe_name = sanitize_file_name offer.name in
      if text_beq (env.sha256 content) offer.sha256
      then elim (unique_dest_path dir safe_name) [
        | none ↦ record { directory = dir; sent = sent; succeeded = false }
        | some final ↦ record {
          directory = insert final content (remove (part_name safe_name) dir);
          sent = try_send (file_complete offer.id) sent;
          succeeded = true;
        }
      ]
      else record {
        directory = remove (part_name safe_name) dir;
        sent = try_send (file_reject offer.id (codes "Checksum mismatch")) sent;
        succeeded = true;
      }

  -- After the loop.
  unfoldable pub close : Offer → List ℕ × Bool → Directory → List Envelope → Outcome
  unfolding try_send finish
  close offer (content, false) dir sent = record {
    directory = insert (part_name (sanitize_file_name offer.name)) content dir;
    sent = sent;
    succeeded = false;
  }
  close offer (content, true) dir sent =
      let part = part_name (sanitize_file_name offer.name) in
      if length content == offer.size
      then finish offer content (insert part content dir) sent
      else record {
        directory = remove part dir;
        sent = try_send (file_reject offer.id (codes "transfer incomplete")) sent;
        succeeded = true;
      }

  -- From the opening of the part file on.
  unfoldable pub accept_offer : Offer → List Chunk → Directory → List Envelope → Outcome
  unfolding resumed receive close
  accept_offer offer chunks dir sent =
      let part = part_name (sanitize_file_name offer.name) in
      let held = resumed dir part offer.size in
      if env.delivers (length sent)
      then close offer (receive offer.size held chunks) (insert part held dir)
          (sent ++ file_accept offer.id (length held) ∷ [])
      else record { directory = insert part held dir; sent = sent; succeeded = false }

  unfoldable pub on_offer : Config → Incoming → List Chunk → Directory → List Envelope → Outcome
  unfolding accept_offer
  on_offer config (got (file_offer id name size sha256)) chunks dir sent =
      let offer : Offer = record { id = id; name = name; size = size; sha256 = sha256 } in
      if not (config.max_file_size == 0) && ltb config.max_file_size size
      then record {
        directory = dir;
        sent = try_send (file_reject id (codes "file exceeds maximum allowed size")) sent;
        succeeded = env.delivers (length sent);
      }
      else accept_offer offer chunks dir sent
  on_offer config _ chunks dir sent = record { directory = dir; sent = sent; succeeded = false }

  unfoldable pub handle_transfer : Config → Incoming → Incoming → List Chunk → Directory → Outcome
  unfolding on_offer try_send
  handle_transfer config (got (pair_request nonce fingerprint proof)) offer chunks dir =
      if is_paired config fingerprint
      then if env.delivers 0
        then on_offer config offer chunks dir (pair_accept ∷ [])
        else record { directory = dir; sent = []; succeeded = false }
      else record {
        directory = dir;
        sent = try_send (pair_reject not_paired_reason) [];
        succeeded = false;
      }
  handle_transfer config timed_out offer chunks dir = record {
    directory = dir;
    sent = [];
    succeeded = false;
  }
  handle_transfer config failed offer chunks dir = record {
    directory = dir;
    sent = [];
    succeeded = false;
  }
  handle_transfer config (got _) offer chunks dir = record {
    directory = dir;
    sent = try_send (error (codes "expected PairRequest")) [];
    succeeded = false;
  }
