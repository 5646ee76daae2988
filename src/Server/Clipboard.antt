-- ===== src/Server/Clipboard.antt =====
-- The clipboard watcher of server/src/server.rs: `spawn_clipboard_watcher`, one round of its loop
-- in two parts. The local clipboard is a text, which the user may change between two rounds; the
-- channel from the clients is a list.
use xkvm.Base.{
  ◌≤◌, ◌≡◌, ◌≢◌, Bool, true, false, not, ◌&&◌, Option, none, some, List, [], ◌∷◌, arith, leb,
  if◌then◌else◌, All, nat_eq, Text, text_beq, text_beq_iff, text_eq, byte_len,
}
use xkvm.Server.State.{max_clipboard_bytes}

pub record Watcher : Type 0 where
  pub last_seen : Text
  pub clipboard : Text

-- One command: `writes` says whether `clipboard.set_text` succeeds.
unfoldable pub apply_text : Bool → Text → Watcher → Watcher
apply_text writes text w =
    if not (text_beq text w.last_seen) && leb (byte_len text) max_clipboard_bytes
    then record { last_seen = text; clipboard = if writes then text else w.clipboard }
    else w

unfoldable pub drain : List (Text × Bool) → Watcher → Watcher
drain [] w = w
drain ((text, writes) ∷ commands) w = drain commands (apply_text writes text w)

-- The poll: what is broadcast, if anything. `reads` says whether `clipboard.get_text` succeeds.
unfoldable pub poll : Bool → Watcher → Watcher × Option Text
poll reads w =
    if reads
      && (not (text_beq w.clipboard w.last_seen)
          && (not (text_beq w.clipboard []) && leb (byte_len w.clipboard) max_clipboard_bytes))
    then (record w { last_seen = w.clipboard }, some w.clipboard)
    else (w, none)

-- Nothing that is broadcast is empty, above 1 MiB or what was seen last, and nothing is broadcast
-- twice in a row.
poll_lem :
    (reads : Bool) (w : Watcher) (text : Text)
    → (poll reads w).1 ≡ some text
    → (text ≡ w.clipboard)
      × (text ≢ [])
      × (byte_len text ≤ max_clipboard_bytes)
      × (text ≢ w.last_seen)
      × ((poll reads (poll reads w).0).1 ≡ none)
unfolding poll
poll_lem reads w text h = ground (
  arith,
  text_beq_iff w.clipboard w.last_seen,
  text_beq_iff w.clipboard w.clipboard,
  text_beq_iff w.clipboard [],
)

-- What is known of the texts that were written: the clipboard has what was seen last.
drain_synced :
    (commands : List (Text × Bool)) (w : Watcher)
    → All (λ c. c.1 ≡ true) commands
    → w.clipboard ≡ w.last_seen
    → (drain commands w).clipboard ≡ (drain commands w).last_seen
unfolding drain apply_text
drain_synced [] w a h = h
drain_synced ((text, writes) ∷ commands) w (written, a) h =
    drain_synced commands (apply_text writes text w) a (applied writes written)
  where
    applied :
        (writes : Bool)
        → writes ≡ true
        → (apply_text writes text w).clipboard ≡ (apply_text writes text w).last_seen
    applied writes e = ground arith

-- No echo: texts of the clients that could be written to the clipboard are not broadcast back.
drain_no_echo :
    (commands : List (Text × Bool)) (reads : Bool) (w : Watcher)
    → All (λ c. c.1 ≡ true) commands
    → w.clipboard ≡ w.last_seen
    → (poll reads (drain commands w)).1 ≡ none
unfolding poll
drain_no_echo commands reads w a h =
    let synced = drain_synced commands w a h in
    let v = drain commands w in ground (arith, synced, text_beq_iff v.clipboard v.last_seen)

-- A text that could not be written: the next poll broadcasts what the local clipboard held before.
pub apply_text_unwritten :
    (text : Text) (w : Watcher)
    → text ≢ w.last_seen
    → byte_len text ≤ max_clipboard_bytes
    → w.clipboard ≢ text
    → w.clipboard ≢ []
    → byte_len w.clipboard ≤ max_clipboard_bytes
    → (poll true (apply_text false text w)).1 ≡ some w.clipboard
unfolding poll apply_text
apply_text_unwritten text w n fits other some_text small = ground (
  arith,
  text_beq_iff text w.last_seen,
  text_beq_iff w.clipboard text,
  text_beq_iff w.clipboard [],
)
