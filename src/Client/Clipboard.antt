-- ===== src/Client/Clipboard.antt =====
-- The clipboard thread of client/src/clipboard.rs, one round of its loop in two parts. The local
-- clipboard is a text, which the user may change between two rounds; the channel from the session
-- is a list.
use xkvm.Base.{
  ℕ, ◌≡◌, refl, ap, ◌∙◌, Bool, true, false, not, ◌&&◌, Option, none, some, List, [], ◌∷◌, map,
  arith, leb, if◌then◌else◌, unwrap_or, nat_eq, Text, text_beq, text_beq_iff, text_eq, byte_len,
  is_nil,
}

-- 1 MiB.
abbrev pub max_clipboard_bytes : ℕ
max_clipboard_bytes = 1048576

pub record Watcher : Type 0 where
  pub last_seen : Option Text
  pub clipboard : Text

-- One text of the server: `writes` says whether `clipboard.set_text` succeeds.
unfoldable pub set_text : Bool → Text → Watcher → Watcher
set_text true text w = record { last_seen = some text; clipboard = text }
set_text false text w = w

unfoldable pub drain : List (Text × Bool) → Watcher → Watcher
unfolding set_text
drain [] w = w
drain ((text, writes) ∷ incoming) w = drain incoming (set_text writes text w)

abbrev seen : Option Text → Text → Bool
seen none text = false
seen (some last) text = text_beq last text

-- The poll: what is sent to the server, if anything. `reads` says whether `clipboard.get_text`
-- succeeds.
unfoldable pub poll : Bool → Watcher → Watcher × Option Text
poll reads w =
    if reads
      && (not (is_nil w.clipboard)
          && (leb (byte_len w.clipboard) max_clipboard_bytes && not (seen w.last_seen w.clipboard)))
    then (record w { last_seen = some w.clipboard }, some w.clipboard)
    else (w, none)

-- One round: the texts of the server, then the poll.
unfoldable pub clipboard_round : List (Text × Bool) → Bool → Watcher → Watcher × Option Text
unfolding drain poll
clipboard_round incoming reads w = poll reads (drain incoming w)

abbrev also : Option Text → List Text → List Text
also none texts = texts
also (some text) texts = text ∷ texts

-- The texts that a run of rounds sends. Before each round the user may copy a text.
unfoldable pub run : List (Option Text × List (Text × Bool) × Bool) → Watcher → List Text
unfolding clipboard_round
run [] w = []
run ((copied, incoming, reads) ∷ rounds) w =
    let r =
      clipboard_round incoming reads (record w { clipboard = unwrap_or copied w.clipboard }) in
    also r.1 (run rounds r.0)

-- Rounds before which the user copies nothing.
abbrev pub undisturbed :
    List (List (Text × Bool) × Bool) → List (Option Text × List (Text × Bool) × Bool)
undisturbed rounds = map (λ r. (none, r.0, r.1)) rounds

IsSynced : Watcher → Type 0
IsSynced w = w.last_seen ≡ some w.clipboard

drain-IsSynced :
    (incoming : List (Text × Bool)) (w : Watcher) → IsSynced w → IsSynced (drain incoming w)
unfolding drain IsSynced
drain-IsSynced [] w h = h
drain-IsSynced ((text, true) ∷ incoming) w h = drain-IsSynced incoming (set_text true text w) refl
drain-IsSynced ((text, false) ∷ incoming) w h = drain-IsSynced incoming w h

poll-IsSynced : (reads : Bool) (w : Watcher) → IsSynced w → poll reads w ≡ (w, none)
unfolding poll IsSynced
poll-IsSynced reads w h = rw h (ground (arith, (text_beq_iff w.clipboard w.clipboard).1 refl))

-- No echo, however many rounds and whichever writes and reads of the clipboard fail: as long as the
-- user copies nothing after the clipboard and what was seen last agree, nothing is sent.
run_no_echo :
    (rounds : List (List (Text × Bool) × Bool)) (w : Watcher)
    → w.last_seen ≡ some w.clipboard
    → run (undisturbed rounds) w ≡ []
unfolding run clipboard_round IsSynced
run_no_echo [] w h = refl
run_no_echo ((incoming, reads) ∷ rounds) w h =
    let s = drain-IsSynced incoming w h in
    ap (λ r. also r.1 (run (undisturbed rounds) r.0)) (poll-IsSynced reads (drain incoming w) s)
    ∙ run_no_echo rounds (drain incoming w) s
