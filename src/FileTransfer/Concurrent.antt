-- ===== src/FileTransfer/Concurrent.antt =====
-- Transfers that end at the same time: what `handle_transfer` of server/src/file_transfer.rs does
-- with a part file whose checksum is right, in the two steps between which other connections run.
use xkvm.Base.{
  ℕ, zero, suc, ◌≡◌, refl, sym, ◌∙◌, ◌≢◌, inl, inr, Option, none, some, List, [], ◌∷◌, map,
  Option-cases, All, nat_eq, lookup, insert, remove, lookup-insert_self, Text, text_eq,
}
use xkvm.FileTransfer.Names.{Directory, unique_dest_path}
use xkvm.FileTransfer.Unique.{unique_dest_path-lookup}
use xkvm.FileTransfer.Receive.{part_name}
use xkvm.FileTransfer.Outcomes.{lookup-insert_other, lookup-remove_other}

-- Where a transfer is: its part file is verified, its destination is chosen, it has been renamed to
-- its destination, which is reported with `FileComplete`, or the renaming has failed.
pub data Phase : Type 0 where
  verified : (safe_name : Text) → Phase
  chosen : (safe_name final_path : Text) → Phase
  promoted : (final_path : Text) → Phase
  stopped : Phase

-- `tokio::fs::rename`, which replaces the file that has the new name.
abbrev rename_part : Text → Text → Option (List ℕ) → Directory → Phase × Directory
rename_part safe_name final_path none dir = (stopped, dir)
rename_part safe_name final_path (some content) dir =
    (promoted final_path, insert final_path content (remove (part_name safe_name) dir))

abbrev choose_path : Text → Option Text → Directory → Phase × Directory
choose_path safe_name none dir = (stopped, dir)
choose_path safe_name (some final_path) dir = (chosen safe_name final_path, dir)

-- The next step of a transfer.
unfoldable pub advance : Phase → Directory → Phase × Directory
advance (verified safe_name) dir = choose_path safe_name (unique_dest_path dir safe_name) dir
advance (chosen safe_name final_path) dir =
    rename_part safe_name final_path (lookup (part_name safe_name) dir) dir
advance (promoted final_path) dir = (promoted final_path, dir)
advance stopped dir = (stopped, dir)

-- The step of the `i`-th transfer, and the steps of a schedule.
unfoldable pub advance_at : ℕ → List Phase → Directory → List Phase × Directory
unfolding advance
advance_at i [] dir = ([], dir)
advance_at zero (phase ∷ phases) dir =
    let (phase', dir') = advance phase dir in (phase' ∷ phases, dir')
advance_at (suc i) (phase ∷ phases) dir =
    let (phases', dir') = advance_at i phases dir in (phase ∷ phases', dir')

unfoldable pub run : List ℕ → List Phase → Directory → List Phase × Directory
unfolding advance_at
run [] phases dir = (phases, dir)
run (i ∷ schedule) phases dir =
    let (phases', dir') = advance_at i phases dir in run schedule phases' dir'

-- The step will not touch the file.
abbrev Spares : Text → Phase → Type 0
Spares name (verified safe_name) = name ≢ part_name safe_name
Spares name (chosen safe_name final_path) = (name ≢ part_name safe_name) × (name ≢ final_path)
Spares name (promoted final_path) = Unit
Spares name stopped = Unit

advance-Spares :
    (name : Text) (content : List ℕ) (phase : Phase) (dir : Directory)
    → lookup name dir ≡ some content
    → Spares name phase
    → Spares name (advance phase dir).0 × (lookup name (advance phase dir).1 ≡ some content)
unfolding advance
advance-Spares name content (verified safe_name) dir held spares =
    elim (Option-cases (unique_dest_path dir safe_name)) [
      | inl e ↦ rw e (tt, held)
      | inr (final_path, e) ↦
          let free = unique_dest_path-lookup dir safe_name final_path e in
          rw e ((spares, λ same. cc (held, free, same)), held)
    ]
advance-Spares name content (chosen safe_name final_path) dir held (part, final) =
    elim (Option-cases (lookup (part_name safe_name) dir)) [
      | inl e ↦ rw e (tt, held)
      | inr (bytes, e) ↦ rw e (
        tt,
        lookup-insert_other final_path name bytes (remove (part_name safe_name) dir) final
            ∙ (lookup-remove_other (part_name safe_name) name dir part ∙ held),
      )
    ]
advance-Spares name content (promoted final_path) dir held spares = (tt, held)
advance-Spares name content stopped dir held spares = (tt, held)

advance_at-Spares :
    (name : Text) (content : List ℕ) (i : ℕ) (phases : List Phase) (dir : Directory)
    → lookup name dir ≡ some content
    → All (Spares name) phases
    → All (Spares name) (advance_at i phases dir).0
      × (lookup name (advance_at i phases dir).1 ≡ some content)
unfolding advance_at
advance_at-Spares name content i [] dir held spares = (tt, held)
advance_at-Spares name content zero (phase ∷ phases) dir held (s, spares) =
    let (s', held') = advance-Spares name content phase dir held s in ((s', spares), held')
advance_at-Spares name content (suc i) (phase ∷ phases) dir held (s, spares) =
    let (spares', held') = advance_at-Spares name content i phases dir held spares in
    ((s, spares'), held')

run-Spares :
    (name : Text) (content : List ℕ) (schedule : List ℕ) (phases : List Phase) (dir : Directory)
    → lookup name dir ≡ some content
    → All (Spares name) phases
    → lookup name (run schedule phases dir).1 ≡ some content
unfolding run
run-Spares name content [] phases dir held spares = held
run-Spares name content (i ∷ schedule) phases dir held spares =
    let (spares', held') = advance_at-Spares name content i phases dir held spares in
    run-Spares name content schedule (advance_at i phases dir).0 (advance_at i phases dir).1 held'
      spares'

spared :
    (name : Text) (safe_names : List Text)
    → All (λ n. name ≢ part_name n) safe_names
    → All (Spares name) (map verified safe_names)
spared name [] h = tt
spared name (n ∷ safe_names) (h, hs) = (h, spared name safe_names hs)

-- However the ends of any transfers are interleaved, a file that was in the directory before them,
-- other than their part files, is there afterwards with what it held.
pub run-keeps :
    (name : Text) (content : List ℕ) (safe_names : List Text) (schedule : List ℕ) (dir : Directory)
    → lookup name dir ≡ some content
    → All (λ n. name ≢ part_name n) safe_names
    → lookup name (run schedule (map verified safe_names) dir).1 ≡ some content
run-keeps name content safe_names schedule dir held others =
    run-Spares name content schedule (map verified safe_names) dir held
      (spared name safe_names others)

-- Two transfers that are given the same destination, each before the other is renamed, are both
-- reported as complete at it, and only the file of the second is left.
pub run-overwrites :
    (first second final_path : Text) (ours theirs : List ℕ) (dir : Directory)
    → unique_dest_path dir first ≡ some final_path
    → unique_dest_path dir second ≡ some final_path
    → part_name first ≢ part_name second
    → final_path ≢ part_name second
    → lookup (part_name first) dir ≡ some ours
    → lookup (part_name second) dir ≡ some theirs
    → let ended = run (0 ∷ 1 ∷ 0 ∷ 1 ∷ []) (verified first ∷ verified second ∷ []) dir in
      (ended.0 ≡ promoted final_path ∷ promoted final_path ∷ [])
      × (lookup final_path ended.1 ≡ some theirs)
unfolding run advance
run-overwrites first second final_path ours theirs dir one two parts other held held' =
    let still : lookup (part_name second) (insert final_path ours (remove (part_name first) dir))
        ≡ some theirs =
      lookup-insert_other final_path (part_name second) ours (remove (part_name first) dir)
        (λ e. other (sym e))
      ∙ (lookup-remove_other (part_name first) (part_name second) dir (λ e. parts (sym e))
          ∙ held') in
    rw (one, two, held, still)
      (
        refl,
        lookup-insert_self {0, 0} final_path theirs
            (remove (part_name second) (insert final_path ours (remove (part_name first) dir))),
      )
