-- ===== src/FileTransfer/Names.antt =====
-- The names of received files: `sanitize_file_name` and `unique_dest_path` of
-- server/src/file_transfer.rs, with `Path::file_name`, `file_stem` and `extension` of Unix, where
-- only `/` separates.
use xkvm.Base.{
  ℕ, zero, suc, ◌+◌, Bool, false, ◌&&◌, ◌||◌, Option, none, some, List, [], ◌∷◌, ◌++◌, ltb, leb,
  ◌==◌, if◌then◌else◌, is_some, length, nat_eq, lookup, Text, codes, text_beq, text_eq, trim,
}
use xkvm.Client.Addr.{rsplit_once}
use xkvm.Client.Addr.Decimal.{print_digits}

-- The parts between slashes; there is always one.
unfoldable pub split_slash : Text → List Text
split_slash [] = [] ∷ []
split_slash (c ∷ s) = elim (split_slash s) [
  | [] ↦ []
  | part ∷ parts ↦ if c == b'/' then [] ∷ (part ∷ parts) else (c ∷ part) ∷ parts
]

-- The last part that is neither empty nor a dot.
unfoldable pub last_part : List Text → Text → Text
last_part [] found = found
last_part (part ∷ parts) found =
    last_part parts (if text_beq part [] || text_beq part (codes ".") then found else part)

-- `Path::file_name`, and the empty text where there is none.
unfoldable pub file_name : Text → Text
unfolding split_slash last_part
file_name path =
    let last = last_part (split_slash path) [] in if text_beq last (codes "..") then [] else last

-- `char::is_control`: the category Cc.
abbrev pub is_control : ℕ → Bool
is_control c = ltb c 32 || (leb 127 c && leb c 159)

unfoldable pub any_control : Text → Bool
any_control [] = false
any_control (c ∷ s) = is_control c || any_control s

unfoldable pub is_bad : Text → Bool
unfolding any_control
is_bad candidate =
    text_beq candidate []
    || (text_beq candidate (codes ".")
        || (text_beq candidate (codes "..") || any_control candidate))

unfoldable pub sanitize_file_name : Text → Text
unfolding file_name is_bad trim
sanitize_file_name name =
    let candidate = trim (file_name name) in
    if is_bad candidate then codes "received_file" else candidate

-- The files of the transfer directory, by their names.
abbrev pub Directory : Type 0
Directory = List (Text × List ℕ)

abbrev pub exists : Directory → Text → Bool
exists dir name = is_some (lookup name dir)

-- `file_stem` and `extension` of a file name: what stands around the last dot, unless that is the
-- first character or there is none.
abbrev pub stem_and_extension : Text → Text × Option Text
stem_and_extension [] = ([], none)
stem_and_extension (c ∷ s) = elim (rsplit_once b'.' s) [
  | none ↦ (c ∷ s, none)
  | some (stem, extension) ↦ (c ∷ stem, some extension)
]

-- `{stem} ({i}).{extension}`, with the 20 digits that a `u64` may have.
abbrev pub numbered : Text × Option Text → ℕ → Text
numbered (stem, none) i = stem ++ (codes " (" ++ (print_digits 20 i ++ codes ")"))
numbered (stem, some extension) i =
    stem ++ (codes " (" ++ (print_digits 20 i ++ (codes ")." ++ extension)))

unfoldable pub candidate_name : Text → ℕ → Text
unfolding rsplit_once print_digits
candidate_name name i = numbered (stem_and_extension name) i

-- The loop over `i`, for at most `fuel` rounds.
unfoldable pub first_free : ℕ → Directory → Text → ℕ → Option Text
unfolding candidate_name
first_free zero dir name i = none
first_free (suc fuel) dir name i =
    let rest = first_free fuel dir name (i + 1) in
    if exists dir (candidate_name name i) then rest else some (candidate_name name i)

-- One round for each file of the directory and one more are enough.
unfoldable pub unique_dest_path : Directory → Text → Option Text
unfolding first_free
unique_dest_path dir name =
    if exists dir name then first_free (suc (length dir)) dir name 1 else some name
