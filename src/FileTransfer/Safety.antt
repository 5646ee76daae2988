-- ===== src/FileTransfer/Safety.antt =====
-- A sanitized name names a file in the transfer directory itself.
use xkvm.Base.{
  ◌≡◌, refl, ◌≢◌, inl, inr, Bool, true, false, not, ◌&&◌, ◌||◌, List, [], ◌∷◌, arith, subst,
  if◌then◌else◌, Bool-cases, nat_eq, contains, Text, codes, text_beq, text_beq_iff, text_eq,
  trim_start, trim_end, trim,
}
use xkvm.FileTransfer.Names.{
  split_slash, last_part, file_name, any_control, is_bad, sanitize_file_name,
}

unfoldable no_slash : List Text → Bool
no_slash [] = true
no_slash (part ∷ parts) = not (contains b'/' part) && no_slash parts

split_slash-no_slash : (s : Text) → no_slash (split_slash s) ≡ true
unfolding split_slash no_slash contains
split_slash-no_slash [] = refl
split_slash-no_slash (c ∷ s) = ground (arith, split_slash-no_slash s)

last_part-no_slash :
    (parts : List Text) (found : Text)
    → no_slash parts ≡ true
    → contains b'/' found ≡ false
    → contains b'/' (last_part parts found) ≡ false
unfolding last_part no_slash
last_part-no_slash [] found h f = f
last_part-no_slash (part ∷ parts) found h f =
    last_part-no_slash parts (if text_beq part [] || text_beq part (codes ".") then found else part)
      (ground arith) (ground arith)

file_name-no_slash : (name : Text) → contains b'/' (file_name name) ≡ false
unfolding file_name contains
file_name-no_slash name =
    ground (arith, last_part-no_slash (split_slash name) [] (split_slash-no_slash name) refl)

trim_start-no_slash : (s : Text) → contains b'/' s ≡ false → contains b'/' (trim_start s) ≡ false
unfolding trim_start contains
trim_start-no_slash [] h = refl
trim_start-no_slash (c ∷ s) h = ground (arith, trim_start-no_slash s)

trim_end-no_slash : (s : Text) → contains b'/' s ≡ false → contains b'/' (trim_end s) ≡ false
unfolding trim_end contains
trim_end-no_slash [] h = refl
trim_end-no_slash (c ∷ s) h = ground (arith, trim_end-no_slash s)

-- What a path component must be to stay in its directory, and to print on one line.
pub record IsSafe (s : Text) : Type 0 where
  not_empty : s ≢ []
  not_dot : s ≢ codes "."
  not_dot_dot : s ≢ codes ".."
  has_no_slash : contains b'/' s ≡ false
  has_no_control : any_control s ≡ false

is_bad-IsSafe : (s : Text) → contains b'/' s ≡ false → is_bad s ≡ false → IsSafe s
unfolding is_bad
is_bad-IsSafe s h b = record {
  not_empty = ground (arith, text_beq_iff s []);
  not_dot = ground (arith, text_beq_iff s (codes "."));
  not_dot_dot = ground (arith, text_beq_iff s (codes ".."));
  has_no_slash = h;
  has_no_control = ground arith;
}

received_file-IsSafe : IsSafe (codes "received_file")
unfolding contains any_control
received_file-IsSafe = record {
  not_empty = ground arith;
  not_dot = ground arith;
  not_dot_dot = ground arith;
  has_no_slash = refl;
  has_no_control = refl;
}

-- Whatever name the peer offers, the sanitized one is safe: it is not empty, not `.` or `..`, and
-- holds no slash and no control character.
pub sanitize_file_name-IsSafe : (name : Text) → IsSafe (sanitize_file_name name)
unfolding sanitize_file_name trim
sanitize_file_name-IsSafe name = elim (Bool-cases (is_bad (trim (file_name name)))) [
  | inl e ↦ subst IsSafe (ground arith) received_file-IsSafe
  | inr e ↦ subst IsSafe (ground arith) (
      is_bad-IsSafe (trim (file_name name))
        (trim_end-no_slash (trim_start (file_name name))
          (trim_start-no_slash (file_name name) (file_name-no_slash name)))
        e)
]
