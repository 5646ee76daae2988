-- ===== src/FileTransfer/Unique.antt =====
-- `unique_dest_path` finds a name that no file has.
use xkvm.Base.{
  ℕ, zero, suc, ◌+◌, ◌-◌, ◌*◌, ◌/◌, ◌%◌, ◌^◌, ◌≤◌, ◌<◌, ◌≡◌, sym, ap, ◌∙◌, inl, inr, true, false,
  ◌&&◌, Option, none, some, [], ◌∷◌, ◌++◌, append_assoc, arith, subst, ltb, leb, if◌then◌else◌,
  ltb→lt, lt→ltb, le→leb, Bool-cases, Option-cases, length, drop, drop-append, nat_eq, lookup,
  remove, lookup-remove, Text, codes, text_beq, text_beq_iff, text_eq,
}
use xkvm.Client.Addr.Decimal.{print_digits}
use xkvm.FileTransfer.Names.{
  Directory, exists, stem_and_extension, numbered, candidate_name, first_free, unique_dest_path,
}

-- The number that the digits at the front of a text print, behind the digits read before.
number_at : ℕ → Text → ℕ
number_at n [] = n
number_at n (c ∷ s) =
    let rest = number_at (n * 10 + (c - b'0')) s in if leb b'0' c && leb c b'9' then rest else n

number_at_step :
    (m d : ℕ) (rest : Text) → d < 10 → number_at m ((b'0' + d) ∷ rest) ≡ number_at (m * 10 + d) rest
unfolding number_at
number_at_step m d rest h =
    rw (le→leb 48 (48 + d) (omega arith), le→leb (48 + d) 57 (omega arith))
      (ap (λ k. number_at k rest) (omega arith))

number_at_first :
    (d : ℕ) (rest : Text) → d < 10 → number_at 0 ((b'0' + d) ∷ rest) ≡ number_at d rest
number_at_first d rest h = number_at_step 0 d rest h ∙ ap (λ k. number_at k rest) (omega arith)

number_at-print_digits :
    (fuel n : ℕ) (rest : Text)
    → n < 10 ^ suc fuel
    → number_at 0 (print_digits (suc fuel) n ++ rest) ≡ number_at n rest
unfolding print_digits
number_at-print_digits zero n rest h =
    rw (lt→ltb n 10 (omega arith)) (number_at_first n rest (omega arith))
number_at-print_digits (suc fuel) n rest h = elim (Bool-cases (ltb n 10)) [
  | inl e ↦ rw e (number_at_first n rest (ltb→lt n 10 e))
  | inr e ↦
      rw
        (
          e,
          append_assoc (print_digits (suc fuel) (n / 10)) ((b'0' + n % 10) ∷ []) rest,
          number_at-print_digits fuel (n / 10) ((b'0' + n % 10) ∷ rest) (omega (arith, h)),
          number_at_step (n / 10) (n % 10) rest (omega arith),
        )
        (ap (λ k. number_at k rest) (omega arith))
]

-- The number of a numbered name, read behind the stem and the opening bracket.
number_of : Text → Text → ℕ
unfolding number_at
number_of stem name = number_at 0 (drop 2 (drop (length stem) name))

number_of-numbered :
    (name : Text × Option Text) (i : ℕ) → i < 10 ^ 20 → number_of name.0 (numbered name i) ≡ i
unfolding number_of number_at
number_of-numbered (stem, none) i h =
    rw (drop-append stem (codes " (" ++ (print_digits 20 i ++ codes ")")))
      (number_at-print_digits 19 i (codes ")") h)
number_of-numbered (stem, some extension) i h =
    rw (drop-append stem (codes " (" ++ (print_digits 20 i ++ (codes ")." ++ extension))))
      (number_at-print_digits 19 i (codes ")." ++ extension) h)

candidate_name_injective :
    (name : Text) (i j : ℕ)
    → i < 10 ^ 20
    → j < 10 ^ 20
    → candidate_name name i ≡ candidate_name name j
    → i ≡ j
unfolding candidate_name
candidate_name_injective name i j h k e =
    sym (number_of-numbered (stem_and_extension name) i h)
    ∙ (ap (number_of (stem_and_extension name).0) e
        ∙ number_of-numbered (stem_and_extension name) j k)

length-remove_le : (dir : Directory) (name : Text) → length (remove name dir) ≤ length dir
unfolding remove
length-remove_le [] name = omega arith
length-remove_le ((n, c) ∷ dir) name = ground (arith, length-remove_le dir name)

length-remove :
    (dir : Directory) (name : Text) → exists dir name ≡ true → length (remove name dir) < length dir
unfolding lookup remove
length-remove [] name h = absurd (ground arith)
length-remove ((n, c) ∷ dir) name h = elim (Bool-cases (text_beq n name)) [
  | inl e ↦ ground (arith, length-remove_le dir name)
  | inr e ↦ ground (arith, length-remove dir name (ground arith))
]

-- The `count` candidates from number `i` on all exist.
AllExist : Directory → Text → ℕ → ℕ → Type 0
AllExist dir name i zero = Unit
AllExist dir name i (suc count) =
    (exists dir (candidate_name name i) ≡ true) × AllExist dir name (i + 1) count

first_free-AllExist :
    (fuel : ℕ) (dir : Directory) (name : Text) (i : ℕ)
    → first_free fuel dir name i ≡ none
    → AllExist dir name i fuel
unfolding first_free AllExist
first_free-AllExist zero dir name i h = tt
first_free-AllExist (suc fuel) dir name i h =
    elim (Bool-cases (exists dir (candidate_name name i))) [
      | inl e ↦ (e, first_free-AllExist fuel dir name (i + 1) (ground arith))
      | inr e ↦ absurd (ground arith)
    ]

AllExist-remove :
    (dir : Directory) (name : Text) (i j count : ℕ)
    → i < j
    → j + count ≤ 10 ^ 20
    → AllExist dir name j count
    → AllExist (remove (candidate_name name i) dir) name j count
unfolding AllExist
AllExist-remove dir name i j zero l b h = tt
AllExist-remove dir name i j (suc count) l b (h, k) = (
  ground (
    arith,
    lookup-remove {0, 0} (candidate_name name i) (candidate_name name j) dir,
    text_beq_iff (candidate_name name i) (candidate_name name j),
    candidate_name_injective name i j (omega arith) (omega arith),
  ),
  AllExist-remove dir name i (j + 1) count (omega arith) (omega arith) k,
)

-- A directory in which so many candidates exist has as many files.
AllExist-length :
    (dir : Directory) (name : Text) (i count : ℕ)
    → i + count ≤ 10 ^ 20
    → AllExist dir name i count
    → count ≤ length dir
unfolding AllExist
AllExist-length dir name i zero b h = omega arith
AllExist-length dir name i (suc count) b (h, k) = omega (
  arith,
  AllExist-length (remove (candidate_name name i) dir) name (i + 1) count (omega arith)
      (AllExist-remove dir name i (i + 1) count (omega arith) (omega arith) k),
  length-remove dir (candidate_name name i) h,
)

first_free-lookup :
    (fuel : ℕ) (dir : Directory) (name found : Text) (i : ℕ)
    → first_free fuel dir name i ≡ some found
    → exists dir found ≡ false
unfolding first_free
first_free-lookup zero dir name found i h = absurd (ground arith)
first_free-lookup (suc fuel) dir name found i h =
    elim (Bool-cases (exists dir (candidate_name name i))) [
      | inl e ↦ first_free-lookup fuel dir name found (i + 1) (ground arith)
      | inr e ↦ subst (λ t. exists dir t ≡ false) (ground arith) e
    ]

-- In a directory of fewer than 10^20 - 2 files, a destination is found, and no file has its name.
pub unique_dest_path_free :
    (dir : Directory) (name : Text)
    → length dir + 2 < 10 ^ 20
    → (found : Text) × ((unique_dest_path dir name ≡ some found) × (lookup found dir ≡ none))
unfolding unique_dest_path
unique_dest_path_free dir name h = elim (Bool-cases (exists dir name)) [
  | inl e ↦ elim (Option-cases (first_free (suc (length dir)) dir name 1)) [
    | inl f ↦ absurd (
        omega (
          arith,
          AllExist-length dir name 1 (suc (length dir)) (omega arith)
              (first_free-AllExist (suc (length dir)) dir name 1 f),
        ))
    | inr (found, f) ↦ (
      found,
      (ground arith, ground (arith, first_free-lookup (suc (length dir)) dir name found 1 f)),
    )
  ]
  | inr e ↦ (name, (ground arith, ground arith))
]

pub unique_dest_path-lookup :
    (dir : Directory) (name found : Text)
    → unique_dest_path dir name ≡ some found
    → lookup found dir ≡ none
unfolding unique_dest_path
unique_dest_path-lookup dir name found h = elim (Bool-cases (exists dir name)) [
  | inl e ↦ ground (arith, first_free-lookup (suc (length dir)) dir name found 1 (ground arith))
  | inr e ↦ ground arith
]
