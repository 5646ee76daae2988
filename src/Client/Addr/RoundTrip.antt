-- ===== src/Client/Addr/RoundTrip.antt =====
-- Parsing after formatting, and what a parsed address is.
use xkvm.Base.{
  ℕ, suc, ◌+◌, ◌%◌, ◌≤◌, ◌≡◌, refl, sym, ap, ◌∙◌, ◌≢◌, inl, inr, false, ◌&&◌, Option, none, some,
  [], ◌∷◌, ◌++◌, append_assoc, arith, ◌==◌, if◌then◌else◌, Bool-cases, Option-cases, nat_eq,
  contains, Text, text_eq, is_whitespace, is_nil, trim_start, trim_end, trim,
}
use xkvm.Client.Addr.{
  Result, ok, panic, split_once, rsplit_once, count, parse_trimmed, parse_host_port,
  format_host_port, with_port, host_and_port, bracketed, unbracketed, after_bracket,
}
use xkvm.Client.Addr.Decimal.{
  parse_u16, print_u16, parse_u16-print_u16, print_u16-last, print_u16-contains, parse_u16-le,
}

-- Text that ends in a character which is no white space is not shortened at its end.
trim_end-append :
    (s : Text) (c : ℕ) → is_whitespace c ≡ false → trim_end (s ++ c ∷ []) ≡ s ++ c ∷ []
unfolding trim_end
trim_end-append [] c h = rw h
trim_end-append (x ∷ s) c h = rw (trim_end-append s c h) (nonempty s)
  where
    nonempty :
        (s : Text)
        → (if is_nil (s ++ c ∷ []) && is_whitespace x then [] else x ∷ (s ++ c ∷ []))
          ≡ x ∷ (s ++ c ∷ [])
    nonempty [] = refl
    nonempty (y ∷ s) = refl

digit_no_space : (n : ℕ) → is_whitespace (b'0' + n % 10) ≡ false
unfolding is_whitespace
digit_no_space n = ground arith

pub split_once-append :
    (c : ℕ) (host after : Text)
    → contains c host ≡ false
    → split_once c (host ++ (c ∷ after)) ≡ some (host, after)
unfolding split_once contains
split_once-append c [] after h = ground arith
split_once-append c (x ∷ host) after h = ground (arith, split_once-append c host after)

rsplit_once_absent : (c : ℕ) (s : Text) → contains c s ≡ false → rsplit_once c s ≡ none
unfolding rsplit_once contains
rsplit_once_absent c [] h = refl
rsplit_once_absent c (x ∷ s) h = ground (arith, rsplit_once_absent c s)

rsplit_once-append :
    (c : ℕ) (host after : Text)
    → contains c after ≡ false
    → rsplit_once c (host ++ (c ∷ after)) ≡ some (host, after)
unfolding rsplit_once
rsplit_once-append c [] after h = rw (rsplit_once_absent c after h) (ground arith)
rsplit_once-append c (x ∷ host) after h = rw (rsplit_once-append c host after h)

count_absent : (c : ℕ) (s : Text) → contains c s ≡ false → count c s ≡ 0
unfolding count contains
count_absent c [] h = refl
count_absent c (x ∷ s) h = ground (arith, count_absent c s)

count-append : (c : ℕ) (s t : Text) → count c (s ++ t) ≡ count c s + count c t
unfolding count
count-append c [] t = omega arith
count-append c (x ∷ s) t = ground (arith, count-append c s t)

pub trim_fixed :
    (c d : ℕ) (s pre : Text)
    → is_whitespace c ≡ false
    → is_whitespace d ≡ false
    → c ∷ s ≡ pre ++ d ∷ []
    → trim (c ∷ s) ≡ c ∷ s
unfolding trim
trim_fixed c d s pre hc hd e =
    let start : trim_start (c ∷ s) ≡ c ∷ s = rw hc refl in
    ap trim_end (start ∙ e) ∙ trim_end-append pre d hd ∙ sym e

-- A host that can be printed: it is not empty and does not begin with white space; with a colon it
-- has no closing bracket, and without one it does not begin with an opening bracket.
abbrev pub IsHost : Text → Type 0
IsHost [] = ⊥
IsHost (c ∷ s) =
    (is_whitespace c ≡ false)
    × ((if contains b':' (c ∷ s) then contains b']' (c ∷ s) else c == b'[') ≡ false)

with_port-print :
    (host : Text) (port : ℕ) → port ≤ 65535 → with_port host (print_u16 port) ≡ ok host port
with_port-print host port h = rw (parse_u16-print_u16 port h, with_port)

trim-format :
    (c : ℕ) (s mid : Text) (port : ℕ)
    → is_whitespace c ≡ false
    → trim (c ∷ (s ++ (mid ++ print_u16 port))) ≡ c ∷ (s ++ (mid ++ print_u16 port))
trim-format c s mid port h =
    let (front, last) = print_u16-last port in
    trim_fixed c (b'0' + port % 10) (s ++ (mid ++ print_u16 port)) (c ∷ (s ++ (mid ++ front))) h
      (digit_no_space port)
      (ap (λ t. c ∷ (s ++ (mid ++ t))) last
        ∙ ap (λ t. c ∷ (s ++ t)) (sym (append_assoc mid front ((b'0' + port % 10) ∷ [])))
        ∙ ap (λ t. c ∷ t) (sym (append_assoc s (mid ++ front) ((b'0' + port % 10) ∷ []))))

pub bracket_no_space : is_whitespace b'[' ≡ false
unfolding is_whitespace
bracket_no_space = refl

count-format :
    (host : Text) (port : ℕ)
    → contains b':' host ≡ false
    → count b':' (host ++ (b':' ∷ print_u16 port)) ≡ 1
count-format host port h =
    let tail : count b':' (b':' ∷ print_u16 port) ≡ 1 =
      unfold count in
      ap suc (count_absent b':' (print_u16 port) (print_u16-contains b':' port refl)) in
    omega (arith, count-append b':' host (b':' ∷ print_u16 port), count_absent b':' host h)

unbracketed-format :
    (c : ℕ) (s : Text) (port d : ℕ)
    → contains b':' (c ∷ s) ≡ false
    → port ≤ 65535
    → unbracketed d (c ∷ (s ++ (b':' ∷ print_u16 port))) ≡ ok (c ∷ s) port
unbracketed-format c s port d h p =
    let one = count-format (c ∷ s) port h in
    let split =
      rsplit_once-append b':' (c ∷ s) (print_u16 port) (print_u16-contains b':' port refl) in
    rw (one, unbracketed) (rw (split, host_and_port) (with_port-print (c ∷ s) port p))

-- Parsing gives back what was formatted, whatever the default port, for a port up to 65535 and a
-- host that is not empty, does not begin with white space, has no `]` if it has a colon, and does
-- not begin with `[` if it has none.
pub parse_host_port-format_host_port :
    (host : Text) (port default_port : ℕ)
    → IsHost host
    → port ≤ 65535
    → parse_host_port (format_host_port host port) default_port ≡ ok host port
unfolding parse_host_port format_host_port
parse_host_port-format_host_port [] port d h p = absurd h
parse_host_port-format_host_port (c ∷ s) port d h p = elim (Bool-cases (contains b':' (c ∷ s))) [
  | inl v6 ↦ rw v6 (
      ap (parse_trimmed d) (trim-format b'[' (c ∷ s) (b']' ∷ b':' ∷ []) port bracket_no_space)
      ∙ ap (bracketed d)
          (split_once-append b']' (c ∷ s) (b':' ∷ print_u16 port) (ground (arith, h.1, v6)))
      ∙ with_port-print (c ∷ s) port p)
  | inr plain ↦
      let no_bracket : (c == b'[') ≡ false = ground (arith, h.1, plain) in
      rw plain (
        ap (parse_trimmed d) (trim-format c s (b':' ∷ []) port h.0)
        ∙ ap
            (λ b.
              if b
              then bracketed d (split_once b']' (s ++ (b':' ∷ print_u16 port)))
              else unbracketed d (c ∷ (s ++ (b':' ∷ print_u16 port))))
            no_bracket
        ∙ unbracketed-format c s port d plain p)
]

-- A colon that is counted is found.
rsplit_once_found : (c : ℕ) (s : Text) → rsplit_once c s ≡ none → count c s ≡ 0
unfolding rsplit_once count
rsplit_once_found c [] h = refl
rsplit_once_found c (x ∷ s) h = ground (arith, rsplit_once_found c s)

-- What a result may be: a host that is not empty and a port of 16 bits, or an error, but no panic.
abbrev pub IsSound : Result → Type 0
IsSound (ok host port) = (host ≢ []) × (port ≤ 65535)
IsSound panic = ⊥
IsSound _ = Unit

with_port-IsSound : (c : ℕ) (host p : Text) → IsSound (with_port (c ∷ host) p)
with_port-IsSound c host p = elim (Option-cases (parse_u16 p)) [
  | inl e ↦ rw (e, with_port) tt
  | inr (n, e) ↦ rw (e, with_port) (ground arith, parse_u16-le p n e)
]

after_bracket-IsSound :
    (d c : ℕ) (host after : Text) → d ≤ 65535 → IsSound (after_bracket d (c ∷ host) after)
after_bracket-IsSound d c host [] w = (ground arith, w)
after_bracket-IsSound d c host (x ∷ p) w = elim (Bool-cases (x == b':')) [
  | inl e ↦ rw e (with_port-IsSound c host p)
  | inr e ↦ rw e tt
]

bracketed-IsSound : (d : ℕ) (o : Option (Text × Text)) → d ≤ 65535 → IsSound (bracketed d o)
bracketed-IsSound d none w = tt
bracketed-IsSound d (some ([], after)) w = tt
bracketed-IsSound d (some (c ∷ host, after)) w = after_bracket-IsSound d c host after w

host_and_port-IsSound : (o : Option (Text × Text)) → o ≢ none → IsSound (host_and_port o)
host_and_port-IsSound none n = n refl
host_and_port-IsSound (some ([], p)) n = tt
host_and_port-IsSound (some (c ∷ host, p)) n = with_port-IsSound c host p

unbracketed-IsSound : (d c : ℕ) (s : Text) → d ≤ 65535 → IsSound (unbracketed d (c ∷ s))
unbracketed-IsSound d c s w = elim (Bool-cases (count b':' (c ∷ s) == 1)) [
  | inr e ↦ rw (e, unbracketed) (ground arith, w)
  | inl e ↦
      rw (e, unbracketed)
        (host_and_port-IsSound (rsplit_once b':' (c ∷ s))
          λ absent. let none_counted = rsplit_once_found b':' (c ∷ s) absent in ground arith)
]

parse_trimmed-IsSound : (d : ℕ) (s : Text) → d ≤ 65535 → IsSound (parse_trimmed d s)
parse_trimmed-IsSound d [] w = tt
parse_trimmed-IsSound d (c ∷ s) w = elim (Bool-cases (c == b'[')) [
  | inl e ↦ rw e (bracketed-IsSound d (split_once b']' s) w)
  | inr e ↦ rw e (unbracketed-IsSound d c s w)
]

-- On any text the parser ends with a host that is not empty and a port of 16 bits, or with an
-- error; it never splits at a colon that is not there.
parse_host_port-IsSound :
    (s : Text) (default_port : ℕ) → default_port ≤ 65535 → IsSound (parse_host_port s default_port)
unfolding parse_host_port
parse_host_port-IsSound s d w = parse_trimmed-IsSound d (trim s) w
