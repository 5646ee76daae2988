-- ===== src/Client/Addr.antt =====
-- Addresses, client/src/addr.rs. A text is a list of code points; an error is given by its kind,
-- and `panic` stands for the `unwrap` of a missing colon.
pub mod Decimal
pub mod RoundTrip
pub mod Brackets
use xkvm.Base.{
  ℕ, zero, suc, ◌+◌, ◌-◌, ◌*◌, ◌/◌, ◌%◌, ◌^◌, ◌≤◌, ◌<◌, min, max, ◌≡◌, refl, sym, ap, ◌∙◌, ◌≢◌, ◌↔◌,
  ◌⊎◌, inl, inr, Bool, true, false, not, ◌&&◌, ◌||◌, Option, none, some, List, [], ◌∷◌, ◌++◌, map,
  append_assoc, append-nil, arith, subst, ltb, leb, ◌==◌, if◌then◌else◌, ltb→lt, lt→ltb, ltb→le,
  le→ltb, leb→le, le→leb, ==_iff, tests, Bool-cases, Option-cases, is_some, unwrap_or, ◌>>=◌,
  length, take, drop, All, length-append, take-append-drop, length-take, length-drop, take-append,
  drop-append, All-append, Eq, nat_eq, lookup, insert, remove, lookup-insert, lookup-insert_self,
  lookup-remove, contains, add, without, contains-add, contains-without, Text, codes, text_beq,
  text_beq_iff, text_eq, utf8, byte_len, is_whitespace, is_nil, trim_start, trim_end, trim,
}
use xkvm.Client.Addr.Decimal.{parse_u16, print_u16}

pub data Result : Type 0 where
  ok : (host : Text) → (port : ℕ) → Result
  empty_address missing_bracket empty_host invalid_port trailing_characters panic : Result

-- What stands before the first `c`, and behind it.
unfoldable pub split_once : ℕ → Text → Option (Text × Text)
split_once c [] = none
split_once c (x ∷ s) =
    let rest = split_once c s in if x == c then some ([], s) else rest >>= λ r. some (x ∷ r.0, r.1)

-- What stands before the last `c`, and behind it.
unfoldable pub rsplit_once : ℕ → Text → Option (Text × Text)
rsplit_once c [] = none
rsplit_once c (x ∷ s) = elim (rsplit_once c s) [
  | some r ↦ some (x ∷ r.0, r.1)
  | none ↦ if x == c then some ([], s) else none
]

-- `s.matches(c).count()`.
unfoldable pub count : ℕ → Text → ℕ
count c [] = 0
count c (x ∷ s) = let rest = count c s in if x == c then suc rest else rest

-- `str::parse` of the port behind a colon.
abbrev with_port : Text → Text → Result
with_port host p = elim (parse_u16 p) [ none ↦ invalid_port | some port ↦ ok host port ]

-- What follows the closing bracket.
abbrev after_bracket : ℕ → Text → Text → Result
after_bracket default_port host [] = ok host default_port
after_bracket default_port host (c ∷ p) =
    if c == b':' then with_port host p else trailing_characters

abbrev bracketed : ℕ → Option (Text × Text) → Result
bracketed default_port none = missing_bracket
bracketed default_port (some ([], after)) = empty_host
bracketed default_port (some (c ∷ host, after)) = after_bracket default_port (c ∷ host) after

abbrev host_and_port : Option (Text × Text) → Result
host_and_port none = panic
host_and_port (some ([], p)) = empty_host
host_and_port (some (c ∷ host, p)) = with_port (c ∷ host) p

abbrev unbracketed : ℕ → Text → Result
unbracketed default_port s =
    if count b':' s == 1 then host_and_port (rsplit_once b':' s) else ok s default_port

abbrev parse_trimmed : ℕ → Text → Result
parse_trimmed default_port [] = empty_address
parse_trimmed default_port (c ∷ s) =
    if c == b'['
    then bracketed default_port (split_once b']' s)
    else unbracketed default_port (c ∷ s)

unfoldable pub parse_host_port : Text → ℕ → Result
unfolding trim split_once rsplit_once count
parse_host_port s default_port = parse_trimmed default_port (trim s)

unfoldable pub format_host_port : Text → ℕ → Text
format_host_port host port =
    if contains b':' host
    then b'[' ∷ (host ++ (b']' ∷ (b':' ∷ print_u16 port)))
    else host ++ (b':' ∷ print_u16 port)
