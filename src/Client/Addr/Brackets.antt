-- ===== src/Client/Addr/Brackets.antt =====
-- An IPv6 address in brackets without a port, for the parser of client/src/addr.rs.
use xkvm.Base.{
  ℕ, ◌≡◌, refl, ap, ◌∙◌, ◌≢◌, false, [], ◌∷◌, ◌++◌, nat_eq, contains, Text, text_eq, is_whitespace,
}
use xkvm.Client.Addr.{ok, bracketed, parse_trimmed, parse_host_port}
use xkvm.Client.Addr.RoundTrip.{trim_fixed, split_once-append, bracket_no_space}

bracket_closed : is_whitespace b']' ≡ false
unfolding is_whitespace
bracket_closed = refl

-- It is parsed to the address and the default port.
pub parse_host_port_bracketed :
    (host : Text) (default_port : ℕ)
    → host ≢ []
    → contains b']' host ≡ false
    → parse_host_port (b'[' ∷ (host ++ (b']' ∷ []))) default_port ≡ ok host default_port
unfolding parse_host_port
parse_host_port_bracketed [] d n h = absurd (n refl)
parse_host_port_bracketed (c ∷ s) d n h =
    ap (parse_trimmed d) (
      trim_fixed b'[' b']' (c ∷ (s ++ (b']' ∷ []))) (b'[' ∷ (c ∷ s)) bracket_no_space bracket_closed
        refl)
    ∙ ap (bracketed d) (split_once-append b']' (c ∷ s) [] h)
