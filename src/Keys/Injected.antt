-- ===== src/Keys/Injected.antt =====
-- The client's side of the key table: `code_to_key` of client/src/inject.rs and the helpers that
-- choose a key by the platform, a parameter where the source has `cfg` attributes.
use xkvm.Base.{
  ℕ, ◌+◌, Bool, true, Option, none, some, leb, ◌==◌, ◌&&◌, ◌≡◌, ◌↔◌, refl, sym, ap, ◌∙◌,
  if◌then◌else◌, Eq, min, arith, zero, suc,
}

-- `linux` is every Unix but macOS.
pub data Platform : Type 0 where
  windows linux macos : Platform

tags_beq_iff : (a b c d : ℕ) → ((a == c && b == d) ≡ true) ↔ ((a ≡ c) × (b ≡ d))
tags_beq_iff a b c d = ground arith

-- The keys of `enigo` that the table uses; `unicode` has a code point.
pub data InjectedKey : Type 0 where
  add alt backspace caps_lock decimal delete divide down_arrow end escape f1 f10 f11 f12 f13 f14 f15
        f2 f24 f3 f4 f5 f6 f7 f8 f9 function help home insert lcontrol left_arrow lshift meta
        multiply numlock numpad0 numpad1 numpad2 numpad3 numpad4 numpad5 numpad6 numpad7 numpad8
        numpad9 page_down page_up pause print rcontrol return right_arrow rshift scroll scroll_lock
        space subtract tab up_arrow :
      InjectedKey
  unicode : ℕ → InjectedKey

unfoldable pub numpad_digit : Platform → ℕ → InjectedKey
numpad_digit windows d =
    if d == 0
    then numpad0
    else if d == 1
    then numpad1
    else if d == 2
    then numpad2
    else if d == 3
    then numpad3
    else if d == 4
    then numpad4
    else if d == 5
    then numpad5
    else if d == 6
    then numpad6
    else if d == 7
    then numpad7
    else if d == 8
    then numpad8
    else numpad9
numpad_digit _ d = unicode (b'0' + min d 9)

unfoldable pub numpad_multiply : Platform → InjectedKey
numpad_multiply windows = multiply
numpad_multiply linux = unicode b'*'
numpad_multiply macos = unicode b'*'

unfoldable pub numpad_minus : Platform → InjectedKey
numpad_minus windows = subtract
numpad_minus linux = unicode b'-'
numpad_minus macos = unicode b'-'

unfoldable pub numpad_plus : Platform → InjectedKey
numpad_plus windows = add
numpad_plus linux = unicode b'+'
numpad_plus macos = unicode b'+'

unfoldable pub numpad_divide : Platform → InjectedKey
numpad_divide windows = divide
numpad_divide linux = unicode b'/'
numpad_divide macos = unicode b'/'

unfoldable pub numpad_delete : Platform → InjectedKey
numpad_delete windows = decimal
numpad_delete linux = delete
numpad_delete macos = delete

unfoldable pub numlock_key : Platform → Option InjectedKey
numlock_key windows = some numlock
numlock_key linux = some numlock
numlock_key macos = none

unfoldable pub scroll_lock_key : Platform → InjectedKey
scroll_lock_key windows = scroll
scroll_lock_key linux = scroll_lock
scroll_lock_key macos = f14

unfoldable pub print_screen_key : Platform → InjectedKey
print_screen_key windows = print
print_screen_key linux = print
print_screen_key macos = f13

unfoldable pub pause_key : Platform → InjectedKey
pause_key windows = pause
pause_key linux = pause
pause_key macos = f15

unfoldable pub insert_key : Platform → InjectedKey
insert_key windows = insert
insert_key linux = insert
insert_key macos = help

unfoldable pub function_key : Platform → InjectedKey
function_key windows = f24
function_key linux = f24
function_key macos = function

unfoldable pub code_to_key : Platform → ℕ → Option InjectedKey
unfolding numpad_digit numpad_multiply numpad_minus numpad_plus numpad_divide numpad_delete
    numlock_key scroll_lock_key print_screen_key pause_key insert_key function_key
code_to_key p code =
    if leb 0x1_0000 code
    then none
    else if code == 1
    then some escape
    else if code == 2
    then some (unicode 49)
    else if code == 3
    then some (unicode 50)
    else if code == 4
    then some (unicode 51)
    else if code == 5
    then some (unicode 52)
    else if code == 6
    then some (unicode 53)
    else if code == 7
    then some (unicode 54)
    else if code == 8
    then some (unicode 55)
    else if code == 9
    then some (unicode 56)
    else if code == 10
    then some (unicode 57)
    else if code == 11
    then some (unicode 48)
    else if code == 12
    then some (unicode 45)
    else if code == 13
    then some (unicode 61)
    else if code == 14
    then some backspace
    else if code == 15
    then some tab
    else if code == 16
    then some (unicode 113)
    else if code == 17
    then some (unicode 119)
    else if code == 18
    then some (unicode 101)
    else if code == 19
    then some (unicode 114)
    else if code == 20
    then some (unicode 116)
    else if code == 21
    then some (unicode 121)
    else if code == 22
    then some (unicode 117)
    else if code == 23
    then some (unicode 105)
    else if code == 24
    then some (unicode 111)
    else if code == 25
    then some (unicode 112)
    else if code == 26
    then some (unicode 91)
    else if code == 27
    then some (unicode 93)
    else if code == 28
    then some return
    else if code == 29
    then some lcontrol
    else if code == 30
    then some (unicode 97)
    else if code == 31
    then some (unicode 115)
    else if code == 32
    then some (unicode 100)
    else if code == 33
    then some (unicode 102)
    else if code == 34
    then some (unicode 103)
    else if code == 35
    then some (unicode 104)
    else if code == 36
    then some (unicode 106)
    else if code == 37
    then some (unicode 107)
    else if code == 38
    then some (unicode 108)
    else if code == 39
    then some (unicode 59)
    else if code == 40
    then some (unicode 39)
    else if code == 41
    then some (unicode 96)
    else if code == 42
    then some lshift
    else if code == 43
    then some (unicode 92)
    else if code == 44
    then some (unicode 122)
    else if code == 45
    then some (unicode 120)
    else if code == 46
    then some (unicode 99)
    else if code == 47
    then some (unicode 118)
    else if code == 48
    then some (unicode 98)
    else if code == 49
    then some (unicode 110)
    else if code == 50
    then some (unicode 109)
    else if code == 51
    then some (unicode 44)
    else if code == 52
    then some (unicode 46)
    else if code == 53
    then some (unicode 47)
    else if code == 54
    then some rshift
    else if code == 55
    then some (numpad_multiply p)
    else if code == 56
    then some alt
    else if code == 57
    then some space
    else if code == 58
    then some caps_lock
    else if code == 59
    then some f1
    else if code == 60
    then some f2
    else if code == 61
    then some f3
    else if code == 62
    then some f4
    else if code == 63
    then some f5
    else if code == 64
    then some f6
    else if code == 65
    then some f7
    else if code == 66
    then some f8
    else if code == 67
    then some f9
    else if code == 68
    then some f10
    else if code == 69
    then numlock_key p
    else if code == 70
    then some (scroll_lock_key p)
    else if code == 71
    then some (numpad_digit p 7)
    else if code == 72
    then some (numpad_digit p 8)
    else if code == 73
    then some (numpad_digit p 9)
    else if code == 74
    then some (numpad_minus p)
    else if code == 75
    then some (numpad_digit p 4)
    else if code == 76
    then some (numpad_digit p 5)
    else if code == 77
    then some (numpad_digit p 6)
    else if code == 78
    then some (numpad_plus p)
    else if code == 79
    then some (numpad_digit p 1)
    else if code == 80
    then some (numpad_digit p 2)
    else if code == 81
    then some (numpad_digit p 3)
    else if code == 82
    then some (numpad_digit p 0)
    else if code == 83
    then some (numpad_delete p)
    else if code == 86
    then some (unicode 92)
    else if code == 87
    then some f11
    else if code == 88
    then some f12
    else if code == 96
    then some return
    else if code == 97
    then some rcontrol
    else if code == 98
    then some (numpad_divide p)
    else if code == 99
    then some (print_screen_key p)
    else if code == 100
    then some alt
    else if code == 102
    then some home
    else if code == 103
    then some up_arrow
    else if code == 104
    then some page_up
    else if code == 105
    then some left_arrow
    else if code == 106
    then some right_arrow
    else if code == 107
    then some end
    else if code == 108
    then some down_arrow
    else if code == 109
    then some page_down
    else if code == 110
    then some (insert_key p)
    else if code == 111
    then some delete
    else if code == 119
    then some (pause_key p)
    else if code == 125
    then some meta
    else if code == 126
    then some meta
    else if code == 464
    then some (function_key p)
    else none

-- The derived equality of enigo's `Key`, through a number for each key.
injected_tag : InjectedKey → ℕ × ℕ
injected_tag (unicode c) = (0, suc c)
injected_tag add = (0, 0)
injected_tag alt = (1, 0)
injected_tag backspace = (2, 0)
injected_tag caps_lock = (3, 0)
injected_tag decimal = (4, 0)
injected_tag delete = (5, 0)
injected_tag divide = (6, 0)
injected_tag down_arrow = (7, 0)
injected_tag end = (8, 0)
injected_tag escape = (9, 0)
injected_tag f1 = (10, 0)
injected_tag f10 = (11, 0)
injected_tag f11 = (12, 0)
injected_tag f12 = (13, 0)
injected_tag f13 = (14, 0)
injected_tag f14 = (15, 0)
injected_tag f15 = (16, 0)
injected_tag f2 = (17, 0)
injected_tag f24 = (18, 0)
injected_tag f3 = (19, 0)
injected_tag f4 = (20, 0)
injected_tag f5 = (21, 0)
injected_tag f6 = (22, 0)
injected_tag f7 = (23, 0)
injected_tag f8 = (24, 0)
injected_tag f9 = (25, 0)
injected_tag function = (26, 0)
injected_tag help = (27, 0)
injected_tag home = (28, 0)
injected_tag insert = (29, 0)
injected_tag lcontrol = (30, 0)
injected_tag left_arrow = (31, 0)
injected_tag lshift = (32, 0)
injected_tag meta = (33, 0)
injected_tag multiply = (34, 0)
injected_tag numlock = (35, 0)
injected_tag numpad0 = (36, 0)
injected_tag numpad1 = (37, 0)
injected_tag numpad2 = (38, 0)
injected_tag numpad3 = (39, 0)
injected_tag numpad4 = (40, 0)
injected_tag numpad5 = (41, 0)
injected_tag numpad6 = (42, 0)
injected_tag numpad7 = (43, 0)
injected_tag numpad8 = (44, 0)
injected_tag numpad9 = (45, 0)
injected_tag page_down = (46, 0)
injected_tag page_up = (47, 0)
injected_tag pause = (48, 0)
injected_tag print = (49, 0)
injected_tag rcontrol = (50, 0)
injected_tag return = (51, 0)
injected_tag right_arrow = (52, 0)
injected_tag rshift = (53, 0)
injected_tag scroll = (54, 0)
injected_tag scroll_lock = (55, 0)
injected_tag space = (56, 0)
injected_tag subtract = (57, 0)
injected_tag tab = (58, 0)
injected_tag up_arrow = (59, 0)

named_key : ℕ → InjectedKey
named_key i =
    if i == 0
    then add
    else if i == 1
    then alt
    else if i == 2
    then backspace
    else if i == 3
    then caps_lock
    else if i == 4
    then decimal
    else if i == 5
    then delete
    else if i == 6
    then divide
    else if i == 7
    then down_arrow
    else if i == 8
    then end
    else if i == 9
    then escape
    else if i == 10
    then f1
    else if i == 11
    then f10
    else if i == 12
    then f11
    else if i == 13
    then f12
    else if i == 14
    then f13
    else if i == 15
    then f14
    else if i == 16
    then f15
    else if i == 17
    then f2
    else if i == 18
    then f24
    else if i == 19
    then f3
    else if i == 20
    then f4
    else if i == 21
    then f5
    else if i == 22
    then f6
    else if i == 23
    then f7
    else if i == 24
    then f8
    else if i == 25
    then f9
    else if i == 26
    then function
    else if i == 27
    then help
    else if i == 28
    then home
    else if i == 29
    then insert
    else if i == 30
    then lcontrol
    else if i == 31
    then left_arrow
    else if i == 32
    then lshift
    else if i == 33
    then meta
    else if i == 34
    then multiply
    else if i == 35
    then numlock
    else if i == 36
    then numpad0
    else if i == 37
    then numpad1
    else if i == 38
    then numpad2
    else if i == 39
    then numpad3
    else if i == 40
    then numpad4
    else if i == 41
    then numpad5
    else if i == 42
    then numpad6
    else if i == 43
    then numpad7
    else if i == 44
    then numpad8
    else if i == 45
    then numpad9
    else if i == 46
    then page_down
    else if i == 47
    then page_up
    else if i == 48
    then pause
    else if i == 49
    then print
    else if i == 50
    then rcontrol
    else if i == 51
    then return
    else if i == 52
    then right_arrow
    else if i == 53
    then rshift
    else if i == 54
    then scroll
    else if i == 55
    then scroll_lock
    else if i == 56
    then space
    else if i == 57
    then subtract
    else if i == 58
    then tab
    else up_arrow

untag_injected : ℕ → ℕ → InjectedKey
unfolding named_key
untag_injected i zero = named_key i
untag_injected i (suc c) = unicode c

untag_injected-tag :
    (key : InjectedKey) → untag_injected (injected_tag key).0 (injected_tag key).1 ≡ key
unfolding untag_injected injected_tag
untag_injected-tag (unicode c) = refl
untag_injected-tag key = refl

unfoldable pub injected_beq : InjectedKey → InjectedKey → Bool
unfolding injected_tag
injected_beq a b =
    (injected_tag a).0 == (injected_tag b).0 && (injected_tag a).1 == (injected_tag b).1

pub injected_beq_iff : (a b : InjectedKey) → (injected_beq a b ≡ true) ↔ (a ≡ b)
unfolding injected_beq
injected_beq_iff a b = (
  λ h.
      let same =
        (tags_beq_iff (injected_tag a).0 (injected_tag a).1 (injected_tag b).0 (injected_tag b).1).0
          h in
      sym (untag_injected-tag a)
      ∙ ap (λ x. untag_injected x (injected_tag a).1) same.0
      ∙ ap (λ x. untag_injected (injected_tag b).0 x) same.1
      ∙ untag_injected-tag b,
  λ h.
      (tags_beq_iff (injected_tag a).0 (injected_tag a).1 (injected_tag b).0 (injected_tag b).1).1 (
        ap (λ (k : InjectedKey). (injected_tag k).0) h,
        ap (λ (k : InjectedKey). (injected_tag k).1) h,
      ),
)

instance abbrev pub injected_eq : Eq InjectedKey
injected_eq = record { beq = injected_beq; beq_iff = injected_beq_iff }
