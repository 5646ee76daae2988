-- ===== src/Keys.antt =====
-- The keys that `rdev` reports, and `key_to_code` of server/src/capture.rs, the code that a key has
-- on the wire. `Keys.Injected` has the client's side of the table, and `Keys.Table` what the two
-- tables say together.
pub mod Injected
pub mod Table
use xkvm.Base.{
  ℕ, zero, suc, ◌+◌, ◌%◌, ◌^◌, ◌≡◌, refl, sym, ap, ◌∙◌, ◌↔◌, Bool, true, ◌&&◌, arith, ltb, ◌==◌,
  if◌then◌else◌, Eq,
}

-- `rdev::Key`; `unknown` has the system's own code, a `u32`.
pub data Key : Type 0 where
  escape num1 num2 num3 num4 num5 num6 num7 num8 num9 num0 minus equal backspace tab key_q key_w
        key_e key_r key_t key_y key_u key_i key_o key_p left_bracket right_bracket return
        control_left key_a key_s key_d key_f key_g key_h key_j key_k key_l semi_colon quote
        back_quote shift_left back_slash key_z key_x key_c key_v key_b key_n key_m comma dot slash
        shift_right kp_multiply alt space caps_lock f1 f2 f3 f4 f5 f6 f7 f8 f9 f10 num_lock
        scroll_lock kp7 kp8 kp9 kp_minus kp4 kp5 kp6 kp_plus kp1 kp2 kp3 kp0 kp_delete
        intl_backslash f11 f12 kp_return control_right kp_divide print_screen alt_gr home up_arrow
        page_up left_arrow right_arrow end down_arrow page_down insert delete pause meta_left
        meta_right function :
      Key
  unknown : ℕ → Key

-- `0x1_0000 + n` is an addition of `u32`, which wraps in a release build.
unfoldable pub key_to_code : Key → ℕ
key_to_code escape = 1
key_to_code num1 = 2
key_to_code num2 = 3
key_to_code num3 = 4
key_to_code num4 = 5
key_to_code num5 = 6
key_to_code num6 = 7
key_to_code num7 = 8
key_to_code num8 = 9
key_to_code num9 = 10
key_to_code num0 = 11
key_to_code minus = 12
key_to_code equal = 13
key_to_code backspace = 14
key_to_code tab = 15
key_to_code key_q = 16
key_to_code key_w = 17
key_to_code key_e = 18
key_to_code key_r = 19
key_to_code key_t = 20
key_to_code key_y = 21
key_to_code key_u = 22
key_to_code key_i = 23
key_to_code key_o = 24
key_to_code key_p = 25
key_to_code left_bracket = 26
key_to_code right_bracket = 27
key_to_code return = 28
key_to_code control_left = 29
key_to_code key_a = 30
key_to_code key_s = 31
key_to_code key_d = 32
key_to_code key_f = 33
key_to_code key_g = 34
key_to_code key_h = 35
key_to_code key_j = 36
key_to_code key_k = 37
key_to_code key_l = 38
key_to_code semi_colon = 39
key_to_code quote = 40
key_to_code back_quote = 41
key_to_code shift_left = 42
key_to_code back_slash = 43
key_to_code key_z = 44
key_to_code key_x = 45
key_to_code key_c = 46
key_to_code key_v = 47
key_to_code key_b = 48
key_to_code key_n = 49
key_to_code key_m = 50
key_to_code comma = 51
key_to_code dot = 52
key_to_code slash = 53
key_to_code shift_right = 54
key_to_code kp_multiply = 55
key_to_code alt = 56
key_to_code space = 57
key_to_code caps_lock = 58
key_to_code f1 = 59
key_to_code f2 = 60
key_to_code f3 = 61
key_to_code f4 = 62
key_to_code f5 = 63
key_to_code f6 = 64
key_to_code f7 = 65
key_to_code f8 = 66
key_to_code f9 = 67
key_to_code f10 = 68
key_to_code num_lock = 69
key_to_code scroll_lock = 70
key_to_code kp7 = 71
key_to_code kp8 = 72
key_to_code kp9 = 73
key_to_code kp_minus = 74
key_to_code kp4 = 75
key_to_code kp5 = 76
key_to_code kp6 = 77
key_to_code kp_plus = 78
key_to_code kp1 = 79
key_to_code kp2 = 80
key_to_code kp3 = 81
key_to_code kp0 = 82
key_to_code kp_delete = 83
key_to_code intl_backslash = 86
key_to_code f11 = 87
key_to_code f12 = 88
key_to_code kp_return = 96
key_to_code control_right = 97
key_to_code kp_divide = 98
key_to_code print_screen = 99
key_to_code alt_gr = 100
key_to_code home = 102
key_to_code up_arrow = 103
key_to_code page_up = 104
key_to_code left_arrow = 105
key_to_code right_arrow = 106
key_to_code end = 107
key_to_code down_arrow = 108
key_to_code page_down = 109
key_to_code insert = 110
key_to_code delete = 111
key_to_code pause = 119
key_to_code meta_left = 125
key_to_code meta_right = 126
key_to_code function = 464
key_to_code (unknown n) = (0x1_0000 + n) % 2 ^ 32

-- The derived equality of `Key`: each key has a pair of numbers of its own.
key_tag : Key → ℕ × ℕ
unfolding key_to_code
key_tag (unknown n) = (0, suc n)
key_tag key = (key_to_code key, 0)

-- The key of a canonical code.
unfoldable pub key_of_code : ℕ → Key
key_of_code c =
    if c == 1
    then escape
    else if c == 2
    then num1
    else if c == 3
    then num2
    else if c == 4
    then num3
    else if c == 5
    then num4
    else if c == 6
    then num5
    else if c == 7
    then num6
    else if c == 8
    then num7
    else if c == 9
    then num8
    else if c == 10
    then num9
    else if c == 11
    then num0
    else if c == 12
    then minus
    else if c == 13
    then equal
    else if c == 14
    then backspace
    else if c == 15
    then tab
    else if c == 16
    then key_q
    else if c == 17
    then key_w
    else if c == 18
    then key_e
    else if c == 19
    then key_r
    else if c == 20
    then key_t
    else if c == 21
    then key_y
    else if c == 22
    then key_u
    else if c == 23
    then key_i
    else if c == 24
    then key_o
    else if c == 25
    then key_p
    else if c == 26
    then left_bracket
    else if c == 27
    then right_bracket
    else if c == 28
    then return
    else if c == 29
    then control_left
    else if c == 30
    then key_a
    else if c == 31
    then key_s
    else if c == 32
    then key_d
    else if c == 33
    then key_f
    else if c == 34
    then key_g
    else if c == 35
    then key_h
    else if c == 36
    then key_j
    else if c == 37
    then key_k
    else if c == 38
    then key_l
    else if c == 39
    then semi_colon
    else if c == 40
    then quote
    else if c == 41
    then back_quote
    else if c == 42
    then shift_left
    else if c == 43
    then back_slash
    else if c == 44
    then key_z
    else if c == 45
    then key_x
    else if c == 46
    then key_c
    else if c == 47
    then key_v
    else if c == 48
    then key_b
    else if c == 49
    then key_n
    else if c == 50
    then key_m
    else if c == 51
    then comma
    else if c == 52
    then dot
    else if c == 53
    then slash
    else if c == 54
    then shift_right
    else if c == 55
    then kp_multiply
    else if c == 56
    then alt
    else if c == 57
    then space
    else if c == 58
    then caps_lock
    else if c == 59
    then f1
    else if c == 60
    then f2
    else if c == 61
    then f3
    else if c == 62
    then f4
    else if c == 63
    then f5
    else if c == 64
    then f6
    else if c == 65
    then f7
    else if c == 66
    then f8
    else if c == 67
    then f9
    else if c == 68
    then f10
    else if c == 69
    then num_lock
    else if c == 70
    then scroll_lock
    else if c == 71
    then kp7
    else if c == 72
    then kp8
    else if c == 73
    then kp9
    else if c == 74
    then kp_minus
    else if c == 75
    then kp4
    else if c == 76
    then kp5
    else if c == 77
    then kp6
    else if c == 78
    then kp_plus
    else if c == 79
    then kp1
    else if c == 80
    then kp2
    else if c == 81
    then kp3
    else if c == 82
    then kp0
    else if c == 83
    then kp_delete
    else if c == 86
    then intl_backslash
    else if c == 87
    then f11
    else if c == 88
    then f12
    else if c == 96
    then kp_return
    else if c == 97
    then control_right
    else if c == 98
    then kp_divide
    else if c == 99
    then print_screen
    else if c == 100
    then alt_gr
    else if c == 102
    then home
    else if c == 103
    then up_arrow
    else if c == 104
    then page_up
    else if c == 105
    then left_arrow
    else if c == 106
    then right_arrow
    else if c == 107
    then end
    else if c == 108
    then down_arrow
    else if c == 109
    then page_down
    else if c == 110
    then insert
    else if c == 111
    then delete
    else if c == 119
    then pause
    else if c == 125
    then meta_left
    else if c == 126
    then meta_right
    else function

untag : ℕ → ℕ → Key
unfolding key_of_code
untag c zero = key_of_code c
untag c (suc n) = unknown n

untag-key_tag : (key : Key) → untag (key_tag key).0 (key_tag key).1 ≡ key
unfolding untag key_tag
untag-key_tag (unknown n) = refl
untag-key_tag key = refl

unfoldable pub key_beq : Key → Key → Bool
unfolding key_tag
key_beq a b = (key_tag a).0 == (key_tag b).0 && (key_tag a).1 == (key_tag b).1

tags_beq_iff : (a b c d : ℕ) → ((a == c && b == d) ≡ true) ↔ ((a ≡ c) × (b ≡ d))
tags_beq_iff a b c d = ground arith

pub key_beq_iff : (a b : Key) → (key_beq a b ≡ true) ↔ (a ≡ b)
unfolding key_beq
key_beq_iff a b = (
  λ h.
      let same = (tags_beq_iff (key_tag a).0 (key_tag a).1 (key_tag b).0 (key_tag b).1).0 h in
      sym (untag-key_tag a)
      ∙ ap (λ x. untag x (key_tag a).1) same.0
      ∙ ap (λ x. untag (key_tag b).0 x) same.1
      ∙ untag-key_tag b,
  λ h.
      (tags_beq_iff (key_tag a).0 (key_tag a).1 (key_tag b).0 (key_tag b).1).1
        (ap (λ (k : Key). (key_tag k).0) h, ap (λ (k : Key). (key_tag k).1) h),
)

instance abbrev pub key_eq : Eq Key
key_eq = record { beq = key_beq; beq_iff = key_beq_iff }
