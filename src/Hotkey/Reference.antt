-- ===== src/Hotkey/Reference.antt =====
-- What the parser of hotkeys accepts, server/src/hotkey.rs.
use xkvm.Base.{
  ◌≡◌, refl, ◌∙◌, ◌⊎◌, inl, inr, Bool, true, false, ◌||◌, Option, none, some, List, [], ◌∷◌, arith,
  if◌then◌else◌, Bool-cases, Option-cases, ◌>>=◌, nat_eq, Text, codes, text_beq, text_beq_iff,
  text_eq,
}
use xkvm.Keys.{Key}
use xkvm.Client.Handshake.{Casing}
use xkvm.Capture.Modifiers.{HotkeyChord}
use xkvm.Hotkey.{
  HotkeyError, multiple_keys, Result, ok, err, and_then, Found, is_ctrl, is_alt, is_shift, is_meta,
  parts_of, parse_key_name, parse_part, parse_parts, nothing_found, chord_of, parse_hotkey,
}

-- The result without the kind of error.
abbrev pub accepted {ℓ} : {A : Type ℓ} → Result A → Option A
accepted (ok a) = some a
accepted (err e) = none

any {ℓ} : {A : Type ℓ} → (A → Bool) → List A → Bool
any f [] = false
any f (a ∷ l) = f a || any f l

abbrev is_modifier : Text → Bool
is_modifier p = is_ctrl p || (is_alt p || (is_shift p || is_meta p))

alt_only : (p : Text) → is_alt p ≡ true → (is_shift p ≡ false) × (is_meta p ≡ false)
unfolding text_beq
alt_only p h = rw ((text_beq_iff p (codes "alt")).0 h) (refl, refl)

shift_only : (p : Text) → is_shift p ≡ true → is_meta p ≡ false
unfolding text_beq
shift_only p h = rw ((text_beq_iff p (codes "shift")).0 h) refl

ctrl_only :
    (p : Text)
    → is_ctrl p ≡ true
    → (is_alt p ≡ false) × ((is_shift p ≡ false) × (is_meta p ≡ false))
unfolding text_beq
ctrl_only p h = elim (Bool-cases (text_beq p (codes "ctrl"))) [
  | inl e ↦ rw ((text_beq_iff p (codes "ctrl")).0 e) (refl, (refl, refl))
  | inr e ↦ rw ((text_beq_iff p (codes "control")).0 (rw e at h)) (refl, (refl, refl))
]

List-cases {ℓ} : {A : Type ℓ} (l : List A) → (l ≡ []) ⊎ ((a : A) × (k : List A) × (l ≡ a ∷ k))
List-cases [] = inl refl
List-cases (a ∷ l) = inr (a, l, refl)

Result-cases {ℓ} :
    {A : Type ℓ} (r : Result A) → ((e : HotkeyError) × (r ≡ err e)) ⊎ ((a : A) × (r ≡ ok a))
Result-cases (ok a) = inr (a, refl)
Result-cases (err e) = inl (e, refl)

or_false : (a : Bool) → (a || false) ≡ a
or_false a = ground arith

or_true : (a : Bool) → (a || true) ≡ true
or_true a = ground arith

module _ (casing : Casing) where
  -- The lower-case parts that name no modifier.
  unfoldable pub keys_of : List Text → List Text
  keys_of [] = []
  keys_of (part ∷ parts) =
      let p = casing.to_lowercase part in if is_modifier p then keys_of parts else p ∷ keys_of parts

  -- Whether a part is one of these.
  unfoldable pub held : (Text → Bool) → List Text → Bool
  held f [] = false
  held f (part ∷ parts) = f (casing.to_lowercase part) || held f parts

  -- The one key that is named, if it is one.
  unfoldable pub sole_key : List Text → Option Key
  sole_key [] = none
  sole_key (p ∷ []) = accepted (parse_key_name casing p)
  sole_key (p ∷ (q ∷ ps)) = none

  -- The key after the parts `ps`, when `found` is there before; `none` is an error.
  unfoldable key_after : Option Key → List Text → Option (Option Key)
  unfolding sole_key
  key_after (some key) [] = some (some key)
  key_after (some key) (p ∷ ps) = none
  key_after none [] = some none
  key_after none (p ∷ ps) = sole_key (p ∷ ps) >>= λ key. some (some key)

  abbrev found_after : Bool → Bool → Bool → Bool → Option Key → List Text → Option Found
  found_after c a s m key parts = key_after key (keys_of parts) >>= λ k. some (record {
    ctrl = c || held is_ctrl parts;
    alt = a || held is_alt parts;
    shift = s || held is_shift parts;
    meta = m || held is_meta parts;
    key = k;
  })

  -- A part that names no modifier.
  key_part :
      (p : Text) (parts : List Text) (c a s m : Bool) (key : Option Key)
      → ((k : Key)
          → accepted (
              parse_parts casing parts
                (record { ctrl = c; alt = a; shift = s; meta = m; key = some k }))
            ≡ found_after c a s m (some k) parts)
      → accepted (
          and_then
            (elim key [
              | some k ↦ err multiple_keys
              | none ↦
                  and_then
                    (parse_key_name casing p)
                    (λ k. ok (record { ctrl = c; alt = a; shift = s; meta = m; key = some k }))
            ])
            (parse_parts casing parts))
        ≡ (key_after key (p ∷ keys_of parts) >>= λ k. some (record {
          ctrl = c || held is_ctrl parts;
          alt = a || held is_alt parts;
          shift = s || held is_shift parts;
          meta = m || held is_meta parts;
          key = k;
        }))
  unfolding key_after sole_key
  key_part p parts c a s m (some k) ih = refl
  key_part p parts c a s m none ih = elim (Result-cases (parse_key_name casing p)) [
    | inl (e, h) ↦ elim (List-cases (keys_of parts)) [
      | inl l ↦ rw (h, l, h) refl
      | inr (q, ps, l) ↦ rw (h, l) refl
    ]
    | inr (k, h) ↦ elim (List-cases (keys_of parts)) [
      | inl l ↦ rw (l, h) (ih k ∙ rw l refl)
      | inr (q, ps, l) ↦ rw (l, h) (ih k ∙ rw l refl)
    ]
  ]

  accepted-and_then :
      (r : Result Found)
      → accepted (and_then r (chord_of casing)) ≡ (
          accepted r >>= λ f. f.key >>= λ key.
          some (record { ctrl = f.ctrl; alt = f.alt; shift = f.shift; meta = f.meta; key = key }))
  accepted-and_then (err e) = refl
  accepted-and_then (ok f) = elim (Option-cases f.key) [
    | inl e ↦ rw e refl
    | inr (k, e) ↦ rw e refl
  ]

  parse_parts_lem :
      (parts : List Text) (c a s m : Bool) (key : Option Key)
      → accepted
          (parse_parts casing parts (record { ctrl = c; alt = a; shift = s; meta = m; key = key }))
        ≡ found_after c a s m key parts
  unfolding parse_parts keys_of held key_after
  parse_parts_lem [] c a s m none = rw (or_false c, or_false a, or_false s, or_false m) refl
  parse_parts_lem [] c a s m (some k) = rw (or_false c, or_false a, or_false s, or_false m) refl
  parse_parts_lem (part ∷ parts) c a s m key =
      let p = casing.to_lowercase part in
      elim (Bool-cases (is_ctrl p)) [
        | inl h ↦
            let (ha, (hs, hm)) = ctrl_only p h in
            rw (parse_part, h, ha, hs, hm, or_true c) (parse_parts_lem parts true a s m key)
        | inr h ↦ elim (Bool-cases (is_alt p)) [
          | inl ha ↦
              rw (parse_part, h, ha, (alt_only p ha).0, (alt_only p ha).1, or_true a)
                (parse_parts_lem parts c true s m key)
          | inr ha ↦ elim (Bool-cases (is_shift p)) [
            | inl hs ↦
                rw (parse_part, h, ha, hs, shift_only p hs, or_true s)
                  (parse_parts_lem parts c a true m key)
            | inr hs ↦ elim (Bool-cases (is_meta p)) [
              | inl hm ↦
                  rw (parse_part, h, ha, hs, hm, or_true m) (parse_parts_lem parts c a s true key)
              | inr hm ↦
                  rw (parse_part, h, ha, hs, hm)
                    (key_part p parts c a s m key (λ k. parse_parts_lem parts c a s m (some k)))
            ]
          ]
        ]
      ]

  abbrev described : List Text → Option HotkeyChord
  described parts = sole_key (keys_of parts) >>= λ key. some (record {
    ctrl = held is_ctrl parts;
    alt = held is_alt parts;
    shift = held is_shift parts;
    meta = held is_meta parts;
    key = key;
  })

  -- The hotkey that a text is, said at once: its parts that are no modifiers are one key, and a
  -- modifier is asked for if it is among the parts, in whatever order they stand.
  unfoldable pub hotkey_of : Text → Option HotkeyChord
  hotkey_of s = described (parts_of s)

  no_key_before :
      (parts : List Text)
      → (found_after false false false false none parts >>= λ f. f.key >>= λ key.
          some (record { ctrl = f.ctrl; alt = f.alt; shift = f.shift; meta = f.meta; key = key }))
        ≡ described parts
  unfolding key_after sole_key
  no_key_before parts = elim (List-cases (keys_of parts)) [
    | inl l ↦ rw l refl
    | inr (p, ps, l) ↦
        rw l
          (elim (Option-cases (sole_key (p ∷ ps))) [ inl e ↦ rw e refl | inr (k, e) ↦ rw e refl ])
  ]

  -- The parser accepts a text exactly if its parts that are no modifiers are one key that has a
  -- name, and gives that key with each modifier that is among the parts, in whatever order they
  -- stand.
  pub parse_hotkey-hotkey_of : (s : Text) → accepted (parse_hotkey casing s) ≡ hotkey_of s
  unfolding parse_hotkey hotkey_of sole_key keys_of
  parse_hotkey-hotkey_of s = elim (List-cases (parts_of s)) [
    | inl e ↦ rw (parse_hotkey, e) refl
    | inr (part, parts, e) ↦
        rw (parse_hotkey, e)
          (accepted-and_then (parse_parts casing (part ∷ parts) (nothing_found casing))
            ∙ rw (parse_parts_lem (part ∷ parts) false false false false none)
                (no_key_before (part ∷ parts)))
  ]
