-- ===== src/Display.antt =====
-- The display layout, common/src/display.rs. The operations on `f64` are a parameter; an `i32` is
-- an integer, and its casts and subtractions wrap.
use xkvm.Base.{
  ℕ, ◌+◌, ◌-◌, ◌^◌, ◌≤◌, ◌<◌, ◌≡◌, ap, ◌∙◌, ◌↔◌, inl, inr, Bool, false, not, ◌&&◌, ◌||◌, Option,
  none, some, arith, leb, ◌==◌, if◌then◌else◌, leb→le, Bool-cases, nat_eq, text_eq,
}
use xkvm.Base.Int.{ℤ, pos, negsuc, ◌-ℤ◌, lebℤ, maxℤ, sub_ℕ, as_i32}

-- The operations on `f64`: `of_u32` and `of_i32` are casts, `to_i32` the one that saturates.
pub record Float : Type 1 where
  pub F : Type 0
  pub of_u32 : ℕ → F
  pub of_i32 : ℤ → F
  pub one : F
  pub mul : F → F → F
  pub div : F → F → F
  pub round : F → F
  pub is_finite : F → Bool
  pub is_positive : F → Bool
  pub to_i32 : F → ℤ

pub data ScreenEdge : Type 0 where
  left right top bottom : ScreenEdge

-- `v.clamp(0, hi)`.
abbrev clamp : ℤ → ℤ → ℤ
clamp hi v = if not (lebℤ (pos 0) v) then pos 0 else if not (lebℤ v hi) then hi else v

-- `size as i32 - 1 - threshold`.
abbrev far : ℕ → ℤ → ℤ
far size threshold = as_i32 (as_i32 (as_i32 (pos size) -ℤ pos 1) -ℤ threshold)

-- `(size as i32 - 1).max(0)`.
abbrev last : ℕ → ℤ
last size = maxℤ (as_i32 (as_i32 (pos size) -ℤ pos 1)) (pos 0)

as_i32-pos : (n : ℕ) → n < 2 ^ 31 → as_i32 (pos n) ≡ pos n
as_i32-pos n h = ground arith

as_i32-sub_ℕ : (n t : ℕ) → n < 2 ^ 31 → t < 2 ^ 31 → as_i32 (sub_ℕ n t) ≡ sub_ℕ n t
as_i32-sub_ℕ n t h k = elim (Bool-cases (leb t n)) [
  | inl e ↦ rw e (as_i32-pos (n - t) (omega (arith, h)))
  | inr e ↦ rw e (ground (arith, e))
]

minus_lem : (n t : ℕ) → (pos n -ℤ pos t) ≡ sub_ℕ n t
minus_lem n t =
    let right_unit : n + 0 ≡ n = omega arith in
    let left_unit : 0 + t ≡ t = omega arith in
    ap (λ k. sub_ℕ k (0 + t)) right_unit ∙ ap (sub_ℕ n) left_unit

sub_ℕ-pos : (n t : ℕ) → t ≤ n → sub_ℕ n t ≡ pos (n - t)
sub_ℕ-pos n t h = ground (arith, h)

maxℤ-pos : (n : ℕ) → maxℤ (pos n) (pos 0) ≡ pos n
maxℤ-pos n = ground arith

-- `size as i32 - 1`.
abbrev top_of : ℕ → ℤ
top_of size = as_i32 (as_i32 (pos size) -ℤ pos 1)

top_of-pos : (size : ℕ) → 0 < size → size < 2 ^ 31 → top_of size ≡ pos (size - 1)
top_of-pos size p s =
    ap (λ x. as_i32 (x -ℤ pos 1)) (as_i32-pos size s)
    ∙ (ap as_i32 (minus_lem size 1)
        ∙ (as_i32-sub_ℕ size 1 s (omega arith) ∙ sub_ℕ-pos size 1 (omega (arith, p))))

last-pos : (size : ℕ) → 0 < size → size < 2 ^ 31 → last size ≡ pos (size - 1)
last-pos size p s = ap (λ x. maxℤ x (pos 0)) (top_of-pos size p s) ∙ maxℤ-pos (size - 1)

far_lem :
    (size t : ℕ) → 0 < size → size < 2 ^ 31 → t < 2 ^ 31 → far size (pos t) ≡ sub_ℕ (size - 1) t
far_lem size t p s k =
    ap (λ x. as_i32 (x -ℤ pos t)) (top_of-pos size p s)
    ∙ (ap as_i32 (minus_lem (size - 1) t) ∙ as_i32-sub_ℕ (size - 1) t (omega (arith, s)) k)

-- `size as i32 - 1 - threshold <= a`.
lebℤ-far :
    (size t a : ℕ)
    → 0 < size
    → size < 2 ^ 31
    → t < 2 ^ 31
    → lebℤ (far size (pos t)) (pos a) ≡ leb size (a + t + 1)
lebℤ-far size t a p s k = ap (λ x. lebℤ x (pos a)) (far_lem size t p s k) ∙ sides
  where
    sides : lebℤ (sub_ℕ (size - 1) t) (pos a) ≡ leb size (a + t + 1)
    sides = elim (Bool-cases (leb t (size - 1))) [
      | inl e ↦ rw e (ground (arith, p, e))
      | inr e ↦ rw e (ground (arith, p, e))
    ]

lebℤ-pos : (a t : ℕ) → lebℤ (pos a) (pos t) ≡ leb a t
lebℤ-pos a t = ground arith

clamp_within : (hi : ℕ) (v : ℤ) → (a : ℕ) × (clamp (pos hi) v ≡ pos a) × (a ≤ hi)
clamp_within hi (pos n) = elim (Bool-cases (leb n hi)) [
  | inl e ↦ (n, ground (arith, e), leb→le n hi e)
  | inr e ↦ (hi, ground (arith, e), omega arith)
]
clamp_within hi (negsuc n) = (0, ground arith, omega arith)

zero_beq : (n : ℕ) → 0 < n → (n == 0) ≡ false
zero_beq n h = ground (arith, h)

module _ (float : Float) where
  pub record DisplayInfo : Type 0 where
    pub width : ℕ
    pub height : ℕ
    pub scale_factor : float.F

  unfoldable pub default_display : DisplayInfo
  default_display = record { width = 1920; height = 1080; scale_factor = float.one }

  abbrev scale_of : float.F → float.F
  scale_of s = if float.is_finite s && float.is_positive s then s else float.one

  -- One coordinate, before it is clamped.
  abbrev scaled : ℤ → ℕ → ℕ → float.F → ℤ
  scaled v from to ratio = float.to_i32 (
      float.round (
        float.mul (float.mul (float.div (float.of_i32 v) (float.of_u32 from)) (float.of_u32 to))
          ratio))

  unfoldable pub scale_coordinates : ℤ → ℤ → DisplayInfo → DisplayInfo → ℤ × ℤ
  scale_coordinates x y source target =
      if source.width == 0 || (source.height == 0 || (target.width == 0 || target.height == 0))
      then (x, y)
      else let ratio = float.div (scale_of target.scale_factor) (scale_of source.scale_factor) in
        (
          clamp (last target.width) (scaled x source.width target.width ratio),
          clamp (last target.height) (scaled y source.height target.height ratio),
        )

  unfoldable pub detect_edge_transition : ℤ → ℤ → DisplayInfo → ℤ → Option ScreenEdge
  detect_edge_transition x y display threshold =
      let t = maxℤ threshold (pos 0) in
      if display.width == 0 || display.height == 0
      then none
      else if lebℤ x t
      then some left
      else if lebℤ (far display.width t) x
      then some right
      else if lebℤ y t
      then some top
      else if lebℤ (far display.height t) y
      then some bottom
      else none

  -- Between displays that are not empty, the target narrower and lower than 2^31 pixels, every
  -- point is sent to a point of the target, whatever the scale factors and however the coordinates
  -- round.
  scale_coordinates_within :
      (x y : ℤ) (source target : DisplayInfo)
      → 0 < source.width
      → 0 < source.height
      → 0 < target.width
      → 0 < target.height
      → target.width < 2 ^ 31
      → target.height < 2 ^ 31
      → (a : ℕ) × (b : ℕ) × (scale_coordinates x y source target ≡ (pos a, pos b))
        × (a < target.width)
        × (b < target.height)
  unfolding scale_coordinates
  scale_coordinates_within x y source target sw sh tw th w h =
      let ratio = float.div (scale_of target.scale_factor) (scale_of source.scale_factor) in
      let (a, ea, la) =
        clamp_within (target.width - 1) (scaled x source.width target.width ratio) in
      let (b, eb, lb) =
        clamp_within (target.height - 1) (scaled y source.height target.height ratio) in
      (
        a,
        b,
        rw
            (
              scale_coordinates,
              zero_beq source.width sw,
              zero_beq source.height sh,
              zero_beq target.width tw,
              zero_beq target.height th,
            )
            (ap
                (λ z. (
                  clamp z (scaled x source.width target.width ratio),
                  clamp (last target.height) (scaled y source.height target.height ratio),
                ))
                (last-pos target.width tw w)
              ∙ (ap
                    (λ z. (
                      clamp (pos (target.width - 1)) (scaled x source.width target.width ratio),
                      clamp z (scaled y source.height target.height ratio),
                    ))
                    (last-pos target.height th h)
                  ∙ (ap
                        (λ z. (
                          z,
                          clamp (pos (target.height - 1))
                              (scaled y source.height target.height ratio),
                        ))
                        ea
                      ∙ ap (λ z. (pos a, z)) eb))),
        omega (arith, la, tw),
        omega (arith, lb, th),
      )

  -- The cursor is on a display that is narrower and lower than 2^31 pixels, and the threshold is
  -- not negative. It touches no edge exactly if it is more than the threshold away from all four.
  detect_edge_transition-none :
      (a b t : ℕ) (display : DisplayInfo)
      → a < display.width
      → b < display.height
      → display.width < 2 ^ 31
      → display.height < 2 ^ 31
      → t < 2 ^ 31
      → (detect_edge_transition (pos a) (pos b) display (pos t) ≡ none)
        ↔ ((t < a) × (a + t + 1 < display.width) × (t < b) × (b + t + 1 < display.height))
  unfolding detect_edge_transition
  detect_edge_transition-none a b t display aw bh w h k =
      rw
        (
          zero_beq display.width (omega (arith, aw)),
          zero_beq display.height (omega (arith, bh)),
          maxℤ-pos t,
          lebℤ-pos a t,
          lebℤ-pos b t,
          lebℤ-far display.width t a (omega (arith, aw)) w k,
          lebℤ-far display.height t b (omega (arith, bh)) h k,
        )
        (ground (arith, aw, bh))
