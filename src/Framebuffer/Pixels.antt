-- ===== src/Framebuffer/Pixels.antt =====
-- fb_putPixel of fb.c: one pixel of the screen.
use native.Mathlib.Nat.{mul-le-mul_right, add-mul, one-mul, mul_assoc}
use lightux.Framebuffer.{Framebuffer, cell_of}
use lightux.Prelude.{
  ℕ, ◌+◌, ◌*◌, ◌^◌, ◌≤◌, ◌<◌, ◌≡◌, ap, sym, ◌∙◌, Bool, arith, ◌&&◌, ltb, ltb→lt, ltb-false→le, inl,
  inr, Bool-cases,
}

-- A screen whose lines of `stride` words hold its pixels, and lie within 2^32 bytes.
pub record Geometry (width height pitch : ℕ) : Type 0 where
  pub stride : ℕ
  pub words : pitch ≡ stride * 4
  pub line : width ≤ stride
  pub small : height * stride * 4 ≤ 2 ^ 32
  pub wide : width ≤ 2 ^ 64
  pub tall : height ≤ 2 ^ 64

-- What the screen shows at a point.
abbrev pub pixel : Framebuffer → (a b : ℕ) → ℕ
pixel fb a b = fb.cells (cell_of fb.fb_pitch a b)

-- A point of the screen.
abbrev pub on_screen : Framebuffer → (a b : ℕ) → Bool
on_screen fb a b = ltb a fb.fb_width && ltb b fb.fb_height

module _ (width height pitch : ℕ) (g : Geometry width height pitch) where
  line_below : (y b : ℕ) → y < b → y * g.stride + g.stride ≤ b * g.stride
  line_below y b h =
      let step : (y + 1) * g.stride ≡ y * g.stride + g.stride =
        add-mul y 1 g.stride ∙ ap (λ t. y * g.stride + t) (one-mul g.stride) in
      let le : (y + 1) * g.stride ≤ b * g.stride = mul-le-mul_right g.stride (omega arith) in
      omega (arith, step, le)

  cell_lem : (x y : ℕ) → x < width → y < height → cell_of pitch x y ≡ y * g.stride + x
  unfolding cell_of
  cell_lem x y hx hy =
      let bytes : y * pitch ≡ y * g.stride * 4 =
        ap (λ t. y * t) g.words ∙ sym (mul_assoc y g.stride 4) in
      rw bytes (omega (arith, line_below y height hy, g.line, g.small))

  pub cell_of_injective :
      (x y a b : ℕ)
      → x < width
      → y < height
      → a < width
      → b < height
      → cell_of pitch x y ≡ cell_of pitch a b
      → (x ≡ a) × (y ≡ b)
  cell_of_injective x y a b hx hy ha hb e =
      let same : y * g.stride + x ≡ b * g.stride + a =
        sym (cell_lem x y hx hy) ∙ e ∙ cell_lem a b ha hb in
      elim (Bool-cases (ltb y b)) [
        | inl above ↦ absurd (omega (arith, line_below y b (ltb→lt y b above), same, g.line))
        | inr not_above ↦ elim (Bool-cases (ltb b y)) [
          | inl below ↦ absurd (omega (arith, line_below b y (ltb→lt b y below), same, g.line))
          | inr not_below ↦
              let row : y ≡ b =
                omega (arith, ltb-false→le y b not_above, ltb-false→le b y not_below) in
              (omega (arith, same, ap (λ t. t * g.stride) row), row)
        ]
      ]
