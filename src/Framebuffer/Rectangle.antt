-- ===== src/Framebuffer/Rectangle.antt =====
-- fb_drawRect and fb_clearScreen of fb.c: what every point of the screen shows afterwards.
use lightux.Framebuffer.{
  Framebuffer, cell_of, fb_put_pixel, draw_row, draw_rows, fb_draw_rect, fb_clear_screen,
}
use lightux.Framebuffer.Pixels.{Geometry, pixel, cell_of_injective}
use lightux.Prelude.{
  ℕ, zero, suc, ◌+◌, ◌^◌, ◌≤◌, ◌<◌, ◌≡◌, refl, ap, ◌∙◌, Bool, arith, ◌==◌, ◌||◌, ◌&&◌, leb, ltb,
  if◌then◌else◌, add64, sub64, inl, inr, Bool-cases,
}

-- `d` is one of the `n` numbers from `i` on.
abbrev within : (d i n : ℕ) → Bool
within d i n = leb i d && ltb d (i + n)

-- One more number, at the start; `j` is the point of the run that wraps to `a`.
within-suc :
    (d i n : ℕ) (same : Bool)
    → ((same && (d == i)) || (same && within d (i + 1) n)) ≡ (same && within d i (suc n))
within-suc d i n same = ground arith

module _ (width height pitch : ℕ) (g : Geometry width height pitch) (a b : ℕ) (ha : a < width)
    (hb : b < height) (color : ℕ) where
  pub record Shaped (fb : Framebuffer) : Type 0 where
    pub width_of : fb.fb_width ≡ width
    pub height_of : fb.fb_height ≡ height
    pub pitch_of : fb.fb_pitch ≡ pitch

  -- From `fb` to `fb'`, the point (a, b) takes the color where it is hit, and stays otherwise.
  pub record Drawn (fb : Framebuffer) (hit : Bool) (fb' : Framebuffer) : Type 0 where
    pub shaped : Shaped fb'
    pub cell : fb'.cells (cell_of pitch a b) ≡ (if hit then color else fb.cells (cell_of pitch a b))

  fb_put_pixel-Drawn :
      (x y : ℕ) (fb : Framebuffer)
      → Shaped fb
      → Drawn fb ((a == x) && (b == y)) (fb_put_pixel x y color fb)
  unfolding fb_put_pixel
  fb_put_pixel-Drawn x y fb s = elim (Bool-cases (leb fb.fb_width x || leb fb.fb_height y)) [
    | inl outside ↦
        rw outside (record { shaped = s; cell = ground (arith, s.width_of, s.height_of, outside) })
    | inr inside ↦ rw inside (record {
      shaped = record { width_of = s.width_of; height_of = s.height_of; pitch_of = s.pitch_of };
      cell =
          ap
            (λ p.
              if cell_of pitch a b == cell_of p x y then color else fb.cells (cell_of pitch a b))
            s.pitch_of
          ∙ ground (
            arith,
            s.width_of,
            s.height_of,
            inside,
            cell_of_injective width height pitch g a b x y,
          );
    })
  ]

  Drawn-then :
      (fb fb' fb'' : Framebuffer) (hit hit' : Bool)
      → Drawn fb hit fb'
      → Drawn fb' hit' fb''
      → Drawn fb (hit' || hit) fb''
  Drawn-then fb fb' fb'' hit hit' d e = record {
    shaped = e.shaped;
    cell = ground (arith, e.cell, d.cell);
  }

  draw_row-Drawn :
      (rounds x y xx : ℕ) (fb : Framebuffer)
      → x < 2 ^ 64
      → xx + rounds ≤ 2 ^ 64
      → Shaped fb
      → Drawn fb ((b == y) && within (sub64 a x) xx rounds) (draw_row rounds x y xx color fb)
  unfolding draw_row
  draw_row-Drawn zero x y xx fb hx fits s = record { shaped = s; cell = ground arith }
  draw_row-Drawn (suc rounds) x y xx fb hx fits s =
      let put = fb_put_pixel-Drawn (add64 x xx) y fb s in
      let rest =
        draw_row-Drawn rounds x y (xx + 1) (fb_put_pixel (add64 x xx) y color fb) hx (omega arith)
          put.shaped in
      let both = Drawn-then _ _ _ _ _ put rest in
      record {
        shaped = both.shaped;
        cell = both.cell ∙ ap (λ t. if t then color else fb.cells (cell_of pitch a b)) hits;
      }
    where
      column : (a == add64 x xx) ≡ (sub64 a x == xx)
      column = ground (arith, g.wide)

      hits :
          ((b == y) && within (sub64 a x) (xx + 1) rounds || (a == add64 x xx) && (b == y))
          ≡ ((b == y) && within (sub64 a x) xx (suc rounds))
      hits = rw column (ground arith)

  draw_rows-Drawn :
      (rounds x y w yy : ℕ) (fb : Framebuffer)
      → x < 2 ^ 64
      → y < 2 ^ 64
      → w ≤ 2 ^ 64
      → yy + rounds ≤ 2 ^ 64
      → Shaped fb
      → Drawn fb
          (within (sub64 a x) 0 w && within (sub64 b y) yy rounds)
          (draw_rows rounds x y w yy color fb)
  unfolding draw_rows
  draw_rows-Drawn zero x y w yy fb hx hy hw fits s = record { shaped = s; cell = ground arith }
  draw_rows-Drawn (suc rounds) x y w yy fb hx hy hw fits s =
      let row = draw_row-Drawn w x (add64 y yy) 0 fb hx (omega arith) s in
      let rest =
        draw_rows-Drawn rounds x y w (yy + 1) (draw_row w x (add64 y yy) 0 color fb) hx hy hw
          (omega arith) row.shaped in
      let both = Drawn-then _ _ _ _ _ row rest in
      record {
        shaped = both.shaped;
        cell = both.cell ∙ ap (λ t. if t then color else fb.cells (cell_of pitch a b)) hits;
      }
    where
      line : (b == add64 y yy) ≡ (sub64 b y == yy)
      line = ground (arith, g.tall)

      hits :
          (within (sub64 a x) 0 w && within (sub64 b y) (yy + 1) rounds
            || (b == add64 y yy) && within (sub64 a x) 0 w)
          ≡ (within (sub64 a x) 0 w && within (sub64 b y) yy (suc rounds))
      hits = rw line (ground arith)

-- On a screen whose lines lie within the first 2^32 bytes of the framebuffer, fb_drawRect gives its
-- color to every point of the screen that lies in the rectangle, whose sums wrap at 2^64, and leaves
-- every other point of the screen as it was.
pub fb_draw_rect-pixel :
    (x y w h color a b : ℕ) (fb : Framebuffer)
    → Geometry fb.fb_width fb.fb_height fb.fb_pitch
    → x < 2 ^ 64
    → y < 2 ^ 64
    → w < 2 ^ 64
    → h < 2 ^ 64
    → a < fb.fb_width
    → b < fb.fb_height
    → pixel (fb_draw_rect x y w h color fb) a b
      ≡ (if ltb (sub64 a x) w && ltb (sub64 b y) h then color else pixel fb a b)
unfolding fb_draw_rect
fb_draw_rect-pixel x y w h color a b fb g hx hy hw hh ha hb =
    let same : Shaped _ _ _ g a b ha hb color fb = record {
      width_of = refl;
      height_of = refl;
      pitch_of = refl;
    } in
    let d =
      draw_rows-Drawn _ _ _ g a b ha hb color h x y w 0 fb hx hy (omega arith) (omega arith) same in
    ap (λ p. (draw_rows h x y w 0 color fb).cells (cell_of p a b)) d.shaped.pitch_of
    ∙ d.cell
    ∙ ground arith

-- On such a screen, fb_clearScreen gives its color to every point.
pub fb_clear_screen-pixel :
    (color a b : ℕ) (fb : Framebuffer)
    → Geometry fb.fb_width fb.fb_height fb.fb_pitch
    → a < fb.fb_width
    → b < fb.fb_height
    → pixel (fb_clear_screen color fb) a b ≡ color
unfolding fb_clear_screen
fb_clear_screen-pixel color a b fb g ha hb =
    let same : Shaped _ _ _ g a b ha hb color fb = record {
      width_of = refl;
      height_of = refl;
      pitch_of = refl;
    } in
    let d =
      draw_rows-Drawn _ _ _ g a b ha hb color fb.fb_height 0 0 fb.fb_width 0 fb (omega arith)
        (omega arith) g.wide (omega (arith, g.tall)) same in
    ap (λ p. (fb_clear_screen color fb).cells (cell_of p a b)) d.shaped.pitch_of
    ∙ d.cell
    ∙ ground (arith, g.wide, g.tall)
