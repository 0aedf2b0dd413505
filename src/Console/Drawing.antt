-- ===== src/Console/Drawing.antt =====
-- What console.c draws leaves the size of the screen, and where its cursor may stand.
use lightux.Framebuffer.{
  Framebuffer, fb_put_pixel, draw_row, draw_rows, fb_draw_rect, fb_clear_screen,
}
use lightux.Console.{Console, widen, draw_char_row, draw_char_rows, console_draw_char, fill_cursor}
use lightux.Prelude.{
  ℕ, zero, suc, ◌+◌, ◌/◌, ◌%◌, ◌^◌, ◌≤◌, ◌<◌, ◌≡◌, inl, inr, ◌||◌, leb, ◌==◌, u32, arith, bit_and,
  Bool-cases,
}

module _ (width height : ℕ) where
  -- Nothing that is drawn changes the size of the screen.
  pub record Sized (fb : Framebuffer) : Type 0 where
    pub wide : fb.fb_width ≡ width
    pub tall : fb.fb_height ≡ height

  pub put_pixel-Sized :
      (x y color : ℕ) (fb : Framebuffer) → Sized fb → Sized (fb_put_pixel x y color fb)
  unfolding fb_put_pixel
  put_pixel-Sized x y color fb sized = elim (Bool-cases (leb fb.fb_width x || leb fb.fb_height y)) [
    | inl e ↦ rw e sized
    | inr e ↦ rw e (record { wide = sized.wide; tall = sized.tall })
  ]

  pub draw_row-Sized :
      (rounds x y xx color : ℕ) (fb : Framebuffer)
      → Sized fb
      → Sized (draw_row rounds x y xx color fb)
  unfolding draw_row
  draw_row-Sized zero x y xx color fb sized = sized
  draw_row-Sized (suc rounds) x y xx color fb sized =
      draw_row-Sized rounds x y (xx + 1) color _ (put_pixel-Sized _ y color fb sized)

  pub draw_rows-Sized :
      (rounds x y w yy color : ℕ) (fb : Framebuffer)
      → Sized fb
      → Sized (draw_rows rounds x y w yy color fb)
  unfolding draw_rows
  draw_rows-Sized zero x y w yy color fb sized = sized
  draw_rows-Sized (suc rounds) x y w yy color fb sized =
      draw_rows-Sized rounds x y w (yy + 1) color _ (draw_row-Sized w x _ 0 color fb sized)

  pub draw_rect-Sized :
      (x y w h color : ℕ) (fb : Framebuffer) → Sized fb → Sized (fb_draw_rect x y w h color fb)
  unfolding fb_draw_rect
  draw_rect-Sized x y w h color fb sized = draw_rows-Sized h x y w 0 color fb sized

  pub clear_screen-Sized :
      (color : ℕ) (fb : Framebuffer) → Sized fb → Sized (fb_clear_screen color fb)
  unfolding fb_clear_screen
  clear_screen-Sized color fb sized = draw_rows-Sized fb.fb_height 0 0 fb.fb_width 0 color fb sized

  pub char_row-Sized :
      (rounds bits x y xx color : ℕ) (fb : Framebuffer)
      → Sized fb
      → Sized (draw_char_row rounds bits x y xx color fb)
  unfolding draw_char_row
  char_row-Sized zero bits x y xx color fb sized = sized
  char_row-Sized (suc rounds) bits x y xx color fb sized =
      char_row-Sized rounds bits x y (xx + 1) color _
        (elim (Bool-cases (bit_and bits (0x80 / 2 ^ xx) == 0)) [
          | inl e ↦ rw e sized
          | inr e ↦ rw e (put_pixel-Sized (u32 (x + xx)) y color fb sized)
        ])

  pub char_rows-Sized :
      (rounds : ℕ) (glyph : ℕ → ℕ) (x y yy color : ℕ) (fb : Framebuffer)
      → Sized fb
      → Sized (draw_char_rows rounds glyph x y yy color fb)
  unfolding draw_char_rows
  char_rows-Sized zero glyph x y yy color fb sized = sized
  char_rows-Sized (suc rounds) glyph x y yy color fb sized =
      char_rows-Sized rounds glyph x y (yy + 1) color _
        (char_row-Sized 8 (glyph yy) x _ 0 color fb sized)

  pub draw_char-Sized :
      (font : ℕ → ℕ → ℕ) (c x y color : ℕ) (fb : Framebuffer)
      → Sized fb
      → Sized (console_draw_char font c x y color fb)
  unfolding console_draw_char
  draw_char-Sized font c x y color fb sized = char_rows-Sized 16 (font c) x y 0 color fb sized

  -- A cursor on the grid of characters, that may have left the line or the last line.
  pub record IsNear (s : Console) : Type 0 where
    pub sized : Sized s.fb
    pub column : s.screen_x % 8 ≡ 0
    pub row : s.screen_y % 16 ≡ 0
    pub line : s.screen_x ≤ width
    pub page : s.screen_y < height + 16

  -- A cursor on the screen.
  pub record IsOnScreen (s : Console) : Type 0 where
    pub sized : Sized s.fb
    pub column : s.screen_x % 8 ≡ 0
    pub row : s.screen_y % 16 ≡ 0
    pub line : s.screen_x < width
    pub page : s.screen_y < height

  pub near : (s : Console) → IsOnScreen s → IsNear s
  near s on = record {
    sized = on.sized;
    column = on.column;
    row = on.row;
    line = omega (arith, on.line);
    page = omega (arith, on.page);
  }

  pub fill_cursor-IsNear : (color : ℕ) (s : Console) → IsNear s → IsNear (fill_cursor color s)
  fill_cursor-IsNear color s on = record {
    sized = draw_rect-Sized (widen s.screen_x) (widen s.screen_y) 8 16 color s.fb on.sized;
    column = on.column;
    row = on.row;
    line = on.line;
    page = on.page;
  }
