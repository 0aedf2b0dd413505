-- ===== src/Framebuffer.antt =====
-- kernel/src/drivers/framebuffer/fb.c: pixels, rectangles and the whole screen. `cells` are the 32-bit
-- words of the framebuffer; each loop recurs on the rounds left.
pub mod Pixels
pub mod Rectangle
mod Tests
use lightux.Prelude.{
  ℕ, zero, suc, ◌+◌, ◌*◌, ◌/◌, ◌%◌, ◌^◌, ◌||◌, leb, ◌==◌, if◌then◌else◌, add64, u32, u64,
}

pub record Framebuffer : Type 0 where
  pub cells : ℕ → ℕ
  pub fb_width : ℕ
  pub fb_height : ℕ
  pub fb_pitch : ℕ

-- The word of a pixel; the offset in bytes is a `uint32_t`.
unfoldable pub cell_of : (pitch x y : ℕ) → ℕ
cell_of pitch x y = u32 (u64 (y * pitch + x * 4)) / 4

unfoldable pub fb_put_pixel : (x y color : ℕ) → Framebuffer → Framebuffer
fb_put_pixel x y color fb =
    if leb fb.fb_width x || leb fb.fb_height y
    then fb
    else record fb { cells = λ k. if k == cell_of fb.fb_pitch x y then color else fb.cells k }

unfoldable pub draw_row : (rounds x y xx color : ℕ) → Framebuffer → Framebuffer
draw_row zero x y xx color fb = fb
draw_row (suc rounds) x y xx color fb =
    draw_row rounds x y (xx + 1) color (fb_put_pixel (add64 x xx) y color fb)

unfoldable pub draw_rows : (rounds x y w yy color : ℕ) → Framebuffer → Framebuffer
draw_rows zero x y w yy color fb = fb
draw_rows (suc rounds) x y w yy color fb =
    draw_rows rounds x y w (yy + 1) color (draw_row w x (add64 y yy) 0 color fb)

unfoldable pub fb_draw_rect : (x y w h color : ℕ) → Framebuffer → Framebuffer
fb_draw_rect x y w h color fb = draw_rows h x y w 0 color fb

unfoldable pub fb_clear_screen : (color : ℕ) → Framebuffer → Framebuffer
fb_clear_screen color fb = draw_rows fb.fb_height 0 0 fb.fb_width 0 color fb
