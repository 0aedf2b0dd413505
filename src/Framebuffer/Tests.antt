-- ===== src/Framebuffer/Tests.antt =====
-- fb.c on a screen of 640 by 480.
use lightux.Framebuffer.{Framebuffer, fb_draw_rect}
use lightux.Framebuffer.Pixels.{Geometry, pixel}
use lightux.Framebuffer.Rectangle.{fb_draw_rect-pixel}
use lightux.Prelude.{◌≡◌, refl, arith, ltb, ◌&&◌, sub64, if◌then◌else◌}

abbrev vga : Framebuffer
vga = record { cells = λ k. 0; fb_width = 640; fb_height = 480; fb_pitch = 2560 }

vga-Geometry : Geometry 640 480 2560
vga-Geometry = record {
  stride = 640;
  words = refl;
  line = omega arith;
  small = omega arith;
  wide = omega arith;
  tall = omega arith;
}

fb_draw_rect-pixel_example :
    pixel (fb_draw_rect 632 8 8 16 7 vga) 639 20
    ≡ (if ltb (sub64 639 632) 8 && ltb (sub64 20 8) 16 then 7 else pixel vga 639 20)
fb_draw_rect-pixel_example =
    fb_draw_rect-pixel 632 8 8 16 7 639 20 vga vga-Geometry (omega arith) (omega arith)
      (omega arith) (omega arith) (omega arith) (omega arith)
