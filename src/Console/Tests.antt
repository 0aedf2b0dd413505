-- ===== src/Console/Tests.antt =====
-- console.c on a screen of 640 by 480, at the last place of a line.
use lightux.Framebuffer.{Framebuffer}
use lightux.Console.{Console, putc}
use lightux.Console.Drawing.{IsOnScreen}
use lightux.Console.Putc.{putc-IsOnScreen}
use lightux.Prelude.{ℕ, refl, true, arith, Returns}

abbrev screen : Framebuffer
screen = record { cells = λ k. 0; fb_width = 640; fb_height = 480; fb_pitch = 2560 }

abbrev blank_font : ℕ → ℕ → ℕ
blank_font c row = 0

abbrev at_end : Console
at_end = record { screen_x = 632; screen_y = 464; show_cursor = true; fb = screen }

at_end-IsOnScreen : IsOnScreen 640 480 at_end
at_end-IsOnScreen = record {
  sized = record { wide = refl; tall = refl };
  column = refl;
  row = refl;
  line = omega arith;
  page = omega arith;
}

putc-IsOnScreen_example : Returns (putc blank_font 2 65 at_end) (λ _ s'. IsOnScreen 640 480 s')
putc-IsOnScreen_example =
    putc-IsOnScreen 640 480 (omega arith) (omega arith) (omega arith) (omega arith) blank_font refl
      0 65 at_end at_end-IsOnScreen
