-- ===== src/Console.antt =====
-- kernel/src/drivers/console/console.c: the cursor and what it draws. The coordinates are 32-bit words
-- read with a sign. The font is a parameter: the bytes of the rows of each character.
pub mod Drawing
pub mod Cursor
pub mod Ending
pub mod Putc
mod Tests
use lightux.Framebuffer.{Framebuffer, fb_put_pixel, fb_draw_rect, fb_clear_screen}
use lightux.Prelude.{
  ℕ, zero, suc, ◌+◌, ◌-◌, ◌*◌, ◌/◌, ◌%◌, ◌^◌, Bool, true, false, not, ◌&&◌, ◌||◌, ltb, leb, ◌==◌,
  if◌then◌else◌, List, [], ◌∷◌, u8, u32, sub32, bit_and, Outcome, returns, panics, spins,
}

pub record Console : Type 0 where
  pub screen_x : ℕ
  pub screen_y : ℕ
  pub show_cursor : Bool
  pub fb : Framebuffer

-- The value of an `int` as a `uint64_t`.
abbrev pub widen : ℕ → ℕ
widen n = if ltb n (2 ^ 31) then n else n + (2 ^ 64 - 2 ^ 32)

-- `n <= 0`
abbrev pub not_positive : ℕ → Bool
not_positive n = n == 0 || leb (2 ^ 31) n

abbrev pub char_width : ℕ
char_width = 8

abbrev pub char_height : ℕ
char_height = 16

abbrev pub background_color : ℕ
background_color = 0xff

abbrev pub foreground_color : ℕ
foreground_color = 0xff_ffff

unfoldable pub draw_char_row : (rounds bits x y xx color : ℕ) → Framebuffer → Framebuffer
draw_char_row zero bits x y xx color fb = fb
draw_char_row (suc rounds) bits x y xx color fb =
    draw_char_row rounds bits x y (xx + 1) color
      (if bit_and bits (0x80 / 2 ^ xx) == 0 then fb else fb_put_pixel (u32 (x + xx)) y color fb)

unfoldable pub draw_char_rows :
    (rounds : ℕ) → (glyph : ℕ → ℕ) → (x y yy color : ℕ) → Framebuffer → Framebuffer
draw_char_rows zero glyph x y yy color fb = fb
draw_char_rows (suc rounds) glyph x y yy color fb =
    draw_char_rows rounds glyph x y (yy + 1) color
      (draw_char_row 8 (glyph yy) x (u32 (y + yy)) 0 color fb)

-- For coordinates at which neither loop's bound wraps.
unfoldable pub console_draw_char :
    (font : ℕ → ℕ → ℕ) → (c x y color : ℕ) → Framebuffer → Framebuffer
console_draw_char font c x y color fb = draw_char_rows 16 (font c) x y 0 color fb

-- The rectangle at the cursor.
abbrev pub fill_cursor : (color : ℕ) → Console → Console
fill_cursor color s = record s {
  fb = fb_draw_rect (widen s.screen_x) (widen s.screen_y) char_width char_height color s.fb;
}

unfoldable pub erase_cursor : Console → Console
erase_cursor s = if s.show_cursor then fill_cursor background_color s else s

-- What console_clearScreen does before it updates the cursor.
abbrev pub cleared : Console → Console
cleared s = record s { screen_x = 0; screen_y = 0; fb = fb_clear_screen background_color s.fb }

-- The call of console_clearScreen is written out.
unfoldable pub update_cursor : (rounds : ℕ) → Console → Outcome Console (Unit {0})
update_cursor zero s = spins
update_cursor (suc rounds) s = elim (s.show_cursor) [
  | false ↦ returns tt s
  | true ↦ elim (leb s.fb.fb_width (widen s.screen_x)) [
    | false ↦ returns tt (fill_cursor foreground_color s)
    | true ↦
        let s1 = record s { screen_y = u32 (s.screen_y + char_height) } in
        elim (leb s.fb.fb_height (widen s1.screen_y)) [
          | false ↦ returns tt (fill_cursor foreground_color (record s1 { screen_x = 0 }))
          | true ↦ elim (update_cursor rounds (cleared s1)) [
            | returns _ s2 ↦ returns tt (fill_cursor foreground_color (record s2 { screen_x = 0 }))
            | panics s2 ↦ panics s2
            | spins ↦ spins
          ]
        ]
  ]
]

unfoldable pub console_clear_screen : (rounds : ℕ) → Console → Outcome Console (Unit {0})
console_clear_screen rounds s = update_cursor rounds (cleared s)

-- The end of putc: the cursor, and a screen that is full.
unfoldable pub put_end : (rounds : ℕ) → Console → Outcome Console (Unit {0})
put_end rounds s = elim (update_cursor rounds s) [
  | returns _ s1 ↦
      let s2 : Console =
        (if leb s1.fb.fb_width (widen s1.screen_x)
          then record s1 { screen_x = 0; screen_y = u32 (s1.screen_y + char_height) }
          else s1) in
      elim (leb s2.fb.fb_height (widen s2.screen_y)) [
        | true ↦ console_clear_screen rounds s2
        | false ↦ returns tt s2
      ]
  | panics s1 ↦ panics s1
  | spins ↦ spins
]

-- The default case of putc.
unfoldable pub put_char : (font : ℕ → ℕ → ℕ) → (rounds c : ℕ) → Console → Outcome Console (Unit {0})
put_char font rounds c s =
    let s1 = erase_cursor s in
    put_end rounds (record s1 {
      fb = console_draw_char font (u8 c) s1.screen_x s1.screen_y foreground_color s1.fb;
      screen_x = u32 (s1.screen_x + char_width);
    })

-- `4 - (g_ScreenX % 4)`, with the remainder of C.
abbrev pub tab_stop : (x : ℕ) → ℕ
tab_stop x = if ltb x (2 ^ 31) then 4 - x % 4 else 4 + sub32 0 x % 4

-- `fuel` of 8 is above every bound of the loop.
unfoldable pub tab_loop :
    (font : ℕ → ℕ → ℕ) → (rounds fuel i : ℕ) → Console → Outcome Console (Unit {0})
tab_loop font rounds zero i s = returns tt s
tab_loop font rounds (suc fuel) i s = elim (ltb i (tab_stop s.screen_x)) [
  | false ↦ returns tt s
  | true ↦ elim (put_char font rounds 0x20 s) [
    | returns _ s' ↦ tab_loop font rounds fuel (i + 1) s'
    | panics s' ↦ panics s'
    | spins ↦ spins
  ]
]

-- The cursor after a backspace that is not at the start of the screen.
abbrev pub stepped_back : Console → Console
stepped_back s =
    let s1 : Console =
      (if not_positive s.screen_x && ltb s.screen_y (2 ^ 31)
        then record s { screen_x = u32 s.fb.fb_width; screen_y = sub32 s.screen_y char_height }
        else s) in
    record s1 { screen_x = sub32 s1.screen_x char_width }

unfoldable pub putc : (font : ℕ → ℕ → ℕ) → (rounds c : ℕ) → Console → Outcome Console (Unit {0})
putc font rounds c s =
    if c == 13
    then put_end rounds (record s { screen_x = 0 })
    else if c == 10
    then (let s1 = erase_cursor s in
        put_end rounds (record s1 { screen_x = 0; screen_y = u32 (s1.screen_y + char_height) }))
    else if c == 9
    then elim (tab_loop font rounds 8 0 (erase_cursor s)) [
      | returns _ s' ↦ put_end rounds s'
      | panics s' ↦ panics s'
      | spins ↦ spins
    ]
    else if c == 8
    then (let s1 = erase_cursor s in
        if not_positive s1.screen_x && not_positive s1.screen_y
        then update_cursor rounds s1
        else put_end rounds (fill_cursor background_color (stepped_back s1)))
    else put_char font rounds c s

unfoldable pub puts :
    (font : ℕ → ℕ → ℕ) → (rounds : ℕ) → List ℕ → Console → Outcome Console (Unit {0})
unfolding putc
puts font rounds [] s = returns tt s
puts font rounds (c ∷ string) s = elim (putc font rounds c s) [
  | returns _ s' ↦ puts font rounds string s'
  | panics s' ↦ panics s'
  | spins ↦ spins
]
