-- ===== src/Console/Putc.antt =====
-- putc of console.c keeps the cursor on the screen.
use lightux.Console.{
  Console, widen, not_positive, background_color, foreground_color, fill_cursor, erase_cursor,
  update_cursor, put_end, put_char, tab_stop, tab_loop, stepped_back, putc,
}
use lightux.Console.Drawing.{
  IsNear, IsOnScreen, draw_rect-Sized, draw_char-Sized, near, fill_cursor-IsNear,
}
use lightux.Console.Cursor.{update_cursor-stays}
use lightux.Console.Ending.{put_end-IsOnScreen}
use lightux.Prelude.{
  ℕ, zero, suc, ◌+◌, ◌%◌, ◌^◌, ◌≤◌, ◌<◌, ◌≡◌, refl, ap, sym, subst, ◌∙◌, inl, inr, Bool, true,
  false, ◌&&◌, ltb, ◌==◌, if◌then◌else◌, u8, u32, sub32, arith, Bool-cases, Outcome, returns,
  panics, spins, Returns,
}

module _ (width height : ℕ) where
  module _ (some_width : 0 < width) (some_height : 0 < height) (narrow : width < 2 ^ 30)
      (low : height < 2 ^ 30) where
    erase_cursor-IsOnScreen :
        (s : Console) → IsOnScreen width height s → IsOnScreen width height (erase_cursor s)
    unfolding erase_cursor
    erase_cursor-IsOnScreen s on = elim (Bool-cases s.show_cursor) [
      | inl shown ↦
          subst (λ t. IsOnScreen width height (if t then fill_cursor background_color s else s))
            (sym shown)
            (record {
              sized =
                  draw_rect-Sized width height (widen s.screen_x) (widen s.screen_y) 8 16
                    background_color s.fb on.sized;
              column = on.column;
              row = on.row;
              line = on.line;
              page = on.page;
            })
      | inr hidden ↦
          subst (λ t. IsOnScreen width height (if t then fill_cursor background_color s else s))
            (sym hidden) on
    ]

    module _ (font : ℕ → ℕ → ℕ) (grid : width % 8 ≡ 0) (rounds : ℕ) where
      put_char-IsOnScreen :
          (c : ℕ) (s : Console)
          → IsOnScreen width height s
          → Returns (put_char font (suc (suc rounds)) c s) (λ _ s'. IsOnScreen width height s')
      unfolding put_char
      put_char-IsOnScreen c s on =
          let on1 = erase_cursor-IsOnScreen s on in
          put_end-IsOnScreen width height some_width some_height narrow low rounds _ (record {
            sized = draw_char-Sized width height font (u8 c) _ _ foreground_color _ on1.sized;
            column = omega (arith, on1.column, on1.line, narrow);
            row = on1.row;
            line = omega (arith, on1.column, on1.line, narrow, grid);
            page = omega (arith, on1.page);
          })

      tab_loop-IsOnScreen :
          (fuel i : ℕ) (s : Console)
          → IsOnScreen width height s
          → Returns (tab_loop font (suc (suc rounds)) fuel i s) (λ _ s'. IsOnScreen width height s')
      unfolding tab_loop
      tab_loop-IsOnScreen zero i s on = (tt, s, refl, on)
      tab_loop-IsOnScreen (suc fuel) i s on = elim (Bool-cases (ltb i (tab_stop s.screen_x))) [
        | inr over ↦ (
          tt,
          s,
          ap
              (λ t. elim t [
                | false ↦ returns tt s
                | true ↦ onward (put_char font (suc (suc rounds)) 0x20 s)
              ])
              over,
          on,
        )
        | inl more ↦
            let (u, s1, run, on1) = put_char-IsOnScreen 0x20 s on in
            let (u', s', run', on') = tab_loop-IsOnScreen fuel (i + 1) s1 on1 in
            (
              u',
              s',
              ap
                    (λ t. elim t [
                      | false ↦ returns tt s
                      | true ↦ onward (put_char font (suc (suc rounds)) 0x20 s)
                    ])
                    more
                  ∙ ap onward run
                  ∙ run',
              on',
            )
      ]
        where
          onward : Outcome Console (Unit {0}) → Outcome Console (Unit {0})
          onward o = elim o [
            | returns _ s' ↦ tab_loop font (suc (suc rounds)) fuel (i + 1) s'
            | panics s' ↦ panics s'
            | spins ↦ spins
          ]

      stepped_back-IsNear :
          (s : Console)
          → IsOnScreen width height s
          → (not_positive s.screen_x && not_positive s.screen_y) ≡ false
          → IsNear width height (stepped_back s)
      stepped_back-IsNear s on more =
          elim (Bool-cases (not_positive s.screen_x && ltb s.screen_y (2 ^ 31))) [
            | inl e ↦
                let w = on.sized.wide in
                let start : s.screen_x ≡ 0 = ground (arith, e, on.line, narrow) in
                let below : 0 < s.screen_y = ground (arith, more, start) in
                subst (λ t. IsNear width height (back (if t then up s else s))) (sym e)
                  (record {
                    sized = on.sized;
                    column = omega (arith, w, grid, some_width, narrow);
                    row = omega (arith, on.row, below, on.page, low);
                    line = omega (arith, w, grid, some_width, narrow);
                    page = omega (arith, on.row, below, on.page, low);
                  })
            | inr e ↦
                let inside : 8 ≤ s.screen_x = ground (arith, e, on.column, on.page, low) in
                subst (λ t. IsNear width height (back (if t then up s else s))) (sym e)
                  (record {
                    sized = on.sized;
                    column = omega (arith, on.column, inside, on.line, narrow);
                    row = on.row;
                    line = omega (arith, inside, on.line, narrow);
                    page = omega (arith, on.page);
                  })
          ]
        where
          up : Console → Console
          up s = record s { screen_x = u32 s.fb.fb_width; screen_y = sub32 s.screen_y 16 }

          back : Console → Console
          back s1 = record s1 { screen_x = sub32 s1.screen_x 8 }

      abbrev put_back : Bool → Console → Outcome Console (Unit {0})
      put_back t s1 =
          if t
          then update_cursor (suc (suc rounds)) s1
          else put_end (suc (suc rounds)) (fill_cursor background_color (stepped_back s1))

      put_back-IsOnScreen :
          (s1 : Console)
          → IsOnScreen width height s1
          → Returns
              (put_back (not_positive s1.screen_x && not_positive s1.screen_y) s1)
              (λ _ s'. IsOnScreen width height s')
      put_back-IsOnScreen s1 on =
          elim (Bool-cases (not_positive s1.screen_x && not_positive s1.screen_y)) [
            | inl e ↦
                let (u, s', run, (on', same_x, same_y)) =
                  update_cursor-stays width height some_width some_height narrow low (suc rounds) s1
                    (near width height s1 on) on.line in
                (
                  u,
                  s',
                  ap (λ t. put_back t s1) e ∙ run,
                  record {
                    sized = on'.sized;
                    column = on'.column;
                    row = on'.row;
                    line = omega (arith, same_x, on.line);
                    page = omega (arith, same_y, on.page);
                  },
                )
            | inr e ↦
                let (u, s', run, on') =
                  put_end-IsOnScreen width height some_width some_height narrow low rounds
                    (fill_cursor background_color (stepped_back s1))
                    (fill_cursor-IsNear width height background_color (stepped_back s1)
                      (stepped_back-IsNear s1 on e)) in
                (u, s', ap (λ t. put_back t s1) e ∙ run, on')
          ]

      put_tab-IsOnScreen :
          (s : Console)
          → IsOnScreen width height s
          → Returns
              (elim (tab_loop font (suc (suc rounds)) 8 0 s) [
                | returns _ s' ↦ put_end (suc (suc rounds)) s'
                | panics s' ↦ panics s'
                | spins ↦ spins
              ])
              (λ _ s'. IsOnScreen width height s')
      put_tab-IsOnScreen s on =
          let (u, s1, run, on1) = tab_loop-IsOnScreen 8 0 s on in
          let (u', s', run', on') =
            put_end-IsOnScreen width height some_width some_height narrow low rounds s1
              (near width height s1 on1) in
          (
            u',
            s',
            ap
                  (λ o. elim o [
                    | returns _ s' ↦ put_end (suc (suc rounds)) s'
                    | panics s' ↦ panics s'
                    | spins ↦ spins
                  ])
                  run
                ∙ run',
            on',
          )

      -- One of two runs that both leave the cursor on the screen.
      choose :
          (t : Bool) (a b : Outcome Console (Unit {0}))
          → Returns a (λ _ s'. IsOnScreen width height s')
          → Returns b (λ _ s'. IsOnScreen width height s')
          → Returns (if t then a else b) (λ _ s'. IsOnScreen width height s')
      choose true a b ha hb = ha
      choose false a b ha hb = hb

      -- From a cursor on the grid of characters that is on the screen, on a screen whose width is a multiple of that of a character, not 0, whose height is not 0, both
      -- below 2^30, with two rounds for the calls of console_clearScreen, putc returns, and leaves a cursor
      -- on the grid of characters that is on the screen.
      pub putc-IsOnScreen :
          (c : ℕ) (s : Console)
          → IsOnScreen width height s
          → Returns (putc font (suc (suc rounds)) c s) (λ _ s'. IsOnScreen width height s')
      unfolding putc
      putc-IsOnScreen c s on =
          let on1 = erase_cursor-IsOnScreen s on in
          choose (c == 13) _ _
            (put_end-IsOnScreen width height some_width some_height narrow low rounds
              (record s { screen_x = 0 })
              (record {
                sized = on.sized;
                column = refl;
                row = on.row;
                line = omega arith;
                page = omega (arith, on.page);
              }))
            (choose (c == 10) _ _
              (put_end-IsOnScreen width height some_width some_height narrow low rounds _ (record {
                sized = on1.sized;
                column = refl;
                row = omega (arith, on1.row, on1.page, low);
                line = omega arith;
                page = omega (arith, on1.page, low);
              }))
              (choose (c == 9) _ _ (put_tab-IsOnScreen (erase_cursor s) on1) (
                choose (c == 8) _ _ (put_back-IsOnScreen (erase_cursor s) on1)
                  (put_char-IsOnScreen c s on))))
