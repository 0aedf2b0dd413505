-- ===== src/Console/Ending.antt =====
-- The end of putc brings the cursor back to the screen.
use lightux.Console.{Console, widen, cleared, update_cursor, console_clear_screen, put_end}
use lightux.Console.Drawing.{Sized, IsNear, IsOnScreen}
use lightux.Console.Cursor.{cleared-IsNear, update_cursor-stays, update_cursor-IsNear}
use lightux.Prelude.{
  ℕ, suc, ◌+◌, ◌%◌, ◌^◌, ◌<◌, ◌≡◌, refl, ap, ◌∙◌, inl, inr, true, false, leb, if◌then◌else◌, u32,
  arith, Bool-cases, Outcome, returns, panics, spins, Returns,
}

module _ (width height : ℕ) where
  module _ (some_width : 0 < width) (some_height : 0 < height) (narrow : width < 2 ^ 30)
      (low : height < 2 ^ 30) where
    put_end-page :
        (rounds : ℕ) (s : Console)
        → Sized width height s.fb
        → Returns (update_cursor (suc rounds) (cleared s)) (λ _ s'. IsOnScreen width height s')
    put_end-page rounds s sized =
        let (u, s', run, (on, same_x, same_y)) =
          update_cursor-stays width height some_width some_height narrow low rounds (cleared s)
            (cleared-IsNear width height some_width some_height narrow low s sized)
            (omega (arith, some_width)) in
        (
          u,
          s',
          run,
          record {
            sized = on.sized;
            column = on.column;
            row = on.row;
            line = omega (arith, same_x, some_width);
            page = omega (arith, same_y, some_height);
          },
        )

    abbrev wrapped : Console → Console
    wrapped s1 =
        if leb s1.fb.fb_width (widen s1.screen_x)
        then record s1 { screen_x = 0; screen_y = u32 (s1.screen_y + 16) }
        else s1

    abbrev finish : (rounds : ℕ) → Console → Outcome Console (Unit {0})
    finish rounds s2 = elim (leb s2.fb.fb_height (widen s2.screen_y)) [
      | true ↦ console_clear_screen rounds s2
      | false ↦ returns tt s2
    ]

    put_end-finish :
        (rounds : ℕ) (s s1 : Console)
        → update_cursor rounds s ≡ returns tt s1
        → put_end rounds s ≡ finish rounds (wrapped s1)
    unfolding put_end
    put_end-finish rounds s s1 run =
        ap
          (λ o. elim o [
            | returns _ s1 ↦ finish rounds (wrapped s1)
            | panics s1 ↦ panics s1
            | spins ↦ spins
          ])
          run

    -- A cursor that is on its line, on the page or behind it.
    finish-IsOnScreen :
        (rounds : ℕ) (s2 : Console)
        → Sized width height s2.fb
        → s2.screen_x % 8 ≡ 0
        → s2.screen_y % 16 ≡ 0
        → s2.screen_x < width
        → s2.screen_y < height + 32
        → Returns (finish (suc rounds) s2) (λ _ s'. IsOnScreen width height s')
    unfolding console_clear_screen
    finish-IsOnScreen rounds s2 sized column row line page =
        elim (Bool-cases (leb s2.fb.fb_height (widen s2.screen_y))) [
          | inl full ↦
              let (u, s', run, on) = put_end-page rounds s2 sized in
              (
                u,
                s',
                ap
                      (λ t. elim t [
                        | true ↦ update_cursor (suc rounds) (cleared s2)
                        | false ↦ returns tt s2
                      ])
                      full
                    ∙ run,
                on,
              )
          | inr fits ↦
              let t = sized.tall in
              (
                tt,
                s2,
                ap
                    (λ t. elim t [
                      | true ↦ update_cursor (suc rounds) (cleared s2)
                      | false ↦ returns tt s2
                    ])
                    fits,
                record {
                  sized = sized;
                  column = column;
                  row = row;
                  line = line;
                  page = ground (arith, fits, t, page, low);
                },
              )
        ]

    pub put_end-IsOnScreen :
        (rounds : ℕ) (s : Console)
        → IsNear width height s
        → Returns (put_end (suc (suc rounds)) s) (λ _ s'. IsOnScreen width height s')
    put_end-IsOnScreen rounds s on =
        let (u, s1, run, on1) =
          update_cursor-IsNear width height some_width some_height narrow low rounds s on in
        let w = on1.sized.wide in
        elim (Bool-cases (leb s1.fb.fb_width (widen s1.screen_x))) [
          | inl outside ↦
              let s2 : Console = record s1 { screen_x = 0; screen_y = u32 (s1.screen_y + 16) } in
              let (u', s', run', on') =
                finish-IsOnScreen (suc rounds) s2 on1.sized refl
                  (omega (arith, on1.row, on1.page, low)) (omega (arith, some_width))
                  (omega (arith, on1.page, low)) in
              (
                u',
                s',
                put_end-finish (suc (suc rounds)) s s1 run
                    ∙ ap (λ t. finish (suc (suc rounds)) (if t then s2 else s1)) outside
                    ∙ run',
                on',
              )
          | inr inside ↦
              let (u', s', run', on') =
                finish-IsOnScreen (suc rounds) s1 on1.sized on1.column on1.row
                  (ground (arith, inside, w, on1.line, narrow)) (omega (arith, on1.page)) in
              (
                u',
                s',
                put_end-finish (suc (suc rounds)) s s1 run
                    ∙ ap
                        (λ t. finish (suc (suc rounds)) (
                          if t
                          then record s1 { screen_x = 0; screen_y = u32 (s1.screen_y + 16) }
                          else s1))
                        inside
                    ∙ run',
                on',
              )
        ]
