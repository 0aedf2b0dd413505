-- ===== src/Console/Cursor.antt =====
-- updateCursor of console.c.
use lightux.Console.{
  Console, widen, background_color, foreground_color, fill_cursor, cleared, update_cursor,
}
use lightux.Console.Drawing.{Sized, IsNear, clear_screen-Sized, fill_cursor-IsNear}
use lightux.Prelude.{
  ℕ, suc, ◌+◌, ◌^◌, ◌<◌, ◌≡◌, refl, ap, ◌∙◌, inl, inr, true, false, leb, u32, arith, Bool-cases,
  Outcome, returns, panics, spins, Returns,
}

module _ (width height : ℕ) where
  module _ (some_width : 0 < width) (some_height : 0 < height) (narrow : width < 2 ^ 30)
      (low : height < 2 ^ 30) where
    pub cleared-IsNear : (s : Console) → Sized width height s.fb → IsNear width height (cleared s)
    cleared-IsNear s sized = record {
      sized = clear_screen-Sized width height background_color s.fb sized;
      column = refl;
      row = refl;
      line = omega arith;
      page = omega (arith, some_height);
    }

    pub update-hidden :
        (rounds : ℕ) (s : Console)
        → s.show_cursor ≡ false
        → update_cursor (suc rounds) s ≡ returns tt s
    unfolding update_cursor
    update-hidden rounds s hidden = ground (arith, hidden)

    pub update-inside :
        (rounds : ℕ) (s : Console)
        → s.show_cursor ≡ true
        → leb s.fb.fb_width (widen s.screen_x) ≡ false
        → update_cursor (suc rounds) s ≡ returns tt (fill_cursor foreground_color s)
    unfolding update_cursor
    update-inside rounds s shown inside = ground (arith, shown, inside)

    abbrev pub next_line : Console → Console
    next_line s = record s { screen_y = u32 (s.screen_y + 16) }

    pub update-line :
        (rounds : ℕ) (s : Console)
        → s.show_cursor ≡ true
        → leb s.fb.fb_width (widen s.screen_x) ≡ true
        → leb s.fb.fb_height (widen (u32 (s.screen_y + 16))) ≡ false
        → update_cursor (suc rounds) s
          ≡ returns tt (fill_cursor foreground_color (record (next_line s) { screen_x = 0 }))
    unfolding update_cursor
    update-line rounds s shown outside fits = ground (arith, shown, outside, fits)

    abbrev pub after_clear : Outcome Console (Unit {0}) → Outcome Console (Unit {0})
    after_clear (returns _ s2) =
        returns tt (fill_cursor foreground_color (record s2 { screen_x = 0 }))
    after_clear (panics s2) = panics s2
    after_clear spins = spins

    pub update-page :
        (rounds : ℕ) (s : Console)
        → s.show_cursor ≡ true
        → leb s.fb.fb_width (widen s.screen_x) ≡ true
        → leb s.fb.fb_height (widen (u32 (s.screen_y + 16))) ≡ true
        → update_cursor (suc rounds) s ≡ after_clear (update_cursor rounds (cleared (next_line s)))
    unfolding update_cursor
    update-page rounds s shown outside full =
        let line : Outcome Console (Unit {0}) =
          returns tt (fill_cursor foreground_color (record (next_line s) { screen_x = 0 })) in
        let page = after_clear (update_cursor rounds (cleared (next_line s))) in
        ap
          (λ t. elim t [
            | false ↦ returns tt s
            | true ↦ elim (leb s.fb.fb_width (widen s.screen_x)) [
              | false ↦ returns tt (fill_cursor foreground_color s)
              | true ↦ elim (leb s.fb.fb_height (widen (u32 (s.screen_y + 16)))) [
                | false ↦ line
                | true ↦ page
              ]
            ]
          ])
          shown
        ∙ ap
            (λ t. elim t [
              | false ↦ returns tt (fill_cursor foreground_color s)
              | true ↦ elim (leb s.fb.fb_height (widen (u32 (s.screen_y + 16)))) [
                | false ↦ line
                | true ↦ page
              ]
            ])
            outside
        ∙ ap (λ t. elim t [ false ↦ line | true ↦ page ]) full

    -- Where the cursor is on its line, it stays where it is.
    pub update_cursor-stays :
        (rounds : ℕ) (s : Console)
        → IsNear width height s
        → s.screen_x < width
        → Returns (update_cursor (suc rounds) s) (λ _ s'.
          IsNear width height s' × (s'.screen_x ≡ s.screen_x) × (s'.screen_y ≡ s.screen_y))
    update_cursor-stays rounds s on inside = elim (Bool-cases s.show_cursor) [
      | inr hidden ↦ (tt, s, update-hidden rounds s hidden, (on, refl, refl))
      | inl shown ↦
          let w = on.sized.wide in
          let here : leb s.fb.fb_width (widen s.screen_x) ≡ false =
            ground (arith, w, inside, narrow) in
          (
            tt,
            fill_cursor foreground_color s,
            update-inside rounds s shown here,
            (fill_cursor-IsNear width height foreground_color s on, refl, refl),
          )
    ]

    pub update_cursor-IsNear :
        (rounds : ℕ) (s : Console)
        → IsNear width height s
        → Returns (update_cursor (suc (suc rounds)) s) (λ _ s'. IsNear width height s')
    update_cursor-IsNear rounds s on = elim (Bool-cases s.show_cursor) [
      | inr hidden ↦ (tt, s, update-hidden (suc rounds) s hidden, on)
      | inl shown ↦ elim (Bool-cases (leb s.fb.fb_width (widen s.screen_x))) [
        | inr inside ↦ (
          tt,
          fill_cursor foreground_color s,
          update-inside (suc rounds) s shown inside,
          fill_cursor-IsNear width height foreground_color s on,
        )
        | inl outside ↦ elim (Bool-cases (leb s.fb.fb_height (widen (u32 (s.screen_y + 16))))) [
          | inr fits ↦
              let t = on.sized.tall in
              let below : u32 (s.screen_y + 16) < height + 16 =
                ground (arith, fits, t, on.page, low) in
              (
                tt,
                fill_cursor foreground_color (record (next_line s) { screen_x = 0 }),
                update-line (suc rounds) s shown outside fits,
                fill_cursor-IsNear width height foreground_color
                    (record (next_line s) { screen_x = 0 })
                    (record {
                      sized = on.sized;
                      column = refl;
                      row = omega (arith, on.row, on.page, low);
                      line = omega arith;
                      page = below;
                    }),
              )
          | inl full ↦
              let (u, s2, run, (on2, same_x, same_y)) =
                update_cursor-stays rounds (cleared (next_line s))
                  (cleared-IsNear (next_line s) on.sized) (omega (arith, some_width)) in
              (
                tt,
                fill_cursor foreground_color (record s2 { screen_x = 0 }),
                update-page (suc rounds) s shown outside full ∙ ap after_clear run,
                fill_cursor-IsNear width height foreground_color (record s2 { screen_x = 0 })
                    (record {
                      sized = on2.sized;
                      column = refl;
                      row = on2.row;
                      line = omega arith;
                      page = on2.page;
                    }),
              )
        ]
      ]
    ]
