-- ===== src/Drivers/Vga/Screen.antt =====
-- The teletype stays on the screen.
use neo_sys_x.Common.{
  ℕ, zero, suc, ◌+◌, ◌-◌, ◌*◌, ◌%◌, ◌^◌, ◌≤◌, ◌<◌, ◌≡◌, refl, inl, inr, false, ◌||◌, arith, leb,
  ◌==◌, Bool-cases, u8, u16, u32, min, ◌∙◌,
}
use neo_sys_x.Drivers.Vga.{
  Vga, width, height, putc_at, update_cursor, set_cursor, line_feed, put_glyph, put_spaces,
  backspace, echo, putc, tab_width, clamp, ansi_set_cursor, ansi_move_cursor,
}

-- The position is on the screen, and nothing outside the screen has changed since `cells`.
pub record OnScreen (cells : ℕ → ℕ) (vga : Vga) : Type 0 where
  pub x_bounded : vga.tty_x < width
  pub y_bounded : vga.tty_y < height
  pub outside : (k : ℕ) → width * height ≤ k → vga.cells k ≡ cells k

-- The hardware shows the position.
abbrev pub Synced : Vga → Type 0
Synced vga = vga.location ≡ vga.tty_y * width + vga.tty_x

module _ (cells : ℕ → ℕ) where
  update_cursor-OnScreen :
      (vga : Vga)
      → OnScreen cells vga
      → OnScreen cells (update_cursor vga) × Synced (update_cursor vga)
  unfolding update_cursor
  update_cursor-OnScreen vga v = (
    record { x_bounded = v.x_bounded; y_bounded = v.y_bounded; outside = v.outside },
    omega (arith, v.x_bounded, v.y_bounded),
  )

  line_feed-OnScreen :
      (vga : Vga)
      → vga.tty_y < height
      → ((k : ℕ) → width * height ≤ k → vga.cells k ≡ cells k)
      → OnScreen cells (line_feed vga)
  unfolding line_feed
  line_feed-OnScreen vga y out = elim (Bool-cases (vga.tty_y == height - 1)) [
    | inl last ↦ simp last (record {
      x_bounded = omega arith;
      y_bounded = y;
      outside = λ k h. ground (arith, out k h);
    })
    | inr more ↦
        simp more (record { x_bounded = omega arith; y_bounded = ground arith; outside = out })
  ]

  put_glyph-OnScreen : (vga : Vga) (c : ℕ) → OnScreen cells vga → OnScreen cells (put_glyph vga c)
  unfolding put_glyph
  put_glyph-OnScreen vga c v = elim (Bool-cases (u8 (vga.tty_x + 1) == width)) [
    | inl last ↦
        simp last
          (line_feed-OnScreen (putc_at vga vga.tty_x vga.tty_y c vga.attrib) v.y_bounded written)
    | inr more ↦ simp more (record {
      x_bounded = ground (arith, v.x_bounded);
      y_bounded = v.y_bounded;
      outside = written;
    })
  ]
    where
      written :
          (k : ℕ)
          → width * height ≤ k
          → (putc_at vga vga.tty_x vga.tty_y c vga.attrib).cells k ≡ cells k
      written k h = unfold putc_at in ground (arith, v.outside k h, v.x_bounded, v.y_bounded)

  put_spaces-OnScreen : (n : ℕ) (vga : Vga) → OnScreen cells vga → OnScreen cells (put_spaces n vga)
  unfolding put_spaces
  put_spaces-OnScreen zero vga v = v
  put_spaces-OnScreen (suc n) vga v =
      put_spaces-OnScreen n (update_cursor (put_glyph vga b' '))
        (update_cursor-OnScreen (put_glyph vga b' ') (put_glyph-OnScreen vga b' ' v)).0

  backspace-OnScreen : (vga : Vga) → OnScreen cells vga → OnScreen cells (backspace vga)
  unfolding backspace
  backspace-OnScreen vga v = elim (Bool-cases (vga.tty_x == 0)) [
    | inl left ↦ simp left (elim (Bool-cases (vga.tty_y == 0)) [
      | inl top ↦ simp top v
      | inr under ↦ simp under (record {
        x_bounded = omega arith;
        y_bounded = omega (arith, v.y_bounded);
        outside = v.outside;
      })
    ])
    | inr inside ↦ simp inside (record {
      x_bounded = omega (arith, v.x_bounded);
      y_bounded = v.y_bounded;
      outside = v.outside;
    })
  ]

echo-OnScreen :
    (cells : ℕ → ℕ) (vga : Vga) (c : ℕ) → OnScreen cells vga → OnScreen cells (echo vga c)
unfolding echo
echo-OnScreen cells vga c v = elim (Bool-cases (c == 8)) [
  | inl e ↦ simp e (backspace-OnScreen cells vga v)
  | inr a ↦ simp a (elim (Bool-cases (c == 10)) [
    | inl e ↦ simp e (line_feed-OnScreen cells vga v.y_bounded v.outside)
    | inr b ↦ simp b (elim (Bool-cases (c == 13)) [
      | inl e ↦ simp e v
      | inr d ↦ simp d (elim (Bool-cases (c == 9)) [
        | inl e ↦ simp e (put_spaces-OnScreen cells (tab_width - vga.tty_x % tab_width) vga v)
        | inr f ↦ simp f (put_glyph-OnScreen cells vga c v)
      ])
    ])
  ])
]

-- From a position on the screen, whatever character `vga_text_putc` is given, the position stays
-- on the screen, the hardware cursor shows it, and no cell outside the screen is written.
pub putc-OnScreen :
    (cells : ℕ → ℕ) (vga : Vga) (c : ℕ)
    → OnScreen cells vga
    → OnScreen cells (putc vga c) × Synced (putc vga c)
unfolding putc
putc-OnScreen cells vga c v =
    update_cursor-OnScreen cells (echo vga c) (echo-OnScreen cells vga c v)

pub clamp-lt : (limit x : ℕ) → 0 < limit → clamp limit x < limit
clamp-lt limit x h = ground arith

-- Moving the cursor by escape sequences keeps it on the screen, for every `int`: it goes to the
-- place asked for, or to the edge in its direction.
pub ansi_set_cursor-OnScreen :
    (vga : Vga) (x y : ℕ)
    → let after = ansi_set_cursor vga x y in
      (after.tty_x ≡ clamp width x)
      × (after.tty_y ≡ clamp height y)
      × (after.tty_x < width)
      × (after.tty_y < height)
      × Synced after
unfolding ansi_set_cursor set_cursor
ansi_set_cursor-OnScreen vga x y =
    let h : clamp width x < width = clamp-lt width x (omega arith) in
    let k : clamp height y < height = clamp-lt height y (omega arith) in
    let inside : (leb width (clamp width x) || leb height (clamp height y)) ≡ false = within h k in
    simp inside (refl, refl, h, k, synced h k)
  where
    within : {a b : ℕ} → a < width → b < height → (leb width a || leb height b) ≡ false
    within h k = ground arith

    synced : {a b : ℕ} → a < width → b < height → u16 (b * width + a) ≡ b * width + a
    synced h k = omega arith

-- From a position on the screen, a cursor movement of fewer than 2^30 cells to the right and down,
-- or to the left and up, ends that far away or at the edge of the screen.
ansi_move_cursor-clamped :
    (vga : Vga) (dx dy : ℕ)
    → vga.tty_x < width
    → vga.tty_y < height
    → dx < 2 ^ 30
    → dy < 2 ^ 30
    → let there = ansi_move_cursor vga dx dy in
      let back = ansi_move_cursor vga (u32 (2 ^ 32 - dx)) (u32 (2 ^ 32 - dy)) in
      (there.tty_x ≡ min (vga.tty_x + dx) (width - 1))
      × (there.tty_y ≡ min (vga.tty_y + dy) (height - 1))
      × (back.tty_x ≡ vga.tty_x - dx)
      × (back.tty_y ≡ vga.tty_y - dy)
unfolding ansi_move_cursor
ansi_move_cursor-clamped vga dx dy x y h k =
    let there = ansi_set_cursor-OnScreen vga (u32 (dx + vga.tty_x)) (u32 (dy + vga.tty_y)) in
    let back =
      ansi_set_cursor-OnScreen vga (u32 (u32 (2 ^ 32 - dx) + vga.tty_x))
        (u32 (u32 (2 ^ 32 - dy) + vga.tty_y)) in
    (
      there.0 ∙ forward dx vga.tty_x width x (omega arith) h,
      there.1 ∙ forward dy vga.tty_y height y (omega arith) k,
      back.0 ∙ backward dx vga.tty_x width x (omega arith) h,
      back.1 ∙ backward dy vga.tty_y height y (omega arith) k,
    )
  where
    forward :
        (d p limit : ℕ)
        → p < limit
        → limit ≤ 80
        → d < 2 ^ 30
        → clamp limit (u32 (d + p)) ≡ min (p + d) (limit - 1)
    forward d p limit h l b = ground arith

    backward :
        (d p limit : ℕ)
        → p < limit
        → limit ≤ 80
        → d < 2 ^ 30
        → clamp limit (u32 (u32 (2 ^ 32 - d) + p)) ≡ p - d
    backward d p limit h l b = elim (Bool-cases (d == 0)) [
      | inl e ↦ ground arith
      | inr e ↦ (let w : u32 (2 ^ 32 - d) ≡ 2 ^ 32 - d = ground arith in rw w (ground arith))
    ]
