-- ===== src/Shell/Display/Inv.antt =====
-- The invariant of the screen, and where one byte goes.
use drupe.Base.{
  leb, ◌==◌, lt→ltb, Bool-cases, length, set, length-set, get_or-set_self, u32, sub32, ℕ, suc, ◌+◌,
  ◌-◌, ◌*◌, ◌/◌, ◌%◌, ◌^◌, ◌≤◌, ◌<◌, ◌≡◌, refl, sym, ap, ◌∙◌, ◌≢◌, inl, inr, false, List, arith,
}
use native.Mathlib.Nat.{mod-add-div', mul-div_cancel, div-add-mod', mod-lt, mod-eq-sub-mod}
use drupe.Shell.Display.{Screen, sh_scroll, scroll_at_end, render_char, Cell, cell_at, blank}
use drupe.Shell.Display.Scroll.{IsShaped, length-sh_scroll, sh_scroll_lem}

-- The cursor stands on a cell of the screen.
pub record IsValid (s : Screen) : Type 0 where
  pub shaped : IsShaped s
  pub cursor_in : s.cursor < s.size

pub width-le-size : {s : Screen} → IsShaped s → s.width ≤ s.size
width-le-size {s} v = let e : s.width ≤ s.height * s.width = grind arith in omega (arith, v.area)

-- Scrolling changes the cells only.
pub sh_scroll_keeps :
    (s : Screen)
    → (sh_scroll s).size ≡ s.size
      × (sh_scroll s).cursor ≡ s.cursor
      × (sh_scroll s).width ≡ s.width
      × (sh_scroll s).height ≡ s.height
      × (sh_scroll s).color ≡ s.color
unfolding sh_scroll
sh_scroll_keeps s = (refl, refl, refl, refl, refl)

-- A cursor at most a row behind the end comes back to the screen.
scroll_at_end-IsValid :
    {s : Screen} → IsShaped s → s.cursor < s.size + s.width → IsValid (scroll_at_end s)
unfolding scroll_at_end
scroll_at_end-IsValid {s} v h = elim (Bool-cases (leb s.size s.cursor)) [
  | inl over ↦
      let k = sh_scroll_keeps s in
      let enough = width-le-size v in
      rw over (record {
        shaped = record {
          some_width = omega arith;
          some_height = omega arith;
          area = rw (k.3, k.2, k.0) v.area;
          cells = length-sh_scroll s v ∙ v.cells ∙ sym k.0;
          small = omega (arith, v.small);
          few_rows = omega (arith, v.few_rows);
        };
        cursor_in = ground (arith, v.small);
      })
  | inr within ↦ rw within (record { shaped = v; cursor_in = ground arith })
]

moved-IsShaped :
    {s : Screen} (m : List Cell) (cursor : ℕ)
    → IsShaped s
    → length m ≡ s.size
    → IsShaped (record s { memory = m; cursor = cursor })
moved-IsShaped m cursor v sized = record {
  some_width = v.some_width;
  some_height = v.some_height;
  area = v.area;
  cells = sized;
  small = v.small;
  few_rows = v.few_rows;
}

-- On a screen in shape with the cursor on it, each byte of a stream leaves it so.
render_char-IsValid : {s : Screen} (c : ℕ) → IsValid s → IsValid (render_char s c)
unfolding render_char
render_char-IsValid {s} c v = elim (Bool-cases (c == 0x0D)) [
  | inl cr ↦ rw cr (record {
    shaped = moved-IsShaped s.memory _ v.shaped v.shaped.cells;
    cursor_in = omega (arith, v.cursor_in);
  })
  | inr other ↦ rw other (elim (Bool-cases (c == 0x0A)) [
    | inl nl ↦ rw nl (
        scroll_at_end-IsValid
          (moved-IsShaped s.memory (u32 (s.cursor + (s.width - s.cursor % s.width))) v.shaped
            v.shaped.cells)
          (omega (arith, v.shaped.small, v.cursor_in, v.shaped.some_width)))
    | inr char ↦
        rw (char, lt→ltb s.cursor s.size v.cursor_in)
          (scroll_at_end-IsValid
            (moved-IsShaped (set s.memory s.cursor (record { character = c; color = s.color }))
              (u32 (s.cursor + 1)) v.shaped
              (length-set s.memory s.cursor (record { character = c; color = s.color })
                ∙ v.shaped.cells))
            (omega (arith, v.shaped.small, v.cursor_in, v.shaped.some_width)))
  ])
]

-- what the end test leaves in the cell behind the cursor
scroll_at_end-typed :
    {s : Screen}
    → IsShaped s
    → 1 < s.height
    → 0 < s.cursor
    → s.cursor ≤ s.size
    → cell_at (scroll_at_end s).memory ((scroll_at_end s).cursor - 1)
      ≡ cell_at s.memory (s.cursor - 1)
unfolding scroll_at_end
scroll_at_end-typed {s} v rows some_typed within = elim (Bool-cases (leb s.size s.cursor)) [
  | inl over ↦
      let k = sh_scroll_keeps s in
      let two_rows : s.width + s.width ≤ s.height * s.width = grind arith in
      let small = v.small in
      let area = v.area in
      let at : sub32 (sh_scroll s).cursor (sh_scroll s).width - 1 ≡ s.size - s.width - 1 =
        ground (arith, k.1, k.2) in
      rw (over, at)
        (ground (
          arith,
          sh_scroll_lem s (s.size - s.width - 1) v,
          ap (cell_at s.memory) {x = s.size - s.width - 1 + s.width} {y = s.cursor - 1}
              (ground arith),
        ))
  | inr within ↦ rw within
]

-- On a valid screen of two rows or more, a byte that is neither a carriage return nor a newline stands
-- in the cell behind the cursor, in the current colour, also where the screen has scrolled.
pub render_char-typed :
    {s : Screen} (c : ℕ)
    → IsValid s
    → 1 < s.height
    → c ≢ 0x0D
    → c ≢ 0x0A
    → cell_at (render_char s c).memory ((render_char s c).cursor - 1)
      ≡ record { character = c; color = s.color }
unfolding render_char
render_char-typed {s} c v rows not_cr not_nl =
    let first : (c == 0x0D) ≡ false = ground arith in
    let second : (c == 0x0A) ≡ false = ground arith in
    let glyph : Cell = record { character = c; color = s.color } in
    let step : u32 (s.cursor + 1) ≡ s.cursor + 1 = omega (arith, v.shaped.small, v.cursor_in) in
    let back : s.cursor + 1 - 1 ≡ s.cursor = omega arith in
    rw (first, second, lt→ltb s.cursor s.size v.cursor_in, step)
      (scroll_at_end-typed
          (moved-IsShaped (set s.memory s.cursor glyph) (s.cursor + 1) v.shaped
            (length-set s.memory s.cursor glyph ∙ v.shaped.cells))
          rows (omega arith) (omega (arith, v.cursor_in))
        ∙ ap (cell_at (set s.memory s.cursor glyph)) back
        ∙ get_or-set_self s.memory s.cursor glyph (blank 0)
            (omega (arith, v.cursor_in, v.shaped.cells)))

mul-mod_zero : (q w : ℕ) → 0 < w → q * w % w ≡ 0
mul-mod_zero q w h =
    omega (arith, mod-add-div' (q * w) w, ap (λ (t : ℕ). t * w) (mul-div_cancel q h))

row_start : (c w : ℕ) → 0 < w → c - c % w ≡ c / w * w
row_start c w h = omega (arith, div-add-mod' c w)

next_row : (c w : ℕ) → 0 < w → c + (w - c % w) ≡ suc (c / w) * w
next_row c w h = omega (arith, div-add-mod' c w, mod-lt c h)

scroll_at_end-row :
    {s : Screen}
    → IsShaped s
    → s.cursor < 2 ^ 32
    → s.cursor % s.width ≡ 0
    → (scroll_at_end s).cursor % s.width ≡ 0
unfolding scroll_at_end
scroll_at_end-row {s} v fits e = elim (Bool-cases (leb s.size s.cursor)) [
  | inl over ↦
      let k = sh_scroll_keeps s in
      let room = width-le-size v in
      let back : sub32 (sh_scroll s).cursor (sh_scroll s).width ≡ s.cursor - s.width =
        ground (arith, k.1, k.2) in
      rw (over, back) (sym (mod-eq-sub-mod {n = s.cursor} {m = s.width} (ground arith)) ∙ e)
  | inr within ↦ rw within e
]

-- On a valid screen a carriage return goes to the start of the cursor's row and a newline to the start of a row; of
-- the cells a carriage return changes none.
pub render_char-controls :
    {s : Screen}
    → IsValid s
    → ((render_char s 0x0D).cursor % s.width ≡ 0)
      × ((render_char s 0x0D).cursor / s.width ≡ s.cursor / s.width)
      × ((render_char s 0x0D).memory ≡ s.memory)
      × ((render_char s 0x0A).cursor % s.width ≡ 0)
unfolding render_char
render_char-controls {s} v = (
  rw (row_start s.cursor s.width w) (mul-mod_zero (s.cursor / s.width) s.width w),
  rw (row_start s.cursor s.width w) (mul-div_cancel (s.cursor / s.width) w),
  refl,
  scroll_at_end-row (moved-IsShaped s.memory next v.shaped v.shaped.cells) (omega arith)
      (rw (plain, next_row s.cursor s.width w) (mul-mod_zero (suc (s.cursor / s.width)) s.width w)),
)
  where
    w : 0 < s.width
    w = v.shaped.some_width

    next : ℕ
    next = u32 (s.cursor + (s.width - s.cursor % s.width))

    plain : next ≡ s.cursor + (s.width - s.cursor % s.width)
    plain = omega (arith, v.shaped.small, v.cursor_in)
