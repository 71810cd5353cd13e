-- ===== src/Shell/Display/Scroll.antt =====
-- `sh_scroll` moves every row up by one and blanks the last; `sh_clear` blanks every cell.
use drupe.Base.{
  ltb, leb, if◌then◌else◌, length, set, length-set, get_or-set_self, get_or-set_ne, u32, sub32, ℕ,
  zero, suc, ◌+◌, ◌-◌, ◌*◌, ◌^◌, ◌≤◌, ◌<◌, ◌≡◌, refl, sym, ap, ◌∙◌, ◌&&◌, List, arith,
}
use drupe.Shell.Display.{
  Cell, blank, cell_at, fill, copy_row, copy_rows, Screen, sh_scroll, sh_clear,
}

abbrev Cells : Type 0
Cells = List Cell

length-fill : (left i : ℕ) (c : Cell) (m : Cells) → length (fill left i c m) ≡ length m
unfolding fill
length-fill zero i c m = refl
length-fill (suc left) i c m = length-fill left (i + 1) c (set m i c) ∙ length-set m i c

-- Filling from `i` on touches just the cells from `i` to `i + left`.
cell_at-fill :
    (left i : ℕ) (c : Cell) (m : Cells) (j : ℕ)
    → i + left ≤ length m
    → cell_at (fill left i c m) j ≡ (if leb i j && ltb j (i + left) then c else cell_at m j)
unfolding fill
cell_at-fill zero i c m j h = ground arith
cell_at-fill (suc left) i c m j h = ground (
  arith,
  cell_at-fill left (i + 1) c (set m i c) j,
  length-set m i c,
  get_or-set_self m i c (blank 0),
  get_or-set_ne m i j c (blank 0),
)

-- `memory[k] = memory[k + width]` for `left` cells from `k` on: what the two loops come to
shift : ℕ → ℕ → ℕ → Cells → Cells
shift zero k width m = m
shift (suc left) k width m = shift left (k + 1) width (set m k (cell_at m (k + width)))

length-shift : (left k width : ℕ) (m : Cells) → length (shift left k width m) ≡ length m
unfolding shift
length-shift zero k width m = refl
length-shift (suc left) k width m =
    length-shift left (k + 1) width (set m k (cell_at m (k + width)))
    ∙ length-set m k (cell_at m (k + width))

shift_split :
    (a b n k width : ℕ) (m : Cells)
    → n ≡ a + b
    → shift n k width m ≡ shift b (k + a) width (shift a k width m)
unfolding shift
shift_split zero b n k width m e =
    let count : n ≡ b = omega arith in let from : k + 0 ≡ k = omega arith in rw (count, from)
shift_split (suc a) b zero k width m e = absurd (omega arith)
shift_split (suc a) b (suc n) k width m e =
    let m' = set m k (cell_at m (k + width)) in
    shift_split a b n (k + 1) width m' (omega arith)
    ∙ ap (λ y. shift b y width (shift a (k + 1) width m')) (omega arith)

-- Each cell is read before it is written, since the source lies behind the destination.
cell_at-shift :
    (left k width : ℕ) (m : Cells) (j : ℕ)
    → 0 < width
    → k + left ≤ length m
    → cell_at (shift left k width m) j
      ≡ (if leb k j && ltb j (k + left) then cell_at m (j + width) else cell_at m j)
unfolding shift
cell_at-shift zero k width m j some_width h = ground arith
cell_at-shift (suc left) k width m j some_width h =
    let c = cell_at m (k + width) in
    ground (
      arith,
      cell_at-shift left (k + 1) width (set m k c) j,
      length-set m k c,
      get_or-set_self m k c (blank 0),
      get_or-set_ne m k j c (blank 0),
      get_or-set_ne m k (j + width) c (blank 0),
    )

copy_row-eq-shift :
    (left col r width : ℕ) (m : Cells)
    → suc r < 2 ^ 32
    → suc r * width + col + left < 2 ^ 32
    → copy_row left col (suc r) width m ≡ shift left (r * width + col) width m
unfolding copy_row shift
copy_row-eq-shift zero col r width m few h = refl
copy_row-eq-shift (suc left) col r width m few h =
    let row : sub32 (suc r) 1 ≡ r = omega arith in
    let dst : u32 (r * width + col) ≡ r * width + col = omega arith in
    let src : u32 (suc r * width + col) ≡ r * width + col + width = omega arith in
    rw (row, dst, src)
      (copy_row-eq-shift left (col + 1) r width _ few (omega arith)
        ∙ ap
            (λ k.
              shift left k width (set m (r * width + col) (cell_at m (r * width + col + width))))
            (omega arith))

copy_rows-eq-shift :
    (left r width : ℕ) (m : Cells)
    → suc (r + left) < 2 ^ 32
    → suc (r + left) * width < 2 ^ 32
    → copy_rows left (suc r) width m ≡ shift (left * width) (r * width) width m
unfolding copy_rows shift
copy_rows-eq-shift zero r width m few h = let e : 0 * width ≡ 0 = omega arith in rw e
copy_rows-eq-shift (suc left) r width m few h =
    let next : suc r + 1 ≡ suc (suc r) = omega arith in
    let start : r * width + 0 ≡ r * width = omega arith in
    let behind : suc r * width ≡ r * width + width = omega arith in
    rw (next, copy_row-eq-shift width 0 r width m (omega arith) (grind arith), start)
      (copy_rows-eq-shift left (suc r) width (shift width (r * width) width m) (omega arith)
          (grind arith)
        ∙ rw behind (
            sym (
              shift_split width (left * width) (suc left * width) (r * width) width m
                (omega arith))))

-- A screen whose cells are `width` times `height`, with room for the arithmetic of `size_t`.
pub record IsShaped (s : Screen) : Type 0 where
  pub some_width : 0 < s.width
  pub some_height : 0 < s.height
  pub area : s.height * s.width ≡ s.size
  pub cells : length s.memory ≡ s.size
  pub small : s.size + s.width < 2 ^ 32
  pub few_rows : s.height < 2 ^ 32

rows_area : (s : Screen) (h : ℕ) → IsShaped s → s.height ≡ suc h → h * s.width + s.width ≡ s.size
rows_area s h v e = omega (arith, v.area, ap (λ (t : ℕ). t * s.width) e)

scrolled :
    (s : Screen) (h : ℕ)
    → IsShaped s
    → s.height ≡ suc h
    → (sh_scroll s).memory
      ≡ fill s.width (h * s.width) (blank s.color) (shift (h * s.width) 0 s.width s.memory)
unfolding sh_scroll
scrolled s h v e =
    let area : h * s.width + s.width ≡ s.size = rows_area s h v e in
    let rows : s.height - 1 ≡ h = omega arith in
    let last : sub32 s.height 1 ≡ h = omega arith in
    let at_last : u32 (h * s.width) ≡ h * s.width = omega arith in
    let start : 0 * s.width ≡ 0 = omega arith in
    rw (
      rows,
      last,
      at_last,
      copy_rows-eq-shift h 0 s.width s.memory (omega arith) (grind arith),
      start,
    )

-- On a screen in shape scrolling gives each cell the content of the cell below it, and blanks the last row in the
-- current colour.
pub sh_scroll_lem :
    (s : Screen) (j : ℕ)
    → IsShaped s
    → j < s.size
    → cell_at (sh_scroll s).memory j
      ≡ (if ltb (j + s.width) s.size then cell_at s.memory (j + s.width) else blank s.color)
sh_scroll_lem s j v below =
    let h = s.height - 1 in
    let area : h * s.width + s.width ≡ s.size = rows_area s h v (omega arith) in
    let m = shift (h * s.width) 0 s.width s.memory in
    ap (λ m. cell_at m j) (scrolled s h v (omega arith))
    ∙ ground (
      arith,
      cell_at-fill s.width (h * s.width) (blank s.color) m j,
      length-shift (h * s.width) 0 s.width s.memory,
      cell_at-shift (h * s.width) 0 s.width s.memory j,
    )

pub length-sh_scroll : (s : Screen) → IsShaped s → length (sh_scroll s).memory ≡ length s.memory
length-sh_scroll s v =
    let h = s.height - 1 in
    ap (λ (m : Cells). length m) (scrolled s h v (omega arith))
    ∙ length-fill s.width (h * s.width) (blank s.color) (shift (h * s.width) 0 s.width s.memory)
    ∙ length-shift (h * s.width) 0 s.width s.memory

-- Clearing blanks every cell in the current colour and puts the cursor at the start.
pub sh_clear_lem :
    (s : Screen) (j : ℕ)
    → length s.memory ≡ s.size
    → j < s.size
    → (cell_at (sh_clear s).memory j ≡ blank s.color) × ((sh_clear s).cursor ≡ 0)
unfolding sh_clear
sh_clear_lem s j sized h = (ground (arith, cell_at-fill s.size 0 (blank s.color) s.memory j), refl)
