-- ===== src/Screen/Text.antt =====
-- Where putc writes a character, and that backspace_keyboard takes it back.
use cheeri_os.Common.{
  ℕ, ◌+◌, ◌-◌, ◌*◌, ◌%◌, ◌<◌, ◌≡◌, ◌≢◌, refl, arith, ◌==◌, ne→==, if◌then◌else◌, load8, store8,
}
use cheeri_os.Screen.{
  Screen, video, attrib, num_cols, num_rows, putc, wrap_column, wrap_row, put_char, put_cell,
  movingcursor, location,
}

-- a byte that putc shows in a cell
abbrev pub IsShown : ℕ → Type 0
IsShown c = (c ≢ 0) × (c ≢ b'\n') × (c ≢ b'\r')

pub wraps-inside :
    (s : Screen) → s.screen_x ≢ num_cols → s.screen_y < num_rows → wrap_row (wrap_column s) ≡ s
unfolding wrap_row wrap_column
wraps-inside s col row = ground arith

pub putc-inside :
    (c : ℕ) (s : Screen)
    → IsShown c
    → s.screen_x < num_cols
    → s.screen_y < num_rows
    → putc c s ≡ movingcursor (location (put_cell c s)) (put_cell c s)
unfolding putc put_char
putc-inside c s shown col row = rw (
  wraps-inside s (omega arith) row,
  ne→== c 0 shown.0,
  ne→== c b'\n' shown.1,
  ne→== c b'\r' shown.2,
)

-- The byte of the cell (x, y), as the row-major place in the video memory.
abbrev pub cell_at : ℕ → ℕ → ℕ
cell_at x y = video + (y * num_cols + x) * 2

-- putc of a character at a place on the screen writes it with the usual attribute to the cell there,
-- changes no other byte, and goes on to the next column; behind the last column it also counts the row.
pub putc-cell :
    (c : ℕ) (s : Screen)
    → IsShown c
    → s.screen_x < num_cols
    → s.screen_y < num_rows
    → let t = putc c s in
      ((a : ℕ)
        → load8 t.mem a ≡ (
            if a == cell_at s.screen_x s.screen_y + 1
            then attrib
            else if a == cell_at s.screen_x s.screen_y
            then c % 256
            else load8 s.mem a))
      × (t.screen_x ≡ s.screen_x + 1)
      × (t.screen_y ≡ (if s.screen_x == num_cols - 1 then s.screen_y + 1 else s.screen_y))
      × (t.newlinecheck ≡ s.newlinecheck)
unfolding movingcursor put_cell store8
putc-cell c s shown col row =
    rw (putc-inside c s shown col row) (λ a. ground arith, ground arith, ground arith, refl)
