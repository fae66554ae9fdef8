-- ===== src/Screen/Backspace.antt =====
-- What backspace_keyboard takes back: within a row the last character, and at the margin more or
-- something else.
use cheeri_os.Common.{
  ℕ, ◌+◌, ◌-◌, ◌≤◌, ◌<◌, ◌≡◌, ◌∙◌, ap, arith, ◌==◌, if◌then◌else◌, load8, store8, word, sub32,
}
use cheeri_os.Screen.{
  Screen, attrib, num_cols, num_rows, putc, wrap_column, wrap_row, put_char, put_cell, movingcursor,
  left, back_line, back_cell, backspace_keyboard,
}
use cheeri_os.Screen.Text.{IsShown, cell_at, putc-cell, wraps-inside}

space-IsShown : IsShown b' '
space-IsShown = omega arith

-- the state behind backspace_keyboard, but for the port writes
record Left (s t : Screen) : Type 0 where
  mem : t.mem ≡ s.mem
  column : t.screen_x ≡ sub32 s.screen_x 1
  row : t.screen_y ≡ s.screen_y
  wrapped : t.newlinecheck ≡ s.newlinecheck

backspace-inside :
    (s : Screen)
    → 1 ≤ s.screen_x
    → s.screen_x ≤ num_cols
    → Left (putc b' ' (left s)) (backspace_keyboard s)
unfolding backspace_keyboard back_line back_cell movingcursor
backspace-inside s low high = ground arith

-- A character that putc writes before the last column is taken back by backspace_keyboard: the cursor
-- and the wrap flag are as before, the cell holds a space with the usual attribute, and no other byte
-- has changed.
pub backspace-putc :
    (c : ℕ) (s : Screen)
    → IsShown c
    → s.screen_x < num_cols - 1
    → s.screen_y < num_rows
    → let t = backspace_keyboard (putc c s) in
      ((a : ℕ)
        → load8 t.mem a ≡ (
            if a == cell_at s.screen_x s.screen_y + 1
            then attrib
            else if a == cell_at s.screen_x s.screen_y
            then b' '
            else load8 s.mem a))
      × (t.screen_x ≡ s.screen_x)
      × (t.screen_y ≡ s.screen_y)
      × (t.newlinecheck ≡ s.newlinecheck)
backspace-putc c s shown col row =
    let t = putc c s in
    let first = putc-cell c s shown (omega arith) row in
    let back = backspace-inside t (omega (arith, first.1)) (omega (arith, first.1)) in
    let second =
      putc-cell b' ' (left t) space-IsShown (omega (arith, first.1)) (ground (arith, first.2)) in
    let same_column : (left t).screen_x ≡ s.screen_x = omega (arith, first.1) in
    let same_row : t.screen_y ≡ s.screen_y = ground (arith, first.2) in
    (
      λ a.
          let mem : load8 (backspace_keyboard t).mem a ≡ load8 (putc b' ' (left t)).mem a =
            ap (λ m. load8 m a) back.mem in
          ground (arith, mem, second.0 a, first.0 a, same_column, same_row),
      omega (arith, back.column, second.1, first.1),
      back.row ∙ ground (arith, second.2, same_row, same_column),
      back.wrapped ∙ second.3 ∙ first.3,
    )

-- Just after putc has filled a row (screen_x is 80, screen_y the next row), backspace_keyboard does not
-- touch the character that was written last: it blanks the last cell of the next row, and leaves the
-- cursor in the last column of the row below that.
pub backspace-filled_row :
    (s : Screen)
    → s.screen_x ≡ num_cols
    → s.screen_y < num_rows
    → let t = backspace_keyboard s in
      ((a : ℕ)
        → load8 t.mem a ≡ (
            if a == cell_at (num_cols - 1) s.screen_y + 1
            then attrib
            else if a == cell_at (num_cols - 1) s.screen_y
            then b' '
            else load8 s.mem a))
      × (t.screen_x ≡ num_cols - 1)
      × (t.screen_y ≡ s.screen_y + 1)
backspace-filled_row s col row =
    let back = backspace-inside s (omega arith) (omega arith) in
    let put = putc-cell b' ' (left s) space-IsShown (omega arith) row in
    let column : (left s).screen_x ≡ num_cols - 1 = omega arith in
    (
      λ a.
          let mem : load8 (backspace_keyboard s).mem a ≡ load8 (putc b' ' (left s)).mem a =
            ap (λ m. load8 m a) back.mem in
          ground (arith, mem, put.0 a, column),
      omega (arith, back.column, put.1, column),
      back.row ∙ ground (arith, put.2, column),
    )

back_line-again :
    (s : Screen)
    → s.screen_x ≡ 0
    → s.newlinecheck ≡ 1
    → backspace_keyboard s ≡ backspace_keyboard (back_line s)
unfolding backspace_keyboard back_line
back_line-again s col wrap = ground arith

-- the character at the end of the row above, which putc writes at column -1
putc-before :
    (s : Screen)
    → s.screen_x ≡ word - 1
    → 1 ≤ s.screen_y
    → s.screen_y < num_rows
    → let t = putc b' ' s in
      ((a : ℕ)
        → load8 t.mem a ≡ (
            if a == cell_at (num_cols - 1) (s.screen_y - 1) + 1
            then attrib
            else if a == cell_at (num_cols - 1) (s.screen_y - 1)
            then b' '
            else load8 s.mem a))
      × (t.screen_y ≡ s.screen_y)
unfolding putc wrap_row wrap_column put_char put_cell movingcursor store8
putc-before s col low high =
    rw (wraps-inside s (omega arith) high) (λ a. ground arith, ground arith)

back_line-parts :
    (s : Screen)
    → s.screen_x ≡ 0
    → s.newlinecheck ≡ 1
    → let u = back_line s in
      (u.mem ≡ (putc b' ' (left s)).mem)
      × (u.screen_x ≡ num_cols - 1)
      × (u.screen_y ≡ sub32 (putc b' ' (left s)).screen_y 1)
unfolding back_line
back_line-parts s col wrap = ground arith

-- At the start of a row that putc has wrapped to, backspace_keyboard blanks two characters, the last two
-- of the row above, and leaves the cursor in the column before the last one.
pub backspace-wrapped_row :
    (s : Screen)
    → s.screen_x ≡ 0
    → s.newlinecheck ≡ 1
    → 1 ≤ s.screen_y
    → s.screen_y < num_rows
    → let t = backspace_keyboard s in
      (load8 t.mem (cell_at (num_cols - 1) (s.screen_y - 1)) ≡ b' ')
      × (load8 t.mem (cell_at (num_cols - 2) (s.screen_y - 1)) ≡ b' ')
      × (t.screen_x ≡ num_cols - 2)
      × (t.screen_y ≡ s.screen_y - 1)
backspace-wrapped_row s col wrap low high =
    let u = back_line s in
    let parts = back_line-parts s col wrap in
    let before = putc-before (left s) (omega arith) low high in
    let row : u.screen_y ≡ s.screen_y - 1 = omega (arith, parts.2, before.1) in
    let column : (left u).screen_x ≡ num_cols - 2 = omega (arith, parts.1) in
    let back = backspace-inside u (omega (arith, parts.1)) (omega (arith, parts.1)) in
    let put = putc-cell b' ' (left u) space-IsShown (omega (arith, column)) (omega (arith, row)) in
    let last = cell_at (num_cols - 1) (s.screen_y - 1) in
    let last_but_one = cell_at (num_cols - 2) (s.screen_y - 1) in
    let mem : (a : ℕ) → load8 (backspace_keyboard u).mem a ≡ load8 (putc b' ' (left u)).mem a =
      λ a. ap (λ m. load8 m a) back.mem in
    let first : (a : ℕ) → load8 u.mem a ≡ load8 (putc b' ' (left s)).mem a =
      λ a. ap (λ m. load8 m a) parts.0 in
    rw (back_line-again s col wrap) (
      ground (arith, mem last, put.0 last, first last, before.0 last, column, row),
      ground (arith, mem last_but_one, put.0 last_but_one, column, row),
      omega (arith, back.column, put.1, column),
      back.row ∙ ground (arith, put.2, column, row),
    )
