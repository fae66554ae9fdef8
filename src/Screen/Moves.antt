-- ===== src/Screen/Moves.antt =====
-- Where putc, newline_keyboard and clearscreen of student-distrib/lib.c leave the cursor.
use native.Mathlib.Decide.{dec_lt}
use cheeri_os.Common.{
  ℕ, ◌+◌, ◌-◌, ◌/◌, ◌≤◌, ◌<◌, ◌≡◌, ◌||◌, ◌==◌, arith, refl, ltb, slt, add32, true, false,
  if◌then◌else◌, Mem,
}
use cheeri_os.Screen.{Screen, clearscreen, movingcursor, newline_keyboard, num_rows}
use cheeri_os.Screen.Scroll.{IsScrolled, scrollscreen-IsScrolled}
use cheeri_os.Screen.Bounds.{InScreen}

-- The cell where the next character goes: a cursor behind the last column stands for column 0 of its row, and one
-- behind the last row for the start of the last row.
abbrev pub next_column : Screen → ℕ
next_column s = if ltb 24 s.screen_y then 0 else if s.screen_x == 80 then 0 else s.screen_x

abbrev pub next_row : Screen → ℕ
next_row s = if ltb 24 s.screen_y then 24 else s.screen_y

-- The cursor after putc: a NUL leaves it at that cell, a newline or return takes it to the start of the row below, and
-- another character one column further, and into the row below after the last column. The column may
-- be 80 and the row 25 then, each one behind its end.
pub record IsPut (c : ℕ) (s t : Screen) : Type 0 where
  pub column_in : next_column s < 80
  pub row_in : next_row s < 25
  pub nul : c ≡ 0 → (t.screen_x ≡ next_column s) × (t.screen_y ≡ next_row s)
  pub line : (c == b'\n' || c == b'\r') ≡ true → (t.screen_x ≡ 0) × (t.screen_y ≡ next_row s + 1)
  pub char :
      (c == 0 || c == b'\n' || c == b'\r') ≡ false
      → (t.screen_x ≡ next_column s + 1) × (t.screen_y ≡ next_row s + (next_column s + 1) / 80)

-- The cursor after newline_keyboard from row `y`: at the start of the row below, or, from the last row on, of
-- the last row, and the screen was scrolled then.
pub record IsNewline (m : Mem) (y : ℕ) (t : Screen) : Type 0 where
  pub column : t.screen_x ≡ 0
  pub row : t.screen_y ≡ (if ltb y 24 then y + 1 else 24)
  pub still : y < 24 → t.mem ≡ m
  pub scrolled : 24 ≤ y → IsScrolled m t.mem

pub newline_keyboard-IsNewline :
    {s : Screen} → InScreen s → IsNewline s.mem s.screen_y (newline_keyboard s)
unfolding newline_keyboard movingcursor
newline_keyboard-IsNewline {s} i =
    let below = record s { screen_y = add32 s.screen_y 1; screen_x = 0 } in
    let scroll = scrollscreen-IsScrolled below in
    elim (dec_lt s.screen_y 24) [
      | yes lt ↦
          let e : slt (num_rows - 1) (add32 s.screen_y 1) ≡ false = ground (arith, i) in
          rw e (record {
            column = refl;
            row = ground (arith, i);
            still = λ _. refl;
            scrolled = λ le. absurd (omega arith);
          })
      | no ge ↦
          let e : slt (num_rows - 1) (add32 s.screen_y 1) ≡ true = ground (arith, i) in
          rw e (record {
            column = scroll.1;
            row = ground (arith, i);
            still = λ lt. absurd (ge lt);
            scrolled = λ _. scroll.0;
          })
    ]

pub clearscreen-home :
    (s : Screen) → ((clearscreen s).screen_x ≡ 0) × ((clearscreen s).screen_y ≡ 0)
unfolding clearscreen movingcursor
clearscreen-home s = (refl, refl)
