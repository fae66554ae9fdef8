-- ===== src/Screen.antt =====
-- The text screen of student-distrib/lib.c: 25 rows of 80 cells of two bytes at 0xB8000, the globals
-- screen_x, screen_y and newlinecheck, and the port writes that move the cursor. The counters are
-- `int`, so that they are 32-bit patterns: backspace_keyboard takes screen_x to -1.
pub mod Scroll
pub mod Bounds
pub mod Moves
pub mod Text
pub mod Shown
pub mod Backspace
mod Tests
use cheeri_os.Common.{
  ℕ, zero, suc, ◌+◌, ◌-◌, ◌*◌, ◌/◌, ◌%◌, ◌^◌, Bool, true, false, not, ◌&&◌, ◌||◌, List, ◌∷◌, ◌==◌,
  ltb, if◌then◌else◌, Mem, load8, store8, word, add32, sub32, slt,
}

abbrev pub video : ℕ
video = 0xB8000

abbrev pub num_cols : ℕ
num_cols = 80

abbrev pub num_rows : ℕ
num_rows = 25

abbrev pub attrib : ℕ
attrib = 7

abbrev pub newline_offset : ℕ
newline_offset = 3840

-- `outs` is what outb has written, the last first, each with its port.
pub record Screen : Type 0 where
  pub mem : Mem
  pub screen_x : ℕ
  pub screen_y : ℕ
  pub newlinecheck : ℕ
  pub outs : List (ℕ × ℕ)

-- the loop of clear, with `k` rounds left
clear_loop : ℕ → ℕ → Mem → Mem
clear_loop zero i m = m
clear_loop (suc k) i m =
    clear_loop k (i + 1) (store8 (store8 m (video + i * 2) b' ') (video + i * 2 + 1) attrib)

unfoldable pub clear : Screen → Screen
unfolding clear_loop
clear s = record s { mem = clear_loop (num_rows * num_cols) 0 s.mem }

-- the two loops of scrollscreen
scroll_loop : ℕ → ℕ → Mem → Mem
scroll_loop zero i m = m
scroll_loop (suc k) i m = scroll_loop k (i + 1) (
    store8 (store8 m (video + i * 2) (load8 m (video + i * 2 + num_cols * 2))) (video + i * 2 + 1)
      attrib)

blank_loop : ℕ → ℕ → Mem → Mem
blank_loop zero i m = m
blank_loop (suc k) i m =
    blank_loop k (i + 1)
      (store8 (store8 m (video + i * 2 + newline_offset) b' ') (video + i * 2 + 1) attrib)

pub scrollscreen : Screen → Screen
scrollscreen s = record s {
  mem = blank_loop num_cols 0 (scroll_loop ((num_rows - 1) * num_cols) 0 s.mem);
}

abbrev pub outb : ℕ → ℕ → Screen → Screen
outb value port s = record s { outs = (value, port) ∷ s.outs }

unfoldable pub movingcursor : ℕ → Screen → Screen
movingcursor location s =
    outb (location / 2 ^ 8 % 256) 0x3D5
      (outb 0x0E 0x3D4 (outb (location % 256) 0x3D5 (outb 0x0F 0x3D4 s)))

-- NUM_COLS * screen_y + screen_x
abbrev pub location : Screen → ℕ
location s = add32 (num_cols * s.screen_y) s.screen_x

-- where the cell of the character stands, and its attribute one byte further
abbrev pub cell : Screen → ℕ
cell s = add32 video (location s * 2)

-- a / b as `int`, for b > 0: it rounds towards zero
abbrev pub sdiv : ℕ → ℕ → ℕ
sdiv a b = if ltb a (2 ^ 31) then a / b else sub32 0 ((word - a) / b)

-- the two tests at the start of putc
pub wrap_column : Screen → Screen
wrap_column s = if s.screen_x == num_cols then record s { screen_x = 0; newlinecheck = 1 } else s

pub wrap_row : Screen → Screen
wrap_row s =
    if slt (num_rows - 1) s.screen_y
    then record (scrollscreen s) { screen_y = num_rows - 1; screen_x = 0 }
    else s

pub put_cell : ℕ → Screen → Screen
put_cell c s =
    let x = add32 s.screen_x 1 in
    record s {
      mem = store8 (store8 s.mem (cell s) c) (add32 (cell s) 1) attrib;
      screen_x = x;
      screen_y = add32 s.screen_y (sdiv x num_cols);
    }

pub put_char : ℕ → Screen → Screen
unfolding put_cell
put_char c s =
    if c == b'\n' || c == b'\r'
    then record s { screen_y = add32 s.screen_y 1; screen_x = 0 }
    else put_cell c s

pub putc : ℕ → Screen → Screen
unfolding wrap_column wrap_row put_char
putc c s =
    let s' = wrap_row (wrap_column s) in
    if c == 0 then s' else (let t = put_char c s' in movingcursor (location t) t)

pub newline_keyboard : Screen → Screen
newline_keyboard s =
    let t = record s { screen_y = add32 s.screen_y 1; screen_x = 0 } in
    let t' =
      if slt (num_rows - 1) t.screen_y
      then record (scrollscreen t) { screen_y = num_rows - 1 }
      else t in
    record (movingcursor (location t') t') { newlinecheck = 0 }

-- screen_x--
abbrev pub left : Screen → Screen
left s = record s { screen_x = sub32 s.screen_x 1 }

-- the branch that goes back over the end of a line
pub back_line : Screen → Screen
back_line s =
    if s.screen_x == 0 && s.newlinecheck == 1
    then (let t = putc b' ' (left s) in
        record t { screen_x = num_cols - 1; screen_y = sub32 t.screen_y 1; newlinecheck = 0 })
    else s

-- the branch that clears the previous input
pub back_cell : Screen → Screen
back_cell s =
    if not (s.screen_y == 0) || s.screen_y == 0 && not (s.screen_x == 0)
    then left (putc b' ' (left s))
    else s

pub backspace_keyboard : Screen → Screen
unfolding back_line back_cell
backspace_keyboard s =
    if s.newlinecheck == 0 && s.screen_x == 0
    then s
    else (let t = back_cell (back_line s) in movingcursor (location t) t)

pub clearscreen : Screen → Screen
unfolding clear
clearscreen s = record (movingcursor 0 (clear s)) { screen_x = 0; screen_y = 0; newlinecheck = 0 }
