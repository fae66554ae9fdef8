-- ===== src/Screen/Tests.antt =====
-- The theorems on the screen, at the screen after start-up and at the ends of its rows.
use cheeri_os.Common.{ℕ, ◌+◌, ◌≡◌, [], arith, ◌==◌, if◌then◌else◌, load8}
use cheeri_os.Screen.{Screen, attrib, scrollscreen, putc, backspace_keyboard}
use cheeri_os.Screen.Scroll.{IsScrolled, scrollscreen-IsScrolled}
use cheeri_os.Screen.Text.{cell_at, IsShown}
use cheeri_os.Screen.Backspace.{backspace-putc}

-- a screen that shows b'x' everywhere, with the cursor at (x, y)
abbrev screen_at : ℕ → ℕ → ℕ → Screen
screen_at x y n = record {
  mem = λ a. b'x';
  screen_x = x;
  screen_y = y;
  newlinecheck = n;
  outs = [];
}

scrollscreen-IsScrolled_example :
    let s = screen_at 3 25 0 in
    let t = scrollscreen s in
    IsScrolled s.mem t.mem × (t.screen_x ≡ 3) × (t.screen_y ≡ 25) × (t.newlinecheck ≡ 0)
scrollscreen-IsScrolled_example = scrollscreen-IsScrolled (screen_at 3 25 0)

shown : IsShown b'a'
shown = omega arith

backspace-putc_example :
    let s = screen_at 78 4 1 in
    let t = backspace_keyboard (putc b'a' s) in
    ((a : ℕ)
      → load8 t.mem a ≡ (
          if a == cell_at 78 4 + 1
          then attrib
          else if a == cell_at 78 4
          then b' '
          else load8 s.mem a))
    × (t.screen_x ≡ 78)
    × (t.screen_y ≡ 4)
    × (t.newlinecheck ≡ 1)
backspace-putc_example = backspace-putc b'a' (screen_at 78 4 1) shown (omega arith) (omega arith)
