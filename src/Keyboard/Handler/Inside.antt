-- ===== src/Keyboard/Handler/Inside.antt =====
-- keyboard_handler and the cursor: the invariant together with where Enter and control-l leave it.
use cheeri_os.Common.{ℕ, ◌≡◌}
use cheeri_os.Screen.Moves.{IsNewline, newline_keyboard-IsNewline, clearscreen-home}
use cheeri_os.Keyboard.Scan
use cheeri_os.Keyboard.State.{Keyboard}
use cheeri_os.Keyboard.Tables.{DataSegment}
use cheeri_os.Keyboard.Handler.{put_buffer, press_enter, keyboard_handler}
use cheeri_os.Keyboard.Handler.Bounds.{IsKeyboard, start-IsKeyboard, keyboard_handler-IsKeyboard}
use cheeri_os.Keyboard.Handler.Line.{start}
use cheeri_os.Keyboard.Handler.Editing.{handler-enter}

press_enter-IsNewline :
    {k : Keyboard} → IsKeyboard k → IsNewline k.screen.mem k.screen.screen_y (press_enter k).screen
unfolding press_enter put_buffer
press_enter-IsNewline {k} v = rw v.terminal (newline_keyboard-IsNewline v.screen)

handler-clear :
    (d : DataSegment) (scan : ℕ) (k : Keyboard)
    → (k.crtlpressed ≡ 1) × (scan ≡ Scan.crtl_check)
    → let t = (keyboard_handler d scan k).screen in (t.screen_x ≡ 0) × (t.screen_y ≡ 0)
unfolding keyboard_handler
handler-clear d scan k (held, l) = rw (held, l) (clearscreen-home (start k).screen)

-- Whatever scan code arrives, and whatever stands behind the two tables, keyboard_handler keeps the three line
-- counters at most 127, the cursor and every saved cursor in the bounds of InScreen (columns 0 to 80 and rows
-- 0 to 25, one more than there are), and count at the counter of the terminal that is shown. Enter leaves the
-- cursor at the start of one of the 25 rows, the next one or, after scrolling, the last, and control with l at
-- the first cell.
pub keyboard_handler-inside :
    (d : DataSegment) (scan : ℕ) {k : Keyboard}
    → IsKeyboard k
    → let k' = keyboard_handler d scan k in
      IsKeyboard k'
      × (scan ≡ Scan.enter → IsNewline k.screen.mem k.screen.screen_y k'.screen)
      × ((k.crtlpressed ≡ 1) × (scan ≡ Scan.crtl_check)
          → (k'.screen.screen_x ≡ 0) × (k'.screen.screen_y ≡ 0))
keyboard_handler-inside d scan {k} v = (
  keyboard_handler-IsKeyboard d scan v,
  λ e. rw (e, handler-enter d k) (press_enter-IsNewline (start-IsKeyboard v)),
  handler-clear d scan k,
)
