-- ===== src/Keyboard/Tests.antt =====
-- The theorems on the keyboard, at terminal 1 after start-up or with a byte in its line.
use cheeri_os.Common.{
  ℕ, ◌≡◌, true, [], ◌∷◌, List, inl, inr, refl, some, arith, ◌==◌, if◌then◌else◌, load8, Written,
}
use cheeri_os.Screen.Bounds.{InScreen, calls}
use cheeri_os.Screen.Moves.{IsNewline}
use cheeri_os.Keyboard.Scan
use cheeri_os.Keyboard.State.{Slot, Keyboard, on_screen}
use cheeri_os.Keyboard.Tables.{DataSegment}
use cheeri_os.Keyboard.Handler.{keyboard_handler, switch_terminal}
use cheeri_os.Keyboard.Handler.Bounds.{IsKeyboard}
use cheeri_os.Keyboard.Handler.Inside.{keyboard_handler-inside}
use cheeri_os.Keyboard.Handler.Line.{line, shown, append}
use cheeri_os.Keyboard.Handler.Editing.{edit, keyboard_handler-edit}
use cheeri_os.Keyboard.Handler.Layout.{legend, keyboard_handler-layout}
use cheeri_os.Keyboard.Handler.Switch.{Saved, Shows, switch_terminal-back}
use cheeri_os.Keyboard.Terminal.{wait_enter, read_terminal, write_terminal}
use cheeri_os.Keyboard.Terminal.Write.{puts, write_terminal-calls}
use cheeri_os.Keyboard.Terminal.Read.{wait_enter-ends, read_terminal-line}

abbrev zeros : DataSegment
zeros = record { past_scan = λ i. 0; past_chars = λ i. 0 }

-- a line of one byte, b'a'
abbrev slot_one : Slot
slot_one = record {
  buffer = λ a. if a == 0 then b'a' else 0;
  filled = 1;
  saved_x = 0;
  saved_y = 0;
  saved_newline = 0;
}

-- terminal 1 with the shift key down
abbrev one : Keyboard
one = record {
  screen = record { mem = λ a. b'x'; screen_x = 1; screen_y = 0; newlinecheck = 0; outs = [] };
  slot = λ i. slot_one;
  count = 1;
  terminal_check = 1;
  maxflag = 0;
  readflag = 0;
  capslockactive = 0;
  shiftpressed = 1;
  crtlpressed = 0;
  altpressed = 0;
}

-- the same after Enter
abbrev entered : Keyboard
entered = record one { readflag = 1 }

one-InScreen : InScreen one.screen
one-InScreen = omega arith

one-IsKeyboard : IsKeyboard one
one-IsKeyboard = record {
  terminal = refl;
  pointer = refl;
  screen = one-InScreen;
  slots = λ t. omega arith;
}

keyboard_handler-inside_example :
    let k' = keyboard_handler zeros Scan.enter one in
    IsKeyboard k'
    × (Scan.enter ≡ Scan.enter → IsNewline one.screen.mem 0 k'.screen)
    × ((one.crtlpressed ≡ 1) × (Scan.enter ≡ Scan.crtl_check)
        → (k'.screen.screen_x ≡ 0) × (k'.screen.screen_y ≡ 0))
keyboard_handler-inside_example = keyboard_handler-inside zeros Scan.enter one-IsKeyboard

keyboard_handler-edit_example :
    line (keyboard_handler zeros Scan.backspace one) ≡ edit Scan.backspace (line one)
keyboard_handler-edit_example =
    keyboard_handler-edit zeros Scan.backspace one-IsKeyboard (inr (inl refl))

-- the key 2 with shift, which is @
keyboard_handler-layout_example :
    line (keyboard_handler zeros 3 one) ≡ append (legend true 3) (line one)
keyboard_handler-layout_example =
    keyboard_handler-layout zeros 3 one-IsKeyboard (inl (omega arith, omega arith))
      (inl (omega arith)) (omega arith) (omega arith)

-- the page of terminal 2 holds what the screen shows
page-Saved : Saved 2 (record one.screen { screen_x = 0 }) one
page-Saved = record { cells = λ j lt. refl; column = refl; row = refl; wrapped = refl }

switch_terminal-back_example : Shows one.screen (switch_terminal 1 (switch_terminal 3 one)).screen
switch_terminal-back_example = switch_terminal-back 3 one-IsKeyboard (omega arith) refl

write_terminal-calls_example :
    write_terminal 1 0x800000 3 one ≡ (3, on_screen (calls (puts one.screen.mem 3 0x800000 0)) one)
write_terminal-calls_example =
    write_terminal-calls 1 0x800000 3 one one-InScreen (omega arith) (omega arith) (omega arith)

wait_enter-ends_example :
    (k : Keyboard) × (rest : List ℕ) × (wait_enter zeros
        (0x10 ∷ Scan.backspace ∷ Scan.enter ∷ [])
        one
      ≡ some (k, rest))
    × (k.readflag ≡ 1)
    × IsKeyboard k
wait_enter-ends_example = wait_enter-ends zeros (0x10 ∷ Scan.backspace ∷ []) one-IsKeyboard

read_terminal-line_example :
    (k : Keyboard) × (read_terminal zeros [] 0 0x800000 200 entered ≡ some (128, k, []))
    × Written entered.screen.mem 0x800000 128 (load8 (shown entered)) k.screen.mem
    × Written (shown entered) 0 128 (λ j. 0) (shown k)
    × (k.readflag ≡ 0)
read_terminal-line_example =
    read_terminal-line zeros [] 0 0x800000 200 entered refl refl (omega arith) (omega arith)
