-- ===== src/Keyboard/Handler/Bounds.antt =====
-- Whatever scan codes arrive, the line buffers are not overrun and the cursors stay in their bounds.
use cheeri_os.Common.{
  ℕ, zero, suc, ◌+◌, ◌≤◌, ◌<◌, Bool, ◌≡◌, ◌⊎◌, inl, inr, refl, arith, ◌==◌, if◌then◌else◌, ◌||◌,
  ◌&&◌, not, true, false, Bool-cases, add32, sub32,
}
use cheeri_os.Screen.{
  Screen, num_cols, num_rows, putc, clearscreen, movingcursor, newline_keyboard, backspace_keyboard,
}
use cheeri_os.Screen.Bounds.{
  InScreen, Keeps, putc-Keeps, newline-Keeps, backspace-Keeps, clearscreen-Keeps,
}
use cheeri_os.Keyboard.State.{
  Slot, Keyboard, update_slot, count_value, set_count, on_screen, write_limit,
}
use cheeri_os.Keyboard.Tables.{DataSegment, scan_at, num_chars}
use cheeri_os.Keyboard.Handler.{
  acknowledge, set_maxflag, save_page, save_cursor, show_terminal, switch_terminal, is_terminal,
  put_buffer, press_enter, press_backspace, type_char, modifiers, entry_char, search_scan,
  keyboard_handler,
}

-- A slot whose counter is inside its buffer, and whose saved cursor is one of a screen.
pub record IsSlot (v : Slot) : Type 0 where
  pub count : v.filled ≤ write_limit
  pub column : v.saved_x ≤ num_cols
  pub row : v.saved_y ≤ num_rows
  pub wrapped : (v.saved_newline ≡ 0) ⊎ (v.saved_newline ≡ 1) × (1 ≤ v.saved_y)
  pub full : (v.saved_x < num_cols) ⊎ (1 ≤ v.saved_y)

pub record IsKeyboard (k : Keyboard) : Type 0 where
  pub terminal : is_terminal k.terminal_check ≡ true
  pub pointer : k.count ≡ k.terminal_check
  pub screen : InScreen k.screen
  pub slots : (t : ℕ) → IsSlot (k.slot t)

module _ {k : Keyboard} (v : IsKeyboard k) where
  pub on_screen-IsKeyboard :
      (f : Screen → Screen) → InScreen (f k.screen) → IsKeyboard (on_screen f k)
  on_screen-IsKeyboard f i = record {
    terminal = v.terminal;
    pointer = v.pointer;
    screen = i;
    slots = v.slots;
  }

  pub update_slot-IsKeyboard : (t : ℕ) {w : Slot} → IsSlot w → IsKeyboard (update_slot t w k)
  update_slot-IsKeyboard t {w} i = record {
    terminal = v.terminal;
    pointer = v.pointer;
    screen = v.screen;
    slots = λ j. elim (Bool-cases (j == t)) [ inl e ↦ rw e i | inr e ↦ rw e (v.slots j) ];
  }

  pub start-IsKeyboard : IsKeyboard (set_maxflag (acknowledge k))
  start-IsKeyboard = record {
    terminal = v.terminal;
    pointer = v.pointer;
    screen = ground (arith, v.screen);
    slots = v.slots;
  }

  save_cursor-IsKeyboard : (t : ℕ) → IsKeyboard (save_cursor t k)
  unfolding save_cursor
  save_cursor-IsKeyboard t =
      let old = k.terminal_check in
      elim (Bool-cases ((old == 1 || old == 2 || old == 3) && not (old == t))) [
        | inl e ↦ rw e (update_slot-IsKeyboard old (ground (arith, v.slots old, v.screen)))
        | inr e ↦ rw e v
      ]

  save_page-IsKeyboard : IsKeyboard (save_page k)
  unfolding save_page
  save_page-IsKeyboard = record {
    terminal = v.terminal;
    pointer = v.pointer;
    screen = ground (arith, v.screen);
    slots = v.slots;
  }

  show_terminal-IsKeyboard : (t : ℕ) → is_terminal t ≡ true → IsKeyboard (show_terminal t k)
  unfolding show_terminal movingcursor
  show_terminal-IsKeyboard t e = record {
    terminal = e;
    pointer = refl;
    screen = ground (arith, v.slots t);
    slots = v.slots;
  }

  pub put_buffer-IsKeyboard : (c : ℕ) → IsKeyboard (put_buffer c k)
  unfolding put_buffer
  put_buffer-IsKeyboard c =
      update_slot-IsKeyboard k.terminal_check (ground (arith, v.slots k.terminal_check))

  set_count-IsKeyboard : (n : ℕ) → n ≤ write_limit → IsKeyboard (set_count n k)
  set_count-IsKeyboard n le = update_slot-IsKeyboard k.count (ground (arith, v.slots k.count))

  pub readflag-IsKeyboard : (n : ℕ) → IsKeyboard (record k { readflag = n })
  readflag-IsKeyboard n = record {
    terminal = v.terminal;
    pointer = v.pointer;
    screen = v.screen;
    slots = v.slots;
  }

  pub modifiers-IsKeyboard : (scan : ℕ) → IsKeyboard (modifiers scan k)
  unfolding modifiers
  modifiers-IsKeyboard scan = record {
    terminal = v.terminal;
    pointer = v.pointer;
    screen = v.screen;
    slots = v.slots;
  }

pub switch_terminal-IsKeyboard :
    (t : ℕ) {k : Keyboard} → is_terminal t ≡ true → IsKeyboard k → IsKeyboard (switch_terminal t k)
unfolding switch_terminal
switch_terminal-IsKeyboard t {k} e v = elim (Bool-cases (k.terminal_check == t)) [
  | inl same ↦ rw same v
  | inr other ↦
      rw other (show_terminal-IsKeyboard (save_cursor-IsKeyboard (save_page-IsKeyboard v) t) t e)
]

screen_op-IsKeyboard :
    {k : Keyboard} (f : Screen → Screen)
    → ((s : Screen) → InScreen s → Keeps s (f s))
    → IsKeyboard k
    → IsKeyboard (on_screen f k)
screen_op-IsKeyboard f keeps v = on_screen-IsKeyboard v f (keeps _ v.screen).inside

press_enter-IsKeyboard : {k : Keyboard} → IsKeyboard k → IsKeyboard (press_enter k)
unfolding press_enter
press_enter-IsKeyboard {k} v = rw v.terminal (
    set_count-IsKeyboard
      (screen_op-IsKeyboard newline_keyboard (λ s i. newline-Keeps i)
        (readflag-IsKeyboard (put_buffer-IsKeyboard v b'\n') 1))
      0 (omega arith))

press_backspace-IsKeyboard : {k : Keyboard} → IsKeyboard k → IsKeyboard (press_backspace k)
unfolding press_backspace
press_backspace-IsKeyboard {k} v = elim (Bool-cases (count_value k == 0)) [
  | inl e ↦ rw e v
  | inr e ↦
      let w = set_count-IsKeyboard v (sub32 (count_value k) 1) (ground (arith, v.slots k.count)) in
      rw (e, v.terminal)
        (screen_op-IsKeyboard backspace_keyboard (λ s i. backspace-Keeps i)
          (put_buffer-IsKeyboard w 0))
]

pub put_buffer-count : (c : ℕ) (k : Keyboard) → count_value (put_buffer c k) ≡ count_value k
unfolding put_buffer
put_buffer-count c k = ground arith

-- there is room for a character, or maxflag says that there is none
abbrev HasRoom : Keyboard → Type 0
HasRoom k = (k.maxflag ≡ 1) ⊎ (count_value k < write_limit)

type_char-IsKeyboard :
    (c : ℕ) {k : Keyboard} → HasRoom k → IsKeyboard k → IsKeyboard (type_char c k)
unfolding type_char
type_char-IsKeyboard c {k} room v = elim (Bool-cases (not (k.maxflag == 1))) [
  | inl e ↦
      let w = put_buffer-IsKeyboard v c in
      rw (e, v.terminal)
        (screen_op-IsKeyboard (putc c) (λ s i. putc-Keeps c i)
          (set_count-IsKeyboard w (add32 (count_value (put_buffer c k)) 1)
            (ground (arith, put_buffer-count c k))))
  | inr e ↦ rw e v
]

search_scan-IsKeyboard :
    (d : DataSegment) (n scan i : ℕ) {k : Keyboard}
    → HasRoom k
    → IsKeyboard k
    → IsKeyboard (search_scan d n scan i k)
unfolding search_scan
search_scan-IsKeyboard d zero scan i room v = v
search_scan-IsKeyboard d (suc n) scan i {k} room v = elim (Bool-cases (scan == scan_at d i)) [
  | inl e ↦ rw (search_scan, e) (type_char-IsKeyboard (entry_char d i k) room v)
  | inr e ↦ rw (search_scan, e) (search_scan-IsKeyboard d n scan (i + 1) room v)
]

start-HasRoom : {k : Keyboard} → IsKeyboard k → HasRoom (set_maxflag (acknowledge k))
start-HasRoom {k} v = ground (arith, v.slots k.count)

modifiers-HasRoom : (scan : ℕ) (k : Keyboard) → HasRoom k → HasRoom (modifiers scan k)
unfolding modifiers
modifiers-HasRoom scan k room = room

either-IsKeyboard :
    (b : Bool) {k k' : Keyboard} → IsKeyboard k → IsKeyboard k' → IsKeyboard (if b then k else k')
either-IsKeyboard true v w = v
either-IsKeyboard false v w = w

-- Whatever scan code arrives, and whatever stands behind the two tables, keyboard_handler keeps the three
-- line counters at most 127 and the cursor, and every saved cursor, in the bounds of InScreen, and count points to the
-- counter of the terminal that is shown.
pub keyboard_handler-IsKeyboard :
    (d : DataSegment) (scan : ℕ) {k : Keyboard}
    → IsKeyboard k
    → IsKeyboard (keyboard_handler d scan k)
unfolding keyboard_handler
keyboard_handler-IsKeyboard d scan {k} v0 =
    let v = start-IsKeyboard v0 in
    let room = start-HasRoom v0 in
    either-IsKeyboard _ (screen_op-IsKeyboard clearscreen (λ s i. clearscreen-Keeps s) v) (
      either-IsKeyboard _ (switch_terminal-IsKeyboard 1 refl v) (
        either-IsKeyboard _ (switch_terminal-IsKeyboard 2 refl v) (
          either-IsKeyboard _ (switch_terminal-IsKeyboard 3 refl v) (
            either-IsKeyboard _ (press_enter-IsKeyboard v) (
              either-IsKeyboard _ (press_backspace-IsKeyboard v) (
                either-IsKeyboard _ (type_char-IsKeyboard b' ' room v) (
                  search_scan-IsKeyboard d num_chars scan 0
                    (modifiers-HasRoom scan (set_maxflag (acknowledge k)) room)
                    (modifiers-IsKeyboard v scan))))))))
