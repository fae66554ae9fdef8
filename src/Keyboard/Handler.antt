-- ===== src/Keyboard/Handler.antt =====
-- keyboard_handler of student-distrib/keyboard.c. The scan code is the byte that inb returned; each
-- `if` with a return is one test of the chain.
pub mod Bounds
pub mod Line
pub mod Editing
pub mod Layout
pub mod Inside
pub mod Switch
use cheeri_os.Common.{
  ℕ, zero, suc, ◌+◌, ◌*◌, ◌-◌, Bool, true, false, not, ◌&&◌, ◌||◌, ◌==◌, leb, ltb, if◌then◌else◌,
  Mem, store8, add32, sub32, slt,
}
use cheeri_os.Screen.{
  Screen, video, num_cols, outb, putc, clearscreen, movingcursor, location, newline_keyboard,
  backspace_keyboard,
}
use cheeri_os.MemCopy.{memcpy}
use cheeri_os.Keyboard.Scan
use cheeri_os.Keyboard.State.{
  Slot, Keyboard, update_slot, count_value, set_count, on_screen, write_limit,
}
use cheeri_os.Keyboard.Tables.{DataSegment, scan_at, char_at, uppercase_offset, num_chars}

-- send_eoi(KEYBOARD_NUM): 0x60 | 1 to the master's port
abbrev pub acknowledge : Keyboard → Keyboard
acknowledge = on_screen (outb 0x61 0x20)

abbrev pub set_maxflag : Keyboard → Keyboard
set_maxflag k = record k { maxflag = if not (slt (count_value k) write_limit) then 1 else 0 }

-- (VIDIDX + terminal) * KBPAGE
abbrev pub page : ℕ → ℕ
page t = (184 + t) * 0x1000

abbrev pub copy_size : ℕ
copy_size = 4000

-- the cursor of the terminal that leaves the screen; `t` is the one that comes
unfoldable pub save_cursor : ℕ → Keyboard → Keyboard
save_cursor t k =
    let old = k.terminal_check in
    if (old == 1 || old == 2 || old == 3) && not (old == t)
    then update_slot old
        (record (k.slot old) {
          saved_x = k.screen.screen_x;
          saved_y = k.screen.screen_y;
          saved_newline = k.screen.newlinecheck;
        })
        k
    else k

unfoldable pub save_page : Keyboard → Keyboard
save_page k =
    on_screen (λ s. record s { mem = memcpy copy_size (page k.terminal_check) video s.mem }) k

unfoldable pub show_terminal : ℕ → Keyboard → Keyboard
show_terminal t k = record k {
  count = t;
  terminal_check = t;
  screen =
      (let s = record k.screen {
        mem = memcpy copy_size video (page t) k.screen.mem;
        screen_x = (k.slot t).saved_x;
        screen_y = (k.slot t).saved_y;
        newlinecheck = (k.slot t).saved_newline;
      } in
        movingcursor (location s) s);
}

-- alt with F1, F2 or F3
pub switch_terminal : ℕ → Keyboard → Keyboard
switch_terminal t k =
    if k.terminal_check == t then k else show_terminal t (save_cursor t (save_page k))

-- `switch (terminalCheck)`: the write to the buffer of terminal 1, 2 or 3
abbrev pub is_terminal : ℕ → Bool
is_terminal t = t == 1 || t == 2 || t == 3

unfoldable pub put_buffer : ℕ → Keyboard → Keyboard
put_buffer c k =
    let t = k.terminal_check in
    update_slot t (record (k.slot t) { buffer = store8 (k.slot t).buffer (count_value k) c }) k

pub press_enter : Keyboard → Keyboard
press_enter k =
    if is_terminal k.terminal_check
    then set_count 0 (on_screen newline_keyboard (record (put_buffer b'\n' k) { readflag = 1 }))
    else k

pub press_backspace : Keyboard → Keyboard
press_backspace k =
    if count_value k == 0
    then k
    else (let k' = set_count (sub32 (count_value k) 1) k in
        if is_terminal k'.terminal_check
        then on_screen backspace_keyboard (put_buffer 0 k')
        else k')

-- a character, if there is room for it
pub type_char : ℕ → Keyboard → Keyboard
type_char c k =
    if not (k.maxflag == 1)
    then (if is_terminal k.terminal_check
        then on_screen (putc c) (let k' = put_buffer c k in set_count (add32 (count_value k') 1) k')
        else k)
    else k

-- the tests from CAPSLOCK to ALTDEPRESSED, which do not return
pub modifiers : ℕ → Keyboard → Keyboard
modifiers scan k = record k {
  capslockactive = if scan == Scan.capslock then sub32 1 k.capslockactive else k.capslockactive;
  shiftpressed =
      if scan == Scan.lshift_up || scan == Scan.rshift_up
      then 0
      else if scan == Scan.lshift || scan == Scan.rshift
      then 1
      else k.shiftpressed;
  crtlpressed = if scan == Scan.crtl_up then 0 else if scan == Scan.crtl then 1 else k.crtlpressed;
  altpressed = if scan == Scan.alt_up then 0 else if scan == Scan.alt then 1 else k.altpressed;
}

-- the character that entry `i` of the tables stands for
pub entry_char : DataSegment → ℕ → Keyboard → ℕ
entry_char d i k =
    if k.capslockactive == 0 && ltb i uppercase_offset && k.shiftpressed == 0
      || k.capslockactive == 1 && k.shiftpressed == 1
    then char_at d i
    else char_at d (i + uppercase_offset)

-- `for (i = 0; i < NUM_CHARS; i++)`, with `n` rounds left
pub search_scan : DataSegment → ℕ → (scan i : ℕ) → Keyboard → Keyboard
search_scan d zero scan i k = k
search_scan d (suc n) scan i k = elim (scan == scan_at d i) [
  | true ↦ type_char (entry_char d i k) k
  | false ↦ search_scan d n scan (i + 1) k
]

pub keyboard_handler : DataSegment → ℕ → Keyboard → Keyboard
keyboard_handler d scan k0 =
    let k = set_maxflag (acknowledge k0) in
    if k.crtlpressed == 1 && scan == Scan.crtl_check
    then on_screen clearscreen k
    else if k.altpressed == 1 && scan == Scan.f1
    then switch_terminal 1 k
    else if k.altpressed == 1 && scan == Scan.f1 + 1
    then switch_terminal 2 k
    else if k.altpressed == 1 && scan == Scan.f1 + 2
    then switch_terminal 3 k
    else if scan == Scan.enter
    then press_enter k
    else if scan == Scan.backspace
    then press_backspace k
    else if scan == Scan.tab || scan == Scan.space
    then type_char b' ' k
    else search_scan d num_chars scan 0 (modifiers scan k)
