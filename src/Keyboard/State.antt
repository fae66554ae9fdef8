-- ===== src/Keyboard/State.antt =====
-- The globals of keyboard.c, and the constants of keyboard.h that the handler uses.
use cheeri_os.Common.{ℕ, ◌==◌, if◌then◌else◌, Mem}
use cheeri_os.Screen.{Screen}

abbrev pub buffer_limit : ℕ
buffer_limit = 128

abbrev pub write_limit : ℕ
write_limit = 127

-- What belongs to one of the three terminals: its line buffer and counter, and the cursor that was saved
-- when another terminal came to the screen (screen_x1, screen_y1, newlinecheck1 and so on).
pub record Slot : Type 0 where
  pub buffer : Mem
  pub filled : ℕ
  pub saved_x : ℕ
  pub saved_y : ℕ
  pub saved_newline : ℕ

pub record Keyboard : Type 0 where
  pub screen : Screen
  pub slot : ℕ → Slot
  pub count : ℕ
  pub terminal_check : ℕ
  pub maxflag : ℕ
  pub readflag : ℕ
  pub capslockactive : ℕ
  pub shiftpressed : ℕ
  pub crtlpressed : ℕ
  pub altpressed : ℕ

abbrev pub update_slot : ℕ → Slot → Keyboard → Keyboard
update_slot t v k = record k { slot = λ i. if i == t then v else k.slot i }

-- *count
abbrev pub count_value : Keyboard → ℕ
count_value k = (k.slot k.count).filled

-- *count = n
abbrev pub set_count : ℕ → Keyboard → Keyboard
set_count n k = update_slot k.count (record (k.slot k.count) { filled = n }) k

abbrev pub on_screen : (Screen → Screen) → Keyboard → Keyboard
on_screen f k = record k { screen = f k.screen }

abbrev pub get_cur_terminal : Keyboard → ℕ
get_cur_terminal k = k.terminal_check
