-- ===== src/Keyboard/Terminal.antt =====
-- keyboard_init, open_terminal, close_terminal, read_terminal and write_terminal of student-distrib/keyboard.c. The
-- caller's buffer is in the kernel's memory, that of the screen; the line buffers are arrays of their
-- own. The interrupts that arrive while read_terminal waits are a list of scan codes; `none` is a wait that
-- has not ended with the last of them, or a `copysize` that was never assigned.
pub mod Bounds
pub mod Read
pub mod Write
pub mod Shown
use cheeri_os.Common.{
  ℕ, zero, suc, ◌+◌, Bool, ◌||◌, List, [], ◌∷◌, Option, none, some, ◌>>=◌, ◌==◌, ltb, if◌then◌else◌,
  Mem, load8, store8, minus_one, slt,
}
use cheeri_os.Screen.{Screen, putc}
use cheeri_os.Keyboard.State.{Slot, Keyboard, update_slot, on_screen, buffer_limit}
use cheeri_os.Keyboard.Tables.{DataSegment}
use cheeri_os.Ports.{Machine}
use cheeri_os.Pic.{enable_irq}
use cheeri_os.Keyboard.Handler.{is_terminal, keyboard_handler}

abbrev pub keyboard_num : ℕ
keyboard_num = 1

unfoldable pub keyboard_init : {D : Type 0} → Machine D → D → Keyboard → D × Keyboard
keyboard_init hw d k = (enable_irq hw keyboard_num d, record k { count = 1; terminal_check = 1 })

abbrev pub open_terminal : ℕ → ℕ
open_terminal filename = 0

abbrev pub close_terminal : ℕ → ℕ
close_terminal fd = 0

-- `while (readflag != 1) {}`
pub wait_enter : DataSegment → List ℕ → Keyboard → Option (Keyboard × List ℕ)
wait_enter d [] k = if k.readflag == 1 then some (k, []) else none
wait_enter d (scan ∷ scans) k =
    let rest = wait_enter d scans (keyboard_handler d scan k) in
    if k.readflag == 1 then some (k, scan ∷ scans) else rest

-- memcpy(buf, globalbuffer, n), with `n` bytes left from the i-th on
pub copy_line : ℕ → (line : Mem) (buf i : ℕ) → Mem → Mem
copy_line zero line buf i m = m
copy_line (suc n) line buf i m = copy_line n line buf (i + 1) (store8 m (buf + i) (load8 line i))

-- the loop that resets the buffer, with `n` rounds left
pub reset_buffer : ℕ → ℕ → Mem → Mem
reset_buffer zero i b = b
reset_buffer (suc n) i b = reset_buffer n (i + 1) (store8 b i 0)

-- the branch of the terminal that is shown
pub take_line : (buf n : ℕ) → Keyboard → Keyboard
take_line buf n k =
    let v = k.slot k.terminal_check in
    let k' = on_screen (λ s. record s { mem = copy_line n v.buffer buf 0 s.mem }) k in
    update_slot k.terminal_check (record v { buffer = reset_buffer buffer_limit 0 v.buffer }) k'

pub read_terminal :
    DataSegment → List ℕ → (fd buf nbytes : ℕ) → Keyboard → Option (ℕ × Keyboard × List ℕ)
read_terminal d scans fd buf nbytes k0 = do
  (k, rest) ← wait_enter d scans k0
  if buf == 0 || slt nbytes 0
      then some (minus_one, k, rest)
      else if is_terminal k.terminal_check
      then (let copysize = if ltb nbytes buffer_limit then nbytes else buffer_limit in
          some (copysize, record (take_line buf copysize k) { readflag = 0 }, rest))
      else none

-- the loop of write_terminal, with `n` rounds left
unfoldable pub write_loop : ℕ → (buf i : ℕ) → Screen → Screen
write_loop zero buf i s = s
write_loop (suc n) buf i s = write_loop n buf (i + 1) (putc (load8 s.mem (buf + i)) s)

unfoldable pub write_terminal : (fd buf nbytes : ℕ) → Keyboard → ℕ × Keyboard
write_terminal fd buf nbytes k =
    if buf == 0 || slt nbytes 0
    then (minus_one, k)
    else (nbytes, on_screen (write_loop nbytes buf 0) k)
