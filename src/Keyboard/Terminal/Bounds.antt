-- ===== src/Keyboard/Terminal/Bounds.antt =====
-- Reading and writing a terminal keep the keyboard's invariant.
use cheeri_os.Common.{
  ℕ, zero, suc, ◌+◌, inl, inr, arith, List, [], ◌∷◌, ◌==◌, ◌||◌, Bool-cases, Each, Each-bind,
  Each-if, slt, load8,
}
use cheeri_os.Screen.{Screen}
use cheeri_os.Screen.Bounds.{InScreen, putc-Keeps}
use cheeri_os.Keyboard.State.{Keyboard}
use cheeri_os.Keyboard.Tables.{DataSegment}
use cheeri_os.Keyboard.Handler.{is_terminal}
use cheeri_os.Keyboard.Handler.Bounds.{
  IsKeyboard, keyboard_handler-IsKeyboard, update_slot-IsKeyboard, on_screen-IsKeyboard,
  readflag-IsKeyboard,
}
use cheeri_os.Keyboard.Terminal.{
  wait_enter, copy_line, take_line, read_terminal, write_loop, write_terminal,
}

wait_enter-IsKeyboard :
    (d : DataSegment) (scans : List ℕ) {k : Keyboard}
    → IsKeyboard k
    → Each (λ x. IsKeyboard x.0) (wait_enter d scans k)
unfolding wait_enter
wait_enter-IsKeyboard d [] {k} v = elim (Bool-cases (k.readflag == 1)) [
  | inl e ↦ rw e v
  | inr e ↦ rw e tt
]
wait_enter-IsKeyboard d (scan ∷ scans) {k} v = elim (Bool-cases (k.readflag == 1)) [
  | inl e ↦ rw e v
  | inr e ↦ rw e (wait_enter-IsKeyboard d scans (keyboard_handler-IsKeyboard d scan v))
]

take_line-IsKeyboard :
    (buf n : ℕ) {k : Keyboard}
    → IsKeyboard k
    → IsKeyboard (record (take_line buf n k) { readflag = 0 })
unfolding take_line
take_line-IsKeyboard buf n {k} v =
    readflag-IsKeyboard
      (update_slot-IsKeyboard
        (on_screen-IsKeyboard v
          (λ s. record s { mem = copy_line n (k.slot k.terminal_check).buffer buf 0 s.mem })
          (ground (arith, v.screen)))
        k.terminal_check (ground (arith, v.slots k.terminal_check)))
      0

write_loop-InScreen : (n buf i : ℕ) {s : Screen} → InScreen s → InScreen (write_loop n buf i s)
unfolding write_loop
write_loop-InScreen zero buf i v = v
write_loop-InScreen (suc n) buf i {s} v =
    write_loop-InScreen n buf (i + 1) (putc-Keeps (load8 s.mem (buf + i)) v).inside

-- read_terminal, if it returns, and write_terminal keep the keyboard's invariant.
pub read_terminal-IsKeyboard :
    (d : DataSegment) (scans : List ℕ) (fd buf nbytes : ℕ) {k : Keyboard}
    → IsKeyboard k
    → Each (λ x. IsKeyboard x.1) (read_terminal d scans fd buf nbytes k)
unfolding read_terminal
read_terminal-IsKeyboard d scans fd buf nbytes {k} v =
    Each-bind (λ x. IsKeyboard x.1) (λ x. IsKeyboard x.0) (wait_enter d scans k) _
      (wait_enter-IsKeyboard d scans v)
      (λ (k', rest) v'.
        Each-if _ (buf == 0 || slt nbytes 0) _ _ v'
          (Each-if _ (is_terminal k'.terminal_check) _ _ (take_line-IsKeyboard buf _ v') tt))

pub write_terminal-IsKeyboard :
    (fd buf nbytes : ℕ) {k : Keyboard}
    → IsKeyboard k
    → IsKeyboard (write_terminal fd buf nbytes k).1
unfolding write_terminal
write_terminal-IsKeyboard fd buf nbytes {k} v = elim (Bool-cases (buf == 0 || slt nbytes 0)) [
  | inl e ↦ rw e v
  | inr e ↦
      rw e (
        on_screen-IsKeyboard v (write_loop nbytes buf 0)
          (write_loop-InScreen nbytes buf 0 v.screen))
]
