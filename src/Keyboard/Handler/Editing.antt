-- ===== src/Keyboard/Handler/Editing.antt =====
-- The line under keyboard_handler: the editing keys and the keys of the table.
use native.Mathlib.Decide.{ℕ_discrete}
use cheeri_os.Common.{
  ℕ, zero, suc, ◌+◌, ◌≤◌, ◌<◌, ◌≡◌, ◌≢◌, ◌⊎◌, ◌∙◌, List, [], ◌∷◌, inl, inr, refl, sym, ap, arith,
  ◌==◌, if◌then◌else◌, true, ==_iff, ne→==,
}
use cheeri_os.Keyboard.Scan
use cheeri_os.Keyboard.State.{Keyboard, count_value}
use cheeri_os.Keyboard.Tables.{DataSegment, scan_at, num_chars}
use cheeri_os.Keyboard.Handler.{
  press_enter, press_backspace, type_char, modifiers, entry_char, search_scan, keyboard_handler,
}
use cheeri_os.Keyboard.Handler.Bounds.{
  IsKeyboard, modifiers-IsKeyboard, start-IsKeyboard, modifiers-IsKeyboard, start-IsKeyboard,
}
use cheeri_os.Keyboard.Handler.Line.{
  typed, shown, line, drop_last, append, start, press_enter-line, press_backspace-line,
  type_key-line,
}

-- What one of the four editing keys does to the line.
pub edit : ℕ → List ℕ → List ℕ
edit scan xs =
    if scan == Scan.enter
    then []
    else if scan == Scan.backspace
    then drop_last xs
    else append b' ' xs

-- the editing keys
abbrev pub IsEditing : ℕ → Type 0
IsEditing scan =
    (scan ≡ Scan.enter) ⊎ (scan ≡ Scan.backspace) ⊎ (scan ≡ Scan.tab) ⊎ (scan ≡ Scan.space)

pub handler-enter :
    (d : DataSegment) (k : Keyboard) → keyboard_handler d Scan.enter k ≡ press_enter (start k)
unfolding keyboard_handler
handler-enter d k = ground arith

handler-backspace :
    (d : DataSegment) (k : Keyboard)
    → keyboard_handler d Scan.backspace k ≡ press_backspace (start k)
unfolding keyboard_handler
handler-backspace d k = ground arith

handler-space :
    (d : DataSegment) (k : Keyboard) (scan : ℕ)
    → (scan ≡ Scan.tab) ⊎ (scan ≡ Scan.space)
    → keyboard_handler d scan k ≡ type_char b' ' (start k)
unfolding keyboard_handler
handler-space d k scan e = ground arith

-- Enter empties the line, backspace takes its newest byte, and tab and space add a space while the line
-- has fewer than 127 bytes, whatever the other keys' state.
pub keyboard_handler-edit :
    (d : DataSegment) (scan : ℕ) {k : Keyboard}
    → IsKeyboard k
    → IsEditing scan
    → line (keyboard_handler d scan k) ≡ edit scan (line k)
unfolding edit
keyboard_handler-edit d scan {k} v key = elim key [
  | inl e ↦ rw (e, handler-enter d k) (press_enter-line (start-IsKeyboard v)).0
  | inr (inl e) ↦ rw (e, handler-backspace d k) (press_backspace-line (start-IsKeyboard v))
  | inr (inr e) ↦
      let editing : edit scan (line k) ≡ append b' ' (line k) = ground arith in
      rw (handler-space d k scan e, editing) (type_key-line b' ' v)
]

handler-types :
    (d : DataSegment) (k : Keyboard) (scan n i t : ℕ)
    → i ≤ t
    → t < i + n
    → scan_at d t ≡ scan
    → ((j : ℕ) → i ≤ j → j < t → scan_at d j ≢ scan)
    → search_scan d n scan i k ≡ type_char (entry_char d t k) k
unfolding search_scan
handler-types d k scan zero i t le lt e first = absurd (omega arith)
handler-types d k scan (suc n) i t le lt e first = elim (ℕ_discrete i t) [
  | yes here ↦
      let hit : (scan == scan_at d i) ≡ true =
        (==_iff scan _).1 (sym e ∙ ap (scan_at d) (sym here)) in
      rw (search_scan, hit) (ap (λ j. type_char (entry_char d j k) k) here)
  | no later ↦
      rw (search_scan, ne→== scan (scan_at d i) (λ h. first i (omega arith) (omega arith) (sym h)))
        (handler-types d k scan n (i + 1) t (omega arith) (omega arith) e
          (λ j a b. first j (omega arith) b))
]

-- Enter sets readflag, and leaves a newline in the buffer behind the bytes of the line.
pub keyboard_handler-enter :
    (d : DataSegment) {k : Keyboard}
    → IsKeyboard k
    → let k' = keyboard_handler d Scan.enter k in
      (k'.readflag ≡ 1) × (typed (shown k') (count_value k + 1) ≡ b'\n' ∷ line k)
keyboard_handler-enter d {k} v =
    let entered = press_enter-line (start-IsKeyboard v) in
    rw (handler-enter d k) (entered.1, entered.2)

-- no key of its own, and no key that goes with control or alt now
pub record IsPlain (k : Keyboard) (scan : ℕ) : Type 0 where
  pub clearing : (k.crtlpressed ≢ 1) ⊎ (scan ≢ Scan.crtl_check)
  pub switching : (k.altpressed ≢ 1) ⊎ (scan < Scan.f1) ⊎ (Scan.f1 + 2 < scan)
  pub enter : scan ≢ Scan.enter
  pub backspace : scan ≢ Scan.backspace
  pub tab : scan ≢ Scan.tab
  pub space : scan ≢ Scan.space

handler-plain :
    (d : DataSegment) (k : Keyboard) (scan : ℕ)
    → IsPlain k scan
    → keyboard_handler d scan k ≡ search_scan d num_chars scan 0 (modifiers scan (start k))
unfolding keyboard_handler
handler-plain d k scan plain = ground arith

modifiers-start : (scan : ℕ) (k : Keyboard) → modifiers scan (start k) ≡ start (modifiers scan k)
unfolding modifiers
modifiers-start scan k = refl

modifiers-line : (scan : ℕ) (k : Keyboard) → line (modifiers scan k) ≡ line k
unfolding modifiers
modifiers-line scan k = refl

entry_char-start :
    (d : DataSegment) (t : ℕ) (k : Keyboard) → entry_char d t (start k) ≡ entry_char d t k
unfolding entry_char
entry_char-start d t k = refl

-- A scan code of the table, at its first place t, adds the byte of entry_char to the line.
pub keyboard_handler-character :
    (d : DataSegment) (scan t : ℕ) {k : Keyboard}
    → IsKeyboard k
    → IsPlain k scan
    → t < num_chars
    → scan_at d t ≡ scan
    → ((j : ℕ) → j < t → scan_at d j ≢ scan)
    → line (keyboard_handler d scan k) ≡ append (entry_char d t (modifiers scan k)) (line k)
keyboard_handler-character d scan t {k} v plain lt e first =
    rw
      (
        handler-plain d k scan plain,
        modifiers-start scan k,
        handler-types d (start (modifiers scan k)) scan num_chars 0 t (omega arith) (omega arith) e
            (λ j a b. first j b),
        entry_char-start d t (modifiers scan k),
        ← modifiers-line scan k,
      )
      (type_key-line (entry_char d t (modifiers scan k)) (modifiers-IsKeyboard v scan))
