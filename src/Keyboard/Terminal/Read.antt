-- ===== src/Keyboard/Terminal/Read.antt =====
-- read_terminal waits for Enter and hands out the line.
use cheeri_os.Common.{
  ℕ, zero, suc, ◌+◌, ◌^◌, ◌≤◌, ◌<◌, ◌≡◌, ◌≢◌, ◌⊎◌, refl, ap, arith, min, List, [], ◌∷◌, ◌++◌, some,
  Mem, load8, ne→==, true, false, slt, ltb, word, minus_one, ◌||◌, if◌then◌else◌, Written,
  Written-zero, Written-store8, Written-store8_at, inl, inr, Bool-cases, ◌==◌,
}
use cheeri_os.Keyboard.Scan
use cheeri_os.Keyboard.State.{Keyboard, buffer_limit}
use cheeri_os.Keyboard.Tables.{DataSegment}
use cheeri_os.Keyboard.Handler.{keyboard_handler, is_terminal}
use cheeri_os.Keyboard.Handler.Bounds.{IsKeyboard, keyboard_handler-IsKeyboard}
use cheeri_os.Keyboard.Handler.Line.{shown}
use cheeri_os.Keyboard.Handler.Editing.{keyboard_handler-enter}
use cheeri_os.Keyboard.Terminal.{wait_enter, copy_line, reset_buffer, take_line, read_terminal}

copy_line-Written :
    {m0 : Mem} (b : Mem) (buf n k i : ℕ) {m : Mem}
    → i + k ≡ n
    → Written m0 buf i (load8 b) m
    → Written m0 buf n (load8 b) (copy_line k b buf i m)
unfolding copy_line
copy_line-Written b buf n zero i e w = let e' : i ≡ n = omega arith in rw (← e') w
copy_line-Written b buf n (suc k) i e w =
    copy_line-Written b buf n k (i + 1) (omega arith) (Written-store8 (load8 b i) w (omega arith))

reset_buffer-Written :
    {b0 : Mem} (n k i : ℕ) {b : Mem}
    → i + k ≡ n
    → Written b0 0 i (λ j. 0) b
    → Written b0 0 n (λ j. 0) (reset_buffer k i b)
unfolding reset_buffer
reset_buffer-Written n zero i e w = let e' : i ≡ n = omega arith in rw (← e') w
reset_buffer-Written n (suc k) i e w =
    reset_buffer-Written n k (i + 1) (omega arith)
      (Written-store8_at i 0 (i + 1) w (omega arith) refl refl)

-- Whatever keys are pressed before it, an Enter ends the wait of read_terminal.
pub wait_enter-ends :
    (d : DataSegment) (scans : List ℕ) {k : Keyboard}
    → IsKeyboard k
    → (k' : Keyboard) × (rest : List ℕ) × (wait_enter d (scans ++ Scan.enter ∷ []) k
        ≡ some (k', rest))
      × (k'.readflag ≡ 1)
      × IsKeyboard k'
unfolding wait_enter
wait_enter-ends d [] {k} v = elim (Bool-cases (k.readflag == 1)) [
  | inl e ↦ (k, Scan.enter ∷ [], rw e, ground arith, v)
  | inr e ↦
      let flag = (keyboard_handler-enter d v).0 in
      (
        keyboard_handler d Scan.enter k,
        [],
        rw (e, flag),
        flag,
        keyboard_handler-IsKeyboard d Scan.enter v,
      )
]
wait_enter-ends d (scan ∷ scans) {k} v = elim (Bool-cases (k.readflag == 1)) [
  | inl e ↦ (k, scan ∷ scans ++ Scan.enter ∷ [], rw e, ground arith, v)
  | inr e ↦
      let (k', rest, runs, flag, v') =
        wait_enter-ends d scans (keyboard_handler-IsKeyboard d scan v) in
      (k', rest, rw e runs, flag, v')
]

wait_enter-entered :
    (d : DataSegment) (scans : List ℕ) (k : Keyboard)
    → k.readflag ≡ 1
    → wait_enter d scans k ≡ some (k, scans)
unfolding wait_enter
wait_enter-entered d [] k e = rw e
wait_enter-entered d (scan ∷ scans) k e = rw e

take_line-memory :
    (buf n : ℕ) (k : Keyboard)
    → Written k.screen.mem buf n (load8 (shown k)) (take_line buf n k).screen.mem
unfolding take_line
take_line-memory buf n k =
    copy_line-Written (shown k) buf n n 0 (omega arith)
      (Written-zero k.screen.mem buf (load8 (shown k)))

take_line-buffer :
    (buf n : ℕ) (k : Keyboard)
    → Written (shown k) 0 buffer_limit (λ j. 0) (shown (take_line buf n k))
unfolding take_line
take_line-buffer buf n k =
    let reset : shown (take_line buf n k) ≡ reset_buffer buffer_limit 0 (shown k) = ground arith in
    rw reset (
      reset_buffer-Written buffer_limit buffer_limit 0 (omega arith)
        (Written-zero (shown k) 0 (λ j. 0)))

-- After Enter, read_terminal returns min(nbytes, 128), whatever the length of the line; it copies that many
-- bytes of the line buffer to the caller's, writes no other byte of the memory, zeroes the 128 bytes of
-- the line buffer and clears readflag.
pub read_terminal-line :
    (d : DataSegment) (scans : List ℕ) (fd buf nbytes : ℕ) (k : Keyboard)
    → k.readflag ≡ 1
    → is_terminal k.terminal_check ≡ true
    → buf ≢ 0
    → nbytes < 2 ^ 31
    → (k' : Keyboard) × (read_terminal d scans fd buf nbytes k
        ≡ some (min nbytes buffer_limit, k', scans))
      × Written k.screen.mem buf (min nbytes buffer_limit) (load8 (shown k)) k'.screen.mem
      × Written (shown k) 0 buffer_limit (λ j. 0) (shown k')
      × (k'.readflag ≡ 0)
unfolding read_terminal
read_terminal-line d scans fd buf nbytes k flag terminal real small =
    let n = min nbytes buffer_limit in
    let nonnegative : slt nbytes 0 ≡ false = ground arith in
    let copysize : (if ltb nbytes buffer_limit then nbytes else buffer_limit) ≡ n = ground arith in
    (
      record (take_line buf n k) { readflag = 0 },
      rw (wait_enter-entered d scans k flag, ne→== buf 0 real, nonnegative, terminal)
          (ap (λ c. some (c, record (take_line buf c k) { readflag = 0 }, scans)) copysize),
      take_line-memory buf n k,
      take_line-buffer buf n k,
      refl,
    )

-- After Enter, a NULL buffer or a negative nbytes makes read_terminal return -1 and leave the line as it is.
pub read_terminal-refused :
    (d : DataSegment) (scans : List ℕ) (fd buf nbytes : ℕ) (k : Keyboard)
    → k.readflag ≡ 1
    → (buf ≡ 0) ⊎ (2 ^ 31 ≤ nbytes) × (nbytes < word)
    → read_terminal d scans fd buf nbytes k ≡ some (minus_one, k, scans)
unfolding read_terminal
read_terminal-refused d scans fd buf nbytes k flag bad =
    let test : (buf == 0 || slt nbytes 0) ≡ true = ground arith in
    rw (wait_enter-entered d scans k flag, test)
