-- ===== src/Keyboard/Handler/Layout.antt =====
-- The characters that keyboard_handler types, against the layout of a US keyboard.
use native.Mathlib.Decide.{ℕ_discrete}
use cheeri_os.Common.{
  ℕ, ◌+◌, ◌-◌, ◌≤◌, ◌<◌, ◌≡◌, ◌≢◌, ◌⊎◌, ◌∙◌, inl, inr, refl, sym, ap, arith, Bool, true, false, not,
  ◌&&◌, ◌||◌, ◌==◌, ltb, leb, ==_iff, ne→==, if◌then◌else◌, List, [], ◌∷◌, every_below,
  every_below_lem,
}
use cheeri_os.Keyboard.Scan
use cheeri_os.Keyboard.State.{Keyboard}
use cheeri_os.Keyboard.Tables.{
  DataSegment, scan_at, char_at, nth, normal_chars, scan_pressed_normal, num_scan, num_chars,
}
use cheeri_os.Keyboard.Handler.{modifiers, entry_char, keyboard_handler}
use cheeri_os.Keyboard.Handler.Bounds.{IsKeyboard}
use cheeri_os.Keyboard.Handler.Line.{line, append}
use cheeri_os.Keyboard.Handler.Editing.{IsPlain, keyboard_handler-character}

-- a row of keys from the scan code `first` on, with what each types without and with shift
legend_row : List ℕ → List ℕ → (first : ℕ) → Bool → ℕ → ℕ
unfolding nth
legend_row plain shifted first upper scan =
    if upper then nth shifted (scan - first) else nth plain (scan - first)

digit_row : Bool → ℕ → ℕ
unfolding legend_row
digit_row =
    legend_row
      (b'1' ∷ b'2' ∷ b'3' ∷ b'4' ∷ b'5' ∷ b'6' ∷ b'7' ∷ b'8' ∷ b'9' ∷ b'0' ∷ b'-' ∷ b'=' ∷ [])
      (b'!' ∷ b'@' ∷ b'#' ∷ b'$' ∷ b'%' ∷ b'^' ∷ b'&' ∷ b'*' ∷ b'(' ∷ b')' ∷ b'_' ∷ b'+' ∷ []) 0x02

top_row : Bool → ℕ → ℕ
unfolding legend_row
top_row =
    legend_row
      (b'q' ∷ b'w' ∷ b'e' ∷ b'r' ∷ b't' ∷ b'y' ∷ b'u' ∷ b'i' ∷ b'o' ∷ b'p' ∷ b'[' ∷ b']' ∷ [])
      (b'Q' ∷ b'W' ∷ b'E' ∷ b'R' ∷ b'T' ∷ b'Y' ∷ b'U' ∷ b'I' ∷ b'O' ∷ b'P' ∷ b'{' ∷ b'}' ∷ []) 0x10

home_row : Bool → ℕ → ℕ
unfolding legend_row
home_row =
    legend_row
      (b'a' ∷ b's' ∷ b'd' ∷ b'f' ∷ b'g' ∷ b'h' ∷ b'j' ∷ b'k' ∷ b'l' ∷ b';' ∷ 39 ∷ b'`' ∷ [])
      (b'A' ∷ b'S' ∷ b'D' ∷ b'F' ∷ b'G' ∷ b'H' ∷ b'J' ∷ b'K' ∷ b'L' ∷ b':' ∷ b'"' ∷ b'~' ∷ []) 0x1E

bottom_row : Bool → ℕ → ℕ
unfolding legend_row
bottom_row =
    legend_row (92 ∷ b'z' ∷ b'x' ∷ b'c' ∷ b'v' ∷ b'b' ∷ b'n' ∷ b'm' ∷ b',' ∷ b'.' ∷ b'/' ∷ [])
      (b'|' ∷ b'Z' ∷ b'X' ∷ b'C' ∷ b'V' ∷ b'B' ∷ b'N' ∷ b'M' ∷ b'<' ∷ b'>' ∷ b'?' ∷ []) 0x2B

-- the character on the key with the scan code, with shift or without
pub legend : Bool → ℕ → ℕ
unfolding digit_row top_row home_row bottom_row
legend upper scan =
    if ltb scan 0x10
    then digit_row upper scan
    else if ltb scan 0x1E
    then top_row upper scan
    else if ltb scan 0x2B
    then home_row upper scan
    else bottom_row upper scan

is_typing : ℕ → Bool
is_typing scan =
    leb 0x02 scan && leb scan 0x0D
    || leb 0x10 scan && leb scan 0x1B
    || leb 0x1E scan && leb scan 0x29
    || leb 0x2B scan && leb scan 0x35

-- the scan codes of the four rows
abbrev pub IsTyping : ℕ → Type 0
IsTyping scan =
    (0x02 ≤ scan) × (scan ≤ 0x0D)
    ⊎ (0x10 ≤ scan) × (scan ≤ 0x1B)
    ⊎ (0x1E ≤ scan) × (scan ≤ 0x29)
    ⊎ (0x2B ≤ scan) × (scan ≤ 0x35)

-- the key's place in the table of scan codes
place : ℕ → ℕ
place scan =
    if ltb scan 0x10
    then scan - 2
    else if ltb scan 0x1E
    then scan - 4
    else if ltb scan 0x2B
    then scan - 6
    else scan - 7

key_test : ℕ → Bool
key_test scan =
    not (is_typing scan)
    || ltb (place scan) 47
      && nth scan_pressed_normal (place scan) == scan
      && nth normal_chars (place scan) == legend false scan
      && nth normal_chars (place scan + 48) == legend true scan
      && every_below (place scan) (λ j. not (nth scan_pressed_normal j == scan))

keys : every_below 54 key_test ≡ true
unfolding every_below key_test is_typing place legend nth
keys = refl

-- What the arrays have for a key.
record IsKey (d : DataSegment) (scan t : ℕ) : Type 0 where
  low : t < 47
  code : scan_at d t ≡ scan
  first : (j : ℕ) → j < t → scan_at d j ≢ scan
  plain : char_at d t ≡ legend false scan
  shifted : char_at d (t + 48) ≡ legend true scan

all_true :
    (a b c d e f : Bool)
    → (not a || b && c && d && e && f) ≡ true
    → a ≡ true
    → (b ≡ true) × (c ≡ true) × (d ≡ true) × (e ≡ true) × (f ≡ true)
all_true a b c d e f test on =
    (ground arith, ground arith, ground arith, ground arith, ground arith)

scan_at-low : (d : DataSegment) (i : ℕ) → i < num_scan → scan_at d i ≡ nth scan_pressed_normal i
unfolding scan_at
scan_at-low d i lt = let low : ltb i num_scan ≡ true = ground (arith, lt) in rw low refl

char_at-low : (d : DataSegment) (i : ℕ) → i < num_chars → char_at d i ≡ nth normal_chars i
unfolding char_at
char_at-low d i lt = let low : ltb i num_chars ≡ true = ground (arith, lt) in rw low refl

IsTyping-is_typing : (scan : ℕ) → IsTyping scan → is_typing scan ≡ true
unfolding is_typing
IsTyping-is_typing scan typing = ground arith

ltb-less : (a b : ℕ) → ltb a b ≡ true → a < b
ltb-less a b e = ground arith

differs : (a b : ℕ) → not (a == b) ≡ true → a ≢ b
differs a b e same = absurd (ground arith)

place-IsKey : (d : DataSegment) (scan : ℕ) → IsTyping scan → IsKey d scan (place scan)
unfolding key_test
place-IsKey d scan typing =
    let (small, code, plain, shifted, first) =
      all_true _ _ _ _ _ _ (every_below_lem 54 key_test scan keys (omega arith))
        (IsTyping-is_typing scan typing) in
    let low = ltb-less (place scan) 47 small in
    record {
      low = low;
      code = scan_at-low d (place scan) (omega arith) ∙ (==_iff _ _).0 code;
      first = λ j lt e.
          let other =
            every_below_lem (place scan) (λ i. not (nth scan_pressed_normal i == scan)) j first
              lt in
          differs _ _ other (sym (scan_at-low d j (omega arith)) ∙ e);
      plain = char_at-low d (place scan) (omega arith) ∙ (==_iff _ _).0 plain;
      shifted = char_at-low d (place scan + 48) (omega arith) ∙ (==_iff _ _).0 shifted;
    }

typing-IsPlain :
    {k : Keyboard} (scan : ℕ)
    → IsTyping scan
    → (k.crtlpressed ≢ 1) ⊎ (scan ≢ Scan.crtl_check)
    → IsPlain k scan
typing-IsPlain scan typing free = record {
  clearing = free;
  switching = inr (inl (omega arith));
  enter = omega arith;
  backspace = omega arith;
  tab = omega arith;
  space = omega arith;
}

bit_cases : (n : ℕ) → n ≤ 1 → (n ≡ 0) ⊎ (n ≡ 1)
bit_cases n le = elim (ℕ_discrete n 0) [ yes z ↦ inl z | no ne ↦ inr (omega arith) ]

entry_char-legend :
    (d : DataSegment) (scan t : ℕ) (k : Keyboard)
    → IsTyping scan
    → IsKey d scan t
    → k.capslockactive ≤ 1
    → k.shiftpressed ≤ 1
    → entry_char d t (modifiers scan k) ≡ legend (not (k.capslockactive == k.shiftpressed)) scan
unfolding entry_char modifiers
entry_char-legend d scan t k typing key caps shift =
    let low : ltb t 48 ≡ true = ground (arith, key.low) in
    let capslock : (scan == Scan.capslock) ≡ false = ne→== _ _ (λ e. absurd (omega arith)) in
    let up : (scan == Scan.lshift_up || scan == Scan.rshift_up) ≡ false = ground (arith, typing) in
    let down : (scan == Scan.lshift || scan == Scan.rshift) ≡ false = ground (arith, typing) in
    let s = bit_cases k.shiftpressed shift in
    rw (low, capslock, up, down)
      (elim (bit_cases k.capslockactive caps) [
        | inl c ↦ elim s [ inl z ↦ rw (c, z) key.plain | inr z ↦ rw (c, z) key.shifted ]
        | inr c ↦ elim s [ inl z ↦ rw (c, z) key.shifted | inr z ↦ rw (c, z) key.plain ]
      ])

-- For a key of the four rows of letters, digits and signs (not the l key while control is held), with
-- capslockactive and shiftpressed 0 or 1: the line gets, while it has fewer than 127 bytes, the character of a
-- US keyboard's key, the upper one if exactly one of shift and capslock is on, the lower one otherwise.
-- Capslock acts on all these keys, like shift.
pub keyboard_handler-layout :
    (d : DataSegment) (scan : ℕ) {k : Keyboard}
    → IsKeyboard k
    → IsTyping scan
    → (k.crtlpressed ≢ 1) ⊎ (scan ≢ Scan.crtl_check)
    → k.capslockactive ≤ 1
    → k.shiftpressed ≤ 1
    → line (keyboard_handler d scan k)
      ≡ append (legend (not (k.capslockactive == k.shiftpressed)) scan) (line k)
keyboard_handler-layout d scan {k} v typing free caps shift =
    let key = place-IsKey d scan typing in
    keyboard_handler-character d scan (place scan) v (typing-IsPlain scan typing free)
      (omega (arith, key.low)) key.code key.first
    ∙ ap (λ c. append c (line k)) (entry_char-legend d scan (place scan) k typing key caps shift)
