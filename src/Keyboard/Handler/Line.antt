-- ===== src/Keyboard/Handler/Line.antt =====
-- The line that a terminal's buffer holds, and what the keys do to it.
use cheeri_os.Common.{
  ℕ, zero, suc, ◌+◌, ◌-◌, ◌≤◌, ◌<◌, ◌≡◌, ◌≢◌, ◌%◌, ◌∙◌, List, [], ◌∷◌, inl, inr, refl, ap, ap₂,
  arith, ◌==◌, ltb, if◌then◌else◌, ne→==, Bool-cases, Mem, load8, store8, sub32, add32,
}
use cheeri_os.Keyboard.State.{Keyboard, count_value, set_count, write_limit}
use cheeri_os.Keyboard.Handler.{
  acknowledge, set_maxflag, put_buffer, press_enter, press_backspace, type_char,
}
use cheeri_os.Keyboard.Handler.Bounds.{
  IsKeyboard, start-IsKeyboard, put_buffer-IsKeyboard, start-IsKeyboard, put_buffer-count,
}

-- the bytes of the buffer before the counter, the newest first
pub typed : Mem → ℕ → List ℕ
typed m zero = []
typed m (suc n) = load8 m n ∷ typed m n

-- the line of the terminal that is shown
abbrev pub line : Keyboard → List ℕ
line k = typed (k.slot k.terminal_check).buffer (count_value k)

typed-store8 : (m : Mem) (p v n : ℕ) → n ≤ p → typed (store8 m p v) n ≡ typed m n
unfolding typed store8
typed-store8 m p v zero le = refl
typed-store8 m p v (suc n) le = ground (arith, typed-store8 m p v n)

typed-append : (m : Mem) (v n : ℕ) → typed (store8 m n v) (n + 1) ≡ (v % 256) ∷ typed m n
unfolding typed store8
typed-append m v n =
    let next : n + 1 ≡ suc n = omega arith in rw next (ground (arith, typed-store8 m n v n))

-- the line without its newest byte
pub drop_last : List ℕ → List ℕ
drop_last [] = []
drop_last (x ∷ xs) = xs

typed-pred : (m : Mem) (n : ℕ) → typed m (n - 1) ≡ drop_last (typed m n)
unfolding typed drop_last
typed-pred m zero = refl
typed-pred m (suc n) = let e : suc n - 1 ≡ n = omega arith in rw e

typed-none : (m : Mem) (n : ℕ) → n ≡ 0 → typed m n ≡ drop_last (typed m n)
unfolding typed drop_last
typed-none m n e = rw e refl

-- the buffer of the terminal that is shown
abbrev pub shown : Keyboard → Mem
shown k = (k.slot k.terminal_check).buffer

put_buffer-shown :
    (c : ℕ) (k : Keyboard) → shown (put_buffer c k) ≡ store8 (shown k) (count_value k) c
unfolding put_buffer
put_buffer-shown c k = ground arith

set_count-shown : {k : Keyboard} → IsKeyboard k → (n : ℕ) → shown (set_count n k) ≡ shown k
set_count-shown {k} v n = rw v.pointer (ground arith)

set_count-count : (k : Keyboard) (n : ℕ) → count_value (set_count n k) ≡ n
set_count-count k n = ground arith

-- a line whose buffer and counter are known
line-is : {m : Mem} {n : ℕ} (k : Keyboard) → shown k ≡ m → count_value k ≡ n → line k ≡ typed m n
line-is k b c = ap₂ typed b c

module _ {k : Keyboard} (v : IsKeyboard k) where
  type_char-line :
      (c : ℕ)
      → k.maxflag ≢ 1
      → count_value k < write_limit
      → line (type_char c k) ≡ c % 256 ∷ line k
  unfolding type_char
  type_char-line c room lt =
      let w = put_buffer-IsKeyboard v c in
      let next : add32 (count_value (put_buffer c k)) 1 ≡ count_value k + 1 =
        omega (arith, put_buffer-count c k) in
      rw (ne→== k.maxflag 1 room, v.terminal)
        (line-is (set_count (add32 (count_value (put_buffer c k)) 1) (put_buffer c k))
            (set_count-shown w _ ∙ put_buffer-shown c k) (set_count-count (put_buffer c k) _ ∙ next)
          ∙ typed-append (shown k) c (count_value k))

  pub press_backspace-line : line (press_backspace k) ≡ drop_last (line k)
  unfolding press_backspace
  press_backspace-line = elim (Bool-cases (count_value k == 0)) [
    | inl e ↦ rw e (typed-none _ (count_value k) (ground arith))
    | inr e ↦
        let n = sub32 (count_value k) 1 in
        let less : n ≡ count_value k - 1 = ground (arith, v.slots k.count) in
        rw (e, v.terminal)
          (line-is (put_buffer 0 (set_count n k)) (put_buffer-shown 0 (set_count n k))
              (put_buffer-count 0 (set_count n k) ∙ set_count-count k n)
            ∙ typed-store8 (shown (set_count n k)) (count_value (set_count n k)) 0 n
                (omega (arith, set_count-count k n))
            ∙ ap₂ typed (set_count-shown v n) less
            ∙ typed-pred (shown k) (count_value k))
  ]

  pub press_enter-line :
      let k' = press_enter k in
      (line k' ≡ []) × (k'.readflag ≡ 1) × (typed (shown k') (count_value k + 1) ≡ b'\n' ∷ line k)
  unfolding press_enter typed
  press_enter-line =
      let w = put_buffer-IsKeyboard v b'\n' in
      rw v.terminal (
        line-is (set_count 0 (put_buffer b'\n' k)) refl (set_count-count (put_buffer b'\n' k) 0),
        refl,
        ap (λ m. typed m (count_value k + 1)) (set_count-shown w 0 ∙ put_buffer-shown b'\n' k)
            ∙ typed-append (shown k) b'\n' (count_value k),
      )

-- the length, and a byte after the line if there is room for it
pub length : List ℕ → ℕ
length [] = 0
length (x ∷ xs) = length xs + 1

pub append : ℕ → List ℕ → List ℕ
append c xs = if ltb (length xs) write_limit then (c % 256) ∷ xs else xs

length-typed : (m : Mem) (n : ℕ) → length (typed m n) ≡ n
unfolding length typed
length-typed m zero = refl
length-typed m (suc n) = omega (arith, length-typed m n)

-- the state after the first two statements of keyboard_handler
abbrev pub start : Keyboard → Keyboard
start k = set_maxflag (acknowledge k)

type_char-full : (c : ℕ) (k : Keyboard) → k.maxflag ≡ 1 → type_char c k ≡ k
unfolding type_char
type_char-full c k full = rw full

pub type_key-line :
    (c : ℕ) {k : Keyboard} → IsKeyboard k → line (type_char c (start k)) ≡ append c (line k)
unfolding append
type_key-line c {k} v = elim (Bool-cases (ltb (count_value k) write_limit)) [
  | inl room ↦
      rw (length-typed (shown k) (count_value k), room)
        (type_char-line (start-IsKeyboard v) c (ground arith) (ground arith))
  | inr none ↦
      let full : (start k).maxflag ≡ 1 = ground (arith, v.slots k.count) in
      rw (length-typed (shown k) (count_value k), none) (ap line (type_char-full c (start k) full))
]
