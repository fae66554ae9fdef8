-- ===== src/Output.antt =====
-- puts, itoa, strrev and printf of student-distrib/lib.c. A format is its bytes before the NUL, and
-- `args` the words behind it on the stack; `conv_buf` is the address of the local array. `none` is a loop
-- that has not ended, or a read behind the format or the arguments.
mod Tests
pub mod Reverse
pub mod Digits
pub mod Numbers
pub mod Hex
pub mod Text
pub mod Framed
use cheeri_os.Common.{
  ℕ, zero, suc, ◌+◌, ◌-◌, ◌*◌, ◌/◌, ◌%◌, Bool, true, false, ◌||◌, List, [], ◌∷◌, Option, none, some,
  ◌>>=◌, ◌==◌, ltb, slt, if◌then◌else◌, Mem, load8, store8, word, add32, sub32,
}
use cheeri_os.Strings.{strlen}
use cheeri_os.Screen.{Screen, putc}

-- `while (s[index] != '\0')`
unfoldable pub puts_loop : ℕ → (s index : ℕ) → Screen → Option (ℕ × Screen)
puts_loop zero s index t = none
puts_loop (suc n) s index t = elim (load8 t.mem (s + index) == 0) [
  | true ↦ some (index, t)
  | false ↦ puts_loop n s (index + 1) (putc (load8 t.mem (s + index)) t)
]

unfoldable pub puts : ℕ → Screen → Option (ℕ × Screen)
puts s t = puts_loop word s 0 t

-- `while (beg < end)`; each round brings the two closer, so that as many rounds as there are bytes are enough
unfoldable pub strrev_loop : ℕ → (s beg end : ℕ) → Mem → Option Mem
strrev_loop zero s beg end m = if slt beg end then none else some m
strrev_loop (suc n) s beg end m = elim (slt beg end) [
  | true ↦
      strrev_loop n s (beg + 1) (sub32 end 1)
        (store8 (store8 m (s + end) (load8 m (s + beg))) (s + beg) (load8 m (s + end)))
  | false ↦ some m
]

unfoldable pub strrev : ℕ → Mem → Option Mem
strrev s m = do n ← strlen m s; strrev_loop n s 0 (sub32 n 1) m

-- "0123456789ABCDEFGHIJKLMNOPQRSTUVWXYZ" and its NUL, at 36; no other index is in the array.
abbrev pub lookup : ℕ → ℕ
lookup i = if ltb i 10 then b'0' + i else if ltb i 36 then b'A' + (i - 10) else 0

-- a radix of 0, by which the division traps, and a digit that reads behind the array
abbrev pub traps : (newval radix : ℕ) → Bool
traps newval radix = radix == 0 || ltb 36 (newval % radix)

-- `while (newval > 0)`; the result is where the NUL goes
unfoldable pub itoa_loop : ℕ → (newval newbuf radix : ℕ) → Mem → Option (ℕ × Mem)
itoa_loop zero newval newbuf radix m = none
itoa_loop (suc n) newval newbuf radix m = elim (ltb 0 newval) [
  | true ↦ elim (traps newval radix) [
    | true ↦ none
    | false ↦
        itoa_loop n (newval / radix) (newbuf + 1) radix (store8 m newbuf (lookup (newval % radix)))
  ]
  | false ↦ some (newbuf, m)
]

-- Each round divides by the radix, so that `value + 1` rounds are enough for a radix of 2 or more.
unfoldable pub itoa : (value buf radix : ℕ) → Mem → Option Mem
itoa value buf radix m =
    if value == 0
    then some (store8 (store8 m buf b'0') (buf + 1) 0)
    else do (end, m') ← itoa_loop (value + 1) value buf radix m; strrev buf (store8 m' end 0)

-- a conversion function on the screen's memory
abbrev pub on_memory : (Mem → Option Mem) → Screen → Option Screen
on_memory f t = do m ← f t.mem; some (record t { mem = m })

-- itoa to `conv`, then puts of `from`
abbrev pub print_number : (value conv radix from : ℕ) → Screen → Option Screen
print_number value conv radix from t = do
  t' ← on_memory (itoa value conv radix) t
  (n, t'') ← puts from t'
  some t''

-- the zeros before the digits of %#x, with `n` rounds left
pub zeros_loop : ℕ → (conv_buf i : ℕ) → Mem → Mem
zeros_loop zero conv_buf i m = m
zeros_loop (suc n) conv_buf i m = zeros_loop n conv_buf (i + 1) (store8 m (conv_buf + i) b'0')

pub print_hex8 : (value conv_buf : ℕ) → Screen → Option Screen
print_hex8 value conv_buf t = do
  t1 ← on_memory (itoa value (conv_buf + 8) 16) t
  start ← strlen t1.mem (conv_buf + 8)
  let t2 = record t1 { mem = zeros_loop (8 - start) conv_buf start t1.mem }
  (n, t3) ← puts (conv_buf + start) t2
  some t3

unfoldable pub print_signed : (value conv_buf : ℕ) → Screen → Option Screen
print_signed value conv_buf t =
    if slt value 0
    then print_number (sub32 0 value) (conv_buf + 1) 10 conv_buf
        (record t { mem = store8 t.mem conv_buf b'-' })
    else print_number value conv_buf 10 conv_buf t

-- a string argument
abbrev pub print_string : ℕ → Screen → Option Screen
print_string s t = do (n, t') ← puts s t; some t'

-- what `buf` stands at: a byte of the text, or one after '%', where '#' may have come
pub data Mode : Type 0 where
  plain : Mode
  conversion : (alternate : Bool) → Mode

-- the conversion that the byte `c` names, with the first argument `arg`; the other bytes print nothing
unfoldable pub convert : (alternate : Bool) → (c arg conv_buf : ℕ) → Screen → Option Screen
convert alternate c arg conv_buf t =
    if c == b'x'
    then (if alternate then print_hex8 arg conv_buf t else print_number arg conv_buf 16 conv_buf t)
    else if c == b'u'
    then print_number arg conv_buf 10 conv_buf t
    else if c == b'd'
    then print_signed arg conv_buf t
    else if c == b'c'
    then some (putc (arg % 256) t)
    else print_string arg t

-- the conversions that take an argument
abbrev pub takes_argument : ℕ → Bool
takes_argument c =
    if c == b'x'
    then true
    else if c == b'u'
    then true
    else if c == b'd'
    then true
    else if c == b'c'
    then true
    else c == b's'

unfoldable pub printf_loop : Mode → (format args : List ℕ) → (conv_buf : ℕ) → Screen → Option Screen
printf_loop plain [] args conv_buf t = some t
printf_loop (conversion alternate) [] args conv_buf t = none
printf_loop plain (c ∷ format) args conv_buf t = elim (c == b'%') [
  | true ↦ printf_loop (conversion false) format args conv_buf t
  | false ↦ printf_loop plain format args conv_buf (putc c t)
]
printf_loop (conversion alternate) (c ∷ format) args conv_buf t = elim (takes_argument c) [
  | true ↦ elim args [
    | [] ↦ none
    | arg ∷ args ↦ do
      t' ← convert alternate c arg conv_buf t
      printf_loop plain format args conv_buf t'
  ]
  | false ↦ elim (c == b'#') [
    | true ↦ printf_loop (conversion true) format args conv_buf t
    | false ↦ printf_loop plain format args conv_buf (if c == b'%' then putc b'%' t else t)
  ]
]

-- the number of bytes of a format
pub format_length : List ℕ → ℕ
format_length [] = 0
format_length (c ∷ format) = format_length format + 1

unfoldable pub printf : (format args : List ℕ) → (conv_buf : ℕ) → Screen → Option (ℕ × Screen)
printf format args conv_buf t = do
  t' ← printf_loop plain format args conv_buf t
  some (format_length format, t')
