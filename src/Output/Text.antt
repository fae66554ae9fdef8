-- ===== src/Output/Text.antt =====
-- printf of student-distrib/lib.c for a format without conversions.
use cheeri_os.Common.{
  ℕ, ◌≡◌, refl, arith, Bool, true, false, not, ◌&&◌, ◌==◌, List, [], ◌∷◌, ◌++◌, some,
}
use cheeri_os.Screen.{Screen, putc}
use cheeri_os.Screen.Bounds.{InScreen, Keeps, SameOutside-refl, SameOutside-trans, putc-Keeps}
use cheeri_os.Output.{plain, printf_loop, printf, format_length}

-- no byte is '%'
unfoldable pub is_text : List ℕ → Bool
is_text [] = true
is_text (c ∷ format) = not (c == b'%') && is_text format

-- putc of each byte in order
unfoldable pub put_all : List ℕ → Screen → Screen
put_all [] t = t
put_all (c ∷ format) t = put_all format (putc c t)

printf_loop-text :
    (format args : List ℕ) (conv_buf : ℕ) (t : Screen)
    → is_text format ≡ true
    → printf_loop plain format args conv_buf t ≡ some (put_all format t)
unfolding printf_loop is_text put_all
printf_loop-text [] args conv_buf t e = refl
printf_loop-text (c ∷ format) args conv_buf t e =
    let other : (c == b'%') ≡ false = ground arith in
    let rest : is_text format ≡ true = ground arith in
    rw (other, printf_loop) (printf_loop-text format args conv_buf (putc c t) rest)

-- The text before a conversion.
pub printf_loop-before :
    (text format args : List ℕ) (conv_buf : ℕ) (t : Screen)
    → is_text text ≡ true
    → printf_loop plain (text ++ format) args conv_buf t
      ≡ printf_loop plain format args conv_buf (put_all text t)
unfolding printf_loop is_text put_all
printf_loop-before [] format args conv_buf t e = refl
printf_loop-before (c ∷ text) format args conv_buf t e =
    let other : (c == b'%') ≡ false = ground arith in
    let rest : is_text text ≡ true = ground arith in
    rw (other, printf_loop) (printf_loop-before text format args conv_buf (putc c t) rest)

-- For a format without '%' printf returns, its result is the number of bytes, and the screen that of putc of each.
pub printf-text :
    (format args : List ℕ) (conv_buf : ℕ) (t : Screen)
    → is_text format ≡ true
    → printf format args conv_buf t ≡ some (format_length format, put_all format t)
unfolding printf
printf-text format args conv_buf t e = rw (printf_loop-text format args conv_buf t e) refl

-- The cursor stays in the bounds of InScreen, and only the video memory changes.
pub put_all-Keeps : (text : List ℕ) {s : Screen} → InScreen s → Keeps s (put_all text s)
unfolding put_all
put_all-Keeps [] {s} i = record { inside = i; same = SameOutside-refl s.mem }
put_all-Keeps (c ∷ text) {s} i =
    let k = putc-Keeps c i in
    let k' = put_all-Keeps text k.inside in
    record { inside = k'.inside; same = SameOutside-trans k.same k'.same }
