-- ===== src/Output/Numbers.antt =====
-- What the conversions of printf in student-distrib/lib.c show of a number.
use native.Mathlib.Decide.{ℕ_discrete}
use cheeri_os.Common.{
  ℕ, zero, suc, ◌+◌, ◌-◌, ◌*◌, ◌^◌, ◌≤◌, ◌<◌, ◌≡◌, ◌⊎◌, ◌∙◌, inl, inr, refl, arith, true, false,
  Bool-cases, Each, ◌==◌, ne→==, some, Mem, load8, store8, load8-store8, word, sub32, slt,
}
use cheeri_os.Strings.Length.{IsString}
use cheeri_os.Screen.{Screen, video, num_rows, num_cols, putc}
use cheeri_os.Screen.Bounds.{
  InScreen, Keeps, SameOutside, SameOutside-refl, SameOutside-trans, putc-Keeps,
}
use cheeri_os.Screen.Shown.{Shown, nothing, put_next, stored}
use cheeri_os.Output.{puts_loop, puts, print_number, print_signed}
use cheeri_os.Output.Digits.{IsRadix, IsNumeral, itoa-IsNumeral}

-- Byte j behind `s` in `m`.
abbrev pub bytes_at : Mem → ℕ → ℕ → ℕ
bytes_at m s j = load8 m (s + j)

-- `m` has the bytes of `m0` outside the video memory and the 17 bytes that the conversions use of the array `conv`.
pub record Framed (conv : ℕ) (m0 m : Mem) : Type 0 where
  pub at :
      (a : ℕ)
      → (a < video) ⊎ (video + num_rows * num_cols * 2 ≤ a)
      → (a < conv) ⊎ (conv + 17 ≤ a)
      → load8 m a ≡ load8 m0 a

puts_loop-Keeps :
    (k s i : ℕ) (t0 : Screen) {t : Screen}
    → InScreen t
    → SameOutside t0.mem t.mem
    → Each (λ x. Keeps t0 x.1) (puts_loop k s i t)
unfolding puts_loop
puts_loop-Keeps zero s i t0 inside same = tt
puts_loop-Keeps (suc k) s i t0 {t} inside same = elim (Bool-cases (load8 t.mem (s + i) == 0)) [
  | inl e ↦ rw (e, puts_loop) (record { inside = inside; same = same })
  | inr e ↦
      let keeps = putc-Keeps (load8 t.mem (s + i)) inside in
      rw (e, puts_loop)
        (puts_loop-Keeps k s (i + 1) t0 keeps.inside (SameOutside-trans same keeps.same))
]

-- Wherever its string is, puts keeps the cursor and writes only to the video memory, if it ends.
pub puts-Keeps : (s : ℕ) {t : Screen} → InScreen t → Each (λ x. Keeps t x.1) (puts s t)
unfolding puts
puts-Keeps s {t} inside = puts_loop-Keeps word s 0 t inside (SameOutside-refl t.mem)

pub puts-same :
    (s n : ℕ) {t t' : Screen} → InScreen t → puts s t ≡ some (n, t') → SameOutside t.mem t'.mem
puts-same s n {t} {t'} inside runs = let keeps = puts-Keeps s inside in (rw runs at keeps).same

-- the same cursor over another memory
pub moved-InScreen : {t : Screen} (m : Mem) → InScreen t → InScreen (record t { mem = m })
moved-InScreen m inside = record {
  column = inside.column;
  row = inside.row;
  wrapped = inside.wrapped;
  filled = inside.filled;
}

module _ (m0 : Mem) (s n : ℕ) (start : Screen) (above : video + num_rows * num_cols * 2 ≤ s)
    (str : IsString m0 s n) where
  puts_loop-Shown :
      (k i : ℕ) {t : Screen}
      → i ≤ n
      → n < i + k
      → InScreen t
      → SameOutside m0 t.mem
      → Shown (bytes_at m0 s) start i t
      → (t' : Screen) × (puts_loop k s i t ≡ some (n, t'))
        × Shown (bytes_at m0 s) start n t'
        × InScreen t'
  unfolding puts_loop
  puts_loop-Shown zero i le enough inside same shown = absurd (omega arith)
  puts_loop-Shown (suc k) i {t} le enough inside same shown =
      let byte : load8 t.mem (s + i) ≡ load8 m0 (s + i) = same.at (s + i) (omega arith) in
      elim (ℕ_discrete i n) [
        | yes e ↦
            let nul : load8 t.mem (s + i) ≡ 0 = byte ∙ (rw e str.ends) in
            (t, rw (nul, puts_loop, e) refl, rw e at shown, inside)
        | no other ↦
            let keeps = putc-Keeps (load8 t.mem (s + i)) inside in
            let next : Shown (bytes_at m0 s) start (i + 1) (putc (load8 t.mem (s + i)) t) =
              rw byte (put_next shown) in
            let (t', runs, shown', inside') =
              puts_loop-Shown k (i + 1) (omega arith) (omega arith) keeps.inside
                (SameOutside-trans same keeps.same) next in
            let more : (load8 t.mem (s + i) == 0) ≡ false =
              ne→== _ 0 (λ z. str.nonzero i (omega arith) (omega (arith, byte))) in
            (t', rw (more, puts_loop) runs, shown', inside')
      ]

-- From a cursor in the bounds of InScreen, puts of a string of n bytes above the video memory shows these bytes.
pub puts-Shown :
    (s n : ℕ) (start t : Screen)
    → video + num_rows * num_cols * 2 ≤ s
    → IsString t.mem s n
    → n < word
    → InScreen t
    → Shown (bytes_at t.mem s) start 0 t
    → (t' : Screen) × (puts s t ≡ some (n, t')) × Shown (bytes_at t.mem s) start n t' × InScreen t'
unfolding puts
puts-Shown s n start t above str short inside shown =
    puts_loop-Shown t.mem s n start above str word 0 (omega arith) (omega arith) inside
      (SameOutside-refl t.mem) shown

-- What is shown of a number: `d` digits, which stand at `conv` in the memory `m`.
pub record ShowsNumber (value radix conv : ℕ) (t t' : Screen) : Type 0 where
  pub digits : ℕ
  pub memory : Mem
  pub numeral : IsNumeral t.mem value conv radix digits memory
  pub shown : Shown (bytes_at memory conv) t digits t'
  pub inside : InScreen t'
  pub framed : Framed conv t.mem t'.mem

digits_width :
    {m0 m : Mem} {value conv radix d : ℕ}
    → IsRadix radix
    → value < 2 ^ 32
    → IsNumeral m0 value conv radix d m
    → d ≤ 10
digits_width (inl dec) small n = n.decimal_width dec small
digits_width (inr hex) small n = omega (arith, n.width hex small)

pub print_number-Shown :
    (value conv radix : ℕ) (t : Screen)
    → IsRadix radix
    → value < 2 ^ 32
    → video + num_rows * num_cols * 2 ≤ conv
    → InScreen t
    → (t' : Screen) × (print_number value conv radix conv t ≡ some t')
      × ShowsNumber value radix conv t t'
print_number-Shown value conv radix t base small above inside =
    let (d, m, runs, n) = itoa-IsNumeral t.mem value conv radix base small in
    let (t', puts_runs, shown, inside') =
      puts-Shown conv d t (record t { mem = m }) above n.string (omega (arith, n.short))
        (moved-InScreen m inside)
        (stored m (record { at = λ a low high. n.outside a (omega arith) }) nothing) in
    let same = puts-same conv d (moved-InScreen m inside) puts_runs in
    let width = digits_width base small n in
    (
      t',
      rw (runs, puts_runs) refl,
      record {
        digits = d;
        memory = m;
        numeral = n;
        shown = shown;
        inside = inside';
        framed = record { at = λ a out away. same.at a out ∙ n.outside a (omega (arith, width)) };
      },
    )

-- The same of a number below zero, behind a minus sign.
pub record ShowsNegative (value conv : ℕ) (t t' : Screen) : Type 0 where
  pub digits : ℕ
  pub memory : Mem
  pub sign : load8 memory conv ≡ b'-'
  pub numeral : IsNumeral (store8 t.mem conv b'-') value (conv + 1) 10 digits memory
  pub shown : Shown (bytes_at memory conv) t (digits + 1) t'
  pub inside : InScreen t'
  pub framed : Framed conv t.mem t'.mem

print_number-negative :
    (value conv : ℕ) (t : Screen)
    → value < 2 ^ 32
    → video + num_rows * num_cols * 2 ≤ conv
    → InScreen t
    → (t' : Screen) × (print_number value
          (conv + 1)
          10
          conv
          (record t { mem = store8 t.mem conv b'-' })
        ≡ some t')
      × ShowsNegative value conv t t'
print_number-negative value conv t small above inside =
    let m0 = store8 t.mem conv b'-' in
    let (d, m, runs, n) = itoa-IsNumeral m0 value (conv + 1) 10 (inl refl) (omega arith) in
    let sign : load8 m conv ≡ b'-' =
      n.outside conv (omega arith) ∙ ground (arith, load8-store8 t.mem conv b'-' conv) in
    let str : IsString m conv (d + 1) = record {
      nonzero = λ i lt z. elim (ℕ_discrete i 0) [
        | yes first ↦
            let at : conv + i ≡ conv = omega arith in absurd (omega (arith, sign, rw at at z))
        | no later ↦
            let at : conv + i ≡ conv + 1 + (i - 1) = omega arith in
            n.string.nonzero (i - 1) (omega arith) (rw at at z)
      ];
      ends = let at : conv + (d + 1) ≡ conv + 1 + d = omega arith in rw at n.string.ends;
    } in
    let (t', puts_runs, shown, inside') =
      puts-Shown conv (d + 1) t (record t { mem = m }) above str (omega (arith, n.short))
        (moved-InScreen m inside)
        (stored m
          (record {
            at = λ a low high.
                n.outside a (omega arith) ∙ ground (arith, load8-store8 t.mem conv b'-' a);
          })
          nothing) in
    let same = puts-same conv (d + 1) (moved-InScreen m inside) puts_runs in
    let width = n.decimal_width refl (omega arith) in
    (
      t',
      rw (runs, puts_runs) refl,
      record {
        digits = d;
        memory = m;
        sign = sign;
        numeral = n;
        shown = shown;
        inside = inside';
        framed = record {
          at = λ a out away.
              same.at a out
              ∙ n.outside a (omega arith)
              ∙ ground (arith, load8-store8 t.mem conv b'-' a);
        };
      },
    )

pub print_signed-negative :
    (value conv : ℕ) (t : Screen)
    → value < 2 ^ 32
    → 2 ^ 31 ≤ value
    → video + num_rows * num_cols * 2 ≤ conv
    → InScreen t
    → (t' : Screen) × (print_signed value conv t ≡ some t')
      × ShowsNegative (2 ^ 32 - value) conv t t'
unfolding print_signed
print_signed-negative value conv t small below above inside =
    let (t', runs, shows) =
      print_number-negative (2 ^ 32 - value) conv t (omega arith) above inside in
    let negative : slt value 0 ≡ true = ground arith in
    let flipped : sub32 0 value ≡ 2 ^ 32 - value = omega arith in
    (t', rw (negative, flipped) runs, shows)
