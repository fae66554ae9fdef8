-- ===== src/Output/Hex.antt =====
-- What %#x of printf in student-distrib/lib.c shows, and the conversions of numbers together.
use native.Mathlib.Decide.{dec_le}
use cheeri_os.Common.{
  ℕ, zero, suc, ◌+◌, ◌-◌, ◌*◌, ◌^◌, ◌≤◌, ◌<◌, ◌≡◌, ◌∙◌, inl, inr, ◌⊎◌, false, Bool-cases, slt, refl,
  sym, arith, true, some, if◌then◌else◌, Mem, load8, store8, load8-store8, within,
}
use cheeri_os.Strings.{strlen}
use cheeri_os.Strings.Length.{IsString, strlen-IsString}
use cheeri_os.Screen.{Screen, video, num_rows, num_cols}
use cheeri_os.Screen.Bounds.{InScreen}
use cheeri_os.Screen.Shown.{Shown, nothing, stored}
use cheeri_os.Output.{zeros_loop, print_hex8, print_signed, convert}
use cheeri_os.Output.Digits.{IsNumeral, itoa-IsNumeral}
use cheeri_os.Output.Numbers.{
  Framed, moved-InScreen, bytes_at, puts-same, puts-Shown, ShowsNumber, ShowsNegative,
  print_number-Shown, print_signed-negative,
}

zeros_loop-at :
    (n conv i : ℕ) (m : Mem) (a : ℕ)
    → load8 (zeros_loop n conv i m) a ≡ (if within (conv + i) n a then b'0' else load8 m a)
unfolding zeros_loop
zeros_loop-at zero conv i m a = ground arith
zeros_loop-at (suc n) conv i m a = ground (
  arith,
  zeros_loop-at n conv (i + 1) (store8 m (conv + i) b'0') a,
  load8-store8 m (conv + i) b'0' a,
)

-- What is shown: zeros, up to eight digits with those of the numeral, which itoa left in `number`.
pub record ShowsHex (value conv : ℕ) (t t' : Screen) : Type 0 where
  pub digits : ℕ
  pub number : Mem
  pub memory : Mem
  pub numeral : IsNumeral t.mem value (conv + 8) 16 digits number
  pub width : digits ≤ 8
  pub padded : (j : ℕ) → j < 8 - digits → load8 memory (conv + digits + j) ≡ b'0'
  pub tail : (j : ℕ) → j < digits → load8 memory (conv + 8 + j) ≡ load8 number (conv + 8 + j)
  pub shown : Shown (bytes_at memory (conv + digits)) t 8 t'
  pub inside : InScreen t'
  pub framed : Framed conv t.mem t'.mem

module _ (conv d : ℕ) (m : Mem) (le : d ≤ 8) (str : IsString m (conv + 8) d) where
  abbrev padded_memory : Mem
  padded_memory = zeros_loop (8 - d) conv d m

  padded_digit : (j : ℕ) → j < 8 - d → load8 padded_memory (conv + d + j) ≡ b'0'
  padded_digit j lt = ground (arith, zeros_loop-at (8 - d) conv d m (conv + d + j))

  kept_byte : (a : ℕ) → conv + 8 ≤ a → load8 padded_memory a ≡ load8 m a
  kept_byte a high = ground (arith, zeros_loop-at (8 - d) conv d m a)

  padded-IsString : IsString padded_memory (conv + d) 8
  padded-IsString = record {
    nonzero = λ i lt z. elim (dec_le (8 - d) i) [
      | yes digit ↦
          let at : conv + d + i ≡ conv + 8 + (i - (8 - d)) = omega arith in
          str.nonzero (i - (8 - d)) (omega arith)
            (rw at at (sym (kept_byte (conv + d + i) (omega arith)) ∙ z))
      | no zero_digit ↦ absurd (omega (arith, z, padded_digit i (omega arith)))
    ];
    ends =
        let at : conv + d + 8 ≡ conv + 8 + d = omega arith in
        rw at (kept_byte (conv + 8 + d) (omega arith) ∙ str.ends);
  }

-- %#x shows a numeral as eight digits.
print_hex8-Shown :
    (value conv_buf : ℕ) (t : Screen)
    → value < 2 ^ 32
    → video + num_rows * num_cols * 2 ≤ conv_buf
    → InScreen t
    → (t' : Screen) × (convert true b'x' value conv_buf t ≡ some t') × ShowsHex value conv_buf t t'
unfolding convert print_hex8
print_hex8-Shown value conv t small above inside =
    let (d, m, runs, n) = itoa-IsNumeral t.mem value (conv + 8) 16 (inr refl) small in
    let le = n.width refl small in
    let measured : strlen m (conv + 8) ≡ some d =
      (strlen-IsString m (conv + 8) d).1 (n.string, omega (arith, n.short)) in
    let m2 = padded_memory conv d m le n.string in
    let (t', puts_runs, shown, inside') =
      puts-Shown (conv + d) 8 t (record t { mem = m2 }) (omega arith)
        (padded-IsString conv d m le n.string) (omega arith) (moved-InScreen m2 inside)
        (stored m2
          (record {
            at = λ a low high.
                ground (arith, zeros_loop-at (8 - d) conv d m a) ∙ n.outside a (omega arith);
          })
          nothing) in
    let same = puts-same (conv + d) 8 (moved-InScreen m2 inside) puts_runs in
    (
      t',
      rw (runs, measured, puts_runs) refl,
      record {
        digits = d;
        number = m;
        memory = m2;
        numeral = n;
        width = le;
        padded = padded_digit conv d m le n.string;
        tail = λ j lt. kept_byte conv d m le n.string (conv + 8 + j) (omega arith);
        shown = shown;
        inside = inside';
        framed = record {
          at = λ a out away.
              same.at a out
              ∙ ground (arith, zeros_loop-at (8 - d) conv d m a)
              ∙ n.outside a (omega arith);
        };
      },
    )

-- For a 32-bit value, a buffer above the video memory and a cursor in the bounds of InScreen, the conversions %x, %#x, %u and
-- %d end. %x shows the hexadecimal numeral of the value, %#x the same behind zeros as eight digits, %u and, below
-- 2 ^ 31, %d the decimal one, and from 2 ^ 31 on %d a minus sign and the numeral of 2 ^ 32 less the value. The
-- numerals are without leading zeros, the cursor stays in these bounds, and outside the video memory
-- and 17 bytes of the buffer the memory is as it was.
pub convert-number :
    (value conv_buf : ℕ) (t : Screen)
    → value < 2 ^ 32
    → video + num_rows * num_cols * 2 ≤ conv_buf
    → InScreen t
    → ((t' : Screen) × (convert false b'x' value conv_buf t ≡ some t')
        × ShowsNumber value 16 conv_buf t t')
      × ((t' : Screen) × (convert true b'x' value conv_buf t ≡ some t')
          × ShowsHex value conv_buf t t')
      × ((t' : Screen) × (convert false b'u' value conv_buf t ≡ some t')
          × ShowsNumber value 10 conv_buf t t')
      × ((t' : Screen) × (convert false b'd' value conv_buf t ≡ some t')
          × (ShowsNumber value 10 conv_buf t t' × (value < 2 ^ 31)
              ⊎ ShowsNegative (2 ^ 32 - value) conv_buf t t' × (2 ^ 31 ≤ value)))
unfolding convert print_signed
convert-number value conv_buf t small above inside = (
  print_number-Shown value conv_buf 16 t (inr refl) small above inside,
  print_hex8-Shown value conv_buf t small above inside,
  print_number-Shown value conv_buf 10 t (inl refl) small above inside,
  elim (Bool-cases (slt value 0)) [
    | inl e ↦
        let (t', runs, shows) =
          print_signed-negative value conv_buf t small (ground (arith, e)) above inside in
        (t', runs, inr (shows, ground (arith, e)))
    | inr e ↦
        let (t', runs, shows) =
          print_number-Shown value conv_buf 10 t (inl refl) small above inside in
        (t', rw e runs, inl (shows, ground (arith, e)))
  ],
)
