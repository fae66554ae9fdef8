-- ===== src/Output/Digits.antt =====
-- What itoa of student-distrib/lib.c writes, read back as a number.
use cheeri_os.Common.{
  ℕ, zero, suc, ◌+◌, ◌-◌, ◌*◌, ◌/◌, ◌%◌, ◌^◌, ◌≤◌, ◌<◌, ◌≡◌, ◌≢◌, ◌⊎◌, ◌∙◌, inl, inr, refl, sym, ap,
  ap₂, arith, true, false, ne→==, ltb, if◌then◌else◌, some, Mem, load8, store8, load8-store8,
  Written, Written-zero, Written-store8_at, Written-inside, Written-load8,
}
use native.Mathlib.Decide.{ℕ_discrete, dec_le}
use cheeri_os.Strings.Length.{IsString}
use cheeri_os.Output.{lookup, traps, itoa_loop, itoa, strrev}
use cheeri_os.Output.Reverse.{strrev-Reversed}

-- the value of a digit of base 36
pub digit_value : ℕ → ℕ
digit_value c = if ltb c 58 then c - 48 else c - 55

-- The number that `k` digits at `p` stand for, behind digits for `acc`.
pub numeral : Mem → (radix k p acc : ℕ) → ℕ
numeral m radix zero p acc = acc
numeral m radix (suc k) p acc = numeral m radix k (p + 1) (acc * radix + digit_value (load8 m p))

-- the value divided `j` times
quotient : (radix j value : ℕ) → ℕ
quotient radix zero value = value
quotient radix (suc j) value = quotient radix j value / radix

abbrev pub IsRadix : ℕ → Type 0
IsRadix radix = (radix ≡ 10) ⊎ (radix ≡ 16)

digit : (radix value j : ℕ) → ℕ
digit radix value j = lookup (quotient radix j value % radix)

mod-small : (radix x : ℕ) → IsRadix radix → x % radix < 36
mod-small radix x (inl e) = rw e (omega arith)
mod-small radix x (inr e) = rw e (omega arith)

div-small :
    (radix x : ℕ)
    → IsRadix radix
    → 0 < x
    → (x / radix < x) × (1 + (x / radix + 2) / 3 ≤ (x + 2) / 3)
div-small radix x (inl e) pos = rw e (omega arith, omega arith)
div-small radix x (inr e) pos = rw e (omega arith, omega arith)

div-mod : (radix x : ℕ) → IsRadix radix → x / radix * radix + x % radix ≡ x
div-mod radix x (inl e) = rw e (omega arith)
div-mod radix x (inr e) = rw e (omega arith)

lookup-byte :
    (d : ℕ) → d < 36 → (lookup d % 256 ≡ lookup d) × (digit_value (lookup d) ≡ d) × (48 ≤ lookup d)
unfolding digit_value
lookup-byte d lt = (ground arith, ground arith, ground arith)

IsRadix-traps : (radix x : ℕ) → IsRadix radix → traps x radix ≡ false
IsRadix-traps radix x (inl e) = rw e (ground (arith, mod-small 10 x (inl refl)))
IsRadix-traps radix x (inr e) = rw e (ground (arith, mod-small 16 x (inr refl)))

digit-byte :
    (radix value j : ℕ)
    → IsRadix radix
    → (digit radix value j % 256 ≡ digit radix value j)
      × (digit_value (digit radix value j) ≡ quotient radix j value % radix)
      × (48 ≤ digit radix value j)
unfolding digit
digit-byte radix value j base =
    lookup-byte (quotient radix j value % radix) (mod-small radix (quotient radix j value) base)

lookup-nonzero : (d : ℕ) → d < 36 → d ≢ 0 → lookup d ≢ 48
lookup-nonzero d lt ne e = absurd (ground arith)

quotient-outer : (radix j value : ℕ) → quotient radix (suc j) value ≡ quotient radix j value / radix
unfolding quotient
quotient-outer radix j value = refl

digit-quotient :
    (radix value i x : ℕ) → x ≡ quotient radix i value → lookup (x % radix) ≡ digit radix value i
unfolding digit
digit-quotient radix value i x e = ap (λ q. lookup (q % radix)) e

-- the loop from the i-th digit on
itoa_loop-Written :
    (m0 : Mem) (buf radix value k i x p : ℕ) {m : Mem}
    → IsRadix radix
    → x ≡ quotient radix i value
    → p ≡ buf + i
    → x < k
    → ((j : ℕ) → j < i → quotient radix j value ≢ 0)
    → Written m0 buf i (digit radix value) m
    → (d : ℕ) × (m' : Mem) × (itoa_loop k x p radix m ≡ some (buf + d, m'))
      × Written m0 buf d (digit radix value) m'
      × (i ≤ d)
      × (d ≤ i + (x + 2) / 3)
      × (quotient radix d value ≡ 0)
      × ((j : ℕ) → j < d → quotient radix j value ≢ 0)
unfolding itoa_loop
itoa_loop-Written m0 buf radix value zero i x p base e at lt before w = absurd (omega arith)
itoa_loop-Written m0 buf radix value (suc k) i x p {m} base e at lt before w =
    elim (ℕ_discrete x 0) [
      | yes z ↦ (i, m, rw (z, at, itoa_loop) refl, w, omega arith, omega arith, sym e ∙ z, before)
      | no ne ↦
          let pos : 0 < x = omega arith in
          let on : ltb 0 x ≡ true = ground (arith, pos) in
          let (less, third) = div-small radix x base pos in
          let here : quotient radix i value ≢ 0 = λ z. ne (e ∙ z) in
          let next : x / radix ≡ quotient radix (suc i) value =
            ap (λ q. q / radix) e ∙ sym (quotient-outer radix i value) in
          let count : suc i ≡ i + 1 = omega arith in
          let byte : lookup (x % radix) % 256 ≡ digit radix value i =
            (lookup-byte (x % radix) (mod-small radix x base)).0
            ∙ digit-quotient radix value i x e in
          let (d, m', runs, w', le, most, z, all) =
            itoa_loop-Written m0 buf radix value k (i + 1) (x / radix) (p + 1) base
              (next ∙ ap (λ j. quotient radix j value) count) (omega arith) (omega arith)
              (λ j lt. elim (ℕ_discrete j i) [
                | yes same ↦ rw same here
                | no other ↦ before j (omega arith)
              ])
              (Written-store8_at p (lookup (x % radix)) (i + 1) w at refl byte) in
          (
            d,
            m',
            rw (on, IsRadix-traps radix x base, itoa_loop) runs,
            w',
            omega arith,
            omega (arith, third, most),
            z,
            all,
          )
    ]

-- the digits read back, from the i-th on, with `k` left
numeral-quotient :
    (m : Mem) (buf radix value d k i p acc : ℕ)
    → IsRadix radix
    → ((a j : ℕ) → a + j + 1 ≡ d → load8 m (buf + a) ≡ digit radix value j)
    → i + k ≡ d
    → p ≡ buf + i
    → acc ≡ quotient radix k value
    → numeral m radix k p acc ≡ value
unfolding numeral quotient
numeral-quotient m buf radix value d zero i p acc base bytes e at so_far = so_far
numeral-quotient m buf radix value d (suc k) i p acc base bytes e at so_far =
    let byte : load8 m p ≡ digit radix value k = ap (load8 m) at ∙ bytes i k (omega arith) in
    let one : digit_value (load8 m p) ≡ quotient radix k value % radix =
      ap digit_value byte ∙ (digit-byte radix value k base).1 in
    let more : acc * radix + digit_value (load8 m p) ≡ quotient radix k value =
      ap₂ (λ a b. a * radix + b) so_far one ∙ div-mod radix (quotient radix k value) base in
    numeral-quotient m buf radix value d k (i + 1) (p + 1) (acc * radix + digit_value (load8 m p))
      base bytes (omega arith) (omega arith) more

start : (radix value : ℕ) → value ≡ quotient radix 0 value
unfolding quotient
start radix value = refl

-- What itoa has written: a string of d digits without a leading zero that reads back as the value.
pub record IsNumeral (m0 : Mem) (value buf radix d : ℕ) (m : Mem) : Type 0 where
  pub string : IsString m buf d
  pub some_digit : 0 < d
  pub short : d < 2 ^ 31
  pub width : radix ≡ 16 → value < 2 ^ 32 → d ≤ 8
  pub decimal_width : radix ≡ 10 → value < 2 ^ 32 → d ≤ 10
  pub reads : numeral m radix d buf 0 ≡ value
  pub leading : value ≢ 0 → load8 m buf ≢ 48
  pub outside : (a : ℕ) → (a < buf) ⊎ (buf + d < a) → load8 m a ≡ load8 m0 a

zero-IsNumeral :
    (m0 : Mem) (buf radix : ℕ) → IsNumeral m0 0 buf radix 1 (store8 (store8 m0 buf 48) (buf + 1) 0)
unfolding store8 numeral digit_value
zero-IsNumeral m0 buf radix = record {
  string = record { nonzero = λ i lt. ground arith; ends = ground arith };
  some_digit = omega arith;
  short = omega arith;
  width = λ hex lt. omega arith;
  decimal_width = λ dec lt. omega arith;
  reads =
      let first : load8 (store8 (store8 m0 buf 48) (buf + 1) 0) buf ≡ 48 = ground arith in
      ap (λ c. 0 * radix + digit_value c) first ∙ omega arith;
  leading = λ ne. absurd (ne refl);
  outside = λ a away. ground arith;
}

top_digit :
    (radix value j : ℕ)
    → IsRadix radix
    → quotient radix (suc j) value ≡ 0
    → quotient radix j value ≢ 0
    → digit radix value j ≢ 48
unfolding digit
top_digit radix value j base end before =
    let x = quotient radix j value in
    let zero_div : x / radix ≡ 0 = sym (quotient-outer radix j value) ∙ end in
    let nothing : 0 * radix + 0 ≡ 0 = omega arith in
    lookup-nonzero (x % radix) (mod-small radix x base)
      (λ e. before (sym (div-mod radix x base) ∙ ap₂ (λ a b. a * radix + b) zero_div e ∙ nothing))

-- the digits, the NUL behind them and strrev
-- A value of 32 bits has at most eight hexadecimal digits.
hex_width :
    {radix : ℕ} (value d : ℕ)
    → radix ≡ 16
    → value < 2 ^ 32
    → ((j : ℕ) → j < d → quotient radix j value ≢ 0)
    → d ≤ 8
unfolding quotient
hex_width value d hex lt before = elim (dec_le d 8) [
  | yes le ↦ le
  | no more ↦ absurd ((rw hex at before 8 (omega arith)) (omega arith))
]

-- and at most ten decimal ones
ten_digits :
    {radix : ℕ} (value d : ℕ)
    → radix ≡ 10
    → value < 2 ^ 32
    → ((j : ℕ) → j < d → quotient radix j value ≢ 0)
    → d ≤ 10
unfolding quotient
ten_digits value d dec lt before = elim (dec_le d 10) [
  | yes le ↦ le
  | no more ↦ absurd ((rw dec at before 10 (omega arith)) (omega arith))
]

reverse_digits-IsNumeral :
    (m0 : Mem) (value buf radix d : ℕ) {m : Mem}
    → IsRadix radix
    → Written m0 buf d (digit radix value) m
    → d < 2 ^ 31
    → 0 < d
    → quotient radix d value ≡ 0
    → ((j : ℕ) → j < d → quotient radix j value ≢ 0)
    → (m' : Mem) × (strrev buf (store8 m (buf + d) 0) ≡ some m') × IsNumeral m0 value buf radix d m'
reverse_digits-IsNumeral m0 value buf radix d {m} base w small pos end before =
    let bytes : (j : ℕ) → j < d → load8 (store8 m (buf + d) 0) (buf + j) ≡ digit radix value j =
      λ j lt. ground (arith, load8-store8 m (buf + d) 0 (buf + j), Written-inside j w lt) in
    let str : IsString (store8 m (buf + d) 0) buf d = record {
      nonzero = λ j lt z. absurd (omega (arith, bytes j lt, (digit-byte radix value j base).2));
      ends = ground (arith, load8-store8 m (buf + d) 0 (buf + d));
    } in
    let last : suc (d - 1) ≡ d = omega arith in
    let (m', runs, r) = strrev-Reversed (store8 m (buf + d) 0) buf d str small in
    let back : (a j : ℕ) → a + j + 1 ≡ d → load8 m' (buf + a) ≡ digit radix value j =
      λ a j e. r.inside a j e ∙ bytes j (omega arith) in
    (
      m',
      runs,
      record {
        string = record {
          nonzero = λ i lt z. absurd (
              omega (
                arith,
                z,
                back i (d - (i + 1)) (omega arith),
                (digit-byte radix value (d - (i + 1)) base).2,
              ));
          ends = r.outside (buf + d) (inr (omega arith)) ∙ str.ends;
        };
        some_digit = pos;
        short = small;
        width = λ hex lt. hex_width value d hex lt before;
        decimal_width = λ dec lt. ten_digits value d dec lt before;
        reads =
            numeral-quotient m' buf radix value d d 0 buf 0 base back (omega arith) (omega arith)
              (sym end);
        leading = λ ne z.
            top_digit radix value (d - 1) base (ap (λ j. quotient radix j value) last ∙ end)
              (before (d - 1) (omega arith))
              (sym (back 0 (d - 1) (omega arith)) ∙ ap (load8 m') (omega arith) ∙ z);
        outside = λ a away.
            r.outside a (omega arith)
            ∙ ground (arith, load8-store8 m (buf + d) 0 a, Written-load8 a w (omega arith));
      },
    )

-- For the radixes 10 and 16 and a value of 32 bits itoa ends, with a numeral of the value without leading zeros
-- at buf, and no byte beside it and its NUL has changed.
pub itoa-IsNumeral :
    (m0 : Mem) (value buf radix : ℕ)
    → IsRadix radix
    → value < 2 ^ 32
    → (d : ℕ) × (m : Mem) × (itoa value buf radix m0 ≡ some m) × IsNumeral m0 value buf radix d m
unfolding itoa
itoa-IsNumeral m0 value buf radix base small = elim (ℕ_discrete value 0) [
  | yes z ↦
      (1, store8 (store8 m0 buf 48) (buf + 1) 0, rw z refl, rw z (zero-IsNumeral m0 buf radix))
  | no ne ↦
      let (d, m, runs, w, le, most, end, before) =
        itoa_loop-Written m0 buf radix value (value + 1) 0 value buf base (start radix value)
          (omega arith) (omega arith) (λ j lt. absurd (omega arith))
          (Written-zero m0 buf (digit radix value)) in
      let pos : 0 < d = elim (ℕ_discrete d 0) [
        | yes z ↦ absurd (ne (start radix value ∙ ap (λ j. quotient radix j value) (sym z) ∙ end))
        | no other ↦ omega arith
      ] in
      let (m', turns, n) =
        reverse_digits-IsNumeral m0 value buf radix d base w (omega arith) pos end before in
      (d, m', rw (ne→== value 0 ne, runs) turns, n)
]
