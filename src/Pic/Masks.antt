-- ===== src/Pic/Masks.antt =====
-- disable_irq and enable_irq change one bit of one mask.
use Prim.Native.Nat.{bit_and, bit_or}
use cheeri_os.Common.{
  ℕ, ◌-◌, ◌/◌, ◌%◌, ◌^◌, ◌<◌, ◌≡◌, refl, arith, Bool, true, ◌==◌, ==_iff, if◌then◌else◌, ltb, word,
  sub32, every_below, every_below_lem, ◌∙◌, ap, Bool-cases, inl, inr,
}
use cheeri_os.Ports.{Machine}
use cheeri_os.Pic.{master_data, slave_data, disable_irq, enable_irq, set_mask, clear_mask}

-- bit j of a byte
abbrev pub bit : ℕ → ℕ → ℕ
bit j v = v / 2 ^ j % 2

set_bit_test : ℕ → ℕ → ℕ → Bool
set_bit_test v k j = bit j (bit_or v (2 ^ k) % 256) == (if j == k then 1 else bit j v)

clear_bit_test : ℕ → ℕ → ℕ → Bool
clear_bit_test v k j = bit j (bit_and v (word - 1 - 2 ^ k) % 256) == (if j == k then 0 else bit j v)

each_bit : (ℕ → ℕ → ℕ → Bool) → ℕ → Bool
each_bit test v = every_below 8 (λ k. every_below 8 (test v k))

set_bits : every_below 256 (each_bit set_bit_test) ≡ true
unfolding every_below each_bit set_bit_test
set_bits = refl

clear_bits : every_below 256 (each_bit clear_bit_test) ≡ true
unfolding every_below each_bit clear_bit_test
clear_bits = refl

each_bit_lem :
    (test : ℕ → ℕ → ℕ → Bool) (v k j : ℕ)
    → every_below 256 (each_bit test) ≡ true
    → v < 256
    → k < 8
    → j < 8
    → test v k j ≡ true
unfolding each_bit
each_bit_lem test v k j all lt k_lt j_lt =
    let one = every_below_lem 256 (each_bit test) v all lt in
    every_below_lem 8 (test v k) j (every_below_lem 8 (λ i. every_below 8 (test v i)) k one k_lt)
      j_lt

-- The data port of a controller gives its mask, and a write to it sets the mask and keeps the mask of the
-- other controller, at the port `other`.
pub record Latch {D : Type 0} (hw : Machine D) (mask : ℕ → D → ℕ) (port other : ℕ) : Type 0 where
  pub reads : (d : D) → hw.inb port d ≡ (mask port d, d)
  pub byte : (d : D) → mask port d < 256
  pub writes : (v : ℕ) (d : D) → mask port (hw.outb v port d) ≡ v % 256
  pub keeps : (v : ℕ) (d : D) → mask other (hw.outb v port d) ≡ mask other d

-- the data ports of the controller of an interrupt line, and of the other one
abbrev pub port_of : ℕ → ℕ
port_of irq = if ltb irq 8 then master_data else slave_data

abbrev pub other_of : ℕ → ℕ
other_of irq = if ltb irq 8 then slave_data else master_data

module _ {D : Type 0} (hw : Machine D) (mask : ℕ → D → ℕ) where
  set_mask-bits :
      (port other k j : ℕ) (d : D)
      → Latch hw mask port other
      → k < 8
      → j < 8
      → let d' = set_mask hw port k d in
        (bit j (mask port d') ≡ (if j == k then 1 else bit j (mask port d)))
        × (mask other d' ≡ mask other d)
  unfolding set_bit_test
  set_mask-bits port other k j d latch k_lt j_lt =
      let v = mask port d in
      let opened : set_mask hw port k d ≡ hw.outb (bit_or v (2 ^ k) % 256) port d =
        ap (λ p. hw.outb (bit_or p.0 (2 ^ k) % 256) port p.1) (latch.reads d) in
      let table =
        (==_iff _ _).0 (each_bit_lem set_bit_test v k j set_bits (latch.byte d) k_lt j_lt) in
      rw opened (
        ap (bit j) (latch.writes (bit_or v (2 ^ k) % 256) d ∙ omega arith) ∙ table,
        latch.keeps _ d,
      )

  clear_mask-bits :
      (port other k j : ℕ) (d : D)
      → Latch hw mask port other
      → k < 8
      → j < 8
      → let d' = clear_mask hw port k d in
        (bit j (mask port d') ≡ (if j == k then 0 else bit j (mask port d)))
        × (mask other d' ≡ mask other d)
  unfolding clear_bit_test
  clear_mask-bits port other k j d latch k_lt j_lt =
      let v = mask port d in
      let opened : clear_mask hw port k d ≡ hw.outb (bit_and v (word - 1 - 2 ^ k) % 256) port d =
        ap (λ p. hw.outb (bit_and p.0 (word - 1 - 2 ^ k) % 256) port p.1) (latch.reads d) in
      let table =
        (==_iff _ _).0 (each_bit_lem clear_bit_test v k j clear_bits (latch.byte d) k_lt j_lt) in
      rw opened (
        ap (bit j) (latch.writes (bit_and v (word - 1 - 2 ^ k) % 256) d ∙ omega arith) ∙ table,
        latch.keeps _ d,
      )

  disable_irq-bits :
      (irq j : ℕ) (d : D)
      → Latch hw mask (port_of irq) (other_of irq)
      → irq < 16
      → j < 8
      → let d' = disable_irq hw irq d in
        (bit j (mask (port_of irq) d') ≡ (if j == irq % 8 then 1 else bit j (mask (port_of irq) d)))
        × (mask (other_of irq) d' ≡ mask (other_of irq) d)
  unfolding disable_irq
  disable_irq-bits irq j d latch lt j_lt = elim (Bool-cases (ltb irq 8)) [
    | inl e ↦
        let k : irq % 8 ≡ irq = ground arith in
        rw (e, k) (set_mask-bits master_data slave_data irq j d (rw e at latch) (ground arith) j_lt)
    | inr e ↦
        let k : irq % 8 ≡ sub32 irq 8 = ground arith in
        rw (e, k)
          (set_mask-bits slave_data master_data (sub32 irq 8) j d (rw e at latch) (ground arith)
            j_lt)
  ]

  enable_irq-bits :
      (irq j : ℕ) (d : D)
      → Latch hw mask (port_of irq) (other_of irq)
      → irq < 16
      → j < 8
      → let d' = enable_irq hw irq d in
        (bit j (mask (port_of irq) d') ≡ (if j == irq % 8 then 0 else bit j (mask (port_of irq) d)))
        × (mask (other_of irq) d' ≡ mask (other_of irq) d)
  unfolding enable_irq
  enable_irq-bits irq j d latch lt j_lt = elim (Bool-cases (ltb irq 8)) [
    | inl e ↦
        let k : irq % 8 ≡ irq = ground arith in
        rw (e, k)
          (clear_mask-bits master_data slave_data irq j d (rw e at latch) (ground arith) j_lt)
    | inr e ↦
        let k : irq % 8 ≡ sub32 irq 8 = ground arith in
        rw (e, k)
          (clear_mask-bits slave_data master_data (sub32 irq 8) j d (rw e at latch) (ground arith)
            j_lt)
  ]

  -- Where the data ports are latches, disable_irq of one of the 16 lines sets its bit in the mask of its
  -- controller, enable_irq clears it, and both keep the seven other bits and the mask of the other
  -- controller.
  pub irq-bits :
      (irq j : ℕ) (d : D)
      → Latch hw mask (port_of irq) (other_of irq)
      → irq < 16
      → j < 8
      → let off = disable_irq hw irq d in
        let on = enable_irq hw irq d in
        (bit j (mask (port_of irq) off)
          ≡ (if j == irq % 8 then 1 else bit j (mask (port_of irq) d)))
        × (mask (other_of irq) off ≡ mask (other_of irq) d)
        × (bit j (mask (port_of irq) on)
            ≡ (if j == irq % 8 then 0 else bit j (mask (port_of irq) d)))
        × (mask (other_of irq) on ≡ mask (other_of irq) d)
  irq-bits irq j d latch lt j_lt =
      let (bits, other) = disable_irq-bits irq j d latch lt j_lt in
      let (bits', other') = enable_irq-bits irq j d latch lt j_lt in (bits, other, bits', other')
