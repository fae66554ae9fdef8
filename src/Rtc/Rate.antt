-- ===== src/Rtc/Rate.antt =====
-- Which rates rtc_write takes, and that rtc_read waits for one interrupt.
use Prim.Native.Nat.{bit_and, bit_or}
use native.Mathlib.Decide.{ℕ_discrete}
use cheeri_os.Common.{
  ℕ, zero, suc, ◌+◌, ◌-◌, ◌*◌, ◌/◌, ◌%◌, ◌^◌, ◌≤◌, ◌<◌, ◌≡◌, ◌≢◌, ◌⊎◌, arith, Bool, false, ◌&&◌,
  ◌||◌, leb, ◌==◌, ne→==, Option, none, some, Mem, load32, sub32, minus_one, if◌then◌else◌, inl,
  inr,
}
use cheeri_os.Ports.{Machine}
use cheeri_os.Rtc.{port_1, port_2, Driver, rate_value, rtc_write, rtc_wait, rtc_read, rtc_handler}

-- The clock's frequency at the value `val` of its register A, from 3 to 15, in its data sheet.
unfoldable pub frequency : ℕ → ℕ
frequency val = 32768 / 2 ^ (val - 1)

is_value : Option ℕ → ℕ → Bool
is_value none val = false
is_value (some w) val = w == val

taken : ℕ → Bool
unfolding is_value
taken val =
    let rate = 32768 / 2 ^ (val - 1) in
    leb val 5 || bit_and rate (sub32 rate 1) == 0 && is_value (rate_value rate) val

-- a rate that is no frequency of the clock falls through the whole chain
rate_value-none :
    (rate : ℕ) → ((val : ℕ) → 6 ≤ val → val ≤ 15 → rate ≢ frequency val) → rate_value rate ≡ none
unfolding rate_value frequency
rate_value-none rate h =
    let other : (val : ℕ) → 6 ≤ val → val ≤ 15 → (rate == 32768 / 2 ^ (val - 1)) ≡ false =
      λ val low high. ne→== rate (32768 / 2 ^ (val - 1)) (h val low high) in
    rw (
      other 6 (omega arith) (omega arith),
      other 7 (omega arith) (omega arith),
      other 8 (omega arith) (omega arith),
      other 9 (omega arith) (omega arith),
      other 10 (omega arith) (omega arith),
      other 11 (omega arith) (omega arith),
      other 12 (omega arith) (omega arith),
      other 13 (omega arith) (omega arith),
      other 14 (omega arith) (omega arith),
      other 15 (omega arith) (omega arith),
    )

-- The clock behind its two ports, as its data sheet has it: `index` is the register that port 0x70 has
-- selected, without the NMI bit, and `reg` the value of each. Port 0x71 reads and writes the selected one.
pub record IsClock {D : Type 0} (hw : Machine D) (index : D → ℕ) (reg : ℕ → D → ℕ) : Type 0 where
  pub byte : (i : ℕ) (d : D) → reg i d < 256
  pub selects : (v : ℕ) (d : D) → index (hw.outb v port_1 d) ≡ v % 128
  pub select_keeps : (v i : ℕ) (d : D) → reg i (hw.outb v port_1 d) ≡ reg i d
  pub reads : (d : D) → (hw.inb port_2 d).0 ≡ reg (index d) d
  pub read_keeps : (i : ℕ) (d : D) → reg i (hw.inb port_2 d).1 ≡ reg i d
  pub writes :
      (v i : ℕ) (d : D) → reg i (hw.outb v port_2 d) ≡ (if i == index d then v % 256 else reg i d)
  pub cli_keeps : (i : ℕ) (d : D) → reg i (hw.cli d) ≡ reg i d
  pub sti_keeps : (i : ℕ) (d : D) → reg i (hw.sti d) ≡ reg i d

nibbles_test : ℕ → ℕ → Bool
nibbles_test c val = bit_or (bit_and 0xF0 c) (bit_and val 0x0F) % 256 == c / 16 * 16 + val

module _ {D : Type 0} (hw : Machine D) where
  rtc_wait-set : (n : ℕ) (r : Driver D) → r.interrupt_flag ≢ 0 → rtc_wait hw n r ≡ some r
  unfolding rtc_wait
  rtc_wait-set zero r set = rw (ne→== r.interrupt_flag 0 set)
  rtc_wait-set (suc n) r set = rw (ne→== r.interrupt_flag 0 set)

  rtc_wait-clear :
      (n : ℕ) (r : Driver D)
      → r.interrupt_flag ≡ 0
      → 1 ≤ n
      → rtc_wait hw n r ≡ some (rtc_handler hw r)
  unfolding rtc_wait rtc_handler
  rtc_wait-clear zero r clear lt = absurd (omega arith)
  rtc_wait-clear (suc n) r clear lt = rw clear (rtc_wait-set n (rtc_handler hw r) (omega arith))

  -- With another number of bytes, a NULL buffer, or a rate that is the frequency of none of these values,
  -- rtc_write returns -1 and does nothing to the clock.
  pub rtc_write-refused :
      (fd buf nbytes : ℕ) (m : Mem) (r : Driver D)
      → (nbytes ≢ 4) ⊎ (buf ≡ 0) ⊎ ((val : ℕ) → 6 ≤ val → val ≤ 15 → load32 m buf ≢ frequency val)
      → rtc_write hw fd buf nbytes m r ≡ (minus_one, r)
  unfolding rtc_write
  rtc_write-refused fd buf nbytes m r bad = elim bad [
    | inl length ↦ rw (ne→== nbytes 4 length)
    | inr (inl null) ↦ ground arith
    | inr (inr none_is) ↦ ground (arith, rate_value-none (load32 m buf) none_is)
  ]

  -- rtc_read ends once interrupt_flag is set or one interrupt comes, has taken no further interrupt, and
  -- leaves interrupt_flag clear.
  pub rtc_read-waits :
      (interrupts fd buf nbytes : ℕ) (r : Driver D)
      → (r.interrupt_flag ≢ 0) ⊎ (1 ≤ interrupts)
      → rtc_read hw interrupts fd buf nbytes r ≡ (
          let r' = (if r.interrupt_flag == 0 then rtc_handler hw r else r) in
          some (0, record r' { interrupt_flag = 0 }))
  unfolding rtc_read
  rtc_read-waits n fd buf nbytes r ready = elim (ℕ_discrete r.interrupt_flag 0) [
    | yes clear ↦ rw (rtc_wait-clear n r clear (omega arith), rtc_read, clear)
    | no set ↦ rw (rtc_wait-set n r set, rtc_read, ne→== r.interrupt_flag 0 set)
  ]
