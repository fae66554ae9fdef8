-- ===== src/Rtc.antt =====
-- student-distrib/rtc.c: the real-time clock. Its driver's only variable is interrupt_flag; the clock's
-- registers are behind the ports 0x70 (which register) and 0x71 (its value).
pub mod Rate
mod Tests
use Prim.Native.Nat.{bit_and, bit_or}
use cheeri_os.Common.{
  ℕ, zero, suc, ◌-◌, ◌%◌, Bool, true, false, not, Option, none, some, ◌==◌, if◌then◌else◌, Mem,
  load32, sub32, minus_one,
}
use cheeri_os.Ports.{Machine}
use cheeri_os.Pic.{disable_irq, enable_irq, send_eoi}

abbrev pub rtc_irq : ℕ
rtc_irq = 8

abbrev pub port_1 : ℕ
port_1 = 0x70

abbrev pub port_2 : ℕ
port_2 = 0x71

pub record Driver (D : Type 0) : Type 0 where
  pub machine : D
  pub interrupt_flag : ℕ

-- the chain of tests of rtc_write on the rate
pub rate_value : ℕ → Option ℕ
rate_value rate =
    if rate == 1024
    then some 0x06
    else if rate == 512
    then some 0x07
    else if rate == 256
    then some 0x08
    else if rate == 128
    then some 0x09
    else if rate == 64
    then some 0x0A
    else if rate == 32
    then some 0x0B
    else if rate == 16
    then some 0x0C
    else if rate == 8
    then some 0x0D
    else if rate == 4
    then some 0x0E
    else if rate == 2
    then some 0x0F
    else none

module _ {D : Type 0} (hw : Machine D) where
  pub rtc_init : Driver D → Driver D
  rtc_init r =
      let d = hw.outb 0x8B port_1 (disable_irq hw rtc_irq (hw.cli r.machine)) in
      let (prev, d) = hw.inb port_2 d in
      let d = hw.outb (bit_or prev 0x40 % 256) port_2 (hw.outb 0x8B port_1 d) in
      record r { machine = enable_irq hw rtc_irq (hw.sti d) }

  pub rtc_handler : Driver D → Driver D
  rtc_handler r =
      let d = hw.outb 0x0C port_1 (hw.cli (send_eoi hw rtc_irq r.machine)) in
      let (value, d) = hw.inb port_2 d in record { machine = hw.sti d; interrupt_flag = 1 }

  -- the statements from cli to sti that rtc_open and rtc_write share
  pub set_rate : ℕ → D → D
  set_rate val d =
      let d = hw.outb 0x0A port_1 (hw.cli d) in
      let (c, d) = hw.inb port_2 d in
      hw.sti (hw.outb (bit_or (bit_and 0xF0 c) (bit_and val 0x0F)) port_2 (hw.outb 0x0A port_1 d))

  pub rtc_open : ℕ → Driver D → ℕ × Driver D
  rtc_open filename r = (0, record r { machine = set_rate 0x0F r.machine })

  -- `while (interrupt_flag == 0) {}`, where `interrupts` is how many interrupts still come
  pub rtc_wait : ℕ → Driver D → Option (Driver D)
  rtc_wait zero r = if r.interrupt_flag == 0 then none else some r
  rtc_wait (suc n) r =
      let rest = rtc_wait n (rtc_handler r) in if r.interrupt_flag == 0 then rest else some r

  pub rtc_read : (interrupts fd buf nbytes : ℕ) → Driver D → Option (ℕ × Driver D)
  rtc_read interrupts fd buf nbytes r = elim (rtc_wait interrupts r) [
    | none ↦ none
    | some r' ↦ some (0, record r' { interrupt_flag = 0 })
  ]

  pub rtc_write : (fd buf nbytes : ℕ) → Mem → Driver D → ℕ × Driver D
  rtc_write fd buf nbytes m r =
      let rate = load32 m buf in
      if not (nbytes == 4)
      then (minus_one, r)
      else if buf == 0
      then (minus_one, r)
      else if not (bit_and rate (sub32 rate 1) == 0)
      then (minus_one, r)
      else elim (rate_value rate) [
        | none ↦ (minus_one, r)
        | some val ↦ (0, record r { machine = set_rate val r.machine })
      ]

abbrev pub rtc_close : ℕ → ℕ
rtc_close fd = 0
