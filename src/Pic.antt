-- ===== src/Pic.antt =====
-- student-distrib/i8259.c: the two interrupt controllers, by their command and data ports.
pub mod Masks
mod Tests
use Prim.Native.Nat.{bit_and, bit_or}
use cheeri_os.Common.{ℕ, ◌+◌, ◌-◌, ◌%◌, ◌^◌, ltb, if◌then◌else◌, word, sub32}
use cheeri_os.Ports.{Machine}

abbrev pub master_port : ℕ
master_port = 0x20

abbrev pub master_data : ℕ
master_data = 0x21

abbrev pub slave_port : ℕ
slave_port = 0xA0

abbrev pub slave_data : ℕ
slave_data = 0xA1

abbrev pub pic_size : ℕ
pic_size = 8

abbrev pub eoi : ℕ
eoi = 0x60

module _ {D : Type 0} (hw : Machine D) where
  pub i8259_init : D → D
  i8259_init d =
      let d = hw.outb 0xFF slave_data (hw.outb 0xFF master_data d) in
      let d = hw.outb 0x20 master_data (hw.outb 0x11 master_port d) in
      let d = hw.outb 0x01 master_data (hw.outb 0x04 master_data d) in
      let d = hw.outb 0x28 slave_data (hw.outb 0x11 slave_port d) in
      let d = hw.outb 0x01 slave_data (hw.outb 0x02 slave_data d) in
      hw.outb 0xFF slave_data (hw.outb 0xFB master_data d)

  -- `inb(port) | (1 << k)` to the port, as an unsigned char
  abbrev pub set_mask : (port k : ℕ) → D → D
  set_mask port k d = let (v, d') = hw.inb port d in hw.outb (bit_or v (2 ^ k) % 256) port d'

  -- `inb(port) & ~(1 << k)`
  abbrev pub clear_mask : (port k : ℕ) → D → D
  clear_mask port k d =
      let (v, d') = hw.inb port d in hw.outb (bit_and v (word - 1 - 2 ^ k) % 256) port d'

  pub disable_irq : ℕ → D → D
  disable_irq irq_num d =
      if ltb irq_num pic_size
      then set_mask master_data irq_num d
      else set_mask slave_data (sub32 irq_num pic_size) d

  pub enable_irq : ℕ → D → D
  enable_irq irq_num d =
      if ltb irq_num pic_size
      then clear_mask master_data irq_num d
      else clear_mask slave_data (sub32 irq_num pic_size) d

  pub send_eoi : ℕ → D → D
  send_eoi irq_num d =
      if ltb irq_num pic_size
      then hw.outb (bit_or eoi irq_num % 256) master_port d
      else hw.outb (bit_or eoi (sub32 irq_num pic_size) % 256) slave_port
          (hw.outb (bit_or eoi 2) master_port d)
