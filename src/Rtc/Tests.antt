-- ===== src/Rtc/Tests.antt =====
-- The theorems on the clock, over a clock whose registers keep what was last written to them.
use cheeri_os.Common.{ℕ, ◌%◌, ◌==◌, if◌then◌else◌, Mem}
use cheeri_os.Ports.{Machine}
use cheeri_os.Rtc.{port_1, port_2, Driver}

abbrev chip : Machine (ℕ × (ℕ → ℕ))
chip = record {
  inb = λ port d. (if port == port_2 then d.1 d.0 % 256 else 0, d);
  outb = λ value port d.
      if port == port_1
      then (value % 128, d.1)
      else if port == port_2
      then (d.0, λ i. if i == d.0 then value % 256 else d.1 i)
      else d;
  cli = λ d. d;
  sti = λ d. d;
}

abbrev selected : ℕ × (ℕ → ℕ) → ℕ
selected d = d.0

-- the registers hold bytes
abbrev register : ℕ → ℕ × (ℕ → ℕ) → ℕ
register i d = d.1 i % 256

abbrev idle : Driver (ℕ × (ℕ → ℕ))
idle = record { machine = (0, λ i. 38); interrupt_flag = 0 }

-- the number 64 at 1000
abbrev sixty_four : Mem
sixty_four a = if a == 1000 then 64 else 0
