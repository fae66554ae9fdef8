-- ===== src/Pic/Tests.antt =====
-- The theorems on the controllers, over a machine whose ports keep the byte last written to them.
use cheeri_os.Common.{ℕ, ◌%◌, refl, arith, ◌==◌, if◌then◌else◌}
use cheeri_os.Ports.{Machine}
use cheeri_os.Pic.{master_data, slave_data}
use cheeri_os.Pic.Masks.{Latch}

abbrev latches : Machine (ℕ → ℕ)
latches = record {
  inb = λ port d. (d port % 256, d);
  outb = λ value port d a. if a == port then value else d a;
  cli = λ d. d;
  sti = λ d. d;
}

abbrev mask : ℕ → (ℕ → ℕ) → ℕ
mask port d = d port % 256

abbrev masked : ℕ → ℕ
masked port = 0xFB

slave-Latch : Latch latches mask slave_data master_data
slave-Latch = record {
  reads = λ d. refl;
  byte = λ d. omega arith;
  writes = λ v d. refl;
  keeps = λ v d. refl;
}
