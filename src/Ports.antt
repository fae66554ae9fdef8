-- ===== src/Ports.antt =====
-- inb, outb, cli and sti of student-distrib/lib.h, as an interface: what a port does is the hardware's.
use cheeri_os.Common.{ℕ}

pub record Machine (D : Type 0) : Type 0 where
  pub inb : ℕ → D → ℕ × D
  pub outb : ℕ → ℕ → D → D
  pub cli : D → D
  pub sti : D → D
