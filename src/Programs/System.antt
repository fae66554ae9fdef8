-- ===== src/Programs/System.antt =====
-- The system calls that a program makes (syscalls/ece391syscall.h), as an interface: the values that they return
-- and what they do to the state, whose memory the program reads and writes itself.
use cheeri_os.Common.{ℕ, Option, Mem}

pub record System (S : Type 0) : Type 0 where
  pub memory : S → Mem
  pub set_memory : Mem → S → S
  pub execute : (command : ℕ) → S → Option (ℕ × S)
  pub read : (fd buf nbytes : ℕ) → S → Option (ℕ × S)
  pub write : (fd buf nbytes : ℕ) → S → Option (ℕ × S)
  pub open_file : (filename : ℕ) → S → Option (ℕ × S)
  pub close : (fd : ℕ) → S → Option (ℕ × S)
  pub getargs : (buf nbytes : ℕ) → S → Option (ℕ × S)
  pub vidmap : (screen_start : ℕ) → S → Option (ℕ × S)
