-- ===== src/Idt/Exceptions.antt =====
-- The exception handlers of student-distrib/idt_init.c: each prints its message, sets exception_flag and
-- halts the program. (uint8_t)EX_NUM is 0. sti() is reached only if halt returns.
use cheeri_os.Common.{ℕ, ◌∷◌, [], List, Option, some, ◌>>=◌}
use cheeri_os.Output.{printf}
use cheeri_os.Ports.{Machine}
use cheeri_os.Kernel.State.{Kernel}
use cheeri_os.Kernel.Process.{Frame, Return, restarted, jump, returned, launched, halt}

module _ {D : Type 0} where
  -- sti()
  pub set_interrupts : Machine D → Kernel D → Kernel D
  set_interrupts hw k = record k { rtc = record k.rtc { machine = hw.sti k.rtc.machine } }

  -- what halt left, and the sti() behind it
  unfoldable pub after_halt : Machine D → Return → Kernel D → Kernel D
  after_halt hw (jump esp ebp bl) k = k
  after_halt hw (restarted (launched entry_point)) k = k
  after_halt hw (restarted (returned value)) k = set_interrupts hw k

  -- the body that the handlers share, for its message
  unfoldable pub exception :
      List ℕ → Machine D → Frame → (shell : ℕ) → Kernel D → Option (Return × Kernel D)
  exception message hw f shell k0 = do
    let k1 = record k0 { rtc = record k0.rtc { machine = hw.cli k0.rtc.machine } }
    (n, screen) ← printf message [] f.conv_buf k1.keyboard.screen
    let k2 = record k1 { keyboard = record k1.keyboard { screen = screen }; exception_flag = 1 }
    (r, k3) ← halt hw f shell 0 k2
    some (r, after_halt hw r k3)

  pub idt_default : Machine D → Frame → (shell : ℕ) → Kernel D → Option (Return × Kernel D)
  idt_default = exception (
      b'U' ∷ b'n' ∷ b'k' ∷ b'n' ∷ b'o' ∷ b'w' ∷ b'n' ∷ b' ' ∷ b'e' ∷ b'x' ∷ b'e' ∷ b'c' ∷ b'e'
      ∷ b'p' ∷ b't' ∷ b'i' ∷ b'o' ∷ b'n' ∷ [])

  pub idt_00 : Machine D → Frame → (shell : ℕ) → Kernel D → Option (Return × Kernel D)
  idt_00 = exception (
      b'D' ∷ b'i' ∷ b'v' ∷ b'i' ∷ b's' ∷ b'i' ∷ b'o' ∷ b'n' ∷ b' ' ∷ b'b' ∷ b'y' ∷ b' ' ∷ b'z'
      ∷ b'e' ∷ b'r' ∷ b'o' ∷ [])

  pub idt_01 : Machine D → Frame → (shell : ℕ) → Kernel D → Option (Return × Kernel D)
  idt_01 = exception (b'D' ∷ b'e' ∷ b'b' ∷ b'u' ∷ b'g' ∷ [])

  pub idt_02 : Machine D → Frame → (shell : ℕ) → Kernel D → Option (Return × Kernel D)
  idt_02 = exception (
      b'N' ∷ b'o' ∷ b'n' ∷ b'-' ∷ b'm' ∷ b'a' ∷ b's' ∷ b'k' ∷ b'a' ∷ b'b' ∷ b'l' ∷ b'e' ∷ b' '
      ∷ b'I' ∷ b'n' ∷ b't' ∷ b'e' ∷ b'r' ∷ b'r' ∷ b'u' ∷ b'p' ∷ b't' ∷ [])

  pub idt_03 : Machine D → Frame → (shell : ℕ) → Kernel D → Option (Return × Kernel D)
  idt_03 = exception (b'B' ∷ b'r' ∷ b'e' ∷ b'a' ∷ b'k' ∷ b'p' ∷ b'o' ∷ b'i' ∷ b'n' ∷ b't' ∷ [])

  pub idt_04 : Machine D → Frame → (shell : ℕ) → Kernel D → Option (Return × Kernel D)
  idt_04 = exception (b'O' ∷ b'v' ∷ b'e' ∷ b'r' ∷ b'f' ∷ b'l' ∷ b'o' ∷ b'w' ∷ [])

  pub idt_05 : Machine D → Frame → (shell : ℕ) → Kernel D → Option (Return × Kernel D)
  idt_05 = exception (b'B' ∷ b'o' ∷ b'u' ∷ b'n' ∷ b'd' ∷ b's' ∷ [])

  pub idt_06 : Machine D → Frame → (shell : ℕ) → Kernel D → Option (Return × Kernel D)
  idt_06 = exception (
      b'I' ∷ b'n' ∷ b'v' ∷ b'a' ∷ b'l' ∷ b'i' ∷ b'd' ∷ b' ' ∷ b'O' ∷ b'p' ∷ b'c' ∷ b'o' ∷ b'd'
      ∷ b'e' ∷ [])

  pub idt_07 : Machine D → Frame → (shell : ℕ) → Kernel D → Option (Return × Kernel D)
  idt_07 = exception (
      b'C' ∷ b'o' ∷ b'p' ∷ b'r' ∷ b'o' ∷ b'c' ∷ b'e' ∷ b's' ∷ b's' ∷ b'o' ∷ b'r' ∷ b' ' ∷ b'N'
      ∷ b'o' ∷ b't' ∷ b' ' ∷ b'A' ∷ b'v' ∷ b'a' ∷ b'i' ∷ b'l' ∷ b'a' ∷ b'b' ∷ b'l' ∷ b'e' ∷ [])

  pub idt_08 : Machine D → Frame → (shell : ℕ) → Kernel D → Option (Return × Kernel D)
  idt_08 =
      exception
        (b'D' ∷ b'o' ∷ b'u' ∷ b'b' ∷ b'l' ∷ b'e' ∷ b' ' ∷ b'F' ∷ b'a' ∷ b'u' ∷ b'l' ∷ b't' ∷ [])

  pub idt_09 : Machine D → Frame → (shell : ℕ) → Kernel D → Option (Return × Kernel D)
  idt_09 = exception (
      b'C' ∷ b'o' ∷ b'p' ∷ b'r' ∷ b'o' ∷ b'c' ∷ b'e' ∷ b's' ∷ b's' ∷ b'o' ∷ b'r' ∷ b' ' ∷ b'S'
      ∷ b'e' ∷ b'g' ∷ b'm' ∷ b'e' ∷ b'n' ∷ b't' ∷ b' ' ∷ b'O' ∷ b'v' ∷ b'e' ∷ b'r' ∷ b'r' ∷ b'u'
      ∷ b'n' ∷ [])

  pub idt_0a : Machine D → Frame → (shell : ℕ) → Kernel D → Option (Return × Kernel D)
  idt_0a = exception (
      b'I' ∷ b'n' ∷ b'v' ∷ b'a' ∷ b'l' ∷ b'i' ∷ b'd' ∷ b' ' ∷ b'T' ∷ b'a' ∷ b's' ∷ b'k' ∷ b' '
      ∷ b'S' ∷ b't' ∷ b'a' ∷ b't' ∷ b'e' ∷ b' ' ∷ b'S' ∷ b'e' ∷ b'g' ∷ b'm' ∷ b'e' ∷ b'n' ∷ b't'
      ∷ [])

  pub idt_0b : Machine D → Frame → (shell : ℕ) → Kernel D → Option (Return × Kernel D)
  idt_0b = exception (
      b'S' ∷ b'e' ∷ b'g' ∷ b'm' ∷ b'e' ∷ b'n' ∷ b't' ∷ b' ' ∷ b'n' ∷ b'o' ∷ b't' ∷ b' ' ∷ b'p'
      ∷ b'r' ∷ b'e' ∷ b's' ∷ b'e' ∷ b'n' ∷ b't' ∷ [])

  pub idt_0c : Machine D → Frame → (shell : ℕ) → Kernel D → Option (Return × Kernel D)
  idt_0c =
      exception (b'S' ∷ b't' ∷ b'a' ∷ b'c' ∷ b'k' ∷ b' ' ∷ b'F' ∷ b'a' ∷ b'u' ∷ b'l' ∷ b't' ∷ [])

  pub idt_0d : Machine D → Frame → (shell : ℕ) → Kernel D → Option (Return × Kernel D)
  idt_0d = exception (
      b'G' ∷ b'e' ∷ b'n' ∷ b'e' ∷ b'r' ∷ b'a' ∷ b'l' ∷ b' ' ∷ b'p' ∷ b'r' ∷ b'o' ∷ b't' ∷ b'e'
      ∷ b'c' ∷ b't' ∷ b'i' ∷ b'o' ∷ b'n' ∷ b' ' ∷ b'f' ∷ b'a' ∷ b'u' ∷ b'l' ∷ b't' ∷ [])

  pub idt_0e : Machine D → Frame → (shell : ℕ) → Kernel D → Option (Return × Kernel D)
  idt_0e =
      exception (b'P' ∷ b'a' ∷ b'g' ∷ b'e' ∷ b' ' ∷ b'F' ∷ b'a' ∷ b'u' ∷ b'l' ∷ b't' ∷ b'\n' ∷ [])

  pub idt_0f : Machine D → Frame → (shell : ℕ) → Kernel D → Option (Return × Kernel D)
  idt_0f = exception (b'R' ∷ b'e' ∷ b's' ∷ b'e' ∷ b'r' ∷ b'v' ∷ b'e' ∷ b'd' ∷ [])

  pub idt_10 : Machine D → Frame → (shell : ℕ) → Kernel D → Option (Return × Kernel D)
  idt_10 = exception (b'M' ∷ b'a' ∷ b't' ∷ b'h' ∷ b' ' ∷ b'F' ∷ b'a' ∷ b'u' ∷ b'l' ∷ b't' ∷ [])

  pub idt_11 : Machine D → Frame → (shell : ℕ) → Kernel D → Option (Return × Kernel D)
  idt_11 = exception (
      b'A' ∷ b'l' ∷ b'i' ∷ b'g' ∷ b'n' ∷ b'm' ∷ b'e' ∷ b'n' ∷ b't' ∷ b' ' ∷ b'C' ∷ b'h' ∷ b'e'
      ∷ b'c' ∷ b'k' ∷ [])

  pub idt_12 : Machine D → Frame → (shell : ℕ) → Kernel D → Option (Return × Kernel D)
  idt_12 = exception (
      b'M' ∷ b'a' ∷ b'c' ∷ b'h' ∷ b'i' ∷ b'n' ∷ b'e' ∷ b' ' ∷ b'C' ∷ b'h' ∷ b'e' ∷ b'c' ∷ b'k' ∷ [])

  pub idt_13 : Machine D → Frame → (shell : ℕ) → Kernel D → Option (Return × Kernel D)
  idt_13 = exception (
      b'S' ∷ b'I' ∷ b'M' ∷ b'D' ∷ b' ' ∷ b'F' ∷ b'l' ∷ b'o' ∷ b'a' ∷ b't' ∷ b'i' ∷ b'n' ∷ b'g'
      ∷ b' ' ∷ b'P' ∷ b'o' ∷ b'i' ∷ b'n' ∷ b't' ∷ b' ' ∷ b'E' ∷ b'x' ∷ b'c' ∷ b'e' ∷ b'p' ∷ b't'
      ∷ b'i' ∷ b'o' ∷ b'n' ∷ [])

  pub idt_14 : Machine D → Frame → (shell : ℕ) → Kernel D → Option (Return × Kernel D)
  idt_14 = exception (
      b'V' ∷ b'i' ∷ b'r' ∷ b't' ∷ b'u' ∷ b'a' ∷ b'l' ∷ b'i' ∷ b'z' ∷ b'a' ∷ b't' ∷ b'i' ∷ b'o'
      ∷ b'n' ∷ b' ' ∷ b'E' ∷ b'x' ∷ b'c' ∷ b'e' ∷ b'p' ∷ b't' ∷ b'i' ∷ b'o' ∷ b'n' ∷ [])

  pub idt_15 : Machine D → Frame → (shell : ℕ) → Kernel D → Option (Return × Kernel D)
  idt_15 = exception (
      b'C' ∷ b'o' ∷ b'n' ∷ b't' ∷ b'r' ∷ b'o' ∷ b'l' ∷ b' ' ∷ b'P' ∷ b'r' ∷ b'o' ∷ b't' ∷ b'e'
      ∷ b'c' ∷ b't' ∷ b'i' ∷ b'o' ∷ b'n' ∷ b' ' ∷ b'E' ∷ b'x' ∷ b'c' ∷ b'e' ∷ b'p' ∷ b't' ∷ b'i'
      ∷ b'o' ∷ b'n' ∷ [])
