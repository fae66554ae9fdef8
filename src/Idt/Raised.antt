-- ===== src/Idt/Raised.antt =====
-- What an exception of student-distrib/idt_init.c comes to: the execute that started the program returns 256.
use cheeri_os.Common.{ℕ, ◌≡◌, ◌≢◌, refl, true, some, List, [], minus_one}
use cheeri_os.Output.Text.{is_text, put_all, printf-text}
use cheeri_os.Screen.{Screen}
use cheeri_os.Keyboard.Handler.{is_terminal}
use cheeri_os.Ports.{Machine}
use cheeri_os.Kernel.State.{Kernel}
use cheeri_os.Kernel.Process.{Frame, jump, terminal, return_value}
use cheeri_os.Kernel.Process.Parents.{IsLeft, halt-IsLeft}
use cheeri_os.Idt.Exceptions.{exception, after_halt}

module _ {D : Type 0} where
  return_value-raised :
      (bl : ℕ) (k : Kernel D)
      → k.exception_flag ≡ 1
      → return_value bl k ≡ (256, record k { exception_flag = 0 })
  unfolding return_value
  return_value-raised bl k e = rw e refl

  -- the state in which the handler halts the program
  abbrev pub raised : Screen → Kernel D → Kernel D
  raised screen k = record k {
    keyboard = record k.keyboard { screen = screen };
    exception_flag = 1;
  }

  -- In a terminal that does not run exactly one program, for a process whose parent_pid is not -1 and a message without
  -- '%', an exception writes the message to the screen and halts the process as halt does: it jumps to
  -- the same stack pointers with a status of 0. What execute returns there is 256, and
  -- exception_flag is clear again.
  pub exception-returns :
      (message : List ℕ) (hw : Machine D) (f : Frame) (shell : ℕ) (k : Kernel D)
      → is_text message ≡ true
      → is_terminal (terminal k) ≡ true
      → k.programs (terminal k) ≢ 1
      → (k.pcb k.curr).parent_pid ≢ minus_one
      → let p = k.pcb (k.active (terminal k)) in
        (k' : Kernel D) × (exception message hw f shell k
          ≡ some (jump p.ksp_parent p.kbp_parent 0, k'))
        × IsLeft (raised (put_all message k.keyboard.screen) k) k'
        × (return_value 0 k' ≡ (256, record k' { exception_flag = 0 }))
  unfolding exception after_halt
  exception-returns message hw f shell k text real more parent =
      let screen = put_all message k.keyboard.screen in
      let prints = printf-text message [] f.conv_buf k.keyboard.screen text in
      let k2 = record (raised screen k) { rtc = record k.rtc { machine = hw.cli k.rtc.machine } } in
      let (k', halts, left) = halt-IsLeft hw f shell 0 k2 real more parent in
      (
        k',
        rw (prints, halts) refl,
        record {
          keyboard = left.keyboard;
          count = left.count;
          programs = left.programs;
          curr = left.curr;
          active = left.active;
          page = left.page;
          files = left.files;
          esp_parent = left.esp_parent;
          ebp_parent = left.ebp_parent;
          exception = left.exception;
        },
        return_value-raised 0 k' left.exception,
      )
