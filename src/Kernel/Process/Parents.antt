-- ===== src/Kernel/Process/Parents.antt =====
-- Where halt of student-distrib/system_call.c goes back to, and what it leaves.
use cheeri_os.Common.{
  ℕ, ◌+◌, ◌*◌, ◌≤◌, ◌<◌, ◌≡◌, ◌≢◌, ◌∙◌, refl, ap, sym, arith, true, false, ◌==◌, ne→==, some,
  if◌then◌else◌, sub32, minus_one,
}
use cheeri_os.Keyboard.Handler.{is_terminal}
use cheeri_os.Paging.{program_page_idx}
use cheeri_os.Paging.Init.{physical, process_page-pages}
use cheeri_os.Ports.{Machine}
use cheeri_os.Kernel.State.{Kernel}
use cheeri_os.Kernel.Process.{Frame, jump, terminal, close_all, leave_process, halt}
use cheeri_os.Kernel.Process.Closing.{close_all-closes}

module _ {D : Type 0} where
  -- The state after the process that runs in `k` has left.
  pub record IsLeft (k k' : Kernel D) : Type 0 where
    pub keyboard : k'.keyboard ≡ k.keyboard
    pub count : k'.process_num ≡ sub32 k.process_num 1
    pub programs :
        (t : ℕ)
        → k'.programs t
          ≡ (if t == terminal k then sub32 (k.programs (terminal k)) 1 else k.programs t)
    pub curr : k'.curr ≡ k.active (terminal k)
    pub active :
        (t : ℕ)
        → k'.active t
          ≡ (if t == terminal k then (k.pcb (k.active (terminal k))).parent_pid else k.active t)
    pub page :
        (k.pcb (k.active (terminal k))).parent_pid < 1022
        → physical (k'.paging.page_directory program_page_idx)
          ≡ 0x800000 + (k.pcb (k.active (terminal k))).parent_pid * 0x400000
    pub files : (fd : ℕ) → 2 ≤ fd → fd < 8 → ((k'.pcb k.curr).fd_arr fd).flags ≡ 0
    pub esp_parent : (n : ℕ) → (k'.pcb n).ksp_parent ≡ (k.pcb n).ksp_parent
    pub exception : k'.exception_flag ≡ k.exception_flag
    pub ebp_parent : (n : ℕ) → (k'.pcb n).kbp_parent ≡ (k.pcb n).kbp_parent

  pub leave_process-IsLeft :
      (k : Kernel D) → is_terminal (terminal k) ≡ true → IsLeft k (leave_process k)
  unfolding leave_process
  leave_process-IsLeft k real =
      let (same, free) = close_all-closes 8 0 k refl (λ fd a b. absurd (omega arith)) in
      let k1 = close_all 8 0 k in
      let here : terminal k1 ≡ terminal k = ap (λ b. b.terminal_check) same.keyboard in
      let slot : k1.active (terminal k1) ≡ k.active (terminal k) = rw (same.active, here) refl in
      let parent : (k1.pcb (k1.active (terminal k1))).parent_pid
          ≡ (k.pcb (k.active (terminal k))).parent_pid =
        rw slot (same.parent_pid _) in
      let real' : is_terminal (terminal k1) ≡ true = rw here real in
      rw real' (record {
        keyboard = same.keyboard;
        count = ap (λ n. sub32 n 1) same.count;
        programs = λ t. rw (same.programs, here) refl;
        curr = slot;
        active = λ t. rw (parent, same.active, here) refl;
        page = λ small. rw parent (process_page-pages _ 0 0 k1.paging small (omega arith)).0;
        files = λ fd a b. sym (ap (λ c. ((k1.pcb c).fd_arr fd).flags) same.curr) ∙ free fd a b;
        esp_parent = same.ksp_parent;
        ebp_parent = same.kbp_parent;
        exception = same.exception;
      })

  -- In a terminal that does not run exactly one program, for a process whose parent_pid is not -1, halt jumps with the
  -- status to the stack pointers kept in the PCB of the slot that the terminal's active_pid names, and leaves:
  -- one process and one program of the terminal fewer, that PCB the current one, its parent_pid the
  -- terminal's active process, with that process's page mapped when its number is below 1022, the
  -- descriptors 2 to 7 of the halted process free, and the stack pointers in all PCBs and exception_flag as before.
  pub halt-IsLeft :
      (hw : Machine D) (f : Frame) (shell status : ℕ) (k : Kernel D)
      → is_terminal (terminal k) ≡ true
      → k.programs (terminal k) ≢ 1
      → (k.pcb k.curr).parent_pid ≢ minus_one
      → (k' : Kernel D) × (halt hw f shell status k
          ≡ some (
            jump
                (k.pcb (k.active (terminal k))).ksp_parent
                (k.pcb (k.active (terminal k))).kbp_parent
                status,
            k',
          ))
        × IsLeft k k'
  unfolding halt
  halt-IsLeft hw f shell status k real more parent =
      let k0 = record k { rtc = record k.rtc { machine = hw.cli k.rtc.machine } } in
      let left = leave_process-IsLeft k0 real in
      let one : (k.programs (terminal k) == 1) ≡ false = ne→== _ 1 more in
      let has : ((k.pcb k.curr).parent_pid == minus_one) ≡ false = ne→== _ minus_one parent in
      let l = leave_process k0 in
      let esp : (l.pcb l.curr).ksp_parent ≡ (k.pcb (k.active (terminal k))).ksp_parent =
        ap (λ c. (l.pcb c).ksp_parent) left.curr ∙ left.esp_parent _ in
      let ebp : (l.pcb l.curr).kbp_parent ≡ (k.pcb (k.active (terminal k))).kbp_parent =
        ap (λ c. (l.pcb c).kbp_parent) left.curr ∙ left.ebp_parent _ in
      (
        record l { esp0 = 0x7FFFFC },
        rw (real, one, has, esp, ebp),
        record {
          keyboard = left.keyboard;
          count = left.count;
          programs = left.programs;
          curr = left.curr;
          active = left.active;
          page = left.page;
          files = left.files;
          esp_parent = left.esp_parent;
          ebp_parent = left.ebp_parent;
          exception = left.exception;
        },
      )
