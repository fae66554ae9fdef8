-- ===== src/Kernel/Process/RoundTrip.antt =====
-- halt of student-distrib/system_call.c right after a launch.
use cheeri_os.Common.{
  ℕ, ◌+◌, ◌<◌, ◌≡◌, ◌≢◌, ◌∙◌, refl, sym, ap, arith, true, ◌==◌, ==_iff, if◌then◌else◌, some,
  minus_one, sub32, Bool-cases, inl, inr, false,
}
use cheeri_os.Keyboard.Handler.{is_terminal}
use cheeri_os.Ports.{Machine}
use cheeri_os.Kernel.State.{Kernel}
use cheeri_os.Kernel.Process.{Frame, jump, terminal, halt}
use cheeri_os.Kernel.Process.Parents.{halt-IsLeft}
use cheeri_os.Kernel.Process.Launch.{Started}

back : (n : ℕ) → n < 6 → sub32 (n + 1) 1 ≡ n
back n lt = omega arith

module _ {D : Type 0} where
  -- A process that was launched from another of its terminal, with fewer than six before it, and then halts: the
  -- number of processes and of programs of each terminal is again what it was. But halt jumps to the stack
  -- pointers in the PCB of the slot that process_num named before, not to those that launch put into
  -- the new process's PCB, and the terminal's active process is that PCB's parent_pid.
  pub halt-Started :
      (hw : Machine D) (f g : Frame) (shell status : ℕ) (k k' : Kernel D)
      → k.process_num < 6
      → k.programs (terminal k) < 6
      → 0 < k.programs (terminal k)
      → is_terminal (terminal k) ≡ true
      → k.active (terminal k) ≢ minus_one
      → Started f k k'
      → let p = k.pcb k.process_num in
        (k'' : Kernel D) × (halt hw g shell status k'
          ≡ some (jump p.ksp_parent p.kbp_parent status, k''))
        × (k''.process_num ≡ k.process_num)
        × ((t : ℕ) → k''.programs t ≡ k.programs t)
        × (k''.active (terminal k) ≡ p.parent_pid)
        × (k''.curr ≡ k.process_num)
  halt-Started hw f g shell status k k' few small some_program real has s =
      let own : (terminal k == terminal k) ≡ true = (==_iff (terminal k) (terminal k)).1 refl in
      let here = s.terminal_same in
      let programs : k'.programs (terminal k') ≡ k.programs (terminal k) + 1 =
        rw here (s.programs (terminal k) ∙ rw own refl) in
      let active : k'.active (terminal k') ≡ k.process_num =
        rw here (s.active (terminal k) ∙ rw own refl) in
      let apart : k.process_num ≢ k'.curr = λ e. absurd (omega (arith, s.slot, e)) in
      let pcb : k'.pcb (k'.active (terminal k')) ≡ k.pcb k.process_num =
        ap k'.pcb active ∙ s.others k.process_num apart in
      let first : (k.programs (terminal k) + 1 == 1) ≡ false = ground arith in
      let launcher : (if k.programs (terminal k) + 1 == 1 then 0 else k.active (terminal k))
          ≢ minus_one =
        rw first has in
      let parent : (k'.pcb k'.curr).parent_pid ≢ minus_one = λ e. launcher (sym s.parent ∙ e) in
      let (k'', halts, left) =
        halt-IsLeft hw g shell status k' (rw here real) (λ e. absurd (omega (arith, programs, e)))
          parent in
      let own' : (terminal k' == terminal k') ≡ true =
        (==_iff (terminal k') (terminal k')).1 refl in
      let chosen : (if terminal k' == terminal k'
            then (k'.pcb (k'.active (terminal k'))).parent_pid
            else k'.active (terminal k'))
          ≡ (k'.pcb (k'.active (terminal k'))).parent_pid =
        rw own' refl in
      let programs_back : (t : ℕ)
          → (if t == terminal k' then sub32 (k'.programs (terminal k')) 1 else k'.programs t)
            ≡ k.programs t =
        λ t. elim (Bool-cases (t == terminal k)) [
          | inl e ↦
              let same : t ≡ terminal k = (==_iff t (terminal k)).0 e in
              rw (programs, here, e)
                (back (k.programs (terminal k)) small ∙ ap k.programs (sym same))
          | inr e ↦ rw (here, e) (s.programs t ∙ rw e refl)
        ] in
      (
        k'',
        halts ∙ ap (λ p. some (jump p.ksp_parent p.kbp_parent status, k'')) pcb,
        left.count ∙ ap (λ n. sub32 n 1) s.count ∙ back k.process_num few,
        λ t. left.programs t ∙ programs_back t,
        ap k''.active (sym here) ∙ left.active (terminal k') ∙ chosen ∙ ap (λ p. p.parent_pid) pcb,
        left.curr ∙ active,
      )
