-- ===== src/Kernel/Process/Launch.antt =====
-- What a program that execute of student-distrib/system_call.c launches starts with.
use mathlib.Core.Path.{subst}
use cheeri_os.Common.{
  ℕ, ◌+◌, ◌*◌, ◌%◌, ◌<◌, ◌≡◌, ◌≢◌, ◌∙◌, inl, inr, refl, ap, sym, arith, true, ◌==◌, ==_iff, ne→==,
  Bool-cases, some, if◌then◌else◌, ltb, add32, sub32, word, Mem, load32,
}
use cheeri_os.FileSystem.Data.{read_data}
use cheeri_os.Strings.{strcpy}
use cheeri_os.Keyboard.Handler.{is_terminal}
use cheeri_os.Paging.{program_page_idx}
use cheeri_os.Paging.Init.{physical, process_page-pages}
use cheeri_os.Kernel.State.{Kernel, Pcb, memory, set_memory, set_pcb, process_args}
use cheeri_os.Kernel.Calls.Descriptors.{IsOpenTable, IsDescriptor}
use cheeri_os.Kernel.Process.{
  Frame, launched, terminal, start_process, count_program, link_process, setup_fd, launch,
  physical_of, program_img, program_length,
}

add32-small : (n : ℕ) → n < 6 → add32 n 1 ≡ n + 1
add32-small n lt = omega arith

sub32-back : (n : ℕ) → n < 6 → sub32 (n + 1) 1 ≡ n
sub32-back n lt = omega arith

setup_fd-IsDescriptor : (p : Pcb) (fd : ℕ) → fd < 8 → IsDescriptor fd ((setup_fd p).fd_arr fd)
unfolding setup_fd
setup_fd-IsDescriptor p fd lt = elim (Bool-cases (ltb fd 2)) [
  | inl e ↦ rw e (record { flag = inr refl; terminal = λ _. (refl, refl) })
  | inr e ↦
      let all : ltb fd 8 ≡ true = ground arith in
      rw (e, all)
        (record { flag = inl (refl, refl); terminal = λ le. absurd (ground (arith, e, le)) })
]

module _ {D : Type 0} where
  -- the state of execute before the program is read
  record IsStarted (k k1 : Kernel D) : Type 0 where
    keyboard : k1.keyboard ≡ k.keyboard
    fs : k1.fs ≡ k.fs
    count : k1.process_num ≡ k.process_num + 1
    programs :
        (t : ℕ)
        → k1.programs t ≡ (if t == terminal k then k.programs (terminal k) + 1 else k.programs t)
    active : k1.active ≡ k.active
    pcb : k1.pcb ≡ k.pcb
    page :
        physical (k1.paging.page_directory program_page_idx) ≡ 0x800000 + k.process_num * 0x400000

  started :
      (k : Kernel D)
      → k.process_num < 6
      → k.programs (terminal k) < 6
      → is_terminal (terminal k) ≡ true
      → IsStarted k (count_program (start_process k))
  unfolding count_program start_process
  started k few small real = rw real (record {
    keyboard = refl;
    fs = refl;
    count = add32-small k.process_num few;
    programs = λ t. rw (add32-small (k.programs (terminal k)) small) refl;
    active = refl;
    pcb = refl;
    page = (process_page-pages k.process_num 0 0 k.paging (omega arith) (omega arith)).0;
  })

  -- the state after the bookkeeping
  record IsLinked (k k3 : Kernel D) : Type 0 where
    keyboard : k3.keyboard ≡ k.keyboard
    curr : k3.curr ≡ k.curr
    count : k3.process_num ≡ k.process_num
    programs : k3.programs ≡ k.programs
    paging : k3.paging ≡ k.paging
    active : (t : ℕ) → k3.active t ≡ (if t == terminal k then sub32 k.process_num 1 else k.active t)
    pid : (k3.pcb k.curr).pid ≡ sub32 k.process_num 1
    parent :
        (k3.pcb k.curr).parent_pid
        ≡ (if k.programs (terminal k) == 1 then 0 else k.active (terminal k))
    others : (n : ℕ) → n ≢ k.curr → k3.pcb n ≡ k.pcb n

  linked : (k : Kernel D) → is_terminal (terminal k) ≡ true → IsLinked k (link_process k)
  unfolding link_process
  linked k real =
      let same : (k.curr == k.curr) ≡ true = (==_iff k.curr k.curr).1 refl in
      rw real (record {
        keyboard = refl;
        curr = refl;
        count = refl;
        programs = refl;
        paging = refl;
        active = λ t. refl;
        pid = rw same refl;
        parent = rw same refl;
        others = λ n ne. rw (ne→== n k.curr ne) refl;
      })

  -- The state after `launch` from the state `k`.
  pub record Started (f : Frame) (k k' : Kernel D) : Type 0 where
    pub slot : k'.curr ≡ k.process_num + 1
    pub count : k'.process_num ≡ k.process_num + 1
    pub programs :
        (t : ℕ)
        → k'.programs t ≡ (if t == terminal k then k.programs (terminal k) + 1 else k.programs t)
    pub active : (t : ℕ) → k'.active t ≡ (if t == terminal k then k.process_num else k.active t)
    pub pid : (k'.pcb k'.curr).pid ≡ k.process_num
    pub parent :
        (k'.pcb k'.curr).parent_pid
        ≡ (if k.programs (terminal k) + 1 == 1 then 0 else k.active (terminal k))
    pub terminal_same : terminal k' ≡ terminal k
    pub frame : ((k'.pcb k'.curr).ksp_parent ≡ f.esp) × ((k'.pcb k'.curr).kbp_parent ≡ f.ebp)
    pub table : IsOpenTable k'
    pub page :
        physical (k'.paging.page_directory program_page_idx) ≡ 0x800000 + k.process_num * 0x400000
    pub others : (n : ℕ) → n ≢ k'.curr → k'.pcb n ≡ k.pcb n

  finish-Started :
      (f : Frame) (k k1 k2 k3 : Kernel D) (o : ℕ)
      → k.process_num < 6
      → IsStarted k k1
      → k2.keyboard.terminal_check ≡ k1.keyboard.terminal_check
      → k2.curr ≡ k1.process_num
      → k2.process_num ≡ k1.process_num
      → k2.programs ≡ k1.programs
      → k2.active ≡ k1.active
      → k2.pcb ≡ k1.pcb
      → physical (k2.paging.page_directory program_page_idx)
        ≡ physical (k1.paging.page_directory program_page_idx)
      → IsLinked k2 k3
      → Started f k
          (record (set_pcb k3.curr
            (record (setup_fd (k3.pcb k3.curr)) { kbp_parent = f.ebp; ksp_parent = f.esp })
            k3) { esp0 = o })
  unfolding setup_fd
  finish-Started f k k1 k2 k3 o few st here curr num progs act pcb page l =
      let same : (k3.curr == k3.curr) ≡ true = (==_iff k3.curr k3.curr).1 refl in
      let c : k3.curr ≡ k.process_num + 1 = l.curr ∙ curr ∙ st.count in
      let t : terminal k2 ≡ terminal k = here ∙ ap (λ b. b.terminal_check) st.keyboard in
      let own_t : (terminal k == terminal k) ≡ true = (==_iff (terminal k) (terminal k)).1 refl in
      let p = record (setup_fd (k3.pcb k3.curr)) { kbp_parent = f.ebp; ksp_parent = f.esp } in
      let own : (fd : ℕ)
          → (if k3.curr == k3.curr then p else k3.pcb k3.curr).fd_arr fd
            ≡ (setup_fd (k3.pcb k3.curr)).fd_arr fd =
        λ fd. rw same refl in
      let old : (if k2.programs (terminal k2) == 1 then 0 else k2.active (terminal k2))
          ≡ (if k.programs (terminal k) + 1 == 1 then 0 else k.active (terminal k)) =
        rw (t, progs, st.programs (terminal k), own_t, act, st.active) refl in
      record {
        slot = c;
        count = l.count ∙ num ∙ st.count;
        programs = λ i. ap (λ g. g i) (l.programs ∙ progs) ∙ st.programs i;
        active = λ i.
            rw (l.active i, t, num, st.count, sub32-back k.process_num few, act, st.active) refl;
        pid = rw same (
            ap (λ n. (k3.pcb n).pid) l.curr
            ∙ l.pid
            ∙ ap (λ n. sub32 n 1) (num ∙ st.count)
            ∙ sub32-back k.process_num few);
        parent = rw same (ap (λ n. (k3.pcb n).parent_pid) l.curr ∙ l.parent ∙ old);
        terminal_same = ap (λ b. b.terminal_check) l.keyboard ∙ t;
        frame = rw same (refl, refl);
        table = λ fd lt.
            subst (IsDescriptor fd) (sym (own fd)) (setup_fd-IsDescriptor (k3.pcb k3.curr) fd lt);
        page = ap (λ q. physical (q.page_directory program_page_idx)) l.paging ∙ page ∙ st.page;
        others = λ n ne.
            rw (ne→== n k3.curr ne)
              (l.others n (λ e. ne (e ∙ sym l.curr)) ∙ ap (λ g. g n) (pcb ∙ st.pcb));
      }

  -- where the page of the next process has PROGRAM_IMG
  abbrev pub image : Kernel D → ℕ
  image k = 0x800000 + k.process_num * 0x400000 + 0x48000

  -- With fewer than six processes and programs of the terminal, when the two reads of the file and the copy of the
  -- arguments return, launch goes to the word that the second read left, in the memory that the copy left (what that
  -- is, is said in Loaded). The new process has the next slot, its number is one less, its parent_pid is the terminal's active process, or 0 if it is the terminal's first program,
  -- and it is the active one from now on; its descriptors 0 and 1 are the terminal and the
  -- others free, its PCB keeps the stack pointers of execute, and no other PCB changes.
  pub launch-Started :
      (f : Frame) (inode n n' : ℕ) (m1 m2 m3 : Mem) (k : Kernel D)
      → k.process_num < 6
      → k.programs (terminal k) < 6
      → is_terminal (terminal k) ≡ true
      → read_data k.fs inode 0 (image k) program_length (memory k) ≡ some (n, m1)
      → read_data k.fs inode 24 f.entry_point_arr 4 m1 ≡ some (n', m2)
      → strcpy m2 (process_args (k.process_num + 1)) f.args ≡ some m3
      → (k' : Kernel D) × (launch f inode k ≡ some (launched (load32 m2 f.entry_point_arr), k'))
        × Started f k k'
        × (memory k' ≡ m3)
  unfolding launch
  launch-Started f inode n n' m1 m2 m3 k few small real body entry args =
      let k1 = count_program (start_process k) in
      let st = started k few small real in
      let place : physical_of k1.paging program_img ≡ image k = ap (λ a. a + 0x48000) st.page in
      let k2 = record k1 { paging = record k1.paging { flushes = k1.paging.flushes + 1 } } in
      let kk = record (set_memory m3 k2) { curr = k2.process_num } in
      let real' : is_terminal (terminal kk) ≡ true = rw (st.keyboard) real in
      let k3 = link_process kk in
      let p = record (setup_fd (k3.pcb k3.curr)) { kbp_parent = f.ebp; ksp_parent = f.esp } in
      (
        record (set_pcb k3.curr p k3) { esp0 = sub32 (sub32 0x800000 (0x2000 * p.pid % word)) 4 },
        rw (st.fs, place, st.keyboard, body, entry, st.count, args) refl,
        finish-Started f k k1 kk k3 _ few st refl refl refl refl refl refl refl (linked kk real'),
        ap (λ b. b.screen.mem) (linked kk real').keyboard,
      )
