-- ===== src/Kernel/Process/Counts.antt =====
-- The counters of processes through execute and halt of student-distrib/system_call.c: process_num is the sum of
-- programs_1, programs_2 and programs_3.
use cheeri_os.Common.{
  ℕ, ◌+◌, ◌-◌, ◌*◌, ◌%◌, ◌≡◌, ◌⊎◌, ◌∙◌, inl, inr, refl, ap, sym, arith, true, not, ◌==◌, ◌&&◌,
  Bool-cases, [], Each, Each-bind, Each-then, Each-if, if◌then◌else◌, ltb, add32, sub32, word,
  minus_one, Mem, load32,
}
use cheeri_os.Strings.{strlen, strncmp, strcpy}
use cheeri_os.FileSystem.Layout.{inode_num}
use cheeri_os.FileSystem.Data.{read_data}
use cheeri_os.FileSystem.Directory.{read_dentry_by_name}
use cheeri_os.Output.Text.{put_all, put_all-Keeps, printf-text, is_text}
use cheeri_os.Keyboard.Handler.{is_terminal}
use cheeri_os.Keyboard.Handler.Bounds.{IsKeyboard, on_screen-IsKeyboard}
use cheeri_os.Ports.{Machine}
use cheeri_os.Kernel.State.{Kernel, memory, set_memory}
use cheeri_os.Kernel.Process.{
  Frame, terminal, set_programs, exit_terminal, exit_program, start_process, count_program,
  link_process, launch, load_program, execute, halt, max_reached, max_processes, init_arrays,
  name_loop, skip_spaces, args_loop, max_filename, arglength, physical_of, program_img,
  program_length,
}
use cheeri_os.Kernel.Process.Parents.{leave_process-IsLeft}

-- the three counters
abbrev pub sum : (ℕ → ℕ) → ℕ
sum programs = programs 1 + programs 2 + programs 3

-- one of the counters replaced
abbrev replace : (t n : ℕ) → (ℕ → ℕ) → ℕ → ℕ
replace t n programs i = if i == t then n else programs i

sum-add :
    (t n : ℕ) (p : ℕ → ℕ)
    → is_terminal t ≡ true
    → n % word ≡ sum p % word
    → add32 n 1 % word ≡ sum (replace t (add32 (p t) 1) p) % word
sum-add t n p real e = elim cases [
  | inl one ↦ rw one (omega arith)
  | inr (inl two) ↦ rw two (omega arith)
  | inr (inr three) ↦ rw three (omega arith)
]
  where
    cases : (t ≡ 1) ⊎ (t ≡ 2) ⊎ (t ≡ 3)
    cases = ground (arith, real)

sum-sub :
    (t n : ℕ) (p : ℕ → ℕ)
    → is_terminal t ≡ true
    → n % word ≡ sum p % word
    → sub32 n 1 % word ≡ sum (replace t (sub32 (p t) 1) p) % word
sum-sub t n p real e = elim cases [
  | inl one ↦ rw one (omega arith)
  | inr (inl two) ↦ rw two (omega arith)
  | inr (inr three) ↦ rw three (omega arith)
]
  where
    cases : (t ≡ 1) ⊎ (t ≡ 2) ⊎ (t ≡ 3)
    cases = ground (arith, real)

max_reached-text : is_text max_reached ≡ true
unfolding is_text
max_reached-text = refl

module _ {D : Type 0} where
  -- The keyboard's invariant, and the sum, modulo 2 ^ 32.
  pub record IsCounted (k : Kernel D) : Type 0 where
    pub keyboard : IsKeyboard k.keyboard
    pub count : k.process_num % word ≡ sum k.programs % word

  abbrev Counted {ℓ} : {A : Type ℓ} → A × Kernel D → Type 0
  Counted x = IsCounted x.1

  pub memory-IsCounted : (m : Mem) {k : Kernel D} → IsCounted k → IsCounted (set_memory m k)
  memory-IsCounted m {k} v = record {
    keyboard =
        on_screen-IsKeyboard v.keyboard (λ s. record s { mem = m })
          (record {
            column = v.keyboard.screen.column;
            row = v.keyboard.screen.row;
            wrapped = v.keyboard.screen.wrapped;
            filled = v.keyboard.screen.filled;
          });
    count = v.count;
  }

  exit_program-IsCounted : (k : Kernel D) → IsCounted k → IsCounted (exit_program k).1
  unfolding exit_program exit_terminal
  exit_program-IsCounted k v =
      let same : exit_terminal (terminal k) ≡ terminal k = ground (arith, v.keyboard.terminal) in
      rw same (elim (Bool-cases (k.programs (terminal k) == 1)) [
        | inl e ↦ rw e v
        | inr e ↦ rw e (record {
          keyboard = v.keyboard;
          count = sum-sub (terminal k) k.process_num k.programs v.keyboard.terminal v.count;
        })
      ])

  start-IsCounted : (k : Kernel D) → IsCounted k → IsCounted (count_program (start_process k))
  unfolding count_program start_process
  start-IsCounted k v = rw v.keyboard.terminal (record {
    keyboard = v.keyboard;
    count = sum-add (terminal k) k.process_num k.programs v.keyboard.terminal v.count;
  })

  link_process-IsCounted : (k : Kernel D) → IsCounted k → IsCounted (link_process k)
  unfolding link_process
  link_process-IsCounted k v =
      rw v.keyboard.terminal (record { keyboard = v.keyboard; count = v.count })

  launch-IsCounted :
      (f : Frame) (inode : ℕ) (k : Kernel D) → IsCounted k → Each Counted (launch f inode k)
  unfolding launch
  launch-IsCounted f inode k v =
      let k1 = count_program (start_process k) in
      let v1 = start-IsCounted k v in
      let k2 = record k1 { paging = record k1.paging { flushes = k1.paging.flushes + 1 } } in
      Each-then Counted
        (read_data k2.fs inode 0 (physical_of k2.paging program_img) program_length (memory k2)) _
        (λ (n, m1).
          Each-then Counted (read_data k2.fs inode 24 f.entry_point_arr 4 m1) _ (λ (n', m2).
            Each-then Counted (strcpy m2 (0x800000 - 0x2000 * k2.process_num + 148) f.args) _ (λ m3.
              let w = memory-IsCounted m3 v1 in
              let l =
                link_process-IsCounted (record (set_memory m3 k2) { curr = k2.process_num })
                  (record { keyboard = w.keyboard; count = w.count }) in
              record { keyboard = l.keyboard; count = l.count })))

  load_program-IsCounted :
      (f : Frame) (k : Kernel D) → IsCounted k → Each Counted (load_program f k)
  unfolding load_program
  load_program-IsCounted f k v =
      Each-then Counted (read_dentry_by_name k.fs f.file_name f.dentry (memory k)) _ (λ (check, m1).
        Each-if Counted (check == minus_one) _ _ (memory-IsCounted m1 v) (
          Each-then Counted (read_data k.fs (load32 m1 (inode_num f.dentry)) 0 f.buf 4 m1) _
            (λ (n, m2).
              let w = memory-IsCounted m2 v in
              Each-if Counted (not (strncmp m2 f.buf f.exec_check 4 == 0)) _ _ w (
                Each-if Counted (ltb k.process_num max_processes) _ _
                  (launch-IsCounted f (load32 m1 (inode_num f.dentry)) (set_memory m2 k) w)
                  (rw
                    (printf-text max_reached [] f.conv_buf (set_memory m2 k).keyboard.screen
                      max_reached-text)
                    (record {
                      keyboard =
                          on_screen-IsKeyboard v.keyboard
                            (λ s. put_all max_reached (record s { mem = m2 }))
                            (put_all-Keeps max_reached w.keyboard.screen).inside;
                      count = v.count;
                    }))))))

  pub execute-IsCounted :
      (hw : Machine D) (f : Frame) (command : ℕ) (k : Kernel D)
      → IsCounted k
      → Each Counted (execute hw f command k)
  unfolding execute
  execute-IsCounted hw f command k0 v0 =
      let k = record k0 {
        rtc = record k0.rtc { machine = hw.cli k0.rtc.machine };
        exception_flag = 0;
      } in
      let v : IsCounted k = record { keyboard = v0.keyboard; count = v0.count } in
      let m0 = init_arrays f (memory k) in
      let (i, m1) = name_loop max_filename f command 0 m0 in
      Each-if Counted (command == 0) _ _ v (
        Each-then Counted (strlen m0 command) _ (λ n.
          Each-if Counted (n == 0) _ _ (memory-IsCounted m0 v) (
            Each-if Counted (strncmp m1 f.exit_check f.file_name 4 == 0) _ _
              (exit_program-IsCounted (set_memory m1 k) (memory-IsCounted m1 v))
              (Each-then Counted (skip_spaces word command i m1) _ (λ i'.
                load_program-IsCounted f (set_memory (args_loop arglength f command i' 0 m1) k)
                  (memory-IsCounted _ v))))))

  pub halt-IsCounted :
      (hw : Machine D) (f : Frame) (shell status : ℕ) (k : Kernel D)
      → IsCounted k
      → Each Counted (halt hw f shell status k)
  unfolding halt
  halt-IsCounted hw f shell status k0 v0 =
      let k = record k0 { rtc = record k0.rtc { machine = hw.cli k0.rtc.machine } } in
      let t = terminal k in
      let last =
        set_programs t (sub32 (k.programs t) 1)
          (record k { process_num = sub32 k.process_num 1 }) in
      let fewer = sum-sub t k.process_num k.programs v0.keyboard.terminal v0.count in
      Each-if Counted (is_terminal t && k.programs t == 1) _ _
        (Each-bind Counted Counted (execute hw f shell last) _
          (execute-IsCounted hw f shell last (record { keyboard = v0.keyboard; count = fewer }))
          (λ (outcome, k') w. w))
        (elim (Bool-cases ((k.pcb k.curr).parent_pid == minus_one)) [
          | inl e ↦ rw e (record { keyboard = v0.keyboard; count = v0.count })
          | inr e ↦
              let l = leave_process-IsLeft k v0.keyboard.terminal in
              rw e (record {
                keyboard = rw l.keyboard v0.keyboard;
                count =
                    ap (λ n. n % word) l.count
                    ∙ fewer
                    ∙ sym (ap (λ p. sum p % word) (λ i t'. l.programs t' i));
              })
        ])
