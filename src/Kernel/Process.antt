-- ===== src/Kernel/Process.antt =====
-- execute and halt of student-distrib/system_call.c, stage by stage. `Frame` is where the locals of
-- execute stand on the kernel's stack, and its registers. The memory is the physical one: kernel addresses are
-- mapped to themselves, and PROGRAM_IMG goes through the directory entry that process_page sets. execute
-- either returns or starts the program (`launched`), and halt jumps into the frame it restores.
pub mod Closing
pub mod Parents
pub mod Launch
pub mod Loaded
pub mod RoundTrip
pub mod Counts
use cheeri_os.Common.{
  ℕ, zero, suc, ◌+◌, ◌-◌, ◌*◌, ◌/◌, ◌%◌, ◌^◌, Bool, true, false, not, ◌&&◌, ◌||◌, List, [], ◌∷◌,
  Option, none, some, ◌>>=◌, ◌==◌, ltb, if◌then◌else◌, Mem, load8, load32, store8, word, minus_one,
  add32, sub32,
}
use cheeri_os.Strings.{strlen, strncmp, strcpy, sign_extend}
use cheeri_os.FileSystem.Layout.{inode_num}
use cheeri_os.FileSystem.Data.{read_data}
use cheeri_os.FileSystem.Directory.{read_dentry_by_name}
use cheeri_os.Keyboard.Handler.{is_terminal}
use cheeri_os.Output.{printf}
use cheeri_os.Paging.{Paging, process_page, program_page_idx}
use cheeri_os.Ports.{Machine}
use cheeri_os.Rtc.{Driver}
use cheeri_os.Kernel.State.{
  Kernel, Pcb, Table, std_table, FileDescriptor, closed, memory, set_memory, set_pcb, process_args,
}
use cheeri_os.Kernel.Calls.{close}

pub record Frame : Type 0 where
  pub exec_check : ℕ
  pub exit_check : ℕ
  pub shell_check : ℕ
  pub file_name : ℕ
  pub args : ℕ
  pub dentry : ℕ
  pub buf : ℕ
  pub entry_point_arr : ℕ
  pub conv_buf : ℕ
  pub ebp : ℕ
  pub esp : ℕ

abbrev pub max_filename : ℕ
max_filename = 32

abbrev pub arglength : ℕ
arglength = 128

abbrev pub program_img : ℕ
program_img = 0x08048000

-- FOUR_MB_VAL - PROGRAM_PAGE_OFFSET
abbrev pub program_length : ℕ
program_length = 0x0400000 - 0x048000

abbrev pub max_processes : ℕ
max_processes = 6

-- the bytes of an array at `p`
pub put_bytes : List ℕ → ℕ → Mem → Mem
put_bytes [] p m = m
put_bytes (b ∷ bs) p m = put_bytes bs (p + 1) (store8 m p b)

pub init_arrays : Frame → Mem → Mem
init_arrays f m = put_bytes (b's' ∷ b'h' ∷ b'e' ∷ b'l' ∷ b'l' ∷ []) f.shell_check (
    put_bytes (b'e' ∷ b'x' ∷ b'i' ∷ b't' ∷ []) f.exit_check
      (put_bytes (0x7F ∷ 0x45 ∷ 0x4C ∷ 0x46 ∷ []) f.exec_check m))

-- the loop that copies the command's name, with `n` rounds left: where it stopped
pub name_loop : ℕ → Frame → (command i : ℕ) → Mem → ℕ × Mem
name_loop zero f command i m = (i, m)
name_loop (suc n) f command i m =
    let rest = name_loop n f command (i + 1) (store8 m (f.file_name + i) (load8 m (command + i))) in
    if load8 m (command + i) == b' ' || load8 m (command + i) == b'\n'
    then (i, store8 (store8 m (f.file_name + i) 0) f.args 0)
    else rest

-- `while (command[i] == ' ')`
pub skip_spaces : ℕ → (command i : ℕ) → Mem → Option ℕ
skip_spaces zero command i m = none
skip_spaces (suc n) command i m =
    let rest = skip_spaces n command (i + 1) m in
    if load8 m (command + i) == b' ' then rest else some i

-- `while (j < ARGLENGTH && ...)` with `n` rounds left, and the NUL behind it
pub args_loop : ℕ → Frame → (command i j : ℕ) → Mem → Mem
args_loop zero f command i j m = store8 m (f.args + j) 0
args_loop (suc n) f command i j m =
    let c = load8 m (command + i) in
    let rest = args_loop n f command (i + 1) (j + 1) (store8 m (f.args + j) c) in
    if not (c == b' ') && not (c == 0) && not (c == b'\n') then rest else store8 m (f.args + j) 0

-- the terminal whose counters `exit` uses: the third in place of any other
pub exit_terminal : ℕ → ℕ
exit_terminal t = if t == 1 then 1 else if t == 2 then 2 else 3

-- "Max processes reached\n"
abbrev pub max_reached : List ℕ
max_reached =
    b'M' ∷ b'a' ∷ b'x' ∷ b' ' ∷ b'p' ∷ b'r' ∷ b'o' ∷ b'c' ∷ b'e' ∷ b's' ∷ b's' ∷ b'e' ∷ b's' ∷ b' '
    ∷ b'r' ∷ b'e' ∷ b'a' ∷ b'c' ∷ b'h' ∷ b'e' ∷ b'd' ∷ b'\n' ∷ []

-- what execute does: it returns a value, or the processor goes to the program's entry point
pub data Outcome : Type 0 where
  returned : ℕ → Outcome
  launched : (entry_point : ℕ) → Outcome

-- The address behind a user address of the 4 MB at 128 MB.
abbrev pub physical_of : Paging → ℕ → ℕ
physical_of p a =
    if a / 2 ^ 22 == program_page_idx
    then (p.page_directory program_page_idx).base_address * 0x1000 + a % 2 ^ 22
    else a

-- the loop over the descriptors and setup_FD
pub setup_fd : Pcb → Pcb
setup_fd p = record p {
  fd_arr = λ i.
      if ltb i 2
      then record { fjt_ptr = std_table; inode = 0; file_pos = 0; flags = 1 }
      else if ltb i 8
      then closed
      else p.fd_arr i;
}

-- where halt goes: the frame of an execute, with the status in bl, or out of the execute that started the
-- shell again
pub data Return : Type 0 where
  jump : (esp ebp bl : ℕ) → Return
  restarted : Outcome → Return

module _ {D : Type 0} where
  -- get_cur_terminal()
  abbrev pub terminal : Kernel D → ℕ
  terminal k = k.keyboard.terminal_check

  abbrev pub set_programs : (t n : ℕ) → Kernel D → Kernel D
  set_programs t n k = record k { programs = λ i. if i == t then n else k.programs i }

  abbrev pub set_active : (t n : ℕ) → Kernel D → Kernel D
  set_active t n k = record k { active = λ i. if i == t then n else k.active i }

  -- the command "exit"
  pub exit_program : Kernel D → ℕ × Kernel D
  exit_program k =
      let t = exit_terminal (terminal k) in
      if k.programs t == 1 then (minus_one, k) else (
        0,
        set_programs t (sub32 (k.programs t) 1)
            (record (set_active t (k.pcb (k.active t)).parent_pid k) {
              curr = k.active t;
              process_num = sub32 k.process_num 1;
            }),
      )

  -- One more process, and its page. The branches for "shell" and for other programs are the same.
  pub start_process : Kernel D → Kernel D
  start_process k = record k {
    process_num = add32 k.process_num 1;
    paging = process_page k.process_num k.paging;
  }

  pub count_program : Kernel D → Kernel D
  count_program k =
      if is_terminal (terminal k)
      then set_programs (terminal k) (add32 (k.programs (terminal k)) 1) k
      else k

  -- The fields of the PCB and the active process of the terminal. A base shell's parent_pid is first set to
  -- -1, and then to the active process, which is 0 by then.
  pub link_process : Kernel D → Kernel D
  link_process k =
      let t = terminal k in
      let pid = sub32 k.process_num 1 in
      let p = k.pcb k.curr in
      let old = if k.programs t == 1 then 0 else k.active t in
      if is_terminal t
      then set_active t pid
          (set_pcb k.curr (record p { parent_pid = old; pid = pid; terminal_num = t }) k)
      else set_pcb k.curr (record p { terminal_num = t }) k

  -- from the test of the number of processes to the page: `none` if there are too many
  pub launch : Frame → (inode : ℕ) → Kernel D → Option (Outcome × Kernel D)
  launch f inode k0 = do
    let k1 = count_program (start_process k0)
    let k2 = record k1 { paging = record k1.paging { flushes = k1.paging.flushes + 1 } }
    (n, m1) ← read_data k2.fs inode 0 (physical_of k2.paging program_img) program_length (memory k2)
    (n', m2) ← read_data k2.fs inode 24 f.entry_point_arr 4 m1
    let entry_point = load32 m2 f.entry_point_arr
    m3 ← strcpy m2 (process_args k2.process_num) f.args
    let k3 = link_process (record (set_memory m3 k2) { curr = k2.process_num })
    let p = record (setup_fd (k3.pcb k3.curr)) { kbp_parent = f.ebp; ksp_parent = f.esp }
    let k4 = record (set_pcb k3.curr p k3) {
      esp0 = sub32 (sub32 0x800000 (0x2000 * p.pid % word)) 4;
    }
    some (launched entry_point, k4)

  -- the rest of execute, from the lookup of the file on
  pub load_program : Frame → Kernel D → Option (Outcome × Kernel D)
  load_program f k = do
    (check, m1) ← read_dentry_by_name k.fs f.file_name f.dentry (memory k)
    if check == minus_one then some (returned minus_one, set_memory m1 k) else do
      let inode = load32 m1 (inode_num f.dentry)
      (n, m2) ← read_data k.fs inode 0 f.buf 4 m1
      if not (strncmp m2 f.buf f.exec_check 4 == 0)
          then some (returned minus_one, set_memory m2 k)
          else if ltb k.process_num max_processes
          then launch f inode (set_memory m2 k)
          else (do
            (c, screen) ← printf max_reached [] f.conv_buf (set_memory m2 k).keyboard.screen
            some (returned 0, record k { keyboard = record k.keyboard { screen = screen } }))

  pub execute : Machine D → Frame → (command : ℕ) → Kernel D → Option (Outcome × Kernel D)
  execute hw f command k0 =
      let k = record k0 {
        rtc = record k0.rtc { machine = hw.cli k0.rtc.machine };
        exception_flag = 0;
      } in
      if command == 0 then some (returned minus_one, k) else do
        let m0 = init_arrays f (memory k)
        n ← strlen m0 command
        if n == 0 then some (returned minus_one, set_memory m0 k) else do
          let (i, m1) = name_loop max_filename f command 0 m0
          if strncmp m1 f.exit_check f.file_name 4 == 0
              then (let (value, k') = exit_program (set_memory m1 k) in some (returned value, k'))
              else (do
                i' ← skip_spaces word command i m1
                load_program f (set_memory (args_loop arglength f command i' 0 m1) k))

  -- The code at get_ret_val: `bl` is the status that halt was given, and the result is an `int8_t`.
  unfoldable pub return_value : (bl : ℕ) → Kernel D → ℕ × Kernel D
  return_value bl k =
      if k.exception_flag == 1
      then (256, record k { exception_flag = 0 })
      else (sign_extend (bl % 256), k)

  -- the loop of halt over the descriptors, with `n` left
  pub close_all : ℕ → ℕ → Kernel D → Kernel D
  close_all zero fd k = k
  close_all (suc n) fd k = close_all n (fd + 1) (close fd k).1

  -- the bookkeeping of a process that has a parent
  pub leave_process : Kernel D → Kernel D
  leave_process k0 =
      let k = close_all 8 0 k0 in
      let t = terminal k in
      let slot = k.active t in
      let parent = (k.pcb slot).parent_pid in
      let k' =
        if is_terminal t
        then set_programs t (sub32 (k.programs t) 1) (record (set_active t parent k) {
          process_num = sub32 k.process_num 1;
          curr = slot;
          paging = process_page parent k.paging;
        })
        else k in
      record k' { paging = record k'.paging { flushes = k'.paging.flushes + 1 } }

  -- `shell` is the address of the string "shell". What stands behind the jump is never reached.
  pub halt : Machine D → Frame → (shell status : ℕ) → Kernel D → Option (Return × Kernel D)
  halt hw f shell status k0 =
      let k = record k0 { rtc = record k0.rtc { machine = hw.cli k0.rtc.machine } } in
      let t = terminal k in
      let last =
        set_programs t (sub32 (k.programs t) 1)
          (record k { process_num = sub32 k.process_num 1 }) in
      let left = if not ((k.pcb k.curr).parent_pid == minus_one) then leave_process k else k in
      let p = left.pcb left.curr in
      if is_terminal t && k.programs t == 1
      then (do (outcome, k') ← execute hw f shell last; some (restarted outcome, k'))
      else some (jump p.ksp_parent p.kbp_parent status, record left { esp0 = 0x800000 - 4 })
