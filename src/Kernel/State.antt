-- ===== src/Kernel/State.antt =====
-- The process control blocks of student-distrib/pcb.h and the globals of student-distrib/system_call.c. A
-- PCB goes by its slot n: it stands at 8 MB - n * 8 KB. The four function tables are the constructors of
-- a type; `missing` is the NULL pointer. process_args is kept in the memory, the other fields in a record.
use cheeri_os.Common.{ℕ, ◌+◌, ◌*◌, ◌-◌, Mem, ◌==◌, if◌then◌else◌}
use cheeri_os.FileSystem.Layout.{Fs}
use cheeri_os.Keyboard.State.{Keyboard}
use cheeri_os.Paging.{Paging}
use cheeri_os.Rtc.{Driver}

pub data Table : Type 0 where
  missing std_table rtc_table file_table dir_table : Table

pub record FileDescriptor : Type 0 where
  pub fjt_ptr : Table
  pub inode : ℕ
  pub file_pos : ℕ
  pub flags : ℕ

pub record Pcb : Type 0 where
  pub fd_arr : ℕ → FileDescriptor
  pub pid : ℕ
  pub parent_pid : ℕ
  pub terminal_num : ℕ
  pub ksp_parent : ℕ
  pub kbp_parent : ℕ

-- programs_1, programs_2 and programs_3 are the values of `programs`, and term1_active_pid and so on those
-- of `active`; `curr` is the slot that curr_PCB points to.
pub record Kernel (D : Type 0) : Type 0 where
  pub keyboard : Keyboard
  pub fs : Fs
  pub paging : Paging
  pub rtc : Driver D
  pub pcb : ℕ → Pcb
  pub curr : ℕ
  pub process_num : ℕ
  pub programs : ℕ → ℕ
  pub active : ℕ → ℕ
  pub exception_flag : ℕ
  pub esp0 : ℕ

module _ {D : Type 0} where
  abbrev pub memory : Kernel D → Mem
  memory k = k.keyboard.screen.mem

  abbrev pub set_memory : Mem → Kernel D → Kernel D
  set_memory m k = record k {
    keyboard = record k.keyboard { screen = record k.keyboard.screen { mem = m } };
  }

  abbrev pub set_pcb : ℕ → Pcb → Kernel D → Kernel D
  set_pcb n p k = record k { pcb = λ i. if i == n then p else k.pcb i }

  -- curr_PCB->fd_arr[fd]
  abbrev pub descriptor : Kernel D → ℕ → FileDescriptor
  descriptor k fd = (k.pcb k.curr).fd_arr fd

  abbrev pub set_descriptor : ℕ → FileDescriptor → Kernel D → Kernel D
  set_descriptor fd f k =
      set_pcb k.curr
        (record (k.pcb k.curr) { fd_arr = λ i. if i == fd then f else (k.pcb k.curr).fd_arr i }) k

abbrev pub closed : FileDescriptor
closed = record { fjt_ptr = missing; inode = 0; file_pos = 0; flags = 0 }

-- curr_PCB->process_args of the slot n: eight descriptors of 16 bytes and five words precede it.
abbrev pub process_args : ℕ → ℕ
process_args n = 0x800000 - 0x2000 * n + 148
