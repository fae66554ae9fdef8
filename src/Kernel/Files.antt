-- ===== src/Kernel/Files.antt =====
-- What the tables std_function_table, rtc_function_table, file_function_table and dir_function_table
-- call, for read and write, and the functions of student-distrib/file_system.c among them. `Arrivals` is what
-- interrupts come while a read waits: scan codes, and ticks of the clock. `dentry` is the address of a
-- local dentry_t.
pub mod Read
use cheeri_os.Common.{
  ℕ, ◌+◌, Bool, List, Option, none, some, ◌>>=◌, leb, if◌then◌else◌, Mem, add32, minus_one,
}
use cheeri_os.FileSystem.Layout.{Fs, inode_length}
use cheeri_os.FileSystem.Data.{read_data, file_write}
use cheeri_os.FileSystem.Directory.{dir_read, dir_write}
use cheeri_os.Keyboard.Tables.{DataSegment}
use cheeri_os.Keyboard.Terminal.{read_terminal, write_terminal}
use cheeri_os.Ports.{Machine}
use cheeri_os.Rtc.{rtc_read, rtc_write}
use cheeri_os.Kernel.State.{
  Kernel, Table, missing, std_table, rtc_table, file_table, dir_table, FileDescriptor, memory,
  set_memory, descriptor, set_descriptor,
}

pub record Arrivals : Type 0 where
  pub segment : DataSegment
  pub scans : List ℕ
  pub ticks : ℕ

module _ {D : Type 0} where
  unfoldable pub file_read : (fd buf nbytes : ℕ) → Kernel D → Option (ℕ × Kernel D)
  file_read fd buf nbytes k =
      let f = descriptor k fd in
      if leb (inode_length (memory k) k.fs f.inode) f.file_pos then some (0, k) else do
        (n, m) ← read_data k.fs f.inode f.file_pos buf nbytes (memory k)
        some (n, set_descriptor fd (record f { file_pos = add32 f.file_pos n }) (set_memory m k))

  -- dir_read on the kernel's state; `dentry` is its local variable
  unfoldable pub read_directory : (dentry buf nbytes : ℕ) → Kernel D → Option (ℕ × Kernel D)
  read_directory dentry buf nbytes k = do
    (n, fs, m) ← dir_read k.fs dentry buf nbytes (memory k)
    some (n, record (set_memory m k) { fs = fs })

  -- `fd_arr[fd].fjt_ptr->read(fd, buf, nbytes)`
  unfoldable pub call_read :
      Machine D → Arrivals → Table → (dentry fd buf nbytes : ℕ) → Kernel D → Option (ℕ × Kernel D)
  call_read hw a missing dentry fd buf nbytes k = none
  call_read hw a std_table dentry fd buf nbytes k = do
    (n, keyboard, rest) ← read_terminal a.segment a.scans fd buf nbytes k.keyboard
    some (n, record k { keyboard = keyboard })
  call_read hw a rtc_table dentry fd buf nbytes k = do
    (n, rtc) ← rtc_read hw a.ticks fd buf nbytes k.rtc
    some (n, record k { rtc = rtc })
  call_read hw a file_table dentry fd buf nbytes k = file_read fd buf nbytes k
  call_read hw a dir_table dentry fd buf nbytes k = read_directory dentry buf nbytes k

  -- `fd_arr[fd].fjt_ptr->write(fd, buf, nbytes)`; file_write and dir_write return -1.
  unfoldable pub call_write :
      Machine D → Table → (fd buf nbytes : ℕ) → Kernel D → Option (ℕ × Kernel D)
  call_write hw missing fd buf nbytes k = none
  call_write hw std_table fd buf nbytes k =
      let (n, keyboard) = write_terminal fd buf nbytes k.keyboard in
      some (n, record k { keyboard = keyboard })
  call_write hw rtc_table fd buf nbytes k =
      let (n, rtc) = rtc_write hw fd buf nbytes (memory k) k.rtc in some (n, record k { rtc = rtc })
  call_write hw file_table fd buf nbytes k = some (file_write fd buf nbytes, k)
  call_write hw dir_table fd buf nbytes k = some (dir_write fd buf nbytes, k)
