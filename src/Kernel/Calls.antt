-- ===== src/Kernel/Calls.antt =====
-- open (here open_call), close, read, write, getargs, set_handler and sigreturn of student-distrib/system_call.c. The
-- descriptor and the count are `int32_t`, as 32-bit patterns.
pub mod Descriptors
pub mod Steps
pub mod Open
pub mod Lookup
pub mod Terminal
use cheeri_os.Common.{
  ℕ, zero, suc, ◌+◌, Bool, ◌||◌, true, false, Option, none, some, ◌>>=◌, ◌==◌, ltb, if◌then◌else◌,
  Mem, load8, load32, minus_one, slt,
}
use cheeri_os.Strings.{strlen, strncpy}
use cheeri_os.FileSystem.Layout.{file_type, inode_num}
use cheeri_os.FileSystem.Directory.{read_dentry_by_name}
use cheeri_os.Ports.{Machine}
use cheeri_os.Rtc.{Driver}
use cheeri_os.Kernel.State.{
  Kernel, Table, missing, rtc_table, file_table, dir_table, FileDescriptor, closed, memory,
  set_memory, descriptor, set_descriptor, process_args,
}
use cheeri_os.Kernel.Files.{Arrivals, call_read, call_write}

abbrev pub min_valid_fd : ℕ
min_valid_fd = 2

abbrev pub max_valid_fd : ℕ
max_valid_fd = 7

abbrev pub fd_loc : ℕ
fd_loc = 6

-- the three tests on file_type; another type leaves the pointer as it is
pub table_of : ℕ → Table → Table
table_of type old =
    if type == 0
    then rtc_table
    else if type == 1
    then dir_table
    else if type == min_valid_fd
    then file_table
    else old

module _ {D : Type 0} where
  -- `for (i = 0; i < FD_LOC; i++)`, with `n` rounds left
  pub free_descriptor : ℕ → ℕ → Kernel D → ℕ
  free_descriptor zero i k = minus_one
  free_descriptor (suc n) i k =
      let rest = free_descriptor n (i + 1) k in
      if (descriptor k (i + min_valid_fd)).flags == 0 then i + min_valid_fd else rest

  -- what open does from its search for a descriptor on
  pub open_entry : ℕ → Kernel D → ℕ × Kernel D
  open_entry dentry k =
      let fd = free_descriptor fd_loc 0 k in
      let type = load32 (memory k) (file_type dentry) in
      if fd == minus_one then (minus_one, k) else (
        fd,
        set_descriptor fd
            (record {
              fjt_ptr = table_of type (descriptor k fd).fjt_ptr;
              inode = if type == min_valid_fd then load32 (memory k) (inode_num dentry) else 0;
              file_pos = 0;
              flags = 1;
            })
            k,
      )

  -- `dentry` is the address of the local dentry_t.
  unfoldable pub open_call : (dentry filename : ℕ) → Kernel D → Option (ℕ × Kernel D)
  open_call dentry filename k = do
    n ← strlen (memory k) filename
    if n == 0 then some (minus_one, k) else do
      (check, m) ← read_dentry_by_name k.fs filename dentry (memory k)
      if check == minus_one
          then some (minus_one, set_memory m k)
          else some (open_entry dentry (set_memory m k))

  unfoldable pub close : ℕ → Kernel D → ℕ × Kernel D
  close fd k =
      if slt fd min_valid_fd || slt max_valid_fd fd
      then (minus_one, k)
      else if (descriptor k fd).flags == 0
      then (minus_one, k)
      else (0, set_descriptor fd closed k)

  unfoldable pub read :
      Machine D → Arrivals → (dentry fd buf nbytes : ℕ) → Kernel D → Option (ℕ × Kernel D)
  read hw a dentry fd buf nbytes k0 =
      let k = record k0 { rtc = record k0.rtc { machine = hw.sti k0.rtc.machine } } in
      if slt fd 0 || slt max_valid_fd fd
      then some (minus_one, k)
      else if fd == 1
      then some (minus_one, k)
      else if buf == 0
      then some (minus_one, k)
      else if (descriptor k fd).flags == 0
      then some (minus_one, k)
      else call_read hw a (descriptor k fd).fjt_ptr dentry fd buf nbytes k

  unfoldable pub write : Machine D → (fd buf nbytes : ℕ) → Kernel D → Option (ℕ × Kernel D)
  write hw fd buf nbytes k =
      if slt fd 0 || slt max_valid_fd fd
      then some (minus_one, k)
      else if fd == 0
      then some (minus_one, k)
      else if buf == 0
      then some (minus_one, k)
      else if (descriptor k fd).flags == 0
      then some (minus_one, k)
      else call_write hw (descriptor k fd).fjt_ptr fd buf nbytes k

  unfoldable pub getargs : (buf nbytes : ℕ) → Kernel D → ℕ × Kernel D
  getargs buf nbytes k =
      if buf == 0
      then (minus_one, k)
      else if load8 (memory k) (process_args k.curr) == 0
      then (minus_one, k)
      else (0, set_memory (strncpy (memory k) buf (process_args k.curr) nbytes) k)

abbrev pub set_handler : (signum handler_address : ℕ) → ℕ
set_handler signum handler_address = minus_one

abbrev pub sigreturn : ℕ
sigreturn = minus_one
