-- ===== src/Kernel/Sample.antt =====
-- A kernel of two processes, for the tests: in terminal 1 a program runs on the shell, and the file system has
-- one file "f" of three bytes.
pub mod Facts
pub mod Program
use cheeri_os.Common.{ℕ, ◌+◌, [], ◌==◌, if◌then◌else◌, ltb, Mem}
use cheeri_os.FileSystem.Layout.{Fs}
use cheeri_os.Keyboard.State.{Slot, Keyboard}
use cheeri_os.Paging.{Entry, entry_at}
use cheeri_os.Ports.{Machine}
use cheeri_os.Kernel.State.{Kernel, Pcb, closed, std_table}
use cheeri_os.Kernel.Process.{Frame}

-- The boot block at 4096 counts one entry and one inode; the entry "f" of type 2 at 4160 has inode 0, whose
-- length at 8192 is 3, and block 0, at 12288, begins with "xyz". At 60000 stands the name "f".
abbrev pub bytes : Mem
bytes a =
    if a == 4096
    then 1
    else if a == 4100
    then 1
    else if a == 4160
    then b'f'
    else if a == 4192
    then 2
    else if a == 8192
    then 3
    else if a == 12288
    then b'x'
    else if a == 12289
    then b'y'
    else if a == 12290
    then b'z'
    else if a == 60000
    then b'f'
    else 0

abbrev pub disk : Fs
disk = record { boot_block = 4096; inode_start = 8192; data_block_start = 12288; dir_count = 0 }

abbrev pub slot_empty : Slot
slot_empty = record { buffer = λ a. 0; filled = 0; saved_x = 0; saved_y = 0; saved_newline = 0 }

abbrev pub keys : Keyboard
keys = record {
  screen = record { mem = bytes; screen_x = 0; screen_y = 0; newlinecheck = 0; outs = [] };
  slot = λ i. slot_empty;
  count = 1;
  terminal_check = 1;
  maxflag = 0;
  readflag = 0;
  capslockactive = 0;
  shiftpressed = 0;
  crtlpressed = 0;
  altpressed = 0;
}

abbrev pub cleared : ℕ → Entry
cleared i = entry_at 0 0 0 0

-- The shell in slot 1 is process 0; slot 2 belongs to its child, process 1.
abbrev pub pcb_at : ℕ → Pcb
pcb_at n = record {
  fd_arr = λ i.
      if ltb i 2
      then record { fjt_ptr = std_table; inode = 0; file_pos = 0; flags = 1 }
      else closed;
  pid = if n == 2 then 1 else 0;
  parent_pid = 0;
  terminal_num = 1;
  ksp_parent = 0x7FF000 + n;
  kbp_parent = 0x7FF100 + n;
}

abbrev pub idle : Machine ℕ
idle = record { inb = λ port d. (0, d); outb = λ value port d. d; cli = λ d. d; sti = λ d. d }

abbrev pub shell_only : Kernel ℕ
shell_only = record {
  keyboard = keys;
  fs = disk;
  paging = record {
    page_directory = cleared;
    first_page_table = cleared;
    vidmap_page = cleared;
    enabled = 1;
    flushes = 0;
  };
  rtc = record { machine = 0; interrupt_flag = 0 };
  pcb = pcb_at;
  curr = 1;
  process_num = 1;
  programs = λ t. if t == 1 then 1 else 0;
  active = λ t. 0;
  exception_flag = 0;
  esp0 = 0;
}

-- the same with the child
abbrev pub both : Kernel ℕ
both = record shell_only {
  curr = 2;
  process_num = 2;
  programs = λ t. if t == 1 then 2 else 0;
  active = λ t. if t == 1 then 1 else 0;
}

abbrev pub frame : Frame
frame = record {
  exec_check = 0x7F0000;
  exit_check = 0x7F0010;
  shell_check = 0x7F0020;
  file_name = 0x7F0030;
  args = 0x7F0060;
  dentry = 0x7F0100;
  buf = 0x7F0140;
  entry_point_arr = 0x7F0150;
  conv_buf = 0x7F0160;
  ebp = 0x7F0200;
  esp = 0x7F0300;
}
