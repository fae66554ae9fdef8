-- ===== src/Kernel/Calls/Terminal.antt =====
-- What read and write of student-distrib/system_call.c call for an open descriptor.
use cheeri_os.Common.{ℕ, ◌≤◌, ◌<◌, ◌≡◌, ◌≢◌, ◌||◌, refl, arith, ne→==, false, some, slt, ◌==◌}
use cheeri_os.Ports.{Machine}
use cheeri_os.Keyboard.Terminal.{write_terminal}
use cheeri_os.Kernel.State.{Kernel, descriptor, file_table}
use cheeri_os.Kernel.Files.{Arrivals, file_read, call_read, call_write}
use cheeri_os.Kernel.Calls.{read, write, max_valid_fd}
use cheeri_os.Kernel.Calls.Descriptors.{IsOpenTable}

module _ {D : Type 0} (hw : Machine D) where
  -- write to descriptor 1 is write_terminal.
  pub write-terminal :
      (k : Kernel D) (buf nbytes : ℕ)
      → IsOpenTable k
      → buf ≢ 0
      → write hw 1 buf nbytes k
        ≡ some (
          (write_terminal 1 buf nbytes k.keyboard).0,
          record k { keyboard = (write_terminal 1 buf nbytes k.keyboard).1 },
        )
  unfolding write call_write
  write-terminal k buf nbytes table real =
      let (used, std) = (table 1 (omega arith)).terminal (omega arith) in
      rw (ne→== buf 0 real, used, std) refl

  -- read of an open file is file_read, once interrupts are on.
  pub read-file :
      (a : Arrivals) (dentry fd buf nbytes : ℕ) (k : Kernel D)
      → 2 ≤ fd
      → fd < 8
      → buf ≢ 0
      → (descriptor k fd).flags ≡ 1
      → (descriptor k fd).fjt_ptr ≡ file_table
      → read hw a dentry fd buf nbytes k
        ≡ file_read fd buf nbytes
            (record k { rtc = record k.rtc { machine = hw.sti k.rtc.machine } })
  unfolding read call_read
  read-file a dentry fd buf nbytes k low high real used type =
      let valid : (slt fd 0 || slt max_valid_fd fd) ≡ false = ground arith in
      let other : (fd == 1) ≡ false = ground arith in
      rw (valid, other, ne→== buf 0 real, used, type) refl
