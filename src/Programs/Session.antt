-- ===== src/Programs/Session.antt =====
-- The kernel as the system that the programs call. The kernel reads and writes at the program's addresses as they
-- are.
use Prim.Native.String.{String}
use cheeri_os.Common.{ℕ, ◌+◌, Option, some, ◌>>=◌}
use cheeri_os.Ports.{Machine}
use cheeri_os.Paging.{vidmap}
use cheeri_os.Kernel.State.{Kernel, memory, set_memory}
use cheeri_os.Kernel.Files.{Arrivals}
use cheeri_os.Kernel.Calls.{open_call, close, read, write, getargs}
use cheeri_os.Programs.System.{System}

-- the kernel, and how many reads there were
pub record Session (D : Type 0) : Type 0 where
  pub kernel : Kernel D
  pub reads : ℕ

-- What the source leaves open: what interrupts come while the n-th read waits is `arrivals n`; what a program does
-- that execute starts, until halt brings the processor back, is `run`; `dentry` is the address of the local
-- dentry_t of open and of a read, `page_table` that of vidmap_page, and `literal` that of a string constant.
pub record Host (D : Type 0) : Type 0 where
  pub hw : Machine D
  pub arrivals : ℕ → Arrivals
  pub run : ℕ → Kernel D → Option (ℕ × Kernel D)
  pub dentry : ℕ
  pub page_table : ℕ
  pub literal : String → ℕ

module _ {D : Type 0} where
  -- a call's result in the session
  abbrev pub in_session : Session D → ℕ × Kernel D → ℕ × Session D
  in_session s x = (x.0, record s { kernel = x.1 })

  -- vidmap on the kernel's state
  abbrev pub map_video : (page_table screen_start : ℕ) → Kernel D → ℕ × Kernel D
  map_video page_table screen_start k =
      let x = vidmap page_table screen_start k.paging (memory k) in
      (x.0, record (set_memory x.2 k) { paging = x.1 })

  abbrev pub kernel_system : Host D → System (Session D)
  kernel_system h = record {
    memory = λ s. memory s.kernel;
    set_memory = λ m s. record s { kernel = set_memory m s.kernel };
    execute = λ command s. do
      x ← h.run command s.kernel
      some (in_session s x);
    read = λ fd buf nbytes s. do
      x ← read h.hw (h.arrivals s.reads) h.dentry fd buf nbytes s.kernel
      some (in_session (record s { reads = s.reads + 1 }) x);
    write = λ fd buf nbytes s. do
      x ← write h.hw fd buf nbytes s.kernel
      some (in_session s x);
    open_file = λ filename s. do
      x ← open_call h.dentry filename s.kernel
      some (in_session s x);
    close = λ fd s. some (in_session s (close fd s.kernel));
    getargs = λ buf nbytes s. some (in_session s (getargs buf nbytes s.kernel));
    vidmap = λ screen_start s. some (in_session s (map_video h.page_table screen_start s.kernel));
  }
