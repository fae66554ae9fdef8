-- ===== src/Kernel.antt =====
-- student-distrib/system_call.c with student-distrib/pcb.h, and the file operations of
-- student-distrib/file_system.c that use the process control blocks. The kernel is one state: the
-- keyboard (whose screen has the memory), the file system, the pages, the clock and the processes.
-- `State` is the globals, `Files` the operations behind the four tables, `Calls` the system calls on
-- descriptors, `Process` execute and halt.
mod Tests
pub mod Sample
pub mod State
pub mod Files
pub mod Calls
pub mod Process
pub mod History
