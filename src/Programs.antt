-- ===== src/Programs.antt =====
-- The user programs of syscalls, over the system calls as an interface. A program is a function of the state that
-- its calls change. The addresses of its arrays are arguments, and `literal` is where the linker put a string
-- constant. A loop without a bound takes the rounds that it may run.
mod Tests
pub mod System
pub mod Support
pub mod Files
pub mod Shell
pub mod Pingpong
pub mod Session
pub mod Errors
