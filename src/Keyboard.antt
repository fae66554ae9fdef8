-- ===== src/Keyboard.antt =====
-- student-distrib/keyboard.c: the keyboard interrupt, the three terminals with their line buffers, and
-- reading and writing a terminal. The arrays globalbuffer1..3, the counters count1..3 and the saved
-- cursors are the slots 1..3 of one record each; the pointer `count` is the number of its slot.
-- `Tables` is the scan codes and characters, `Handler` the interrupt, `Terminal` the calls.
pub mod Scan
pub mod State
pub mod Tables
pub mod Handler
pub mod Terminal
mod Tests
