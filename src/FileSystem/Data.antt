-- ===== src/FileSystem/Data.antt =====
-- read_data_block and read_data of student-distrib/file_system.c.
pub mod Block
pub mod Large
pub mod Whole
pub mod Unchanged
use cheeri_os.Common.{
  ℕ, zero, suc, ◌+◌, ◌-◌, ◌*◌, ◌/◌, ◌%◌, Bool, true, false, ◌||◌, Option, none, some, leb,
  if◌then◌else◌, Mem, load8, store8, add32, sub32, minus_one,
}
use cheeri_os.FileSystem.Layout.{
  Fs, block_size, num_data_blocks, num_inodes, inode_length, block_addr,
}

-- The loop over `i`, which has `block_size - i` rounds left. `block` is the `uint8_t` argument, so
-- that `block * block_size + i` does not wrap; `inode_start[inode].length` is read in every round.
pub read_block_loop : ℕ → Fs → (block inode buf addr length bytes_read i curr : ℕ) → Mem → ℕ × Mem
read_block_loop zero fs block inode buf addr length bytes_read i curr m = (curr, m)
read_block_loop (suc k) fs block inode buf addr length bytes_read i curr m =
    let rest =
      read_block_loop k fs block inode buf addr length bytes_read (i + 1) (curr + 1)
        (store8 m (buf + add32 bytes_read curr) (load8 m (add32 addr i))) in
    if leb (sub32 length bytes_read) curr
    then (curr, m)
    else if leb (inode_length m fs inode) (block * block_size + i)
    then (curr, m)
    else rest

pub read_data_block :
    Fs → (block_num inode buf start_byte data_block_addr length bytes_read : ℕ) → Mem → ℕ × Mem
unfolding read_block_loop
read_data_block fs block_num inode buf start_byte data_block_addr length bytes_read =
    read_block_loop (block_size - start_byte) fs (block_num % 256) inode buf data_block_addr length
      bytes_read start_byte 0

-- `while (1)`, over bytes_read, curr_block_num and curr_block_pos.
pub read_data_loop :
    ℕ → Fs → (inode offset buf length bytes_read block pos : ℕ) → Mem → Option (ℕ × Mem)
read_data_loop zero fs inode offset buf length bytes_read block pos m = none
read_data_loop (suc k) fs inode offset buf length bytes_read block pos m =
    elim (leb length bytes_read || leb (inode_length m fs inode) (add32 offset bytes_read)) [
      | true ↦ some (bytes_read, m)
      | false ↦
          let (n, m') =
            read_data_block fs block inode buf pos (block_addr m fs inode block) length bytes_read
              m in
          read_data_loop k fs inode offset buf length (add32 bytes_read n) (add32 block 1) 0 m'
    ]

-- A round reads at least one byte, so `length + 1` rounds are enough (`Whole`).
pub read_data : Fs → (inode offset buf length : ℕ) → Mem → Option (ℕ × Mem)
read_data fs inode offset buf length m =
    if leb (num_inodes m fs.boot_block) inode
    then some (minus_one, m)
    else if leb (inode_length m fs inode) offset
    then some (minus_one, m)
    else if leb num_data_blocks (offset / block_size)
    then some (minus_one, m)
    else read_data_loop (length + 1) fs inode offset buf length 0 (offset / block_size)
        (offset % block_size) m

abbrev pub file_close : ℕ → ℕ
file_close fd = 0

abbrev pub file_write : (fd buf nbytes : ℕ) → ℕ
file_write fd buf nbytes = minus_one
