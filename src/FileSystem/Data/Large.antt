-- ===== src/FileSystem/Data/Large.antt =====
-- Files of more than 256 blocks: read_data_block takes the block number as a `uint8_t`, so that its
-- test for the end of the file uses the number modulo 256.
use cheeri_os.Common.{
  ℕ, suc, ◌+◌, ◌-◌, ◌*◌, ◌/◌, ◌%◌, ◌≤◌, ◌<◌, ◌≡◌, ap, sym, true, false, some, ◌||◌, arith, leb,
  not-le→leb, Mem, load8, Written, Written-zero, word, add32,
}
use cheeri_os.FileSystem.Layout.{
  Fs, block_size, num_data_blocks, num_inodes, inode_at, inode_length, block_addr,
}
use cheeri_os.FileSystem.Data.{read_data_block, read_data_loop, read_data}
use cheeri_os.FileSystem.Data.Block.{Apart, ApartWord, read_block_loop-Written}
use cheeri_os.FileSystem.Data.Whole.{inode_length-Written, byte_addr-block, file_byte, bytes_from}

module _ (m0 : Mem) (fs : Fs) (inode block buf length : ℕ) (small : length < word)
    (room : block_size ≤ length) (known : inode < num_inodes m0 fs.boot_block) (large : 256 ≤ block)
    (numbered : block < num_data_blocks) (begun : block * block_size < inode_length m0 fs inode)
    (last : inode_length m0 fs inode ≤ block * block_size + block_size)
    (from_length : ApartWord buf length (inode_at fs inode))
    (from_bytes : (t : ℕ)
      → t < block_size
      → Apart buf length (add32 (block_addr m0 fs inode block) t)) where
  abbrev offset : ℕ
  offset = block * block_size

  abbrev round : ℕ × Mem
  round = read_data_block fs block inode buf 0 (block_addr m0 fs inode block) length 0 m0

  whole_block :
      (round.0 ≡ block_size)
      × Written m0 buf (0 + round.0) (bytes_from m0 fs inode offset buf length) round.1
  unfolding read_data_block
  whole_block =
      let (count, w) =
        read_block_loop-Written m0 fs (file_byte m0 fs inode) (block % 256) inode buf
          (block_addr m0 fs inode block) length offset 0 offset small from_length
          (λ t h. sym (ap (load8 m0) (byte_addr-block m0 fs inode block t h)))
          (λ t h in_file. from_bytes t h) block_size 0 0 (omega arith) (omega arith) (omega arith)
          (Written-zero m0 buf (bytes_from m0 fs inode offset buf length)) in
      (omega (arith, count), w)

  two_rounds :
      (k : ℕ)
      → read_data_loop (suc (suc k)) fs inode offset buf length 0 block 0 m0
        ≡ some (block_size, round.1)
  unfolding read_data_loop
  two_rounds k =
      let (count, w) = whole_block in
      let go : (leb length 0 || leb (inode_length m0 fs inode) (add32 offset 0)) ≡ false =
        ground arith in
      let sum : add32 0 round.0 ≡ block_size = omega (arith, count) in
      let same : inode_length round.1 fs inode ≡ inode_length m0 fs inode =
        inode_length-Written fs inode length w (omega (arith, count)) from_length in
      let stop : (leb length (add32 0 round.0)
            || leb (inode_length round.1 fs inode) (add32 offset (add32 0 round.0)))
          ≡ true =
        ground (arith, same, sum) in
      rw (go, read_data_loop) (rw (stop, read_data_loop) (ap (λ n. some (n, round.1)) sum))

  -- Asked for at least 4096 bytes from the start of the last block, where that block's number is at least
  -- 256, read_data returns 4096 and writes the whole block to the buffer, however few of its bytes
  -- belong to the file.
  pub read_data-whole_block :
      (m : Mem) × (read_data fs inode offset buf length m0 ≡ some (block_size, m))
      × Written m0 buf block_size (bytes_from m0 fs inode offset buf length) m
  unfolding read_data
  read_data-whole_block =
      let (count, w) = whole_block in
      let fuel : length + 1 ≡ suc (suc (length - 1)) = omega arith in
      let block' : offset / block_size ≡ block = omega arith in
      let pos : offset % block_size ≡ 0 = omega arith in
      (
        round.1,
        rw
            (
              not-le→leb (num_inodes m0 fs.boot_block) inode known,
              not-le→leb (inode_length m0 fs inode) offset begun,
              fuel,
              block',
              pos,
              not-le→leb num_data_blocks block numbered,
            )
            (two_rounds (length - 1)),
        (let sum : 0 + round.0 ≡ block_size = omega (arith, count) in rw sum at w),
      )
