-- ===== src/FileSystem/Data/Whole.antt =====
-- read_data returns the bytes of the file from the offset on, as many as asked for and there.
use native.Mathlib.Decide.{ℕ_discrete}
use cheeri_os.Common.{
  ℕ, zero, suc, ◌+◌, ◌-◌, ◌*◌, ◌/◌, ◌%◌, ◌^◌, ◌≤◌, ◌<◌, ◌≡◌, ◌⊎◌, sym, ap, ap₂, min, true, false,
  some, ◌||◌, arith, not-le→leb, leb, Mem, load8, Written, Written-zero, Written-load32, word,
  add32, minus_one,
}
use cheeri_os.FileSystem.Layout.{
  Fs, block_size, num_data_blocks, num_inodes, inode_at, inode_length, block_num_at, block_addr,
}
use cheeri_os.FileSystem.Data.{read_data_block, read_data_loop, read_data}
use cheeri_os.FileSystem.Data.Block.{Apart, ApartWord, read_block_loop-Written}

-- the address of byte `p` of a file, and the byte
abbrev pub byte_addr : Mem → Fs → ℕ → ℕ → ℕ
byte_addr m fs inode p = add32 (block_addr m fs inode (p / block_size)) (p % block_size)

abbrev pub file_byte : Mem → Fs → ℕ → ℕ → ℕ
file_byte m fs inode p = load8 m (byte_addr m fs inode p)

pub byte_addr-block :
    (m : Mem) (fs : Fs) (inode k t : ℕ)
    → t < block_size
    → byte_addr m fs inode (k * block_size + t) ≡ add32 (block_addr m fs inode k) t
byte_addr-block m fs inode k t lt =
    let quotient : (k * block_size + t) / block_size ≡ k = omega arith in
    let remainder : (k * block_size + t) % block_size ≡ t = omega arith in
    ap₂ (λ q r. add32 (block_addr m fs inode q) r) quotient remainder

pub inode_length-Written :
    {m0 m : Mem} {buf n : ℕ} {f : ℕ → ℕ} (fs : Fs) (inode length : ℕ)
    → Written m0 buf n f m
    → n ≤ length
    → ApartWord buf length (inode_at fs inode)
    → inode_length m fs inode ≡ inode_length m0 fs inode
unfolding inode_length
inode_length-Written fs inode length w le apart = Written-load32 (inode_at fs inode) w (omega arith)

block_addr-Written :
    {m0 m : Mem} {buf n : ℕ} {f : ℕ → ℕ} (fs : Fs) (inode k length : ℕ)
    → Written m0 buf n f m
    → n ≤ length
    → ApartWord buf length (block_num_at fs inode k)
    → block_addr m fs inode k ≡ block_addr m0 fs inode k
unfolding block_addr
block_addr-Written fs inode k length w le apart =
    ap (λ b. add32 fs.data_block_start (block_size * b))
      (Written-load32 (block_num_at fs inode k) w (omega arith))

-- The `length` bytes at `buf` overlap neither the inode nor the file's bytes.
pub record IsApart (m : Mem) (fs : Fs) (inode buf length : ℕ) : Type 0 where
  pub from_length : ApartWord buf length (inode_at fs inode)
  pub from_numbers :
      (k : ℕ)
      → k * block_size < inode_length m fs inode
      → ApartWord buf length (block_num_at fs inode k)
  pub from_bytes : (p : ℕ) → p < inode_length m fs inode → Apart buf length (byte_addr m fs inode p)

module _ (m0 : Mem) (fs : Fs) (inode offset buf length : ℕ) where
  -- how many bytes there are to read
  abbrev pub total : ℕ
  total = min length (inode_length m0 fs inode - offset)

  abbrev pub bytes_from : ℕ → ℕ
  bytes_from j = file_byte m0 fs inode (offset + j)

  module _ (small : length < word) (inside : offset < inode_length m0 fs inode)
      (short : inode_length m0 fs inode ≤ 2 ^ 20) (apart : IsApart m0 fs inode buf length) where
    read_data_block-Written :
        (b block pos : ℕ) {m : Mem}
        → b < total
        → offset + b ≡ block * block_size + pos
        → pos < block_size
        → Written m0 buf b bytes_from m
        → let (n, m') =
            read_data_block fs block inode buf pos (block_addr m fs inode block) length b m in
          (n ≡ min (block_size - pos) (total - b)) × Written m0 buf (b + n) bytes_from m'
    unfolding read_data_block
    read_data_block-Written b block pos {m} more at lt w =
        let addr : block_addr m fs inode block ≡ block_addr m0 fs inode block =
          block_addr-Written fs inode block length w (omega arith)
            (apart.from_numbers block (omega arith)) in
        let narrow : block % 256 ≡ block = omega arith in
        let (count, w') =
          read_block_loop-Written m0 fs (file_byte m0 fs inode) block inode buf
            (block_addr m0 fs inode block) length offset b (block * block_size) small
            apart.from_length (λ t h. sym (ap (load8 m0) (byte_addr-block m0 fs inode block t h)))
            (λ t h in_file.
              rw (byte_addr-block m0 fs inode block t h) at
                (apart.from_bytes (block * block_size + t) in_file))
            (block_size - pos) pos 0 {m = m} (omega arith) (omega arith) (omega arith)
            (let e : b + 0 ≡ b = omega arith in rw e w) in
        rw (addr, narrow) (omega (arith, count), w')

    read_data_loop-Written :
        (k b block pos : ℕ) {m : Mem}
        → b ≤ total
        → length < b + k
        → (b ≡ total) ⊎ (offset + b ≡ block * block_size + pos)
        → pos < block_size
        → Written m0 buf b bytes_from m
        → (m' : Mem) × (read_data_loop k fs inode offset buf length b block pos m
            ≡ some (total, m'))
          × Written m0 buf total bytes_from m'
    unfolding read_data_loop
    read_data_loop-Written zero b block pos le fuel at lt w = absurd (omega arith)
    read_data_loop-Written (suc k) b block pos {m} le fuel at lt w = elim (ℕ_discrete b total) [
      | yes done ↦
          let stop : (leb length b || leb (inode_length m fs inode) (add32 offset b)) ≡ true =
            ground (arith, same_length) in
          (m, rw (stop, read_data_loop) (ap (λ n. some (n, m)) done), rw (← done) w)
      | no more ↦
          let go : (leb length b || leb (inode_length m fs inode) (add32 offset b)) ≡ false =
            ground (arith, same_length) in
          let (count, w') = read_data_block-Written b block pos (omega arith) (omega arith) lt w in
          let n =
            (read_data_block fs block inode buf pos (block_addr m fs inode block) length b m).0 in
          let sum : add32 b n ≡ b + n = omega (arith, count) in
          let (m', runs, w'') =
            read_data_loop-Written k (add32 b n) (add32 block 1) 0 (omega (arith, count))
              (omega (arith, count)) (omega (arith, count)) (omega arith) (rw (← sum) at w') in
          (m', rw (go, read_data_loop) runs, w'')
    ]
      where
        same_length : inode_length m fs inode ≡ inode_length m0 fs inode
        same_length = inode_length-Written fs inode length w (omega arith) apart.from_length

    -- For a file of at most 256 blocks, an offset inside it and a buffer of `length` bytes that overlaps
    -- neither its inode nor its blocks, read_data ends and returns min(length, file length - offset),
    -- the first that many bytes of the buffer are the file's from the offset on, and every other byte of
    -- the memory is as it was.
    pub read_data-Written :
        inode < num_inodes m0 fs.boot_block
        → (m : Mem) × (read_data fs inode offset buf length m0 ≡ some (total, m))
          × Written m0 buf total bytes_from m
    unfolding read_data
    read_data-Written known =
        let (m, runs, w) =
          read_data_loop-Written (length + 1) 0 (offset / block_size) (offset % block_size)
            (omega arith) (omega arith) (omega arith) (omega arith)
            (Written-zero m0 buf bytes_from) in
        (
          m,
          rw
              (
                not-le→leb (num_inodes m0 fs.boot_block) inode known,
                not-le→leb (inode_length m0 fs inode) offset inside,
                not-le→leb num_data_blocks (offset / block_size) (omega arith),
              )
              runs,
          w,
        )

  -- An inode number that the boot block does not count, an offset at or past the end of the file, or
  -- one past the 1023 block numbers of an inode: read_data returns -1 and writes nothing.
  pub read_data-refused :
      (num_inodes m0 fs.boot_block ≤ inode)
        ⊎ (inode_length m0 fs inode ≤ offset)
        ⊎ (num_data_blocks * block_size ≤ offset)
      → read_data fs inode offset buf length m0 ≡ some (minus_one, m0)
  unfolding read_data
  read_data-refused bad = ground arith
