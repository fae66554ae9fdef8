-- ===== src/FileSystem/Data/Unchanged.antt =====
-- A file in a memory that was changed elsewhere: its length, the places of its bytes and the bytes are the same.
use cheeri_os.Common.{ℕ, ◌+◌, ◌*◌, ◌/◌, ◌%◌, ◌<◌, ◌≡◌, ◌∙◌, ap, arith, load8, load32, add32, Mem}
use cheeri_os.FileSystem.Layout.{
  Fs, block_size, num_inodes, inode_at, inode_length, block_num_at, block_addr,
}
use cheeri_os.FileSystem.Data.Block.{Apart, ApartWord}
use cheeri_os.FileSystem.Data.Whole.{IsApart, byte_addr, file_byte}

-- `m` has the bytes of `m0` but for the `n` at `buf` and the `n'` at `buf'`.
pub record SameBut (buf n buf' n' : ℕ) (m0 m : Mem) : Type 0 where
  pub at : (a : ℕ) → Apart buf n a → Apart buf' n' a → load8 m a ≡ load8 m0 a

pub SameBut-load32 :
    {buf n buf' n' : ℕ} {m0 m : Mem} (a : ℕ)
    → SameBut buf n buf' n' m0 m
    → ApartWord buf n a
    → ApartWord buf' n' a
    → load32 m a ≡ load32 m0 a
unfolding load32
SameBut-load32 a s first second =
    ground (arith, s.at a, s.at (a + 1), s.at (a + 2), s.at (a + 3), first, second)

pub record SameFile (m0 m : Mem) (fs : Fs) (inode : ℕ) : Type 0 where
  pub length : inode_length m fs inode ≡ inode_length m0 fs inode
  pub count : num_inodes m fs.boot_block ≡ num_inodes m0 fs.boot_block
  pub places :
      (p : ℕ) → p < inode_length m0 fs inode → byte_addr m fs inode p ≡ byte_addr m0 fs inode p
  pub bytes :
      (p : ℕ) → p < inode_length m0 fs inode → file_byte m fs inode p ≡ file_byte m0 fs inode p

module _ {buf n buf' n' : ℕ} {m0 m : Mem} {fs : Fs} {inode : ℕ} (apart : IsApart m0 fs inode buf n)
    (apart' : IsApart m0 fs inode buf' n') (same : SameBut buf n buf' n' m0 m) where
  places-same :
      (p : ℕ) → p < inode_length m0 fs inode → byte_addr m fs inode p ≡ byte_addr m0 fs inode p
  unfolding block_addr
  places-same p lt =
      let k = p / block_size in
      let low : k * block_size < inode_length m0 fs inode = omega arith in
      ap (λ b. add32 (add32 fs.data_block_start (block_size * b)) (p % block_size))
        (SameBut-load32 (block_num_at fs inode k) same (apart.from_numbers k low)
          (apart'.from_numbers k low))

  pub SameBut-SameFile :
      ApartWord buf n (fs.boot_block + 4)
      → ApartWord buf' n' (fs.boot_block + 4)
      → SameFile m0 m fs inode
  unfolding inode_length num_inodes
  SameBut-SameFile boot boot' = record {
    length = SameBut-load32 (inode_at fs inode) same apart.from_length apart'.from_length;
    count = SameBut-load32 (fs.boot_block + 4) same boot boot';
    places = places-same;
    bytes = λ p lt.
        ap (load8 m) (places-same p lt)
        ∙ same.at (byte_addr m0 fs inode p) (apart.from_bytes p lt) (apart'.from_bytes p lt);
  }

  pub SameFile-IsApart : SameFile m0 m fs inode → IsApart m fs inode buf n
  SameFile-IsApart file = record {
    from_length = apart.from_length;
    from_numbers = λ k lt. apart.from_numbers k (omega (arith, file.length));
    from_bytes = λ p lt.
        let low : p < inode_length m0 fs inode = omega (arith, file.length) in
        rw (file.places p low) (apart.from_bytes p low);
  }
