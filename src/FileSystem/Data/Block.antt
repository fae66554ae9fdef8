-- ===== src/FileSystem/Data/Block.antt =====
-- read_data_block copies the bytes from its start to the end of the block, of the request or of the
-- file, whichever comes first.
use native.Mathlib.Decide.{dec_le}
use cheeri_os.Common.{
  ℕ, zero, suc, ◌+◌, ◌-◌, ◌*◌, ◌≤◌, ◌<◌, ◌≡◌, ◌⊎◌, ◌∙◌, ap, min, arith, le→leb, not-le→leb, Mem,
  load8, Written, Written-load8, Written-load32, Written-store8_at, word, add32, sub32,
}
use cheeri_os.FileSystem.Layout.{Fs, block_size, inode_at, inode_length}
use cheeri_os.FileSystem.Data.{read_block_loop}

-- The address `a` is not one of the `n` bytes at `buf`.
abbrev pub Apart : ℕ → ℕ → ℕ → Type 0
Apart buf n a = (a < buf) ⊎ (buf + n ≤ a)

-- None of the four bytes at `a` is one of the `n` bytes at `buf`.
abbrev pub ApartWord : ℕ → ℕ → ℕ → Type 0
ApartWord buf n a = (a + 4 ≤ buf) ⊎ (buf + n ≤ a)

-- `g` gives the bytes of the file by their position; the block holds those from `base` on.
module _ (m0 : Mem) (fs : Fs) (g : ℕ → ℕ) (block inode buf addr length offset bytes_read base : ℕ)
    (small : length < word) (len_apart : ApartWord buf length (inode_at fs inode))
    (bytes : (t : ℕ) → t < block_size → load8 m0 (add32 addr t) ≡ g (base + t))
    (apart : (t : ℕ)
      → t < block_size
      → block * block_size + t < inode_length m0 fs inode
      → Apart buf length (add32 addr t)) where
  -- how many bytes the loop still reads
  abbrev pub left : ℕ → ℕ → ℕ → ℕ
  left k i curr =
      min k
        (min (length - (bytes_read + curr)) (inode_length m0 fs inode - (block * block_size + i)))

  pub read_block_loop-Written :
      (k i curr : ℕ) {m : Mem}
      → i + k ≡ block_size
      → bytes_read + curr ≤ length
      → offset + (bytes_read + curr) ≡ base + i
      → Written m0 buf (bytes_read + curr) (λ j. g (offset + j)) m
      → let (n, m') = read_block_loop k fs block inode buf addr length bytes_read i curr m in
        (n ≡ curr + left k i curr) × Written m0 buf (bytes_read + n) (λ j. g (offset + j)) m'
  unfolding read_block_loop inode_length
  read_block_loop-Written zero i curr {m} e le at w = (omega arith, w)
  read_block_loop-Written (suc k) i curr {m} e le at w =
      elim (dec_le (sub32 length bytes_read) curr) [
        | yes full ↦ rw (le→leb _ _ full) (omega arith, w)
        | no more ↦ elim (dec_le (inode_length m fs inode) (block * block_size + i)) [
          | yes end ↦
              rw (not-le→leb (sub32 length bytes_read) curr (omega arith), le→leb _ _ end)
                (omega (arith, same_length), w)
          | no inside ↦
              rw
                (
                  not-le→leb (sub32 length bytes_read) curr (omega arith),
                  not-le→leb (inode_length m fs inode) (block * block_size + i) (omega arith),
                )
                (let source : load8 m (add32 addr i) ≡ load8 m0 (add32 addr i) =
                    Written-load8 (add32 addr i) w (ground (arith, apart i, same_length)) in
                  let value : load8 m0 (add32 addr i) ≡ g (offset + (bytes_read + curr)) =
                    bytes i (omega arith) ∙ ap g (omega arith) in
                  let (count, w') =
                    read_block_loop-Written k (i + 1) (curr + 1) (omega arith) (omega arith)
                      (omega arith)
                      (Written-store8_at (buf + add32 bytes_read curr) (load8 m (add32 addr i))
                        (bytes_read + (curr + 1)) w (omega arith) (omega arith)
                        (omega (arith, source, value))) in
                  (omega (arith, same_length, count), w'))
        ]
      ]
    where
      same_length : inode_length m fs inode ≡ inode_length m0 fs inode
      same_length = Written-load32 (inode_at fs inode) w (omega arith)
